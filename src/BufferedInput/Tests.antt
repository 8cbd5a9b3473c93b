-- ===== src/BufferedInput/Tests.antt =====
-- evd/evd-buffered-input-stream.c: runs and instances.
use event_dance.Common.{◌≡◌, refl, [], ◌∷◌, ◌++◌}
use event_dance.Common.Text.{bytes}
use event_dance.BufferedInput.{
  would_block, no_space, gives, fails, Base, bytes_read, read_failed, Stream, new, base_read, read,
  overruns, do_read, read_async, start_read, read_str, thaw, freeze, stored, refused, unread,
}
use event_dance.BufferedInput.Refine.{contents, took, put_back}
use event_dance.BufferedInput.Lifecycle.{
  History, start, then_step, reads, unreads, Run, reads_in_order,
}

abbrev base : Base
base = record { incoming = bytes "hello world"; answers = gives 5 ∷ fails would_block ∷ [] }

abbrev fresh : Stream
fresh = new 8 base

abbrev after_hello : Stream
after_hello = (read 20 fresh).0

a_read : (read 20 fresh).1 ≡ bytes_read (bytes "hello")
unfolding read base_read
a_read = refl

abbrev after_unread : Stream
after_unread = (unread (bytes "lo") after_hello).0

an_unread : (unread (bytes "lo") after_hello).1 ≡ stored 2
unfolding unread read base_read
an_unread = refl

-- The error of the base stream is dropped behind bytes of the buffer.
a_read_again : (read 20 after_unread).1 ≡ bytes_read (bytes "lo")
unfolding unread read base_read thaw
a_read_again = refl

-- A text that is asked for while a read is pending is refused, and the pending read then writes into its buffer.
too_small : (do_read (read_str 2 (start_read 9 9 fresh).0).0).1 ≡ overruns
unfolding do_read read_str read_async read base_read
too_small = refl

frozen_read : (read 3 (freeze fresh)).1 ≡ read_failed would_block
unfolding read
frozen_read = refl

no_more_room : (unread (bytes "too long!") fresh).1 ≡ refused no_space
unfolding unread
no_more_room = refl

abbrev a_history :
    History fresh (([] ++ (took (bytes "hello") ∷ [])) ++ (put_back (bytes "lo") ∷ [])) after_unread
unfolding read base_read unread
a_history = then_step (then_step (start fresh) (reads 20 fresh)) (unreads (bytes "lo") after_hello)

reads_in_order_example :
    Run
      (bytes "hello world")
      (([] ++ (took (bytes "hello") ∷ [])) ++ (put_back (bytes "lo") ∷ []))
      (contents after_unread)
reads_in_order_example = reads_in_order 8 base a_history
