-- ===== src/BufferedOutput/Tests.antt =====
-- evd/evd-buffered-output-stream.c: runs and instances.
use event_dance.Common.{◌≡◌, refl, true, false, none, List, [], ◌∷◌, ◌++◌}
use event_dance.Common.Text.{bytes}
use event_dance.BufferedOutput.{
  would_block, other_error, Answer, takes, fails, Base, wrote, flush_tag, new, write_done,
  completed, base_flush, fill, buffer_rest, write, flush, Operation, writes, writes_async,
  flushes_async, notifies, sets_auto_flush, base_flushed, perform, perform_all,
}
use event_dance.BufferedOutput.Order.{contents, sent_bytes}
use event_dance.BufferedOutput.Calls.{bytes_in_order}

abbrev base : List Answer → Base
base answers = record { written = []; answers = answers }

-- Three bytes of the first word are taken at once; the flush needs two rounds.
abbrev calls : List Operation
calls =
    writes (bytes "hello")
    ∷ writes_async (bytes "you")
    ∷ flushes_async
    ∷ writes (bytes "!")
    ∷ notifies
    ∷ base_flushed none
    ∷ writes (bytes "!")
    ∷ []

abbrev answers : List Answer
answers = takes 3 ∷ takes 1 ∷ takes 9 ∷ fails would_block ∷ []

what_happens :
    (perform_all calls (new (base answers))).1
    ≡ write_done (bytes "hello") (wrote 5)
      ∷ write_done (bytes "you") (wrote 3)
      ∷ base_flush
      ∷ completed flush_tag none
      ∷ write_done (bytes "!") (wrote 1)
      ∷ []
unfolding perform_all perform write flush buffer_rest fill
what_happens = refl

-- An error ends a flush that is waited for, but not the state of flushing.
flushing_stays :
    (perform_all
      (sets_auto_flush false ∷ writes (bytes "hello") ∷ flushes_async ∷ notifies ∷ [])
      (new (base (takes 3 ∷ fails other_error ∷ [])))).0.flushing
    ≡ true
unfolding perform_all perform write flush buffer_rest fill
flushing_stays = refl

bytes_in_order_example :
    contents (perform_all calls (new (base answers))).0
    ≡ [] ++ sent_bytes (perform_all calls (new (base answers))).1
bytes_in_order_example = bytes_in_order calls (base answers)
