-- ===== src/BufferedOutput.antt =====
-- evd/evd-buffered-output-stream.c: a stream with a buffer for what the base stream does not take yet.
pub mod Calls
pub mod Order
mod Tests
use event_dance.Common.{
  ℕ, zero, suc, ◌+◌, ◌-◌, min, ltb, ◌==◌, Bool, true, false, not, ◌&&◌, ◌||◌, if◌then◌else◌, Option,
  none, some, List, [], ◌∷◌, ◌++◌, length, take, drop,
}

-- The codes of GIOErrorEnum that the stream sets or looks for.
pub data ErrorCode : Type 0 where
  would_block closed_error other_error : ErrorCode

-- What a write to the base stream does: it takes some bytes, at most as many as there are, or fails.
pub data Answer : Type 0 where
  takes : ℕ → Answer
  fails : ErrorCode → Answer

-- The base stream: the bytes that it has taken, and how its next writes go. Behind the listed answers it takes
-- everything.
pub record Base : Type 0 where
  pub written : List ℕ
  pub answers : List Answer

-- The result of a write: a number of bytes, or -1 with an error.
pub data WriteResult : Type 0 where
  wrote : ℕ → WriteResult
  write_failed : ErrorCode → WriteResult

-- The source tag of an async_result.
pub data Tag : Type 0 where
  write_tag flush_tag : Tag

-- struct _EvdBufferedOutputStreamPrivate; `pending` is the mark that GOutputStream keeps, which the stream takes
-- away itself where it completes a call.
pub record Stream : Type 0 where
  pub buffer : List ℕ
  pub buffer_size : ℕ
  pub auto_grow : Bool
  pub auto_flush : Bool
  pub flushing : Bool
  pub async_result : Option Tag
  pub actual_size : ℕ
  pub pending : Bool
  pub base : Base

-- evd_buffered_output_stream_init
abbrev pub new : Base → Stream
new base = record {
  buffer = [];
  buffer_size = 8192;
  auto_grow = true;
  auto_flush = true;
  flushing = false;
  async_result = none;
  actual_size = 0;
  pending = false;
  base = base;
}

-- What a call does besides: a write that has a result, an async_result that is completed, with its error if it has
-- one, and a call of g_output_stream_flush_async on the base stream.
pub data Effect : Type 0 where
  write_done : List ℕ → WriteResult → Effect
  completed : Tag → Option ErrorCode → Effect
  base_flush : Effect

abbrev append : List ℕ → Stream → Stream
append buf s = record s { buffer = s.buffer ++ buf }

-- evd_buffered_output_stream_fill
unfoldable pub fill : List ℕ → Stream → Stream × ℕ
fill buf s =
    let needed = length s.buffer + length buf in
    let room = s.buffer_size - length s.buffer in
    if ltb s.buffer_size needed
    then if s.auto_grow
      then (append buf (record s { buffer_size = needed }), length buf)
      else (append (take room buf) s, room)
    else (append buf s, length buf)

abbrev pub answer_write : List ℕ → List Answer → Stream → Stream × WriteResult
answer_write buf [] s =
    (record s { base = record (s.base) { written = s.base.written ++ buf } }, wrote (length buf))
answer_write buf (takes n ∷ later) s = (
  record s { base = record { written = s.base.written ++ take n buf; answers = later } },
  wrote (min n (length buf)),
)
answer_write buf (fails code ∷ later) s =
    (record s { base = record (s.base) { answers = later } }, write_failed code)

-- evd_buffered_output_stream_real_write; GIO calls no stream for no bytes.
abbrev pub real_write : List ℕ → Stream → Stream × WriteResult
real_write [] s = (s, wrote 0)
real_write (c ∷ cs) s = answer_write (c ∷ cs) s.base.answers s

abbrev pub filled : ℕ → Stream × ℕ → Stream × WriteResult
filled n r = (r.0, wrote (n + r.1))

-- What the function write does behind the write to the base stream.
unfoldable pub buffer_rest : List ℕ → Stream × WriteResult → Stream × WriteResult
buffer_rest buf (s, write_failed would_block) = filled 0 (fill buf s)
buffer_rest buf (s, write_failed closed_error) = (s, write_failed closed_error)
buffer_rest buf (s, write_failed other_error) = (s, write_failed other_error)
buffer_rest buf (s, wrote n) =
    if ltb n (length buf) then filled n (fill (drop n buf) s) else (s, wrote n)

abbrev pub is_empty : List ℕ → Bool
is_empty [] = true
is_empty (c ∷ cs) = false

-- evd_buffered_output_stream_write
unfoldable pub write : List ℕ → Stream → Stream × WriteResult
write buf s =
    if not (is_empty s.buffer) || not s.auto_flush
    then filled 0 (fill buf s)
    else buffer_rest buf (real_write buf s)

abbrev pub finish_write : List ℕ → Stream × WriteResult → Stream × List Effect
finish_write buf (s, write_failed code) =
    (record s { pending = false }, write_done buf (write_failed code) ∷ [])
finish_write buf (s, wrote n) =
    if n == length buf
    then (record s { pending = false }, write_done buf (wrote n) ∷ [])
    else (record s { async_result = some write_tag }, [])

-- evd_buffered_output_stream_write_async, for which GIO has set the mark.
abbrev pub write_async : List ℕ → Stream → Stream × List Effect
write_async buf s = finish_write buf (write buf (record s { pending = true }))

abbrev pub fail_pending : ErrorCode → Option Tag → Stream → Stream × List Effect
fail_pending code none s = (s, [])
fail_pending code (some tag) s =
    (record s { async_result = none; pending = false }, completed tag (some code) ∷ [])

abbrev pub flush_ended : Option Tag → Stream → Stream × List Effect
flush_ended (some flush_tag) s =
    if is_empty s.buffer then (record s { flushing = false }, base_flush ∷ []) else (s, [])
flush_ended (some write_tag) s = (s, [])
flush_ended none s = (s, [])

-- The result of flush: the error, if there is one.
abbrev pub finish_flush : Stream × WriteResult → (Stream × List Effect) × Option ErrorCode
finish_flush (s, write_failed code) = (fail_pending code s.async_result s, some code)
finish_flush (s, wrote zero) = ((s, []), none)
finish_flush (s, wrote (suc n)) = (
  flush_ended s.async_result
      (record s { buffer = drop (suc n) s.buffer; actual_size = s.actual_size + suc n }),
  none,
)

-- evd_buffered_output_stream_flush
unfoldable pub flush : Stream → (Stream × List Effect) × Option ErrorCode
flush s = finish_flush (real_write s.buffer s)

abbrev pub await_flush : (Stream × List Effect) × Option ErrorCode → Stream × List Effect
await_flush ((s, es), some code) =
    (record s { pending = false }, es ++ (completed flush_tag (some code) ∷ []))
await_flush ((s, es), none) =
    let waiting = record s { async_result = some flush_tag } in
    if is_empty s.buffer
    then (waiting, es ++ (base_flush ∷ []))
    else (record waiting { flushing = true }, es)

-- evd_buffered_output_stream_flush_async, for which GIO has set the mark; where it fails at once, GIO takes the mark
-- away with the result.
abbrev pub flush_async : Stream → Stream × List Effect
flush_async s = await_flush (flush (record s { pending = true }))

abbrev pub complete_result : Option ErrorCode → Option Tag → Stream → Stream × List Effect
complete_result e none s = (s, [])
complete_result e (some tag) s = (record s { async_result = none }, completed tag e ∷ [])

-- evd_buffered_output_stream_on_base_stream_flushed
abbrev pub on_base_stream_flushed : Option ErrorCode → Stream → Stream × List Effect
on_base_stream_flushed e s = complete_result e s.async_result (record s { pending = false })

-- evd_buffered_output_stream_close
abbrev pub fail_waiting : Stream → Stream × List Effect
fail_waiting s = complete_result (some closed_error) s.async_result s

-- evd_buffered_output_stream_notify_write
abbrev pub notify_write : Stream → Stream × List Effect
notify_write s =
    let flushed = (flush s).0 in
    if s.flushing || (s.auto_flush && not (is_empty s.buffer)) then flushed else (s, [])

-- evd_buffered_output_stream_set_auto_flush
abbrev pub set_auto_flush : Bool → Stream → Stream × List Effect
set_auto_flush true s = notify_write (record s { auto_flush = true })
set_auto_flush false s = (record s { auto_flush = false }, [])

-- The property "auto-flush", which is set without a flush.
abbrev pub set_property : Bool → Stream → Stream
set_property value s = record s { auto_flush = value }

-- The calls from outside and the callbacks.
pub data Operation : Type 0 where
  writes writes_async : List ℕ → Operation
  flushes flushes_async notifies closes : Operation
  sets_auto_flush sets_property : Bool → Operation
  base_flushed : Option ErrorCode → Operation

abbrev pub written_now : List ℕ → Stream × WriteResult → Stream × List Effect
written_now buf (s, r) = (s, write_done buf r ∷ [])

-- GIO refuses what comes while a call is pending.
abbrev pub unless_pending : Stream → Stream × List Effect → Stream × List Effect
unless_pending s r = if s.pending then (s, []) else r

unfoldable pub perform : Operation → Stream → Stream × List Effect
perform (writes buf) s = unless_pending s (written_now buf (write buf s))
perform (writes_async buf) s = unless_pending s (write_async buf s)
perform flushes s = unless_pending s (flush s).0
perform flushes_async s = unless_pending s (flush_async s)
perform notifies s = notify_write s
perform closes s = unless_pending s (fail_waiting s)
perform (sets_auto_flush b) s = set_auto_flush b s
perform (sets_property b) s = (set_property b s, [])
perform (base_flushed e) s = on_base_stream_flushed e s

unfoldable pub perform_all : List Operation → Stream → Stream × List Effect
perform_all [] s = (s, [])
perform_all (o ∷ os) s =
    let r = perform o s in let rest = perform_all os r.0 in (rest.0, r.1 ++ rest.1)
