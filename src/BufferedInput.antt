-- ===== src/BufferedInput.antt =====
-- evd/evd-buffered-input-stream.c: a stream with a buffer into which what has been read can be put back.
pub mod Refine
pub mod Lifecycle
mod Tests
use event_dance.Common.{
  ℕ, zero, suc, ◌+◌, ◌-◌, ◌%◌, ◌^◌, min, leb, ltb, ◌==◌, Bool, true, false, not, ◌&&◌,
  if◌then◌else◌, Option, none, some, List, [], ◌∷◌, ◌++◌, length, take, drop,
}

-- The codes of GIOErrorEnum that the stream sets or looks for.
pub data ErrorCode : Type 0 where
  would_block closed_error no_space is_pending other_error : ErrorCode

-- What a read of the base stream does: it gives some bytes, at most as many as are asked for, or fails.
pub data Answer : Type 0 where
  gives : ℕ → Answer
  fails : ErrorCode → Answer

-- The base stream: the bytes that are still to come, and how its next reads go. Behind the listed answers it
-- gives as much as is asked for.
pub record Base : Type 0 where
  pub incoming : List ℕ
  pub answers : List Answer

-- The result of a read: bytes, or -1 with an error.
pub data ReadResult : Type 0 where
  bytes_read : List ℕ → ReadResult
  read_failed : ErrorCode → ReadResult

-- struct _EvdBufferedInputStreamPrivate; `requested` is requested_size while there is an async_result, `async_room`
-- the size of async_buffer, `scheduled` is read_src_id != 0, and buffer_size is the property of GBufferedInputStream.
pub record Stream : Type 0 where
  pub buffer : List ℕ
  pub requested : Option ℕ
  pub async_room : ℕ
  pub actual_size : ℕ
  pub scheduled : Bool
  pub frozen : Bool
  pub buffer_size : ℕ
  pub base : Base

abbrev pub new : ℕ → Base → Stream
new buffer_size base = record {
  buffer = [];
  requested = none;
  async_room = 0;
  actual_size = 0;
  scheduled = false;
  frozen = false;
  buffer_size = buffer_size;
  base = base;
}

abbrev pub give : ℕ → List Answer → Base → Base × ReadResult
give n later b =
    (record { incoming = drop n b.incoming; answers = later }, bytes_read (take n b.incoming))

abbrev pub answer_read : ℕ → List Answer → Base → Base × ReadResult
answer_read size [] b = give size [] b
answer_read size (gives n ∷ later) b = give (min n size) later b
answer_read size (fails code ∷ later) b =
    (record { incoming = b.incoming; answers = later }, read_failed code)

-- g_input_stream_read on the base stream, which does not call it for no bytes.
unfoldable pub base_read : ℕ → Base → Base × ReadResult
base_read zero b = (b, bytes_read [])
base_read (suc size) b = answer_read (suc size) b.answers b

-- The end of the function read: an error of the base stream is dropped where there are bytes from the buffer.
abbrev pub join_read : List ℕ → ReadResult → ReadResult
join_read from_buf (bytes_read bs) = bytes_read (from_buf ++ bs)
join_read [] (read_failed code) = read_failed code
join_read (c ∷ cs) (read_failed code) = bytes_read (c ∷ cs)

-- evd_buffered_input_stream_read
unfoldable pub read : ℕ → Stream → Stream × ReadResult
read size s =
    let from_buf = take size s.buffer in
    let r = base_read (size - length from_buf) s.base in
    if s.frozen
    then (s, read_failed would_block)
    else (record s { buffer = drop size s.buffer; base = r.0 }, join_read from_buf r.1)

-- What becomes of the pending read when its source runs; `overruns` is a write behind async_buffer.
pub data Fired : Type 0 where
  still_waits : Fired
  completes : ReadResult → Fired
  overruns : Fired

abbrev pub finish_read : ReadResult → Stream → Stream × Fired
finish_read (read_failed would_block) s = (s, still_waits)
finish_read (read_failed code) s = (record s { requested = none }, completes (read_failed code))
finish_read (bytes_read []) s = (s, still_waits)
finish_read (bytes_read (c ∷ cs)) s =
    if ltb s.async_room (length (c ∷ cs)) then (s, overruns) else (
      record s { requested = none; actual_size = s.actual_size + length (c ∷ cs) },
      completes (bytes_read (c ∷ cs)),
    )

abbrev pub read_requested : Option ℕ → Stream → Stream × Fired
read_requested none s = (s, still_waits)
read_requested (some size) s = (let r = read size s in finish_read r.1 r.0)

-- do_read
unfoldable pub do_read : Stream → Stream × Fired
do_read s = read_requested s.requested (record s { scheduled = false })

-- evd_buffered_input_stream_read_async, with a buffer of `size` bytes or more.
unfoldable pub read_async : ℕ → ℕ → Stream → Stream
read_async room size s = record s {
  requested = some size;
  async_room = room;
  actual_size = 0;
  scheduled = if s.frozen then s.scheduled else true;
}

-- g_input_stream_read_async, which refuses a second operation.
abbrev pub unless_pending : Option ℕ → ℕ → ℕ → Stream → Stream × Option ErrorCode
unless_pending none room size s = (read_async room size s, none)
unless_pending (some n) room size s = (s, some is_pending)

abbrev pub start_read : ℕ → ℕ → Stream → Stream × Option ErrorCode
start_read room size s = unless_pending s.requested room size s

-- evd_buffered_input_stream_read_str: it puts a new buffer in place before it asks for the read.
unfoldable pub read_str : ℕ → Stream → Stream × Option ErrorCode
read_str size s =
    let room = size + 1 in
    let prepared = record s { async_room = room } in start_read room size prepared

abbrev pub is_some : Option ℕ → Bool
is_some none = false
is_some (some n) = true

-- evd_buffered_input_stream_thaw
unfoldable pub thaw : Stream → Stream
thaw s = record s {
  frozen = false;
  scheduled = if is_some s.requested && not s.scheduled then true else s.scheduled;
}

abbrev pub freeze : Stream → Stream
freeze s = record s { frozen = true }

-- The result of unread: the number of bytes, or -1 with an error.
pub data Unread : Type 0 where
  stored : ℕ → Unread
  refused : ErrorCode → Unread

abbrev pub unread_bytes : List ℕ → Stream → Stream × Unread
unread_bytes [] s = (s, stored 0)
unread_bytes (c ∷ cs) s =
    let more = c ∷ cs in
    let put = record s { buffer = more ++ s.buffer } in
    if ltb s.buffer_size ((length s.buffer + length more) % 2 ^ 64)
    then (s, refused no_space)
    else (if s.frozen then put else thaw put, stored (length more))

-- evd_buffered_input_stream_unread
unfoldable pub unread : List ℕ → Stream → Stream × Unread
unread more s = unread_bytes more s

abbrev pub cancel_read : Option ℕ → Option ErrorCode
cancel_read none = none
cancel_read (some n) = some closed_error

-- evd_buffered_input_stream_close, and the error with which a pending read ends.
unfoldable pub close_stream : Stream → Stream × Option ErrorCode
close_stream s = (record s { scheduled = false; requested = none }, cancel_read s.requested)

-- evd_buffered_input_stream_read_str_sync: the text, if there is one, and the size.
abbrev pub as_text : ReadResult → Option (List ℕ) × Option ErrorCode
as_text (bytes_read []) = (none, none)
as_text (bytes_read (c ∷ cs)) = (some (c ∷ cs), none)
as_text (read_failed code) = (none, some code)

abbrev pub read_str_idle : Option ℕ → ℕ → Stream → Stream × (Option (List ℕ) × Option ErrorCode)
read_str_idle (some n) size s = (s, (none, some is_pending))
read_str_idle none size s = (let r = read size s in (r.0, as_text r.1))

unfoldable pub read_str_sync : ℕ → Stream → Stream × (Option (List ℕ) × Option ErrorCode)
read_str_sync zero s = (s, (none, none))
read_str_sync (suc size) s = read_str_idle s.requested (suc size) s
