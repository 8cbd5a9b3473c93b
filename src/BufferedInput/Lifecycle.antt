-- ===== src/BufferedInput/Lifecycle.antt =====
-- evd/evd-buffered-input-stream.c: calls and sources in any order.
use event_dance.Common.{
  ℕ, zero, suc, ◌+◌, ◌%◌, ◌^◌, ◌≤◌, ◌≡◌, refl, sym, subst, inl, inr, ltb, Bool, true, false,
  Bool-cases, if◌then◌else◌, Option, none, some, List, [], ◌∷◌, ◌++◌, append_assoc, length, arith,
}
use event_dance.BufferedInput.{
  ErrorCode, would_block, closed_error, no_space, is_pending, other_error, Base, ReadResult,
  bytes_read, read_failed, Stream, new, read, finish_read, read_requested, do_read, read_async,
  start_read, unless_pending, read_str, thaw, freeze, Unread, stored, refused, unread_bytes, unread,
  close_stream, read_str_sync, read_str_idle, as_text,
}
use event_dance.BufferedInput.Refine.{
  contents, Event, took, put_back, nothing, Bytes, taking, putting, resting, Bytes-rest, event_of,
  read-Bytes, fired_event, finish_read-Bytes, length-given, read-given, given,
}

abbrev pub unread_event : List ℕ → Unread → Event
unread_event more (stored n) = put_back more
unread_event more (refused code) = nothing

abbrev pub text_event : Option (List ℕ) × Option ErrorCode → Event
text_event (none, e) = nothing
text_event (some bs, e) = took bs

-- One call or source, with what it does to the bytes. A text is asked for only while no read is pending.
pub data Step : Stream → Event → Stream → Type 0 where
  reads : (size : ℕ) (s : Stream) → Step s (event_of (read size s).1) (read size s).0
  syncs :
      (size : ℕ) (s : Stream)
      → Step s (text_event (read_str_sync size s).1) (read_str_sync size s).0
  starts : (room size : ℕ) (s : Stream) → size ≤ room → Step s nothing (start_read room size s).0
  starts_text : (size : ℕ) (s : Stream) → s.requested ≡ none → Step s nothing (read_str size s).0
  fires : (s : Stream) → Step s (fired_event (do_read s).1) (do_read s).0
  unreads :
      (more : List ℕ) (s : Stream) → Step s (unread_event more (unread more s).1) (unread more s).0
  freezes : (s : Stream) → Step s nothing (freeze s)
  thaws : (s : Stream) → Step s nothing (thaw s)
  closes : (s : Stream) → Step s nothing (close_stream s).0

pub data History : Stream → List Event → Stream → Type 0 where
  start : (s : Stream) → History s [] s
  then_step :
      {s t u : Stream} {es : List Event} {e : Event}
      → History s es t
      → Step t e u
      → History s (es ++ (e ∷ [])) u

-- Events on a sequence of bytes, one after the other.
pub data Run : List ℕ → List Event → List ℕ → Type 0 where
  run_start : (bs : List ℕ) → Run bs [] bs
  run_step :
      {bs cs ds : List ℕ} {es : List Event} {e : Event}
      → Run bs es cs
      → Bytes cs e ds
      → Run bs (es ++ (e ∷ [])) ds

-- The pending read fits into its buffer.
abbrev Fits : Option ℕ → ℕ → Type 0
Fits none room = Unit
Fits (some n) room = n ≤ room

abbrev FitsIn : Stream → Type 0
FitsIn s = Fits s.requested s.async_room

read-FitsIn : (size : ℕ) (s : Stream) → FitsIn s → FitsIn (read size s).0
unfolding read
read-FitsIn size s h = elim (Bool-cases s.frozen) [ inl e ↦ rw e h | inr e ↦ rw e h ]

finish_read-FitsIn : (r : ReadResult) (s : Stream) → FitsIn s → FitsIn (finish_read r s).0
finish_read-FitsIn (read_failed would_block) s h = h
finish_read-FitsIn (read_failed closed_error) s h = tt
finish_read-FitsIn (read_failed no_space) s h = tt
finish_read-FitsIn (read_failed is_pending) s h = tt
finish_read-FitsIn (read_failed other_error) s h = tt
finish_read-FitsIn (bytes_read []) s h = h
finish_read-FitsIn (bytes_read (c ∷ cs)) s h =
    elim (Bool-cases (ltb s.async_room (length (c ∷ cs)))) [ inl e ↦ rw e h | inr e ↦ rw e tt ]

read_requested-FitsIn : (o : Option ℕ) (s : Stream) → FitsIn s → FitsIn (read_requested o s).0
read_requested-FitsIn none s h = h
read_requested-FitsIn (some size) s h =
    finish_read-FitsIn (read size s).1 (read size s).0 (read-FitsIn size s h)

unless_pending-FitsIn :
    (o : Option ℕ) (room size : ℕ) (s : Stream)
    → size ≤ room
    → FitsIn s
    → FitsIn (unless_pending o room size s).0
unfolding read_async
unless_pending-FitsIn none room size s le h = le
unless_pending-FitsIn (some n) room size s le h = h

unread_bytes-FitsIn : (more : List ℕ) (s : Stream) → FitsIn s → FitsIn (unread_bytes more s).0
unfolding thaw
unread_bytes-FitsIn [] s h = h
unread_bytes-FitsIn (c ∷ cs) s h =
    either (ltb s.buffer_size ((length s.buffer + length (c ∷ cs)) % 2 ^ 64)) s.frozen
  where
    put : Stream
    put = record s { buffer = (c ∷ cs) ++ s.buffer }

    either :
        (full frozen : Bool)
        → (let t : Stream × Unread =
              if full
              then (s, refused no_space)
              else (if frozen then put else thaw put, stored (length (c ∷ cs))) in
            FitsIn t.0)
    either true frozen = h
    either false true = h
    either false false = h

read_str_idle-FitsIn :
    (o : Option ℕ) (size : ℕ) (s : Stream) → FitsIn s → FitsIn (read_str_idle o size s).0
read_str_idle-FitsIn none size s h = read-FitsIn size s h
read_str_idle-FitsIn (some n) size s h = h

read_str_sync-FitsIn : (size : ℕ) (s : Stream) → FitsIn s → FitsIn (read_str_sync size s).0
unfolding read_str_sync
read_str_sync-FitsIn zero s h = h
read_str_sync-FitsIn (suc size) s h = read_str_idle-FitsIn s.requested (suc size) s h

Step-FitsIn : {s u : Stream} {e : Event} → Step s e u → FitsIn s → FitsIn u
unfolding do_read read_str unread close_stream thaw read_async
Step-FitsIn (reads size s) h = read-FitsIn size s h
Step-FitsIn (syncs size s) h = read_str_sync-FitsIn size s h
Step-FitsIn (starts room size s le) h = unless_pending-FitsIn s.requested room size s le h
Step-FitsIn (starts_text size s e) h =
    subst (λ o. FitsIn (unless_pending o (size + 1) size (record s { async_room = size + 1 })).0)
      (sym e)
      (unless_pending-FitsIn none (size + 1) size
        (record s { async_room = size + 1; requested = none }) (omega arith) tt)
Step-FitsIn (fires s) h = read_requested-FitsIn s.requested (record s { scheduled = false }) h
Step-FitsIn (unreads more s) h = unread_bytes-FitsIn more s h
Step-FitsIn (freezes s) h = h
Step-FitsIn (thaws s) h = h
Step-FitsIn (closes s) h = tt

-- The bytes behind each kind of step.
read_room : (size : ℕ) (s : Stream) → (read size s).0.async_room ≡ s.async_room
unfolding read
read_room size s = elim (Bool-cases s.frozen) [ inl e ↦ rw e refl | inr e ↦ rw e refl ]

read_requested-Bytes :
    (o : Option ℕ) (s : Stream)
    → Fits o s.async_room
    → Bytes (contents s) (fired_event (read_requested o s).1) (contents (read_requested o s).0)
read_requested-Bytes none s h = resting (contents s)
read_requested-Bytes (some size) s h =
    finish_read-Bytes (read size s).1 (read size s).0 (contents s) (read-given size s)
      (omega (arith, length-given size s, read_room size s))

unless_pending-contents :
    (o : Option ℕ) (room size : ℕ) (s : Stream)
    → contents (unless_pending o room size s).0 ≡ contents s
unfolding read_async
unless_pending-contents none room size s = refl
unless_pending-contents (some n) room size s = refl

unread_bytes-Bytes :
    (more : List ℕ) (s : Stream)
    → Bytes
        (contents s)
        (unread_event more (unread_bytes more s).1)
        (contents (unread_bytes more s).0)
unfolding thaw
unread_bytes-Bytes [] s = putting [] (contents s)
unread_bytes-Bytes (c ∷ cs) s =
    either (ltb s.buffer_size ((length s.buffer + length (c ∷ cs)) % 2 ^ 64)) s.frozen
  where
    more : List ℕ
    more = c ∷ cs

    put : Stream
    put = record s { buffer = more ++ s.buffer }

    placed : Bytes (contents s) (put_back more) (contents put)
    placed =
        subst (λ l. Bytes (contents s) (put_back more) l)
          (sym (append_assoc more s.buffer (s.base).incoming)) (putting more (contents s))

    either :
        (full frozen : Bool)
        → (let t : Stream × Unread =
              if full
              then (s, refused no_space)
              else (if frozen then put else thaw put, stored (length more)) in
            Bytes (contents s) (unread_event more t.1) (contents t.0))
    either true frozen = resting (contents s)
    either false true = placed
    either false false = placed

as_text-Bytes :
    (r : ReadResult) (s : Stream) (before : List ℕ)
    → given r ++ contents s ≡ before
    → Bytes before (text_event (as_text r)) (contents s)
as_text-Bytes (bytes_read []) s before e = Bytes-rest before (contents s) e
as_text-Bytes (bytes_read (c ∷ cs)) s before e =
    subst (λ l. Bytes l (took (c ∷ cs)) (contents s)) e (taking (c ∷ cs) (contents s))
as_text-Bytes (read_failed code) s before e = Bytes-rest before (contents s) e

read_str_sync-Bytes :
    (size : ℕ) (s : Stream)
    → Bytes (contents s) (text_event (read_str_sync size s).1) (contents (read_str_sync size s).0)
unfolding read_str_sync
read_str_sync-Bytes zero s = resting (contents s)
read_str_sync-Bytes (suc size) s = either s.requested
  where
    either :
        (o : Option ℕ)
        → Bytes
            (contents s)
            (text_event (read_str_idle o (suc size) s).1)
            (contents (read_str_idle o (suc size) s).0)
    either none =
        as_text-Bytes (read (suc size) s).1 (read (suc size) s).0 (contents s)
          (read-given (suc size) s)
    either (some n) = resting (contents s)

Step-Bytes : {s u : Stream} {e : Event} → Step s e u → FitsIn s → Bytes (contents s) e (contents u)
unfolding do_read read_str unread close_stream thaw
Step-Bytes (reads size s) h = read-Bytes size s
Step-Bytes (syncs size s) h = read_str_sync-Bytes size s
Step-Bytes (starts room size s le) h =
    Bytes-rest (contents s) (contents (start_read room size s).0)
      (unless_pending-contents s.requested room size s)
Step-Bytes (starts_text size s e) h =
    Bytes-rest (contents s)
      (contents (start_read (size + 1) size (record s { async_room = size + 1 })).0)
      (unless_pending-contents s.requested (size + 1) size (record s { async_room = size + 1 }))
Step-Bytes (fires s) h = read_requested-Bytes s.requested (record s { scheduled = false }) h
Step-Bytes (unreads more s) h = unread_bytes-Bytes more s
Step-Bytes (freezes s) h = resting (contents s)
Step-Bytes (thaws s) h = resting (contents s)
Step-Bytes (closes s) h = resting (contents s)

History-FitsIn : {s u : Stream} {es : List Event} → History s es u → FitsIn s → FitsIn u
History-FitsIn (start s) h = h
History-FitsIn (then_step hist step) h = Step-FitsIn step (History-FitsIn hist h)

fitting_run :
    {s u : Stream} {es : List Event} → History s es u → FitsIn s → Run (contents s) es (contents u)
fitting_run (start s) h = run_start (contents s)
fitting_run (then_step hist step) h =
    run_step (fitting_run hist h) (Step-Bytes step (History-FitsIn hist h))

-- The stream is one sequence of bytes, whatever calls and sources come in whatever order and
-- however the reads of the base stream go, as long as an asynchronous read is given a buffer of its size and a
-- text is asked for only while no read is pending: from a new stream on, what is read is taken from the front
-- of the bytes that the base stream was to bring, what is unread comes back to the front, and a
-- call that fails or waits changes nothing. No byte is lost, repeated or moved.
pub reads_in_order :
    {u : Stream} {es : List Event} (buffer_size : ℕ) (base : Base)
    → History (new buffer_size base) es u
    → Run base.incoming es (contents u)
reads_in_order buffer_size base h = fitting_run h tt
