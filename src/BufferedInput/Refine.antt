-- ===== src/BufferedInput/Refine.antt =====
-- evd/evd-buffered-input-stream.c: the stream as one sequence of bytes.
use event_dance.Common.{
  ℕ, zero, suc, ◌-◌, ◌≤◌, ◌≡◌, refl, sym, ap, ap₂, ◌∙◌, subst, inl, inr, min, leb, ltb, Bool, true,
  false, Bool-cases, if◌then◌else◌, List, [], ◌∷◌, ◌++◌, append-nil, append_assoc, length,
  length-append, length-take, leb→le, take, drop, take-append-drop, take_all, arith,
}
use event_dance.BufferedInput.{
  would_block, closed_error, no_space, is_pending, other_error, Answer, gives, fails, Base,
  ReadResult, bytes_read, read_failed, Stream, answer_read, base_read, join_read, read, Fired,
  still_waits, completes, overruns, finish_read,
}

-- The bytes that a reader has still to get.
abbrev pub contents : Stream → List ℕ
contents s = s.buffer ++ (s.base).incoming

-- What an event does to the sequence of bytes.
pub data Event : Type 0 where
  took : List ℕ → Event
  put_back : List ℕ → Event
  nothing : Event

-- The specification: bytes are taken from the front and put back at the front.
pub data Bytes : List ℕ → Event → List ℕ → Type 0 where
  taking : (bs rest : List ℕ) → Bytes (bs ++ rest) (took bs) rest
  putting : (bs rest : List ℕ) → Bytes rest (put_back bs) (bs ++ rest)
  resting : (rest : List ℕ) → Bytes rest nothing rest

Bytes-take : (before bs rest : List ℕ) → bs ++ rest ≡ before → Bytes before (took bs) rest
Bytes-take before bs rest e = subst (λ l. Bytes l (took bs) rest) e (taking bs rest)

pub Bytes-rest : (before rest : List ℕ) → rest ≡ before → Bytes before nothing rest
Bytes-rest before rest e = subst (λ l. Bytes l nothing rest) e (resting rest)

-- What a read gives, and what is left.
abbrev pub given : ReadResult → List ℕ
given (bytes_read bs) = bs
given (read_failed code) = []

answer_read-given :
    (size : ℕ) (answers : List Answer) (b : Base)
    → given (answer_read size answers b).1 ++ (answer_read size answers b).0.incoming ≡ b.incoming
answer_read-given size [] b = take-append-drop size b.incoming
answer_read-given size (gives n ∷ later) b = take-append-drop (min n size) b.incoming
answer_read-given size (fails code ∷ later) b = refl

base_read-given :
    (size : ℕ) (b : Base) → given (base_read size b).1 ++ (base_read size b).0.incoming ≡ b.incoming
unfolding base_read
base_read-given zero b = refl
base_read-given (suc size) b = answer_read-given (suc size) b.answers b

-- Nothing is asked of the base stream while the buffer has enough.
base_read-none : (n : ℕ) (b : Base) → n ≡ 0 → base_read n b ≡ (b, bytes_read [])
unfolding base_read
base_read-none zero b e = refl
base_read-none (suc n) b e = absurd (omega (arith, e))

given-join_read :
    (from_buf : List ℕ) (r : ReadResult) → given (join_read from_buf r) ≡ from_buf ++ given r
given-join_read from_buf (bytes_read bs) = refl
given-join_read [] (read_failed code) = refl
given-join_read (c ∷ cs) (read_failed code) = sym (append-nil (c ∷ cs))

drop_all : (n : ℕ) (xs : List ℕ) → length xs ≤ n → drop n xs ≡ []
drop_all zero [] h = refl
drop_all zero (x ∷ xs) h = absurd (omega arith)
drop_all (suc n) [] h = refl
drop_all (suc n) (x ∷ xs) h = drop_all n xs (omega arith)

-- The buffer and then the base stream.
both_given :
    (size : ℕ) (buffer : List ℕ) (b : Base)
    → (let r = base_read (size - length (take size buffer)) b in
        (take size buffer ++ given r.1) ++ (drop size buffer ++ (r.0).incoming)
        ≡ buffer ++ b.incoming)
both_given size buffer b = elim (Bool-cases (leb size (length buffer))) [
  | inl e ↦
      let le = leb→le size (length buffer) e in
      let no_need =
        base_read-none (size - length (take size buffer)) b
          (omega (arith, length-take size buffer, le)) in
      ap
        (λ (r : Base × ReadResult).
          (take size buffer ++ given r.1) ++ (drop size buffer ++ (r.0).incoming))
        no_need
      ∙ ap (λ l. l ++ (drop size buffer ++ b.incoming)) (append-nil (take size buffer))
      ∙ sym (append_assoc (take size buffer) (drop size buffer) b.incoming)
      ∙ ap (λ l. l ++ b.incoming) (take-append-drop size buffer)
  | inr e ↦
      let le = past size (length buffer) e in
      let r = base_read (size - length (take size buffer)) b in
      ap (λ l. (take size buffer ++ given r.1) ++ (l ++ (r.0).incoming)) (drop_all size buffer le)
      ∙ append_assoc (take size buffer) (given r.1) (r.0).incoming
      ∙ ap₂ (λ l m. l ++ m) (take_all size buffer le)
          (base_read-given (size - length (take size buffer)) b)
]
  where
    past : (a b : ℕ) → leb a b ≡ false → b ≤ a
    past a b h = ground arith

pub read-given :
    (size : ℕ) (s : Stream) → given (read size s).1 ++ contents (read size s).0 ≡ contents s
unfolding read
read-given size s = either s.frozen
  where
    from_buf : List ℕ
    from_buf = take size s.buffer

    r : Base × ReadResult
    r = base_read (size - length from_buf) s.base

    either :
        (b : Bool)
        → (let t : Stream × ReadResult =
              if b
              then (s, read_failed would_block)
              else (record s { buffer = drop size s.buffer; base = r.0 }, join_read from_buf r.1) in
            given t.1 ++ contents t.0 ≡ contents s)
    either true = refl
    either false =
        ap (λ l. l ++ (drop size s.buffer ++ (r.0).incoming)) (given-join_read from_buf r.1)
        ∙ both_given size s.buffer s.base

-- The event of a result.
abbrev pub event_of : ReadResult → Event
event_of (bytes_read bs) = took bs
event_of (read_failed code) = nothing

Bytes-of :
    (r : ReadResult) (before after : List ℕ)
    → given r ++ after ≡ before
    → Bytes before (event_of r) after
Bytes-of (bytes_read bs) before after e = Bytes-take before bs after e
Bytes-of (read_failed code) before after e = Bytes-rest before after e

pub read-Bytes :
    (size : ℕ) (s : Stream)
    → Bytes (contents s) (event_of (read size s).1) (contents (read size s).0)
read-Bytes size s =
    Bytes-of (read size s).1 (contents s) (contents (read size s).0) (read-given size s)

abbrev pub fired_event : Fired → Event
fired_event (completes r) = event_of r
fired_event still_waits = nothing
fired_event overruns = nothing

answer_read-length :
    (size : ℕ) (answers : List Answer) (b : Base)
    → length (given (answer_read size answers b).1) ≤ size
answer_read-length size [] b = omega (arith, length-take size b.incoming)
answer_read-length size (gives n ∷ later) b = omega (arith, length-take (min n size) b.incoming)
answer_read-length size (fails code ∷ later) b = omega arith

base_read-length : (size : ℕ) (b : Base) → length (given (base_read size b).1) ≤ size
unfolding base_read
base_read-length zero b = omega arith
base_read-length (suc size) b = answer_read-length (suc size) b.answers b

pub length-given : (size : ℕ) (s : Stream) → length (given (read size s).1) ≤ size
unfolding read
length-given size s = either s.frozen
  where
    from_buf : List ℕ
    from_buf = take size s.buffer

    r : Base × ReadResult
    r = base_read (size - length from_buf) s.base

    either :
        (b : Bool)
        → (let t : Stream × ReadResult =
              if b
              then (s, read_failed would_block)
              else (record s { buffer = drop size s.buffer; base = r.0 }, join_read from_buf r.1) in
            length (given t.1) ≤ size)
    either true = omega arith
    either false = omega (
      arith,
      ap length (given-join_read from_buf r.1),
      length-append from_buf (given r.1),
      length-take size s.buffer,
      base_read-length (size - length from_buf) s.base,
    )

pub finish_read-Bytes :
    (r : ReadResult) (s : Stream) (before : List ℕ)
    → given r ++ contents s ≡ before
    → length (given r) ≤ s.async_room
    → Bytes before (fired_event (finish_read r s).1) (contents (finish_read r s).0)
finish_read-Bytes (read_failed would_block) s before e h = Bytes-rest before (contents s) e
finish_read-Bytes (read_failed closed_error) s before e h = Bytes-rest before (contents s) e
finish_read-Bytes (read_failed no_space) s before e h = Bytes-rest before (contents s) e
finish_read-Bytes (read_failed is_pending) s before e h = Bytes-rest before (contents s) e
finish_read-Bytes (read_failed other_error) s before e h = Bytes-rest before (contents s) e
finish_read-Bytes (bytes_read []) s before e h = Bytes-rest before (contents s) e
finish_read-Bytes (bytes_read (c ∷ cs)) s before e h =
    rw (enough s.async_room (length (c ∷ cs)) h) (Bytes-take before (c ∷ cs) (contents s) e)
  where
    enough : (room n : ℕ) → n ≤ room → ltb room n ≡ false
    enough room n h = ground arith
