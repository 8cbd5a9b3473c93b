-- ===== src/ChunkedDecoder/Bounds.antt =====
-- evd/evd-http-chunked-decoder.c: what every call of convert keeps, and the header that is too long.
use event_dance.Common.{
  ℕ, zero, suc, ◌+◌, ◌-◌, ◌*◌, ◌≤◌, ◌<◌, ◌≡◌, refl, inl, inr, min, ltb, ltb→lt, ◌==◌, Bool, false,
  Bool-cases, Option, some, List, [], ◌∷◌, ◌++◌, length, length-append, length-take, length-drop,
  subst, arith,
}
use event_dance.ChunkedDecoder.{
  converted, with_flush, Status, reading_chunk_header, reading_content, reading_crlf_1,
  reading_crlf_2, Decoder, is_header_char, is_first, Iteration, go, stop, overrun, read_header,
  read_crlf, read_content, iterate, Run, ended, overran, written_first, loop, flush_loop, convert,
}

-- READING_CONTENT means that content is due.
abbrev pub AwaitsContent : Status → ℕ → Type 0
AwaitsContent reading_content n = 0 < n
AwaitsContent _ n = Unit

pub record IsDecoder (d : Decoder) : Type 0 where
  pub few_chars : length d.hdr_buf ≤ 10
  pub due : AwaitsContent d.status d.chunk_left

-- The end of a header takes a round and no byte.
abbrev pub rank : Status → ℕ
rank reading_chunk_header = 1
rank _ = 0

-- A round from a state of this size of header, with so many bytes of input and of room.
IsIteration : ℕ → ℕ → ℕ → ℕ → Iteration → Type 0
IsIteration size chars n room (go d rest out) =
    IsDecoder d
    × (length out ≤ room)
    × (length out + length rest ≤ n)
    × (2 * length rest + rank d.status < size)
IsIteration size chars n room (stop d rest result) = IsDecoder d × (length rest ≤ n)
IsIteration size chars n room overrun = chars ≡ 10

rank-le : (s : Status) → rank s ≤ 1
rank-le reading_chunk_header = omega arith
rank-le reading_content = omega arith
rank-le reading_crlf_1 = omega arith
rank-le reading_crlf_2 = omega arith

positive_awaits : (s : Status) (n : ℕ) → 0 < n → AwaitsContent s n
positive_awaits reading_chunk_header n h = tt
positive_awaits reading_content n h = h
positive_awaits reading_crlf_1 n h = tt
positive_awaits reading_crlf_2 n h = tt

full : (n : ℕ) → n ≤ 10 → ltb n 10 ≡ false → n ≡ 10
full n h e = ground arith

above_zero : (n : ℕ) → (n == 0) ≡ false → 0 < n
above_zero n e = ground arith

module _ (d : Decoder) (v : IsDecoder d) (c : ℕ) (cs : List ℕ) (room : ℕ) where
  read_header-IsIteration :
      IsIteration
        (2 * suc (length cs) + 1)
        (length d.hdr_buf)
        (suc (length cs))
        room
        (read_header d c cs)
  unfolding read_header IsIteration
  read_header-IsIteration = elim (Bool-cases (is_header_char c)) [
    | inl e ↦ elim (Bool-cases (ltb (length d.hdr_buf) 10)) [
      | inl f ↦
          rw (e, f)
            (
              record {
                few_chars = omega (arith, ltb→lt _ _ f, length-append d.hdr_buf (c ∷ []));
                due = v.due;
              },
              omega arith,
              omega arith,
              omega (arith, rank-le d.status),
            )
      | inr f ↦ rw (e, f) (full (length d.hdr_buf) v.few_chars f)
    ]
    | inr e ↦ elim (Bool-cases (ltb 0 (length d.hdr_buf))) [
      | inr z ↦ rw (e, z) (v, omega arith)
      | inl z ↦ elim (Bool-cases (ltb (length d.hdr_buf) 10)) [
        | inl f ↦
            rw (e, z, f)
              (record { few_chars = omega arith; due = tt }, omega arith, omega arith, omega arith)
        | inr f ↦ rw (e, z, f) (full (length d.hdr_buf) v.few_chars f)
      ]
    ]
  ]

  read_crlf-IsIteration :
      IsIteration
        (2 * suc (length cs) + 0)
        (length d.hdr_buf)
        (suc (length cs))
        room
        (read_crlf d c cs)
  unfolding read_crlf IsIteration
  read_crlf-IsIteration = elim (Bool-cases (d.crlf_pos == 0)) [
    | inl z ↦ elim (Bool-cases (c == 13)) [
      | inl e ↦
          rw (z, e)
            (
              record { few_chars = v.few_chars; due = v.due },
              omega arith,
              omega arith,
              omega (arith, rank-le d.status),
            )
      | inr e ↦ rw (z, e) (v, omega arith)
    ]
    | inr z ↦ elim (Bool-cases (c == 10)) [
      | inr e ↦ rw (z, e) (v, omega arith)
      | inl e ↦ elim (Bool-cases (is_first d.status)) [
        | inr f ↦
            rw (z, e, f)
              (record { few_chars = v.few_chars; due = tt }, omega arith, omega arith, omega arith)
        | inl f ↦ elim (Bool-cases (d.chunk_left == 0)) [
          | inl n ↦ rw (z, e, f, n) (record { few_chars = v.few_chars; due = v.due }, omega arith)
          | inr n ↦
              rw (z, e, f, n)
                (
                  record { few_chars = v.few_chars; due = above_zero d.chunk_left n },
                  omega arith,
                  omega arith,
                  omega arith,
                )
        ]
      ]
    ]
  ]

  read_content-IsIteration :
      0 < d.chunk_left
      → 0 < room
      → IsIteration
          (2 * suc (length cs) + 0)
          (length d.hdr_buf)
          (suc (length cs))
          room
          (read_content d (c ∷ cs) room)
  unfolding read_content IsIteration
  read_content-IsIteration p h =
      let move = min (min d.chunk_left (suc (length cs))) room in
      let taken = length-take move (c ∷ cs) in
      let dropped = length-drop move (c ∷ cs) in
      elim (Bool-cases (d.chunk_left - move == 0)) [
        | inl z ↦ rw z (
          record { few_chars = v.few_chars; due = tt },
          omega (arith, taken),
          omega (arith, taken, dropped),
          omega (arith, dropped),
        )
        | inr z ↦ rw z (
          record {
            few_chars = v.few_chars;
            due = positive_awaits d.status (d.chunk_left - move) (above_zero _ z);
          },
          omega (arith, taken),
          omega (arith, taken, dropped),
          omega (arith, dropped, rank-le d.status),
        )
      ]

  iterate-IsIteration :
      (s : Status)
      → d.status ≡ s
      → 0 < room
      → IsIteration
          (2 * suc (length cs) + rank s)
          (length d.hdr_buf)
          (suc (length cs))
          room
          (iterate s d c cs room)
  unfolding iterate
  iterate-IsIteration reading_chunk_header e h = read_header-IsIteration
  iterate-IsIteration reading_crlf_1 e h = read_crlf-IsIteration
  iterate-IsIteration reading_crlf_2 e h = read_crlf-IsIteration
  iterate-IsIteration reading_content e h =
      read_content-IsIteration (subst (λ s. AwaitsContent s d.chunk_left) e v.due) h

-- The bounds of a run on `n` bytes of input with room for `room` bytes.
abbrev pub IsRun : ℕ → ℕ → Run → Type 0
IsRun n room (ended d rest out result) =
    IsDecoder d × (length out ≤ room) × (length out + length rest ≤ n)
IsRun n room overran = Unit

abbrev pub Ends : ℕ → ℕ → Option Run → Type 0
Ends n room o = (r : Run) × (o ≡ some r) × IsRun n room r

written_first-Ends :
    (n room k : ℕ) (out : List ℕ) (o : Option Run)
    → length out ≤ room
    → length out + k ≤ n
    → Ends k (room - length out) o
    → Ends n room (written_first out o)
written_first-Ends n room k out o h i (overran, e, b) = (overran, rw e refl, tt)
written_first-Ends n room k out o h i (ended d rest more result, e, (v, le, fits)) = (
  ended d rest (out ++ more) result,
  rw e refl,
  (v, omega (arith, length-append out more), omega (arith, length-append out more)),
)

-- A round, with the rounds behind it.
turn-Ends :
    (fuel : ℕ) (d : Decoder) (c : ℕ) (cs : List ℕ) (room : ℕ)
    → ((d' : Decoder) (rest : List ℕ) (k : ℕ)
        → IsDecoder d'
        → 2 * length rest + rank d'.status < fuel
        → Ends (length rest) k (loop fuel d' rest k))
    → (i : Iteration) → iterate d.status d c cs room ≡ i
    → IsIteration (2 * suc (length cs) + rank d.status) (length d.hdr_buf) (suc (length cs)) room i
    → (room == 0) ≡ false
    → 2 * suc (length cs) + rank d.status < suc fuel
    → Ends (suc (length cs)) room (loop (suc fuel) d (c ∷ cs) room)
unfolding loop IsIteration
turn-Ends fuel d c cs room later (go d' rest out) e w z h =
    rw (z, e)
      (written_first-Ends (suc (length cs)) room (length rest) out
        (loop fuel d' rest (room - length out)) w.1 w.2
        (later d' rest (room - length out) w.0 (omega (arith, w.3, h))))
turn-Ends fuel d c cs room later (stop d' rest result) e w z h =
    (ended d' rest [] result, rw (z, e) refl, (w.0, omega arith, omega (arith, w.1)))
turn-Ends fuel d c cs room later overrun e w z h = (overran, rw (z, e) refl, tt)

loop-Ends :
    (fuel : ℕ) (d : Decoder) (input : List ℕ) (room : ℕ)
    → IsDecoder d
    → 2 * length input + rank d.status < fuel
    → Ends (length input) room (loop fuel d input room)
unfolding loop IsIteration
loop-Ends zero d input room v h = absurd (omega arith)
loop-Ends (suc fuel) d [] room v h = (ended d [] [] converted, refl, (v, omega arith, omega arith))
loop-Ends (suc fuel) d (c ∷ cs) room v h = elim (Bool-cases (room == 0)) [
  | inl z ↦ (ended d (c ∷ cs) [] converted, rw z refl, (v, omega arith, omega arith))
  | inr z ↦
      turn-Ends fuel d c cs room (λ d' rest k. loop-Ends fuel d' rest k)
        (iterate d.status d c cs room) refl
        (iterate-IsIteration d v c cs room d.status refl (above_zero room z)) z h
]

-- A call of convert on a well-formed decoder always ends, with two rounds for each byte of the input and two
-- more: unless it writes behind hdr_buf, it leaves a well-formed decoder, writes at most
-- outbuf_size bytes, and no more bytes than it has read. A decoder is well-formed if its header
-- has at most ten characters and it waits for content only when some is due.
pub convert-Ends :
    (fuel : ℕ) (d : Decoder) (inbuf : List ℕ) (outbuf_size : ℕ) (flush : Bool)
    → IsDecoder d
    → 2 * length inbuf + 1 < fuel
    → Ends (length inbuf) outbuf_size (convert fuel d inbuf outbuf_size flush)
unfolding convert
convert-Ends fuel d inbuf outbuf_size flush v h =
    flushed (loop fuel d inbuf outbuf_size)
      (loop-Ends fuel d inbuf outbuf_size v (omega (arith, rank-le d.status)))
  where
    flushed :
        (o : Option Run)
        → Ends (length inbuf) outbuf_size o
        → Ends (length inbuf) outbuf_size (flush_loop flush o)
    flushed o (overran, e, b) = (overran, rw e refl, tt)
    flushed o (ended d' rest out result, e, b) =
        (ended d' rest out (with_flush flush result), rw e refl, b)
