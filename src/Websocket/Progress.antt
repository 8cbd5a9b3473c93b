-- ===== src/Websocket/Progress.antt =====
-- evd/evd-websocket-protocol.c: the loop of process_data ends.
use event_dance.Common.{
  ℕ, zero, suc, ◌+◌, ◌-◌, ◌*◌, ◌≤◌, ◌<◌, ◌≡◌, refl, sym, inl, inr, Bool, true, false, Bool-cases,
  not, if◌then◌else◌, some, List, [], ◌++◌, length, length-drop, drop, take, ltb, ◌==◌, ==_iff,
  arith,
}
use event_dance.Websocket.Connection.{
  Data, Effect, ReadingState, idle, header, payload_len, masking_key, payload, is_closed,
}
use event_dance.Websocket.Closing.{Env}
use event_dance.Websocket.Reader.{
  read_header, read_payload_len, read_payload, read_masking_key, drop_frame, read_part, is_idle,
  start_frame, read_round, goes_on, process_data, available,
}
use event_dance.Websocket.Split.{fits, handle_frame-Handled}

-- A payload of no bytes is the only part that takes none.
abbrev pub rank : ReadingState → ℕ
rank payload = 1
rank _ = 0

-- What is left to read.
abbrev pub size : Data → ℕ
size d = 2 * available d + rank d.reading_state

-- EVD_WEBSOCKET_READING_STATE_HEADER is never set.
abbrev pub AwaitsPart : ReadingState → Type 0
AwaitsPart header = ⊥
AwaitsPart _ = Unit

pub record Advanced (before : ℕ) (d : Data) : Type 0 where
  pub inside : d.offset ≤ length d.buf
  pub smaller : size d < before
  pub awaits : AwaitsPart d.reading_state

not_both : false ≡ true → ⊥
not_both e = cc

read_payload-Advanced :
    (d : Data) (env : Env) (n : ℕ)
    → d.offset ≤ length d.buf
    → ltb (available d) d.payload_len ≡ false
    → 2 * available d < n
    → Advanced n (read_payload d env).0
unfolding read_payload drop_frame
read_payload-Advanced d env n h e le =
    let f = handle_frame-Handled env [] d (fits (length d.buf) d.offset d.payload_len h e) in
    rw (e, f.same_buf, f.same_offset, f.same_len)
      (record {
        inside = omega arith;
        smaller = omega (arith, length-drop (d.offset + d.payload_len) d.buf);
        awaits = tt;
      })

none_wanted : (have n : ℕ) → n ≡ 0 → ltb have n ≡ false
none_wanted have n z = ground arith

read_masking_key-Advanced :
    (d : Data) (env : Env) (n : ℕ)
    → d.offset ≤ length d.buf
    → ltb (available d) 4 ≡ false
    → 2 * available d ≤ n
    → Advanced n (read_masking_key d env).0
unfolding read_masking_key
read_masking_key-Advanced d env n h e le =
    let fit = fits (length d.buf) d.offset 4 h e in
    elim (Bool-cases (d.payload_len == 0)) [
      | inl z ↦
          rw (e, z)
            (read_payload-Advanced
              (record d {
                masking_key = take 4 (drop d.offset d.buf);
                offset = d.offset + 4;
                reading_state = payload;
              })
              env n (omega arith)
              (none_wanted (length d.buf - (d.offset + 4)) d.payload_len ((==_iff _ _).0 z))
              (omega arith))
      | inr z ↦ rw (e, z) (record { inside = omega arith; smaller = omega arith; awaits = tt })
    ]

after_length-Advanced :
    (d : Data) (n k : ℕ)
    → d.offset + k ≤ length d.buf
    → 1 ≤ k
    → 2 * available d ≤ n
    → (masked : Bool)
    → Advanced n (record d {
      offset = d.offset + k;
      reading_state = if masked then masking_key else payload;
    })
after_length-Advanced d n k fit one le true = record {
  inside = omega arith;
  smaller = omega arith;
  awaits = tt;
}
after_length-Advanced d n k fit one le false = record {
  inside = omega arith;
  smaller = omega arith;
  awaits = tt;
}

read_payload_len-Advanced :
    (d : Data) (n : ℕ)
    → d.offset ≤ length d.buf
    → (read_payload_len d).1 ≡ true
    → 2 * available d ≤ n
    → Advanced n (read_payload_len d).0
unfolding read_payload_len
read_payload_len-Advanced d n h e le = elim (Bool-cases (d.payload_len == 126)) [
  | inl z ↦ elim (Bool-cases (ltb (available d) 2)) [
    | inl s ↦ absurd (not_both (rw (z, s) at e))
    | inr s ↦
        rw (z, s)
          (after_length-Advanced (record d { payload_len = _ }) n 2
            (fits (length d.buf) d.offset 2 h s) (omega arith) le d.masked)
  ]
  | inr z ↦ elim (Bool-cases (ltb (available d) 8)) [
    | inl s ↦ absurd (not_both (rw (z, s) at e))
    | inr s ↦
        rw (z, s)
          (after_length-Advanced (record d { payload_len = _ }) n 8
            (fits (length d.buf) d.offset 8 h s) (omega arith) le d.masked)
  ]
]

-- A part that is read moves the reader on.
read_part-Advanced :
    (s : ReadingState) (d : Data) (env : Env) (n : ℕ)
    → d.offset ≤ length d.buf
    → AwaitsPart s
    → is_idle s ≡ false
    → (read_part s d env).2 ≡ true
    → 2 * available d + rank s ≤ n
    → Advanced n (read_part s d env).0
unfolding read_part
read_part-Advanced payload d env n h a i e le =
    elim (Bool-cases (ltb (available d) d.payload_len)) [
      | inl s ↦ absurd (not_both (unfold read_payload in rw s at e))
      | inr s ↦ read_payload-Advanced d env n h s (omega arith)
    ]
read_part-Advanced masking_key d env n h a i e le = elim (Bool-cases (ltb (available d) 4)) [
  | inl s ↦ absurd (not_both (unfold read_masking_key in rw s at e))
  | inr s ↦ read_masking_key-Advanced d env n h s (omega arith)
]
read_part-Advanced idle d env n h a i e le = absurd (not_both (sym i))
read_part-Advanced header d env n h a i e le = elim a [ ]
read_part-Advanced payload_len d env n h a i e le = read_payload_len-Advanced d n h e (omega arith)

header_busy :
    (b masked : Bool)
    → let s = if b then payload_len else if masked then masking_key else payload in
      (rank s ≤ 1) × (AwaitsPart s × (is_idle s ≡ false))
header_busy true masked = (omega arith, (tt, refl))
header_busy false true = (omega arith, (tt, refl))
header_busy false false = (omega arith, (tt, refl))

-- The header takes two bytes.
read_header-Busy :
    (d : Data)
    → d.offset ≤ length d.buf
    → ltb (available d) 2 ≡ false
    → let d' = (read_header d).0 in
      (d'.offset ≤ length d'.buf)
      × (size d' < 2 * available d)
      × AwaitsPart d'.reading_state
      × (is_idle d'.reading_state ≡ false)
unfolding read_header
read_header-Busy d h e = rw e (
    let fit = fits (length d.buf) d.offset 2 h e in
    let b = header_busy (ltb 125 _) _ in
    (omega (arith, fit), omega (arith, fit, b.0), b.1.0, b.1.1))

header_done : (d : Data) → ltb (available d) 2 ≡ false → (read_header d).1 ≡ true
unfolding read_header
header_done d e = rw e refl

-- A complete round moves the reader on.
pub read_round-Advanced :
    (d : Data) (env : Env)
    → d.offset ≤ length d.buf
    → AwaitsPart d.reading_state
    → (read_round d env).2 ≡ true
    → Advanced (size d) (read_round d env).0
unfolding read_round start_frame
read_round-Advanced d env h a e = elim (Bool-cases (is_idle d.reading_state)) [
  | inr b ↦ rw b (read_part-Advanced d.reading_state d env (size d) h a b (rw b at e) (omega arith))
  | inl b ↦ elim (Bool-cases (ltb (available d) 2)) [
    | inl s ↦ absurd (not_both (unfold read_header in rw (b, s) at e))
    | inr s ↦
        let busy = read_header-Busy d h s in
        let d' = (read_header d).0 in
        rw (b, header_done d s)
          (read_part-Advanced d'.reading_state d' env (size d) busy.0 busy.2 busy.3
            (rw (b, header_done d s) at e) (omega (arith, busy.1)))
  ]
]

-- With the offset in the buffer and a reading state other than HEADER, which no code sets, the loop of
-- process_data ends after at most twice as many rounds as there are bytes left, and one or two more.
pub process_data_ends :
    (n : ℕ) (d : Data) (env : Env)
    → d.offset ≤ length d.buf
    → AwaitsPart d.reading_state
    → size d < n
    → (r : Data × List Effect × Bool) × (process_data n d env ≡ some r)
unfolding process_data
process_data_ends zero d env h a le = elim le [ ]
process_data_ends (suc n) d env h a le = elim (Bool-cases (goes_on d)) [
  | inr g ↦ ((d, [], not (is_closed d.state)), rw g refl)
  | inl g ↦ elim (Bool-cases (read_round d env).2) [
    | inr e ↦ (((read_round d env).0, (read_round d env).1, true), rw (g, e) refl)
    | inl e ↦
        let next = read_round-Advanced d env h a e in
        let rest =
          process_data_ends n (read_round d env).0 env next.inside next.awaits
            (omega (arith, next.smaller)) in
        ((rest.0.0, (read_round d env).1 ++ rest.0.1, rest.0.2), rw (g, e, rest.1) refl)
  ]
]
