-- ===== src/Websocket/Split.antt =====
-- evd/evd-websocket-protocol.c: the reader does not see where one read of the stream ends and the
-- next begins.
pub mod Parts
pub mod Rounds
pub mod Pieces
use event_dance.Common.{
  ℕ, zero, suc, ◌+◌, ◌-◌, ◌*◌, ◌≤◌, ◌<◌, ◌≡◌, refl, sym, ap, ◌∙◌, Bool, true, false, Bool-cases,
  not, ◌&&◌, ◌||◌, inl, inr, subst, Option, none, some, List, [], ◌∷◌, ◌++◌, append_assoc, length,
  length-append, get_or, take, drop, ltb, leb, ◌==◌, if◌then◌else◌, arith,
}
use event_dance.Websocket.Connection.{
  Data, Effect, ReadingState, idle, header, payload_len, masking_key, payload, is_closed,
  is_closing,
}
use event_dance.Websocket.Frame.{opcode_close}
use event_dance.Websocket.Closing.{
  close_no_status, Env, close, on_close_frame_received, finish_close_handshake, send_close_frame,
}
use event_dance.Websocket.Reader.{
  read_header, read_payload_len, handle_control_frame, frame_data, handle_frame, drop_frame,
  read_payload, read_masking_key, read_part, start_frame, read_round, goes_on, after, process_data,
  available, byte_at,
}

module _ {ℓ} {A : Type ℓ} where
  pub get_or-append :
      (xs ys : List A) (i : ℕ) (a : A) → i < length xs → get_or (xs ++ ys) i a ≡ get_or xs i a
  get_or-append [] ys i a h = elim h [ ]
  get_or-append (x ∷ xs) ys zero a h = refl
  get_or-append (x ∷ xs) ys (suc i) a h = get_or-append xs ys i a (omega arith)

  pub drop-append_le :
      (n : ℕ) (xs ys : List A) → n ≤ length xs → drop n (xs ++ ys) ≡ drop n xs ++ ys
  drop-append_le zero xs ys h = refl
  drop-append_le (suc n) [] ys h = elim h [ ]
  drop-append_le (suc n) (x ∷ xs) ys h = drop-append_le n xs ys (omega arith)

  take-append_le : (n : ℕ) (xs ys : List A) → n ≤ length xs → take n (xs ++ ys) ≡ take n xs
  take-append_le zero xs ys h = refl
  take-append_le (suc n) [] ys h = elim h [ ]
  take-append_le (suc n) (x ∷ xs) ys h = ap (◌∷◌ x) (take-append_le n xs ys (omega arith))

  pub middle_append :
      (n i : ℕ) (xs ys : List A)
      → i + n ≤ length xs
      → take n (drop i (xs ++ ys)) ≡ take n (drop i xs)
  middle_append n zero xs ys h = take-append_le n xs ys (omega arith)
  middle_append n (suc i) [] ys h = absurd (omega arith)
  middle_append n (suc i) (x ∷ xs) ys h = middle_append n i xs ys (omega arith)

-- The connection after `more` has come.
abbrev pub feed_more : Data → List ℕ → Data
feed_more d more = record d { buf = d.buf ++ more }

-- Results of a step, with `more` behind.
abbrev pub more_after : Data × List Effect × Bool → List ℕ → Data × List Effect × Bool
more_after (d, es, b) more = (feed_more d more, es, b)

pub still : (have size n : ℕ) → ltb have n ≡ false → have ≤ size → ltb size n ≡ false
still have size n h k = ground arith

pub fits : (size offset n : ℕ) → offset ≤ size → ltb (size - offset) n ≡ false → offset + n ≤ size
fits size offset n h k = ground arith

-- What a frame's handler does depends on no byte behind the frame, and leaves the reader alone.
pub record Handled (r s : Data × List Effect) (more : List ℕ) (d : Data) : Type 0 where
  pub same : s ≡ (feed_more r.0 more, r.1)
  pub same_buf : (r.0).buf ≡ d.buf
  pub same_offset : (r.0).offset ≡ d.offset
  pub same_len : (r.0).payload_len ≡ d.payload_len

handled :
    {r s : Data × List Effect} {more : List ℕ} {d : Data}
    → s ≡ (feed_more r.0 more, r.1)
    → (r.0).buf ≡ d.buf
    → (r.0).offset ≡ d.offset
    → (r.0).payload_len ≡ d.payload_len
    → Handled r s more d
handled e b o l = record { same = e; same_buf = b; same_offset = o; same_len = l }

-- `close` without its result.
abbrev closed_with : Data → Env → ℕ → Data × List Effect
closed_with d env code = let r = close d env code in (r.0, r.1)

module _ (env : Env) (more : List ℕ) where
  close-Handled :
      (d : Data) (code : ℕ)
      → Handled (closed_with d env code) (closed_with (feed_more d more) env code) more d
  unfolding close send_close_frame
  close-Handled d code = elim (Bool-cases (is_closing d.state || is_closed d.state)) [
    | inl e ↦ rw e (handled refl refl refl refl)
    | inr e ↦ elim (Bool-cases d.close_frame_received) [
      | inl f ↦ rw (e, f) (handled refl refl refl refl)
      | inr f ↦ rw (e, f) (handled refl refl refl refl)
    ]
  ]

  on_close_frame_received-Handled :
      (d : Data) (code : ℕ)
      → Handled
          (on_close_frame_received d env code)
          (on_close_frame_received (feed_more d more) env code)
          more
          d
  unfolding on_close_frame_received finish_close_handshake
  on_close_frame_received-Handled d code = elim (Bool-cases (is_closing d.state)) [
    | inl e ↦ rw e (handled refl refl refl refl)
    | inr e ↦ rw e (
        let c = close-Handled (record d { close_frame_received = true }) code in
        handled c.same c.same_buf c.same_offset c.same_len)
  ]

  handle_control_frame-Handled :
      (d : Data)
      → Handled (handle_control_frame d env) (handle_control_frame (feed_more d more) env) more d
  unfolding handle_control_frame
  handle_control_frame-Handled d = elim (Bool-cases (d.opcode == opcode_close)) [
    | inl e ↦ rw e (on_close_frame_received-Handled d close_no_status)
    | inr e ↦ rw e (handled refl refl refl refl)
  ]

  pub handle_frame-Handled :
      (d : Data)
      → d.offset + d.payload_len ≤ length d.buf
      → Handled (handle_frame d env) (handle_frame (feed_more d more) env) more d
  unfolding handle_frame frame_data
  handle_frame-Handled d le = elim (Bool-cases (leb opcode_close d.opcode)) [
    | inl e ↦ rw e (handle_control_frame-Handled d)
    | inr e ↦ elim (Bool-cases d.fin) [
      | inl f ↦
          rw (e, f, middle_append d.payload_len d.offset d.buf more le)
            (handled refl refl refl refl)
      | inr f ↦ rw (e, f) (handled refl refl refl refl)
    ]
  ]
