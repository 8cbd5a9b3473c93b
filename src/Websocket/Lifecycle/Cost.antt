-- ===== src/Websocket/Lifecycle/Cost.antt =====
-- evd/evd-websocket-protocol.c: at most one close frame is sent.
use event_dance.Common.{
  ℕ, ◌+◌, ◌≤◌, ◌≡◌, refl, inl, inr, Bool, true, false, Bool-cases, ◌||◌, if◌then◌else◌, List, [],
  ◌∷◌, ◌++◌, ltb, leb, ◌==◌, arith,
}
use event_dance.Websocket.Frame.{opcode_close}
use event_dance.Websocket.Connection.{
  State, Data, Effect, frame_cb, close_cb, write, flush_async, close_stream, start_timeout,
  remove_timeout, read_async, null_call, is_closing, is_closed, closing, closed, ReadingState, idle,
  header, payload_len, masking_key, payload,
}
use event_dance.Websocket.Closing.{
  Env, close_no_status, close, send_close_frame, finish_close_handshake, on_close_frame_received,
  close_timeout,
}
use event_dance.Websocket.Reader.{
  read_header, read_payload_len, handle_control_frame, handle_frame, drop_frame, read_payload,
  read_masking_key, read_part, start_frame, read_round, available, is_idle,
}
use event_dance.Websocket.Lifecycle.{frames_written}

-- How many close frames may still be sent.
abbrev pub budget : State → ℕ
budget s = if is_closing s || is_closed s then 0 else 1

-- What a call keeps that leads from one state to another; the Booleans are close_frame_sent.
pub record Kept (before : State) (sent : Bool) (after : State) (sent' : Bool) (es : List Effect)
    : Type 0 where
  pub cost : frames_written es + budget after ≤ budget before
  pub sane : (budget before ≡ 1 → sent ≡ false) → budget after ≡ 1 → sent' ≡ false

abbrev pub Lawful : Data → Data → List Effect → Type 0
Lawful d d' es = Kept d.state d.close_frame_sent d'.state d'.close_frame_sent es

pub frames_written-append :
    (es fs : List Effect) → frames_written (es ++ fs) ≡ frames_written es + frames_written fs
frames_written-append [] fs = omega arith
frames_written-append (frame_cb a b ∷ es) fs = frames_written-append es fs
frames_written-append (close_cb a ∷ es) fs = frames_written-append es fs
frames_written-append (write a ∷ es) fs = omega (arith, frames_written-append es fs)
frames_written-append (flush_async ∷ es) fs = frames_written-append es fs
frames_written-append (close_stream ∷ es) fs = frames_written-append es fs
frames_written-append (start_timeout ∷ es) fs = frames_written-append es fs
frames_written-append (remove_timeout ∷ es) fs = frames_written-append es fs
frames_written-append (read_async ∷ es) fs = frames_written-append es fs
frames_written-append (null_call ∷ es) fs = frames_written-append es fs

pub trans_lawful :
    {s s' s'' : State} {c c' c'' : Bool} {es fs : List Effect}
    → Kept s c s' c' es
    → Kept s' c' s'' c'' fs
    → Kept s c s'' c'' (es ++ fs)
trans_lawful {es = es} {fs = fs} l m = record {
  cost = omega (arith, l.cost, m.cost, frames_written-append es fs);
  sane = λ s. m.sane (l.sane s);
}

-- A call that sends nothing and leaves the state, or closes it.
pub idle_lawful :
    {s : State} {c : Bool} (es : List Effect) → frames_written es ≡ 0 → Kept s c s c es
idle_lawful es n = record { cost = omega (arith, n); sane = λ sane. sane }

closed_lawful :
    {s : State} {c c' : Bool} (es : List Effect) → frames_written es ≡ 0 → Kept s c closed c' es
closed_lawful es n = record { cost = omega (arith, n); sane = λ sane b. absurd (omega (arith, b)) }

sent_lawful :
    {s : State} {c c' : Bool} (es : List Effect)
    → (is_closing s || is_closed s) ≡ false
    → frames_written es ≡ 1
    → Kept s c closing c' es
sent_lawful es o n = record {
  cost = rw o (omega (arith, n));
  sane = λ sane b. absurd (omega (arith, b));
}

pub close-Lawful :
    (d : Data) (env : Env) (code : ℕ) → Lawful d (close d env code).0 (close d env code).1
unfolding close send_close_frame
close-Lawful d env code = elim (Bool-cases (is_closing d.state || is_closed d.state)) [
  | inl e ↦ rw e (idle_lawful [] refl)
  | inr e ↦ elim (Bool-cases d.close_frame_received) [
    | inl f ↦ rw (e, f) (sent_lawful _ e refl)
    | inr f ↦ rw (e, f) (sent_lawful _ e refl)
  ]
]

pub finish-Lawful :
    (d : Data) (code : ℕ)
    → Lawful d (finish_close_handshake d code).0 (finish_close_handshake d code).1
unfolding finish_close_handshake
finish-Lawful d code = closed_lawful _ (both_tests d.has_close_cb d.timeout _)
  where
    both_tests :
        (a b : Bool) (g : Bool)
        → frames_written (
            (if a then close_cb g ∷ [] else [])
            ++ (close_stream ∷ (if b then remove_timeout ∷ [] else [])))
          ≡ 0
    both_tests true true g = refl
    both_tests true false g = refl
    both_tests false true g = refl
    both_tests false false g = refl

-- What the timeout does.
pub close_timeout-Lawful : (d : Data) → Lawful d (close_timeout d).0 (close_timeout d).1
unfolding close_timeout
close_timeout-Lawful d = elim (Bool-cases d.has_close_cb) [
  | inl e ↦ rw e (closed_lawful _ refl)
  | inr e ↦ rw e (closed_lawful _ refl)
]

on_close_frame_received-Lawful :
    (d : Data) (env : Env) (code : ℕ)
    → Lawful d (on_close_frame_received d env code).0 (on_close_frame_received d env code).1
unfolding on_close_frame_received
on_close_frame_received-Lawful d env code =
    let d' = record d { close_frame_received = true } in
    elim (Bool-cases (is_closing d.state)) [
      | inl e ↦ rw e (trans_lawful (idle_lawful [] refl) (finish-Lawful d' code))
      | inr e ↦ rw e (trans_lawful (idle_lawful [] refl) (close-Lawful d' env code))
    ]

handle_frame-Lawful :
    (d : Data) (env : Env) → Lawful d (handle_frame d env).0 (handle_frame d env).1
unfolding handle_frame handle_control_frame
handle_frame-Lawful d env = elim (Bool-cases (leb opcode_close d.opcode)) [
  | inl e ↦ elim (Bool-cases (d.opcode == opcode_close)) [
    | inl f ↦ rw (e, f) (on_close_frame_received-Lawful d env close_no_status)
    | inr f ↦ rw (e, f) (closed_lawful _ refl)
  ]
  | inr e ↦ elim (Bool-cases d.fin) [
    | inl f ↦ elim (Bool-cases d.has_frame_cb) [
      | inl c ↦ rw (e, f, c) (idle_lawful _ refl)
      | inr c ↦ rw (e, f, c) (idle_lawful _ refl)
    ]
    | inr f ↦ rw (e, f) (closed_lawful _ refl)
  ]
]

-- A part of the reader.
abbrev pub Lawful3 : Data → Data × List Effect × Bool → Type 0
Lawful3 d r = Lawful d r.0 r.1

read_payload-Lawful : (d : Data) (env : Env) → Lawful3 d (read_payload d env)
unfolding read_payload drop_frame
read_payload-Lawful d env = elim (Bool-cases (ltb (available d) d.payload_len)) [
  | inl e ↦ rw e (idle_lawful [] refl)
  | inr e ↦ rw e (let l = handle_frame-Lawful d env in record { cost = l.cost; sane = l.sane })
]

read_masking_key-Lawful : (d : Data) (env : Env) → Lawful3 d (read_masking_key d env)
unfolding read_masking_key
read_masking_key-Lawful d env = elim (Bool-cases (ltb (available d) 4)) [
  | inl e ↦ rw e (idle_lawful [] refl)
  | inr e ↦ elim (Bool-cases (d.payload_len == 0)) [
    | inl z ↦ rw (e, z) (trans_lawful (idle_lawful [] refl) (read_payload-Lawful _ env))
    | inr z ↦ rw (e, z) (idle_lawful [] refl)
  ]
]

read_part-Lawful : (s : ReadingState) (d : Data) (env : Env) → Lawful3 d (read_part s d env)
unfolding read_part
read_part-Lawful payload_len d env =
    elim (Bool-cases (ltb (available d) (if d.payload_len == 126 then 2 else 8))) [
      | inl e ↦ unfold read_payload_len in rw e (idle_lawful [] refl)
      | inr e ↦ unfold read_payload_len in rw e (idle_lawful [] refl)
    ]
read_part-Lawful masking_key d env = read_masking_key-Lawful d env
read_part-Lawful payload d env = read_payload-Lawful d env
read_part-Lawful idle d env = idle_lawful [] refl
read_part-Lawful header d env = idle_lawful [] refl

start_frame-Lawful : (d : Data) → Lawful d (start_frame d).0 []
unfolding start_frame
start_frame-Lawful d = elim (Bool-cases (is_idle d.reading_state)) [
  | inr b ↦ rw b (idle_lawful [] refl)
  | inl b ↦ elim (Bool-cases (ltb (available d) 2)) [
    | inl e ↦ unfold read_header in rw (b, e) (idle_lawful [] refl)
    | inr e ↦ unfold read_header in rw (b, e) (idle_lawful [] refl)
  ]
]

pub read_round-Lawful : (d : Data) (env : Env) → Lawful3 d (read_round d env)
unfolding read_round
read_round-Lawful d env = elim (Bool-cases (start_frame d).1) [
  | inl e ↦ rw e (trans_lawful (start_frame-Lawful d) (read_part-Lawful _ _ env))
  | inr e ↦ rw e (start_frame-Lawful d)
]
