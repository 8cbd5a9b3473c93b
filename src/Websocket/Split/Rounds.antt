-- ===== src/Websocket/Split/Rounds.antt =====
-- evd/evd-websocket-protocol.c: a round of process_data when more bytes have come.
use event_dance.Common.{
  ℕ, ◌≤◌, ◌≡◌, refl, inl, inr, Bool, true, false, Bool-cases, if◌then◌else◌, List, [], length, ltb,
  arith,
}
use event_dance.Websocket.Connection.{Data, payload_len, masking_key, payload}
use event_dance.Websocket.Closing.{Env}
use event_dance.Websocket.Reader.{read_header, is_idle, start_frame, read_round, available}
use event_dance.Websocket.Split.{feed_more, more_after, fits}
use event_dance.Websocket.Split.Parts.{read_header-more, wants_more, is_read, read_part-Taken}

-- The header, if one is due: more bytes are wanted, or it is read the same whatever follows and
-- is not read again.
data Start (d : Data) : Type 0 where
  no_header : start_frame d ≡ (d, false) → Start d
  begun :
      (d' : Data)
      → start_frame d ≡ (d', true)
      → ((more : List ℕ) → start_frame (feed_more d more) ≡ (feed_more d' more, true))
      → ((more : List ℕ) → start_frame (feed_more d' more) ≡ (feed_more d' more, true))
      → d'.offset ≤ length d'.buf
      → d'.state ≡ d.state
      → Start d

busy :
    (b masked : Bool)
    → is_idle (if b then payload_len else if masked then masking_key else payload) ≡ false
busy true masked = refl
busy false true = refl
busy false false = refl

header_read-busy :
    (d : Data) → ltb (available d) 2 ≡ false → is_idle (read_header d).0.reading_state ≡ false
unfolding read_header
header_read-busy d e = rw e (busy _ _)

header_read-state : (d : Data) → ltb (available d) 2 ≡ false → (read_header d).0.state ≡ d.state
unfolding read_header
header_read-state d e = rw e refl

start_frame-Start : (d : Data) → d.offset ≤ length d.buf → Start d
start_frame-Start d h = elim (Bool-cases (is_idle d.reading_state)) [
  | inr b ↦ unfold start_frame in begun d (rw b refl) (λ more. rw b refl) (λ more. rw b refl) h refl
  | inl b ↦ elim (Bool-cases (ltb (available d) 2)) [
    | inl e ↦ unfold start_frame read_header in no_header (rw (b, e) refl)
    | inr e ↦
        begun (read_header d).0 (unfold start_frame read_header in rw (b, e) refl)
          (λ more. unfold start_frame in rw b (read_header-more d more h e))
          (λ more. unfold start_frame in rw (header_read-busy d e) refl)
          (unfold read_header in rw e (omega (arith, fits (length d.buf) d.offset 2 h e)))
          (header_read-state d e)
  ]
]

-- A round either stops, at a state from which the round with more bytes goes the same way, or is
-- complete whatever follows.
pub data Round (d : Data) (env : Env) : Type 0 where
  stops :
      (d' : Data)
      → read_round d env ≡ (d', [], false)
      → ((more : List ℕ) → read_round (feed_more d' more) env ≡ read_round (feed_more d more) env)
      → d'.offset ≤ length d'.buf
      → d'.state ≡ d.state
      → Round d env
  completes :
      (read_round d env).2 ≡ true
      → ((more : List ℕ) → read_round (feed_more d more) env ≡ more_after (read_round d env) more)
      → Round d env

pub read_round-Round : (d : Data) (env : Env) → d.offset ≤ length d.buf → Round d env
unfolding read_round
read_round-Round d env h = elim (start_frame-Start d h) [
  | no_header e ↦ stops d (rw e refl) (λ more. refl) h refl
  | begun d' e e-more again le same ↦ elim (read_part-Taken d'.reading_state d' env le) [
    | wants_more w ↦ stops d' (rw (e, w) refl) (λ more. rw (e-more more, again more) refl) le same
    | is_read t r ↦ completes (rw e t) (λ more. rw (e, e-more more) (r more))
  ]
]
