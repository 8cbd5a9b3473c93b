-- ===== src/Websocket/RoundTrip/Messages.antt =====
-- evd/evd-websocket-protocol.c: the reader on the frames of several messages.
use event_dance.Common.{
  ℕ, zero, suc, ◌*◌, ◌≤◌, ◌<◌, ◌≡◌, refl, sym, ap, ◌∙◌, subst, Bool, true, false, some, List, [],
  ◌∷◌, ◌++◌, append-nil, append_assoc, map, ◌-◌, length, arith,
}
use event_dance.Websocket.Connection.{Data, Effect, is_closed}
use event_dance.Websocket.Closing.{Env}
use event_dance.Websocket.Reader.{process_data, after}
use event_dance.Websocket.RoundTrip.{ready}
use event_dance.Websocket.RoundTrip.Rounds.{
  Rounds, stay, Rounds-append, plus, plus-+, process_data-Rounds,
}
use event_dance.Websocket.RoundTrip.Frames.{Message, IsMessage, delivery, frame_read}
use event_dance.Websocket.RoundTrip.Encoded.{encoded, frame_rounds}

-- The frames of the messages, one behind the other.
abbrev pub encoded_all : Bool → List Message → List ℕ
encoded_all masked [] = []
encoded_all masked (m ∷ ms) = encoded masked m ++ encoded_all masked ms

abbrev pub AreMessages : List Message → Type 0
AreMessages [] = Unit
AreMessages (m ∷ ms) = IsMessage m × AreMessages ms

-- The data of the connection when the messages have been read.
abbrev pub all_read : Data → Bool → List Message → Data
all_read d masked [] = d
all_read d masked (m ∷ ms) = all_read (frame_read d masked m) masked ms

record AllRead (env : Env) (d : Data) (n : ℕ) (es : List Effect) (last : Data) : Type 0 where
  count : ℕ
  few : count ≤ n
  rounds : Rounds env count d es last

messages_rounds :
    (d : Data) (env : Env) (masked : Bool) (ms : List Message) (rest : List ℕ)
    → AreMessages ms
    → d.has_frame_cb ≡ true
    → is_closed d.state ≡ false
    → AllRead env
        (ready d (encoded_all masked ms ++ rest))
        (3 * length ms)
        (map delivery ms)
        (ready (all_read d masked ms) rest)
messages_rounds d env masked [] rest v c o = record { count = 0; few = omega arith; rounds = stay }
messages_rounds d env masked (m ∷ ms) rest (v, vs) c o =
    let one = frame_rounds d env (encoded_all masked ms ++ rest) m v c o masked in
    let more = messages_rounds (frame_read d masked m) env masked ms rest vs c o in
    record {
      count = plus one.count more.count;
      few = omega (arith, one.few, more.few, plus-+ one.count more.count);
      rounds =
          subst
            (λ b.
              Rounds env (plus one.count more.count) (ready d b) (map delivery (m ∷ ms))
                (ready (all_read d masked (m ∷ ms)) rest))
            (sym (append_assoc (encoded masked m) (encoded_all masked ms) rest))
            (Rounds-append one.rounds more.rounds);
    }

all_read-open :
    (d : Data) (masked : Bool) (ms : List Message) → (all_read d masked ms).state ≡ d.state
all_read-open d masked [] = refl
all_read-open d masked (m ∷ ms) = all_read-open (frame_read d masked m) masked ms

process_data_done :
    (n : ℕ) (d : Data) (env : Env)
    → 0 < n
    → is_closed d.state ≡ false
    → process_data n (ready d []) env ≡ some (ready d [], [], true)
unfolding process_data
process_data_done zero d env h o = elim h [ ]
process_data_done (suc n) d env h o = rw o refl

module _ (d : Data) (env : Env) (masked : Bool) (ms : List Message) (v : AreMessages ms)
    (c : d.has_frame_cb ≡ true) (o : is_closed d.state ≡ false) where
  -- On an open connection with a frame callback, whose reader stands at the start of a frame, the frames of
  -- the messages, masked or not, lead to one call of the callback for each message, in order, with
  -- its content; nothing is left in the buffer. Three rounds for each message and one more are enough.
  -- Each content is shorter than 2 ^ 64, keys and contents are bytes, keys have four, opcodes are those of data.
  pub process_data-messages :
      (n : ℕ)
      → 3 * length ms < n
      → process_data n (ready d (encoded_all masked ms)) env
        ≡ some (ready (all_read d masked ms) [], map delivery ms, true)
  process_data-messages n h =
      let all = messages_rounds d env masked ms [] v c o in
      let last = all_read d masked ms in
      ap (λ b. process_data n (ready d b) env) (sym (append-nil (encoded_all masked ms)))
      ∙ ap (λ k. process_data k (ready d (encoded_all masked ms ++ [])) env)
          {y = plus all.count (n - all.count)}
          (omega (arith, all.few, plus-+ all.count (n - all.count)))
      ∙ process_data-Rounds (n - all.count) all.rounds
      ∙ ap (after (map delivery ms)) (
          process_data_done (n - all.count) last env (omega (arith, all.few))
            (ap is_closed (all_read-open d masked ms) ∙ o))
      ∙ ap (λ es. some (ready last [], es, true)) (append-nil (map delivery ms))
