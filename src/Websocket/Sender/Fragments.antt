-- ===== src/Websocket/Sender/Fragments.antt =====
-- evd/evd-websocket-protocol.c: what the fragments of a message are.
use event_dance.Common.{
  ℕ, zero, suc, ◌≤◌, ◌<◌, ◌≡◌, refl, sym, ap, ◌∙◌, Bool, Bool-cases, true, false, not, ◌||◌, inl,
  inr, Option, some, lt→ltb, leb, ◌==◌, min, List, [], ◌∷◌, ◌++◌, length, take, drop,
  take-append-drop, length-take, length-drop, arith,
}
use native.Mathlib.Decide.{dec_lt}
use event_dance.Common.Int.{ℤ, pos, negsuc}
use event_dance.Websocket.Frame.{build_frame}
use event_dance.Websocket.Connection.{State, is_closing, is_closed, Data, Effect, write}
use event_dance.Websocket.Closing.{Env, close, send_close_frame}
use event_dance.Websocket.Sender.{
  MessageType, Sending, write_failed, fragment_opcode, effect_first, send_loop, send_data_frame,
  send, max_fragment_size,
}

-- The writes of a message from fragment `i` on: every fragment but the last is of the
-- greatest size and says that others follow; the first fragment only carries the type.
pub data Fragments (max_size : ℕ) (masked : Bool) (frame_type : MessageType) (s : Sending)
    : ℕ → List ℕ → List Effect → Type 0 where
  nothing : {i : ℕ} → Fragments max_size masked frame_type s i [] []
  last :
      {i : ℕ} {content : List ℕ}
      → 0 < length content
      → length content ≤ max_size
      → Fragments max_size masked frame_type s i content (
          write (build_frame true (fragment_opcode frame_type (i == 0)) masked (s.keys i) content)
          ∷ [])
  fragment :
      {i : ℕ} (content : List ℕ) {left all : List ℕ} {es : List Effect}
      → length content ≡ max_size
      → 0 < length left
      → all ≡ content ++ left
      → Fragments max_size masked frame_type s (suc i) left es
      → Fragments max_size masked frame_type s i all (
          write (build_frame false (fragment_opcode frame_type (i == 0)) masked (s.keys i) content)
          ∷ es)

never_failed : (r : ℤ) → write_failed r ≡ false
never_failed (pos zero) = refl
never_failed (pos (suc n)) = refl
never_failed (negsuc n) = refl

pub record Sent (max_size : ℕ) (masked : Bool) (frame_type : MessageType) (s : Sending) (i : ℕ)
    (left : List ℕ) (r : Option (List Effect × Bool)) : Type 0 where
  pub effects : List Effect
  pub returned : r ≡ some (effects, true)
  pub fragments : Fragments max_size masked frame_type s i left effects

take_all : (xs : List ℕ) → take (length xs) xs ≡ xs
take_all [] = refl
take_all (x ∷ xs) = ap (◌∷◌ x) (take_all xs)

drop_all : (xs : List ℕ) → drop (length xs) xs ≡ []
drop_all [] = refl
drop_all (x ∷ xs) = drop_all xs

module _ (max_size : ℕ) (masked : Bool) (frame_type : MessageType) (s : Sending)
    (positive : 0 < max_size) where
  -- The rest of the loop after a fragment has been written.
  step :
      (fuel i n : ℕ) (left : List ℕ) (fin : Bool)
      → 0 < length left
      → min max_size (length left) ≡ n
      → leb (length left) n ≡ fin
      → send_loop (suc fuel) max_size masked frame_type s i left
        ≡ effect_first
            (write (
              build_frame fin
                (fragment_opcode frame_type (i == 0))
                masked
                (s.keys i)
                (take n left)))
            (send_loop fuel max_size masked frame_type s (suc i) (drop n left))
  unfolding send_loop
  step fuel i n left fin h e f =
      rw (lt→ltb 0 (length left) h, e, f, never_failed (s.results i)) refl

  send_loop_nil :
      (fuel i : ℕ) → 0 < fuel → send_loop fuel max_size masked frame_type s i [] ≡ some ([], true)
  unfolding send_loop
  send_loop_nil zero i h = elim h [ ]
  send_loop_nil (suc fuel) i h = refl

  pub send_loop-Sent :
      (fuel i : ℕ) (left : List ℕ)
      → length left < fuel
      → Sent max_size masked frame_type s i left
          (send_loop fuel max_size masked frame_type s i left)
  send_loop-Sent zero i left h = elim h [ ]
  send_loop-Sent (suc fuel) i [] h = record {
    effects = [];
    returned = unfold send_loop in refl;
    fragments = nothing;
  }
  send_loop-Sent (suc fuel) i (b ∷ left) h =
      let all = b ∷ left in
      let size = suc (length left) in
      elim (dec_lt max_size size) [
        | no small ↦ record {
          effects =
              write (build_frame true (fragment_opcode frame_type (i == 0)) masked (s.keys i) all)
              ∷ [];
          returned =
              step fuel i size all true (omega arith) (omega arith) (ground arith)
              ∙ rw (take_all all, drop_all all)
                  (ap (effect_first _) (send_loop_nil fuel (suc i) (omega arith)));
          fragments = last (omega arith) (omega arith);
        }
        | yes big ↦
            let rest =
              send_loop-Sent fuel (suc i) (drop max_size all)
                (omega (arith, length-drop max_size all)) in
            record {
              effects =
                  write (
                    build_frame false (fragment_opcode frame_type (i == 0)) masked (s.keys i)
                      (take max_size all))
                  ∷ rest.effects;
              returned =
                  step fuel i max_size all false (omega arith) (omega arith) (ground arith)
                  ∙ ap (effect_first _) rest.returned;
              fragments =
                  fragment (take max_size all) (omega (arith, length-take max_size all))
                    (omega (arith, length-drop max_size all)) (sym (take-append-drop max_size all))
                    rest.fragments;
            }
      ]

open_state :
    (s : State) → is_closing s ≡ false → is_closed s ≡ false → (is_closing s || is_closed s) ≡ false
open_state s c d = rw (c, d) refl

-- On a connection that is neither closing nor closed, enough fuel given, evd_websocket_protocol_send writes
-- the message as fragments of at most MAX_FRAGMENT_SIZE bytes, and returns TRUE whatever the writes
-- return. One unit of fuel for each byte and one more are enough.
pub send-Fragments :
    (fuel : ℕ) (d : Data) (frame : List ℕ) (frame_type : MessageType) (s : Sending)
    → is_closing d.state ≡ false
    → is_closed d.state ≡ false
    → length frame < fuel
    → (es : List Effect) × (send fuel (some d) frame frame_type s ≡ some (es, true))
      × Fragments max_fragment_size (not d.server) frame_type s 0 frame es
unfolding send send_data_frame
send-Fragments fuel d frame frame_type s c o h =
    let sent =
      send_loop-Sent max_fragment_size (not d.server) frame_type s (omega arith) fuel 0 frame h in
    (sent.effects, rw (open_state d.state c o) sent.returned, sent.fragments)

-- What evd_websocket_protocol_close has been called on sends nothing more.
pub send-close :
    (fuel : ℕ) (d : Data) (env : Env) (code : ℕ) (frame : List ℕ) (frame_type : MessageType)
    (s : Sending)
    → send fuel (some (close d env code).0) frame frame_type s ≡ some ([], false)
unfolding send close send_close_frame
send-close fuel d env code frame frame_type s =
    elim (Bool-cases (is_closing d.state || is_closed d.state)) [
      | inl e ↦ rw (e, e) refl
      | inr e ↦ elim (Bool-cases d.close_frame_received) [
        | inl f ↦ rw (e, f) refl
        | inr f ↦ rw (e, f) refl
      ]
    ]
