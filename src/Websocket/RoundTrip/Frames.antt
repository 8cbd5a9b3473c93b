-- ===== src/Websocket/RoundTrip/Frames.antt =====
-- evd/evd-websocket-protocol.c: a frame that build_frame has made, followed by other bytes, is read
-- as one call of the frame callback, and the other bytes are left.
use event_dance.Common.{
  ℕ, ◌^◌, ◌≤◌, ◌<◌, ◌≡◌, refl, sym, ap, ◌∙◌, Bool, true, false, if◌then◌else◌, ◌==◌, List, [], ◌∷◌,
  ◌++◌, append_assoc, length, length-append, arith,
}
use native.Mathlib.Decide.{dec_lt}
use event_dance.Websocket.Frame.{apply_masking}
use event_dance.Websocket.Connection.{Data, Effect, frame_cb, masking_key, payload, is_closed}
use event_dance.Websocket.Closing.{Env}
use event_dance.Websocket.Reader.{read_part}
use event_dance.Websocket.Masking.{AreBytes, apply_masking_twice, length-apply_masking}
use event_dance.Websocket.RoundTrip.{
  ready, inside, read_payload-frame, read_masking_key-frame, read_masking_key-last,
}
use event_dance.Websocket.RoundTrip.Rounds.{Rounds, stay, round, goes_on-inside, read_round-part}

-- A message and the masking key that is drawn for its frame.
pub record Message : Type 0 where
  pub opcode : ℕ
  pub key : List ℕ
  pub content : List ℕ

pub record IsMessage (m : Message) : Type 0 where
  pub is_data : m.opcode < 8
  pub key_length : length m.key ≡ 4
  pub key_bytes : AreBytes m.key
  pub content_bytes : AreBytes m.content
  pub content_small : length m.content < 2 ^ 64

abbrev pub body : Bool → Message → List ℕ
body masked m = if masked then m.key ++ apply_masking m.content m.key else m.content

-- The call that the message should lead to.
abbrev pub delivery : Message → Effect
delivery m = frame_cb m.content (m.opcode == 2)

-- The data after the frame's header and length.
abbrev pub header_read : Data → Bool → Message → Data
header_read d masked m = record d {
  fin = true;
  opcode = m.opcode;
  masked = masked;
  payload_len = length m.content;
  reading_state = if masked then masking_key else payload;
}

abbrev pub frame_read : Data → Bool → Message → Data
frame_read d masked m = record d {
  fin = true;
  opcode = m.opcode;
  masked = masked;
  payload_len = length m.content;
  masking_key = if masked then m.key else d.masking_key;
}

-- A frame from its key or payload on: the rest of the present round, and the rounds that follow.
pub record Finish (d : Data) (env : Env) (es : List Effect) (last : Data) : Type 0 where
  pub state : Data
  pub first : List Effect
  pub others : List Effect
  pub count : ℕ
  pub few : count ≤ 1
  pub part_read : read_part d.reading_state d env ≡ (state, first, true)
  pub then_rounds : Rounds env count state others last
  pub together : es ≡ first ++ others

not_zero : (n : ℕ) → 0 < n → (n == 0) ≡ false
not_zero n h = ground arith

module _ (d : Data) (env : Env) (before rest : List ℕ) (m : Message) (v : IsMessage m)
    (c : d.has_frame_cb ≡ true) (o : is_closed d.state ≡ false) where
  pub finish_plain :
      Finish
        (inside (header_read d false m) before (body false m ++ rest))
        env
        (delivery m ∷ [])
        (ready (frame_read d false m) rest)
  unfolding read_part
  finish_plain = record {
    state = ready (frame_read d false m) rest;
    first = delivery m ∷ [];
    others = [];
    count = 0;
    few = omega arith;
    part_read =
        read_payload-frame (header_read d false m) env before m.content rest refl refl v.is_data c;
    then_rounds = stay;
    together = refl;
  }

  key_read : Data
  key_read = record (header_read d true m) { masking_key = m.key; reading_state = payload }

  masked_payload :
      (prefix : List ℕ)
      → read_part payload (inside key_read prefix (apply_masking m.content m.key ++ rest)) env
        ≡ (ready (frame_read d true m) rest, delivery m ∷ [], true)
  unfolding read_part key_read
  masked_payload prefix =
      read_payload-frame key_read env prefix (apply_masking m.content m.key) rest
        (sym (length-apply_masking m.content m.key)) refl v.is_data c
      ∙ ap (λ p. (ready (frame_read d true m) rest, frame_cb p (m.opcode == 2) ∷ [], true))
          (apply_masking_twice m.content m.key v.content_bytes v.key_bytes)

  regroup :
      inside (header_read d true m) before (body true m ++ rest)
      ≡ inside (header_read d true m) before (m.key ++ (apply_masking m.content m.key ++ rest))
  regroup =
      ap (inside (header_read d true m) before)
        (append_assoc m.key (apply_masking m.content m.key) rest)

  finish_empty :
      length m.content ≡ 0
      → Finish
          (inside (header_read d true m) before (body true m ++ rest))
          env
          (delivery m ∷ [])
          (ready (frame_read d true m) rest)
  unfolding read_part key_read
  finish_empty z = record {
    state = ready (frame_read d true m) rest;
    first = delivery m ∷ [];
    others = [];
    count = 0;
    few = omega arith;
    part_read =
        ap (λ e. read_part masking_key e env) regroup
        ∙ read_masking_key-last (header_read d true m) env before m.key
            (apply_masking m.content m.key ++ rest) v.key_length z
        ∙ masked_payload (before ++ m.key);
    then_rounds = stay;
    together = refl;
  }

  finish_full :
      0 < length m.content
      → Finish
          (inside (header_read d true m) before (body true m ++ rest))
          env
          (delivery m ∷ [])
          (ready (frame_read d true m) rest)
  unfolding read_part key_read
  finish_full z =
      let next = inside key_read (before ++ m.key) (apply_masking m.content m.key ++ rest) in
      record {
        state = next;
        first = [];
        others = delivery m ∷ [];
        count = 1;
        few = omega arith;
        part_read =
            ap (λ e. read_part masking_key e env) regroup
            ∙ read_masking_key-frame (header_read d true m) env before m.key
                (apply_masking m.content m.key ++ rest) v.key_length
                (not_zero (length m.content) z);
        then_rounds =
            round
              (goes_on-inside key_read (before ++ m.key) (apply_masking m.content m.key ++ rest)
                (omega (
                  arith,
                  length-append (apply_masking m.content m.key) rest,
                  length-apply_masking m.content m.key,
                ))
                o)
              (read_round-part next env refl ∙ masked_payload (before ++ m.key)) stay refl;
        together = refl;
      }

  pub finish_masked :
      Finish
        (inside (header_read d true m) before (body true m ++ rest))
        env
        (delivery m ∷ [])
        (ready (frame_read d true m) rest)
  finish_masked = elim (dec_lt 0 (length m.content)) [
    | yes z ↦ finish_full z
    | no z ↦ finish_empty (omega arith)
  ]
