-- ===== src/Websocket/RoundTrip/Encoded.antt =====
-- evd/evd-websocket-protocol.c: a frame of build_frame with its header, whatever its length.
use event_dance.Common.{
  ℕ, suc, ◌≤◌, ◌<◌, ◌≡◌, refl, ap, ◌∙◌, Bool, true, false, if◌then◌else◌, ltb, leb, List, [], ◌∷◌,
  ◌++◌, append_assoc, length, length-append, arith,
}
use native.Mathlib.Decide.{dec_lt}
use event_dance.Websocket.Frame.{
  be16, be64, frame_header, length_field, length_bytes, build_frame, apply_masking,
}
use event_dance.Websocket.Connection.{
  Data, Effect, idle, payload_len, masking_key, payload, is_closed,
}
use event_dance.Websocket.Closing.{Env}
use event_dance.Websocket.Reader.{is_idle, read_part, read_payload_len, read_round}
use event_dance.Websocket.Masking.{length-apply_masking}
use event_dance.Websocket.RoundTrip.{
  ready, inside, part, after_header, after_length, read_header-frame, read_payload_len-16,
  read_payload_len-64,
}
use event_dance.Websocket.RoundTrip.Rounds.{
  Rounds, round, goes_on-inside, read_round-part, read_round-idle,
}
use event_dance.Websocket.RoundTrip.Frames.{
  Message, IsMessage, body, delivery, header_read, frame_read, Finish, finish_plain, finish_masked,
}

no_length : (n : ℕ) → n ≤ 125 → length_bytes n ≡ []
unfolding length_bytes
no_length n h = ground arith

-- The whole of a frame.
pub record FrameRead (env : Env) (d : Data) (es : List Effect) (last : Data) : Type 0 where
  pub count : ℕ
  pub few : count ≤ 3
  pub rounds : Rounds env count d es last

abbrev pub encoded : Bool → Message → List ℕ
encoded masked m = build_frame true m.opcode masked m.key m.content

abbrev head : Bool → Message → List ℕ
head masked m = be16 (frame_header true m.opcode masked (length m.content))

regroup_frame :
    (masked : Bool) (m : Message) (lead rest : List ℕ)
    → length_bytes (length m.content) ≡ lead
    → encoded masked m ++ rest ≡ head masked m ++ (lead ++ (body masked m ++ rest))
unfolding build_frame
regroup_frame masked m lead rest e =
    rw e (ap (λ l. head masked m ++ l) (append_assoc lead (body masked m) rest))

header_round :
    (d : Data) (env : Env) (masked : Bool) (m : Message) (tail : List ℕ)
    → m.opcode < 8
    → let buf = head masked m ++ tail in
      read_round (ready d buf) env
      ≡ read_part
          (after_header
            (ready d buf)
            true
            m.opcode
            masked
            (length_field (length m.content))).reading_state
          (after_header (ready d buf) true m.opcode masked (length_field (length m.content)))
          env
header_round d env masked m tail h =
    read_round-idle _ _ env refl
      (read_header-frame d true m.opcode masked (length m.content) tail (omega arith))

some_body :
    (masked : Bool) (m : Message) (rest : List ℕ)
    → 0 < length m.content
    → 0 < length (body masked m ++ rest)
some_body true m rest h = omega (
  arith,
  length-append (body true m) rest,
  length-append m.key (apply_masking m.content m.key),
  length-apply_masking m.content m.key,
)
some_body false m rest h = omega (arith, length-append m.content rest)

starts : (masked : Bool) → is_idle (if masked then masking_key else payload) ≡ false
starts true = refl
starts false = refl

-- How the length is encoded.
field_short : (n : ℕ) → n ≤ 125 → length_field n ≡ n
unfolding length_field
field_short n h = ground arith

field_16 : (n : ℕ) → 125 < n → n < 65535 → (length_field n ≡ 126) × (length_bytes n ≡ be16 n)
unfolding length_field length_bytes
field_16 n h k = (ground arith, rw (over n h, under n k) refl)
  where
    over : (n : ℕ) → 125 < n → leb n 125 ≡ false
    over n h = ground arith

    under : (n : ℕ) → n < 65535 → ltb n 65535 ≡ true
    under n h = ground arith

field_64 : (n : ℕ) → 65535 ≤ n → (length_field n ≡ 127) × (length_bytes n ≡ be64 n)
unfolding length_field length_bytes
field_64 n h = (ground arith, rw (over n h, under n h) refl)
  where
    over : (n : ℕ) → 65535 ≤ n → leb n 125 ≡ false
    over n h = ground arith

    under : (n : ℕ) → 65535 ≤ n → ltb n 65535 ≡ false
    under n h = ground arith

is_long : (n : ℕ) → 125 < n → ltb 125 n ≡ true
is_long n h = ground arith

not_long : (n : ℕ) → n ≤ 125 → ltb 125 n ≡ false
not_long n h = ground arith

module _ (d : Data) (env : Env) (masked : Bool) (m : Message) (rest : List ℕ) (last : Data)
    (v : IsMessage m) (o : is_closed d.state ≡ false) where
  -- The length stands in the header.
  short_frame :
      length m.content ≤ 125
      → Finish
          (inside (header_read d masked m) (head masked m) (body masked m ++ rest))
          env
          (delivery m ∷ [])
          last
      → FrameRead env (ready d (encoded masked m ++ rest)) (delivery m ∷ []) last
  short_frame small f =
      let same = regroup_frame masked m [] rest (no_length (length m.content) small) in
      record {
        count = suc f.count;
        few = omega (arith, f.few);
        rounds =
            round
              (goes_on-inside (part d idle) [] (encoded masked m ++ rest)
                (omega (arith, ap length same)) o)
              (ap (λ b. read_round (ready d b) env) same
                ∙ header_round d env masked m (body masked m ++ rest) v.is_data
                ∙ rw (field_short (length m.content) small, not_long (length m.content) small) refl
                ∙ f.part_read)
              f.then_rounds f.together;
      }

  header_field : ℕ → Data
  header_field field = record d {
    fin = true;
    opcode = m.opcode;
    masked = masked;
    payload_len = field;
    reading_state = payload_len;
  }

  header_part :
      (field : ℕ) (lead : List ℕ)
      → length_field (length m.content) ≡ field
      → 125 < field
      → let buf = head masked m ++ (lead ++ (body masked m ++ rest)) in
        let e = after_header (ready d buf) true m.opcode masked (length_field (length m.content)) in
        read_part e.reading_state e env ≡ (
          let r =
            read_payload_len
              (inside (header_field field) (head masked m) (lead ++ (body masked m ++ rest))) in
          (r.0, [], r.1))
  unfolding read_part header_field
  header_part field lead is_field long = rw (is_field, is_long field long) refl

  -- The length stands in the bytes `lead` after the header.
  long_frame :
      (field : ℕ) (lead : List ℕ)
      → 125 < length m.content
      → 0 < length lead
      → 125 < field
      → length_field (length m.content) ≡ field
      → length_bytes (length m.content) ≡ lead
      → ((e : Data)
          → e.payload_len ≡ field
          → read_payload_len (inside e (head masked m) (lead ++ (body masked m ++ rest))) ≡ (
            inside
                (after_length e (length m.content))
                (head masked m ++ lead)
                (body masked m ++ rest),
            true,
          ))
      → Finish
          (inside (header_read d masked m) (head masked m ++ lead) (body masked m ++ rest))
          env
          (delivery m ∷ [])
          last
      → FrameRead env (ready d (encoded masked m ++ rest)) (delivery m ∷ []) last
  unfolding header_field
  long_frame field lead many some_lead long is_field is_lead read f =
      let same = regroup_frame masked m lead rest is_lead in
      let next = inside (header_read d masked m) (head masked m ++ lead) (body masked m ++ rest) in
      record {
        count = suc (suc f.count);
        few = omega (arith, f.few);
        rounds =
            round
              (goes_on-inside (part d idle) [] (encoded masked m ++ rest)
                (omega (arith, ap length same)) o)
              (ap (λ b. read_round (ready d b) env) same
                ∙ header_round d env masked m (lead ++ (body masked m ++ rest)) v.is_data
                ∙ header_part field lead is_field long
                ∙ ap (λ r. (r.0, [], r.1)) (read (header_field field) refl))
              (round
                (goes_on-inside (header_read d masked m) (head masked m ++ lead)
                  (body masked m ++ rest) (some_body masked m rest (omega arith)) o)
                (read_round-part next env (starts masked) ∙ f.part_read) f.then_rounds f.together)
              refl;
      }

module _ (d : Data) (env : Env) (rest : List ℕ) (m : Message) (v : IsMessage m)
    (c : d.has_frame_cb ≡ true) (o : is_closed d.state ≡ false) where
  finish :
      (masked : Bool) (before : List ℕ)
      → Finish
          (inside (header_read d masked m) before (body masked m ++ rest))
          env
          (delivery m ∷ [])
          (ready (frame_read d masked m) rest)
  finish true before = finish_masked d env before rest m v c o
  finish false before = finish_plain d env before rest m v c o

  -- The reader takes a whole frame in at most three rounds and calls the callback once.
  pub frame_rounds :
      (masked : Bool)
      → FrameRead env
          (ready d (encoded masked m ++ rest))
          (delivery m ∷ [])
          (ready (frame_read d masked m) rest)
  frame_rounds masked =
      let n = length m.content in
      let last = ready (frame_read d masked m) rest in
      elim (dec_lt 125 n) [
        | no short ↦
            short_frame d env masked m rest last v o (omega arith) (finish masked (head masked m))
        | yes long ↦ elim (dec_lt n 65535) [
          | yes small ↦
              let (f, b) = field_16 n long small in
              long_frame d env masked m rest last v o 126 (be16 n) long (omega arith) (omega arith)
                f b
                (λ e is.
                  read_payload_len-16 e (head masked m) (body masked m ++ rest) n (omega arith) is)
                (finish masked (head masked m ++ be16 n))
          | no big ↦
              let (f, b) = field_64 n (omega arith) in
              long_frame d env masked m rest last v o 127 (be64 n) long (omega arith) (omega arith)
                f b
                (λ e is.
                  read_payload_len-64 e (head masked m) (body masked m ++ rest) n v.content_small
                    is)
                (finish masked (head masked m ++ be64 n))
        ]
      ]
