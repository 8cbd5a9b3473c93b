-- ===== src/Websocket/RoundTrip.antt =====
-- evd/evd-websocket-protocol.c: what build_frame writes, process_data reads.
pub mod Rounds
pub mod Frames
pub mod Encoded
pub mod Messages
use event_dance.Common.{
  ℕ, zero, suc, ◌+◌, ◌-◌, ◌*◌, ◌/◌, ◌%◌, ◌^◌, ◌≤◌, ◌<◌, ◌≡◌, refl, sym, ap, ◌∙◌, ◌⊎◌, inl, inr,
  Bool, true, false, Bool-cases, if◌then◌else◌, ltb, leb, ◌==◌, List, [], ◌∷◌, ◌++◌, append_assoc,
  length, length-append, take, drop, take-append, drop-append, drop-drop, arith,
}
use event_dance.Websocket.Frame.{
  be16, be64, flag, frame_header, length_field, length_bytes, build_frame, apply_masking,
}
use event_dance.Websocket.Connection.{
  Data, Effect, frame_cb, ReadingState, idle, payload_len, masking_key, payload,
}
use event_dance.Websocket.Closing.{Env}
use event_dance.Websocket.Reader.{
  read_header, read_payload_len, read_payload, read_masking_key, handle_frame, drop_frame, be_value,
  frame_data,
}

-- The fields that a header of these values sets.
abbrev pub after_header : Data → Bool → ℕ → Bool → ℕ → Data
after_header d fin opcode masked field = record d {
  offset = d.offset + 2;
  fin = fin;
  opcode = opcode;
  masked = masked;
  payload_len = field;
  reading_state = if ltb 125 field then payload_len else if masked then masking_key else payload;
}

header_fields :
    (fin : Bool) (opcode : ℕ) (masked : Bool) (field : ℕ)
    → opcode < 16
    → field < 128
    → let head = flag fin (2 ^ 15) + opcode * 2 ^ 8 + flag masked (2 ^ 7) + field in
      ((head / 256 % 256) * 256 + head % 256 ≡ head)
      × ((head / 2 ^ 15 % 2 == 1) ≡ fin)
      × (head / 2 ^ 8 % 2 ^ 4 ≡ opcode)
      × ((head / 2 ^ 7 % 2 == 1) ≡ masked)
      × (head % 2 ^ 7 ≡ field)
header_fields true opcode true field ho hf =
    (omega arith, ground arith, omega arith, ground arith, omega arith)
header_fields true opcode false field ho hf =
    (omega arith, ground arith, omega arith, ground arith, omega arith)
header_fields false opcode true field ho hf =
    (omega arith, ground arith, omega arith, ground arith, omega arith)
header_fields false opcode false field ho hf =
    (omega arith, ground arith, omega arith, ground arith, omega arith)

length_field-lt : (n : ℕ) → length_field n < 128
unfolding length_field
length_field-lt n = ground arith

enough : (size offset n : ℕ) → offset + n ≤ size → ltb (size - offset) n ≡ false
enough size offset n h = ground arith

-- The reader at the start of a frame, with `buf` received.
abbrev pub ready : Data → List ℕ → Data
ready d buf = record d { reading_state = idle; offset = 0; buf = buf }

read_header-frame :
    (d : Data) (fin : Bool) (opcode : ℕ) (masked : Bool) (n : ℕ) (tail : List ℕ)
    → opcode < 16
    → read_header (ready d (be16 (frame_header fin opcode masked n) ++ tail)) ≡ (
      after_header
          (ready d (be16 (frame_header fin opcode masked n) ++ tail))
          fin
          opcode
          masked
          (length_field n),
      true,
    )
unfolding read_header frame_header
read_header-frame d fin opcode masked n tail ho =
    let (whole, f, o, m, l) =
      header_fields fin opcode masked (length_field n) ho (length_field-lt n) in
    rw
      (
        whole,
        f,
        o,
        m,
        l,
        enough (length (be16 (frame_header fin opcode masked n) ++ tail)) 0 2 (omega arith),
      )
      refl

be16_value : (n : ℕ) → n < 2 ^ 16 → be_value (be16 n) 0 ≡ n
be16_value n h = omega arith

be64_value : (n : ℕ) → n < 2 ^ 64 → be_value (be64 n) 0 ≡ n
be64_value n h = omega arith

not-control : (opcode : ℕ) → opcode < 8 → leb 8 opcode ≡ false
not-control opcode h = ground arith

-- The reader inside a frame of which `before` has been read.
abbrev pub inside : Data → List ℕ → List ℕ → Data
inside d before rest = record d { buf = before ++ rest; offset = length before }

abbrev pub part : Data → ReadingState → Data
part d state = record d { reading_state = state }

abbrev pub after_length : Data → ℕ → Data
after_length d n = record d {
  payload_len = n;
  reading_state = if d.masked then masking_key else payload;
}

read_payload_len-16 :
    (d : Data) (before rest : List ℕ) (n : ℕ)
    → n < 2 ^ 16
    → d.payload_len ≡ 126
    → read_payload_len (inside d before (be16 n ++ rest))
      ≡ (inside (after_length d n) (before ++ be16 n) rest, true)
unfolding read_payload_len
read_payload_len-16 d before rest n h e =
    rw
      (
        e,
        drop-append before (be16 n ++ rest),
        be16_value n h,
        enough (length (before ++ (be16 n ++ rest))) (length before) 2
            (omega (arith, length-append before (be16 n ++ rest))),
        append_assoc before (be16 n) rest,
        length-append before (be16 n),
      )
      refl

read_payload_len-64 :
    (d : Data) (before rest : List ℕ) (n : ℕ)
    → n < 2 ^ 64
    → d.payload_len ≡ 127
    → read_payload_len (inside d before (be64 n ++ rest))
      ≡ (inside (after_length d n) (before ++ be64 n) rest, true)
unfolding read_payload_len
read_payload_len-64 d before rest n h e =
    rw
      (
        e,
        drop-append before (be64 n ++ rest),
        be64_value n h,
        enough (length (before ++ (be64 n ++ rest))) (length before) 8
            (omega (arith, length-append before (be64 n ++ rest))),
        append_assoc before (be64 n) rest,
        length-append before (be64 n),
      )
      refl

drop_both :
    (before body rest : List ℕ)
    → drop (length before + length body) (before ++ (body ++ rest)) ≡ rest
drop_both before body rest =
    drop-drop (length before) (length body) (before ++ (body ++ rest))
    ∙ ap (drop (length body)) (drop-append before (body ++ rest))
    ∙ drop-append body rest

-- What the client's callback gets.
abbrev pub unmasked : Data → List ℕ → List ℕ
unmasked d body = if d.masked then apply_masking body d.masking_key else body

read_payload-frame :
    (d : Data) (env : Env) (before body rest : List ℕ)
    → d.payload_len ≡ length body
    → d.fin ≡ true
    → d.opcode < 8
    → d.has_frame_cb ≡ true
    → read_payload (inside d before (body ++ rest)) env
      ≡ (ready d rest, frame_cb (unmasked d body) (d.opcode == 2) ∷ [], true)
unfolding read_payload handle_frame drop_frame frame_data
read_payload-frame d env before body rest e f o c =
    rw
      (
        e,
        f,
        c,
        not-control d.opcode o,
        drop-append before (body ++ rest),
        take-append body rest,
        enough (length (before ++ (body ++ rest))) (length before) (length body)
            (omega (arith, length-append before (body ++ rest), length-append body rest)),
        drop_both before body rest,
      )
      refl

take_key : (key rest : List ℕ) → length key ≡ 4 → take 4 (key ++ rest) ≡ key
take_key key rest e = ap (λ n. take n (key ++ rest)) (sym e) ∙ take-append key rest

-- The key of a masked frame, when a payload follows.
read_masking_key-frame :
    (d : Data) (env : Env) (before key rest : List ℕ)
    → length key ≡ 4
    → (d.payload_len == 0) ≡ false
    → read_masking_key (inside d before (key ++ rest)) env ≡ (
      inside (record d { masking_key = key; reading_state = payload }) (before ++ key) rest,
      [],
      true,
    )
unfolding read_masking_key
read_masking_key-frame d env before key rest e z =
    rw
      (
        z,
        drop-append before (key ++ rest),
        take_key key rest e,
        enough (length (before ++ (key ++ rest))) (length before) 4
            (omega (arith, length-append before (key ++ rest), length-append key rest, e)),
        append_assoc before key rest,
        length-append before key,
        e,
      )
      refl

-- The key of a masked frame with no payload ends the frame.
read_masking_key-last :
    (d : Data) (env : Env) (before key rest : List ℕ)
    → length key ≡ 4
    → d.payload_len ≡ 0
    → read_masking_key (inside d before (key ++ rest)) env
      ≡ read_payload
          (inside (record d { masking_key = key; reading_state = payload }) (before ++ key) rest)
          env
unfolding read_masking_key
read_masking_key-last d env before key rest e z =
    rw
      (
        z,
        drop-append before (key ++ rest),
        take_key key rest e,
        enough (length (before ++ (key ++ rest))) (length before) 4
            (omega (arith, length-append before (key ++ rest), length-append key rest, e)),
        append_assoc before key rest,
        length-append before key,
        e,
      )
      refl
