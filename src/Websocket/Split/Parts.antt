-- ===== src/Websocket/Split/Parts.antt =====
-- evd/evd-websocket-protocol.c: the parts of a frame when more bytes have come.
use event_dance.Common.{
  ℕ, ◌+◌, ◌-◌, ◌≤◌, ◌≡◌, refl, ap, ◌∙◌, true, false, Bool-cases, inl, inr, List, [], length,
  length-append, take, drop, ltb, ◌==◌, ==_iff, if◌then◌else◌, arith,
}
use event_dance.Websocket.Connection.{
  Data, ReadingState, idle, header, payload_len, masking_key, payload,
}
use event_dance.Websocket.Closing.{Env}
use event_dance.Websocket.Reader.{
  read_header, read_payload_len, drop_frame, read_payload, read_masking_key, read_part, available,
}
use event_dance.Websocket.Split.{
  get_or-append, drop-append_le, middle_append, feed_more, more_after, still, fits,
  handle_frame-Handled,
}

module _ (d : Data) (more : List ℕ) (h : d.offset ≤ length d.buf) where
  grown : available d ≤ available (feed_more d more)
  grown = omega (arith, length-append d.buf more)

  pub read_header-more :
      ltb (available d) 2 ≡ false
      → read_header (feed_more d more) ≡ (feed_more (read_header d).0 more, true)
  unfolding read_header
  read_header-more e =
      let le = fits (length d.buf) d.offset 2 h e in
      rw
        (
          e,
          still (available d) (available (feed_more d more)) 2 e grown,
          get_or-append d.buf more (d.offset + 0) 0 (omega arith),
          get_or-append d.buf more (d.offset + 1) 0 (omega arith),
        )
        refl

  pub read_payload-more :
      (env : Env)
      → ltb (available d) d.payload_len ≡ false
      → read_payload (feed_more d more) env ≡ more_after (read_payload d env) more
  unfolding read_payload drop_frame
  read_payload-more env e =
      let le = fits (length d.buf) d.offset d.payload_len h e in
      let f = handle_frame-Handled env more d le in
      rw
        (
          e,
          still (available d) (available (feed_more d more)) d.payload_len e grown,
          f.same,
          f.same_buf,
          f.same_offset,
          f.same_len,
          drop-append_le (d.offset + d.payload_len) d.buf more le,
        )
        refl

  abbrev pub length_size : ℕ
  length_size = if d.payload_len == 126 then 2 else 8

  pub read_payload_len-more :
      ltb (available d) length_size ≡ false
      → read_payload_len (feed_more d more) ≡ (feed_more (read_payload_len d).0 more, true)
  unfolding read_payload_len
  read_payload_len-more e =
      rw
        (
          e,
          still (available d) (available (feed_more d more)) length_size e grown,
          middle_append length_size d.offset d.buf more
              (fits (length d.buf) d.offset length_size h e),
        )
        refl

  abbrev pub key_taken : Data
  key_taken = record d {
    masking_key = take 4 (drop d.offset d.buf);
    offset = d.offset + 4;
    reading_state = payload;
  }

no_bytes : (have n : ℕ) → n ≡ 0 → ltb have n ≡ false
no_bytes have n z = ground arith

pub read_masking_key-more :
    (d : Data) (more : List ℕ) (env : Env)
    → d.offset ≤ length d.buf
    → ltb (available d) 4 ≡ false
    → read_masking_key (feed_more d more) env ≡ more_after (read_masking_key d env) more
unfolding read_masking_key
read_masking_key-more d more env h e =
    let le = fits (length d.buf) d.offset 4 h e in
    elim (Bool-cases (d.payload_len == 0)) [
      | inl z ↦
          rw
            (
              e,
              still (available d) (available (feed_more d more)) 4 e (grown d more h),
              z,
              middle_append 4 d.offset d.buf more le,
            )
            (read_payload-more (key_taken d more h) more (omega (arith, le)) env
              (no_bytes (available (key_taken d more h)) d.payload_len ((==_iff _ _).0 z)))
      | inr z ↦
          rw
            (
              e,
              still (available d) (available (feed_more d more)) 4 e (grown d more h),
              z,
              middle_append 4 d.offset d.buf more le,
            )
            refl
    ]

read_masking_key-done :
    (d : Data) (env : Env) → ltb (available d) 4 ≡ false → (read_masking_key d env).2 ≡ true
unfolding read_masking_key read_payload
read_masking_key-done d env e = elim (Bool-cases (d.payload_len == 0)) [
  | inl z ↦
      rw (e, z, no_bytes (length d.buf - (d.offset + 4)) d.payload_len ((==_iff _ _).0 z)) refl
  | inr z ↦ rw (e, z) refl
]

-- A part of a frame either wants more bytes, and changes nothing, or is read the same whatever follows.
pub data Taken (s : ReadingState) (d : Data) (env : Env) : Type 0 where
  wants_more : read_part s d env ≡ (d, [], false) → Taken s d env
  is_read :
      (read_part s d env).2 ≡ true
      → ((more : List ℕ) → read_part s (feed_more d more) env ≡ more_after (read_part s d env) more)
      → Taken s d env

read_payload-Taken : (d : Data) (env : Env) → d.offset ≤ length d.buf → Taken payload d env
unfolding read_part
read_payload-Taken d env h = elim (Bool-cases (ltb (available d) d.payload_len)) [
  | inl e ↦ wants_more (unfold read_payload in rw e refl)
  | inr e ↦ is_read (unfold read_payload in rw e refl) (λ more. read_payload-more d more h env e)
]

read_payload_len-Taken : (d : Data) (env : Env) → d.offset ≤ length d.buf → Taken payload_len d env
unfolding read_part
read_payload_len-Taken d env h = elim (Bool-cases (ltb (available d) (length_size d [] h))) [
  | inl e ↦ wants_more (unfold read_payload_len in rw e refl)
  | inr e ↦ is_read (unfold read_payload_len in rw e refl) (λ more.
      ap (λ r. (r.0, [], r.1)) (read_payload_len-more d more h e)
      ∙ (unfold read_payload_len in rw e refl))
]

read_masking_key-Taken : (d : Data) (env : Env) → d.offset ≤ length d.buf → Taken masking_key d env
unfolding read_part
read_masking_key-Taken d env h = elim (Bool-cases (ltb (available d) 4)) [
  | inl e ↦ wants_more (unfold read_masking_key in rw e refl)
  | inr e ↦ is_read (read_masking_key-done d env e) (λ more. read_masking_key-more d more env h e)
]

pub read_part-Taken :
    (s : ReadingState) (d : Data) (env : Env) → d.offset ≤ length d.buf → Taken s d env
read_part-Taken payload d env h = read_payload-Taken d env h
read_part-Taken payload_len d env h = read_payload_len-Taken d env h
read_part-Taken masking_key d env h = read_masking_key-Taken d env h
read_part-Taken idle d env h = unfold read_part in is_read refl (λ more. refl)
read_part-Taken header d env h = unfold read_part in is_read refl (λ more. refl)
