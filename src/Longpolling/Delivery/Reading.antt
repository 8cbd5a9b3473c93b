-- ===== src/Longpolling/Delivery/Reading.antt =====
-- evd/js/evdWebTransport.js: the client reads the frames of evd/evd-longpolling-server.c.
use event_dance.Common.{
  ℕ, zero, suc, ◌+◌, ◌-◌, ◌%◌, ◌^◌, ◌≤◌, ◌<◌, max, ◌≡◌, refl, sym, ap, ap₂, ◌∙◌, subst, leb, leb→le,
  ◌==◌, true, false, Bool-cases, some, List, [], ◌∷◌, ◌++◌, length, length-append, length-replicate,
  take, take_all, drop, drop-append, take-append, drop-drop, replicate, inl, inr, arith,
}
use event_dance.Common.Hex.{
  hex_onto, hex_digit, places, places_few, places_many, places_enough, length-hex_onto,
  StartWithDigits, StartWithDigits-fewer, hex_onto-StartWithDigits, digits_of, digits_of-hex_onto,
  skip_spaces, skip_spaces-digits, scan_unsigned, scan_unsigned-digits, no_sign,
}
use event_dance.HttpConnection.Chunked.{AreShort}
use event_dance.Longpolling.{frame_header}
use event_dance.Longpolling.Wire.{IsAscii, AreAscii, IsAscii-append, digits-IsAscii}
use event_dance.Longpolling.Client.{
  parse_int, scan_length, with_header, client_read_header, with_frame, xhr_on_load,
}

-- A number behind spaces.
scan_length-digits :
    (cs : List ℕ) → StartWithDigits 2 cs → scan_length cs ≡ some (digits_of (length cs) 0 cs)
scan_length-digits [] h = absurd (omega arith)
scan_length-digits (c ∷ []) (_, h) = absurd (omega arith)
scan_length-digits (c ∷ c' ∷ cs) h =
    first c (c' ∷ cs) h.0 (scan_unsigned-digits (length cs) (c ∷ c' ∷ cs) h)
  where
    first :
        (c : ℕ) (cs : List ℕ)
        → (a : ℕ) × (a < 16) × (c ≡ hex_digit a)
        → scan_unsigned (suc (length cs)) (c ∷ cs) ≡ some (digits_of (suc (length cs)) 0 (c ∷ cs))
        → scan_length (c ∷ cs) ≡ some (digits_of (suc (length cs)) 0 (c ∷ cs))
    first c cs (a, ha, ea) e =
        rw (ap (λ d. d == 45) ea ∙ (no_sign a ha).0, ap (λ d. d == 43) ea ∙ (no_sign a ha).1) e

skip_spaces-replicate : (j : ℕ) (cs : List ℕ) → skip_spaces (replicate j 32 ++ cs) ≡ skip_spaces cs
skip_spaces-replicate zero cs = refl
skip_spaces-replicate (suc j) cs = skip_spaces-replicate j cs

parse_int-hex_onto :
    (j k n : ℕ) → 2 ≤ k → n < 16 ^ k → parse_int (replicate j 32 ++ hex_onto k n []) ≡ some n
parse_int-hex_onto j k n two h =
    let cs = hex_onto k n [] in
    let digits =
      StartWithDigits-fewer 2 (k + 0) cs (omega arith) (hex_onto-StartWithDigits k 0 n [] tt) in
    ap scan_length (skip_spaces-replicate j cs ∙ skip_spaces-digits cs digits)
    ∙ scan_length-digits cs digits
    ∙ ap some (
        ap (λ w. digits_of w 0 cs) {x = length cs} {y = k + 0} (length-hex_onto k n [])
        ∙ digits_of-hex_onto k 0 n [] h)

abbrev Reads : List ℕ → ℕ → List ℕ → Type 0
Reads header len rest = client_read_header (header ++ rest) ≡ some (length header, len)

frame_header-short : (len : ℕ) → len ≤ 125 → frame_header len ≡ len ∷ []
frame_header-short len h = rw (short len h) refl
  where
    short : (len : ℕ) → len ≤ 125 → leb len 125 ≡ true
    short len h = ground arith

frame_header-middle :
    (len : ℕ) → 125 < len → len ≤ 65535 → frame_header len ≡ 126 ∷ hex_onto 4 len []
frame_header-middle len lo hi =
    rw (not_short len lo, middle len hi) (ap (λ l. 126 ∷ take 4 l) digits)
  where
    not_short : (len : ℕ) → 125 < len → leb len 125 ≡ false
    not_short len h = ground arith

    middle : (len : ℕ) → len ≤ 65535 → leb len 65535 ≡ true
    middle len h = ground arith

    same : len % 2 ^ 32 ≡ len
    same = omega arith

    digits : hex_onto (max 4 (places 7 (len % 2 ^ 32))) (len % 2 ^ 32) [] ≡ hex_onto 4 len []
    digits =
        ap (λ n. hex_onto (max 4 (places 7 n)) n []) same
        ∙ ap (λ k. hex_onto k len []) {x = max 4 (places 7 len)} {y = 4}
            (omega (arith, places_few 4 7 len (omega arith) (omega arith)))

-- The header of a long message, whose number takes `k` digits behind spaces.
abbrev long_header : ℕ → ℕ → List ℕ
long_header k len = 127 ∷ (replicate (16 - k) 32 ++ hex_onto k len [])

length-padding : (k len : ℕ) → k ≤ 16 → length (replicate (16 - k) 32 ++ hex_onto k len []) ≡ 16
length-padding k len h = omega (
  arith,
  length-append (replicate (16 - k) 32) (hex_onto k len []),
  length-replicate {A = ℕ} (16 - k) 32,
  length-hex_onto k len [],
)

frame_header-long :
    (len : ℕ) → 65535 < len → len < 2 ^ 32 → frame_header len ≡ long_header (places 7 len) len
frame_header-long len lo hi =
    rw (not_short len (omega arith), not_middle len lo)
      (ap (◌∷◌ 127) (
        ap (λ n. take 16 (replicate (16 - places 7 n) 32 ++ hex_onto (places 7 n) n []))
          {x = len % 2 ^ 32} {y = len} (omega arith)
        ∙ take_all 16 (replicate (16 - places 7 len) 32 ++ hex_onto (places 7 len) len []) (
            omega (
              arith,
              length-padding (places 7 len) len
                  (omega (arith, places_few 8 7 len (omega arith) (omega arith))),
            ))))
  where
    not_short : (len : ℕ) → 125 < len → leb len 125 ≡ false
    not_short len h = ground arith

    not_middle : (len : ℕ) → 65535 < len → leb len 65535 ≡ false
    not_middle len h = ground arith

short_Reads : (len : ℕ) (rest : List ℕ) → len ≤ 125 → Reads (len ∷ []) len rest
unfolding client_read_header
short_Reads len rest h = rw (short len h) refl
  where
    short : (len : ℕ) → len ≤ 125 → leb len 125 ≡ true
    short len h = ground arith

middle_Reads : (len : ℕ) (rest : List ℕ) → len ≤ 65535 → Reads (126 ∷ hex_onto 4 len []) len rest
unfolding client_read_header
middle_Reads len rest h =
    ap (with_header 5) (parse_int-hex_onto 0 4 len (omega arith) (omega arith))

long_Reads :
    (k len : ℕ) (rest : List ℕ) → 2 ≤ k → k ≤ 16 → len < 16 ^ k → Reads (long_header k len) len rest
unfolding client_read_header
long_Reads k len rest two few h =
    let digits = replicate (16 - k) 32 ++ hex_onto k len [] in
    let whole = length-padding k len few in
    ap (λ l. with_header 17 (parse_int l))
      (ap (λ n. take n (digits ++ rest)) (sym whole) ∙ take-append digits rest)
    ∙ ap (with_header 17) (parse_int-hex_onto (16 - k) k len two h)
    ∙ ap (λ n. some (suc n, len)) (sym whole)

past : (a b : ℕ) → leb a b ≡ false → b < a
past a b h = ground arith

frame_header-Reads : (len : ℕ) (rest : List ℕ) → len < 2 ^ 32 → Reads (frame_header len) len rest
frame_header-Reads len rest h = elim (Bool-cases (leb len 125)) [
  | inl e ↦
      subst (λ hd. Reads hd len rest) (sym (frame_header-short len (leb→le len 125 e)))
        (short_Reads len rest (leb→le len 125 e))
  | inr e ↦ elim (Bool-cases (leb len 65535)) [
    | inl m ↦
        subst (λ hd. Reads hd len rest)
          (sym (frame_header-middle len (past len 125 e) (leb→le len 65535 m)))
          (middle_Reads len rest (leb→le len 65535 m))
    | inr m ↦
        subst (λ hd. Reads hd len rest) (sym (frame_header-long len (past len 65535 m) h))
          (long_Reads (places 7 len) len rest
            (omega (arith, places_many 1 7 len (omega arith) (omega (arith, past len 65535 m))))
            (omega (arith, places_few 8 7 len (omega arith) (omega arith)))
            (places_enough 7 len (omega arith)))
  ]
]

-- The frames one behind the other.
abbrev pub frames_text : List (List ℕ) → List ℕ
frames_text [] = []
frames_text (b ∷ bs) = frame_header (length b) ++ (b ++ frames_text bs)

frame_header_some : (len : ℕ) → 0 < length (frame_header len)
frame_header_some len = elim (Bool-cases (leb len 125)) [
  | inl e ↦ rw e (omega arith)
  | inr e ↦ elim (Bool-cases (leb len 65535)) [
    | inl m ↦ rw (e, m) (omega arith)
    | inr m ↦ rw (e, m) (omega arith)
  ]
]

xhr_on_load-step :
    (fuel : ℕ) (text : List ℕ) (hdr_len msg_len : ℕ)
    → 0 < length text
    → client_read_header text ≡ some (hdr_len, msg_len)
    → xhr_on_load (suc fuel) text
      ≡ with_frame
          (take msg_len (drop hdr_len text))
          (xhr_on_load fuel (drop (hdr_len + msg_len) text))
unfolding xhr_on_load
xhr_on_load-step fuel [] hdr_len msg_len h e = absurd (omega arith)
xhr_on_load-step fuel (c ∷ cs) hdr_len msg_len h e = rw (xhr_on_load, e) refl

pub xhr_on_load-frames_text :
    (bs : List (List ℕ)) (fuel : ℕ)
    → AreShort bs
    → length bs < fuel
    → xhr_on_load fuel (frames_text bs) ≡ some bs
unfolding xhr_on_load
xhr_on_load-frames_text bs zero h f = absurd (omega arith)
xhr_on_load-frames_text [] (suc fuel) h f = refl
xhr_on_load-frames_text (b ∷ bs) (suc fuel) (h, hs) f =
    let hd = frame_header (length b) in
    let rest = frames_text bs in
    let text = hd ++ (b ++ rest) in
    xhr_on_load-step fuel text (length hd) (length b)
      (omega (arith, frame_header_some (length b), length-append hd (b ++ rest)))
      (frame_header-Reads (length b) (b ++ rest) h)
    ∙ ap₂ (λ m r. with_frame m (xhr_on_load fuel r))
        (ap (take (length b)) (drop-append hd (b ++ rest)) ∙ take-append b rest)
        (drop-drop (length hd) (length b) text
          ∙ ap (drop (length b)) (drop-append hd (b ++ rest))
          ∙ drop-append b rest)
    ∙ ap (with_frame b) (xhr_on_load-frames_text bs fuel hs (omega arith))

-- A header is short and ASCII.
pub length-frame_header : (len : ℕ) → len < 2 ^ 32 → length (frame_header len) ≤ 17
length-frame_header len h = elim (Bool-cases (leb len 125)) [
  | inl e ↦ omega (arith, ap length (frame_header-short len (leb→le len 125 e)))
  | inr e ↦ elim (Bool-cases (leb len 65535)) [
    | inl m ↦
        omega (arith, ap length (frame_header-middle len (past len 125 e) (leb→le len 65535 m)))
    | inr m ↦ omega (
      arith,
      ap length (frame_header-long len (past len 65535 m) h),
      length-padding (places 7 len) len
          (omega (arith, places_few 8 7 len (omega arith) (omega arith))),
    )
  ]
]

spaces-IsAscii : (k : ℕ) → IsAscii (replicate k 32)
spaces-IsAscii zero = tt
spaces-IsAscii (suc k) = (omega arith, spaces-IsAscii k)

frame_header-IsAscii : (len : ℕ) → len < 2 ^ 32 → IsAscii (frame_header len)
frame_header-IsAscii len h = elim (Bool-cases (leb len 125)) [
  | inl e ↦
      let le = leb→le len 125 e in subst IsAscii (sym (frame_header-short len le)) (omega arith, tt)
  | inr e ↦ elim (Bool-cases (leb len 65535)) [
    | inl m ↦
        subst IsAscii (sym (frame_header-middle len (past len 125 e) (leb→le len 65535 m)))
          (omega arith, digits-IsAscii 4 len [] tt)
    | inr m ↦ subst IsAscii (sym (frame_header-long len (past len 65535 m) h)) (
      omega arith,
      IsAscii-append (replicate (16 - places 7 len) 32) (hex_onto (places 7 len) len [])
          (spaces-IsAscii (16 - places 7 len)) (digits-IsAscii (places 7 len) len [] tt),
    )
  ]
]

pub frames_text-IsAscii :
    (bs : List (List ℕ)) → AreShort bs → AreAscii bs → IsAscii (frames_text bs)
frames_text-IsAscii [] h a = tt
frames_text-IsAscii (b ∷ bs) (h, hs) (a, more) =
    IsAscii-append (frame_header (length b)) (b ++ frames_text bs)
      (frame_header-IsAscii (length b) h)
      (IsAscii-append b (frames_text bs) a (frames_text-IsAscii bs hs more))
