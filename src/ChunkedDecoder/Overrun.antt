-- ===== src/ChunkedDecoder/Overrun.antt =====
-- evd/evd-http-chunked-decoder.c: the header that does not fit into hdr_buf.
use event_dance.Common.{
  ℕ, zero, suc, ◌+◌, ◌-◌, ◌<◌, ◌≡◌, refl, ap, ◌∙◌, inl, inr, Bool, Bool-cases, some, List, [], ◌∷◌,
  ◌++◌, length, arith,
}
use event_dance.ChunkedDecoder.{
  Decoder, is_header_char, read_header, iterate, overran, loop, reset, flush_loop, convert,
}
use event_dance.ChunkedDecoder.Chunks.{AreHeaderChars, at_header, plus, header_chars, not_zero}

plus-+ : (k n : ℕ) → plus k n ≡ k + n
plus-+ zero n = omega arith
plus-+ (suc k) n = omega (arith, plus-+ k n)

header_full :
    (n : ℕ) (header : List ℕ) (c : ℕ) (rest : List ℕ) (room : ℕ)
    → 0 < room
    → length header ≡ 10
    → loop (suc n) (at_header header) (c ∷ rest) room ≡ some overran
unfolding loop iterate read_header
header_full n header c rest room h e = elim (Bool-cases (is_header_char c)) [
  | inl f ↦ rw (not_zero room h, f, e) refl
  | inr f ↦ rw (not_zero room h, f, e) refl
]

-- A chunk header of ten characters, which sscanf would read, makes convert write behind the end of hdr_buf at
-- the next character, whatever that is: the character itself, or the null character.
pub convert-overran :
    (d : Decoder) (header : List ℕ) (c : ℕ) (rest : List ℕ) (fuel outbuf_size : ℕ) (flush : Bool)
    → AreHeaderChars header
    → length header ≡ 10
    → 0 < outbuf_size
    → 10 < fuel
    → convert fuel (reset d) (header ++ (c ∷ rest)) outbuf_size flush ≡ some overran
unfolding convert
convert-overran d header c rest fuel outbuf_size flush a e h f = ap (flush_loop flush) (
    ap (λ k. loop k (at_header []) (header ++ (c ∷ rest)) outbuf_size) {x = fuel}
      {y = plus (length header) (suc (fuel - 11))}
      (omega (arith, e, plus-+ (length header) (suc (fuel - 11))))
    ∙ header_chars (suc (fuel - 11)) [] header (c ∷ rest) outbuf_size h a (omega (arith, e))
    ∙ header_full (fuel - 11) header c rest outbuf_size h e)
