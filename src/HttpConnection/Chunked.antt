-- ===== src/HttpConnection/Chunked.antt =====
-- evd/evd-http-connection.c with evd/evd-http-chunked-decoder.c: what is written in chunks is read back.
use event_dance.Common.{
  ℕ, zero, suc, ◌+◌, ◌*◌, ◌/◌, ◌%◌, ◌^◌, ◌≤◌, ◌<◌, ◌≡◌, refl, sym, ap, ◌∙◌, subst, ◌==◌, Bool, true,
  false, take_all, min, drop, drop-append, leb→le, if◌then◌else◌, some, List, [], ◌∷◌, ◌++◌,
  append-nil, append_assoc, length, length-append, arith,
}
use event_dance.Common.Hex.{
  hex_onto, hex_digit, StartWithDigits, StartWithDigits-fewer, hex_onto-StartWithDigits,
  length-hex_onto, digit_value, places, places_enough, places_few, places_some,
  digit_value-hex_digit,
}
use event_dance.HttpConnection.{
  chunked, Outcome, failed, accepted, Writer, next_outcome, wrote_all, write_plain, hex, crlf,
  write_chunk, write_content, ◌and_then◌, is_chunked, until_eof, has_bytes,
}
use event_dance.ChunkedDecoder.{
  is_some, Decoder, reset, convert, scan_hex, scan_digits, ended, finished, is_header_char,
}
use event_dance.ChunkedDecoder.Chunks.{
  Chunk, IsHeader, AreChunks, AreHeaderChars, encode, contents, at_crlf,
}
use event_dance.ChunkedDecoder.Chunks.RoundTrip.{encode_all, convert-encode_all}

-- A write that takes everything.
next_outcome-all :
    (os : List Outcome) (c : ℕ) (cs : List ℕ) (w : Writer)
    → wrote_all (length (c ∷ cs)) (next_outcome os (c ∷ cs) w).1 ≡ true
    → (next_outcome os (c ∷ cs) w).0.written ≡ w.written ++ (c ∷ cs)
next_outcome-all [] c cs w h = refl
next_outcome-all (failed ∷ os) c cs w h = cc
next_outcome-all (accepted n ∷ os) c cs w h =
    ap (λ l. w.written ++ l)
      (take_all n (c ∷ cs) (omega (arith, leb→le (length (c ∷ cs)) (min n (length (c ∷ cs))) h)))

pub write_plain-all :
    (buffer : List ℕ) (w : Writer)
    → (write_plain buffer w).1 ≡ true
    → (write_plain buffer w).0.written ≡ w.written ++ buffer
unfolding write_plain
write_plain-all [] w h = sym (append-nil w.written)
write_plain-all (c ∷ cs) w h = next_outcome-all w.outcomes c cs w h

hex_char : (d : ℕ) → d < 16 → is_header_char (hex_digit d) ≡ true
hex_char d h = rw (digit_value-hex_digit d h) refl

hex_chars : (k n : ℕ) (tail : List ℕ) → AreHeaderChars tail → AreHeaderChars (hex_onto k n tail)
hex_chars zero n tail h = h
hex_chars (suc k) n tail h =
    hex_chars k (n / 16) (hex_digit (n % 16) ∷ tail) (hex_char (n % 16) (omega arith), h)

scan_digits-hex_onto :
    (k n : ℕ) (tail : List ℕ) → n < 16 ^ k → scan_digits 0 (hex_onto k n tail) ≡ scan_digits n tail
scan_digits-hex_onto zero n tail h = ap (λ a. scan_digits a tail) {x = 0} {y = n} (omega arith)
scan_digits-hex_onto (suc k) n tail h =
    scan_digits-hex_onto k (n / 16) (hex_digit (n % 16) ∷ tail) (omega arith)
    ∙ rw (scan_digits, digit_value-hex_digit (n % 16) (omega arith)) refl
    ∙ ap (λ a. scan_digits a tail) {x = n / 16 * 16 + n % 16} {y = n} (omega arith)

scan_hex-digits : (cs : List ℕ) → StartWithDigits 1 cs → scan_hex cs ≡ some (scan_digits 0 cs)
unfolding scan_hex
scan_hex-digits [] h = absurd (omega arith)
scan_hex-digits (c ∷ cs) ((a, ha, e), _) = rw (no_space, digit) refl
  where
    digit : is_some (digit_value c) ≡ true
    digit = rw (e, digit_value-hex_digit a ha) refl

    no_space : (c == 32) ≡ false
    no_space = rw e (not_32 a ha)
      where
        not_32 : (d : ℕ) → d < 16 → (hex_digit d == 32) ≡ false
        not_32 d h = ground arith

hex_onto-IsHeader :
    (k n : ℕ) → 0 < k → k ≤ 8 → n < 16 ^ k → n < 2 ^ 32 → IsHeader (hex_onto k n []) n
hex_onto-IsHeader k n k0 k8 h small = record {
  chars = hex_chars k n [] tt;
  some_chars = omega (arith, length-hex_onto k n []);
  few_chars = omega (arith, length-hex_onto k n []);
  value =
      scan_hex-digits (hex_onto k n []) (
        StartWithDigits-fewer 1 (k + 0) (hex_onto k n []) (omega arith)
          (hex_onto-StartWithDigits k 0 n [] tt))
      ∙ ap some (scan_digits-hex_onto k n [] h);
  small = small;
}

pub hex-IsHeader : (n : ℕ) → n < 2 ^ 32 → IsHeader (hex n) n
hex-IsHeader n h =
    subst (λ m. IsHeader (hex_onto (places 7 m) m []) n) {x = n} {y = n % 2 ^ 32} (omega arith)
      (hex_onto-IsHeader (places 7 n) n (places_some 7 n)
        (places_few 8 7 n (omega arith) (omega arith)) (places_enough 7 n (omega arith)) h)

-- A call behind one that has succeeded.
pub and_then-true :
    (r : Writer × Bool) (f : Writer → Writer × Bool)
    → (r and_then f).1 ≡ true
    → (r.1 ≡ true) × ((r and_then f) ≡ f r.0)
and_then-true (w, true) f h = (refl, refl)
and_then-true (w, false) f h = cc

-- The content, where it is not empty, and the line end.
abbrev chunk_bytes : List ℕ → List ℕ
chunk_bytes buffer = (hex (length buffer) ++ crlf) ++ (buffer ++ crlf)

body_written :
    (buffer : List ℕ) (w : Writer)
    → (if has_bytes buffer then write_plain buffer w else (w, true)).1 ≡ true
    → (if has_bytes buffer then write_plain buffer w else (w, true)).0.written ≡ w.written ++ buffer
body_written [] w h = sym (append-nil w.written)
body_written (c ∷ cs) w h = write_plain-all (c ∷ cs) w h

pub write_chunk-all :
    (buffer : List ℕ) (w : Writer)
    → (write_chunk buffer w).1 ≡ true
    → (write_chunk buffer w).0.written ≡ w.written ++ chunk_bytes buffer
unfolding write_chunk
write_chunk-all buffer w h =
    let plain : Writer = record w { encoding = until_eof } in
    let head : Writer × Bool = write_plain (hex (length buffer) ++ crlf) plain in
    let body : Writer → Writer × Bool =
      λ v. if has_bytes buffer then write_plain buffer v else (v, true) in
    let outer = and_then-true (head and_then body) (write_plain crlf) h in
    let inner = and_then-true head body outer.0 in
    let body_true : (body (head.0)).1 ≡ true = subst (λ r. r.1 ≡ true) inner.1 outer.0 in
    let mid : (head and_then body).0.written
        ≡ (w.written ++ (hex (length buffer) ++ crlf)) ++ buffer =
      ap (λ r. r.0.written) inner.1
      ∙ body_written buffer (head.0) body_true
      ∙ ap (λ l. l ++ buffer) (write_plain-all (hex (length buffer) ++ crlf) plain inner.0) in
    ap (λ r. r.0.written) outer.1
    ∙ write_plain-all crlf ((head and_then body).0) (subst (λ r. r.1 ≡ true) outer.1 h)
    ∙ ap (λ l. l ++ crlf) mid
    ∙ append_assoc (w.written ++ (hex (length buffer) ++ crlf)) buffer crlf
    ∙ append_assoc w.written (hex (length buffer) ++ crlf) (buffer ++ crlf)

pub write_chunk-encoding :
    (buffer : List ℕ) (w : Writer) → (write_chunk buffer w).0.encoding ≡ chunked
unfolding write_chunk
write_chunk-encoding buffer w = refl

-- A whole content: its parts, and the end of it.
abbrev pub write_contents : List (List ℕ) → Writer → Writer × Bool
write_contents [] w = write_content [] false w
write_contents (b ∷ bs) w = write_content b true w and_then write_contents bs

abbrev pub concat : List (List ℕ) → List ℕ
concat [] = []
concat (b ∷ bs) = b ++ concat bs

abbrev pub AreShort : List (List ℕ) → Type 0
AreShort [] = Unit
AreShort (b ∷ bs) = (length b < 2 ^ 32) × AreShort bs

-- The chunks that the parts become; an empty part becomes none.
abbrev pub chunks_of : List (List ℕ) → List Chunk
chunks_of [] = []
chunks_of ([] ∷ bs) = chunks_of bs
chunks_of ((c ∷ cs) ∷ bs) =
    record { header = hex (suc (length cs)); content = c ∷ cs } ∷ chunks_of bs

contents-chunks_of : (bs : List (List ℕ)) → contents (chunks_of bs) ≡ concat bs
contents-chunks_of [] = refl
contents-chunks_of ([] ∷ bs) = contents-chunks_of bs
contents-chunks_of ((c ∷ cs) ∷ bs) = ap (λ l. (c ∷ cs) ++ l) (contents-chunks_of bs)

chunks_of-AreChunks : (bs : List (List ℕ)) → AreShort bs → AreChunks (chunks_of bs)
chunks_of-AreChunks [] h = tt
chunks_of-AreChunks ([] ∷ bs) (_, h) = chunks_of-AreChunks bs h
chunks_of-AreChunks ((c ∷ cs) ∷ bs) (h, hs) =
    ((hex-IsHeader (suc (length cs)) h, omega arith), chunks_of-AreChunks bs hs)

-- What one call writes, and what the end does.
write_content-part :
    (c : ℕ) (cs : List ℕ) (w : Writer)
    → w.encoding ≡ chunked
    → write_content (c ∷ cs) true w ≡ write_chunk (c ∷ cs) w
unfolding write_content
write_content-part c cs w e = rw (ap is_chunked e) (kept (write_chunk (c ∷ cs) w))
  where
    kept : (r : Writer × Bool) → (r and_then (λ v. (v, true))) ≡ r
    kept (v, true) = refl
    kept (v, false) = refl

write_content-empty : (w : Writer) → w.encoding ≡ chunked → write_content [] true w ≡ (w, true)
unfolding write_content
write_content-empty w e = rw (ap is_chunked e) refl

write_content-last :
    (w : Writer) → w.encoding ≡ chunked → write_content [] false w ≡ write_chunk [] w
unfolding write_content
write_content-last w e = rw (ap is_chunked e) refl

pub write_contents-written :
    (bs : List (List ℕ)) (w : Writer)
    → w.encoding ≡ chunked
    → (write_contents bs w).1 ≡ true
    → (write_contents bs w).0.written ≡ w.written ++ (encode_all (chunks_of bs) (hex 0) ++ crlf)
write_contents-written [] w e h =
    let same = write_content-last w e in
    ap (λ r. r.0.written) same ∙ write_chunk-all [] w (subst (λ r. r.1 ≡ true) same h)
write_contents-written ([] ∷ bs) w e h =
    let same : write_contents ([] ∷ bs) w ≡ write_contents bs w =
      ap (λ r. r and_then write_contents bs) (write_content-empty w e) in
    ap (λ r. r.0.written) same ∙ write_contents-written bs w e (subst (λ r. r.1 ≡ true) same h)
write_contents-written ((c ∷ cs) ∷ bs) w e h =
    let same : write_contents ((c ∷ cs) ∷ bs) w
        ≡ (write_chunk (c ∷ cs) w and_then write_contents bs) =
      ap (λ r. r and_then write_contents bs) (write_content-part c cs w e) in
    let both =
      and_then-true (write_chunk (c ∷ cs) w) (write_contents bs) (subst (λ r. r.1 ≡ true) same h) in
    let next = (write_chunk (c ∷ cs) w).0 in
    let later =
      write_contents-written bs next (write_chunk-encoding (c ∷ cs) w)
        (subst (λ r. r.1 ≡ true) (same ∙ both.1) h) in
    ap (λ r. r.0.written) (same ∙ both.1)
    ∙ later
    ∙ ap (λ l. l ++ (encode_all (chunks_of bs) (hex 0) ++ crlf)) (write_chunk-all (c ∷ cs) w both.0)
    ∙ append_assoc w.written (chunk_bytes (c ∷ cs)) (encode_all (chunks_of bs) (hex 0) ++ crlf)
    ∙ ap (λ l. w.written ++ l)
        (regroup (hex (suc (length cs))) (c ∷ cs) (encode (chunks_of bs)) (hex 0 ++ crlf))
  where
    regroup :
        (header content later last : List ℕ)
        → ((header ++ crlf) ++ (content ++ crlf)) ++ ((later ++ last) ++ crlf)
          ≡ (((header ++ (13 ∷ 10 ∷ (content ++ crlf))) ++ later) ++ last) ++ crlf
    regroup header content later last =
        ap (λ l. l ++ ((later ++ last) ++ crlf)) (append_assoc header crlf (content ++ crlf))
        ∙ sym (append_assoc (header ++ (13 ∷ 10 ∷ (content ++ crlf))) (later ++ last) crlf)
        ∙ ap (λ l. l ++ crlf)
            (sym (append_assoc (header ++ (13 ∷ 10 ∷ (content ++ crlf))) later last))

-- What write_content has sent in chunks is what a decoder that has been reset reads: where the
-- connection has the chunked encoding, no part has 2 ^ 32 bytes or more, and every call that writes the parts
-- and then the end returns TRUE, whatever the stream under it does, the bytes that the calls have added to the
-- stream convert to the parts, one behind the other, with room for one byte more and two rounds for each byte.
-- The decoder finishes with the last line end left.
pub write_contents-convert :
    (d : Decoder) (bs : List (List ℕ)) (w : Writer) (fuel outbuf_size : ℕ)
    → w.encoding ≡ chunked
    → AreShort bs
    → (write_contents bs w).1 ≡ true
    → length (concat bs) < outbuf_size
    → 2 * length (write_contents bs w).0.written ≤ fuel
    → convert fuel
        (reset d)
        (drop (length w.written) (write_contents bs w).0.written)
        outbuf_size
        false
      ≡ some (ended (at_crlf 0) crlf (concat bs) finished)
write_contents-convert d bs w fuel outbuf_size e short h room f =
    let sent = encode_all (chunks_of bs) (hex 0) in
    let all = write_contents-written bs w e h in
    let same = contents-chunks_of bs in
    let fuel_enough : 2 * length sent ≤ fuel =
      omega (
        arith,
        f,
        ap length all,
        length-append w.written (sent ++ crlf),
        length-append sent crlf,
      ) in
    ap (λ l. convert fuel (reset d) (drop (length w.written) l) outbuf_size false) all
    ∙ ap (λ l. convert fuel (reset d) l outbuf_size false) (drop-append w.written (sent ++ crlf))
    ∙ convert-encode_all d (chunks_of bs) (hex 0) crlf fuel outbuf_size
        (chunks_of-AreChunks bs short) (hex-IsHeader 0 (omega arith))
        (omega (arith, ap length same)) fuel_enough
    ∙ ap (λ l. some (ended (at_crlf 0) crlf l finished)) same
