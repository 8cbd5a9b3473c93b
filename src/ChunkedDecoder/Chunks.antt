-- ===== src/ChunkedDecoder/Chunks.antt =====
-- evd/evd-http-chunked-decoder.c: the decoder gives back what has been cut into chunks.
pub mod RoundTrip
use event_dance.Common.{
  ℕ, zero, suc, ◌+◌, ◌-◌, ◌*◌, ◌/◌, ◌%◌, ◌^◌, ◌≤◌, ◌<◌, ◌≡◌, ◌≢◌, refl, sym, ap, ◌∙◌, min, leb, ltb,
  lt→ltb, ◌==◌, Bool, true, false, not, ◌&&◌, ◌||◌, if◌then◌else◌, Option, none, some, List, [],
  ◌∷◌, ◌++◌, append-nil, append_assoc, length, length-append, take, drop, take-append, drop-append,
  arith,
}
use event_dance.ChunkedDecoder.{
  Status, reading_chunk_header, reading_content, reading_crlf_1, reading_crlf_2, Decoder,
  is_header_char, scan_hex, store_low, Iteration, go, stop, overrun, read_header, read_crlf,
  read_content, iterate, Run, ended, overran, written_first, loop, finished, converted,
}

-- A chunk and the characters of its header.
pub record Chunk : Type 0 where
  pub header : List ℕ
  pub content : List ℕ

abbrev pub AreHeaderChars : List ℕ → Type 0
AreHeaderChars [] = Unit
AreHeaderChars (c ∷ cs) = (is_header_char c ≡ true) × AreHeaderChars cs

-- The header gives the length in hexadecimal digits, perhaps among spaces, in at most nine characters.
pub record IsHeader (header : List ℕ) (n : ℕ) : Type 0 where
  pub chars : AreHeaderChars header
  pub some_chars : 0 < length header
  pub few_chars : length header < 10
  pub value : scan_hex header ≡ some n
  pub small : n < 2 ^ 32

abbrev pub IsChunk : Chunk → Type 0
IsChunk k = IsHeader k.header (length k.content) × (0 < length k.content)

abbrev pub AreChunks : List Chunk → Type 0
AreChunks [] = Unit
AreChunks (k ∷ ks) = IsChunk k × AreChunks ks

abbrev pub encode_chunk : Chunk → List ℕ
encode_chunk k = k.header ++ (13 ∷ 10 ∷ (k.content ++ (13 ∷ 10 ∷ [])))

-- The chunks without the last one, which is empty.
abbrev pub encode : List Chunk → List ℕ
encode [] = []
encode (k ∷ ks) = encode_chunk k ++ encode ks

abbrev pub contents : List Chunk → List ℕ
contents [] = []
contents (k ∷ ks) = k.content ++ contents ks

-- The decoder in a header of which `before` has come.
abbrev pub at_header : List ℕ → Decoder
at_header before = record {
  chunk_left = 0;
  status = reading_chunk_header;
  hdr_buf = before;
  crlf_pos = 0;
}

abbrev pub at_crlf : ℕ → Decoder
at_crlf n = record { chunk_left = n; status = reading_crlf_1; hdr_buf = []; crlf_pos = 0 }

abbrev pub at_content : ℕ → Decoder
at_content n = record { chunk_left = n; status = reading_content; hdr_buf = []; crlf_pos = 0 }

abbrev pub at_end : Decoder
at_end = record { chunk_left = 0; status = reading_crlf_2; hdr_buf = []; crlf_pos = 0 }

loop-go :
    (n : ℕ) (d d' : Decoder) (c : ℕ) (cs rest out : List ℕ) (room : ℕ)
    → 0 < room
    → iterate d.status d c cs room ≡ go d' rest out
    → loop (suc n) d (c ∷ cs) room ≡ written_first out (loop n d' rest (room - length out))
unfolding loop
loop-go n d d' c cs rest out room h e = rw (not_zero room h, e) refl
  where
    not_zero : (room : ℕ) → 0 < room → (room == 0) ≡ false
    not_zero room h = ground arith

written_nothing : (r : Option Run) → written_first [] r ≡ r
written_nothing none = refl
written_nothing (some overran) = refl
written_nothing (some (ended d rest more result)) = refl

-- A round that writes nothing.
pub loop-silent :
    (n : ℕ) (d d' : Decoder) (c : ℕ) (cs rest : List ℕ) (room : ℕ)
    → 0 < room
    → iterate d.status d c cs room ≡ go d' rest []
    → loop (suc n) d (c ∷ cs) room ≡ loop n d' rest room
loop-silent n d d' c cs rest room h e =
    loop-go n d d' c cs rest [] room h e
    ∙ written_nothing (loop n d' rest (room - 0))
    ∙ ap (λ k. loop n d' rest k) {x = room - 0} {y = room} (omega arith)

abbrev pub plus : ℕ → ℕ → ℕ
plus zero n = n
plus (suc k) n = suc (plus k n)

-- The characters of a header.
pub header_chars :
    (n : ℕ) (before header rest : List ℕ) (room : ℕ)
    → 0 < room
    → AreHeaderChars header
    → length before + length header ≤ 10
    → loop (plus (length header) n) (at_header before) (header ++ rest) room
      ≡ loop n (at_header (before ++ header)) rest room
header_chars n before [] rest room h a few =
    ap (λ l. loop n (at_header l) rest room) (sym (append-nil before))
header_chars n before (c ∷ cs) rest room h a few =
    loop-silent (plus (length cs) n) (at_header before) (at_header (before ++ (c ∷ []))) c
      (cs ++ rest) (cs ++ rest) room h
      (unfold iterate read_header in rw (a.0, lt→ltb (length before) 10 (omega arith)) refl)
    ∙ header_chars n (before ++ (c ∷ [])) cs rest room h a.1
        (omega (arith, length-append before (c ∷ [])))
    ∙ ap (λ l. loop n (at_header l) rest room) (append_assoc before (c ∷ []) cs)

pub stored : (n : ℕ) → n < 2 ^ 32 → 0 / 2 ^ 32 * 2 ^ 32 + n % 2 ^ 32 ≡ n
stored n h = omega arith

-- The whole header with its line end, up to the state that the line end leads to.
pub header_read :
    (n : ℕ) (header rest : List ℕ) (size room : ℕ)
    → 0 < room
    → IsHeader header size
    → loop (plus (length header) (suc (suc n))) (at_header []) (header ++ (13 ∷ rest)) room
      ≡ loop n (record (at_crlf size) { crlf_pos = 1 }) rest room
header_read n header rest size room h v =
    header_chars (suc (suc n)) [] header (13 ∷ rest) room h v.chars (omega (arith, v.few_chars))
    ∙ loop-silent (suc n) (at_header header) (at_crlf size) 13 rest (13 ∷ rest) room h (
        unfold iterate read_header in
        rw
          (
            lt→ltb 0 (length header) v.some_chars,
            lt→ltb (length header) 10 v.few_chars,
            v.value,
            stored size v.small,
          )
          refl)
    ∙ loop-silent n (at_crlf size) (record (at_crlf size) { crlf_pos = 1 }) 13 rest rest room h
        (unfold iterate read_crlf in refl)

pub not_zero : (n : ℕ) → 0 < n → (n == 0) ≡ false
not_zero n h = ground arith

pub content_read :
    (n c : ℕ) (cs rest : List ℕ) (room : ℕ)
    → length (c ∷ cs) < room
    → loop (suc n) (at_content (length (c ∷ cs))) ((c ∷ cs) ++ rest) room
      ≡ written_first (c ∷ cs) (loop n at_end rest (room - length (c ∷ cs)))
content_read n c cs rest room h =
    let all = c ∷ cs in
    loop-go n (at_content (length all)) at_end c (cs ++ rest) rest all room (omega arith) (
      unfold iterate read_content in
      rw
        (moved (length all) (length (all ++ rest)) room (omega (arith, length-append all rest))
          (omega arith))
        (rw (take-append all rest, drop-append all rest, none_left (length all)) refl))
  where
    moved : (n m room : ℕ) → n ≤ m → n ≤ room → min (min n m) room ≡ n
    moved n m room h k = omega arith

    none_left : (n : ℕ) → n - n ≡ 0
    none_left n = omega arith
