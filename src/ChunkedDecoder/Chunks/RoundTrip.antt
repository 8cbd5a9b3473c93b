-- ===== src/ChunkedDecoder/Chunks/RoundTrip.antt =====
-- evd/evd-http-chunked-decoder.c: decoding a whole encoding.
use event_dance.Common.{
  ℕ, zero, suc, ◌+◌, ◌-◌, ◌*◌, ◌≤◌, ◌<◌, ◌≡◌, refl, sym, ap, ◌∙◌, false, Option, none, some, List,
  [], ◌∷◌, ◌++◌, append_assoc, length, length-append, arith,
}
use event_dance.ChunkedDecoder.{
  Decoder, read_crlf, iterate, Run, ended, overran, written_first, loop, flush_loop, convert, reset,
  finished,
}
use event_dance.ChunkedDecoder.Chunks.{
  Chunk, IsHeader, IsChunk, AreChunks, encode_chunk, encode, contents, at_header, at_crlf,
  at_content, at_end, loop-silent, plus, header_read, not_zero, content_read,
}

-- What follows the header of a chunk.
body_read :
    (n : ℕ) (content rest : List ℕ) (room : ℕ)
    → 0 < length content
    → length content < room
    → loop
        (suc (suc (suc (suc n))))
        (record (at_crlf (length content)) { crlf_pos = 1 })
        (10 ∷ (content ++ (13 ∷ 10 ∷ rest)))
        room
      ≡ written_first content (loop n (at_header []) rest (room - length content))
body_read n [] rest room z h = elim z [ ]
body_read n (c ∷ cs) rest room z h =
    let size = length (c ∷ cs) in
    let tail = 13 ∷ 10 ∷ rest in
    loop-silent (suc (suc (suc n))) (record (at_crlf size) { crlf_pos = 1 }) (at_content size) 10
      ((c ∷ cs) ++ tail) ((c ∷ cs) ++ tail) room (omega arith)
      (unfold iterate read_crlf in rw (not_zero size z) refl)
    ∙ content_read (suc (suc n)) c cs tail room h
    ∙ ap (written_first (c ∷ cs)) (
        loop-silent (suc n) at_end (record at_end { crlf_pos = 1 }) 13 (10 ∷ rest) (10 ∷ rest)
          (room - size) (omega arith) (unfold iterate read_crlf in refl)
        ∙ loop-silent n (record at_end { crlf_pos = 1 }) (at_header []) 10 rest rest (room - size)
            (omega arith) (unfold iterate read_crlf in refl))

abbrev chunk_rounds : Chunk → ℕ → ℕ
chunk_rounds k n = plus (length k.header) (suc (suc (suc (suc (suc (suc n))))))

chunk_read :
    (n : ℕ) (k : Chunk) (rest : List ℕ) (room : ℕ)
    → IsChunk k
    → length k.content < room
    → loop (chunk_rounds k n) (at_header []) (encode_chunk k ++ rest) room
      ≡ written_first k.content (loop n (at_header []) rest (room - length k.content))
chunk_read n k rest room (v, z) h =
    ap (λ l. loop (chunk_rounds k n) (at_header []) l room)
      (append_assoc k.header (13 ∷ 10 ∷ (k.content ++ (13 ∷ 10 ∷ []))) rest
        ∙ ap (λ l. k.header ++ (13 ∷ 10 ∷ l)) (append_assoc k.content (13 ∷ 10 ∷ []) rest))
    ∙ header_read (suc (suc (suc (suc n)))) k.header (10 ∷ (k.content ++ (13 ∷ 10 ∷ rest)))
        (length k.content) room (omega arith) v
    ∙ body_read n k.content rest room z h

-- The header of the last chunk, and the rounds of all.
abbrev all_rounds : List Chunk → ℕ → ℕ
all_rounds [] n = n
all_rounds (k ∷ ks) n = chunk_rounds k (all_rounds ks n)

last_read :
    (n : ℕ) (header rest : List ℕ) (room : ℕ)
    → 0 < room
    → IsHeader header 0
    → loop
        (plus (length header) (suc (suc (suc n))))
        (at_header [])
        (header ++ (13 ∷ 10 ∷ rest))
        room
      ≡ some (ended (at_crlf 0) rest [] finished)
last_read n header rest room h v =
    header_read (suc n) header (10 ∷ rest) 0 room h v
    ∙ (unfold loop iterate read_crlf in rw (not_zero room h) refl)

written-written :
    (a b : List ℕ) (r : Option Run) → written_first a (written_first b r) ≡ written_first (a ++ b) r
written-written a b none = refl
written-written a b (some overran) = refl
written-written a b (some (ended d rest more result)) =
    ap (λ l. some (ended d rest l result)) (sym (append_assoc a b more))

chunks_read :
    (n : ℕ) (ks : List Chunk) (header rest : List ℕ) (room : ℕ)
    → AreChunks ks
    → IsHeader header 0
    → length (contents ks) < room
    → loop
        (all_rounds ks (plus (length header) (suc (suc (suc n)))))
        (at_header [])
        (encode ks ++ (header ++ (13 ∷ 10 ∷ rest)))
        room
      ≡ some (ended (at_crlf 0) rest (contents ks) finished)
chunks_read n [] header rest room vs v h = last_read n header rest room (omega arith) v
chunks_read n (k ∷ ks) header rest room (w, vs) v h =
    let more = all_rounds ks (plus (length header) (suc (suc (suc n)))) in
    ap (λ l. loop (chunk_rounds k more) (at_header []) l room)
      (append_assoc (encode_chunk k) (encode ks) (header ++ (13 ∷ 10 ∷ rest)))
    ∙ chunk_read more k (encode ks ++ (header ++ (13 ∷ 10 ∷ rest))) room w
        (omega (arith, length-append k.content (contents ks)))
    ∙ ap (written_first k.content) (
        chunks_read n ks header rest (room - length k.content) vs v
          (omega (arith, length-append k.content (contents ks))))

plus-+ : (k n : ℕ) → plus k n ≡ k + n
plus-+ zero n = omega arith
plus-+ (suc k) n = omega (arith, plus-+ k n)

length-encode_chunk :
    (k : Chunk) → length (encode_chunk k) ≡ length k.header + 2 + length k.content + 2
length-encode_chunk k = omega (
  arith,
  length-append k.header (13 ∷ 10 ∷ (k.content ++ (13 ∷ 10 ∷ []))),
  length-append k.content (13 ∷ 10 ∷ []),
)

-- Two rounds for each byte.
record Rounds (ks : List Chunk) : Type 0 where
  count : ℕ
  few : count ≤ 2 * length (encode ks)
  counted : (n : ℕ) → all_rounds ks n ≡ count + n

encode-Rounds : (ks : List Chunk) → AreChunks ks → Rounds ks
encode-Rounds [] vs = record { count = 0; few = omega arith; counted = λ n. omega arith }
encode-Rounds (k ∷ ks) ((v, z), vs) =
    let more = encode-Rounds ks vs in
    record {
      count = length k.header + 6 + more.count;
      few = omega (
        arith,
        more.few,
        v.some_chars,
        length-append (encode_chunk k) (encode ks),
        length-encode_chunk k,
      );
      counted = λ n. omega (
        arith,
        more.counted n,
        plus-+ (length k.header) (suc (suc (suc (suc (suc (suc (all_rounds ks n))))))),
      );
    }

-- The whole of the encoding: the chunks, and a last header that gives the length 0.
abbrev pub encode_all : List Chunk → List ℕ → List ℕ
encode_all ks header = encode ks ++ (header ++ (13 ∷ 10 ∷ []))

-- A decoder that has been reset gives back the contents of the chunks, one behind the other, and finishes at
-- the line end of the last header, with the bytes behind it left: with room for one byte more
-- than the contents, and two rounds for each byte of the encoding. Headers are hexadecimal lengths below 2 ^ 32 of
-- at most nine characters, spaces included, and all chunks but the last have a content.
pub convert-encode_all :
    (d : Decoder) (ks : List Chunk) (header rest : List ℕ) (fuel outbuf_size : ℕ)
    → AreChunks ks
    → IsHeader header 0
    → length (contents ks) < outbuf_size
    → 2 * length (encode_all ks header) ≤ fuel
    → convert fuel (reset d) (encode_all ks header ++ rest) outbuf_size false
      ≡ some (ended (at_crlf 0) rest (contents ks) finished)
unfolding convert
convert-encode_all d ks header rest fuel outbuf_size vs v h f =
    let r = encode-Rounds ks vs in
    let n = fuel - (r.count + length header + 3) in
    let last = plus (length header) (suc (suc (suc n))) in
    let whole =
      ap (λ l. loop fuel (at_header []) l outbuf_size)
        (append_assoc (encode ks) (header ++ (13 ∷ 10 ∷ [])) rest
          ∙ ap (λ l. encode ks ++ l) (append_assoc header (13 ∷ 10 ∷ []) rest))
      ∙ ap (λ k. loop k (at_header []) (encode ks ++ (header ++ (13 ∷ 10 ∷ rest))) outbuf_size)
          {x = fuel} {y = all_rounds ks last}
          (omega (
            arith,
            r.counted last,
            r.few,
            plus-+ (length header) (suc (suc (suc n))),
            length-append (encode ks) (header ++ (13 ∷ 10 ∷ [])),
            length-append header (13 ∷ 10 ∷ []),
            v.some_chars,
          ))
      ∙ chunks_read n ks header rest outbuf_size vs v h in
    ap (flush_loop false) whole
