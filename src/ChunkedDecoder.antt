-- ===== src/ChunkedDecoder.antt =====
-- evd/evd-http-chunked-decoder.c: the converter that takes the chunked transfer encoding of HTTP off.
-- hdr_buf holds the characters written so far, so hdr_buf_len is its length. A write behind its
-- ten bytes is `overrun`. chunk_left is a 64-bit gsize of which sscanf sets the low 32 bits.
pub mod Chunks
pub mod Bounds
pub mod Overrun
mod Tests
use event_dance.Common.{
  ℕ, zero, suc, ◌+◌, ◌-◌, ◌*◌, ◌/◌, ◌%◌, ◌^◌, min, leb, ltb, ◌==◌, Bool, true, false, not, ◌&&◌,
  ◌||◌, if◌then◌else◌, Option, none, some, List, [], ◌∷◌, ◌++◌, length, take, drop,
}
use event_dance.Common.Hex.{digit_value}

pub data Status : Type 0 where
  reading_chunk_header reading_content reading_crlf_1 reading_crlf_2 : Status

-- struct _EvdHttpChunkedDecoderPrivate
pub record Decoder : Type 0 where
  pub chunk_left : ℕ
  pub status : Status
  pub hdr_buf : List ℕ
  pub crlf_pos : ℕ

abbrev pub hdr_buf_size : ℕ
hdr_buf_size = 10

-- reset, which is also what init does.
abbrev pub reset : Decoder → Decoder
reset d = record { chunk_left = 0; status = reading_chunk_header; hdr_buf = []; crlf_pos = 0 }

-- GConverterResult
pub data ConverterResult : Type 0 where
  error converted finished flushed : ConverterResult

abbrev pub is_some {ℓ} : {A : Type ℓ} → Option A → Bool
is_some none = false
is_some (some a) = true

-- The characters of a chunk header: digits and spaces.
abbrev pub is_header_char : ℕ → Bool
is_header_char c = is_some (digit_value c) || (c == 32)

-- The digits that sscanf reads, up to the first other character.
abbrev pub scan_digits : ℕ → List ℕ → ℕ
scan_digits acc [] = acc
scan_digits acc (c ∷ cs) = elim (digit_value c) [
  | none ↦ acc
  | some v ↦ scan_digits (acc * 16 + v) cs
]

-- sscanf with "%x", which skips spaces first; none means that nothing is stored.
unfoldable pub scan_hex : List ℕ → Option ℕ
scan_hex [] = none
scan_hex (c ∷ cs) =
    let later = scan_hex cs in
    if c == 32
    then later
    else if is_some (digit_value c)
    then some (scan_digits 0 (c ∷ cs))
    else none

-- The store through a pointer to the low 32 bits.
abbrev pub store_low : ℕ → Option ℕ → ℕ
store_low old none = old
store_low old (some v) = old / 2 ^ 32 * 2 ^ 32 + v % 2 ^ 32

-- What one round of the loop of convert does: it goes on with a new state, the input that is left and
-- the bytes it has written, or it ends.
pub data Iteration : Type 0 where
  go : Decoder → List ℕ → List ℕ → Iteration
  stop : Decoder → List ℕ → ConverterResult → Iteration
  overrun : Iteration

-- READING_CHUNK_HEADER
unfoldable pub read_header : Decoder → ℕ → List ℕ → Iteration
read_header d c cs =
    if is_header_char c
    then (if ltb (length d.hdr_buf) hdr_buf_size
        then go (record d { hdr_buf = d.hdr_buf ++ (c ∷ []) }) cs []
        else overrun)
    else if ltb 0 (length d.hdr_buf)
    then (if ltb (length d.hdr_buf) hdr_buf_size
        then go
            (record d {
              chunk_left = store_low d.chunk_left (scan_hex d.hdr_buf);
              hdr_buf = [];
              status = reading_crlf_1;
            })
            (c ∷ cs) []
        else overrun)
    else stop d (c ∷ cs) error

abbrev pub is_first : Status → Bool
is_first reading_crlf_1 = true
is_first _ = false

-- READING_CRLF_1 and READING_CRLF_2
unfoldable pub read_crlf : Decoder → ℕ → List ℕ → Iteration
read_crlf d c cs =
    if d.crlf_pos == 0
    then (if c == 13 then go (record d { crlf_pos = 1 }) cs [] else stop d (c ∷ cs) error)
    else if not (c == 10)
    then stop d (c ∷ cs) error
    else if not (is_first d.status)
    then go (record d { crlf_pos = 0; status = reading_chunk_header }) cs []
    else if d.chunk_left == 0
    then stop (record d { crlf_pos = 0 }) cs finished
    else go (record d { crlf_pos = 0; status = reading_content }) cs []

-- READING_CONTENT, with `room` bytes free behind what is written.
unfoldable pub read_content : Decoder → List ℕ → ℕ → Iteration
read_content d input room =
    let move_size = min (min d.chunk_left (length input)) room in
    let left = d.chunk_left - move_size in
    go (record d { chunk_left = left; status = if left == 0 then reading_crlf_2 else d.status })
      (drop move_size input) (take move_size input)

unfoldable pub iterate : Status → Decoder → ℕ → List ℕ → ℕ → Iteration
iterate reading_chunk_header d c cs room = read_header d c cs
iterate reading_crlf_1 d c cs room = read_crlf d c cs
iterate reading_crlf_2 d c cs room = read_crlf d c cs
iterate reading_content d c cs room = read_content d (c ∷ cs) room

-- How the loop ends.
pub data Run : Type 0 where
  ended : Decoder → List ℕ → List ℕ → ConverterResult → Run
  overran : Run

abbrev pub written_first : List ℕ → Option Run → Option Run
written_first out none = none
written_first out (some overran) = some overran
written_first out (some (ended d rest more result)) = some (ended d rest (out ++ more) result)

-- The loop of convert, on fuel.
unfoldable pub loop : ℕ → Decoder → List ℕ → ℕ → Option Run
loop zero d input room = none
loop (suc fuel) d [] room = some (ended d [] [] converted)
loop (suc fuel) d (c ∷ cs) room =
    if room == 0
    then some (ended d (c ∷ cs) [] converted)
    else elim (iterate d.status d c cs room) [
      | go d' rest out ↦ written_first out (loop fuel d' rest (room - length out))
      | stop d' rest result ↦ some (ended d' rest [] result)
      | overrun ↦ some overran
    ]

-- The result that the flag G_CONVERTER_FLUSH replaces.
abbrev pub with_flush : Bool → ConverterResult → ConverterResult
with_flush flush error = error
with_flush flush result = if flush then flushed else result

abbrev pub flush_run : Bool → Run → Run
flush_run flush overran = overran
flush_run flush (ended d rest out result) = ended d rest out (with_flush flush result)

abbrev pub flush_loop : Bool → Option Run → Option Run
flush_loop flush none = none
flush_loop flush (some r) = some (flush_run flush r)

-- `rest` is the input behind *bytes_read, and the written bytes number *bytes_written.
unfoldable pub convert : ℕ → Decoder → List ℕ → ℕ → Bool → Option Run
convert fuel d inbuf outbuf_size flush = flush_loop flush (loop fuel d inbuf outbuf_size)
