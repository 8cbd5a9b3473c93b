-- ===== src/ChunkedDecoder/Tests.antt =====
-- Runs of the chunked decoder (evd/evd-http-chunked-decoder.c) and instances of its theorems.
use event_dance.Common.{◌≡◌, refl, true, false, some, List, [], ◌∷◌, ◌++◌, arith}
use event_dance.Common.Text.{bytes}
use event_dance.ChunkedDecoder.{
  Decoder, reading_chunk_header, scan_hex, read_header, iterate, ended, overran, loop, reset,
  convert, error, finished,
}
use event_dance.ChunkedDecoder.Chunks.{Chunk, at_crlf}
use event_dance.ChunkedDecoder.Chunks.RoundTrip.{encode_all, convert-encode_all}
use event_dance.ChunkedDecoder.Bounds.{Ends, convert-Ends}
use event_dance.ChunkedDecoder.Overrun.{convert-overran}

abbrev fresh : Decoder
fresh = record { chunk_left = 0; status = reading_chunk_header; hdr_buf = []; crlf_pos = 0 }

-- "4\r\nWiki\r\nB \r\npedia in cha\r\n", with one chunk in mixed notation.
abbrev wiki : List Chunk
wiki =
    record { header = bytes "4"; content = bytes "Wiki" }
    ∷ record { header = bytes " B "; content = bytes "pedia in ch" }
    ∷ []

scan_hex_spaces : scan_hex (bytes " 1f 7") ≡ some 31
unfolding scan_hex
scan_hex_spaces = refl

no_header : convert 3 fresh (13 ∷ []) 5 false ≡ some (ended fresh (13 ∷ []) [] error)
unfolding convert loop iterate read_header
no_header = refl

convert-encode_all_example :
    convert 100 (reset fresh) (encode_all wiki (bytes "0") ++ (13 ∷ 10 ∷ [])) 16 false
    ≡ some (ended (at_crlf 0) (13 ∷ 10 ∷ []) (bytes "Wikipedia in ch") finished)
unfolding scan_hex
convert-encode_all_example =
    convert-encode_all fresh wiki (bytes "0") (13 ∷ 10 ∷ []) 100 16
      (
        (
          record {
            chars = (refl, tt);
            some_chars = omega arith;
            few_chars = omega arith;
            value = refl;
            small = omega arith;
          },
          omega arith,
        ),
        (
          (
            record {
              chars = (refl, (refl, (refl, tt)));
              some_chars = omega arith;
              few_chars = omega arith;
              value = refl;
              small = omega arith;
            },
            omega arith,
          ),
          tt,
        ),
      )
      (record {
        chars = (refl, tt);
        some_chars = omega arith;
        few_chars = omega arith;
        value = refl;
        small = omega arith;
      })
      (omega arith) (omega arith)

convert-Ends_example : Ends 3 2 (convert 8 fresh (49 ∷ 13 ∷ 65 ∷ []) 2 true)
convert-Ends_example =
    convert-Ends 8 fresh (49 ∷ 13 ∷ 65 ∷ []) 2 true (record { few_chars = omega arith; due = tt })
      (omega arith)

convert-overran_example :
    convert 11 (reset fresh) (bytes "0000000004" ++ (13 ∷ [])) 1 false ≡ some overran
convert-overran_example =
    convert-overran fresh (bytes "0000000004") 13 [] 11 1 false
      (refl, (refl, (refl, (refl, (refl, (refl, (refl, (refl, (refl, (refl, tt)))))))))) refl
      (omega arith) (omega arith)
