-- ===== src/HttpConnection/Tests.antt =====
-- evd/evd-http-connection.c: runs and instances.
use event_dance.Common.{ℕ, ◌≡◌, refl, true, false, some, List, [], ◌∷◌, ◌++◌, drop, length, arith}
use event_dance.Common.Hex.{places}
use event_dance.Common.Text.{bytes}
use event_dance.HttpConnection.{
  Encoding, until_eof, chunked, Outcome, accepted, Writer, write_content, write_chunk, write_plain,
  write_response_headers, status_line, crlf, decimal,
}
use event_dance.HttpConnection.Chunked.{write_contents, write_contents-convert}
use event_dance.ChunkedDecoder.{Decoder, reading_content, reset, convert, ended, finished}
use event_dance.ChunkedDecoder.Chunks.{at_crlf}

abbrev writer : Encoding → List Outcome → Writer
writer encoding outcomes = record { encoding = encoding; written = bytes "!"; outcomes = outcomes }

a_chunk :
    (write_content (bytes "hello world, hello") true (writer chunked [])).0.written
    ≡ bytes "!12" ++ (crlf ++ (bytes "hello world, hello" ++ crlf))
unfolding write_content write_chunk write_plain places
a_chunk = refl

-- The stream takes a part only: the call fails, with a part written.
a_short_write :
    write_content (bytes "hello") true (writer until_eof (accepted 3 ∷ []))
    ≡ (record (writer until_eof []) { written = bytes "!hel" }, false)
unfolding write_content write_plain
a_short_write = refl

-- Headers of which a part only is written count as written.
short_headers :
    (write_response_headers 1 200 (bytes "OK") [] chunked (writer until_eof (accepted 8 ∷ []))).1
    ≡ true
unfolding write_response_headers
short_headers = refl

a_status_line : status_line 1 404 (bytes "Not Found") ≡ bytes "HTTP/1.1 404 Not Found" ++ crlf
unfolding decimal
a_status_line = refl

abbrev used : Decoder
used = record { chunk_left = 3; status = reading_content; hdr_buf = bytes "1"; crlf_pos = 1 }

abbrev parts : List (List ℕ)
parts = bytes "one, " ∷ [] ∷ bytes "two" ∷ []

parts_sent : (write_contents parts (writer chunked (accepted 9 ∷ []))).1 ≡ true
unfolding write_content write_chunk write_plain places
parts_sent = refl

parts_bytes : length (write_contents parts (writer chunked (accepted 9 ∷ []))).0.written ≡ 24
unfolding write_content write_chunk write_plain places
parts_bytes = refl

write_contents-convert_example :
    convert 50
      (reset used)
      (drop 1 (write_contents parts (writer chunked (accepted 9 ∷ []))).0.written)
      9
      false
    ≡ some (ended (at_crlf 0) crlf (bytes "one, two") finished)
write_contents-convert_example =
    write_contents-convert used parts (writer chunked (accepted 9 ∷ [])) 50 9 refl
      (omega arith, (omega arith, (omega arith, tt))) parts_sent (omega arith)
      (omega (arith, parts_bytes))
