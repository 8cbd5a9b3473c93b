-- ===== src/HttpConnection.antt =====
-- evd/evd-http-connection.c: writing a message to an HTTP connection. The output stream of the
-- connection is the list of what its next writes return.
pub mod Chunked
mod Tests
use event_dance.Common.{
  ℕ, zero, suc, ◌+◌, ◌/◌, ◌%◌, ◌^◌, min, leb, ltb, Bool, true, false, if◌then◌else◌, Option, none,
  some, List, [], ◌∷◌, ◌++◌, length, take,
}
use event_dance.Common.Hex.{hex_onto, places}
use event_dance.Common.Text.{bytes}

-- SoupEncoding
pub data Encoding : Type 0 where
  unrecognized no_body content_length until_eof chunked byteranges : Encoding

-- What g_output_stream_write returns: -1, or the size of what the stream takes.
pub data Outcome : Type 0 where
  failed : Outcome
  accepted : ℕ → Outcome

-- The part of struct _EvdHttpConnectionPrivate that writing uses, with the bytes that the stream has taken.
-- Behind the listed outcomes the stream takes everything.
pub record Writer : Type 0 where
  pub encoding : Encoding
  pub written : List ℕ
  pub outcomes : List Outcome

abbrev pub next_outcome : List Outcome → List ℕ → Writer → Writer × Option ℕ
next_outcome [] buffer w = (record w { written = w.written ++ buffer }, some (length buffer))
next_outcome (failed ∷ os) buffer w = (record w { outcomes = os }, none)
next_outcome (accepted n ∷ os) buffer w =
    (record w { written = w.written ++ take n buffer; outcomes = os }, some (min n (length buffer)))

-- g_output_stream_write, which does not call the stream for no bytes.
abbrev pub stream_write : List ℕ → Writer → Writer × Option ℕ
stream_write [] w = (w, some 0)
stream_write (c ∷ cs) w = next_outcome w.outcomes (c ∷ cs) w

-- Whether all of `size` bytes are written.
abbrev pub wrote_all : ℕ → Option ℕ → Bool
wrote_all size none = false
wrote_all size (some n) = leb size n

-- write_content without chunks.
unfoldable pub write_plain : List ℕ → Writer → Writer × Bool
write_plain buffer w = (let r = stream_write buffer w in (r.0, wrote_all (length buffer) r.1))

-- A call that is made only if the one before it has succeeded.
infixl 20 ◌and_then◌
abbrev pub ◌and_then◌ : Writer × Bool → (Writer → Writer × Bool) → Writer × Bool
r and_then f = (let next = f r.0 in if r.1 then next else r)

-- "%x", of an unsigned int.
abbrev pub hex : ℕ → List ℕ
hex n = hex_onto (places 7 (n % 2 ^ 32)) (n % 2 ^ 32) []

abbrev pub crlf : List ℕ
crlf = 13 ∷ 10 ∷ []

-- size > 0
abbrev pub has_bytes : List ℕ → Bool
has_bytes [] = false
has_bytes (c ∷ cs) = true

-- evd_http_connection_write_chunk; the content is not written where it is empty.
unfoldable pub write_chunk : List ℕ → Writer → Writer × Bool
write_chunk buffer w =
    let plain = record w { encoding = until_eof } in
    let r =
      write_plain (hex (length buffer) ++ crlf) plain
      and_then (λ v. if has_bytes buffer then write_plain buffer v else (v, true))
      and_then write_plain crlf in
    (record (r.0) { encoding = chunked }, r.1)

abbrev pub is_chunked : Encoding → Bool
is_chunked chunked = true
is_chunked _ = false

-- evd_http_connection_write_content
unfoldable pub write_content : List ℕ → Bool → Writer → Writer × Bool
write_content buffer more w =
    if is_chunked w.encoding
    then (if has_bytes buffer then write_chunk buffer w else (w, true))
      and_then (λ v. if more then (v, true) else write_chunk [] v)
    else write_plain buffer w

-- "%d", of a number that is not negative.
abbrev pub decimal_onto : ℕ → ℕ → List ℕ → List ℕ
decimal_onto zero n tail = tail
decimal_onto (suc fuel) n tail =
    let more = decimal_onto fuel (n / 10) ((48 + n % 10) ∷ tail) in
    if ltb n 10 then (48 + n) ∷ tail else more

unfoldable pub decimal : ℕ → List ℕ
decimal n = decimal_onto 10 n []

abbrev pub header_lines : List (List ℕ × List ℕ) → List ℕ
header_lines [] = []
header_lines ((name, value) ∷ headers) =
    name ++ (bytes ": " ++ (value ++ (crlf ++ header_lines headers)))

abbrev pub status_line : ℕ → ℕ → List ℕ → List ℕ
status_line version status_code reason_phrase =
    bytes "HTTP/1."
    ++ (decimal version
        ++ (bytes " " ++ (decimal status_code ++ (bytes " " ++ (reason_phrase ++ crlf)))))

-- Whether a write has not failed; how much it has written does not matter here.
abbrev pub not_failed : Option ℕ → Bool
not_failed none = false
not_failed (some n) = true

-- evd_http_connection_write_response_headers, with the reason phrase and the encoding that libsoup tells.
unfoldable pub write_response_headers :
    ℕ → ℕ → List ℕ → List (List ℕ × List ℕ) → Encoding → Writer → Writer × Bool
write_response_headers version status_code reason_phrase headers encoding w =
    let text = status_line version status_code reason_phrase ++ (header_lines headers ++ crlf) in
    let r = stream_write text (record w { encoding = encoding }) in (r.0, not_failed r.1)
