-- ===== src/Longpolling/Client.antt =====
-- evd/js/evdWebTransport.js, Evd.LongPolling: how the client in a browser writes and reads messages. A string is
-- the list of its character codes.
use event_dance.Common.{
  ℕ, zero, suc, ◌+◌, max, leb, ◌==◌, if◌then◌else◌, Option, none, some, List, [], ◌∷◌, ◌++◌, length,
  take, drop, get_or,
}
use event_dance.Common.Hex.{hex_onto, places, skip_spaces, scan_unsigned}

-- len.toString (16), filled with zeros from the left up to `width` digits.
abbrev pub padded : ℕ → ℕ → List ℕ
padded width len = hex_onto (max width (places 15 len)) len []

-- The header that _buildMsg writes.
abbrev pub client_header : ℕ → List ℕ
client_header len =
    if leb len 125
    then len ∷ []
    else if leb len 65535
    then 126 ∷ padded 4 len
    else 127 ∷ padded 16 len

-- _buildMsg
abbrev pub build_msg : List ℕ → List ℕ
build_msg msg = client_header (length msg) ++ msg

-- The body of the request that send makes.
abbrev pub send_body : List (List ℕ) → List ℕ
send_body [] = []
send_body (msg ∷ msgs) = build_msg msg ++ send_body msgs

abbrev pub scan_length : List ℕ → Option ℕ
scan_length [] = none
scan_length (c ∷ cs) =
    if c == 45
    then none
    else if c == 43
    then scan_unsigned (length cs) cs
    else scan_unsigned (length (c ∷ cs)) (c ∷ cs)

-- parseInt (text, 16), where it is a number that is not negative.
abbrev pub parse_int : List ℕ → Option ℕ
parse_int cs = scan_length (skip_spaces cs)

abbrev pub with_header : ℕ → Option ℕ → Option (ℕ × ℕ)
with_header hdr_len none = none
with_header hdr_len (some n) = some (hdr_len, n)

-- _readMsgHeader; none stands for a size that is no number or negative.
unfoldable pub client_read_header : List ℕ → Option (ℕ × ℕ)
client_read_header text =
    let hdr = get_or text 0 0 in
    if leb hdr 125
    then some (1, hdr)
    else if hdr == 126
    then with_header 5 (parse_int (take 4 (drop 1 text)))
    else with_header 17 (parse_int (take 16 (drop 1 text)))

abbrev pub with_frame : List ℕ → Option (List (List ℕ)) → Option (List (List ℕ))
with_frame msg none = none
with_frame msg (some frames) = some (msg ∷ frames)

-- The loop of _xhrOnLoad, on fuel.
unfoldable pub xhr_on_load : ℕ → List ℕ → Option (List (List ℕ))
xhr_on_load zero text = none
xhr_on_load (suc fuel) [] = some []
xhr_on_load (suc fuel) (c ∷ cs) = elim (client_read_header (c ∷ cs)) [
  | none ↦ none
  | some (hdr_len, msg_len) ↦
      with_frame (take msg_len (drop hdr_len (c ∷ cs)))
        (xhr_on_load fuel (drop (hdr_len + msg_len) (c ∷ cs)))
]
