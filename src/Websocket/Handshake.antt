-- ===== src/Websocket/Handshake.antt =====
-- evd/evd-websocket-protocol.c: the opening handshake. Texts are lists of bytes. SoupMessageHeaders is a
-- parameter, with what libsoup documents of it; `parse` is g_ascii_strtoull in base 10 and
-- `accept_key` is get_accept_key.
pub mod Agreement
use event_dance.Common.{
  ℕ, ◌+◌, ◌%◌, ◌^◌, leb, ◌==◌, ◌≡◌, Bool, true, false, not, ◌&&◌, ◌||◌, if◌then◌else◌, Option, none,
  some, List, [], ◌∷◌, map,
}
use event_dance.Common.Text.{bytes}
use event_dance.Websocket.Connection.{Data, opened, setup_connection}

abbrev pub Text : Type 0
Text = List ℕ

-- g_strcmp0 (a, b) == 0, of two texts.
abbrev pub same_text : Text → Text → Bool
same_text [] [] = true
same_text [] (b ∷ bs) = false
same_text (a ∷ rest) [] = false
same_text (a ∷ rest) (b ∷ bs) = (a == b) && same_text rest bs

abbrev pub starts_with : Text → Text → Bool
starts_with text [] = true
starts_with [] (b ∷ bs) = false
starts_with (a ∷ rest) (b ∷ bs) = (a == b) && starts_with rest bs

-- g_strstr_len (text, -1, part) != NULL
abbrev pub contains : Text → Text → Bool
contains [] part = starts_with [] part
contains (a ∷ rest) part = starts_with (a ∷ rest) part || contains rest part

abbrev lower : ℕ → ℕ
lower b = if leb 65 b && leb b 90 then b + 32 else b

-- Names of headers, which do not depend on the case of letters.
abbrev pub same_name : Text → Text → Bool
same_name a b = same_text (map lower a) (map lower b)

-- SoupMessageHeaders: soup_message_headers_new, _replace and _get_one.
pub record Headers : Type 1 where
  pub Carrier : Type 0
  pub empty : Carrier
  pub replace : Carrier → Text → Text → Carrier
  pub get_one : Carrier → Text → Option Text
  pub get_one-empty : (name : Text) → get_one empty name ≡ none
  pub get_one-replace :
      (headers : Carrier) (name value other : Text)
      → get_one (replace headers name value) other
        ≡ (if same_name name other then some value else get_one headers other)

-- Each way that a handshake ends.
pub data Outcome : Type 0 where
  invalid_version invalid_request missing_key not_written : Outcome
  invalid_http_version invalid_status invalid_accept_header invalid_accept_key : Outcome
  set_up : Data → Outcome

abbrev is_text : Option Text → Text → Bool
is_text none text = false
is_text (some header) text = same_text header text

abbrev has_part : Option Text → Text → Bool
has_part none part = false
has_part (some header) part = contains header part

-- A guint8 takes the number modulo 256.
unfoldable pub get_version_from_request : (Text → ℕ) → Option Text → ℕ
get_version_from_request parse none = 0
get_version_from_request parse (some version_str) = parse version_str % 2 ^ 8

module _ (s : Headers) where
  -- The optional headers of a request.
  abbrev pub replace_some : s.Carrier → Text → Option Text → s.Carrier
  replace_some headers name none = headers
  replace_some headers name (some value) = s.replace headers name value

  -- The headers of evd_websocket_protocol_create_handshake_request; `key` is the random key in base 64.
  unfoldable pub create_handshake_request : Option Text → Option Text → Text → s.Carrier
  create_handshake_request sub_protocol origin key =
      let headers =
        s.replace
          (s.replace (s.replace s.empty (bytes "Upgrade") (bytes "websocket")) (bytes "Connection")
            (bytes "Upgrade"))
          (bytes "Sec-WebSocket-Version") (bytes "13") in
      s.replace
        (replace_some (replace_some headers (bytes "Sec-WebSocket-Protocol") sub_protocol)
          (bytes "Sec-WebSocket-Origin") origin)
        (bytes "Sec-WebSocket-Key") key

  -- The headers of the response.
  unfoldable pub response_headers : Text → s.Carrier
  response_headers accept =
      s.replace
        (s.replace (s.replace s.empty (bytes "Connection") (bytes "Upgrade")) (bytes "Upgrade")
          (bytes "websocket"))
        (bytes "Sec-WebSocket-Accept") accept

  -- The part from the key on, with the headers that are written if there are some.
  unfoldable pub respond :
      (Text → Text) → (s.Carrier → Bool) → Option Text → Outcome × Option s.Carrier
  respond accept_key written none = (missing_key, none)
  respond accept_key written (some key) =
      let headers = response_headers (accept_key key) in
      (if written headers then set_up (setup_connection true opened) else not_written, some headers)

  -- `written` is what evd_http_connection_write_response_headers returns.
  unfoldable pub handle_handshake_request :
      (Text → ℕ) → (Text → Text) → (s.Carrier → Bool) → s.Carrier → Outcome × Option s.Carrier
  handle_handshake_request parse accept_key written headers =
      if not
        (get_version_from_request parse (s.get_one headers (bytes "Sec-Websocket-Version")) == 13)
      then (invalid_version, none)
      else if not (is_text (s.get_one headers (bytes "Upgrade")) (bytes "websocket"))
          || not (has_part (s.get_one headers (bytes "Connection")) (bytes "Upgrade"))
      then (invalid_request, none)
      else respond accept_key written (s.get_one headers (bytes "Sec-WebSocket-Key"))

  -- The checks of the accept key.
  unfoldable pub check_accept_key : (Text → Text) → Option Text → Text → Outcome
  check_accept_key accept_key none handshake_key = invalid_accept_header
  check_accept_key accept_key (some []) handshake_key = invalid_accept_header
  check_accept_key accept_key (some (b ∷ bs)) handshake_key =
      if not (same_text (b ∷ bs) (accept_key handshake_key))
      then invalid_accept_key
      else set_up (setup_connection false opened)

  unfoldable pub handle_handshake_response : (Text → Text) → Bool → ℕ → s.Carrier → Text → Outcome
  handle_handshake_response accept_key is_http_1_1 status_code headers handshake_key =
      if not is_http_1_1
      then invalid_http_version
      else if not (status_code == 101)
      then invalid_status
      else check_accept_key accept_key (s.get_one headers (bytes "Sec-WebSocket-Accept"))
          handshake_key
