-- ===== src/Websocket/Handshake/Agreement.antt =====
-- evd/evd-websocket-protocol.c: the two ends of the opening handshake.
use event_dance.Common.{
  ℕ, ◌+◌, ◌*◌, ◌%◌, ==_iff, ◌≡◌, ◌≢◌, refl, ap, ◌∙◌, Bool, true, false, Option, none, some, [], ◌∷◌,
  arith,
}
use event_dance.Common.Text.{bytes}
use event_dance.Websocket.Connection.{opened, setup_connection}
use event_dance.Websocket.Handshake.{
  Text, same_text, same_name, Headers, set_up, get_version_from_request, replace_some,
  create_handshake_request, response_headers, respond, handle_handshake_request, check_accept_key,
  handle_handshake_response,
}

same_text_refl : (text : Text) → same_text text text ≡ true
same_text_refl [] = refl
same_text_refl (b ∷ bs) = rw ((==_iff b b).1 refl, same_text_refl bs) refl

module _ (s : Headers) where
  get_one-replace_some :
      (headers : s.Carrier) (name : Text) (value : Option Text) (other : Text)
      → same_name name other ≡ false
      → s.get_one (replace_some s headers name value) other ≡ s.get_one headers other
  get_one-replace_some headers name none other e = refl
  get_one-replace_some headers name (some value) other e =
      rw (s.get_one-replace headers name value other, e) refl

  -- What the server finds in the client's request.
  request_upgrade :
      (sub_protocol origin : Option Text) (key : Text)
      → let h = create_handshake_request s sub_protocol origin key in
        (s.get_one h (bytes "Upgrade") ≡ some (bytes "websocket"))
        × (s.get_one h (bytes "Connection") ≡ some (bytes "Upgrade"))
        × (s.get_one h (bytes "Sec-Websocket-Version") ≡ some (bytes "13"))
        × (s.get_one h (bytes "Sec-WebSocket-Key") ≡ some key)
  unfolding create_handshake_request
  request_upgrade sub_protocol origin key = (
    s.get_one-replace _ _ _ _
        ∙ get_one-replace_some _ _ origin _ refl
        ∙ get_one-replace_some _ _ sub_protocol _ refl
        ∙ s.get_one-replace _ _ _ _
        ∙ s.get_one-replace _ _ _ _
        ∙ s.get_one-replace _ _ _ _,
    s.get_one-replace _ _ _ _
        ∙ get_one-replace_some _ _ origin _ refl
        ∙ get_one-replace_some _ _ sub_protocol _ refl
        ∙ s.get_one-replace _ _ _ _
        ∙ s.get_one-replace _ _ _ _,
    s.get_one-replace _ _ _ _
        ∙ get_one-replace_some _ _ origin _ refl
        ∙ get_one-replace_some _ _ sub_protocol _ refl
        ∙ s.get_one-replace _ _ _ _,
    s.get_one-replace _ _ _ _,
  )

  response_accept :
      (accept : Text)
      → s.get_one (response_headers s accept) (bytes "Sec-WebSocket-Accept") ≡ some accept
  unfolding response_headers
  response_accept accept = s.get_one-replace _ _ _ _

accepts :
    (s : Headers) (accept_key : Text → Text) (key : Text)
    → accept_key key ≢ []
    → check_accept_key s accept_key (some (accept_key key)) key
      ≡ set_up (setup_connection false opened)
unfolding check_accept_key
accepts s accept_key key h = go (accept_key key) refl h
  where
    go :
        (text : Text)
        → accept_key key ≡ text
        → text ≢ []
        → check_accept_key s accept_key (some text) key ≡ set_up (setup_connection false opened)
    go [] e h = absurd (h refl)
    go (b ∷ bs) e h = rw (e, same_text_refl (b ∷ bs)) refl

-- The two ends agree: the server takes the client's request, whatever its sub-protocol and origin are, and
-- sets the connection up as opened; and the client takes the server's response, with HTTP 1.1 and
-- status 101, and sets its end up as opened, as a client. g_ascii_strtoull reads "13" as 13, the
-- accept key is not empty, and the response's headers can be written.
pub handshake-agreement :
    (s : Headers) (parse : Text → ℕ) (accept_key : Text → Text) (written : s.Carrier → Bool)
    (sub_protocol origin : Option Text) (key : Text)
    → parse (bytes "13") ≡ 13
    → accept_key key ≢ []
    → written (response_headers s (accept_key key)) ≡ true
    → (handle_handshake_request s parse accept_key written
          (create_handshake_request s sub_protocol origin key)
        ≡ (set_up (setup_connection true opened), some (response_headers s (accept_key key))))
      × (handle_handshake_response s accept_key true 101 (response_headers s (accept_key key)) key
          ≡ set_up (setup_connection false opened))
unfolding handle_handshake_request handle_handshake_response get_version_from_request respond
handshake-agreement s parse accept_key written sub_protocol origin key p h w =
    let (upgrade, connection, version, is_key) = request_upgrade s sub_protocol origin key in
    (
      rw (upgrade, connection, version, is_key, p, w) refl,
      rw (response_accept s (accept_key key)) (accepts s accept_key key h),
    )

-- The version is kept in 8 bits: a server takes a request of every version that is 13 modulo 256, such as
-- 269, if its other headers are valid and the response's headers can be written.
pub handle_handshake_request-wrapped :
    (s : Headers) (parse : Text → ℕ) (accept_key : Text → Text) (written : s.Carrier → Bool)
    (headers : s.Carrier) (version key : Text) (k : ℕ)
    → s.get_one headers (bytes "Upgrade") ≡ some (bytes "websocket")
    → s.get_one headers (bytes "Connection") ≡ some (bytes "Upgrade")
    → s.get_one headers (bytes "Sec-WebSocket-Key") ≡ some key
    → s.get_one headers (bytes "Sec-Websocket-Version") ≡ some version
    → parse version ≡ 13 + k * 256
    → written (response_headers s (accept_key key)) ≡ true
    → (handle_handshake_request s parse accept_key written headers).0
      ≡ set_up (setup_connection true opened)
unfolding handle_handshake_request get_version_from_request respond
handle_handshake_request-wrapped s parse accept_key written headers version key k u c e v p w =
    rw (u, c, e, v, ap (λ n. n % 256) p, wrapped k, w) refl
  where
    wrapped : (k : ℕ) → (13 + k * 256) % 256 ≡ 13
    wrapped k = omega arith
