-- ===== src/Longpolling/Wire.antt =====
-- evd/evd-longpolling-server.c with evd/js/evdWebTransport.js: messages from the client to the server.
use event_dance.Common.{
  ℕ, zero, suc, ◌+◌, ◌/◌, ◌%◌, ◌^◌, ◌≤◌, ◌<◌, max, ◌≡◌, refl, sym, ap, ap₂, ◌∙◌, subst, leb, ltb,
  lt→ltb, leb→le, true, false, Bool-cases, Option, some, List, [], ◌∷◌, ◌++◌, append_assoc, length,
  length-append, take, drop, drop-append, take-append, drop-drop, map, inl, inr, arith,
}
use event_dance.Common.Hex.{
  hex_onto, hex_digit, places, places_few, hex_onto-append, length-hex_onto, sscanf_hex,
  sscanf_hex-hex_onto,
}
use event_dance.ChunkedDecoder.{store_low}
use event_dance.Longpolling.{read_msg_header, Reading, finished, received_first, read_messages}
use event_dance.Longpolling.Client.{padded, client_header, send_body}

-- The headers of messages that are not short.
pub padded-places :
    (width len : ℕ) → 0 < width → len < 16 ^ width → padded width len ≡ hex_onto width len []
padded-places width len w h =
    ap (λ k. hex_onto k len []) {x = max width (places 15 len)} {y = width}
      (omega (arith, places_few width 15 len w h))

client_header-middle :
    (len : ℕ) → 125 < len → len ≤ 65535 → client_header len ≡ 126 ∷ hex_onto 4 len []
client_header-middle len lo hi =
    rw (not_short len lo, middle len hi)
      (ap (◌∷◌ 126) (padded-places 4 len (omega arith) (omega arith)))
  where
    not_short : (len : ℕ) → 125 < len → leb len 125 ≡ false
    not_short len h = ground arith

    middle : (len : ℕ) → len ≤ 65535 → leb len 65535 ≡ true
    middle len h = ground arith

client_header-long :
    (len : ℕ) → 65535 < len → len < 2 ^ 32 → client_header len ≡ 127 ∷ hex_onto 16 len []
client_header-long len lo hi =
    rw (not_short len (omega arith), not_middle len lo)
      (ap (◌∷◌ 127) (padded-places 16 len (omega arith) (omega arith)))
  where
    not_short : (len : ℕ) → 125 < len → leb len 125 ≡ false
    not_short len h = ground arith

    not_middle : (len : ℕ) → 65535 < len → leb len 65535 ≡ false
    not_middle len h = ground arith

stored_low : (old v : ℕ) → old < 2 ^ 32 → v < 2 ^ 32 → store_low old (some v) ≡ v
stored_low old v ho hv = omega arith

abbrev Reads : List ℕ → ℕ → List ℕ → Type 0
Reads header len rest =
    (old : ℕ) → old < 2 ^ 32 → read_msg_header (header ++ rest) old ≡ (length header, len)

pub client_header-Reads :
    (len : ℕ) (rest : List ℕ) → len < 2 ^ 32 → Reads (client_header len) len rest
unfolding read_msg_header
client_header-Reads len rest h = elim (Bool-cases (leb len 125)) [
  | inl e ↦
      subst (λ hd. Reads hd len rest) {x = len ∷ []} (sym (rw e refl)) (short (leb→le len 125 e))
  | inr e ↦ elim (Bool-cases (leb len 65535)) [
    | inl m ↦
        subst (λ hd. Reads hd len rest) {x = 126 ∷ hex_onto 4 len []}
          (sym (client_header-middle len (past len 125 e) (leb→le len 65535 m)))
          (middle (leb→le len 65535 m))
    | inr m ↦
        subst (λ hd. Reads hd len rest) {x = 127 ∷ hex_onto 16 len []}
          (sym (client_header-long len (past len 65535 m) h)) long
  ]
]
  where
    past : (a b : ℕ) → leb a b ≡ false → b < a
    past a b h = ground arith

    short : len ≤ 125 → Reads (len ∷ []) len rest
    short le old ho = rw (mod_small len le, small len le) refl
      where
        mod_small : (len : ℕ) → len ≤ 125 → len % 128 ≡ len
        mod_small len h = omega arith

        small : (len : ℕ) → len ≤ 125 → leb len 125 ≡ true
        small len h = ground arith

    middle : len ≤ 65535 → Reads (126 ∷ hex_onto 4 len []) len rest
    middle le old ho =
        ap₂ (λ k v. (k, v)) {x = 5} {y = suc (length (hex_onto 4 len []))}
          (omega (arith, length-hex_onto 4 len []))
          (ap (store_low old) (
              ap (sscanf_hex 4) (sym (hex_onto-append 4 len [] rest))
              ∙ sscanf_hex-hex_onto 2 len rest (omega arith) h)
            ∙ stored_low old len ho h)

    long : Reads (127 ∷ hex_onto 16 len []) len rest
    long old ho =
        ap₂ (λ k v. (k, v)) {x = 17} {y = suc (length (hex_onto 16 len []))}
          (omega (arith, length-hex_onto 16 len []))
          (ap (store_low old) (
              ap (sscanf_hex 16) (sym (hex_onto-append 16 len [] rest))
              ∙ sscanf_hex-hex_onto 14 len rest (omega arith) h)
            ∙ stored_low old len ho h)

read_messages-step :
    (fuel : ℕ) (content : List ℕ) (size i old h len : ℕ)
    → i < size
    → read_msg_header (drop i content) old ≡ (h, len)
    → i + len + h < 2 ^ 31
    → read_messages (suc fuel) content size i old
      ≡ received_first (i + h, len) (read_messages fuel content size (i + len + h) len)
unfolding read_messages
read_messages-step fuel content size i old h len lt e small =
    rw (e, lt→ltb i size lt, mod_small (i + len + h) small, lt→ltb (i + len + h) (2 ^ 31) small)
      refl
  where
    mod_small : (n : ℕ) → n < 2 ^ 31 → n % 2 ^ 32 ≡ n
    mod_small n h = omega arith

read_messages-end :
    (fuel : ℕ) (content : List ℕ) (size i old : ℕ)
    → size ≤ i
    → read_messages (suc fuel) content size i old ≡ some (finished [])
unfolding read_messages
read_messages-end fuel content size i old le = rw (not_less i size le) refl
  where
    not_less : (i size : ℕ) → size ≤ i → ltb i size ≡ false
    not_less i size h = ground arith

-- The bytes that a receiver is handed.
abbrev pub message : List ℕ → ℕ × ℕ → List ℕ
message content (at, len) = take len (drop at content)

-- The loop ends and hands over these messages.
abbrev pub Delivers : List ℕ → Option Reading → List (List ℕ) → Type 0
Delivers content r msgs =
    (ds : List (ℕ × ℕ)) × (r ≡ some (finished ds)) × (map (message content) ds ≡ msgs)

Delivers-first :
    (content : List ℕ) (d : ℕ × ℕ) (r : Option Reading) (msg : List ℕ) (msgs : List (List ℕ))
    → message content d ≡ msg
    → Delivers content r msgs
    → Delivers content (received_first d r) (msg ∷ msgs)
Delivers-first content d r msg msgs e (ds, er, em) =
    (d ∷ ds, ap (received_first d) er, ap₂ (λ m ms. m ∷ ms) e em)

-- What stands behind a header, and behind the message.
drop-header :
    (content hd msg rest : List ℕ) (i : ℕ)
    → drop i content ≡ hd ++ (msg ++ rest)
    → drop (i + length hd) content ≡ msg ++ rest
drop-header content hd msg rest i e =
    drop-drop i (length hd) content ∙ ap (drop (length hd)) e ∙ drop-append hd (msg ++ rest)

drop-message :
    (content hd msg rest : List ℕ) (i : ℕ)
    → drop i content ≡ hd ++ (msg ++ rest)
    → drop (i + length msg + length hd) content ≡ rest
drop-message content hd msg rest i e =
    ap (λ k. drop k content) {y = i + length hd + length msg} (omega arith)
    ∙ drop-drop (i + length hd) (length msg) content
    ∙ ap (drop (length msg)) (drop-header content hd msg rest i e)
    ∙ drop-append msg rest

client_header_some : (len : ℕ) → 0 < length (client_header len)
client_header_some len = elim (Bool-cases (leb len 125)) [
  | inl e ↦ rw e (omega arith)
  | inr e ↦ elim (Bool-cases (leb len 65535)) [
    | inl m ↦ rw (e, m) (omega arith)
    | inr m ↦ rw (e, m) (omega arith)
  ]
]

read_all :
    (msgs : List (List ℕ)) (fuel : ℕ) (content after : List ℕ) (size i old : ℕ)
    → drop i content ≡ send_body msgs ++ after
    → size ≡ i + length (send_body msgs)
    → size < 2 ^ 31
    → length msgs < fuel
    → old < 2 ^ 32
    → Delivers content (read_messages fuel content size i old) msgs
read_all msgs zero content after size i old at whole small f ho = absurd (omega arith)
read_all [] (suc fuel) content after size i old at whole small f ho =
    ([], read_messages-end fuel content size i old (omega arith), refl)
read_all (msg ∷ msgs) (suc fuel) content after size i old at whole small f ho =
    let hd = client_header (length msg) in
    let rest = send_body msgs ++ after in
    let here : drop i content ≡ hd ++ (msg ++ rest) =
      at ∙ append_assoc (hd ++ msg) (send_body msgs) after ∙ append_assoc hd msg rest in
    let lens : i + length (send_body (msg ∷ msgs))
        ≡ i + length msg + length hd + length (send_body msgs) =
      omega (arith, length-append (hd ++ msg) (send_body msgs), length-append hd msg) in
    let step =
      read_messages-step fuel content size i old (length hd) (length msg)
        (omega (arith, client_header_some (length msg)))
        (ap (λ l. read_msg_header l old) here
          ∙ client_header-Reads (length msg) (msg ++ rest) (omega arith) old ho)
        (omega arith) in
    subst (λ r. Delivers content r (msg ∷ msgs)) (sym step)
      (Delivers-first content (i + length hd, length msg)
        (read_messages fuel content size (i + length msg + length hd) (length msg)) msg msgs
        (ap (take (length msg)) (drop-header content hd msg rest i here) ∙ take-append msg rest)
        (read_all msgs fuel content after size (i + length msg + length hd) (length msg)
          (drop-message content hd msg rest i here) (omega arith) small (omega arith)
          (omega arith)))

abbrev pub IsAscii : List ℕ → Type 0
IsAscii [] = Unit
IsAscii (c ∷ cs) = (c < 128) × IsAscii cs

abbrev pub AreAscii : List (List ℕ) → Type 0
AreAscii [] = Unit
AreAscii (m ∷ ms) = IsAscii m × AreAscii ms

pub IsAscii-append : (xs ys : List ℕ) → IsAscii xs → IsAscii ys → IsAscii (xs ++ ys)
IsAscii-append [] ys h k = k
IsAscii-append (x ∷ xs) ys (h, hs) k = (h, IsAscii-append xs ys hs k)

pub digits-IsAscii : (k n : ℕ) (tail : List ℕ) → IsAscii tail → IsAscii (hex_onto k n tail)
digits-IsAscii zero n tail h = h
digits-IsAscii (suc k) n tail h =
    digits-IsAscii k (n / 16) (hex_digit (n % 16) ∷ tail) (small (n % 16) (omega arith), h)
  where
    small : (d : ℕ) → d < 16 → hex_digit d < 128
    small d h = ground arith

client_header-IsAscii : (len : ℕ) → IsAscii (client_header len)
client_header-IsAscii len = elim (Bool-cases (leb len 125)) [
  | inl e ↦ rw e (omega (arith, leb→le len 125 e), tt)
  | inr e ↦ elim (Bool-cases (leb len 65535)) [
    | inl m ↦ rw (e, m) (omega arith, digits-IsAscii (max 4 (places 15 len)) len [] tt)
    | inr m ↦ rw (e, m) (omega arith, digits-IsAscii (max 16 (places 15 len)) len [] tt)
  ]
]

send_body-IsAscii : (msgs : List (List ℕ)) → AreAscii msgs → IsAscii (send_body msgs)
send_body-IsAscii [] h = tt
send_body-IsAscii (m ∷ ms) (h, hs) =
    IsAscii-append (client_header (length m) ++ m) (send_body ms)
      (IsAscii-append (client_header (length m)) m (client_header-IsAscii (length m)) h)
      (send_body-IsAscii ms hs)

-- What the client sends arrives: if the browser encodes ASCII text as it stands, the messages are
-- ASCII text and the body of the request is shorter than 2 ^ 31, then on this body, with
-- anything behind it in memory, and a round for each message and one more, the loop of the server
-- ends and hands over the messages, in order.
pub read_messages-send_body :
    (utf8 : List ℕ → List ℕ) (msgs : List (List ℕ)) (after : List ℕ) (fuel : ℕ)
    → ((s : List ℕ) → IsAscii s → utf8 s ≡ s)
    → AreAscii msgs
    → length (send_body msgs) < 2 ^ 31
    → length msgs < fuel
    → Delivers
        (utf8 (send_body msgs) ++ after)
        (read_messages fuel (utf8 (send_body msgs) ++ after) (length (utf8 (send_body msgs))) 0 0)
        msgs
read_messages-send_body utf8 msgs after fuel ascii are small f =
    subst
      (λ body. Delivers (body ++ after) (read_messages fuel (body ++ after) (length body) 0 0) msgs)
      (sym (ascii (send_body msgs) (send_body-IsAscii msgs are)))
      (read_all msgs fuel (send_body msgs ++ after) after (length (send_body msgs)) 0 0 refl
        (omega arith) small f (omega arith))
