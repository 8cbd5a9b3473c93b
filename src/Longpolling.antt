-- ===== src/Longpolling.antt =====
-- evd/evd-longpolling-server.c: the long-polling transport, seen from one peer. A GET request waits
-- until there is a message for the peer and takes it with its response; a POST request brings messages.
pub mod Requests
pub mod Wire
pub mod Client
pub mod Delivery
pub mod Order
pub mod Lifecycle
mod Tests
use event_dance.Common.{
  ℕ, zero, suc, ◌+◌, ◌-◌, ◌*◌, ◌/◌, ◌%◌, ◌^◌, max, leb, ltb, ◌==◌, Bool, true, false, ◌&&◌, ◌||◌,
  if◌then◌else◌, Option, none, some, List, [], ◌∷◌, ◌++◌, length, take, drop, get_or, replicate,
}
use event_dance.Common.Hex.{hex_onto, places, sscanf_hex}
use event_dance.Common.Text.{bytes}
use event_dance.ChunkedDecoder.{store_low}
use event_dance.HttpConnection.{chunked, Writer, write_content, write_response_headers}
use event_dance.Peer.{
  BacklogFrame, Peer, touch, push_message, pop_message, unshift_message, backlog_get_length,
}
use event_dance.Peer.Sending.{Sent, Transport}

-- read_msg_header, from the bytes at the header on: the sizes of the header and of the message. sscanf sets
-- the low 32 bits of the size, and where it finds no number the size of the message before stays.
unfoldable pub read_msg_header : List ℕ → ℕ → ℕ × ℕ
read_msg_header buf msg_len =
    let hdr = get_or buf 0 0 % 128 in
    if leb hdr 125
    then (1, hdr)
    else if hdr == 126
    then (5, store_low msg_len (sscanf_hex 4 (drop 1 buf)))
    else (17, store_low msg_len (sscanf_hex 16 (drop 1 buf)))

-- What the loop over a content does: the offset and the size of each message that it hands over; `outside` is
-- an index that has become negative.
pub data Reading : Type 0 where
  finished : List (ℕ × ℕ) → Reading
  outside : List (ℕ × ℕ) → Reading

abbrev pub received_first : ℕ × ℕ → Option Reading → Option Reading
received_first m none = none
received_first m (some (finished ms)) = some (finished (m ∷ ms))
received_first m (some (outside ms)) = some (outside (m ∷ ms))

-- The loop of conn_on_content_read, on fuel. `content` is the memory up to the first NUL character behind the
-- `size` bytes; the index is a signed int.
unfoldable pub read_messages : ℕ → List ℕ → ℕ → ℕ → ℕ → Option Reading
read_messages zero content size i msg_len = none
read_messages (suc fuel) content size i msg_len =
    let lens = read_msg_header (drop i content) msg_len in
    let next = (i + lens.1 + lens.0) % 2 ^ 32 in
    let later = read_messages fuel content size next lens.1 in
    if ltb i size
    then received_first (i + lens.0, lens.1)
        (if ltb next (2 ^ 31) then later else some (outside []))
    else some (finished [])

-- The header of a message of `size` bytes, which write_frame_delivery builds.
abbrev pub frame_header : ℕ → List ℕ
frame_header size =
    let n = size % 2 ^ 32 in
    if leb size 125
    then size ∷ []
    else if leb size 65535
    then 126 ∷ take 4 (hex_onto (max 4 (places 7 n)) n [])
    else 127 ∷ take 16 (replicate (16 - places 7 n) 32 ++ hex_onto (places 7 n) n [])

-- evd_longpolling_server_write_frame_delivery, which does not look at the result of the first call.
unfoldable pub write_frame_delivery : List ℕ → Writer → Writer × Bool
write_frame_delivery buf w =
    write_content buf true (write_content (frame_header (length buf)) true w).0

-- A connection with a request: whether it is kept alive, and the origin of the request where that is allowed.
pub record Conn : Type 0 where
  pub id : ℕ
  pub keepalive : Bool
  pub allowed_origin : Option (List ℕ)
  pub writer : Writer

-- The peer with its data; `conns` is none before the first GET request, `tagged` are the connections that carry
-- the peer under CONN_PEER_KEY_GET, `current` is current_peer_id where it is this peer. `answered` are the
-- connections handed to flush_and_return_connection, in order, with what has been written to them.
pub record Link : Type 0 where
  pub peer : Peer
  pub conns : Option (List Conn)
  pub tagged : List ℕ
  pub current : Bool
  pub answered : List Conn

-- The loop of actual_send over the backlog; every round takes a message, so its length is enough fuel.
unfoldable pub send_backlog : ℕ → Peer → Writer → Sent (Peer × Writer)
send_backlog zero p w = record { state = (p, w); frames = []; result = true }
send_backlog (suc fuel) p w = elim (pop_message p).1 [
  | none ↦ record { state = (p, w); frames = []; result = true }
  | some f ↦
      let rest = (pop_message p).0 in
      let d = write_frame_delivery f.buf w in
      let later = send_backlog fuel rest d.0 in
      if d.1
      then record later { frames = f ∷ later.frames }
      else record { state = ((unshift_message f rest).0, d.0); frames = []; result = false }
]

-- The frame that actual_send has been given, behind the backlog.
unfoldable pub send_requested : Option BacklogFrame → Sent (Peer × Writer) → Sent (Peer × Writer)
send_requested none r = r
send_requested (some f) r =
    let d = write_frame_delivery f.buf (r.state).1 in
    if r.result
    then record {
      state = ((r.state).0, d.0);
      frames = if d.1 then r.frames ++ (f ∷ []) else r.frames;
      result = d.1;
    }
    else r

abbrev pub connection_header : Bool → List ℕ
connection_header true = bytes "keep-alive"
connection_header false = bytes "close"

abbrev pub origin_header : Option (List ℕ) → List (List ℕ × List ℕ)
origin_header none = []
origin_header (some origin) = (bytes "Access-Control-Allow-Origin", origin) ∷ []

abbrev pub response_headers : Conn → List (List ℕ × List ℕ)
response_headers c =
    (bytes "Content-type", bytes "text/plain; charset=utf-8")
    ∷ (bytes "Transfer-Encoding", bytes "chunked")
    ∷ (bytes "Connection", connection_header c.keepalive)
    ∷ origin_header c.allowed_origin

abbrev pub write_head : Conn → Writer × Bool
write_head c = write_response_headers 1 200 (bytes "OK") (response_headers c) chunked c.writer

-- The end of the content, and the connection handed back.
abbrev pub answer : Conn → Link → Sent (Peer × Writer) → Sent Link
answer c l r = record {
  state = record l {
    peer = (r.state).0;
    answered = l.answered ++ (record c { writer = (write_content [] false (r.state).1).0 } ∷ []);
  };
  frames = r.frames;
  result = r.result;
}

-- evd_longpolling_server_actual_send, which does nothing and succeeds where the headers cannot be written.
unfoldable pub actual_send : Option BacklogFrame → Conn → Link → Sent Link
actual_send f c l =
    let head = write_head c in
    let sent = send_requested f (send_backlog (backlog_get_length l.peer) l.peer head.0) in
    if head.1 then answer c l sent else record { state = l; frames = []; result = true }

-- evd_longpolling_server_select_conn_and_send
abbrev pub send_to_first : Option (List Conn) → ℕ → BacklogFrame → Link → Sent Link
send_to_first none now f l = record { state = l; frames = []; result = false }
send_to_first (some []) now f l = record { state = l; frames = []; result = false }
send_to_first (some (c ∷ cs)) now f l =
    actual_send (some f) c (record l { peer = touch now l.peer; conns = some cs })

unfoldable pub select_conn_and_send : ℕ → BacklogFrame → Link → Sent Link
select_conn_and_send now f l = send_to_first l.conns now f l

-- EvdTransportInterface
abbrev pub transport : ℕ → Transport Link
transport now = record {
  peer = λ l. l.peer;
  set_peer = λ p l. record l { peer = p };
  send = λ f l. select_conn_and_send now f l;
}

abbrev pub waits : Option (List Conn) → Bool
waits none = false
waits (some []) = false
waits (some (c ∷ cs)) = true

-- evd_longpolling_server_peer_is_connected
abbrev pub is_connected : Link → Bool
is_connected l = l.current || waits l.conns
