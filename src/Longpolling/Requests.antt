-- ===== src/Longpolling/Requests.antt =====
-- evd/evd-longpolling-server.c: what requests and closed connections do to the link of a peer.
use event_dance.Common.{
  ℕ, zero, suc, ltb, ◌==◌, Bool, true, false, if◌then◌else◌, Option, none, some, List, [], ◌∷◌,
  ◌++◌,
}
use event_dance.Common.Text.{bytes}
use event_dance.Peer.{touch, backlog_get_length}
use event_dance.Peer.Sending.{Sent}
use event_dance.Longpolling.{Conn, Link, Reading, actual_send, read_messages}

-- The text behind the last '/'; g_strsplit makes at most `tokens` parts, and the last one takes what is left.
abbrev pub last_token : ℕ → List ℕ → List ℕ → List ℕ
last_token tokens token [] = token
last_token zero token (c ∷ cs) = token ++ (c ∷ cs)
last_token (suc tokens) token (c ∷ cs) = elim (c == 47) [
  | true ↦ last_token tokens [] cs
  | false ↦ last_token (suc tokens) (token ++ (c ∷ [])) cs
]

-- evd_longpolling_server_resolve_action; none is an access before the first token, which an empty path has not.
abbrev pub resolve_action : List ℕ → Option (List ℕ)
resolve_action [] = none
resolve_action (c ∷ cs) = some (last_token 31 [] (c ∷ cs))

abbrev pub same_text : List ℕ → List ℕ → Bool
same_text [] [] = true
same_text [] (d ∷ ds) = false
same_text (c ∷ cs) [] = false
same_text (c ∷ cs) (d ∷ ds) = (let rest = same_text cs ds in if c == d then rest else false)

abbrev pub add_conn : Conn → Option (List Conn) → Option (List Conn)
add_conn c none = some (c ∷ [])
add_conn c (some cs) = some (cs ++ (c ∷ []))

abbrev pub with_conns : Option (List Conn) → Option (List Conn)
with_conns none = some []
with_conns (some cs) = some cs

-- A GET request: it takes the backlog with it, or waits.
unfoldable pub receive_request : Conn → Link → Sent Link
receive_request c l =
    if ltb 0 (backlog_get_length l.peer)
    then actual_send none c (record l { conns = with_conns l.conns })
    else record {
      state = record l { conns = add_conn c l.conns; tagged = c.id ∷ l.tagged };
      frames = [];
      result = true;
    }

abbrev untag : ℕ → List ℕ → List ℕ
untag id [] = []
untag id (x ∷ xs) = (let rest = untag id xs in if id == x then rest else x ∷ rest)

abbrev untag_all : List Conn → List ℕ → List ℕ
untag_all [] ids = ids
untag_all (c ∷ cs) ids = untag_all cs (untag c.id ids)

abbrev pub hang_up : Option (List Conn) → Link → Link
hang_up none l = l
hang_up (some cs) l = record l {
  conns = none;
  tagged = untag_all cs l.tagged;
  answered = l.answered ++ cs;
}

-- evd_longpolling_server_peer_closed: the waiting connections are handed back with nothing written.
unfoldable pub peer_closed : Link → Link
peer_closed l = hang_up l.conns l

-- evd_transport_close_peer for this peer; the peer manager is left out here.
unfoldable pub close_peer : Link → Link
close_peer l =
    if (l.peer).closing
    then l
    else peer_closed (record l { peer = record (l.peer) { closed = true } })

-- What a request asks for.
pub data Action : Type 0 where
  receive send close other : Action

abbrev pub action_of : Option (List ℕ) → Option Action
action_of none = none
action_of (some token) = some (
    if same_text token (bytes "receive")
    then receive
    else if same_text token (bytes "send")
    then send
    else if same_text token (bytes "close")
    then close
    else other)

abbrev pub nothing_sent : Link → Sent Link
nothing_sent l = record { state = l; frames = []; result = true }

-- The branches of request_handler. A "send" request starts to read its content, and "close" is answered by the
-- web service.
abbrev pub handle_action : Action → Conn → Link → Sent Link
handle_action receive c l = receive_request c l
handle_action send c l = nothing_sent l
handle_action close c l = nothing_sent (close_peer l)
handle_action other c l = nothing_sent l

abbrev pub handle_some : Option Action → Conn → Link → Option (Sent Link)
handle_some none c l = none
handle_some (some a) c l = some (handle_action a c l)

abbrev pub leave : Option (Sent Link) → Option (Sent Link)
leave none = none
leave (some r) = some (record r { state = record (r.state) { current = false } })

-- request_handler for a request whose query names this peer.
unfoldable pub request_handler : List ℕ → ℕ → Conn → Link → Option (Sent Link)
request_handler path now c l = leave (
    handle_some (action_of (resolve_action path)) c
      (record l { peer = touch now l.peer; current = true }))

-- conn_on_content_read: the messages of the content, if it could be read, and the response, which takes the
-- backlog with it. The fuel is for the loop over the content.
unfoldable pub conn_on_content_read :
    ℕ → Option (List ℕ × ℕ) → Conn → Link → Option Reading × Sent Link
conn_on_content_read fuel none c l = (some (Reading.finished []), actual_send none c l)
conn_on_content_read fuel (some (content, size)) c l =
    (read_messages fuel content size 0 0, actual_send none c l)

abbrev pub contains_id : ℕ → List ℕ → Bool
contains_id id [] = false
contains_id id (x ∷ xs) = if id == x then true else contains_id id xs

abbrev pub remove_conn : ℕ → List Conn → List Conn
remove_conn id [] = []
remove_conn id (c ∷ cs) = (let rest = remove_conn id cs in if id == c.id then cs else c ∷ rest)

abbrev remove_from : ℕ → Option (List Conn) → Option (List Conn)
remove_from id none = none
remove_from id (some cs) = some (remove_conn id cs)

-- evd_longpolling_server_remove, where the group has let the connection go.
unfoldable pub remove_stream : ℕ → ℕ → Link → Link
remove_stream now id l =
    if contains_id id l.tagged
    then record l {
      peer = touch now l.peer;
      tagged = untag id l.tagged;
      conns = remove_from id l.conns;
    }
    else l
