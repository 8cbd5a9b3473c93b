-- ===== src/Peer.antt =====
-- evd/evd-peer.c, and what evd/evd-transport.c does for one peer: its backlog of messages and its idle timer.
-- Time is a number of microseconds, of which a caller says the current one.
pub mod Sending
use event_dance.Common.{
  ℕ, ◌-◌, leb, Bool, true, false, not, ◌&&◌, if◌then◌else◌, Option, none, some, List, [], ◌∷◌, ◌++◌,
  length,
}

-- EvdMessageType
pub data MessageType : Type 0 where
  text binary : MessageType

-- BacklogFrame; its `len` is the length of `buf`.
pub record BacklogFrame : Type 0 where
  pub buf : List ℕ
  pub kind : MessageType

-- struct _EvdPeerPrivate; `closing` is PEER_CLOSING_KEY, by which the transport marks a peer that it closes.
pub record Peer : Type 0 where
  pub closed : Bool
  pub closing : Bool
  pub backlog : List BacklogFrame
  pub idle_since : ℕ

-- DEFAULT_TIMEOUT_INTERVAL, which nothing changes.
abbrev pub timeout_interval : ℕ
timeout_interval = 15000000

abbrev pub new_peer : ℕ → Peer
new_peer now = record { closed = false; closing = false; backlog = []; idle_since = now }

abbrev pub touch : ℕ → Peer → Peer
touch now p = record p { idle_since = now }

-- evd_transport_peer_is_connected, where the transport's own answer is `connected`.
abbrev pub peer_is_connected : Bool → ℕ → Peer → Peer × Bool
peer_is_connected connected now p = (if connected then touch now p else p, connected)

-- evd_peer_is_alive, which asks the transport only about a peer that has been idle for too long.
unfoldable pub is_alive : Bool → ℕ → Peer → Peer × Bool
is_alive connected now p =
    if p.closed
    then (p, false)
    else if leb (now - p.idle_since) timeout_interval
    then (p, true)
    else peer_is_connected connected now p

-- evd_peer_push_message
abbrev pub push_message : BacklogFrame → Peer → Peer × Bool
push_message f p = (record p { backlog = p.backlog ++ (f ∷ []) }, true)

-- evd_peer_unshift_message, which takes no empty message and says nothing of it.
abbrev pub unshift_frame : List ℕ → BacklogFrame → Peer → Peer × Bool
unshift_frame [] f p = (p, true)
unshift_frame (c ∷ cs) f p = (record p { backlog = f ∷ p.backlog }, true)

abbrev pub unshift_message : BacklogFrame → Peer → Peer × Bool
unshift_message f p = unshift_frame f.buf f p

-- evd_peer_pop_message
abbrev pub pop_frame : List BacklogFrame → Peer → Peer × Option BacklogFrame
pop_frame [] p = (p, none)
pop_frame (f ∷ fs) p = (record p { backlog = fs }, some f)

abbrev pub pop_message : Peer → Peer × Option BacklogFrame
pop_message p = pop_frame p.backlog p

abbrev pub backlog_get_length : Peer → ℕ
backlog_get_length p = length p.backlog
