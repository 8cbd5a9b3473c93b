-- ===== src/PeerManager.antt =====
-- evd/evd-peer-manager.c with the closing of peers in evd/evd-peer.c and evd/evd-transport.c: the
-- table of peers. Peers are numbers; time is in microseconds.
pub mod Closing
pub mod Signals
pub mod Lifecycle
mod Tests
use event_dance.Common.{
  ℕ, zero, suc, ◌+◌, ◌-◌, leb, ltb, ◌==◌, Bool, true, false, if◌then◌else◌, Option, none, some,
  List, [], ◌∷◌, ◌++◌,
}
use event_dance.Peer.{Peer, is_alive, new_peer}

-- struct _EvdPeerManagerPrivate, with the peers themselves; `peers` are the ids in the table, in the order in
-- which it is gone through. `sources` counts the cleanup sources in the main loop, of which peer_cleanup_src_id,
-- if it is set, names the last one.
pub record Manager : Type 0 where
  pub peer : ℕ → Peer
  pub peers : List ℕ
  pub cleaned_at : ℕ
  pub src_id_set : Bool
  pub sources : ℕ

-- DEFAULT_PEER_CLEANUP_INTERVAL
abbrev pub cleanup_interval : ℕ
cleanup_interval = 5000000

-- evd_peer_manager_init
abbrev pub new_manager : ℕ → Manager
new_manager now = record {
  peer = λ id. new_peer now;
  peers = [];
  cleaned_at = now;
  src_id_set = false;
  sources = 0;
}

-- What the outside is told; `manager_closed` is the signal of the manager, `transport_closed` that of the
-- transport, `transport_new` its signal for a new peer, `iface_closed` the call of the transport's own peer_closed.
pub data Event : Type 0 where
  manager_closed transport_closed iface_closed : ℕ → Bool → Event
  transport_new : ℕ → Event

abbrev pub update : (ℕ → Peer) → ℕ → Peer → ℕ → Peer
update peer id p x = if id == x then p else peer x

abbrev pub contains : ℕ → List ℕ → Bool
contains id [] = false
contains id (x ∷ xs) = (let rest = contains id xs in if id == x then true else rest)

-- g_hash_table_remove
abbrev pub remove : ℕ → List ℕ → List ℕ
remove id [] = []
remove id (x ∷ xs) = (let rest = remove id xs in if id == x then xs else x ∷ rest)

abbrev pub set_closed : ℕ → Manager → Manager
set_closed id m = record m { peer = update m.peer id (record (m.peer id) { closed = true }) }

abbrev pub set_closing : Bool → ℕ → Manager → Manager
set_closing closing id m = record m {
  peer = update m.peer id (record (m.peer id) { closing = closing });
}

abbrev pub Outcome : Type 0
Outcome = Option (Manager × List Event)

abbrev pub and_events : List Event → Outcome → Outcome
and_events es none = none
and_events es (some (m, more)) = some (m, es ++ more)

infixl 20 ◌then_do◌
abbrev pub ◌then_do◌ : Outcome → (Manager → Outcome) → Outcome
none then_do f = none
some (m, es) then_do f = and_events es (f m)

-- evd_peer_close, evd_transport_close_peer, evd_peer_manager_close_peer and
-- evd_peer_manager_close_peer_internal, which call each other.
pub data Closer : Type 0 where
  peer_close transport_close manager_close close_internal : Closer

-- A call of one of them, on fuel for the depth of the calls.
unfoldable pub close_by : ℕ → Closer → ℕ → Bool → Manager → Outcome
close_by zero c id gracefully m = none
close_by (suc n) peer_close id gracefully m =
    let go_on = close_by n transport_close id gracefully (set_closed id m) in
    if (m.peer id).closed then some (m, []) else go_on
close_by (suc n) transport_close id gracefully m =
    let started = set_closing true id m in
    let all =
      close_by n manager_close id gracefully started
      then_do close_by n peer_close id gracefully
      then_do (λ v. some (
        set_closing false id v,
        iface_closed id gracefully ∷ transport_closed id gracefully ∷ [],
      )) in
    if (m.peer id).closing then some (m, []) else all
close_by (suc n) manager_close id gracefully m =
    let go_on = close_by n close_internal id gracefully (record m { peers = remove id m.peers }) in
    if contains id m.peers then go_on else some (m, [])
close_by (suc n) close_internal id gracefully m =
    close_by n peer_close id gracefully m then_do (λ v. some (v, manager_closed id gracefully ∷ []))

-- More than the calls need: each goes through a peer that is not closed, and through one that the transport is
-- not closing, once at most.
abbrev pub depth : ℕ
depth = 8

-- g_hash_table_foreach_remove with check_peer: the peers that stay, and the list of those that do not.
unfoldable pub check_peers : (ℕ → Bool) → ℕ → List ℕ → (ℕ → Peer) → (ℕ → Peer) × (List ℕ × List ℕ)
check_peers connected now [] peer = (peer, ([], []))
check_peers connected now (id ∷ ids) peer =
    let r = is_alive (connected id) now (peer id) in
    let rest = check_peers connected now ids (update peer id r.0) in
    (rest.0, if r.1 then (id ∷ (rest.1).0, (rest.1).1) else ((rest.1).0, id ∷ (rest.1).1))

-- The loop over removal_list.
unfoldable pub close_removed : List ℕ → Manager → Outcome
close_removed [] m = some (m, [])
close_removed (id ∷ ids) m = close_by depth close_internal id false m then_do close_removed ids

-- evd_peer_manager_cleanup_peers, where a transport's answer about a peer is `connected`.
unfoldable pub cleanup_peers : (ℕ → Bool) → ℕ → Manager → Outcome
cleanup_peers connected now m =
    let checked = check_peers connected now m.peers m.peer in
    let cleaned = record m { cleaned_at = now; peer = checked.0; peers = (checked.1).0 } in
    if leb (now - m.cleaned_at) cleanup_interval
    then some (m, [])
    else close_removed (checked.1).1 cleaned

abbrev pub peer_found : Bool → ℕ → Option ℕ
peer_found true id = some id
peer_found false id = none

-- evd_peer_manager_lookup_peer: every lookup adds a source, and only the last one is remembered.
unfoldable pub lookup_peer : ℕ → Manager → Manager × Option ℕ
lookup_peer id m =
    (record m { src_id_set = true; sources = suc m.sources }, peer_found (contains id m.peers) id)

-- evd_peer_manager_cleanup_peers_cb
unfoldable pub cleanup_peers_cb : (ℕ → Bool) → ℕ → Manager → Outcome
cleanup_peers_cb connected now m =
    cleanup_peers connected now (record m { src_id_set = false; sources = m.sources - 1 })

abbrev pub insert_id : ℕ → List ℕ → List ℕ
insert_id id ids = if contains id ids then ids else ids ++ (id ∷ [])

-- evd_peer_manager_add_peer; the signal "new-peer" comes from a source of the main loop.
unfoldable pub add_peer : (ℕ → Bool) → ℕ → ℕ → Manager → Outcome
add_peer connected now id m =
    cleanup_peers connected now (record m { peers = insert_id id m.peers })

-- evd_transport_accept_peer_internal, for a peer that has been made just now.
unfoldable pub accept_peer : (ℕ → Bool) → ℕ → ℕ → Manager → Outcome
accept_peer connected now id m =
    let found = (lookup_peer id m).0 in
    let added =
      add_peer connected now id (record found { peer = update found.peer id (new_peer now) })
      then_do (λ v. some (v, transport_new id ∷ [])) in
    if contains id m.peers then some (found, []) else added

-- The calls from outside, with what the transport says of its peers and the time.
pub data Operation : Type 0 where
  accepts : (ℕ → Bool) → ℕ → ℕ → Operation
  looks_up : ℕ → Operation
  cleans cleans_later : (ℕ → Bool) → ℕ → Operation
  closes_peer closes_by_transport closes_by_manager : ℕ → Bool → Operation

abbrev pub perform : Operation → Manager → Outcome
perform (accepts connected now id) m = accept_peer connected now id m
perform (looks_up id) m = some ((lookup_peer id m).0, [])
perform (cleans connected now) m = cleanup_peers connected now m
perform (cleans_later connected now) m = cleanup_peers_cb connected now m
perform (closes_peer id g) m = close_by depth peer_close id g m
perform (closes_by_transport id g) m = close_by depth transport_close id g m
perform (closes_by_manager id g) m = close_by depth manager_close id g m

abbrev pub perform_all : List Operation → Manager → Outcome
perform_all [] m = some (m, [])
perform_all (o ∷ os) m = perform o m then_do perform_all os
