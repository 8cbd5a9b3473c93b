-- ===== src/PeerManager/Tests.antt =====
-- evd/evd-peer-manager.c: runs and instances.
use event_dance.Common.{◌≡◌, refl, true, false, none, some, List, [], ◌∷◌}
use event_dance.PeerManager.{
  Operation, accepts, looks_up, cleans, closes_by_transport, perform_all, new_manager,
  manager_closed, transport_closed, iface_closed, transport_new, close_by, check_peers,
  close_removed, cleanup_peers, lookup_peer, cleanup_peers_cb, add_peer, accept_peer, Event,
  Outcome,
}
use event_dance.Peer.{is_alive}
use event_dance.PeerManager.Lifecycle.{Accounted, closed_once}

abbrev events_of : Outcome → List Event
events_of none = []
events_of (some (m, es)) = es

-- Peer 3 is closed by the transport, peer 4 has not been heard of for 20 seconds.
abbrev calls : List Operation
calls =
    accepts (λ x. false) 0 3
    ∷ accepts (λ x. false) 0 4
    ∷ closes_by_transport 3 true
    ∷ cleans (λ x. false) 20000000
    ∷ looks_up 4
    ∷ []

what_is_told :
    events_of (perform_all calls (new_manager 0))
    ≡ transport_new 3
      ∷ transport_new 4
      ∷ manager_closed 3 true
      ∷ iface_closed 3 true
      ∷ transport_closed 3 true
      ∷ iface_closed 4 false
      ∷ transport_closed 4 false
      ∷ manager_closed 4 false
      ∷ []
unfolding close_by check_peers close_removed cleanup_peers lookup_peer add_peer accept_peer is_alive
what_is_told = refl

-- A transport that closes a peer again says again that it is closed; the manager does not.
told_again :
    events_of
      (perform_all (closes_by_transport 3 true ∷ closes_by_transport 3 true ∷ []) (new_manager 0))
    ≡ iface_closed 3 true
      ∷ transport_closed 3 true
      ∷ iface_closed 3 true
      ∷ transport_closed 3 true
      ∷ []
unfolding close_by
told_again = refl

-- Of two sources for a cleanup the manager remembers one, and none once one of them has run: the other is left.
sources_left :
    (cleanup_peers_cb (λ x. false) 1 (lookup_peer 2 (lookup_peer 1 (new_manager 0)).0).0)
    ≡ some (record (new_manager 0) { sources = 1 }, [])
unfolding cleanup_peers_cb cleanup_peers lookup_peer check_peers
sources_left = refl

closed_once_example : Accounted 3 (perform_all calls (new_manager 0))
closed_once_example = closed_once 0 calls 3
