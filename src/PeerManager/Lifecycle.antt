-- ===== src/PeerManager/Lifecycle.antt =====
-- evd/evd-peer-manager.c: a peer manager over all the calls from outside.
use event_dance.Common.{
  if-either, ℕ, ◌+◌, ◌-◌, leb, ◌≡◌, refl, subst, Bool, false, none, some, List, [], ◌∷◌, arith,
}
use event_dance.Peer.{Peer, is_alive, new_peer}
use event_dance.PeerManager.{
  Manager, update, contains, Event, Outcome, peer_close, transport_close, manager_close,
  close_internal, Closer, close_by, depth, cleanup_interval, check_peers, close_removed,
  cleanup_peers, lookup_peer, cleanup_peers_cb, add_peer, insert_id, accept_peer, Operation,
  accepts, looks_up, cleans, cleans_later, closes_peer, closes_by_transport, closes_by_manager,
  perform, perform_all, new_manager,
}
use event_dance.PeerManager.Closing.{Ends, Any, then_do-Ends, close_by-Ends}
use event_dance.PeerManager.Signals.{
  hit, occurrences, closed_peers, new_peers, Keeps, then_do-Keeps, announced-Keeps,
  occurrences-append, close_by-Keeps, owed_by,
}

close_removed-Ends : (ids : List ℕ) (m : Manager) → Ends Any (close_removed ids m)
unfolding close_removed
close_removed-Ends [] m = tt
close_removed-Ends (id ∷ ids) m =
    then_do-Ends Any Any _ _ (close_by-Ends close_internal id false m)
      (λ v k. close_removed-Ends ids v)

close_removed-Keeps :
    (ids : List ℕ) (m : Manager) (x : ℕ)
    → Keeps x (occurrences x m.peers + occurrences x ids) (close_removed ids m)
unfolding close_removed
close_removed-Keeps [] m x = omega arith
close_removed-Keeps (id ∷ ids) m x =
    let total = occurrences x m.peers + occurrences x (id ∷ ids) in
    then_do-Keeps x (occurrences x m.peers + hit id x) (occurrences x ids) total _ _ (omega arith)
      (close_by-Keeps depth close_internal id false m x) (λ v. close_removed-Keeps ids v x)

-- Every peer in the table either stays or is in the list of those that do not.
check_peers-split :
    (connected : ℕ → Bool) (now : ℕ) (ids : List ℕ) (peer : ℕ → Peer) (x : ℕ)
    → (let r = check_peers connected now ids peer in
        occurrences x (r.1).0 + occurrences x (r.1).1 ≡ occurrences x ids)
unfolding check_peers
check_peers-split connected now [] peer x = refl
check_peers-split connected now (id ∷ ids) peer x =
    let r = is_alive (connected id) now (peer id) in
    let rest = check_peers connected now ids (update peer id r.0) in
    let ih : occurrences x (rest.1).0 + occurrences x (rest.1).1 ≡ occurrences x ids =
      check_peers-split connected now ids (update peer id r.0) x in
    if-either
      (λ (t : List ℕ × List ℕ). occurrences x t.0 + occurrences x t.1 ≡ occurrences x (id ∷ ids))
      r.1 (λ e. omega arith) (λ e. omega arith)

cleanup_peers-Ends :
    (connected : ℕ → Bool) (now : ℕ) (m : Manager) → Ends Any (cleanup_peers connected now m)
unfolding cleanup_peers
cleanup_peers-Ends connected now m =
    if-either (Ends Any) (leb (now - m.cleaned_at) cleanup_interval) (λ e. tt)
      (λ e. close_removed-Ends _ _)

cleanup_peers-Keeps :
    (connected : ℕ → Bool) (now : ℕ) (m : Manager) (x : ℕ)
    → Keeps x (occurrences x m.peers) (cleanup_peers connected now m)
unfolding cleanup_peers
cleanup_peers-Keeps connected now m x =
    let checked = check_peers connected now m.peers m.peer in
    let cleaned : Manager = record m {
      cleaned_at = now;
      peer = checked.0;
      peers = (checked.1).0;
    } in
    if-either (Keeps x (occurrences x m.peers)) (leb (now - m.cleaned_at) cleanup_interval)
      (λ e. omega arith)
      (λ e.
        subst (λ k. Keeps x k (close_removed (checked.1).1 cleaned))
          (check_peers-split connected now m.peers m.peer x)
          (close_removed-Keeps (checked.1).1 cleaned x))

accept_peer-Ends :
    (connected : ℕ → Bool) (now id : ℕ) (m : Manager) → Ends Any (accept_peer connected now id m)
unfolding accept_peer add_peer
accept_peer-Ends connected now id m =
    if-either (Ends Any) (contains id m.peers) (λ e. tt)
      (λ e. then_do-Ends Any Any _ _ (cleanup_peers-Ends connected now _) (λ v k. tt))

insert_id-new :
    (id : ℕ) (ids : List ℕ) (x : ℕ)
    → contains id ids ≡ false
    → occurrences x (insert_id id ids) ≡ occurrences x ids + hit id x
insert_id-new id ids x h = let e = occurrences-append x ids (id ∷ []) in rw h (omega arith)

add_peer-Keeps :
    (connected : ℕ → Bool) (now id : ℕ) (m : Manager) (x : ℕ)
    → contains id m.peers ≡ false
    → Keeps x (occurrences x m.peers + hit id x) (add_peer connected now id m)
unfolding add_peer
add_peer-Keeps connected now id m x e =
    let added : Manager = record m { peers = insert_id id m.peers } in
    subst (λ k. Keeps x k (cleanup_peers connected now added)) (insert_id-new id m.peers x e)
      (cleanup_peers-Keeps connected now added x)

accept_peer-Keeps :
    (connected : ℕ → Bool) (now id : ℕ) (m : Manager) (x : ℕ)
    → Keeps x (occurrences x m.peers) (accept_peer connected now id m)
unfolding accept_peer lookup_peer
accept_peer-Keeps connected now id m x =
    let found = (lookup_peer id m).0 in
    let made : Manager = record found { peer = update found.peer id (new_peer now) } in
    if-either (Keeps x (occurrences x m.peers)) (contains id m.peers) (λ e. omega arith)
      (λ e.
        announced-Keeps x id (occurrences x m.peers) (add_peer connected now id made)
          (add_peer-Keeps connected now id made x e))

perform-Ends : (o : Operation) (m : Manager) → Ends Any (perform o m)
unfolding cleanup_peers_cb
perform-Ends (accepts connected now id) m = accept_peer-Ends connected now id m
perform-Ends (looks_up id) m = tt
perform-Ends (cleans connected now) m = cleanup_peers-Ends connected now m
perform-Ends (cleans_later connected now) m = cleanup_peers-Ends connected now _
perform-Ends (closes_peer id g) m = close_by-Ends peer_close id g m
perform-Ends (closes_by_transport id g) m = close_by-Ends transport_close id g m
perform-Ends (closes_by_manager id g) m = close_by-Ends manager_close id g m

-- A call from outside owes nothing.
call-Keeps :
    (c : Closer) (id : ℕ) (g : Bool) (m : Manager) (x : ℕ)
    → owed_by c id x ≡ 0
    → Keeps x (occurrences x m.peers) (close_by depth c id g m)
call-Keeps c id g m x h =
    subst (λ k. Keeps x k (close_by depth c id g m)) (omega arith) (close_by-Keeps depth c id g m x)

perform-Keeps :
    (o : Operation) (m : Manager) (x : ℕ) → Keeps x (occurrences x m.peers) (perform o m)
unfolding cleanup_peers_cb lookup_peer
perform-Keeps (accepts connected now id) m x = accept_peer-Keeps connected now id m x
perform-Keeps (looks_up id) m x = omega arith
perform-Keeps (cleans connected now) m x = cleanup_peers-Keeps connected now m x
perform-Keeps (cleans_later connected now) m x = cleanup_peers-Keeps connected now _ x
perform-Keeps (closes_peer id g) m x = call-Keeps peer_close id g m x refl
perform-Keeps (closes_by_transport id g) m x = call-Keeps transport_close id g m x refl
perform-Keeps (closes_by_manager id g) m x = call-Keeps manager_close id g m x refl

perform_all-Ends : (os : List Operation) (m : Manager) → Ends Any (perform_all os m)
perform_all-Ends [] m = tt
perform_all-Ends (o ∷ os) m =
    then_do-Ends Any Any (perform o m) _ (perform-Ends o m) (λ v k. perform_all-Ends os v)

perform_all-Keeps :
    (os : List Operation) (m : Manager) (x : ℕ) → Keeps x (occurrences x m.peers) (perform_all os m)
perform_all-Keeps [] m x = omega arith
perform_all-Keeps (o ∷ os) m x =
    let before = occurrences x m.peers in
    then_do-Keeps x before 0 before (perform o m) _ (omega arith) (perform-Keeps o m x)
      (λ v. subst (λ k. Keeps x k (perform_all os v)) (omega arith) (perform_all-Keeps os v x))

-- An outcome that is there and keeps the account.
pub record Accounted (x : ℕ) (outcome : Outcome) : Type 0 where
  pub manager : Manager
  pub events : List Event
  pub ends : outcome ≡ some (manager, events)
  pub account :
      occurrences x (closed_peers events) + occurrences x manager.peers
      ≡ occurrences x (new_peers events)

accounted : (x : ℕ) (o : Outcome) → Ends Any o → Keeps x 0 o → Accounted x o
accounted x none h k = elim h [ ]
accounted x (some (m, es)) h k = record {
  manager = m;
  events = es;
  ends = refl;
  account = omega arith;
}

-- Whatever is called from outside, in any order, ends; and of each peer that the transport has announced the
-- manager either has said once that it is closed, or has it in its table, never both: as often as an id has been
-- announced, so often it has been said to be closed or is in the table.
pub closed_once :
    (now : ℕ) (os : List Operation) (x : ℕ) → Accounted x (perform_all os (new_manager now))
closed_once now os x =
    accounted x (perform_all os (new_manager now)) (perform_all-Ends os (new_manager now))
      (perform_all-Keeps os (new_manager now) x)
