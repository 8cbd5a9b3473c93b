-- ===== src/PeerManager/Closing.antt =====
-- evd/evd-peer-manager.c, evd/evd-peer.c and evd/evd-transport.c: the functions that close a peer call each other,
-- and end.
use event_dance.Common.{if-either, ℕ, suc, ◌==◌, ◌≡◌, refl, Bool, true, none, some, List, arith}
use event_dance.PeerManager.{
  Manager, contains, remove, set_closed, set_closing, Event, Outcome, and_events, ◌then_do◌, Closer,
  peer_close, transport_close, manager_close, close_internal, close_by, depth,
}

-- A call that ends, in a state that satisfies `P`.
abbrev pub Ends : (Manager → Type 0) → Outcome → Type 0
Ends P none = ⊥
Ends P (some (m, es)) = P m

abbrev pub Any : Manager → Type 0
Any m = Unit

abbrev pub Closing : ℕ → Manager → Type 0
Closing id m = (m.peer id).closing ≡ true

pub and_events-Ends :
    (P : Manager → Type 0) (es : List Event) (o : Outcome) → Ends P o → Ends P (and_events es o)
and_events-Ends P es none h = h
and_events-Ends P es (some (m, more)) h = h

pub then_do-Ends :
    (P Q : Manager → Type 0) (o : Outcome) (f : Manager → Outcome)
    → Ends P o
    → ((m : Manager) → P m → Ends Q (f m))
    → Ends Q (o then_do f)
then_do-Ends P Q none f h k = elim h [ ]
then_do-Ends P Q (some (m, es)) f h k = and_events-Ends Q es (f m) (k m h)

same_id : (id : ℕ) → (id == id) ≡ true
same_id id = ground arith

-- A peer that the transport is closing stays so while it is marked as closed.
set_closed-Closing : (id : ℕ) (m : Manager) → Closing id m → Closing id (set_closed id m)
set_closed-Closing id m h = (let e : (id == id) ≡ true = same_id id in rw e h)

set_closing-Closing : (id : ℕ) (m : Manager) → Closing id (set_closing true id m)
set_closing-Closing id m = (let e : (id == id) ≡ true = same_id id in rw e refl)

-- The calls for a peer that the transport is closing already.
transport_close-again :
    (n id : ℕ) (g : Bool) (m : Manager)
    → Closing id m
    → Ends (Closing id) (close_by (suc n) transport_close id g m)
unfolding close_by
transport_close-again n id g m h = rw h h

peer_close-again :
    (n id : ℕ) (g : Bool) (m : Manager)
    → Closing id m
    → Ends (Closing id) (close_by (suc (suc n)) peer_close id g m)
unfolding close_by
peer_close-again n id g m h =
    if-either (Ends (Closing id)) (m.peer id).closed (λ e. h)
      (λ e. transport_close-again n id g (set_closed id m) (set_closed-Closing id m h))

close_internal-again :
    (n id : ℕ) (g : Bool) (m : Manager)
    → Closing id m
    → Ends (Closing id) (close_by (suc (suc (suc n))) close_internal id g m)
unfolding close_by
close_internal-again n id g m h =
    then_do-Ends (Closing id) (Closing id) (close_by (suc (suc n)) peer_close id g m) _
      (peer_close-again n id g m h) (λ v k. k)

manager_close-again :
    (n id : ℕ) (g : Bool) (m : Manager)
    → Closing id m
    → Ends (Closing id) (close_by (suc (suc (suc (suc n)))) manager_close id g m)
unfolding close_by
manager_close-again n id g m h =
    if-either (Ends (Closing id)) (contains id m.peers)
      (λ e. close_internal-again n id g (record m { peers = remove id m.peers }) h) (λ e. h)

-- The calls for any peer.
transport_close-Ends :
    (n id : ℕ) (g : Bool) (m : Manager)
    → Ends Any (close_by (suc (suc (suc (suc (suc n))))) transport_close id g m)
unfolding close_by
transport_close-Ends n id g m =
    if-either (Ends Any) (m.peer id).closing (λ e. tt)
      (λ e.
        then_do-Ends (Closing id) Any _ _
          (then_do-Ends (Closing id) (Closing id)
            (close_by (suc (suc (suc (suc n)))) manager_close id g (set_closing true id m)) _
            (manager_close-again n id g (set_closing true id m) (set_closing-Closing id m))
            (λ v k. peer_close-again (suc (suc n)) id g v k))
          (λ v k. tt))

peer_close-Ends :
    (n id : ℕ) (g : Bool) (m : Manager)
    → Ends Any (close_by (suc (suc (suc (suc (suc (suc n)))))) peer_close id g m)
unfolding close_by
peer_close-Ends n id g m =
    if-either (Ends Any) (m.peer id).closed (λ e. tt)
      (λ e. transport_close-Ends n id g (set_closed id m))

close_internal-Ends :
    (n id : ℕ) (g : Bool) (m : Manager)
    → Ends Any (close_by (suc (suc (suc (suc (suc (suc (suc n))))))) close_internal id g m)
unfolding close_by
close_internal-Ends n id g m =
    then_do-Ends Any Any (close_by (suc (suc (suc (suc (suc (suc n)))))) peer_close id g m) _
      (peer_close-Ends n id g m) (λ v k. tt)

manager_close-Ends :
    (id : ℕ) (g : Bool) (m : Manager) → Ends Any (close_by depth manager_close id g m)
unfolding close_by
manager_close-Ends id g m =
    if-either (Ends Any) (contains id m.peers)
      (λ e. close_internal-Ends 0 id g (record m { peers = remove id m.peers })) (λ e. tt)

-- The fuel is enough for each of them.
pub close_by-Ends :
    (c : Closer) (id : ℕ) (g : Bool) (m : Manager) → Ends Any (close_by depth c id g m)
close_by-Ends peer_close id g m = peer_close-Ends 2 id g m
close_by-Ends transport_close id g m = transport_close-Ends 3 id g m
close_by-Ends manager_close id g m = manager_close-Ends id g m
close_by-Ends close_internal id g m = close_internal-Ends 1 id g m
