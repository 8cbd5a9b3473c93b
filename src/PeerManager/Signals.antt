-- ===== src/PeerManager/Signals.antt =====
-- evd/evd-peer-manager.c: the signal "peer-closed" of the manager, and the table.
use event_dance.Common.{
  if-either, ℕ, zero, suc, ◌+◌, ◌==◌, ◌≡◌, refl, ap, ◌∙◌, subst, inl, inr, Bool, true,
  if◌then◌else◌, none, some, List, [], ◌∷◌, ◌++◌, Bool-cases, arith,
}
use event_dance.PeerManager.{
  Manager, contains, remove, set_closed, set_closing, Event, manager_closed, transport_closed,
  iface_closed, transport_new, Outcome, and_events, ◌then_do◌, Closer, peer_close, transport_close,
  manager_close, close_internal, close_by,
}

abbrev pub hit : ℕ → ℕ → ℕ
hit id x = if id == x then 1 else 0

-- How often a peer is in a list.
abbrev pub occurrences : ℕ → List ℕ → ℕ
occurrences x [] = 0
occurrences x (id ∷ ids) = hit id x + occurrences x ids

-- The peers of which the manager says that they are closed, and of which the transport says that they are new.
abbrev pub closed_peers : List Event → List ℕ
closed_peers [] = []
closed_peers (manager_closed id g ∷ es) = id ∷ closed_peers es
closed_peers (transport_closed id g ∷ es) = closed_peers es
closed_peers (iface_closed id g ∷ es) = closed_peers es
closed_peers (transport_new id ∷ es) = closed_peers es

abbrev pub new_peers : List Event → List ℕ
new_peers [] = []
new_peers (manager_closed id g ∷ es) = new_peers es
new_peers (transport_closed id g ∷ es) = new_peers es
new_peers (iface_closed id g ∷ es) = new_peers es
new_peers (transport_new id ∷ es) = id ∷ new_peers es

-- A call that, from `before` peers of one id in the table and `owed` that have been taken out of it already, keeps
-- the account.
abbrev pub Keeps : ℕ → ℕ → Outcome → Type 0
Keeps x before none = Unit
Keeps x before (some (m, es)) =
    occurrences x (closed_peers es) + occurrences x m.peers ≡ before + occurrences x (new_peers es)

pub occurrences-append :
    (x : ℕ) (es fs : List ℕ) → occurrences x (es ++ fs) ≡ occurrences x es + occurrences x fs
occurrences-append x [] fs = omega arith
occurrences-append x (e ∷ es) fs = (let ih = occurrences-append x es fs in omega arith)

closed_peers-append :
    (es fs : List Event) → closed_peers (es ++ fs) ≡ closed_peers es ++ closed_peers fs
closed_peers-append [] fs = refl
closed_peers-append (manager_closed id g ∷ es) fs = ap (◌∷◌ id) (closed_peers-append es fs)
closed_peers-append (transport_closed id g ∷ es) fs = closed_peers-append es fs
closed_peers-append (iface_closed id g ∷ es) fs = closed_peers-append es fs
closed_peers-append (transport_new id ∷ es) fs = closed_peers-append es fs

new_peers-append : (es fs : List Event) → new_peers (es ++ fs) ≡ new_peers es ++ new_peers fs
new_peers-append [] fs = refl
new_peers-append (manager_closed id g ∷ es) fs = new_peers-append es fs
new_peers-append (transport_closed id g ∷ es) fs = new_peers-append es fs
new_peers-append (iface_closed id g ∷ es) fs = new_peers-append es fs
new_peers-append (transport_new id ∷ es) fs = ap (◌∷◌ id) (new_peers-append es fs)

closed_count :
    (x : ℕ) (es fs : List Event)
    → occurrences x (closed_peers (es ++ fs))
      ≡ occurrences x (closed_peers es) + occurrences x (closed_peers fs)
closed_count x es fs =
    ap (occurrences x) (closed_peers-append es fs)
    ∙ occurrences-append x (closed_peers es) (closed_peers fs)

new_count :
    (x : ℕ) (es fs : List Event)
    → occurrences x (new_peers (es ++ fs))
      ≡ occurrences x (new_peers es) + occurrences x (new_peers fs)
new_count x es fs =
    ap (occurrences x) (new_peers-append es fs) ∙ occurrences-append x (new_peers es) (new_peers fs)

and_events-Keeps :
    (x before : ℕ) (m : Manager) (es : List Event) (owed : ℕ) (o : Outcome)
    → occurrences x (closed_peers es) + occurrences x m.peers
      ≡ before + occurrences x (new_peers es)
    → Keeps x (occurrences x m.peers + owed) o
    → Keeps x (before + owed) (and_events es o)
and_events-Keeps x before m es owed none h k = tt
and_events-Keeps x before m es owed (some (v, more)) h k =
    let c = closed_count x es more in let n = new_count x es more in omega arith

pub then_do-Keeps :
    (x before owed total : ℕ) (o : Outcome) (f : Manager → Outcome)
    → before + owed ≡ total
    → Keeps x before o
    → ((m : Manager) → Keeps x (occurrences x m.peers + owed) (f m))
    → Keeps x total (o then_do f)
then_do-Keeps x before owed total none f s h k = tt
then_do-Keeps x before owed total (some (m, es)) f s h k =
    subst (λ t. Keeps x t (and_events es (f m))) s
      (and_events-Keeps x before m es owed (f m) h (k m))

-- The signal for a new peer stands for the one that has been put into the table.
pub announced-Keeps :
    (x id before : ℕ) (o : Outcome)
    → Keeps x (before + hit id x) o
    → Keeps x before (o then_do (λ v. some (v, transport_new id ∷ [])))
announced-Keeps x id before none h = tt
announced-Keeps x id before (some (m, es)) h =
    let c = closed_count x es (transport_new id ∷ []) in
    let n = new_count x es (transport_new id ∷ []) in omega arith

pub occurrences-remove :
    (x id : ℕ) (ids : List ℕ)
    → contains id ids ≡ true
    → occurrences x (remove id ids) + hit id x ≡ occurrences x ids
occurrences-remove x id [] h = ground arith
occurrences-remove x id (a ∷ ids) h = elim (Bool-cases (id == a)) [
  | inl e ↦
      (let found : id ≡ a = ground arith in
        let same : hit id x ≡ hit a x = ap (λ v. hit v x) found in rw e (omega arith))
  | inr e ↦
      (let ih : occurrences x (remove id ids) + hit id x ≡ occurrences x ids =
          occurrences-remove x id ids (ground arith) in
        rw e (omega arith))
]

-- What a call of each of the closing functions owes.
abbrev pub owed_by : Closer → ℕ → ℕ → ℕ
owed_by peer_close id x = 0
owed_by transport_close id x = 0
owed_by manager_close id x = 0
owed_by close_internal id x = hit id x

pub close_by-Keeps :
    (n : ℕ) (c : Closer) (id : ℕ) (g : Bool) (m : Manager) (x : ℕ)
    → Keeps x (occurrences x m.peers + owed_by c id x) (close_by n c id g m)
unfolding close_by
close_by-Keeps zero c id g m x = tt
close_by-Keeps (suc n) peer_close id g m x =
    if-either (Keeps x (occurrences x m.peers + 0)) (m.peer id).closed (λ e. omega arith)
      (λ e. close_by-Keeps n transport_close id g (set_closed id m) x)
close_by-Keeps (suc n) transport_close id g m x =
    let before = occurrences x m.peers + 0 in
    let started = set_closing true id m in
    if-either (Keeps x before) (m.peer id).closing (λ e. omega arith)
      (λ e.
        then_do-Keeps x before 0 before _ _ (omega arith)
          (then_do-Keeps x before 0 before (close_by n manager_close id g started) _ (omega arith)
            (close_by-Keeps n manager_close id g started x)
            (λ v. close_by-Keeps n peer_close id g v x))
          (λ v. omega arith))
close_by-Keeps (suc n) manager_close id g m x =
    let removed = record m { peers = remove id m.peers } in
    if-either (Keeps x (occurrences x m.peers + 0)) (contains id m.peers)
      (λ e.
        let same : occurrences x removed.peers + hit id x ≡ occurrences x m.peers + 0 =
          (let taken = occurrences-remove x id m.peers e in omega arith) in
        subst (λ k. Keeps x k (close_by n close_internal id g removed)) same
          (close_by-Keeps n close_internal id g removed x))
      (λ e. omega arith)
close_by-Keeps (suc n) close_internal id g m x =
    let total = occurrences x m.peers + hit id x in
    then_do-Keeps x (occurrences x m.peers + 0) (hit id x) total (close_by n peer_close id g m) _
      (omega arith) (close_by-Keeps n peer_close id g m x) (λ v. omega arith)
