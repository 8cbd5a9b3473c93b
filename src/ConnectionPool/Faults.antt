-- ===== src/ConnectionPool/Faults.antt =====
-- evd/evd-connection-pool.c: what the pool does not handle.
use event_dance.Common.{
  ℕ, zero, suc, ◌-◌, leb, ltb, ◌==◌, ==_iff, ◌≡◌, refl, ap, ◌∙◌, inl, inr, Bool, true, false,
  Bool-cases, not, ◌&&◌, if◌then◌else◌, Option, some, none, List, [], ◌∷◌, ◌++◌,
}
use event_dance.ConnectionPool.{
  Pool, contains, total_sockets, remove_all, create_new_socket, create_loop, create_min_conns,
  group_remove_stream, group_remove, finish_request, give_or_keep, connection_available,
  connection_starttls, group_add_stream, group_add, close_connection, connection_on_tls_started,
  socket_on_connect, get_connection, take_or_wait, recycle, finalize, release,
}

create_loop-rest :
    (n : ℕ) (p : Pool)
    → let q = (create_loop n p).0 in
      (q.members ≡ p.members)
      × (q.recursed ≡ p.recursed)
      × (q.retry ≡ p.retry)
      × (q.timers ≡ p.timers)
unfolding create_loop create_new_socket
create_loop-rest zero p = (refl, refl, refl, refl)
create_loop-rest (suc n) p = elim (Bool-cases (ltb (total_sockets p) p.min_conns)) [
  | inl e ↦ rw e (create_loop-rest n (create_new_socket p).0)
  | inr e ↦ rw e (refl, refl, refl, refl)
]

create_min_conns-rest :
    (p : Pool)
    → let q = (create_min_conns p).0 in
      (q.members ≡ p.members)
      × (q.recursed ≡ p.recursed)
      × (q.retry ≡ false)
      × (q.timers ≡ p.timers)
unfolding create_min_conns
create_min_conns-rest p = create_loop-rest p.min_conns (record p { retry = false })

contains-last : (c : ℕ) (xs : List ℕ) → contains c (xs ++ (c ∷ [])) ≡ true
contains-last c [] = rw ((==_iff c c).1 refl) refl
contains-last c (x ∷ xs) = rw (contains-last c xs) (same (c == x))
  where
    same : (b : Bool) → (if b then true else true) ≡ true
    same true = refl
    same false = refl

-- A connection in the pool's group cannot be recycled.
recycle-member :
    (is_closed tls_active : Bool) (conn : ℕ) (p : Pool)
    → contains conn p.members ≡ true
    → p.recursed ≡ false
    → (recycle is_closed tls_active conn p).1 ≡ false
unfolding recycle group_add group_add_stream
recycle-member true tls_active conn p m r = refl
recycle-member false tls_active conn p m r = elim (Bool-cases (leb p.max_conns (total_sockets p))) [
  | inl e ↦ rw e refl
  | inr e ↦ rw (e, r, m) refl
]

-- A connection that is made while a request waits is given to the request inside of the call that adds it to the
-- group, where the group's removal does nothing: it stays in the group, and recycle
-- refuses it later, closed or not. The pool starts no TLS, or TLS is active.
pub recycle-served :
    (p : Pool) (res conn : ℕ) (rest : List ℕ) (tls_active is_closed tls_active' : Bool)
    → p.requests ≡ res ∷ rest
    → p.recursed ≡ false
    → contains conn p.members ≡ false
    → (p.tls_autostart && not tls_active) ≡ false
    → (recycle is_closed tls_active' conn (socket_on_connect tls_active (some conn) p).0).1 ≡ false
unfolding socket_on_connect group_add group_add_stream connection_available give_or_keep
    finish_request group_remove
recycle-served p res conn rest tls_active is_closed tls_active' q r m t =
    let served = record p {
      requests = rest;
      connecting_sockets = p.connecting_sockets - 1;
      retry = false;
      timers = if p.retry then p.timers - 1 else p.timers;
      members = p.members ++ (conn ∷ []);
      recursed = true;
    } in
    rw (r, m, t, q)
      (recycle-member is_closed tls_active' conn
        (record ((create_min_conns served).0) { recursed = false })
        (ap (contains conn) (create_min_conns-rest served).0 ∙ contains-last conn p.members) refl)

remove_all-gone : (c : ℕ) (xs : List ℕ) → contains c (remove_all c xs) ≡ false
remove_all-gone c [] = refl
remove_all-gone c (x ∷ xs) = elim (Bool-cases (c == x)) [
  | inl e ↦ rw e (remove_all-gone c xs)
  | inr e ↦ rw (e, e) (remove_all-gone c xs)
]

taken_member :
    (p : Pool) (res conn : ℕ) (rest : List ℕ)
    → p.conns ≡ conn ∷ rest
    → contains conn p.members ≡ true
    → p.recursed ≡ false
    → ((get_connection res p).0.recursed ≡ false)
      × (contains conn (get_connection res p).0.members ≡ false)
unfolding get_connection take_or_wait finish_request group_remove group_remove_stream
taken_member p res conn rest c m r =
    let q = group_remove (record p { conns = rest }) conn in
    (
      ap (λ cs. (take_or_wait cs res p).0.recursed) c
          ∙ (create_min_conns-rest q).1
          ∙ rw (r, m) refl,
      ap (λ cs. contains conn (take_or_wait cs res p).0.members) c
          ∙ ap (contains conn) (create_min_conns-rest q).0
          ∙ rw (r, m) (remove_all-gone conn p.members),
    )

-- A free connection that a request takes can be recycled while there are fewer than max_conns connections, as
-- long as it is open: it leaves the group when it is taken.
pub recycle-get_connection :
    (p : Pool) (res conn : ℕ) (rest : List ℕ) (tls_active : Bool)
    → p.conns ≡ conn ∷ rest
    → contains conn p.members ≡ true
    → p.recursed ≡ false
    → let q = (get_connection res p).0 in
      leb q.max_conns (total_sockets q) ≡ false → (recycle false tls_active conn q).1 ≡ true
unfolding recycle group_add group_add_stream
recycle-get_connection p res conn rest tls_active c m r few =
    let (here, gone) = taken_member p res conn rest c m r in rw (few, here, gone) refl

no_timer : (b : Bool) → ◌≡◌ {A = ℕ} (if b then 0 else 0) 0
no_timer true = refl
no_timer false = refl

-- With TLS, a failed handshake leaves the requests without a connection: nothing connects, no handshake and no retry is under
-- way, so that nothing is done for them before the next call of the program. The connection
-- was the only one, no retry was due and it is new to the pool.
pub tls_failure-stuck :
    (p : Pool) (conn : ℕ)
    → p.tls_autostart ≡ true
    → p.conns ≡ []
    → p.connecting_sockets ≡ 1
    → p.timers ≡ 0
    → p.starting_tls ≡ []
    → p.recursed ≡ false
    → contains conn p.members ≡ false
    → contains conn p.watched ≡ false
    → let q = (connection_on_tls_started false conn (socket_on_connect false (some conn) p).0).0 in
      (q.requests ≡ p.requests)
      × (q.conns ≡ [])
      × (q.connecting_sockets ≡ 0)
      × (q.timers ≡ 0)
      × (q.starting_tls ≡ [])
unfolding connection_on_tls_started socket_on_connect group_add group_add_stream connection_starttls
    close_connection group_remove group_remove_stream
tls_failure-stuck p conn tls c k t s r m w =
    rw (tls, c, k, t, s, r, m, w, (==_iff conn conn).1 refl)
      (refl, refl, refl, no_timer p.retry, refl)

-- The retry sources that are left in the main loop where the pool is gone.
abbrev pub sources_left : Option Pool → Option ℕ
sources_left none = none
sources_left (some p) = some p.timers

-- A pool, with whatever past, that makes its one connection, where no request waits and TLS is not asked for.
abbrev pub only_connecting : Pool → Pool
only_connecting p = record p {
  min_conns = 1;
  conns = [];
  requests = [];
  connecting_sockets = 1;
  tls_autostart = false;
  starting_tls = [];
  recursed = false;
}

-- A request that comes while a retry is due forgets the retry's source. The socket that it makes connects and serves
-- it, the next one connects too, and nothing but the program holds the pool any more: when the program gives its
-- last reference back, finalize runs and leaves the source in the main loop, beside those that the pool's past has
-- left, with the freed pool as its user data. The pool makes its one connection before, which fails; no request
-- waits and no TLS is asked for; the two connections are new to the pool and are not the same.
pub finalize-forgotten :
    (p : Pool) (res first second : ℕ) (tls_active : Bool)
    → contains first p.members ≡ false
    → contains second (p.members ++ (first ∷ [])) ≡ false
    → let failed = (socket_on_connect tls_active none (only_connecting p)).0 in
      let waiting = (get_connection res failed).0 in
      let served = (socket_on_connect tls_active (some first) waiting).0 in
      let full = (socket_on_connect tls_active (some second) served).0 in
      (full.conns ≡ second ∷ []) × (sources_left (release full) ≡ some (suc p.timers))
unfolding socket_on_connect get_connection take_or_wait group_add group_add_stream
    connection_available give_or_keep finish_request group_remove create_min_conns create_loop
    create_new_socket release finalize
finalize-forgotten p res first second tls_active m m' = rw (m, m') (refl, refl)
