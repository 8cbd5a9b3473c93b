-- ===== src/ConnectionPool/Supply.antt =====
-- evd/evd-connection-pool.c: how many connections there are or are being made.
use event_dance.Common.{
  ℕ, zero, suc, ◌+◌, ◌-◌, ◌≤◌, max, ltb, ltb→lt, ◌≡◌, refl, inl, inr, false, Bool-cases, List, [],
  ◌∷◌, ◌++◌, arith,
}
use event_dance.ConnectionPool.{
  Pool, total_sockets, create_new_socket, create_loop, create_min_conns, group_remove_stream,
  group_remove, contains, finish_request, take_or_wait, get_connection, connection_on_close,
  retry_timeout,
}

record Supplied (p : Pool) (n : ℕ) (q : Pool) : Type 0 where
  total : total_sockets q ≡ n
  same_min : q.min_conns ≡ p.min_conns
  same_conns : q.conns ≡ p.conns

not_less : (a b : ℕ) → ltb a b ≡ false → b ≤ a
not_less a b e = ground arith

create_loop-Supplied :
    (n : ℕ) (p : Pool)
    → p.min_conns ≤ total_sockets p + n
    → Supplied p (max (total_sockets p) p.min_conns) (create_loop n p).0
unfolding create_loop create_new_socket
create_loop-Supplied zero p h = record { total = omega arith; same_min = refl; same_conns = refl }
create_loop-Supplied (suc n) p h = elim (Bool-cases (ltb (total_sockets p) p.min_conns)) [
  | inl e ↦
      let s = create_loop-Supplied n (create_new_socket p).0 (omega arith) in
      rw e (record {
        total = omega (arith, s.total, ltb→lt _ _ e);
        same_min = s.same_min;
        same_conns = s.same_conns;
      })
  | inr e ↦
      rw e (record { total = omega (arith, not_less _ _ e); same_min = refl; same_conns = refl })
]

create_min_conns-Supplied :
    (p : Pool) → Supplied p (max (total_sockets p) p.min_conns) (create_min_conns p).0
unfolding create_min_conns
create_min_conns-Supplied p =
    let s = create_loop-Supplied p.min_conns (record p { retry = false }) (omega arith) in
    record { total = s.total; same_min = s.same_min; same_conns = s.same_conns }

group_remove-min : (p : Pool) (c : ℕ) → (group_remove p c).min_conns ≡ p.min_conns
unfolding group_remove group_remove_stream
group_remove-min p c = elim (Bool-cases p.recursed) [
  | inl e ↦ rw e refl
  | inr e ↦ elim (Bool-cases (contains c p.members)) [
    | inl f ↦ rw (e, f) refl
    | inr f ↦ rw (e, f) refl
  ]
]

-- After evd_connection_pool_get_connection, after connection_on_close, which is the handler of the "close" signal,
-- and after a retry source has run there are at least min_conns connections, the ones that are being made included,
-- whatever the pool is like before. Nothing is said of the end of a connection whose signal is not connected, such
-- as one whose TLS handshake fails.
pub min_conns-supplied :
    (p : Pool) (res conn : ℕ)
    → (p.min_conns ≤ total_sockets (get_connection res p).0)
      × (p.min_conns ≤ total_sockets (connection_on_close conn p).0)
      × (p.min_conns ≤ total_sockets (retry_timeout p).0)
unfolding get_connection connection_on_close retry_timeout
min_conns-supplied p res conn = (
  by_conns p.conns,
  omega (arith, (create_min_conns-Supplied (group_remove p conn)).total, group_remove-min p conn),
  omega (arith, (create_min_conns-Supplied (record p { timers = p.timers - 1 })).total),
)
  where
    by_conns : (cs : List ℕ) → p.min_conns ≤ total_sockets (take_or_wait cs res p).0
    by_conns [] =
        unfold take_or_wait in
        omega (
          arith,
          (create_min_conns-Supplied (record p { requests = p.requests ++ (res ∷ []) })).total,
        )
    by_conns (c ∷ cs) =
        unfold take_or_wait finish_request in
        omega (
          arith,
          (create_min_conns-Supplied (group_remove (record p { conns = cs }) c)).total,
          group_remove-min (record p { conns = cs }) c,
        )

-- create_min_conns makes no more connections than are wanting.
pub create_min_conns-total :
    (p : Pool) → total_sockets (create_min_conns p).0 ≡ max (total_sockets p) p.min_conns
create_min_conns-total p = (create_min_conns-Supplied p).total
