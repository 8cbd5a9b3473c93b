-- ===== src/ConnectionPool/Tests.antt =====
-- Runs of the connection pool (evd/evd-connection-pool.c) and instances of its theorems.
use event_dance.Common.{◌≤◌, ◌≡◌, refl, true, false, none, some, [], ◌∷◌, ◌++◌}
use event_dance.ConnectionPool.{
  Pool, serve, connect, init, total_sockets, create_min_conns, create_loop, create_new_socket,
  socket_on_connect, group_add, group_add_stream, connection_available, give_or_keep,
  finish_request, group_remove, group_remove_stream, get_connection, take_or_wait, recycle,
  connection_on_close, connection_on_tls_started, retry_timeout, release,
}
use event_dance.ConnectionPool.Lifecycle.{Reachable, new, then_step, constructs, gets, connects}
use event_dance.ConnectionPool.Order.{served, Apart}
use event_dance.ConnectionPool.Order.Steps.{requests_in_order}
use event_dance.ConnectionPool.Supply.{min_conns-supplied}
use event_dance.ConnectionPool.Faults.{
  recycle-served, recycle-get_connection, tls_failure-stuck, sources_left, finalize-forgotten,
}

-- The pool when it has been constructed: one connection is being made.
abbrev constructed : Pool
constructed = record init { connecting_sockets = 1 }

construct : create_min_conns init ≡ (constructed, connect ∷ [])
unfolding create_min_conns create_loop create_new_socket
construct = refl

-- Requests 7 and 8 wait.
abbrev waiting : Pool
waiting = record constructed { requests = 7 ∷ 8 ∷ [] }

-- Connection 3 comes: request 7 gets it, and a new one is made for request 8.
connect_served :
    socket_on_connect false (some 3) waiting
    ≡ (record waiting { requests = 8 ∷ []; members = 3 ∷ [] }, serve 7 3 ∷ connect ∷ [])
unfolding socket_on_connect group_add group_add_stream connection_available give_or_keep
    finish_request group_remove create_min_conns create_loop create_new_socket
connect_served = refl

two_requests : Reachable waiting (7 ∷ 8 ∷ []) (connect ∷ [])
unfolding get_connection take_or_wait create_min_conns create_loop create_new_socket
two_requests =
    then_step (then_step (then_step new (constructs refl) refl refl) (gets 7 refl) refl refl)
      (gets 8 refl) refl refl

one_served :
    Reachable
      (record waiting { requests = 8 ∷ []; members = 3 ∷ [] })
      (7 ∷ 8 ∷ [])
      (connect ∷ serve 7 3 ∷ connect ∷ [])
one_served = then_step two_requests (connects false (some 3) connect_served) refl refl

requests_in_order_example :
    (served (connect ∷ serve 7 3 ∷ connect ∷ []) ++ (8 ∷ []) ≡ 7 ∷ 8 ∷ [])
    × Apart (record waiting { requests = 8 ∷ []; members = 3 ∷ [] })
requests_in_order_example =
    requests_in_order (record waiting { requests = 8 ∷ []; members = 3 ∷ [] }) (7 ∷ 8 ∷ [])
      (connect ∷ serve 7 3 ∷ connect ∷ []) one_served

-- Connection 3 is free.
abbrev free : Pool
free = record init { conns = 3 ∷ []; members = 3 ∷ []; watched = 3 ∷ [] }

min_conns-supplied_example :
    (1 ≤ total_sockets (get_connection 7 free).0)
    × (1 ≤ total_sockets (connection_on_close 3 free).0)
    × (1 ≤ total_sockets (retry_timeout free).0)
min_conns-supplied_example = min_conns-supplied free 7 3

recycle-get_connection_example : (recycle false false 3 (get_connection 7 free).0).1 ≡ true
unfolding get_connection take_or_wait finish_request group_remove group_remove_stream
    create_min_conns create_loop create_new_socket
recycle-get_connection_example = recycle-get_connection free 7 3 [] false refl refl refl refl

recycle-served_example :
    (recycle false false 3 (socket_on_connect false (some 3) waiting).0).1 ≡ false
recycle-served_example = recycle-served waiting 7 3 (8 ∷ []) false false false refl refl refl refl

-- The same with TLS.
abbrev with_tls : Pool
with_tls = record waiting { tls_autostart = true }

tls_failure-stuck_example :
    let q = (connection_on_tls_started false 3 (socket_on_connect false (some 3) with_tls).0).0 in
    (q.requests ≡ 7 ∷ 8 ∷ [])
    × (q.conns ≡ [])
    × (q.connecting_sockets ≡ 0)
    × (q.timers ≡ 0)
    × (q.starting_tls ≡ [])
tls_failure-stuck_example = tls_failure-stuck with_tls 3 refl refl refl refl refl refl refl refl

finalize-forgotten_example :
    let asked = (get_connection 7 (socket_on_connect false none constructed).0).0 in
    let served = (socket_on_connect false (some 3) asked).0 in
    let full = (socket_on_connect false (some 4) served).0 in
    (full.conns ≡ 4 ∷ []) × (sources_left (release full) ≡ some 1)
finalize-forgotten_example = finalize-forgotten constructed 7 3 4 false refl refl

-- While the socket of the second connection connects, the pool is held.
held :
    release
      (socket_on_connect false
        (some 3)
        (get_connection 7 (socket_on_connect false none constructed).0).0).0
    ≡ none
unfolding socket_on_connect get_connection take_or_wait group_add group_add_stream
    connection_available give_or_keep finish_request group_remove create_min_conns create_loop
    create_new_socket release
held = refl
