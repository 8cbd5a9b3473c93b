-- ===== src/ConnectionPool.antt =====
-- evd/evd-connection-pool.c, with what it uses of evd/evd-io-stream-group.c and evd/evd-io-stream.c: the pool
-- of connections to one target. Connections and requests are numbers. Every operation returns the
-- pool and what it does outside, in order. A connection belongs to no group or to this pool's.
pub mod Lifecycle
pub mod Order
pub mod Supply
pub mod Faults
mod Tests
use event_dance.Common.{
  ℕ, zero, suc, ◌+◌, ◌-◌, leb, ltb, ◌==◌, Bool, true, false, not, ◌&&◌, if◌then◌else◌, Option, none,
  some, List, [], ◌∷◌, ◌++◌, length,
}

-- struct _EvdConnectionPoolPrivate. `retry` is retry_src_id != 0, `timers` the number of retry sources in the
-- main loop; `members` are the connections whose group is the pool, `watched` those whose "close" signal
-- is connected, `recursed` the flag of the group, and `starting_tls` the TLS handshakes under way.
pub record Pool : Type 0 where
  pub min_conns : ℕ
  pub max_conns : ℕ
  pub conns : List ℕ
  pub requests : List ℕ
  pub connecting_sockets : ℕ
  pub tls_autostart : Bool
  pub retry : Bool
  pub timers : ℕ
  pub members : List ℕ
  pub watched : List ℕ
  pub recursed : Bool
  pub starting_tls : List ℕ

pub data Effect : Type 0 where
  serve : ℕ → ℕ → Effect
  connect : Effect
  starttls : ℕ → Effect
  close_conn : ℕ → Effect

-- An operation behind others.
infixl 20 ◌then_do◌
abbrev pub ◌then_do◌ : Pool × List Effect → (Pool → Pool × List Effect) → Pool × List Effect
r then_do f = (let next = f r.0 in (next.0, r.1 ++ next.1))

abbrev pub contains : ℕ → List ℕ → Bool
contains c [] = false
contains c (x ∷ xs) = if c == x then true else contains c xs

-- g_queue_remove, which removes the first element that is equal.
abbrev pub remove : ℕ → List ℕ → List ℕ
remove c [] = []
remove c (x ∷ xs) = (let rest = remove c xs in if c == x then xs else x ∷ rest)

abbrev pub remove_all : ℕ → List ℕ → List ℕ
remove_all c [] = []
remove_all c (x ∷ xs) = (let rest = remove_all c xs in if c == x then rest else x ∷ rest)

-- TOTAL_SOCKETS
abbrev pub total_sockets : Pool → ℕ
total_sockets p = p.connecting_sockets + length p.conns

-- evd_connection_pool_init, before the first connections are created.
abbrev pub init : Pool
init = record {
  min_conns = 1;
  max_conns = 5;
  conns = [];
  requests = [];
  connecting_sockets = 0;
  tls_autostart = false;
  retry = false;
  timers = 0;
  members = [];
  watched = [];
  recursed = false;
  starting_tls = [];
}

unfoldable pub create_new_socket : Pool → Pool × List Effect
create_new_socket p = (record p { connecting_sockets = suc p.connecting_sockets }, connect ∷ [])

-- The loop of evd_connection_pool_create_min_conns; every round adds a socket, so min_conns rounds are enough.
unfoldable pub create_loop : ℕ → Pool → Pool × List Effect
create_loop zero p = (p, [])
create_loop (suc fuel) p =
    let next = create_new_socket p in
    let rest = create_loop fuel next.0 in
    if ltb (total_sockets p) p.min_conns then (rest.0, next.1 ++ rest.1) else (p, [])

unfoldable pub create_min_conns : Pool → Pool × List Effect
create_min_conns p = create_loop p.min_conns (record p { retry = false })

-- group_remove_stream
unfoldable pub group_remove_stream : Pool → ℕ → Pool
group_remove_stream p c =
    if contains c p.members
    then record p {
      members = remove_all c p.members;
      watched = remove_all c p.watched;
      conns = remove c p.conns;
    }
    else p

-- evd_io_stream_group_remove does nothing inside of another call of the group.
unfoldable pub group_remove : Pool → ℕ → Pool
group_remove p c = if p.recursed then p else group_remove_stream p c

unfoldable pub finish_request : ℕ → ℕ → Pool → Pool × List Effect
finish_request conn res p = (group_remove p conn, serve res conn ∷ [])

-- The two branches of connection_available.
unfoldable pub give_or_keep : List ℕ → ℕ → Pool → Pool × List Effect
give_or_keep [] conn p =
    (record p { watched = p.watched ++ (conn ∷ []); conns = p.conns ++ (conn ∷ []) }, [])
give_or_keep (res ∷ rest) conn p =
    finish_request conn res (record p { requests = rest }) then_do create_min_conns

unfoldable pub connection_available : ℕ → Pool → Pool × List Effect
connection_available conn p = give_or_keep p.requests conn p

unfoldable pub connection_starttls : ℕ → Pool → Pool × List Effect
connection_starttls conn p =
    (record p { starting_tls = p.starting_tls ++ (conn ∷ []) }, starttls conn ∷ [])

-- group_add_stream, with its result; `tls_active` is evd_connection_get_tls_active.
unfoldable pub group_add_stream : Bool → ℕ → Pool → (Pool × List Effect) × Bool
group_add_stream tls_active conn p =
    let added = record p { members = p.members ++ (conn ∷ []) } in
    if contains conn p.members then ((p, []), false) else (
      (if p.tls_autostart && not tls_active
          then connection_starttls conn added
          else connection_available conn added),
      true,
    )

abbrev pub leave_group : Pool × List Effect → Pool × List Effect
leave_group r = (record (r.0) { recursed = false }, r.1)

-- evd_io_stream_group_add
unfoldable pub group_add : Bool → ℕ → Pool → (Pool × List Effect) × Bool
group_add tls_active conn p =
    let r = group_add_stream tls_active conn (record p { recursed = true }) in
    if p.recursed then ((p, []), true) else (leave_group (r.0), r.1)

unfoldable pub connection_on_close : ℕ → Pool → Pool × List Effect
connection_on_close conn p = create_min_conns (group_remove p conn)

-- g_io_stream_close: the "close" signal, if it is connected, and the end of the membership, of which the pool does
-- not hear: evd_io_stream_set_group has cleared the group before it calls evd_io_stream_group_remove.
unfoldable pub close_connection : ℕ → Pool → Pool × List Effect
close_connection conn p =
    (if contains conn p.watched
      then (p, close_conn conn ∷ []) then_do connection_on_close conn
      else (p, close_conn conn ∷ []))
    then_do (λ q. (record q { members = remove_all conn q.members }, []))

-- `started` is what evd_connection_starttls_finish returns.
unfoldable pub connection_on_tls_started : Bool → ℕ → Pool → Pool × List Effect
connection_on_tls_started started conn p =
    let p' = record p { starting_tls = remove conn p.starting_tls } in
    if started then connection_available conn p' else close_connection conn p'

-- The connection, or none where evd_socket_connect_finish fails.
unfoldable pub socket_on_connect : Bool → Option ℕ → Pool → Pool × List Effect
socket_on_connect tls_active none p = (
  record p { connecting_sockets = p.connecting_sockets - 1; retry = true; timers = suc p.timers },
  [],
)
socket_on_connect tls_active (some conn) p =
    (group_add tls_active conn (record p {
      connecting_sockets = p.connecting_sockets - 1;
      retry = false;
      timers = if p.retry then p.timers - 1 else p.timers;
    })).0

-- A retry source runs and is gone.
unfoldable pub retry_timeout : Pool → Pool × List Effect
retry_timeout p = create_min_conns (record p { timers = p.timers - 1 })

unfoldable pub has_free_connections : Pool → Bool
has_free_connections p = ltb 0 (length p.conns)

-- The two branches of evd_connection_pool_get_connection.
unfoldable pub take_or_wait : List ℕ → ℕ → Pool → Pool × List Effect
take_or_wait [] res p = create_min_conns (record p { requests = p.requests ++ (res ∷ []) })
take_or_wait (conn ∷ rest) res p =
    finish_request conn res (record p { conns = rest }) then_do create_min_conns

unfoldable pub get_connection : ℕ → Pool → Pool × List Effect
get_connection res p = take_or_wait p.conns res p

unfoldable pub recycle : Bool → Bool → ℕ → Pool → (Pool × List Effect) × Bool
recycle is_closed tls_active conn p =
    if is_closed
    then ((p, []), false)
    else if leb p.max_conns (total_sockets p)
    then ((p, []), false)
    else group_add tls_active conn p

-- The connections of the queue, one after the other.
unfoldable pub starttls_all : List ℕ → Pool → Pool × List Effect
starttls_all [] p = (p, [])
starttls_all (conn ∷ rest) p = connection_starttls conn p then_do starttls_all rest

unfoldable pub set_tls_autostart : Bool → Pool → Pool × List Effect
set_tls_autostart autostart p =
    if autostart
    then starttls_all p.conns (record p { tls_autostart = true; conns = [] })
    else (record p { tls_autostart = false }, [])

-- evd_connection_pool_finalize
unfoldable pub finalize : Pool → Pool
finalize p = if p.retry then record p { retry = false; timers = p.timers - 1 } else p

abbrev is_empty : List ℕ → Bool
is_empty [] = true
is_empty (x ∷ xs) = false

-- The last g_object_unref of the program. Each socket that connects and each handshake holds a reference to the
-- pool, as the result of a request does that waits: finalize does not run before them.
unfoldable pub release : Pool → Option Pool
release p =
    if p.connecting_sockets == 0 && is_empty p.starting_tls && is_empty p.requests
    then some (finalize p)
    else none
