-- ===== src/ConnectionPool/Lifecycle.antt =====
-- evd/evd-connection-pool.c: the life of a pool, as the calls of the program and of the main loop in
-- any order.
use event_dance.Common.{ℕ, ◌≡◌, Bool, Option, List, [], ◌∷◌, ◌++◌}
use event_dance.ConnectionPool.{
  Pool, Effect, init, create_min_conns, connection_on_close, connection_on_tls_started,
  socket_on_connect, retry_timeout, get_connection, recycle, set_tls_autostart,
}

-- One call, with the requests that it brings.
pub data Step (p : Pool) : Pool × List Effect → List ℕ → Type 0 where
  constructs : {r : Pool × List Effect} → create_min_conns p ≡ r → Step p r []
  connects :
      {r : Pool × List Effect} (tls_active : Bool) (conn : Option ℕ)
      → socket_on_connect tls_active conn p ≡ r
      → Step p r []
  starts_tls :
      {r : Pool × List Effect} (started : Bool) (conn : ℕ)
      → connection_on_tls_started started conn p ≡ r
      → Step p r []
  closes : {r : Pool × List Effect} (conn : ℕ) → connection_on_close conn p ≡ r → Step p r []
  retries : {r : Pool × List Effect} → retry_timeout p ≡ r → Step p r []
  gets : {r : Pool × List Effect} (res : ℕ) → get_connection res p ≡ r → Step p r (res ∷ [])
  recycles :
      {r : Pool × List Effect} {added : Bool} (is_closed tls_active : Bool) (conn : ℕ)
      → recycle is_closed tls_active conn p ≡ (r, added)
      → Step p r []
  sets_tls :
      {r : Pool × List Effect} (autostart : Bool) → set_tls_autostart autostart p ≡ r → Step p r []

-- The pool after some calls, the requests that have come and what has been done.
pub data Reachable : Pool → List ℕ → List Effect → Type 0 where
  new : Reachable init [] []
  then_step :
      {p p' : Pool} {asked more all : List ℕ} {es fs both : List Effect}
      → Reachable p asked es
      → Step p (p', fs) more
      → all ≡ asked ++ more
      → both ≡ es ++ fs
      → Reachable p' all both
