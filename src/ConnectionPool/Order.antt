-- ===== src/ConnectionPool/Order.antt =====
-- evd/evd-connection-pool.c: the order in which requests are served.
pub mod Steps
use event_dance.Common.{
  ℕ, zero, suc, ◌+◌, ◌-◌, leb, ltb, ◌==◌, ◌≡◌, refl, sym, ap, ap₂, ◌∙◌, subst, ◌⊎◌, inl, inr, Bool,
  true, false, Bool-cases, not, ◌&&◌, if◌then◌else◌, Option, none, some, List, [], ◌∷◌, ◌++◌,
  append-nil, append_assoc, length, arith,
}
use event_dance.ConnectionPool.{
  Pool, Effect, serve, connect, starttls, close_conn, init, contains, remove, total_sockets,
  create_new_socket, create_loop, create_min_conns, group_remove_stream, group_remove,
  finish_request, give_or_keep, connection_available, connection_starttls, group_add_stream,
  group_add, connection_on_close, close_connection, connection_on_tls_started, socket_on_connect,
  retry_timeout, take_or_wait, get_connection, recycle, starttls_all, set_tls_autostart,
}

-- The requests that are served, in order.
abbrev pub served : List Effect → List ℕ
served [] = []
served (serve res conn ∷ es) = res ∷ served es
served (e ∷ es) = served es

pub served-append : (es fs : List Effect) → served (es ++ fs) ≡ served es ++ served fs
served-append [] fs = refl
served-append (serve res conn ∷ es) fs = ap (◌∷◌ res) (served-append es fs)
served-append (connect ∷ es) fs = served-append es fs
served-append (starttls c ∷ es) fs = served-append es fs
served-append (close_conn c ∷ es) fs = served-append es fs

-- A request waits only while no connection is free.
abbrev pub Apart : Pool → Type 0
Apart p = (p.conns ≡ []) ⊎ (p.requests ≡ [])

-- What an operation does to the requests, where `new` have come.
pub record Fair (p : Pool) (r : Pool × List Effect) (new : List ℕ) : Type 0 where
  pub order : served r.1 ++ (r.0).requests ≡ p.requests ++ new
  pub apart : Apart (r.0)

-- An operation that touches neither requests nor free connections.
pub record Still (p : Pool) (r : Pool × List Effect) : Type 0 where
  pub no_request : served r.1 ≡ []
  pub same_requests : (r.0).requests ≡ p.requests
  pub same_conns : (r.0).conns ≡ p.conns

create_loop-Still : (n : ℕ) (p : Pool) → Still p (create_loop n p)
unfolding create_loop create_new_socket
create_loop-Still zero p = record { no_request = refl; same_requests = refl; same_conns = refl }
create_loop-Still (suc n) p = elim (Bool-cases (ltb (total_sockets p) p.min_conns)) [
  | inl e ↦
      let s = create_loop-Still n (create_new_socket p).0 in
      rw e (record {
        no_request = s.no_request;
        same_requests = s.same_requests;
        same_conns = s.same_conns;
      })
  | inr e ↦ rw e (record { no_request = refl; same_requests = refl; same_conns = refl })
]

pub create_min_conns-Still : (p : Pool) → Still p (create_min_conns p)
unfolding create_min_conns
create_min_conns-Still p =
    let s = create_loop-Still p.min_conns (record p { retry = false }) in
    record { no_request = s.no_request; same_requests = s.same_requests; same_conns = s.same_conns }

pub group_remove-requests : (p : Pool) (c : ℕ) → (group_remove p c).requests ≡ p.requests
unfolding group_remove group_remove_stream
group_remove-requests p c = elim (Bool-cases p.recursed) [
  | inl e ↦ rw e refl
  | inr e ↦ elim (Bool-cases (contains c p.members)) [
    | inl f ↦ rw (e, f) refl
    | inr f ↦ rw (e, f) refl
  ]
]

pub group_remove-conns : (p : Pool) (c : ℕ) → p.conns ≡ [] → (group_remove p c).conns ≡ []
unfolding group_remove group_remove_stream
group_remove-conns p c h = elim (Bool-cases p.recursed) [
  | inl e ↦ rw e h
  | inr e ↦ elim (Bool-cases (contains c p.members)) [
    | inl f ↦ rw (e, f) (ap (remove c) h)
    | inr f ↦ rw (e, f) h
  ]
]

pub group_remove-Apart : (p : Pool) (c : ℕ) → Apart p → Apart (group_remove p c)
group_remove-Apart p c (inl h) = inl (group_remove-conns p c h)
group_remove-Apart p c (inr h) = inr (group_remove-requests p c ∙ h)

-- New sockets behind an operation.
pub then_create :
    (p q : Pool) (es : List Effect) (new : List ℕ)
    → Fair p (q, es) new
    → Fair p (let next = create_min_conns q in (next.0, es ++ next.1)) new
then_create p q es new f =
    let s = create_min_conns-Still q in
    record {
      order =
          ap₂ ◌++◌
            (served-append es (create_min_conns q).1
              ∙ ap (λ l. served es ++ l) s.no_request
              ∙ append-nil (served es))
            s.same_requests
          ∙ f.order;
      apart = still_apart f.apart;
    }
  where
    still_apart : Apart q → Apart (create_min_conns q).0
    still_apart (inl h) = inl ((create_min_conns-Still q).same_conns ∙ h)
    still_apart (inr h) = inr ((create_min_conns-Still q).same_requests ∙ h)

no_conns : (p : Pool) (res : ℕ) (rest : List ℕ) → Apart p → p.requests ≡ res ∷ rest → p.conns ≡ []
no_conns p res rest (inl h) e = h
no_conns p res rest (inr h) e = absurd (omega (arith, ap length h, ap length e))

pub connection_available-Fair :
    (conn : ℕ) (p : Pool) → Apart p → Fair p (connection_available conn p) []
unfolding connection_available
connection_available-Fair conn p a = by_requests p.requests refl
  where
    by_requests : (reqs : List ℕ) → p.requests ≡ reqs → Fair p (give_or_keep reqs conn p) []
    by_requests [] e =
        unfold give_or_keep in record { order = sym (append-nil p.requests); apart = inr e }
    by_requests (res ∷ rest) e =
        unfold give_or_keep finish_request in
        then_create p (group_remove (record p { requests = rest }) conn) (serve res conn ∷ []) []
          (record {
            order =
                ap (λ l. res ∷ l) (group_remove-requests (record p { requests = rest }) conn)
                ∙ sym e
                ∙ sym (append-nil p.requests);
            apart =
                inl (
                  group_remove-conns (record p { requests = rest }) conn (no_conns p res rest a e));
          })
