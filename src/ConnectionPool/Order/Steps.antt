-- ===== src/ConnectionPool/Order/Steps.antt =====
-- evd/evd-connection-pool.c: every call keeps the order of requests.
use event_dance.Common.{
  ℕ, ◌-◌, leb, ◌≡◌, refl, sym, ap, ap₂, ◌∙◌, subst, inl, inr, Bool, true, false, Bool-cases, not,
  ◌&&◌, if◌then◌else◌, Option, none, some, List, [], ◌∷◌, ◌++◌, append-nil, append_assoc, length,
  arith,
}
use event_dance.ConnectionPool.{
  Pool, Effect, serve, contains, remove, total_sockets, create_min_conns, group_remove,
  finish_request, connection_starttls, group_add_stream, group_add, connection_on_close,
  close_connection, connection_on_tls_started, socket_on_connect, retry_timeout, take_or_wait,
  get_connection, recycle, starttls_all, set_tls_autostart,
}
use event_dance.ConnectionPool.Lifecycle.{
  Step, constructs, connects, starts_tls, closes, retries, gets, recycles, sets_tls, Reachable, new,
  then_step,
}
use event_dance.ConnectionPool.Order.{
  served, served-append, Apart, Fair, Still, group_remove-requests, group_remove-Apart, then_create,
  connection_available-Fair,
}

nothing_Fair : (p : Pool) → Apart p → Fair p (p, []) []
nothing_Fair p a = record { order = sym (append-nil p.requests); apart = a }

create-Fair : (p : Pool) → Apart p → Fair p (create_min_conns p) []
create-Fair p a = then_create p p [] [] (nothing_Fair p a)

connection_starttls-Fair : (conn : ℕ) (p : Pool) → Apart p → Fair p (connection_starttls conn p) []
unfolding connection_starttls
connection_starttls-Fair conn p a = record { order = sym (append-nil p.requests); apart = a }

group_add-Fair :
    (tls_active : Bool) (conn : ℕ) (p : Pool) → Apart p → Fair p (group_add tls_active conn p).0 []
unfolding group_add group_add_stream
group_add-Fair tls_active conn p a = elim (Bool-cases p.recursed) [
  | inl e ↦ rw e (record { order = sym (append-nil p.requests); apart = a })
  | inr e ↦ elim (Bool-cases (contains conn p.members)) [
    | inl f ↦ rw (e, f) (record { order = sym (append-nil p.requests); apart = a })
    | inr f ↦
        let q = record p { members = p.members ++ (conn ∷ []); recursed = true } in
        elim (Bool-cases (p.tls_autostart && not tls_active)) [
          | inl g ↦
              let w = connection_starttls-Fair conn q a in
              rw (e, f, g) (record { order = w.order; apart = w.apart })
          | inr g ↦
              let w = connection_available-Fair conn q a in
              rw (e, f, g) (record { order = w.order; apart = w.apart })
        ]
  ]
]

connection_on_close-Fair : (conn : ℕ) (p : Pool) → Apart p → Fair p (connection_on_close conn p) []
unfolding connection_on_close
connection_on_close-Fair conn p a = then_create p (group_remove p conn) [] [] (record {
  order = group_remove-requests p conn ∙ sym (append-nil p.requests);
  apart = group_remove-Apart p conn a;
})

close_connection-Fair : (conn : ℕ) (p : Pool) → Apart p → Fair p (close_connection conn p) []
unfolding close_connection
close_connection-Fair conn p a = elim (Bool-cases (contains conn p.watched)) [
  | inl e ↦
      let w = connection_on_close-Fair conn p a in
      let es = (connection_on_close conn p).1 in
      rw e (record {
        order =
            ap (λ l. served l ++ (connection_on_close conn p).0.requests) (append-nil es) ∙ w.order;
        apart = w.apart;
      })
  | inr e ↦ rw e (record { order = sym (append-nil p.requests); apart = a })
]

connection_on_tls_started-Fair :
    (started : Bool) (conn : ℕ) (p : Pool)
    → Apart p
    → Fair p (connection_on_tls_started started conn p) []
unfolding connection_on_tls_started
connection_on_tls_started-Fair true conn p a =
    let w =
      connection_available-Fair conn (record p { starting_tls = remove conn p.starting_tls }) a in
    record { order = w.order; apart = w.apart }
connection_on_tls_started-Fair false conn p a =
    let w = close_connection-Fair conn (record p { starting_tls = remove conn p.starting_tls }) a in
    record { order = w.order; apart = w.apart }

socket_on_connect-Fair :
    (tls_active : Bool) (conn : Option ℕ) (p : Pool)
    → Apart p
    → Fair p (socket_on_connect tls_active conn p) []
unfolding socket_on_connect
socket_on_connect-Fair tls_active none p a = record {
  order = sym (append-nil p.requests);
  apart = a;
}
socket_on_connect-Fair tls_active (some conn) p a =
    let w =
      group_add-Fair tls_active conn
        (record p {
          connecting_sockets = p.connecting_sockets - 1;
          retry = false;
          timers = if p.retry then p.timers - 1 else p.timers;
        })
        a in
    record { order = w.order; apart = w.apart }

retry_timeout-Fair : (p : Pool) → Apart p → Fair p (retry_timeout p) []
unfolding retry_timeout
retry_timeout-Fair p a =
    let w = create-Fair (record p { timers = p.timers - 1 }) a in
    record { order = w.order; apart = w.apart }

no_requests :
    (p : Pool) (conn : ℕ) (rest : List ℕ) → Apart p → p.conns ≡ conn ∷ rest → p.requests ≡ []
no_requests p conn rest (inr h) e = h
no_requests p conn rest (inl h) e = absurd (omega (arith, ap length h, ap length e))

get_connection-Fair : (res : ℕ) (p : Pool) → Apart p → Fair p (get_connection res p) (res ∷ [])
unfolding get_connection
get_connection-Fair res p a = by_conns p.conns refl
  where
    by_conns : (cs : List ℕ) → p.conns ≡ cs → Fair p (take_or_wait cs res p) (res ∷ [])
    by_conns [] e =
        unfold take_or_wait in
        then_create p (record p { requests = p.requests ++ (res ∷ []) }) [] (res ∷ [])
          (record { order = refl; apart = inl e })
    by_conns (conn ∷ rest) e =
        let q = record p { conns = rest } in
        let none_waits = no_requests p conn rest a e in
        unfold take_or_wait finish_request in
        then_create p (group_remove q conn) (serve res conn ∷ []) (res ∷ []) (record {
          order =
              ap (λ l. res ∷ l) (group_remove-requests q conn ∙ none_waits)
              ∙ ap (λ l. l ++ (res ∷ [])) (sym none_waits);
          apart = inr (group_remove-requests q conn ∙ none_waits);
        })

recycle-Fair :
    (is_closed tls_active : Bool) (conn : ℕ) (p : Pool)
    → Apart p
    → Fair p (recycle is_closed tls_active conn p).0 []
unfolding recycle
recycle-Fair true tls_active conn p a = nothing_Fair p a
recycle-Fair false tls_active conn p a = elim (Bool-cases (leb p.max_conns (total_sockets p))) [
  | inl e ↦ rw e (nothing_Fair p a)
  | inr e ↦ rw e (group_add-Fair tls_active conn p a)
]

starttls_all-Still : (cs : List ℕ) (p : Pool) → Still p (starttls_all cs p)
unfolding starttls_all connection_starttls
starttls_all-Still [] p = record { no_request = refl; same_requests = refl; same_conns = refl }
starttls_all-Still (c ∷ cs) p =
    let s = starttls_all-Still cs (record p { starting_tls = p.starting_tls ++ (c ∷ []) }) in
    record { no_request = s.no_request; same_requests = s.same_requests; same_conns = s.same_conns }

set_tls_autostart-Fair :
    (autostart : Bool) (p : Pool) → Apart p → Fair p (set_tls_autostart autostart p) []
unfolding set_tls_autostart
set_tls_autostart-Fair false p a = record { order = sym (append-nil p.requests); apart = a }
set_tls_autostart-Fair true p a =
    let s = starttls_all-Still p.conns (record p { tls_autostart = true; conns = [] }) in
    record {
      order = ap₂ (λ l m. l ++ m) s.no_request s.same_requests ∙ sym (append-nil p.requests);
      apart = inl s.same_conns;
    }

Step-Fair :
    (p : Pool) (r : Pool × List Effect) (more : List ℕ) → Step p r more → Apart p → Fair p r more
Step-Fair p r more (constructs e) a = subst (λ r. Fair p r []) e (create-Fair p a)
Step-Fair p r more (connects tls_active conn e) a =
    subst (λ r. Fair p r []) e (socket_on_connect-Fair tls_active conn p a)
Step-Fair p r more (starts_tls started conn e) a =
    subst (λ r. Fair p r []) e (connection_on_tls_started-Fair started conn p a)
Step-Fair p r more (closes conn e) a =
    subst (λ r. Fair p r []) e (connection_on_close-Fair conn p a)
Step-Fair p r more (retries e) a = subst (λ r. Fair p r []) e (retry_timeout-Fair p a)
Step-Fair p r more (gets res e) a = subst (λ r. Fair p r (res ∷ [])) e (get_connection-Fair res p a)
Step-Fair p r more (recycles is_closed tls_active conn e) a =
    subst (λ r. Fair p r.0 []) e (recycle-Fair is_closed tls_active conn p a)
Step-Fair p r more (sets_tls autostart e) a =
    subst (λ r. Fair p r []) e (set_tls_autostart-Fair autostart p a)

-- However calls follow one another, the requests that have been served, in the order in which they were
-- served, and then those that wait, are the requests that have come, in the order in which they came: each is served at most
-- once and none is lost. And a request waits only while no connection is free.
pub requests_in_order :
    (p : Pool) (asked : List ℕ) (es : List Effect)
    → Reachable p asked es
    → (served es ++ p.requests ≡ asked) × Apart p
requests_in_order p asked es new = (refl, inl refl)
requests_in_order p all both
      (then_step {p = before} {asked = asked} {more = more} {es = es} {fs = fs} r s all_is
        both_is) =
    let (order, apart) = requests_in_order before asked es r in
    let f = Step-Fair before (p, fs) more s apart in
    (
      ap (λ l. served l ++ p.requests) both_is
          ∙ ap (λ l. l ++ p.requests) (served-append es fs)
          ∙ append_assoc (served es) (served fs) p.requests
          ∙ ap (λ l. served es ++ l) f.order
          ∙ sym (append_assoc (served es) before.requests more)
          ∙ ap (λ l. l ++ more) order
          ∙ sym all_is,
      f.apart,
    )
