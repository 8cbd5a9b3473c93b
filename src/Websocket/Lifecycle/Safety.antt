-- ===== src/Websocket/Lifecycle/Safety.antt =====
-- evd/evd-websocket-protocol.c: the closing handshake over the life of a connection.
use event_dance.Common.{
  ℕ, zero, suc, ◌+◌, ◌≤◌, ◌≡◌, refl, ap, inl, inr, Bool, true, false, Bool-cases, Option-cases,
  ◌||◌, if◌then◌else◌, Option, none, some, List, [], ◌∷◌, ◌++◌, subst, arith,
}
use event_dance.Websocket.Connection.{
  State, Data, Effect, close_stream, read_async, is_closing, is_closed, setup_connection,
}
use event_dance.Websocket.Closing.{Env, on_connection_flushed, bind, unbind}
use event_dance.Websocket.Reader.{
  read_round, goes_on, after, process_data, ReadResult, received, end_of_stream, failed,
  on_connection_read,
}
use event_dance.Websocket.Lifecycle.{
  Step, binds, unbinds, closes, reads, times_out, flushes, Reachable, handshake, then_step,
  frames_written,
}
use event_dance.Websocket.Lifecycle.Cost.{
  budget, frames_written-append, Lawful, Kept, trans_lawful, idle_lawful, read_round-Lawful,
  close-Lawful, finish-Lawful, close_timeout-Lawful,
}

LawfulOption : Data → Option (Data × List Effect × Bool) → Type 0
LawfulOption d none = Unit
LawfulOption d (some r) = Lawful d r.0 r.1

after-Lawful :
    (d d' : Data) (es : List Effect) (r : Option (Data × List Effect × Bool))
    → Lawful d d' es
    → LawfulOption d' r
    → LawfulOption d (after es r)
unfolding LawfulOption
after-Lawful d d' es none l m = tt
after-Lawful d d' es (some r) l m = trans_lawful l m

process_data-Lawful : (n : ℕ) (d : Data) (env : Env) → LawfulOption d (process_data n d env)
unfolding LawfulOption process_data
process_data-Lawful zero d env = tt
process_data-Lawful (suc n) d env = elim (Bool-cases (goes_on d)) [
  | inr g ↦ rw g (idle_lawful [] refl)
  | inl g ↦ elim (Bool-cases (read_round d env).2) [
    | inr e ↦ rw (g, e) (read_round-Lawful d env)
    | inl e ↦
        rw (g, e)
          (after-Lawful d (read_round d env).0 (read_round d env).1 _ (read_round-Lawful d env)
            (process_data-Lawful n (read_round d env).0 env))
  ]
]

LawfulRead : Data → Option (Data × List Effect) → Type 0
LawfulRead d none = Unit
LawfulRead d (some r) = Lawful d r.0 r.1

on_connection_read-Lawful :
    (n : ℕ) (d : Data) (env : Env) (bytes : ReadResult)
    → LawfulRead d (on_connection_read n d env bytes)
unfolding LawfulRead on_connection_read LawfulOption
on_connection_read-Lawful n d env (received bytes) = elim (Bool-cases (is_closed d.state)) [
  | inl e ↦ rw e (idle_lawful [] refl)
  | inr e ↦ elim (Option-cases (process_data n (record d { buf = d.buf ++ bytes }) env)) [
    | inl z ↦ rw (e, z) tt
    | inr ((d', es, more), z) ↦
        let l = process_data-Lawful n (record d { buf = d.buf ++ bytes }) env in
        rw (e, z) (reading es more (rw z at l))
  ]
]
  where
    reading :
        {s s' : State} {c c' : Bool} (es : List Effect) (more : Bool)
        → Kept s c s' c' es
        → Kept s c s' c' (if more then es ++ (read_async ∷ []) else es)
    reading es true k = trans_lawful k (idle_lawful (read_async ∷ []) refl)
    reading es false k = k
on_connection_read-Lawful n d env end_of_stream = idle_lawful [] refl
on_connection_read-Lawful n d env (failed true) = idle_lawful [] refl
on_connection_read-Lawful n d env (failed false) = idle_lawful (close_stream ∷ []) refl

Step-Lawful : (d d' : Data) (es : List Effect) → Step d d' es → Lawful d d' es
unfolding bind unbind on_connection_flushed
Step-Lawful d d' es (binds b e) =
    subst (λ r. Lawful d r.0 r.1) e (idle_lawful (read_async ∷ []) refl)
Step-Lawful d d' es (unbinds e) = subst (λ r. Lawful d r []) e (idle_lawful [] refl)
Step-Lawful d d' es (closes env code result e) =
    subst (λ r. Lawful d r.0 r.1) e (close-Lawful d env code)
Step-Lawful d d' es (reads n env bytes e) =
    unfold LawfulRead in subst (LawfulRead d) e (on_connection_read-Lawful n d env bytes)
Step-Lawful d d' es (times_out t e) = subst (λ r. Lawful d r.0 r.1) e (close_timeout-Lawful d)
Step-Lawful d d' es (flushes t e) = subst (λ r. Lawful d r.0 r.1) e (finish-Lawful d d.close_code)

Reachable-Lawful :
    (d : Data) (es : List Effect)
    → Reachable d es
    → (frames_written es + budget d.state ≤ 1) × (budget d.state ≡ 1 → d.close_frame_sent ≡ false)
unfolding setup_connection
Reachable-Lawful d es (handshake is_server) = (omega arith, λ e. refl)
Reachable-Lawful d all (then_step {d = before} {es = es} {fs = fs} r s a) =
    let (cost, sane) = Reachable-Lawful before es r in
    let l = Step-Lawful before d fs s in
    (omega (arith, cost, l.cost, ap frames_written a, frames_written-append es fs), l.sane sane)

-- Over the life of a connection, however its calls follow one another, at most one close frame is written.
pub close_frame_once : (d : Data) (es : List Effect) → Reachable d es → frames_written es ≤ 1
close_frame_once d es r = omega (arith, (Reachable-Lawful d es r).0)

-- The assertion of evd_websocket_protocol_close: whenever the connection is neither closing nor closed, no close
-- frame has been sent.
pub close_assertion :
    (d : Data) (es : List Effect)
    → Reachable d es
    → (is_closing d.state || is_closed d.state) ≡ false
    → d.close_frame_sent ≡ false
close_assertion d es r o = (Reachable-Lawful d es r).1 (rw o refl)
