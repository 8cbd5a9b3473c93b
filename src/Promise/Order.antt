-- ===== src/Promise/Order.antt =====
-- evd/evd-promise.c: the order of the calls of listeners, and the result that they see.
pub mod Calls
use event_dance.Common.{
  ◌≡◌, refl, sym, ap, ◌∙◌, subst, Bool, true, false, Bool-cases, if◌then◌else◌, none, some, List,
  [], ◌∷◌, ◌++◌, append-nil, append_assoc, inl, inr,
}
use event_dance.Promise.{
  Closure, Promise, Deferred, Idle, listener, completion, State, Call, promise_then, call_listeners,
  notify_completion, Setting, set_in, set_result, complete, complete_in_idle, deferred_unref,
  is_some, dispatch,
}
use event_dance.Promise.History.{
  Step, thens, sets, completes, completes_in_idle, refs, unrefs, dispatches, History, start,
  then_step, idle_closures, called, waiting, AllSee, AllSee-append, called-append,
  idle_closures-append, call_listeners-called, call_listeners-result, call_listeners-completed,
  call_listeners-AllSee, Inv, InvOf,
}
use event_dance.Promise.Order.Calls.{
  promise_then-Inv, set_result-Inv, notify_completion-Inv, complete-Inv, complete_in_idle-Inv,
}

-- A listener in an idle source finds the promise completed.
listener-Inv :
    (added : List Closure) (calls : List Call) (c : Closure) (call : Call) (rest : List Idle)
    (s : State)
    → InvOf added calls s
    → s.idles ≡ listener c ∷ rest
    → call.closure ≡ c
    → call.result_seen ≡ (s.promise).result
    → InvOf added (calls ++ (call ∷ [])) (record s { idles = rest })
listener-Inv added calls c call rest s i at ec er = elim (Bool-cases (s.promise).completed) [
  | inl e ↦
      let waits = (s.promise).listeners in
      let later = idle_closures rest in
      record {
        order =
            ap (λ l. l ++ (waits ++ later))
              (called-append calls (call ∷ []) ∙ ap (λ x. called calls ++ (x ∷ [])) ec)
            ∙ append_assoc (called calls) (c ∷ []) (waits ++ later)
            ∙ ap (λ l. called calls ++ (c ∷ (l ++ later))) (i.emptied e)
            ∙ ap (λ l. called calls ++ (l ++ (c ∷ later))) (sym (i.emptied e))
            ∙ ap (λ is. called calls ++ (waits ++ idle_closures is)) (sym at)
            ∙ i.order;
        unsettled = λ h. cc;
        emptied = i.emptied;
        agree = AllSee-append (s.promise).result calls (call ∷ []) i.agree (er, tt);
      }
  | inr e ↦
      let never : c ∷ idle_closures rest ≡ [] = ap idle_closures (sym at) ∙ (i.unsettled e).1 in cc
]

rest-Inv :
    (added : List Closure) (calls : List Call) (rest : List Idle) (s : State)
    → InvOf added calls s
    → s.idles ≡ completion ∷ rest
    → Inv added calls (s.promise).completed (s.promise).listeners rest (s.promise).result
rest-Inv added calls rest s i at =
    let same : idle_closures rest ≡ idle_closures s.idles = ap idle_closures (sym at) in
    record {
      order = ap (λ l. called calls ++ ((s.promise).listeners ++ l)) same ∙ i.order;
      unsettled = λ h. ((i.unsettled h).0, same ∙ (i.unsettled h).1);
      emptied = i.emptied;
      agree = i.agree;
    }

dispatch-Inv :
    (added : List Closure) (calls : List Call) (x : Idle) (rest : List Idle) (s : State)
    (r : State × List Call)
    → InvOf added calls s
    → s.idles ≡ x ∷ rest
    → dispatch x rest s ≡ some r
    → InvOf added (calls ++ r.1) r.0
unfolding dispatch
dispatch-Inv added calls (listener c) rest s r i at e =
    let call : Call = record {
      closure = c;
      user_data_seen = (s.promise).user_data;
      result_seen = (s.promise).result;
    } in
    let same : (record s { idles = rest }, call ∷ []) ≡ r = cc in
    subst (λ (r : State × List Call). InvOf added (calls ++ r.1) r.0) same
      (listener-Inv added calls c call rest s i at refl refl)
dispatch-Inv added calls completion rest s r i at e = either (is_some s.deferred) e
  where
    done : Promise × List Call
    done = notify_completion s.promise

    either :
        (b : Bool)
        → (if b then some (record s { promise = done.0; idles = rest }, done.1) else none) ≡ some r
        → InvOf added (calls ++ r.1) r.0
    either true e =
        let same : (record s { promise = done.0; idles = rest }, done.1) ≡ r = cc in
        let j =
          notify_completion-Inv added calls s.promise rest (rest-Inv added calls rest s i at) in
        subst (λ (r : State × List Call). InvOf added (calls ++ r.1) r.0) same
          (record {
            order = j.order;
            unsettled = j.unsettled;
            emptied = j.emptied;
            agree = j.agree;
          })
    either false e = let never : none ≡ some r = e in cc

-- The same with no call made and nobody added.
quiet :
    (added : List Closure) (calls : List Call) (s : State)
    → InvOf added calls s
    → InvOf (added ++ []) (calls ++ []) s
quiet added calls s i =
    subst (λ l. InvOf l (calls ++ []) s) (sym (append-nil added))
      (subst (λ l. InvOf added l s) (sym (append-nil calls)) i)

Step-Inv :
    {added new : List Closure} {calls : List Call} {s : State} {r : State × List Call}
    → InvOf added calls s
    → Step s new r
    → InvOf (added ++ new) (calls ++ r.1) r.0
unfolding deferred_unref
Step-Inv {added = added} {calls = calls} i (thens c s) =
    subst (λ l. InvOf (added ++ (c ∷ [])) l (promise_then c s)) (sym (append-nil calls))
      (promise_then-Inv added calls c s i)
Step-Inv {added = added} {calls = calls} i (sets x d s e) =
    quiet added calls (set_result x s) (set_result-Inv added calls x s i)
Step-Inv {added = added} {calls = calls} i (completes d s e) =
    subst (λ l. InvOf l (calls ++ (complete d s).1) (complete d s).0) (sym (append-nil added))
      (complete-Inv added calls d s i)
Step-Inv {added = added} {calls = calls} i (completes_in_idle d s e) =
    quiet added calls (complete_in_idle d s) (complete_in_idle-Inv added calls d s i)
Step-Inv {added = added} {calls = calls} i (refs d s e) = quiet added calls s i
Step-Inv {added = added} {calls = calls} i (unrefs d s e) = quiet added calls s i
Step-Inv {added = added} {calls = calls} i (dispatches x rest s r at e) =
    subst (λ l. InvOf l (calls ++ r.1) r.0) (sym (append-nil added))
      (dispatch-Inv added calls x rest s r i at e)

History-Inv :
    {added : List Closure} {calls : List Call} {s : State}
    → History added calls s
    → InvOf added calls s
History-Inv (start source_object cancellable tag) = record {
  order = refl;
  unsettled = λ h. (refl, refl);
  emptied = λ h. refl;
  agree = tt;
}
History-Inv (then_step h step) = Step-Inv (History-Inv h) step

-- However the calls on a promise and its deferred and the idle sources follow one another, as long as no freed
-- deferred is used and the listeners do not call back, every listener is called at most once
-- and in the order in which the listeners have been added: the calls made, then the listeners in the list, then those in
-- idle sources are exactly the listeners added, in order. All of them see the same result, the one that
-- the promise still holds.
pub listeners_in_order :
    {added : List Closure} {calls : List Call} {s : State}
    → History added calls s
    → (called calls ++ waiting s ≡ added) × AllSee (s.promise).result calls
listeners_in_order h = (let i = History-Inv h in (i.order, i.agree))
