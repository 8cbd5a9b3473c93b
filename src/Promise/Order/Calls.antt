-- ===== src/Promise/Order/Calls.antt =====
-- evd/evd-promise.c: what the calls on a promise and its deferred keep.
use event_dance.Common.{
  ◌≡◌, refl, sym, ap, ◌∙◌, subst, Bool, true, false, if◌then◌else◌, some, List, [], ◌∷◌, ◌++◌,
  append-nil, append_assoc,
}
use event_dance.Promise.{
  Closure, Promise, Deferred, Idle, listener, completion, State, Call, promise_then, call_listeners,
  notify_completion, Setting, set_in, set_result, complete, complete_in_idle,
}
use event_dance.Promise.History.{
  idle_closures, called, AllSee, AllSee-append, called-append, idle_closures-append,
  call_listeners-called, call_listeners-result, call_listeners-completed, call_listeners-AllSee,
  Inv, InvOf,
}

pub promise_then-Inv :
    (added : List Closure) (calls : List Call) (c : Closure) (s : State)
    → InvOf added calls s
    → InvOf (added ++ (c ∷ [])) calls (promise_then c s)
unfolding promise_then
promise_then-Inv added calls c s i = either (s.promise).completed refl
  where
    p : Promise
    p = record (s.promise) { user_data = c.user_data }

    either :
        (b : Bool)
        → (s.promise).completed ≡ b
        → InvOf (added ++ (c ∷ [])) calls (
            if b
            then record s { promise = p; idles = s.idles ++ (listener c ∷ []) }
            else record s { promise = record p { listeners = p.listeners ++ (c ∷ []) } })
    either true e = record {
      order =
          ap (λ l. called calls ++ (p.listeners ++ l))
            (idle_closures-append s.idles (listener c ∷ []))
          ∙ ap (λ l. called calls ++ l)
              (sym (append_assoc p.listeners (idle_closures s.idles) (c ∷ [])))
          ∙ sym (append_assoc (called calls) (p.listeners ++ idle_closures s.idles) (c ∷ []))
          ∙ ap (λ l. l ++ (c ∷ [])) i.order;
      unsettled = λ h. cc;
      emptied = i.emptied;
      agree = i.agree;
    }
    either false e =
        let none_idle = (i.unsettled e).1 in
        record {
          order =
              ap (λ l. called calls ++ ((p.listeners ++ (c ∷ [])) ++ l)) none_idle
              ∙ ap (λ l. called calls ++ l) (append-nil (p.listeners ++ (c ∷ [])))
              ∙ sym (append_assoc (called calls) p.listeners (c ∷ []))
              ∙ ap (λ l. (called calls ++ l) ++ (c ∷ [])) (sym (append-nil p.listeners))
              ∙ ap (λ l. (called calls ++ (p.listeners ++ l)) ++ (c ∷ [])) (sym none_idle)
              ∙ ap (λ l. l ++ (c ∷ [])) i.order;
          unsettled = i.unsettled;
          emptied = λ h. cc;
          agree = i.agree;
        }

pub set_result-Inv :
    (added : List Closure) (calls : List Call) (x : Setting) (s : State)
    → InvOf added calls s
    → InvOf added calls (set_result x s)
unfolding set_result
set_result-Inv added calls x s i = either (s.promise).completed refl
  where
    either :
        (b : Bool)
        → (s.promise).completed ≡ b
        → InvOf added calls (
            if b
            then s
            else record s { promise = record (s.promise) { result = set_in x (s.promise).result } })
    either true e = i
    either false e = record {
      order = i.order;
      unsettled = i.unsettled;
      emptied = i.emptied;
      agree = subst (AllSee (set_in x (s.promise).result)) (sym (i.unsettled e).0) tt;
    }

-- The completion of the promise, with these idle sources left.
pub notify_completion-Inv :
    (added : List Closure) (calls : List Call) (p : Promise) (idles : List Idle)
    → Inv added calls p.completed p.listeners idles p.result
    → Inv added
        (calls ++ (notify_completion p).1)
        (notify_completion p).0.completed
        (notify_completion p).0.listeners
        idles
        (notify_completion p).0.result
unfolding notify_completion
notify_completion-Inv added calls p idles i =
    let q : Promise = record p { completed = true } in
    let r = call_listeners p.listeners q in
    let now_completed : (r.0).completed ≡ true = call_listeners-completed p.listeners q in
    let same_result = call_listeners-result p.listeners q in
    record {
      order =
          ap (λ l. l ++ idle_closures idles)
            (called-append calls r.1
              ∙ ap (λ l. called calls ++ l) (call_listeners-called p.listeners q))
          ∙ append_assoc (called calls) p.listeners (idle_closures idles)
          ∙ i.order;
      unsettled = λ h. (let never : true ≡ false = sym now_completed ∙ h in cc);
      emptied = λ h. refl;
      agree =
          subst (λ r'. AllSee r' (calls ++ r.1)) (sym same_result)
            (AllSee-append p.result calls r.1 i.agree (call_listeners-AllSee p.listeners q));
    }

pub complete-Inv :
    (added : List Closure) (calls : List Call) (d : Deferred) (s : State)
    → InvOf added calls s
    → InvOf added (calls ++ (complete d s).1) (complete d s).0
unfolding complete
complete-Inv added calls d s i = either d.completed
  where
    either :
        (b : Bool)
        → (let r = notify_completion s.promise in
            let t : State × List Call = if b then (s, []) else (
              record s { promise = r.0; deferred = some (record d { completed = true }) },
              r.1,
            ) in
            InvOf added (calls ++ t.1) t.0)
    either true = subst (λ l. InvOf added l s) (sym (append-nil calls)) i
    either false =
        let j = notify_completion-Inv added calls s.promise s.idles i in
        record { order = j.order; unsettled = j.unsettled; emptied = j.emptied; agree = j.agree }

pub complete_in_idle-Inv :
    (added : List Closure) (calls : List Call) (d : Deferred) (s : State)
    → InvOf added calls s
    → InvOf added calls (complete_in_idle d s)
unfolding complete_in_idle
complete_in_idle-Inv added calls d s i = either d.completed
  where
    same : idle_closures (s.idles ++ (completion ∷ [])) ≡ idle_closures s.idles
    same = idle_closures-append s.idles (completion ∷ []) ∙ append-nil (idle_closures s.idles)

    either :
        (b : Bool)
        → InvOf added calls (
            if b then s else record s {
              deferred = some (record d { completed = true });
              idles = s.idles ++ (completion ∷ []);
            })
    either true = i
    either false = record {
      order = ap (λ l. called calls ++ ((s.promise).listeners ++ l)) same ∙ i.order;
      unsettled = λ h. ((i.unsettled h).0, same ∙ (i.unsettled h).1);
      emptied = i.emptied;
      agree = i.agree;
    }
