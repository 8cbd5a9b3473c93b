-- ===== src/Promise/History.antt =====
-- evd/evd-promise.c: what may be done with a promise and its deferred, in any order.
use event_dance.Common.{ℕ, ◌≡◌, refl, ap, Bool, true, false, some, List, [], ◌∷◌, ◌++◌, map}
use event_dance.Promise.{
  Closure, Result, Promise, Deferred, Idle, listener, completion, State, Call, deferred_new,
  promise_then, call_listeners, Setting, set_result, complete, complete_in_idle, deferred_ref,
  deferred_unref, dispatch,
}

-- One event: the listeners that it adds, and the calls of listeners that it makes.
pub data Step : State → List Closure → State × List Call → Type 0 where
  thens : (c : Closure) (s : State) → Step s (c ∷ []) (promise_then c s, [])
  sets :
      (x : Setting) (d : Deferred) (s : State)
      → s.deferred ≡ some d
      → Step s [] (set_result x s, [])
  completes : (d : Deferred) (s : State) → s.deferred ≡ some d → Step s [] (complete d s)
  completes_in_idle :
      (d : Deferred) (s : State) → s.deferred ≡ some d → Step s [] (complete_in_idle d s, [])
  refs : (d : Deferred) (s : State) → s.deferred ≡ some d → Step s [] (deferred_ref d s, [])
  unrefs : (d : Deferred) (s : State) → s.deferred ≡ some d → Step s [] (deferred_unref d s, [])
  dispatches :
      (i : Idle) (rest : List Idle) (s : State) (r : State × List Call)
      → s.idles ≡ i ∷ rest
      → dispatch i rest s ≡ some r
      → Step s [] r

-- A history from a new deferred on: the listeners added so far, and the calls made.
pub data History : List Closure → List Call → State → Type 0 where
  start :
      (source_object cancellable tag : ℕ)
      → History [] [] (deferred_new source_object cancellable tag)
  then_step :
      {added new : List Closure} {calls : List Call} {s : State} {r : State × List Call}
      → History added calls s
      → Step s new r
      → History (added ++ new) (calls ++ r.1) r.0

-- The listeners among the idle sources, and those that have been called.
abbrev pub idle_closures : List Idle → List Closure
idle_closures [] = []
idle_closures (listener c ∷ is) = c ∷ idle_closures is
idle_closures (completion ∷ is) = idle_closures is

abbrev pub called : List Call → List Closure
called cs = map (λ c. c.closure) cs

-- The listeners that are still to be called.
abbrev pub waiting : State → List Closure
waiting s = (s.promise).listeners ++ idle_closures s.idles

abbrev pub AllSee : Result → List Call → Type 0
AllSee r [] = Unit
AllSee r (c ∷ cs) = (c.result_seen ≡ r) × AllSee r cs

pub AllSee-append :
    (r : Result) (xs ys : List Call) → AllSee r xs → AllSee r ys → AllSee r (xs ++ ys)
AllSee-append r [] ys h k = k
AllSee-append r (x ∷ xs) ys (h, hs) k = (h, AllSee-append r xs ys hs k)

pub called-append : (xs ys : List Call) → called (xs ++ ys) ≡ called xs ++ called ys
called-append [] ys = refl
called-append (x ∷ xs) ys = ap (◌∷◌ x.closure) (called-append xs ys)

pub idle_closures-append :
    (xs ys : List Idle) → idle_closures (xs ++ ys) ≡ idle_closures xs ++ idle_closures ys
idle_closures-append [] ys = refl
idle_closures-append (listener c ∷ xs) ys = ap (◌∷◌ c) (idle_closures-append xs ys)
idle_closures-append (completion ∷ xs) ys = idle_closures-append xs ys

-- The loop of notify_completion: everyone is called, in order, and sees the result.
pub call_listeners-called : (cs : List Closure) (p : Promise) → called (call_listeners cs p).1 ≡ cs
call_listeners-called [] p = refl
call_listeners-called (c ∷ cs) p =
    ap (◌∷◌ c) (call_listeners-called cs (record p { user_data = c.user_data }))

pub call_listeners-result :
    (cs : List Closure) (p : Promise) → (call_listeners cs p).0.result ≡ p.result
call_listeners-result [] p = refl
call_listeners-result (c ∷ cs) p = call_listeners-result cs (record p { user_data = c.user_data })

pub call_listeners-completed :
    (cs : List Closure) (p : Promise) → (call_listeners cs p).0.completed ≡ p.completed
call_listeners-completed [] p = refl
call_listeners-completed (c ∷ cs) p =
    call_listeners-completed cs (record p { user_data = c.user_data })

pub call_listeners-AllSee :
    (cs : List Closure) (p : Promise) → AllSee p.result (call_listeners cs p).1
call_listeners-AllSee [] p = tt
call_listeners-AllSee (c ∷ cs) p =
    (refl, call_listeners-AllSee cs (record p { user_data = c.user_data }))

-- Before completion nobody has been called or waits in an idle source; after it no one is in the list.
pub record Inv (added : List Closure) (calls : List Call) (completed : Bool)
    (listeners : List Closure) (idles : List Idle) (result : Result) : Type 0 where
  pub order : called calls ++ (listeners ++ idle_closures idles) ≡ added
  pub unsettled : completed ≡ false → (calls ≡ []) × (idle_closures idles ≡ [])
  pub emptied : completed ≡ true → listeners ≡ []
  pub agree : AllSee result calls

abbrev pub InvOf : List Closure → List Call → State → Type 0
InvOf added calls s =
    Inv added calls (s.promise).completed (s.promise).listeners s.idles (s.promise).result
