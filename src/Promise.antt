-- ===== src/Promise.antt =====
-- evd/evd-promise.c: a promise, the deferred that resolves it, and the idle sources they add to the
-- main loop. Pointers, callbacks and user data are numbers, with 0 for NULL.
pub mod History
pub mod Order
mod Tests
use event_dance.Common.{
  ℕ, zero, suc, ◌+◌, ◌-◌, leb, ltb, ◌==◌, Bool, true, false, not, if◌then◌else◌, Option, none, some,
  List, [], ◌∷◌, ◌++◌,
}
use event_dance.Common.Int.{ℤ, pos, negsuc}

-- PromiseClosure
pub record Closure : Type 0 where
  pub callback : ℕ
  pub user_data : ℕ

-- What a promise holds for its listeners.
pub record Result : Type 0 where
  pub res_pointer : ℕ
  pub res_pointer_free_func : ℕ
  pub res_size : ℤ
  pub res_boolean : Bool
  pub res_error : ℕ

-- struct _EvdPromisePrivate
pub record Promise : Type 0 where
  pub completed : Bool
  pub src_obj : ℕ
  pub tag : ℕ
  pub cancellable : ℕ
  pub user_data : ℕ
  pub result : Result
  pub listeners : List Closure

-- struct _EvdDeferred, while it has not been freed.
pub record Deferred : Type 0 where
  pub ref_count : ℕ
  pub completed : Bool

-- An idle source: call_listener_in_idle or deferred_complete_in_idle_cb.
pub data Idle : Type 0 where
  listener : Closure → Idle
  completion : Idle

-- The deferred is none when it has been freed; idle sources run in the order in which they are added.
pub record State : Type 0 where
  pub promise : Promise
  pub deferred : Option Deferred
  pub idles : List Idle

-- A call of a listener: what g_async_result_get_user_data and the result would say inside of it.
pub record Call : Type 0 where
  pub closure : Closure
  pub user_data_seen : ℕ
  pub result_seen : Result

-- evd_deferred_new
abbrev pub deferred_new : ℕ → ℕ → ℕ → State
deferred_new source_object cancellable tag = record {
  promise = record {
    completed = false;
    src_obj = source_object;
    tag = tag;
    cancellable = cancellable;
    user_data = 0;
    result = record {
      res_pointer = 0;
      res_pointer_free_func = 0;
      res_size = pos 0;
      res_boolean = false;
      res_error = 0;
    };
    listeners = [];
  };
  deferred = some (record { ref_count = 1; completed = false });
  idles = [];
}

-- evd_promise_then
unfoldable pub promise_then : Closure → State → State
promise_then c s =
    let p = record (s.promise) { user_data = c.user_data } in
    if p.completed
    then record s { promise = p; idles = s.idles ++ (listener c ∷ []) }
    else record s { promise = record p { listeners = p.listeners ++ (c ∷ []) } }

-- The loop of notify_completion.
abbrev pub call_listeners : List Closure → Promise → Promise × List Call
call_listeners [] p = (p, [])
call_listeners (c ∷ cs) p =
    let rest = call_listeners cs (record p { user_data = c.user_data }) in
    (rest.0, record { closure = c; user_data_seen = c.user_data; result_seen = p.result } ∷ rest.1)

-- evd_promise_notify_completion, where the listeners leave the promise as it is.
unfoldable pub notify_completion : Promise → Promise × List Call
notify_completion p =
    let r = call_listeners p.listeners (record p { completed = true }) in
    (record (r.0) { listeners = [] }, r.1)

-- What a deferred sets: resolve_pointer_real, resolve_size_real, resolve_boolean_real, reject_real.
pub data Setting : Type 0 where
  resolve_pointer : ℕ → ℕ → Setting
  resolve_size : ℤ → Setting
  resolve_boolean : Bool → Setting
  reject : ℕ → Setting

abbrev pub set_in : Setting → Result → Result
set_in (resolve_pointer data_pointer free_func) r = record r {
  res_pointer = data_pointer;
  res_pointer_free_func = free_func;
}
set_in (resolve_size size) r = record r { res_size = size }
set_in (resolve_boolean value) r = record r { res_boolean = value }
set_in (reject error) r = record r { res_error = error }

-- A result is set only until the promise is completed.
unfoldable pub set_result : Setting → State → State
set_result x s =
    if (s.promise).completed
    then s
    else record s { promise = record (s.promise) { result = set_in x (s.promise).result } }

-- evd_deferred_complete
unfoldable pub complete : Deferred → State → State × List Call
complete d s =
    let r = notify_completion s.promise in
    if d.completed
    then (s, [])
    else (record s { promise = r.0; deferred = some (record d { completed = true }) }, r.1)

-- evd_deferred_complete_in_idle, which takes no reference for the idle source.
unfoldable pub complete_in_idle : Deferred → State → State
complete_in_idle d s = if d.completed then s else record s {
  deferred = some (record d { completed = true });
  idles = s.idles ++ (completion ∷ []);
}

-- evd_deferred_ref, and evd_deferred_unref where no other thread comes between.
abbrev pub deferred_ref : Deferred → State → State
deferred_ref d s = record s { deferred = some (record d { ref_count = suc d.ref_count }) }

unfoldable pub deferred_unref : Deferred → State → State
deferred_unref d s = record s {
  deferred = if ltb 1 d.ref_count then some (record d { ref_count = d.ref_count - 1 }) else none;
}

abbrev pub is_some : Option Deferred → Bool
is_some none = false
is_some (some d) = true

-- One idle source; none is a use of a deferred that has been freed.
unfoldable pub dispatch : Idle → List Idle → State → Option (State × List Call)
dispatch (listener c) rest s = some (
  record s { idles = rest },
  record { closure = c; user_data_seen = (s.promise).user_data; result_seen = (s.promise).result }
      ∷ [],
)
dispatch completion rest s =
    let r = notify_completion s.promise in
    if is_some s.deferred then some (record s { promise = r.0; idles = rest }, r.1) else none
