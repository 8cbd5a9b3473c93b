-- ===== src/Promise/Tests.antt =====
-- evd/evd-promise.c: runs and instances.
use event_dance.Common.{ℕ, ◌+◌, ◌≡◌, refl, true, false, none, some, List, [], ◌∷◌, ◌++◌}
use event_dance.Promise.{
  Closure, Deferred, listener, completion, State, Call, deferred_new, promise_then,
  notify_completion, resolve_boolean, set_result, complete, complete_in_idle, deferred_unref,
  dispatch,
}
use event_dance.Promise.History.{
  History, start, then_step, thens, sets, completes_in_idle, dispatches, called, waiting, AllSee,
}
use event_dance.Promise.Order.{listeners_in_order}

abbrev closure : ℕ → Closure
closure n = record { callback = n; user_data = 10 + n }

abbrev fresh : State
fresh = deferred_new 1 2 3

abbrev deferred : Deferred
deferred = record { ref_count = 1; completed = false }

-- The deferred is freed before the idle source runs, which then uses it.
freed_before_idle :
    dispatch completion [] (
      deferred_unref (record { ref_count = 1; completed = true }) (complete_in_idle deferred fresh))
    ≡ none
unfolding dispatch deferred_unref complete_in_idle
freed_before_idle = refl

abbrev late : State
late = promise_then (closure 2) (promise_then (closure 1) (complete deferred fresh).0)

-- Two listeners that come late: the first is called with the user data of the second.
wrong_user_data :
    dispatch (listener (closure 1)) (listener (closure 2) ∷ []) late
    ≡ some (
      record late { idles = listener (closure 2) ∷ [] },
      record { closure = closure 1; user_data_seen = 12; result_seen = (fresh.promise).result }
          ∷ [],
    )
unfolding dispatch promise_then complete notify_completion
wrong_user_data = refl

abbrev with_listener : State
with_listener = promise_then (closure 1) fresh

abbrev completing : State
completing = complete_in_idle deferred (set_result (resolve_boolean true) with_listener)

abbrev completed : State × List Call
completed = (
  record completing { promise = (notify_completion completing.promise).0; idles = [] },
  (notify_completion completing.promise).1,
)

a_dispatch : dispatch completion [] completing ≡ some completed
unfolding dispatch complete_in_idle set_result promise_then
a_dispatch = refl

a_history : History ([] ++ (closure 1 ∷ [])) [] with_listener
a_history = then_step (start 1 2 3) (thens (closure 1) fresh)

still_there : with_listener.deferred ≡ some deferred
unfolding promise_then
still_there = refl

still_set : (set_result (resolve_boolean true) with_listener).deferred ≡ some deferred
unfolding promise_then set_result
still_set = refl

one_idle : completing.idles ≡ completion ∷ []
unfolding promise_then set_result complete_in_idle
one_idle = refl

listeners_in_order_example :
    (called ((([] ++ []) ++ []) ++ completed.1) ++ waiting completed.0
      ≡ ((([] ++ (closure 1 ∷ [])) ++ []) ++ []) ++ [])
    × AllSee ((completed.0).promise).result ((([] ++ []) ++ []) ++ completed.1)
listeners_in_order_example = listeners_in_order (
    then_step
      (then_step
        (then_step a_history (sets (resolve_boolean true) deferred with_listener still_there))
        (completes_in_idle deferred (set_result (resolve_boolean true) with_listener) still_set))
      (dispatches completion [] completing completed one_idle a_dispatch))
