-- ===== src/Jsonrpc/Once/Whole.antt =====
-- evd/evd-jsonrpc.c: over the life of one end, no call is completed twice.
use event_dance.Common.{
  ℕ, ◌+◌, ◌≤◌, ◌≡◌, refl, subst, Bool, true, false, if◌then◌else◌, Option, none, some, List, [],
  ◌∷◌, arith,
}
use event_dance.Common.Text.{bytes}
use event_dance.Jsonrpc.{
  Node, Members, Root, no_root, other_root, object_root, get_member, get_string, is_null,
  InvocationData, Rpc, Response, Effect, lookup, notification, complains,
}
use event_dance.Jsonrpc.Incoming.{
  response_of, finish_invocation, with_id, on_method_result, on_notification, on_method_called,
  request_packet, dispatch, on_json_packet,
}
use event_dance.Jsonrpc.Lifecycle.{
  Step, calls, notifies, responds, fails, receives, sets_callbacks, History, start, then_step,
}
use event_dance.Jsonrpc.Once.{
  occurrences, completions, waiting, completions-append, occurrences-append, Paid, removed-Paid,
  transport_error-Paid,
}
use event_dance.Jsonrpc.Once.Steps.{
  call_method-Paid, send_notification-Paid, respond_full-Paid, on_method_called-Paid,
}

-- The same where the process may end.
abbrev PaidUnlessEnd : ℕ → Rpc → Option (Rpc × List Effect) → Type 0
PaidUnlessEnd x r none = Unit
PaidUnlessEnd x r (some res) = Paid x r [] res

module _ (print : Members → List ℕ) (parse : List ℕ → Root) where
  on_method_result-Paid :
      (x : ℕ) (id_node : Option Node) (result error : Node) (r : Rpc)
      → PaidUnlessEnd x r (on_method_result print parse id_node result error r)
  unfolding on_method_result
  on_method_result-Paid x id_node result error r = by_text (get_string id_node)
    where
      response : Response
      response = response_of print parse result error

      by_entry :
          (id : List ℕ) (o : Option InvocationData)
          → lookup id r.invocations ≡ o
          → Paid x r [] (finish_invocation print parse id response o r)
      by_entry id none e = omega arith
      by_entry id (some inv) e = removed-Paid x id response inv r e

      by_text : (id : Option (List ℕ)) → PaidUnlessEnd x r (with_id print parse id response r)
      by_text none = tt
      by_text (some id) = by_entry id (lookup id r.invocations) refl

  on_notification-Paid :
      (x : ℕ) (msg : Members) (r : Rpc) → Paid x r [] (on_notification print parse msg r)
  on_notification-Paid x msg r = by_callback r.has_notification_cb
    where
      by_callback :
          (b : Bool)
          → Paid x r [] (
            r,
            if b
                then notification
                    (get_string (get_member (bytes "method") msg))
                    (get_member (bytes "params") msg)
                    r.context
                  ∷ []
                else [],
          )
      by_callback true = omega arith
      by_callback false = omega arith

  request_packet-Paid :
      (x : ℕ) (msg : Members) (id_node : Node) (r : Rpc)
      → Paid x r [] (request_packet print parse msg id_node r)
  request_packet-Paid x msg id_node r = by_null (is_null id_node)
    where
      by_null :
          (b : Bool)
          → Paid x r [] (
              if b
              then on_notification print parse msg r
              else on_method_called print parse msg id_node r)
      by_null true = on_notification-Paid x msg r
      by_null false = on_method_called-Paid print parse x msg id_node r

  dispatch-Paid :
      (x : ℕ) (msg : Members) (id result error method params : Option Node) (r : Rpc)
      → PaidUnlessEnd x r (dispatch print parse msg id result error method params r)
  dispatch-Paid x msg none result error method params r = omega arith
  dispatch-Paid x msg (some id) (some result) (some error) method params r =
      on_method_result-Paid x (some id) result error r
  dispatch-Paid x msg (some id) none error (some method) (some params) r =
      request_packet-Paid x msg id r
  dispatch-Paid x msg (some id) none error (some method) none r = omega arith
  dispatch-Paid x msg (some id) none error none params r = omega arith
  dispatch-Paid x msg (some id) (some result) none (some method) (some params) r =
      request_packet-Paid x msg id r
  dispatch-Paid x msg (some id) (some result) none (some method) none r = omega arith
  dispatch-Paid x msg (some id) (some result) none none params r = omega arith

  on_json_packet-Paid :
      (x : ℕ) (packet : List ℕ) (r : Rpc) → PaidUnlessEnd x r (on_json_packet print parse packet r)
  unfolding on_json_packet
  on_json_packet-Paid x packet r = by_root (parse packet)
    where
      by_root :
          (root : Root)
          → PaidUnlessEnd x r (elim root [
            | no_root ↦ none
            | other_root ↦ some (r, complains ∷ [])
            | object_root msg ↦
                dispatch print parse msg
                  (get_member (bytes "id") msg)
                  (get_member (bytes "result") msg)
                  (get_member (bytes "error") msg)
                  (get_member (bytes "method") msg)
                  (get_member (bytes "params") msg)
                  r
          ])
      by_root no_root = tt
      by_root other_root = omega arith
      by_root (object_root msg) =
          dispatch-Paid x msg (get_member (bytes "id") msg) (get_member (bytes "result") msg)
            (get_member (bytes "error") msg) (get_member (bytes "method") msg)
            (get_member (bytes "params") msg) r

  Step-Paid :
      (x : ℕ) {r : Rpc} {new : List ℕ} {res : Rpc × List Effect}
      → Step print parse r new res
      → Paid x r new res
  Step-Paid x (calls sent method_name params c call r) =
      call_method-Paid print parse x sent method_name params c call r
  Step-Paid x (notifies sent name params c r) =
      send_notification-Paid print parse x sent name params c r
  Step-Paid x (responds sent invocation_id result error r) =
      respond_full-Paid print parse x sent invocation_id result error r
  Step-Paid x (fails invocation_id r) = transport_error-Paid x invocation_id r
  Step-Paid x (receives packet c r res e) =
      subst (PaidUnlessEnd x (record r { context = c })) e
        (on_json_packet-Paid x packet (record r { context = c }))
  Step-Paid x (sets_callbacks a b c r) = omega arith

  -- No call is completed more often than it has been started, over the life of one end: however the program's
  -- calls, notifications and responses, the errors of the transport and the packets that come in follow one another,
  -- whatever is in the packets and as long as the process does not end, how often a call has been completed and how
  -- often it still waits in the table are together at most how often it has been started. So a call that
  -- is started once is completed at most once, and not while it waits.
  pub completed_once :
      (call : ℕ) {started : List ℕ} {done : List Effect} {r : Rpc}
      → History print parse started done r
      → completions call done + waiting call r.invocations ≤ occurrences call started
  completed_once call (start a b c) = omega arith
  completed_once call
        (then_step {started = started} {more = more} {done = done} {r = r} {res = res} h s) =
      omega (
        arith,
        completed_once call h,
        Step-Paid call s,
        completions-append call done res.1,
        occurrences-append call started more,
      )
