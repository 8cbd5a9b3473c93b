-- ===== src/Jsonrpc/Once/Steps.antt =====
-- evd/evd-jsonrpc.c: no operation completes a call twice.
use event_dance.Common.{
  ℕ, ◌≤◌, ◌==◌, Bool, true, false, if◌then◌else◌, Option, none, some, List, [], ◌∷◌, arith,
}
use event_dance.Common.Text.{bytes}
use event_dance.HttpConnection.{decimal}
use event_dance.Jsonrpc.{
  Node, Members, Root, get_member, get_string, Context, no_context, peer_context, other_context,
  InvocationData, Rpc, Effect, completes, method_call, lookup, remove_key, insert, not_connected,
  transport_write, has_transport, next_id, call_method, send_notification, respond_to, respond_full,
  request_message, response_message,
}
use event_dance.Jsonrpc.Incoming.{accept_call, with_args, with_method, on_method_called}
use event_dance.Jsonrpc.Once.{waiting, waiting-remove_key, Paid, transport_write-Paid, Paid-from}

module _ (print : Members → List ℕ) (parse : List ℕ → Root) where
  pub call_method-Paid :
      (x : ℕ) (sent : Bool) (method_name : List ℕ) (params : Option Node) (c : Context) (call : ℕ)
      (r : Rpc)
      → Paid x r (call ∷ []) (call_method print parse sent method_name params c call r)
  unfolding call_method
  call_method-Paid x sent method_name params c call r = by_transport (has_transport c r)
    where
      id : List ℕ
      id = decimal (next_id r)

      inv : InvocationData
      inv = record { result = some call; remote_id = none; context = c }

      started : Rpc
      started = record r {
        invocation_counter = next_id r;
        invocations = insert id inv r.invocations;
      }

      msg : List ℕ
      msg = print (request_message method_name (some (Node.string_node id)) params)

      by_transport :
          (b : Bool)
          → Paid x r (call ∷ []) (
              if b
              then transport_write sent msg c (next_id r) started
              else (r, completes call not_connected ∷ []))
      by_transport true =
          Paid-from x r started (call ∷ []) (transport_write sent msg c (next_id r) started)
            (omega (arith, waiting-remove_key x id r.invocations))
            (transport_write-Paid x sent msg c (next_id r) started)
      by_transport false = omega arith

  pub send_notification-Paid :
      (x : ℕ) (sent : Bool) (name : List ℕ) (params : Option Node) (c : Context) (r : Rpc)
      → Paid x r [] (send_notification print parse sent name params c r).0
  unfolding send_notification
  send_notification-Paid x sent name params c r = by_transport (has_transport c r)
    where
      msg : List ℕ
      msg = print (request_message name none params)

      by_transport :
          (b : Bool)
          → (let t : (Rpc × List Effect) × Bool =
                if b then (transport_write sent msg c 0 r, true) else ((r, []), false) in
              Paid x r [] t.0)
      by_transport true = transport_write-Paid x sent msg c 0 r
      by_transport false = omega arith

  respond_to-Paid :
      (x : ℕ) (sent : Bool) (invocation_id : ℕ) (result error : Option Node)
      (o : Option InvocationData) (r : Rpc)
      → Paid x r [] (respond_to print parse sent invocation_id result error o r).0
  respond_to-Paid x sent invocation_id result error none r = omega arith
  respond_to-Paid x sent invocation_id result error (some inv) r = by_context inv.context
    where
      removed : Rpc
      removed = record r { invocations = remove_key (decimal invocation_id) r.invocations }

      msg : List ℕ
      msg = print (response_message inv.remote_id result error)

      written : (c : Context) → Paid x r [] (transport_write sent msg c invocation_id removed)
      written c =
          Paid-from x r removed [] (transport_write sent msg c invocation_id removed)
            (omega (arith, waiting-remove_key x (decimal invocation_id) r.invocations))
            (transport_write-Paid x sent msg c invocation_id removed)

      by_context :
          (c : Context)
          → (let t : (Rpc × List Effect) × Bool = elim c [
            | no_context ↦ ((r, []), false)
            | peer_context p ↦
                (transport_write sent msg (peer_context p) invocation_id removed, true)
            | other_context p ↦
                (transport_write sent msg (other_context p) invocation_id removed, true)
          ] in
              Paid x r [] t.0)
      by_context no_context = omega arith
      by_context (peer_context p) = written (peer_context p)
      by_context (other_context p) = written (other_context p)

  pub respond_full-Paid :
      (x : ℕ) (sent : Bool) (invocation_id : ℕ) (result error : Option Node) (r : Rpc)
      → Paid x r [] (respond_full print parse sent invocation_id result error r).0
  unfolding respond_full
  respond_full-Paid x sent invocation_id result error r = by_id (invocation_id == 0)
    where
      found : (Rpc × List Effect) × Bool
      found =
          respond_to print parse sent invocation_id result error
            (lookup (decimal invocation_id) r.invocations) r

      by_id :
          (b : Bool)
          → (let t : (Rpc × List Effect) × Bool = if b then ((r, []), false) else found in
              Paid x r [] t.0)
      by_id true = omega arith
      by_id false =
          respond_to-Paid x sent invocation_id result error
            (lookup (decimal invocation_id) r.invocations) r

  accept_call-Paid :
      (x : ℕ) (name : List ℕ) (args id_node : Node) (r : Rpc)
      → Paid x r [] (accept_call print parse name args id_node r)
  accept_call-Paid x name args id_node r = by_callback r.has_method_call_cb
    where
      less : waiting x (remove_key (decimal (next_id r)) r.invocations) ≤ waiting x r.invocations
      less = waiting-remove_key x (decimal (next_id r)) r.invocations

      inv : InvocationData
      inv = record { result = none; remote_id = some id_node; context = r.context }

      by_callback :
          (b : Bool)
          → Paid x r [] (
            record r {
              invocation_counter = next_id r;
              invocations = insert (decimal (next_id r)) inv r.invocations;
            },
            if b then method_call name args (next_id r) r.context ∷ [] else [],
          )
      by_callback true = omega (arith, less)
      by_callback false = omega (arith, less)

  pub on_method_called-Paid :
      (x : ℕ) (msg : Members) (id_node : Node) (r : Rpc)
      → Paid x r [] (on_method_called print parse msg id_node r)
  unfolding on_method_called
  on_method_called-Paid x msg id_node r =
      by_method (get_string (get_member (bytes "method") msg)) (get_member (bytes "params") msg)
    where
      by_args :
          (name : List ℕ) (args : Option Node)
          → Paid x r [] (with_args print parse name args id_node r)
      by_args name none = omega arith
      by_args name (some Node.null_node) = omega arith
      by_args name (some (Node.string_node s)) = omega arith
      by_args name (some (Node.value_node v)) = omega arith
      by_args name (some (Node.array_node a)) =
          accept_call-Paid x name (Node.array_node a) id_node r
      by_args name (some (Node.object_node o)) = omega arith

      by_method :
          (name : Option (List ℕ)) (args : Option Node)
          → Paid x r [] (with_method print parse name args id_node r)
      by_method none args = omega arith
      by_method (some name) args = by_args name args
