-- ===== src/Jsonrpc.antt =====
-- evd/evd-jsonrpc.c: calls of methods, in both directions, and notifications. Times, callbacks and pending results
-- are numbers; JSON texts are parsed and printed by json-glib.
pub mod Incoming
pub mod Receive
pub mod Lifecycle
pub mod Once
pub mod Endpoints
mod Tests
use event_dance.Common.{
  ℕ, zero, suc, ◌+◌, ◌%◌, ◌^◌, ltb, ◌==◌, Bool, true, false, not, ◌&&◌, ◌||◌, if◌then◌else◌, Option,
  none, some, List, [], ◌∷◌, ◌++◌,
}
use event_dance.Common.Text.{bytes}
use event_dance.HttpConnection.{decimal}

-- A JSON value; arrays, objects and other values are known by a number.
pub data Node : Type 0 where
  null_node : Node
  string_node : List ℕ → Node
  value_node array_node object_node : ℕ → Node

abbrev pub Members : Type 0
Members = List (List ℕ × Node)

-- What json_parser_get_root gives for a text.
pub data Root : Type 0 where
  no_root other_root : Root
  object_root : Members → Root

abbrev pub same_text : List ℕ → List ℕ → Bool
same_text [] [] = true
same_text [] (d ∷ ds) = false
same_text (c ∷ cs) [] = false
same_text (c ∷ cs) (d ∷ ds) = (let rest = same_text cs ds in if c == d then rest else false)

abbrev pub get_member : List ℕ → Members → Option Node
get_member name [] = none
get_member name ((key, node) ∷ ms) =
    let later = get_member name ms in if same_text name key then some node else later

-- json_node_get_string, which gives NULL for anything else than a string.
abbrev pub get_string : Option Node → Option (List ℕ)
get_string (some (string_node s)) = some s
get_string _ = none

abbrev pub is_null : Node → Bool
is_null null_node = true
is_null _ = false

-- The user's context: a peer, or anything else; `no_context` is NULL.
pub data Context : Type 0 where
  no_context : Context
  peer_context other_context : ℕ → Context

-- InvocationData; `result` is none for a call that has come from outside.
pub record InvocationData : Type 0 where
  pub result : Option ℕ
  pub remote_id : Option Node
  pub context : Context

-- struct _EvdJsonrpcPrivate; the callbacks are set or not.
pub record Rpc : Type 0 where
  pub invocation_counter : ℕ
  pub has_send_cb : Bool
  pub invocations : List (List ℕ × InvocationData)
  pub context : Context
  pub has_method_call_cb : Bool
  pub has_notification_cb : Bool

abbrev pub new : Bool → Bool → Bool → Rpc
new send_cb method_call_cb notification_cb = record {
  invocation_counter = 0;
  has_send_cb = send_cb;
  invocations = [];
  context = no_context;
  has_method_call_cb = method_call_cb;
  has_notification_cb = notification_cb;
}

-- How a call ends.
pub data Response : Type 0 where
  result_response error_response : Node → Response
  protocol_error transport_failed not_connected : Response

pub data Effect : Type 0 where
  completes : ℕ → Response → Effect
  method_call : List ℕ → Node → ℕ → Context → Effect
  notification : Option (List ℕ) → Option Node → Context → Effect
  send_to_peer : ℕ → List ℕ → Effect
  send_by_callback : List ℕ → Context → ℕ → Effect
  complains : Effect

-- The table of invocations, by the text of the id.
abbrev pub lookup : List ℕ → List (List ℕ × InvocationData) → Option InvocationData
lookup id [] = none
lookup id ((key, inv) ∷ table) =
    let later = lookup id table in if same_text id key then some inv else later

abbrev pub remove_key : List ℕ → List (List ℕ × InvocationData) → List (List ℕ × InvocationData)
remove_key id [] = []
remove_key id ((key, inv) ∷ table) =
    let later = remove_key id table in if same_text id key then table else (key, inv) ∷ later

abbrev pub insert :
    List ℕ → InvocationData → List (List ℕ × InvocationData) → List (List ℕ × InvocationData)
insert id inv table = (id, inv) ∷ remove_key id table

-- The end of an invocation that has a result to complete.
abbrev pub complete_with : Response → InvocationData → List Effect
complete_with response inv = elim inv.result [
  | none ↦ []
  | some call ↦ completes call response ∷ []
]

-- evd_jsonrpc_transport_error
abbrev pub fail_invocation : List ℕ → Option InvocationData → Rpc → Rpc × List Effect
fail_invocation id none r = (r, [])
fail_invocation id (some inv) r =
    (record r { invocations = remove_key id r.invocations }, complete_with transport_failed inv)

unfoldable pub transport_error : ℕ → Rpc → Rpc × List Effect
transport_error invocation_id r =
    let id = decimal invocation_id in fail_invocation id (lookup id r.invocations) r

-- evd_jsonrpc_transport_write; `sent` is what evd_peer_send_text returns.
unfoldable pub transport_write : Bool → List ℕ → Context → ℕ → Rpc → Rpc × List Effect
transport_write sent msg (peer_context p) invocation_id r =
    if sent then (r, send_to_peer p msg ∷ []) else transport_error invocation_id r
transport_write sent msg c invocation_id r =
    if r.has_send_cb
    then (r, send_by_callback msg c invocation_id ∷ [])
    else transport_error invocation_id r

abbrev pub or_null : Option Node → Node
or_null none = null_node
or_null (some n) = n

abbrev pub or_empty : Option Node → Node
or_empty none = array_node 0
or_empty (some n) = n

-- evd_jsonrpc_build_message, of a request and of a response, before it is printed.
abbrev pub request_message : List ℕ → Option Node → Option Node → Members
request_message method_name id params =
    (bytes "id", or_null id)
    ∷ (bytes "method", string_node method_name)
    ∷ (bytes "params", or_empty params)
    ∷ []

abbrev pub response_message : Option Node → Option Node → Option Node → Members
response_message id params error =
    (bytes "id", or_null id)
    ∷ (bytes "error", or_null error)
    ∷ (bytes "result", or_null params)
    ∷ []

abbrev pub has_transport : Context → Rpc → Bool
has_transport (peer_context p) r = true
has_transport c r = r.has_send_cb

abbrev pub next_id : Rpc → ℕ
next_id r = suc r.invocation_counter % 2 ^ 32

module _ (print : Members → List ℕ) (parse : List ℕ → Root) where
  -- evd_jsonrpc_call_method, where `call` is the result to complete.
  unfoldable pub call_method : Bool → List ℕ → Option Node → Context → ℕ → Rpc → Rpc × List Effect
  call_method sent method_name params c call r =
      let id = decimal (next_id r) in
      let inv : InvocationData = record { result = some call; remote_id = none; context = c } in
      let started = record r {
        invocation_counter = next_id r;
        invocations = insert id inv r.invocations;
      } in
      if has_transport c r
      then transport_write sent (print (request_message method_name (some (string_node id)) params))
          c (next_id r) started
      else (r, completes call not_connected ∷ [])

  -- evd_jsonrpc_send_notification, with its result.
  unfoldable pub send_notification :
      Bool → List ℕ → Option Node → Context → Rpc → (Rpc × List Effect) × Bool
  send_notification sent notification_name params c r =
      if has_transport c r
      then (
        transport_write sent (print (request_message notification_name none params)) c 0 r,
        true,
      )
      else ((r, []), false)

  abbrev pub respond_to :
      Bool
      → ℕ
      → Option Node
      → Option Node
      → Option InvocationData
      → Rpc
      → (Rpc × List Effect) × Bool
  respond_to sent invocation_id result error none r = ((r, []), false)
  respond_to sent invocation_id result error (some inv) r =
      let removed = record r { invocations = remove_key (decimal invocation_id) r.invocations } in
      let msg = print (response_message inv.remote_id result error) in
      elim inv.context [
        | no_context ↦ ((r, []), false)
        | peer_context p ↦ (transport_write sent msg (peer_context p) invocation_id removed, true)
        | other_context p ↦ (transport_write sent msg (other_context p) invocation_id removed, true)
      ]

  -- evd_jsonrpc_respond_full, with its result.
  unfoldable pub respond_full :
      Bool → ℕ → Option Node → Option Node → Rpc → (Rpc × List Effect) × Bool
  respond_full sent invocation_id result error r =
      if invocation_id == 0
      then ((r, []), false)
      else respond_to sent invocation_id result error (lookup (decimal invocation_id) r.invocations)
          r
