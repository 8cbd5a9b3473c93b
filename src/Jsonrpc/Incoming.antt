-- ===== src/Jsonrpc/Incoming.antt =====
-- evd/evd-jsonrpc.c: the packets that come in.
use event_dance.Common.{ℕ, not, ◌||◌, if◌then◌else◌, Option, none, some, List, [], ◌∷◌}
use event_dance.Common.Text.{bytes}
use event_dance.HttpConnection.{decimal}
use event_dance.Jsonrpc.{
  Effect, InvocationData, Members, Node, Response, Root, Rpc, array_node, complains, complete_with,
  error_response, get_member, get_string, insert, is_null, lookup, method_call, next_id, no_root,
  notification, object_root, other_root, protocol_error, remove_key, result_response,
}

module _ (print : Members → List ℕ) (parse : List ℕ → Root) where
  -- evd_jsonrpc_on_method_called
  abbrev pub accept_call : List ℕ → Node → Node → Rpc → Rpc × List Effect
  accept_call method_name args id_node r =
      let inv : InvocationData = record {
        result = none;
        remote_id = some id_node;
        context = r.context;
      } in
      (
        record r {
          invocation_counter = next_id r;
          invocations = insert (decimal (next_id r)) inv r.invocations;
        },
        if r.has_method_call_cb
            then method_call method_name args (next_id r) r.context ∷ []
            else [],
      )

  abbrev pub with_args : List ℕ → Option Node → Node → Rpc → Rpc × List Effect
  with_args method_name (some (array_node a)) id_node r =
      accept_call method_name (array_node a) id_node r
  with_args method_name _ id_node r = (r, complains ∷ [])

  abbrev pub with_method : Option (List ℕ) → Option Node → Node → Rpc → Rpc × List Effect
  with_method none args id_node r = (r, complains ∷ [])
  with_method (some method_name) args id_node r = with_args method_name args id_node r

  unfoldable pub on_method_called : Members → Node → Rpc → Rpc × List Effect
  on_method_called msg id_node r =
      with_method (get_string (get_member (bytes "method") msg)) (get_member (bytes "params") msg)
        id_node r

  -- What the members "result" and "error" say.
  abbrev pub response_of : Node → Node → Response
  response_of result_node error_node =
      if not (is_null result_node || is_null error_node)
      then protocol_error
      else if not (is_null result_node)
      then result_response result_node
      else error_response error_node

  abbrev pub finish_invocation : List ℕ → Response → Option InvocationData → Rpc → Rpc × List Effect
  finish_invocation id response none r = (r, complains ∷ [])
  finish_invocation id response (some inv) r =
      (record r { invocations = remove_key id r.invocations }, complete_with response inv)

  abbrev pub with_id : Option (List ℕ) → Response → Rpc → Option (Rpc × List Effect)
  with_id none response r = none
  with_id (some id) response r = some (finish_invocation id response (lookup id r.invocations) r)

  -- evd_jsonrpc_on_method_result; none is the lookup of a NULL key, in g_str_hash.
  unfoldable pub on_method_result : Option Node → Node → Node → Rpc → Option (Rpc × List Effect)
  on_method_result id_node result_node error_node r =
      with_id (get_string id_node) (response_of result_node error_node) r

  -- evd_jsonrpc_on_notification
  abbrev pub on_notification : Members → Rpc → Rpc × List Effect
  on_notification msg r = (
    r,
    if r.has_notification_cb
        then notification (get_string (get_member (bytes "method") msg))
            (get_member (bytes "params") msg) r.context
          ∷ []
        else [],
  )

  abbrev pub request_packet : Members → Node → Rpc → Rpc × List Effect
  request_packet msg id_node r =
      if is_null id_node then on_notification msg r else on_method_called msg id_node r

  -- The kinds of messages, by their members.
  abbrev pub dispatch :
      Members
      → Option Node
      → Option Node
      → Option Node
      → Option Node
      → Option Node
      → Rpc
      → Option (Rpc × List Effect)
  dispatch msg none result error method params r = some (r, complains ∷ [])
  dispatch msg (some id) (some result) (some error) method params r =
      on_method_result (some id) result error r
  dispatch msg (some id) result error (some method) (some params) r = some (request_packet msg id r)
  dispatch msg (some id) result error method params r = some (r, complains ∷ [])

  -- evd_jsonrpc_on_json_packet; none also is the failed assertion that there is a root.
  unfoldable pub on_json_packet : List ℕ → Rpc → Option (Rpc × List Effect)
  on_json_packet text r = elim (parse text) [
    | no_root ↦ none
    | other_root ↦ some (r, complains ∷ [])
    | object_root msg ↦
        dispatch msg (get_member (bytes "id") msg) (get_member (bytes "result") msg)
          (get_member (bytes "error") msg) (get_member (bytes "method") msg)
          (get_member (bytes "params") msg) r
  ]
