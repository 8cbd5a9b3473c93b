-- ===== src/Jsonrpc/Endpoints.antt =====
-- evd/evd-jsonrpc.c: two ends, of which one calls a method of the other.
use event_dance.Common.{
  ℕ, suc, ◌%◌, ◌^◌, ◌<◌, ◌≡◌, refl, ap, ◌∙◌, ◌==◌, ==_iff, Bool, true, false, if◌then◌else◌, none,
  some, List, [], ◌∷◌, arith,
}
use event_dance.Common.Text.{bytes}
use event_dance.HttpConnection.{decimal}
use event_dance.Jsonrpc.{
  Node, null_node, string_node, array_node, Members, Root, object_root, same_text, get_member,
  is_null, peer_context, InvocationData, Rpc, result_response, Effect, completes, method_call,
  send_to_peer, lookup, remove_key, insert, transport_write, next_id, call_method, respond_to,
  respond_full, request_message, response_message,
}
use event_dance.Jsonrpc.Incoming.{
  on_method_called, response_of, finish_invocation, on_method_result, dispatch, on_json_packet,
}

pub same_text_refl : (s : List ℕ) → same_text s s ≡ true
same_text_refl [] = refl
same_text_refl (c ∷ cs) = rw (same c, same_text_refl cs) refl
  where
    same : (c : ℕ) → (c == c) ≡ true
    same c = (==_iff c c).1 refl

lookup-insert :
    (id : List ℕ) (inv : InvocationData) (table : List (List ℕ × InvocationData))
    → lookup id (insert id inv table) ≡ some inv
lookup-insert id inv table = rw (same_text_refl id) refl

remove_key-insert :
    (id : List ℕ) (inv : InvocationData) (table : List (List ℕ × InvocationData))
    → remove_key id (insert id inv table) ≡ remove_key id table
remove_key-insert id inv table = rw (same_text_refl id) refl

module _ (print : Members → List ℕ) (parse : List ℕ → Root) where
  -- The steps of a call between two ends: what each sends, and the states that they come to.
  pub record Answered (a b : Rpc) (name : List ℕ) (args : ℕ) (result : Node)
      (call peer_a peer_b : ℕ) : Type 0 where
    pub called : Rpc
    pub accepted : Rpc
    pub request : List ℕ
    pub response : List ℕ
    pub b_after : Rpc
    pub a_after : Rpc
    pub sends :
        call_method print parse true name (some (array_node args)) (peer_context peer_b) call a
        ≡ (called, send_to_peer peer_b request ∷ [])
    pub is_called :
        on_json_packet print parse request (record b { context = peer_context peer_a })
        ≡ some (accepted, method_call name (array_node args) (next_id b) (peer_context peer_a) ∷ [])
    pub responds :
        respond_full print parse true (next_id b) (some result) none accepted
        ≡ ((b_after, send_to_peer peer_a response ∷ []), true)
    pub completed :
        on_json_packet print parse response (record called { context = peer_context peer_b })
        ≡ some (a_after, completes call (result_response result) ∷ [])
    pub a_table : a_after.invocations ≡ remove_key (decimal (next_id a)) a.invocations
    pub b_table : b_after.invocations ≡ remove_key (decimal (next_id b)) b.invocations

  read_packet :
      (msg : Members) (text : List ℕ) (r : Rpc)
      → parse text ≡ object_root msg
      → on_json_packet print parse text r
        ≡ dispatch print parse msg
            (get_member (bytes "id") msg)
            (get_member (bytes "result") msg)
            (get_member (bytes "error") msg)
            (get_member (bytes "method") msg)
            (get_member (bytes "params") msg)
            r
  unfolding on_json_packet
  read_packet msg text r e = rw (on_json_packet, e) refl

  response_of-given :
      (result : Node)
      → is_null result ≡ false
      → response_of print parse result null_node ≡ result_response result
  response_of-given result given = rw given refl

  -- A call of a method comes back: where what is printed parses to what it was, both ends have
  -- counted less than 2 ^ 32 - 1 invocations, the end that is called has a callback for method calls and the
  -- peers take the messages, a call of any method with an array of arguments reaches the other end
  -- with its name and arguments, and the response with a result that is not null completes this call with this
  -- result at the first end. Neither table of invocations keeps anything of it.
  pub call_method-Answered :
      (a b : Rpc) (name : List ℕ) (args : ℕ) (result : Node) (call peer_a peer_b : ℕ)
      → ((m : Members) → parse (print m) ≡ object_root m)
      → suc a.invocation_counter < 2 ^ 32
      → suc b.invocation_counter < 2 ^ 32
      → b.has_method_call_cb ≡ true
      → is_null result ≡ false
      → Answered a b name args result call peer_a peer_b
  unfolding call_method transport_write on_method_called respond_full on_method_result
  call_method-Answered a b name args result call peer_a peer_b parsed few_a few_b callback given =
      record {
        called = called;
        accepted = accepted;
        request = print asked;
        response = print told;
        b_after = answered;
        a_after = ended;
        sends = refl;
        is_called =
            read_packet asked (print asked) (record b { context = peer_context peer_a })
              (parsed asked)
            ∙ ap some (accepting callback);
        responds = responding;
        completed =
            read_packet told (print told) (record called { context = peer_context peer_b })
              (parsed told)
            ∙ ap some completing;
        a_table = remove_key-insert id inv a.invocations;
        b_table = remove_key-insert (decimal (next_id b)) remote b.invocations;
      }
    where
      id : List ℕ
      id = decimal (next_id a)

      remote_key : List ℕ
      remote_key = decimal (next_id b)

      inv : InvocationData
      inv = record { result = some call; remote_id = none; context = peer_context peer_b }

      remote : InvocationData
      remote = record {
        result = none;
        remote_id = some (string_node id);
        context = peer_context peer_a;
      }

      asked : Members
      asked = request_message name (some (string_node id)) (some (array_node args))

      told : Members
      told = response_message (some (string_node id)) (some result) none

      called : Rpc
      called = record a {
        invocation_counter = next_id a;
        invocations = insert id inv a.invocations;
      }

      accepted : Rpc
      accepted = record b {
        context = peer_context peer_a;
        invocation_counter = next_id b;
        invocations = insert remote_key remote b.invocations;
      }

      answered : Rpc
      answered = record accepted { invocations = remove_key remote_key accepted.invocations }

      ended : Rpc
      ended = record called {
        context = peer_context peer_b;
        invocations = remove_key id called.invocations;
      }

      accepting :
          {cb : Bool}
          → cb ≡ true
          → ◌≡◌ {A = Rpc × List Effect}
              (
                accepted,
                if cb
                    then method_call name (array_node args) (next_id b) (peer_context peer_a) ∷ []
                    else [],
              )
              (accepted, method_call name (array_node args) (next_id b) (peer_context peer_a) ∷ [])
      accepting e =
          ap
            (λ cb. (
              accepted,
              if cb
                  then method_call name (array_node args) (next_id b) (peer_context peer_a) ∷ []
                  else [],
            ))
            e

      not_zero : (next_id b == 0) ≡ false
      not_zero = different (suc b.invocation_counter % 2 ^ 32) (omega arith)
        where
          different : (n : ℕ) → 0 < n → (n == 0) ≡ false
          different n h = ground arith

      responding :
          respond_full print parse true (next_id b) (some result) none accepted
          ≡ ((answered, send_to_peer peer_a (print told) ∷ []), true)
      responding =
          ap
            (λ zero_id.
              if zero_id
              then ((accepted, []), false)
              else respond_to print parse true (next_id b) (some result) none
                  (lookup remote_key accepted.invocations) accepted)
            not_zero
          ∙ ap (λ o. respond_to print parse true (next_id b) (some result) none o accepted)
              (lookup-insert remote_key remote b.invocations)

      completing :
          finish_invocation print parse id
            (response_of print parse result null_node)
            (lookup id called.invocations)
            (record called { context = peer_context peer_b })
          ≡ (ended, completes call (result_response result) ∷ [])
      completing =
          ap
            (λ o.
              finish_invocation print parse id (response_of print parse result null_node) o
                (record called { context = peer_context peer_b }))
            (lookup-insert id inv a.invocations)
          ∙ ap (λ response. (ended, completes call response ∷ [])) (response_of-given result given)
