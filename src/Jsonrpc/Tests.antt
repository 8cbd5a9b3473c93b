-- ===== src/Jsonrpc/Tests.antt =====
-- evd/evd-jsonrpc.c: runs and instances, with texts that stand for JSON texts.
use event_dance.Common.{
  ℕ, zero, suc, ◌+◌, ◌≤◌, ◌≡◌, refl, ap, ap₂, ◌∙◌, true, false, Option, none, some, List, [], ◌∷◌,
  ◌++◌, length, take, drop, take-append, drop-append, arith,
}
use event_dance.Common.Text.{bytes}
use event_dance.HttpConnection.{decimal}
use event_dance.Jsonrpc.{
  Node, null_node, string_node, value_node, array_node, object_node, Members, Root, no_root,
  object_root, peer_context, Rpc, new, Effect, completes, error_response, transport_write,
  call_method,
}
use event_dance.Jsonrpc.Incoming.{on_method_called, on_method_result, on_json_packet}
use event_dance.Jsonrpc.Lifecycle.{start, then_step, calls, receives}
use event_dance.Jsonrpc.Once.{occurrences, completions, waiting}
use event_dance.Jsonrpc.Once.Whole.{completed_once}
use event_dance.Jsonrpc.Endpoints.{Answered, call_method-Answered}

-- A text that can be read back: numbers of members and of characters stand before them.
abbrev print_node : Node → List ℕ → List ℕ
print_node null_node tail = 0 ∷ tail
print_node (string_node s) tail = 1 ∷ length s ∷ (s ++ tail)
print_node (value_node n) tail = 2 ∷ n ∷ tail
print_node (array_node n) tail = 3 ∷ n ∷ tail
print_node (object_node n) tail = 4 ∷ n ∷ tail

abbrev print_members : Members → List ℕ
print_members [] = []
print_members ((key, node) ∷ ms) = length key ∷ (key ++ print_node node (print_members ms))

abbrev print : Members → List ℕ
print ms = length ms ∷ print_members ms

abbrev parse_node : List ℕ → Option (Node × List ℕ)
parse_node (zero ∷ tail) = some (null_node, tail)
parse_node (suc zero ∷ n ∷ tail) = some (string_node (take n tail), drop n tail)
parse_node (suc (suc zero) ∷ n ∷ tail) = some (value_node n, tail)
parse_node (suc (suc (suc zero)) ∷ n ∷ tail) = some (array_node n, tail)
parse_node (suc (suc (suc (suc zero))) ∷ n ∷ tail) = some (object_node n, tail)
parse_node _ = none

abbrev with_member : List ℕ → Node → Option Members → Option Members
with_member key node none = none
with_member key node (some ms) = some ((key, node) ∷ ms)

abbrev parse_members : ℕ → List ℕ → Option Members
parse_members zero cs = some []
parse_members (suc k) [] = none
parse_members (suc k) (n ∷ cs) = elim (parse_node (drop n cs)) [
  | none ↦ none
  | some (node, tail) ↦ with_member (take n cs) node (parse_members k tail)
]

abbrev as_root : Option Members → Root
as_root none = no_root
as_root (some ms) = object_root ms

abbrev parse : List ℕ → Root
parse [] = no_root
parse (k ∷ cs) = as_root (parse_members k cs)

parse_node-print_node : (n : Node) (tail : List ℕ) → parse_node (print_node n tail) ≡ some (n, tail)
parse_node-print_node null_node tail = refl
parse_node-print_node (string_node s) tail =
    ap₂ (λ t u. some (string_node t, u)) (take-append s tail) (drop-append s tail)
parse_node-print_node (value_node n) tail = refl
parse_node-print_node (array_node n) tail = refl
parse_node-print_node (object_node n) tail = refl

parse_members-print_members :
    (ms : Members) → parse_members (length ms) (print_members ms) ≡ some ms
parse_members-print_members [] = refl
parse_members-print_members ((key, node) ∷ ms) =
    let tail = print_node node (print_members ms) in
    ap
      (λ (o : Option (Node × List ℕ)). elim o [
        | none ↦ none
        | some (n, rest) ↦
            with_member (take (length key) (key ++ tail)) n (parse_members (length ms) rest)
      ])
      (ap parse_node (drop-append key tail) ∙ parse_node-print_node node (print_members ms))
    ∙ ap₂ (λ k r. with_member k node r) (take-append key tail) (parse_members-print_members ms)

parse-print : (ms : Members) → parse (print ms) ≡ object_root ms
parse-print ms = ap as_root (parse_members-print_members ms)

abbrev fresh : Rpc
fresh = new false true true

call_method-Answered_example :
    Answered print parse fresh fresh (bytes "sum") 5 (value_node 7) 1 10 20
call_method-Answered_example =
    call_method-Answered print parse fresh fresh (bytes "sum") 5 (value_node 7) 1 10 20 parse-print
      (omega arith) (omega arith) refl refl

abbrev response : Node → Node → Node → List ℕ
response id error result =
    print ((bytes "id", id) ∷ (bytes "error", error) ∷ (bytes "result", result) ∷ [])

-- A response with a number for its id ends the process.
numeric_id : on_json_packet print parse (response (value_node 1) null_node null_node) fresh ≡ none
unfolding on_json_packet on_method_result
numeric_id = refl

abbrev calling : Rpc × List Effect
calling = call_method print parse true (bytes "sum") none (peer_context 20) 1 fresh

-- A null result is handed over as an error, and from whatever peer it comes.
abbrev null_packet : List ℕ
null_packet = response (string_node (bytes "1")) null_node null_node

abbrev null_answer : Rpc × List Effect
null_answer = (
  record fresh { invocation_counter = 1; context = peer_context 99 },
  completes 1 (error_response null_node) ∷ [],
)

a_null_answer :
    on_json_packet print parse null_packet (record (calling.0) { context = peer_context 99 })
    ≡ some null_answer
unfolding on_json_packet on_method_result call_method transport_write decimal
a_null_answer = refl

abbrev request : List ℕ
request = print (
    (bytes "id", value_node 4)
    ∷ (bytes "method", string_node (bytes "sum"))
    ∷ (bytes "params", array_node 5)
    ∷ [])

abbrev called_then_answered : Option (Rpc × List Effect)
called_then_answered = elim (on_json_packet print parse request fresh) [
  | none ↦ none
  | some (r, es) ↦ on_json_packet print parse null_packet r
]

-- A response that names a call from outside takes it out of the table: it cannot be answered any more.
taken_out : called_then_answered ≡ some (record fresh { invocation_counter = 1 }, [])
unfolding on_json_packet on_method_called on_method_result decimal
taken_out = refl

completed_once_example :
    completions 1 (([] ++ calling.1) ++ null_answer.1) + waiting 1 (null_answer.0).invocations
    ≤ occurrences 1 (([] ++ (1 ∷ [])) ++ [])
completed_once_example = completed_once print parse 1 (
    then_step
      (then_step (start false true true) (calls true (bytes "sum") none (peer_context 20) 1 fresh))
      (receives null_packet (peer_context 99) calling.0 null_answer a_null_answer))
