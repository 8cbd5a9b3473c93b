-- ===== src/Jsonrpc/Once.antt =====
-- evd/evd-jsonrpc.c: no call is completed twice.
pub mod Steps
pub mod Whole
use event_dance.Common.{
  ℕ, zero, suc, ◌+◌, ◌%◌, ◌^◌, ◌≤◌, ◌≡◌, refl, sym, ap, ◌∙◌, subst, ◌==◌, Bool, true, false,
  Bool-cases, not, ◌&&◌, ◌||◌, if◌then◌else◌, Option, none, some, Option-cases, List, [], ◌∷◌, ◌++◌,
  inl, inr, arith,
}
use event_dance.Common.Text.{bytes}
use event_dance.HttpConnection.{decimal}
use event_dance.Jsonrpc.{
  Node, Members, Root, no_root, other_root, object_root, same_text, get_member, get_string, is_null,
  Context, no_context, peer_context, other_context, InvocationData, Rpc, new, Response, Effect,
  completes, method_call, notification, send_to_peer, send_by_callback, complains, lookup,
  remove_key, insert, complete_with, transport_failed, not_connected, fail_invocation,
  transport_error, transport_write, has_transport, next_id, call_method, send_notification,
  respond_to, respond_full, request_message, response_message,
}
use event_dance.Jsonrpc.Incoming.{
  accept_call, with_args, with_method, on_method_called, finish_invocation, on_method_result,
  on_notification, request_packet, dispatch, on_json_packet,
}

abbrev pub one : ℕ → ℕ → ℕ
one call x = if call == x then 1 else 0

-- How often a call stands in a list.
abbrev pub occurrences : ℕ → List ℕ → ℕ
occurrences call [] = 0
occurrences call (x ∷ xs) = one call x + occurrences call xs

-- How often a call is completed.
abbrev pub completions : ℕ → List Effect → ℕ
completions call [] = 0
completions call (completes x response ∷ es) = one call x + completions call es
completions call (_ ∷ es) = completions call es

abbrev pub waits_for : ℕ → Option ℕ → ℕ
waits_for call none = 0
waits_for call (some x) = one call x

-- How often it waits in the table.
abbrev pub waiting : ℕ → List (List ℕ × InvocationData) → ℕ
waiting call [] = 0
waiting call ((key, inv) ∷ table) = waits_for call inv.result + waiting call table

pub completions-append :
    (call : ℕ) (es fs : List Effect)
    → completions call (es ++ fs) ≡ completions call es + completions call fs
completions-append call [] fs = omega arith
completions-append call (completes x response ∷ es) fs =
    omega (arith, completions-append call es fs)
completions-append call (method_call a b c d ∷ es) fs = completions-append call es fs
completions-append call (notification a b c ∷ es) fs = completions-append call es fs
completions-append call (send_to_peer a b ∷ es) fs = completions-append call es fs
completions-append call (send_by_callback a b c ∷ es) fs = completions-append call es fs
completions-append call (complains ∷ es) fs = completions-append call es fs

pub occurrences-append :
    (call : ℕ) (xs ys : List ℕ)
    → occurrences call (xs ++ ys) ≡ occurrences call xs + occurrences call ys
occurrences-append call [] ys = omega arith
occurrences-append call (x ∷ xs) ys = omega (arith, occurrences-append call xs ys)

pub waiting-remove_key :
    (call : ℕ) (id : List ℕ) (table : List (List ℕ × InvocationData))
    → waiting call (remove_key id table) ≤ waiting call table
waiting-remove_key call id [] = omega arith
waiting-remove_key call id ((key, inv) ∷ table) = elim (Bool-cases (same_text id key)) [
  | inl e ↦
      let v : waiting call table ≤ waits_for call inv.result + waiting call table = omega arith in
      rw e v
  | inr e ↦
      let v : waits_for call inv.result + waiting call (remove_key id table)
          ≤ waits_for call inv.result + waiting call table =
        omega (arith, waiting-remove_key call id table) in
      rw e v
]

-- The entry that is found is the one that is removed.
pub waiting-lookup :
    (call : ℕ) (id : List ℕ) (inv : InvocationData) (table : List (List ℕ × InvocationData))
    → lookup id table ≡ some inv
    → waits_for call inv.result + waiting call (remove_key id table) ≡ waiting call table
waiting-lookup call id inv [] e = let never : none ≡ some inv = e in cc
waiting-lookup call id inv ((key, x) ∷ table) e = elim (Bool-cases (same_text id key)) [
  | inl m ↦
      let found : lookup id ((key, x) ∷ table) ≡ some x = rw m refl in
      let same : x ≡ inv = cc in
      rw m (ap (λ (i : InvocationData). waits_for call i.result + waiting call table) (sym same))
  | inr m ↦
      let later : lookup id ((key, x) ∷ table) ≡ lookup id table = rw m refl in
      let inner = waiting-lookup call id inv table (sym later ∙ e) in
      let v : waits_for call inv.result
            + (waits_for call x.result + waiting call (remove_key id table))
          ≡ waits_for call x.result + waiting call table =
        omega (arith, inner) in
      rw m v
]

-- What an operation completes was waiting, or is new.
abbrev pub Paid : ℕ → Rpc → List ℕ → Rpc × List Effect → Type 0
Paid call r new res =
    completions call res.1 + waiting call (res.0).invocations
    ≤ waiting call r.invocations + occurrences call new

pub nothing-Paid : (call : ℕ) (r : Rpc) → Paid call r [] (r, [])
nothing-Paid call r = omega arith

pub complete_with-count :
    (call : ℕ) (response : Response) (inv : InvocationData)
    → completions call (complete_with response inv) ≡ waits_for call inv.result
complete_with-count call response inv = by_result inv.result
  where
    by_result :
        (o : Option ℕ)
        → completions call (elim o [ none ↦ [] | some x ↦ completes x response ∷ [] ])
          ≡ waits_for call o
    by_result none = refl
    by_result (some x) = omega arith

-- An invocation that is found, removed and completed.
pub removed-Paid :
    (call : ℕ) (id : List ℕ) (response : Response) (inv : InvocationData) (r : Rpc)
    → lookup id r.invocations ≡ some inv
    → Paid call r []
        (record r { invocations = remove_key id r.invocations }, complete_with response inv)
removed-Paid call id response inv r e =
    omega (arith, complete_with-count call response inv, waiting-lookup call id inv r.invocations e)

pub transport_error-Paid :
    (call invocation_id : ℕ) (r : Rpc) → Paid call r [] (transport_error invocation_id r)
unfolding transport_error
transport_error-Paid call invocation_id r =
    by_entry (lookup (decimal invocation_id) r.invocations) refl
  where
    by_entry :
        (o : Option InvocationData)
        → lookup (decimal invocation_id) r.invocations ≡ o
        → Paid call r [] (fail_invocation (decimal invocation_id) o r)
    by_entry none e = omega arith
    by_entry (some inv) e = removed-Paid call (decimal invocation_id) transport_failed inv r e

by_callback-Paid :
    (call : ℕ) (msg : List ℕ) (c : Context) (invocation_id : ℕ) (r : Rpc) (b : Bool)
    → Paid call r [] (
        if b
        then (r, send_by_callback msg c invocation_id ∷ [])
        else transport_error invocation_id r)
by_callback-Paid call msg c invocation_id r true = omega arith
by_callback-Paid call msg c invocation_id r false = transport_error-Paid call invocation_id r

pub transport_write-Paid :
    (call : ℕ) (sent : Bool) (msg : List ℕ) (c : Context) (invocation_id : ℕ) (r : Rpc)
    → Paid call r [] (transport_write sent msg c invocation_id r)
unfolding transport_write
transport_write-Paid call true msg (peer_context p) invocation_id r = omega arith
transport_write-Paid call false msg (peer_context p) invocation_id r =
    transport_error-Paid call invocation_id r
transport_write-Paid call sent msg no_context invocation_id r =
    by_callback-Paid call msg no_context invocation_id r r.has_send_cb
transport_write-Paid call sent msg (other_context c) invocation_id r =
    by_callback-Paid call msg (other_context c) invocation_id r r.has_send_cb

-- A part that starts from a state with less to wait for.
pub Paid-from :
    (call : ℕ) (r s : Rpc) (new : List ℕ) (res : Rpc × List Effect)
    → waiting call s.invocations ≤ waiting call r.invocations + occurrences call new
    → Paid call s [] res
    → Paid call r new res
Paid-from call r s new res h p = omega (arith, h, p)
