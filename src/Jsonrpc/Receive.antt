-- ===== src/Jsonrpc/Receive.antt =====
-- evd/evd-jsonrpc.c on evd/evd-json-filter.c: what comes from a transport, in pieces of any size.
use event_dance.Common.{ℕ, Bool, true, false, Option, none, some, List, [], ◌∷◌, ◌++◌}
use event_dance.JsonFilter.{Filter, Fed, feed_len}
use event_dance.Jsonrpc.{Members, Root, Context, no_context, Rpc, Effect, transport_error}
use event_dance.Jsonrpc.Incoming.{on_json_packet}

abbrev pub and_effects : List Effect → Option (Rpc × List Effect) → Option (Rpc × List Effect)
and_effects es none = none
and_effects es (some (r, more)) = some (r, es ++ more)

module _ (print : Members → List ℕ) (parse : List ℕ → Root) where
  -- The packets that the filter hands over, one after the other.
  abbrev pub on_json_packets : List (List ℕ) → Rpc → Option (Rpc × List Effect)
  on_json_packets [] r = some (r, [])
  on_json_packets (p ∷ ps) r = elim (on_json_packet print parse p r) [
    | none ↦ none
    | some (next, es) ↦ and_effects es (on_json_packets ps next)
  ]

  abbrev after_feeding : Option ℕ → ℕ → Rpc × List Effect → (Rpc × List Effect) × Bool
  after_feeding none invocation_id (r, es) = ((record r { context = no_context }, es), true)
  after_feeding (some at) invocation_id (r, es) =
      let failed = transport_error invocation_id r in
      ((record (failed.0) { context = no_context }, es ++ failed.1), false)

  abbrev handed_over :
      Filter
      → Option ℕ
      → ℕ
      → Option (Rpc × List Effect)
      → Option (Filter × ((Rpc × List Effect) × Bool))
  handed_over f error_at invocation_id none = none
  handed_over f error_at invocation_id (some r) = some (f, after_feeding error_at invocation_id r)

  abbrev fed : Option Fed → Context → ℕ → Rpc → Option (Filter × ((Rpc × List Effect) × Bool))
  fed none c invocation_id r = none
  fed (some d) c invocation_id r =
      handed_over d.filter d.error_at invocation_id
        (on_json_packets d.packets (record r { context = c }))

  -- evd_jsonrpc_transport_receive, for a message of bytes that are not NUL, with its result.
  unfoldable pub transport_receive :
      List ℕ → Context → ℕ → Filter → Rpc → Option (Filter × ((Rpc × List Effect) × Bool))
  transport_receive [] c invocation_id f r = some (f, ((r, []), true))
  transport_receive (b ∷ bs) c invocation_id f r = fed (feed_len f (b ∷ bs)) c invocation_id r
