-- ===== src/Jsonrpc/Lifecycle.antt =====
-- evd/evd-jsonrpc.c: what the program and the transports may do with one end, in any order.
use event_dance.Common.{ℕ, ◌≡◌, Bool, Option, some, List, [], ◌∷◌, ◌++◌}
use event_dance.Jsonrpc.{
  Node, Members, Root, Context, Rpc, new, Effect, transport_error, call_method, send_notification,
  respond_full,
}
use event_dance.Jsonrpc.Incoming.{on_json_packet}

module _ (print : Members → List ℕ) (parse : List ℕ → Root) where
  -- One event, with the calls that the program starts by it.
  pub data Step : Rpc → List ℕ → Rpc × List Effect → Type 0 where
    calls :
        (sent : Bool) (method_name : List ℕ) (params : Option Node) (c : Context) (call : ℕ)
        (r : Rpc)
        → Step r (call ∷ []) (call_method print parse sent method_name params c call r)
    notifies :
        (sent : Bool) (name : List ℕ) (params : Option Node) (c : Context) (r : Rpc)
        → Step r [] (send_notification print parse sent name params c r).0
    responds :
        (sent : Bool) (invocation_id : ℕ) (result error : Option Node) (r : Rpc)
        → Step r [] (respond_full print parse sent invocation_id result error r).0
    fails : (invocation_id : ℕ) (r : Rpc) → Step r [] (transport_error invocation_id r)
    receives :
        (packet : List ℕ) (c : Context) (r : Rpc) (res : Rpc × List Effect)
        → on_json_packet print parse packet (record r { context = c }) ≡ some res
        → Step r [] res
    sets_callbacks :
        (send_cb method_call_cb notification_cb : Bool) (r : Rpc)
        → Step r [] (
          record r {
            has_send_cb = send_cb;
            has_method_call_cb = method_call_cb;
            has_notification_cb = notification_cb;
          },
          [],
        )

  -- A history from a new end on: the calls started so far, and what has been done.
  pub data History : List ℕ → List Effect → Rpc → Type 0 where
    start :
        (send_cb method_call_cb notification_cb : Bool)
        → History [] [] (new send_cb method_call_cb notification_cb)
    then_step :
        {started more : List ℕ} {done : List Effect} {r : Rpc} {res : Rpc × List Effect}
        → History started done r
        → Step r more res
        → History (started ++ more) (done ++ res.1) res.0
