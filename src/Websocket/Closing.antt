-- ===== src/Websocket/Closing.antt =====
-- evd/evd-websocket-protocol.c: the closing handshake. Each function returns the new state and its
-- effects in order. `key` is the masking key that build_frame would draw, `written` whether the
-- write of the close frame succeeds.
use event_dance.Common.{ℕ, ◌==◌, Bool, true, false, not, ◌||◌, if◌then◌else◌, List, [], ◌∷◌, ◌++◌}
use event_dance.Websocket.Frame.{build_frame, opcode_close}
use event_dance.Websocket.Connection.{
  Data, Effect, closing, closed, is_closed, is_closing, close_cb, write, flush_async, close_stream,
  start_timeout, remove_timeout, read_async, null_call,
}

abbrev pub close_normal : ℕ
close_normal = 1000

abbrev pub close_no_status : ℕ
close_no_status = 1005

-- What the surroundings decide in a call.
pub record Env : Type 0 where
  pub key : List ℕ
  pub written : Bool

unfoldable pub send_close_frame : Data → Env → List Effect × Bool
send_close_frame d env =
    (write (build_frame true opcode_close (not d.server) env.key []) ∷ [], env.written)

-- evd_websocket_protocol_close, for a connection that has WebSocket data. Its g_assert, which ends the
-- program where a close frame has been sent before, is left out.
unfoldable pub close : Data → Env → ℕ → Data × List Effect × Bool
close d env code =
    if is_closing d.state || is_closed d.state
    then (d, [], true)
    else (let sent = send_close_frame d env in
        let d' = record d { state = closing; close_frame_sent = true } in
        if d.close_frame_received
        then (record d' { close_code = code }, sent.0 ++ (flush_async ∷ []), sent.1)
        else (record d' { timeout = true }, sent.0 ++ (start_timeout ∷ []), sent.1))

unfoldable pub gracefully : ℕ → Bool
gracefully code = code == close_normal || code == close_no_status

unfoldable pub finish_close_handshake : Data → ℕ → Data × List Effect
finish_close_handshake d code = (
  record d { state = closed; timeout = false },
  (if d.has_close_cb then close_cb (gracefully code) ∷ [] else [])
      ++ (close_stream ∷ (if d.timeout then remove_timeout ∷ [] else [])),
)

unfoldable pub on_close_frame_received : Data → Env → ℕ → Data × List Effect
on_close_frame_received d env code =
    let d' = record d { close_frame_received = true } in
    if is_closing d'.state
    then finish_close_handshake d' code
    else (let r = close d' env code in (r.0, r.1))

-- A failed flush is only printed.
unfoldable pub on_connection_flushed : Data → Data × List Effect
on_connection_flushed d = finish_close_handshake d d.close_code

unfoldable pub close_timeout : Data → Data × List Effect
close_timeout d = (
  record d { timeout = false; state = closed },
  (if d.has_close_cb then close_cb false else null_call) ∷ close_stream ∷ [],
)

-- The new buffer is empty and buf_len stays as it is, so a connection is bound when no bytes wait.
unfoldable pub bind : Data → Data × List Effect
bind d = (record d { has_frame_cb = true; has_close_cb = true; buf = [] }, read_async ∷ [])

unfoldable pub unbind : Data → Data
unbind d = record d { has_frame_cb = false; has_close_cb = false }
