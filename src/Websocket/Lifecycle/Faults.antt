-- ===== src/Websocket/Lifecycle/Faults.antt =====
-- evd/evd-websocket-protocol.c: orders of events that the closing handshake does not handle.
use event_dance.Common.{ℕ, ◌≡◌, refl, true, false, ◌||◌, [], ◌∷◌}
use event_dance.Websocket.Connection.{
  Data, close_cb, close_stream, null_call, is_closing, is_closed,
}
use event_dance.Websocket.Closing.{
  Env, gracefully, close, send_close_frame, finish_close_handshake, on_close_frame_received,
  on_connection_flushed, close_timeout, unbind,
}

-- A second close frame that comes before the answer to the first has been flushed makes the close callback run
-- twice: once when it comes, and once when the flush ends. The connection is neither closing nor
-- closed before, has a callback and no timeout.
pub second_close_frame :
    (d : Data) (env env' : Env) (code code' : ℕ)
    → is_closing d.state ≡ false
    → is_closed d.state ≡ false
    → d.has_close_cb ≡ true
    → d.timeout ≡ false
    → let d1 = (on_close_frame_received d env code).0 in
      let second = on_close_frame_received d1 env' code' in
      (second.1 ≡ close_cb (gracefully code') ∷ close_stream ∷ [])
      × ((on_connection_flushed second.0).1 ≡ close_cb (gracefully code) ∷ close_stream ∷ [])
unfolding on_close_frame_received close send_close_frame finish_close_handshake
    on_connection_flushed
second_close_frame d env env' code code' c o b t = rw (c, o, b, t) (refl, refl)

-- A connection that is unbound after it has begun to close, and whose peer does not answer,
-- calls a callback that is NULL when the grace period ends. It was neither closing nor closed
-- before, and no close frame had come.
pub unbound_timeout :
    (d : Data) (env : Env) (code : ℕ)
    → (is_closing d.state || is_closed d.state) ≡ false
    → d.close_frame_received ≡ false
    → let d1 = unbind (close d env code).0 in
      (d1.timeout ≡ true) × ((close_timeout d1).1 ≡ null_call ∷ close_stream ∷ [])
unfolding close send_close_frame unbind close_timeout
unbound_timeout d env code o r = rw (o, r) (refl, refl)
