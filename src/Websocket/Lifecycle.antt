-- ===== src/Websocket/Lifecycle.antt =====
-- evd/evd-websocket-protocol.c: the life of a connection after the handshake, as the calls of the
-- program and of the main loop that change its data. Their order is free, except that a timeout needs
-- its source and that no flush ends before one has begun.
pub mod Cost
pub mod Safety
pub mod Faults
use event_dance.Common.{
  ℕ, suc, ◌+◌, ◌<◌, ◌≡◌, Bool, true, false, ◌||◌, if◌then◌else◌, some, List, [], ◌∷◌, ◌++◌,
}
use event_dance.Websocket.Connection.{
  State, closing, closed, Data, Effect, frame_cb, close_cb, write, flush_async, close_stream,
  start_timeout, remove_timeout, read_async, null_call, setup_connection, opened, is_closing,
  is_closed,
}
use event_dance.Websocket.Closing.{Env, close, on_connection_flushed, close_timeout, bind, unbind}
use event_dance.Websocket.Reader.{ReadResult, on_connection_read}

-- One call.
pub data Step (d : Data) : Data → List Effect → Type 0 where
  binds : {d' : Data} {es : List Effect} → d.buf ≡ [] → bind d ≡ (d', es) → Step d d' es
  unbinds : {d' : Data} → unbind d ≡ d' → Step d d' []
  closes :
      {d' : Data} {es : List Effect} (env : Env) (code : ℕ) (result : Bool)
      → close d env code ≡ (d', es, result)
      → Step d d' es
  reads :
      {d' : Data} {es : List Effect} (fuel : ℕ) (env : Env) (bytes : ReadResult)
      → on_connection_read fuel d env bytes ≡ some (d', es)
      → Step d d' es
  times_out :
      {d' : Data} {es : List Effect} → d.timeout ≡ true → close_timeout d ≡ (d', es) → Step d d' es
  flushes :
      {d' : Data} {es : List Effect}
      → d.close_frame_sent ≡ true
      → on_connection_flushed d ≡ (d', es)
      → Step d d' es

-- The calls so far and all that they have done, from a finished handshake on.
pub data Reachable : Data → List Effect → Type 0 where
  handshake : (is_server : Bool) → Reachable (setup_connection is_server opened) []
  then_step :
      {d d' : Data} {es fs all : List Effect}
      → Reachable d es
      → Step d d' fs
      → all ≡ es ++ fs
      → Reachable d' all

-- The frames written by the closing handshake; the data frames are written by the sender.
abbrev pub frames_written : List Effect → ℕ
frames_written [] = 0
frames_written (write bytes ∷ es) = suc (frames_written es)
frames_written (e ∷ es) = frames_written es
