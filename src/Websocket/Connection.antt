-- ===== src/Websocket/Connection.antt =====
-- evd/evd-websocket-protocol.c: the data attached to a WebSocket connection, and what the protocol
-- does to its surroundings. `buf` holds the bytes received and not yet dropped, so buf_len is its
-- length; extension_len is 0, since g_slice_new0 is the only code that sets it.
use event_dance.Common.{ℕ, Bool, true, false, List, []}

-- EvdWebsocketState
pub data State : Type 0 where
  none_yet opening opened closing closed : State

abbrev pub is_closed : State → Bool
is_closed closed = true
is_closed _ = false

abbrev pub is_closing : State → Bool
is_closing closing = true
is_closing _ = false

-- EvdWebsocketReadingStates
pub data ReadingState : Type 0 where
  idle payload_len header masking_key payload : ReadingState

-- EvdWebsocketData. `has_close_cb` tells whether `close_cb` is set, `timeout` whether
-- `close_timeout_src_id` is not 0.
pub record Data : Type 0 where
  pub server : Bool
  pub has_frame_cb : Bool
  pub has_close_cb : Bool
  pub state : State
  pub reading_state : ReadingState
  pub buf : List ℕ
  pub offset : ℕ
  pub opcode : ℕ
  pub payload_len : ℕ
  pub close_frame_sent : Bool
  pub close_frame_received : Bool
  pub close_code : ℕ
  pub fin : Bool
  pub masked : Bool
  pub masking_key : List ℕ
  pub timeout : Bool

-- A call to the outside. `null_call` is a call through a callback that is NULL.
pub data Effect : Type 0 where
  frame_cb : List ℕ → Bool → Effect
  close_cb : Bool → Effect
  write : List ℕ → Effect
  flush_async : Effect
  close_stream : Effect
  start_timeout : Effect
  remove_timeout : Effect
  read_async : Effect
  null_call : Effect

-- setup_connection, on the zeroed structure.
unfoldable pub setup_connection : Bool → State → Data
setup_connection is_server state = record {
  server = is_server;
  has_frame_cb = false;
  has_close_cb = false;
  state = state;
  reading_state = idle;
  buf = [];
  offset = 0;
  opcode = 0;
  payload_len = 0;
  close_frame_sent = false;
  close_frame_received = false;
  close_code = 0;
  fin = false;
  masked = false;
  masking_key = [];
  timeout = false;
}
