-- ===== src/Websocket.antt =====
-- evd/evd-websocket-protocol.c: framing, the incremental reader and the closing handshake of
-- WebSocket connections.
pub mod Frame
pub mod Connection
pub mod Closing
pub mod Reader
pub mod Sender
pub mod Delivery
pub mod Lifecycle
pub mod Masking
pub mod RoundTrip
pub mod Progress
pub mod Split
pub mod Handshake
mod Tests
