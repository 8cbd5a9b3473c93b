-- ===== src/Lib.antt =====
-- EventDance is a C library on GLib for communication between peers, with sockets, HTTP,
-- WebSocket, JSON-RPC and D-Bus bridges. This library models parts of evd/ whose logic is their
-- own.
--
-- The throttle of streams, evd/evd-stream-throttle.c, is StreamThrottle: `request` asks what may
-- be transferred now and `report` tells what has been. Machine integers keep their wrap-around
-- (`% 2 ^ 64`, `% 2 ^ 32`), and the clock is an argument. StreamThrottle/Bounds is about the
-- limits, StreamThrottle/Latency about the time between transfers, StreamThrottle/Progress about
-- waiting as long as the throttle says.
--
-- The JSON filter, evd/evd-json-filter.c, is JsonFilter, with the automaton in JsonFilter/Table:
-- `process` takes a character, `feed_len` a buffer, and what it hands to the packet handler is in
-- its result. `none` stands for an access outside of the stack or the table. JsonFilter/Safety
-- and JsonFilter/Feeding are about these accesses, JsonFilter/Stream and the modules below it
-- about how the input is cut into buffers, JsonFilter/Errors about what happens around errors.
--
-- The decoder of the chunked transfer encoding, evd/evd-http-chunked-decoder.c, is
-- ChunkedDecoder: `convert` runs `loop`, whose rounds are `iterate`; a write behind hdr_buf is
-- the outcome `overran`. ChunkedDecoder/Chunks is about decoding what has been encoded,
-- ChunkedDecoder/Bounds about every call, ChunkedDecoder/Overrun about headers that are too long.
--
-- The WebSocket protocol, evd/evd-websocket-protocol.c, is Websocket. Websocket/Frame writes
-- frames, Websocket/Connection is the data of a connection (EvdWebsocketData) and the calls it
-- makes to the outside, in order, as `Effect`; Websocket/Closing is the closing handshake,
-- Websocket/Reader the incremental reader (process_data and what it calls), Websocket/Sender the
-- fragmenting sender, Websocket/Handshake the opening handshake. Websocket/Lifecycle lets the
-- program and the main loop call these in any order. Websocket/Masking, Websocket/RoundTrip,
-- Websocket/Split, Websocket/Progress, Websocket/Sender/Fragments, Websocket/Delivery and the
-- modules below Websocket/Lifecycle and Websocket/Handshake hold the proofs.
--
-- The connection pool, evd/evd-connection-pool.c, is ConnectionPool, with evd_io_stream_group_add
-- and _remove of evd/evd-io-stream-group.c and what closing a stream does to its group.
-- ConnectionPool/Lifecycle lets calls follow one another in any order; ConnectionPool/Order is
-- about requests, ConnectionPool/Supply about the number of connections, ConnectionPool/Faults
-- about recycling and about what goes wrong.
--
-- The writing half of an HTTP connection, evd/evd-http-connection.c, is HttpConnection:
-- `write_content` and `write_response_headers` on a stream whose next results are listed.
-- HttpConnection/Chunked is about what a decoder makes of the chunks.
--
-- Peers are Peer, from evd/evd-peer.c: the backlog of messages and the idle timer. Peer/Sending
-- is `send_frame` of evd/evd-transport.c over a record Transport of what it uses of
-- EvdTransportInterface, with the law KeepsOrder. The long-polling server, evd/evd-longpolling-
-- server.c, is Longpolling and Longpolling/Requests, seen from one peer with the connections that
-- wait for messages; Longpolling/Client is its counterpart in evd/js/evdWebTransport.js.
-- Longpolling/Lifecycle lets events follow one another in any order, with Longpolling/Order below
-- it; Longpolling/Wire is about messages to the server, Longpolling/Delivery and the modules
-- below it about messages to the client.
--
-- The table of peers, evd/evd-peer-manager.c, is PeerManager, with
-- evd_transport_accept_peer_internal of evd/evd-transport.c. The functions of the three files
-- that close a peer call each other: together they are `close_by`, on fuel for the depth of the
-- calls, which eight levels are enough for (PeerManager/Closing). PeerManager/Signals is about
-- what is said when a peer is closed, PeerManager/Lifecycle about calls in any order.
--
-- JSON-RPC, evd/evd-jsonrpc.c, is Jsonrpc: one end with its table of invocations, and what it
-- does as a list of `Effect`. Jsonrpc/Receive puts it behind the JSON filter. Jsonrpc/Lifecycle
-- lets events follow one another in any order; Jsonrpc/Once and the modules below it are about
-- how often a call is completed, Jsonrpc/Endpoints is about two ends.
--
-- The buffered input stream, evd/evd-buffered-input-stream.c, is BufferedInput, with
-- BufferedInput/Refine and BufferedInput/Lifecycle about the bytes that it gives. The buffered
-- output stream, evd/evd-buffered-output-stream.c, is BufferedOutput, with BufferedOutput/Order
-- and BufferedOutput/Calls about the bytes that its base stream gets. Promises, evd/evd-
-- promise.c, are Promise, with the idle sources of the main loop as a list; Promise/History lets
-- events follow one another, Promise/Order is about the calls of listeners.
--
-- Loops that do not follow a list take fuel and return `none` when it runs out: process_data
-- needs two rounds for each byte in its buffer and one or two more, send_loop a round for each
-- byte and one more, convert two for each byte and two more, read_messages and xhr_on_load a
-- round for each message and one more, send_backlog a round for each message, close_by eight for
-- the depth of its calls. MAX_FRAGMENT_SIZE is an argument of send_loop.
--
-- Parameters stand for libsoup's headers (the record Headers, with what their documentation
-- says), for how json-glib parses and prints, for get_accept_key with its SHA-1 and base 64, for
-- random masking keys, for what writes return and for how a browser encodes and decodes ASCII
-- text. User data and its destructors, reference counts (but those that `release` of
-- ConnectionPool tells), locks and log messages are left out, and so is every other file of evd/.
--
-- Common has the names and lemmas that the models share; the modules called Tests hold runs and
-- instances of the theorems.
pub mod BufferedInput
pub mod BufferedOutput
pub mod ChunkedDecoder
pub mod Common
pub mod ConnectionPool
pub mod HttpConnection
pub mod JsonFilter
pub mod Jsonrpc
pub mod Longpolling
pub mod Peer
pub mod PeerManager
pub mod Promise
pub mod StreamThrottle
pub mod Websocket
