-- ===== src/Websocket/Tests.antt =====
-- Runs of the WebSocket protocol (evd/evd-websocket-protocol.c) and instances of its theorems.
use event_dance.Common.{
  ℕ, ◌+◌, ◌-◌, ◌*◌, ◌≤◌, ◌≡◌, refl, Bool, true, false, not, if◌then◌else◌, Option, none, some, List,
  [], ◌∷◌, map, arith,
}
use event_dance.Common.Int.{pos}
use event_dance.Common.Text.{bytes}
use event_dance.Websocket.Frame.{
  apply_masking, build_frame, frame_header, length_field, length_bytes,
}
use event_dance.Websocket.Connection.{
  Data, Effect, frame_cb, close_cb, close_stream, null_call, write, read_async, payload, idle,
  opened, setup_connection,
}
use event_dance.Websocket.Closing.{
  Env, bind, unbind, close, close_timeout, on_close_frame_received, on_connection_flushed,
  gracefully,
}
use event_dance.Websocket.Reader.{
  read_header, frame_data, handle_frame, drop_frame, read_payload, read_part, start_frame,
  read_round, process_data,
}
use event_dance.Websocket.Masking.{AreBytes}
use event_dance.Websocket.RoundTrip.{ready}
use event_dance.Websocket.RoundTrip.Frames.{Message, IsMessage, delivery, frame_read}
use event_dance.Websocket.RoundTrip.Messages.{encoded_all, all_read, process_data-messages}
use event_dance.Websocket.Progress.{process_data_ends}
use event_dance.Websocket.Split.{feed_more}
use event_dance.Websocket.Split.Pieces.{process_data-more}
use event_dance.Websocket.Sender.{text, Sending, send, max_fragment_size}
use event_dance.Websocket.Sender.Fragments.{Fragments, send-Fragments, send-close}
use event_dance.Websocket.Delivery.{sole, send-delivered}
use event_dance.Websocket.Lifecycle.{Reachable, handshake, then_step, binds, closes, frames_written}
use event_dance.Websocket.Lifecycle.Safety.{close_frame_once, close_assertion}
use event_dance.Websocket.Lifecycle.Faults.{second_close_frame, unbound_timeout}
use event_dance.Websocket.Handshake.{
  Text, Headers, set_up, same_name, create_handshake_request, response_headers,
  handle_handshake_request, handle_handshake_response,
}
use event_dance.Websocket.Handshake.Agreement.{
  handshake-agreement, handle_handshake_request-wrapped,
}

abbrev server : Data
server = setup_connection true opened

abbrev bound : Data
bound = record server { has_frame_cb = true; has_close_cb = true }

abbrev env : Env
env = record { key = 1 ∷ 2 ∷ 3 ∷ 4 ∷ []; written = true }

-- "Hi" under a key.
abbrev greeting : Message
greeting = record { opcode = 1; key = 200 ∷ 17 ∷ 0 ∷ 255 ∷ []; content = 72 ∷ 105 ∷ [] }

abbrev empty_message : Message
empty_message = record { opcode = 2; key = 1 ∷ 2 ∷ 3 ∷ 4 ∷ []; content = [] }

abbrev key_bytes : AreBytes (200 ∷ 17 ∷ 0 ∷ 255 ∷ [])
key_bytes = (omega arith, (omega arith, (omega arith, (omega arith, tt))))

abbrev hi_bytes : AreBytes (72 ∷ 105 ∷ [])
hi_bytes = (omega arith, (omega arith, tt))

greeting-IsMessage : IsMessage greeting
greeting-IsMessage = record {
  is_data = omega arith;
  key_length = refl;
  key_bytes = key_bytes;
  content_bytes = hi_bytes;
  content_small = omega arith;
}

empty_message-IsMessage : IsMessage empty_message
empty_message-IsMessage = record {
  is_data = omega arith;
  key_length = refl;
  key_bytes = (omega arith, (omega arith, (omega arith, (omega arith, tt))));
  content_bytes = tt;
  content_small = omega arith;
}

-- A masked text frame as RFC 6455, 5.7 gives it.
build_frame_hello :
    build_frame true 1 true (55 ∷ 250 ∷ 33 ∷ 61 ∷ []) (bytes "Hello")
    ≡ 129 ∷ 133 ∷ 55 ∷ 250 ∷ 33 ∷ 61 ∷ 127 ∷ 159 ∷ 77 ∷ 81 ∷ 88 ∷ []
unfolding build_frame frame_header length_field length_bytes apply_masking
build_frame_hello = refl

abbrev two_messages : List Message
two_messages = greeting ∷ empty_message ∷ []

process_data-messages_example :
    process_data 7 (ready bound (encoded_all true two_messages)) env
    ≡ some (ready (all_read bound true two_messages) [], map delivery two_messages, true)
unfolding setup_connection
process_data-messages_example =
    process_data-messages bound env true two_messages
      (greeting-IsMessage, (empty_message-IsMessage, tt)) refl refl 7 (omega arith)

-- A frame of which a byte is missing.
abbrev piece : Data
piece = ready bound (130 ∷ 2 ∷ 104 ∷ [])

abbrev begun : Data
begun = record piece {
  offset = 2;
  fin = true;
  opcode = 2;
  payload_len = 2;
  reading_state = payload;
}

abbrev whole : Data
whole = record begun { offset = 0; reading_state = idle; buf = [] }

process_data-more_example :
    process_data 6 (feed_more piece (105 ∷ [])) env
    ≡ some (whole, frame_cb (104 ∷ 105 ∷ []) true ∷ [], true)
unfolding setup_connection process_data read_round start_frame read_header read_part read_payload
    handle_frame frame_data drop_frame
process_data-more_example =
    process_data-more env (105 ∷ []) (omega arith) whole (frame_cb (104 ∷ 105 ∷ []) true ∷ []) true
      3 3 piece begun [] true (omega arith) tt refl refl refl

process_data_ends_example : (r : Data × List Effect × Bool) × (process_data 7 piece env ≡ some r)
unfolding setup_connection
process_data_ends_example = process_data_ends 7 piece env (omega arith) tt (omega arith)

abbrev sending : Sending
sending = record { keys = λ i. 200 ∷ 17 ∷ 0 ∷ 255 ∷ []; results = λ i. pos 8 }

send-Fragments_example :
    (es : List Effect) × (send 3 (some server) (72 ∷ 105 ∷ []) text sending ≡ some (es, true))
    × Fragments max_fragment_size (not server.server) text sending 0 (72 ∷ 105 ∷ []) es
unfolding setup_connection
send-Fragments_example =
    send-Fragments 3 server (72 ∷ 105 ∷ []) text sending refl refl (omega arith)

send-close_example :
    send 3 (some (close server env 1000).0) (72 ∷ 105 ∷ []) text sending ≡ some ([], false)
send-close_example = send-close 3 server env 1000 (72 ∷ 105 ∷ []) text sending

send-delivered_example :
    (frame : List ℕ) × (send 3 (some server) (72 ∷ 105 ∷ []) text sending
      ≡ some (write frame ∷ [], true))
    × (process_data 4 (ready bound frame) env
        ≡ some (
          ready (frame_read bound (not server.server) (sole (72 ∷ 105 ∷ []) text sending)) [],
          frame_cb (72 ∷ 105 ∷ []) false ∷ [],
          true,
        ))
unfolding setup_connection
send-delivered_example =
    send-delivered server bound (72 ∷ 105 ∷ []) text sending env 3 4 refl refl (omega arith)
      (omega arith) hi_bytes refl key_bytes refl refl (omega arith) (omega arith)

-- The program binds a connection and closes it.
abbrev first_calls : List Effect
first_calls = read_async ∷ (close (bind server).0 env 1000).1

closed_by_program : Reachable (close (bind server).0 env 1000).0 first_calls
unfolding bind setup_connection
closed_by_program =
    then_step (then_step (handshake true) (binds refl refl) refl) (closes env 1000 _ refl) refl

close_frame_once_example : frames_written first_calls ≤ 1
close_frame_once_example =
    close_frame_once (close (bind server).0 env 1000).0 first_calls closed_by_program

just_bound : Reachable (bind server).0 (read_async ∷ [])
unfolding bind setup_connection
just_bound = then_step (handshake true) (binds refl refl) refl

close_assertion_example : (bind server).0.close_frame_sent ≡ false
unfolding bind setup_connection
close_assertion_example = close_assertion (bind server).0 (read_async ∷ []) just_bound refl

second_close_frame_example :
    let d1 = (on_close_frame_received bound env 1005).0 in
    let second = on_close_frame_received d1 env 1005 in
    (second.1 ≡ close_cb (gracefully 1005) ∷ close_stream ∷ [])
    × ((on_connection_flushed second.0).1 ≡ close_cb (gracefully 1005) ∷ close_stream ∷ [])
unfolding setup_connection
second_close_frame_example = second_close_frame bound env env 1005 1005 refl refl refl refl

unbound_timeout_example :
    let d1 = unbind (close bound env 1000).0 in
    (d1.timeout ≡ true) × ((close_timeout d1).1 ≡ null_call ∷ close_stream ∷ [])
unfolding setup_connection
unbound_timeout_example = unbound_timeout bound env 1000 refl refl

-- Headers as a list of names and values, the newest first.
abbrev lookup : List (Text × Text) → Text → Option Text
lookup [] other = none
lookup ((name, value) ∷ headers) other =
    if same_name name other then some value else lookup headers other

abbrev list_headers : Headers
list_headers = record {
  Carrier = List (Text × Text);
  empty = [];
  replace = λ headers name value. (name, value) ∷ headers;
  get_one = lookup;
  get_one-empty = λ name. refl;
  get_one-replace = λ headers name value other. refl;
}

-- The decimal number of a text of digits.
abbrev decimal : ℕ → Text → ℕ
decimal acc [] = acc
decimal acc (b ∷ bs) = decimal (acc * 10 + (b - 48)) bs

handshake-agreement_example :
    (handle_handshake_request list_headers
        (decimal 0)
        (λ key. 42 ∷ key)
        (λ h. true)
        (create_handshake_request list_headers none (some (bytes "http://here")) (bytes "key"))
      ≡ (
        set_up (setup_connection true opened),
        some (response_headers list_headers (42 ∷ bytes "key")),
      ))
    × (handle_handshake_response list_headers
          (λ key. 42 ∷ key)
          true
          101
          (response_headers list_headers (42 ∷ bytes "key"))
          (bytes "key")
        ≡ set_up (setup_connection false opened))
handshake-agreement_example =
    handshake-agreement list_headers (decimal 0) (λ key. 42 ∷ key) (λ h. true) none
      (some (bytes "http://here")) (bytes "key") refl (λ e. cc) refl

abbrev late_request : List (Text × Text)
late_request =
    (bytes "upgrade", bytes "websocket")
    ∷ (bytes "Connection", bytes "Upgrade")
    ∷ (bytes "Sec-WebSocket-Version", bytes "269")
    ∷ (bytes "Sec-WebSocket-Key", bytes "key")
    ∷ []

handle_handshake_request-wrapped_example :
    (handle_handshake_request list_headers (decimal 0) (λ key. 42 ∷ key) (λ h. true) late_request).0
    ≡ set_up (setup_connection true opened)
handle_handshake_request-wrapped_example =
    handle_handshake_request-wrapped list_headers (decimal 0) (λ key. 42 ∷ key) (λ h. true)
      late_request (bytes "269") (bytes "key") 1 refl refl refl refl refl refl
