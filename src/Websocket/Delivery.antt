-- ===== src/Websocket/Delivery.antt =====
-- evd/evd-websocket-protocol.c: one end sends a message, the other end reads it.
use event_dance.Common.{
  ℕ, ◌≤◌, ◌<◌, ◌≡◌, refl, sym, ap, ◌∙◌, Bool, true, false, not, some, List, [], ◌∷◌, append-nil,
  length, length-append, ◌==◌, arith,
}
use event_dance.Websocket.Connection.{Data, Effect, write, frame_cb, is_closing, is_closed}
use event_dance.Websocket.Closing.{Env}
use event_dance.Websocket.Reader.{process_data}
use event_dance.Websocket.Masking.{AreBytes}
use event_dance.Websocket.RoundTrip.{ready}
use event_dance.Websocket.RoundTrip.Frames.{Message, IsMessage, frame_read}
use event_dance.Websocket.RoundTrip.Encoded.{encoded}
use event_dance.Websocket.RoundTrip.Messages.{process_data-messages}
use event_dance.Websocket.Sender.{
  MessageType, text, binary, Sending, send, max_fragment_size, fragment_opcode,
}
use event_dance.Websocket.Sender.Fragments.{Fragments, nothing, last, fragment, send-Fragments}

abbrev pub is_binary : MessageType → Bool
is_binary text = false
is_binary binary = true

-- The message, with the key of its one fragment.
abbrev pub sole : List ℕ → MessageType → Sending → Message
sole content frame_type s = record {
  opcode = fragment_opcode frame_type true;
  key = s.keys 0;
  content = content;
}

one_fragment :
    {max_size : ℕ} {masked : Bool} {frame_type : MessageType} {s : Sending} {content : List ℕ}
    {es : List Effect}
    → Fragments max_size masked frame_type s 0 content es
    → 0 < length content
    → length content ≤ max_size
    → es ≡ write (encoded masked (sole content frame_type s)) ∷ []
one_fragment nothing some_content small = elim some_content [ ]
one_fragment (last h le) some_content small = refl
one_fragment (fragment content {left = left} e h all f) some_content small =
    absurd (omega (arith, e, h, ap length all, length-append content left, small))

data_opcode : (frame_type : MessageType) → fragment_opcode frame_type true < 8
data_opcode text = omega arith
data_opcode binary = omega arith

binary_opcode :
    (frame_type : MessageType) → (fragment_opcode frame_type true == 2) ≡ is_binary frame_type
binary_opcode text = refl
binary_opcode binary = refl

-- What is sent arrives: the bytes that evd_websocket_protocol_send writes for a message of at most
-- MAX_FRAGMENT_SIZE bytes and not of none, on a connection that is neither closing nor closed, make the
-- other end call its frame callback once, with the same bytes and the same type, and leave its buffer
-- empty, whether the sender is the server or the client, which masks its frames with a key of four
-- bytes. The other end is open, has a callback and waits for a frame.
pub send-delivered :
    (sender receiver : Data) (content : List ℕ) (frame_type : MessageType) (s : Sending) (env : Env)
    (fuel n : ℕ)
    → is_closing sender.state ≡ false
    → is_closed sender.state ≡ false
    → 0 < length content
    → length content ≤ max_fragment_size
    → AreBytes content
    → length (s.keys 0) ≡ 4
    → AreBytes (s.keys 0)
    → receiver.has_frame_cb ≡ true
    → is_closed receiver.state ≡ false
    → length content < fuel
    → 3 < n
    → (bytes : List ℕ) × (send fuel (some sender) content frame_type s
        ≡ some (write bytes ∷ [], true))
      × (process_data n (ready receiver bytes) env
          ≡ some (
            ready (frame_read receiver (not sender.server) (sole content frame_type s)) [],
            frame_cb content (is_binary frame_type) ∷ [],
            true,
          ))
send-delivered sender receiver content frame_type s env fuel n c o some_content small b k kb cb ro
      hf hn =
    let m = sole content frame_type s in
    let masked = not sender.server in
    let (es, sent, parts) = send-Fragments fuel sender content frame_type s c o hf in
    let v : IsMessage m = record {
      is_data = data_opcode frame_type;
      key_length = k;
      key_bytes = kb;
      content_bytes = b;
      content_small = omega arith;
    } in
    (
      encoded masked m,
      sent ∙ ap (λ l. some (l, true)) (one_fragment parts some_content small),
      ap (λ l. process_data n (ready receiver l) env) (sym (append-nil (encoded masked m)))
          ∙ process_data-messages receiver env masked (m ∷ []) (v, tt) cb ro n (omega arith)
          ∙ ap (λ x. some (ready (frame_read receiver masked m) [], frame_cb content x ∷ [], true))
              (binary_opcode frame_type),
    )
