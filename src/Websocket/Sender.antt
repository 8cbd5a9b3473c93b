-- ===== src/Websocket/Sender.antt =====
-- evd/evd-websocket-protocol.c: send_data_frame and evd_websocket_protocol_send. MAX_FRAGMENT_SIZE is
-- an argument of the loop. `keys i` is the masking key of the i-th fragment and `results i` what
-- g_output_stream_write returns for it, a gssize.
pub mod Fragments
use event_dance.Common.{
  ℕ, zero, suc, ◌-◌, ◌^◌, ltb, leb, min, ◌==◌, Bool, true, false, not, ◌||◌, if◌then◌else◌, Option,
  none, some, List, [], ◌∷◌, length, take, drop,
}
use event_dance.Common.Int.{ℤ, pos, is_neg}
use event_dance.Websocket.Frame.{
  build_frame, opcode_text_frame, opcode_binary_frame, opcode_continuation,
}
use event_dance.Websocket.Connection.{State, none_yet, is_closing, is_closed, Data, Effect, write}

abbrev pub max_fragment_size : ℕ
max_fragment_size = 2 ^ 28

-- EvdMessageType
pub data MessageType : Type 0 where
  text binary : MessageType

abbrev opcode_of : MessageType → ℕ
opcode_of text = opcode_text_frame
opcode_of binary = opcode_binary_frame

-- What the surroundings decide while a message is sent.
pub record Sending : Type 0 where
  pub keys : ℕ → List ℕ
  pub results : ℕ → ℤ

-- `! r` of C.
abbrev not_int : ℤ → ℤ
not_int (pos zero) = pos 1
not_int r = pos 0

-- The test of the source, `! g_output_stream_write (...) < 0`.
abbrev pub write_failed : ℤ → Bool
write_failed r = is_neg (not_int r)

abbrev pub fragment_opcode : MessageType → Bool → ℕ
fragment_opcode frame_type first = if first then opcode_of frame_type else opcode_continuation

abbrev pub effect_first : Effect → Option (List Effect × Bool) → Option (List Effect × Bool)
effect_first e none = none
effect_first e (some (es, b)) = some (e ∷ es, b)

-- The loop, on fuel; `i` counts the fragments, so bytes_sent == 0 at the first one only.
unfoldable pub send_loop :
    ℕ → ℕ → Bool → MessageType → Sending → ℕ → List ℕ → Option (List Effect × Bool)
send_loop zero max_size masked frame_type s i left = none
send_loop (suc fuel) max_size masked frame_type s i left =
    let frag_len = min max_size (length left) in
    let fin = leb (length left) frag_len in
    let frag =
      build_frame fin (fragment_opcode frame_type (i == 0)) masked (s.keys i)
        (take frag_len left) in
    let rest = send_loop fuel max_size masked frame_type s (suc i) (drop frag_len left) in
    if ltb 0 (length left)
    then (if write_failed (s.results i)
        then some (write frag ∷ [], false)
        else effect_first (write frag) rest)
    else some ([], true)

unfoldable pub send_data_frame :
    ℕ → Data → List ℕ → MessageType → Sending → Option (List Effect × Bool)
send_data_frame fuel d frame frame_type s =
    send_loop fuel max_fragment_size (not d.server) frame_type s 0 frame

-- evd_websocket_protocol_send, with what is attached to the connection.
unfoldable pub send : ℕ → Option Data → List ℕ → MessageType → Sending → Option (List Effect × Bool)
send fuel none frame frame_type s = some ([], false)
send fuel (some d) frame frame_type s =
    if is_closing d.state || is_closed d.state
    then some ([], false)
    else send_data_frame fuel d frame frame_type s

unfoldable pub get_state : Option Data → State
get_state none = none_yet
get_state (some d) = d.state
