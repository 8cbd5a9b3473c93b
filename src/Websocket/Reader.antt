-- ===== src/Websocket/Reader.antt =====
-- evd/evd-websocket-protocol.c: the reader of frames. A function of the source that returns FALSE
-- when it wants more bytes returns false here.
use event_dance.Common.{
  ℕ, zero, suc, ◌+◌, ◌-◌, ◌*◌, ◌/◌, ◌%◌, ◌^◌, ltb, leb, ◌==◌, Bool, true, false, not, ◌&&◌,
  if◌then◌else◌, Option, none, some, List, [], ◌∷◌, ◌++◌, length, get_or, take, drop,
}
use event_dance.Websocket.Frame.{apply_masking, opcode_binary_frame, opcode_close}
use event_dance.Websocket.Connection.{
  closed, is_closed, ReadingState, idle, payload_len, header, masking_key, payload, Data, Effect,
  frame_cb, close_stream, read_async, null_call,
}
use event_dance.Websocket.Closing.{Env, close_no_status, on_close_frame_received}

-- data->buf->str[data->offset + i]
abbrev pub byte_at : Data → ℕ → ℕ
byte_at d i = get_or d.buf (d.offset + i) 0

abbrev pub available : Data → ℕ
available d = length d.buf - d.offset

unfoldable pub read_header : Data → Data × Bool
read_header d =
    if ltb (available d) 2
    then (d, false)
    else (let head = byte_at d 0 * 256 + byte_at d 1 in
        let masked = head / 2 ^ 7 % 2 == 1 in
        let len = head % 2 ^ 7 in
        (
          record d {
            offset = d.offset + 2;
            fin = head / 2 ^ 15 % 2 == 1;
            opcode = head / 2 ^ 8 % 2 ^ 4;
            masked = masked;
            payload_len = len;
            reading_state =
                if ltb 125 len then payload_len else if masked then masking_key else payload;
          },
          true,
        ))

-- The number that `n` bytes from data->buf->str + data->offset on hold in network byte order.
abbrev pub be_value : List ℕ → ℕ → ℕ
be_value [] acc = acc
be_value (b ∷ bs) acc = be_value bs (acc * 256 + b)

unfoldable pub read_payload_len : Data → Data × Bool
read_payload_len d =
    let n = if d.payload_len == 126 then 2 else 8 in
    if ltb (available d) n then (d, false) else (
      record d {
        offset = d.offset + n;
        payload_len = be_value (take n (drop d.offset d.buf)) 0;
        reading_state = if d.masked then masking_key else payload;
      },
      true,
    )

unfoldable pub handle_control_frame : Data → Env → Data × List Effect
handle_control_frame d env =
    if d.opcode == opcode_close
    then on_close_frame_received d env close_no_status
    else (record d { state = closed }, close_stream ∷ [])

-- The frame's data after unmasking.
unfoldable pub frame_data : Data → List ℕ
frame_data d =
    let raw = take d.payload_len (drop d.offset d.buf) in
    if d.masked then apply_masking raw d.masking_key else raw

unfoldable pub handle_frame : Data → Env → Data × List Effect
handle_frame d env =
    if leb opcode_close d.opcode
    then handle_control_frame d env
    else if d.fin
    then (
      d,
      (if d.has_frame_cb
            then frame_cb (frame_data d) (d.opcode == opcode_binary_frame)
            else null_call)
          ∷ [],
    )
    else (record d { state = closed }, close_stream ∷ [])

-- The part of read_payload that resets the reading state; `len` is data->payload_len.
unfoldable pub drop_frame : Data → Data
drop_frame d = record d {
  reading_state = idle;
  buf = drop (d.offset + d.payload_len) d.buf;
  offset = 0;
}

unfoldable pub read_payload : Data → Env → Data × List Effect × Bool
read_payload d env =
    if ltb (available d) d.payload_len
    then (d, [], false)
    else (let r = handle_frame d env in (drop_frame r.0, r.1, true))

unfoldable pub read_masking_key : Data → Env → Data × List Effect × Bool
read_masking_key d env =
    if ltb (available d) 4
    then (d, [], false)
    else (let d' = record d {
      masking_key = take 4 (drop d.offset d.buf);
      offset = d.offset + 4;
      reading_state = payload;
    } in
        if d'.payload_len == 0 then read_payload d' env else (d', [], true))

abbrev no_effect : Data × Bool → Data × List Effect × Bool
no_effect (d, b) = (d, [], b)

-- The switch of process_data.
unfoldable pub read_part : ReadingState → Data → Env → Data × List Effect × Bool
read_part payload_len d env = no_effect (read_payload_len d)
read_part masking_key d env = read_masking_key d env
read_part payload d env = read_payload d env
read_part idle d env = (d, [], true)
read_part header d env = (d, [], true)

abbrev pub is_idle : ReadingState → Bool
is_idle idle = true
is_idle _ = false

-- The header, if the reader is idle.
unfoldable pub start_frame : Data → Data × Bool
start_frame d = if is_idle d.reading_state then read_header d else (d, true)

-- The body of the loop of process_data.
unfoldable pub read_round : Data → Env → Data × List Effect × Bool
read_round d env =
    let started = start_frame d in
    if started.1 then read_part (started.0).reading_state started.0 env else (started.0, [], false)

abbrev pub goes_on : Data → Bool
goes_on d = ltb d.offset (length d.buf) && not (is_closed d.state)

abbrev pub after :
    List Effect → Option (Data × List Effect × Bool) → Option (Data × List Effect × Bool)
after es none = none
after es (some (d, fs, more)) = some (d, es ++ fs, more)

-- process_data, on fuel; `none` means that the fuel ran out.
unfoldable pub process_data : ℕ → Data → Env → Option (Data × List Effect × Bool)
process_data zero d env = none
process_data (suc fuel) d env =
    if goes_on d
    then (let r = read_round d env in
        let rest = after r.1 (process_data fuel r.0 env) in
        if r.2 then rest else some (r.0, r.1, true))
    else some (d, [], not (is_closed d.state))

-- What g_input_stream_read_finish returns: bytes, the end of the stream, or an error, which may be
-- that the stream is closed.
pub data ReadResult : Type 0 where
  received : List ℕ → ReadResult
  end_of_stream : ReadResult
  failed : Bool → ReadResult

abbrev pub then_read : Option (Data × List Effect × Bool) → Option (Data × List Effect)
then_read none = none
then_read (some (d, es, more)) = some (d, if more then es ++ (read_async ∷ []) else es)

unfoldable pub on_connection_read : ℕ → Data → Env → ReadResult → Option (Data × List Effect)
on_connection_read fuel d env (received bytes) =
    let d' = record d { buf = d.buf ++ bytes } in
    if is_closed d'.state then some (d', []) else then_read (process_data fuel d' env)
on_connection_read fuel d env end_of_stream = some (d, [])
on_connection_read fuel d env (failed closed_error) =
    some (d, if closed_error then [] else close_stream ∷ [])
