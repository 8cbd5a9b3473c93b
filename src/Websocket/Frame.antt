-- ===== src/Websocket/Frame.antt =====
-- evd/evd-websocket-protocol.c: apply_masking and build_frame.
-- The flags of the 16-bit header are disjoint bits, so that | is a sum here.
use event_dance.Common.{
  ℕ, suc, ◌+◌, ◌*◌, ◌/◌, ◌%◌, ◌^◌, leb, ltb, Bool, if◌then◌else◌, List, [], ◌∷◌, ◌++◌, length,
  get_or,
}
use Prim.Native.Nat.{bit_xor}

-- EvdWebsocketOpcodes
abbrev pub opcode_continuation : ℕ
opcode_continuation = 0

abbrev pub opcode_text_frame : ℕ
opcode_text_frame = 1

abbrev pub opcode_binary_frame : ℕ
opcode_binary_frame = 2

abbrev pub opcode_close : ℕ
opcode_close = 8

-- The loop of apply_masking from index `i` on.
unfoldable pub mask_from : ℕ → List ℕ → List ℕ → List ℕ
mask_from i [] masking_key = []
mask_from i (b ∷ frame) masking_key =
    bit_xor b (get_or masking_key (i % 4) 0) ∷ mask_from (suc i) frame masking_key

unfoldable pub apply_masking : List ℕ → List ℕ → List ℕ
unfolding mask_from
apply_masking frame masking_key = mask_from 0 frame masking_key

-- The low 16, and 64, bits of a number in network byte order.
abbrev pub be16 : ℕ → List ℕ
be16 n = n / 256 % 256 ∷ n % 256 ∷ []

abbrev pub be64 : ℕ → List ℕ
be64 n =
    n / 2 ^ 56 % 256
    ∷ n / 2 ^ 48 % 256
    ∷ n / 2 ^ 40 % 256
    ∷ n / 2 ^ 32 % 256
    ∷ n / 2 ^ 24 % 256
    ∷ n / 2 ^ 16 % 256
    ∷ n / 2 ^ 8 % 256
    ∷ n % 256
    ∷ []

-- The payload length field of the header.
unfoldable pub length_field : ℕ → ℕ
length_field payload_len =
    if leb payload_len 125 then payload_len else if ltb payload_len 65535 then 126 else 127

-- The extra bytes for the payload length.
unfoldable pub length_bytes : ℕ → List ℕ
length_bytes payload_len =
    if leb payload_len 125
    then []
    else if ltb payload_len 65535
    then be16 payload_len
    else be64 payload_len

abbrev pub flag : Bool → ℕ → ℕ
flag set_it value = if set_it then value else 0

unfoldable pub frame_header : Bool → ℕ → Bool → ℕ → ℕ
frame_header fin opcode masked payload_len =
    flag fin (2 ^ 15) + opcode * 2 ^ 8 + flag masked (2 ^ 7) + length_field payload_len

-- `masking_key` is the four bytes of g_random_int in memory; they are drawn for a masked frame only.
unfoldable pub build_frame : Bool → ℕ → Bool → List ℕ → List ℕ → List ℕ
build_frame fin opcode masked masking_key payload =
    be16 (frame_header fin opcode masked (length payload))
    ++ (length_bytes (length payload)
        ++ (if masked then masking_key ++ apply_masking payload masking_key else payload))
