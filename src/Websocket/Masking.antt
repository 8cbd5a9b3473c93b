-- ===== src/Websocket/Masking.antt =====
-- evd/evd-websocket-protocol.c: apply_masking is its own inverse.
use event_dance.Common.{
  ℕ, zero, suc, ◌%◌, ◌<◌, ◌≡◌, refl, ap, ap₂, List, [], ◌∷◌, length, get_or, arith,
}
use event_dance.Common.Bytes.{bit_xor_twice}
use event_dance.Websocket.Frame.{mask_from, apply_masking}

-- A list of bytes.
abbrev pub AreBytes : List ℕ → Type 0
AreBytes [] = Unit
AreBytes (b ∷ bs) = (b < 256) × AreBytes bs

get_or-byte : (l : List ℕ) (i : ℕ) → AreBytes l → get_or l i 0 < 256
get_or-byte [] i h = omega arith
get_or-byte (b ∷ l) zero h = h.0
get_or-byte (b ∷ l) (suc i) h = get_or-byte l i h.1

mask_from_twice :
    (i : ℕ) (frame masking_key : List ℕ)
    → AreBytes frame
    → AreBytes masking_key
    → mask_from i (mask_from i frame masking_key) masking_key ≡ frame
unfolding mask_from
mask_from_twice i [] masking_key h k = refl
mask_from_twice i (b ∷ frame) masking_key h k =
    ap₂ ◌∷◌ (bit_xor_twice b (get_or masking_key (i % 4) 0) h.0 (get_or-byte masking_key (i % 4) k))
      (mask_from_twice (suc i) frame masking_key h.1 k)

-- Masking bytes twice with one key of bytes gives them back.
pub apply_masking_twice :
    (frame masking_key : List ℕ)
    → AreBytes frame
    → AreBytes masking_key
    → apply_masking (apply_masking frame masking_key) masking_key ≡ frame
unfolding apply_masking
apply_masking_twice frame masking_key h k = mask_from_twice 0 frame masking_key h k

length-mask_from :
    (i : ℕ) (frame masking_key : List ℕ) → length (mask_from i frame masking_key) ≡ length frame
unfolding mask_from
length-mask_from i [] masking_key = refl
length-mask_from i (b ∷ frame) masking_key = ap suc (length-mask_from (suc i) frame masking_key)

pub length-apply_masking :
    (frame masking_key : List ℕ) → length (apply_masking frame masking_key) ≡ length frame
unfolding apply_masking
length-apply_masking frame masking_key = length-mask_from 0 frame masking_key
