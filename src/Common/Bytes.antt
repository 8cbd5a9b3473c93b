-- ===== src/Common/Bytes.antt =====
-- Facts about all bytes, found by trying each of them.
use Prim.Native.Nat.{ℕ, zero, suc, ◌≤◌, ◌<◌, bit_xor}
use mathlib.Core.Path.{◌≡◌, refl}
use mathlib.Core.Bool.{Bool, true, false}
use native.Mathlib.Omega.{arith}
use event_dance.Common.Tests.{◌==◌, if◌then◌else◌, ==_iff}

-- The test holds from 0 up to the bound, the bound included.
pub passes_to : (ℕ → Bool) → ℕ → Bool
passes_to test zero = test 0
passes_to test (suc n) = let below = passes_to test n in if test (suc n) then below else false

pub passes_to_lem :
    (test : ℕ → Bool) (bound x : ℕ) → x ≤ bound → passes_to test bound ≡ true → test x ≡ true
unfolding passes_to
passes_to_lem test zero zero le all = all
passes_to_lem test zero (suc x) le all = absurd (omega arith)
passes_to_lem test (suc n) x le all = ground (arith, passes_to_lem test n x)

abbrev returns : ℕ → ℕ → Bool
returns x key = bit_xor (bit_xor x key) key == x

xor_square : passes_to (λ x. passes_to (returns x) 255) 255 ≡ true
unfolding passes_to
xor_square = refl

-- XOR with the same byte twice gives the first byte back.
pub bit_xor_twice : (x key : ℕ) → x < 256 → key < 256 → bit_xor (bit_xor x key) key ≡ x
bit_xor_twice x key hx hk =
    let row = passes_to_lem (λ y. passes_to (returns y) 255) 255 x (omega arith) xor_square in
    (==_iff _ x).0 (passes_to_lem (returns x) 255 key (omega arith) row)
