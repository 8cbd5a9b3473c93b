-- ===== src/Common/Int.antt =====
-- Signed C integers that stay far from their bounds: an index that may be -1, a plain `char`.
use event_dance.Common.Tests.{leb, ltb, if◌then◌else◌}
use Prim.Native.Nat.{ℕ, zero, suc, ◌-◌}
use mathlib.Core.Bool.{Bool, true, false}

-- `negsuc n` is -(n + 1).
pub data ℤ : Type 0 where
  pos : ℕ → ℤ
  negsuc : ℕ → ℤ

abbrev pub suc_ℤ : ℤ → ℤ
suc_ℤ (pos n) = pos (suc n)
suc_ℤ (negsuc zero) = pos 0
suc_ℤ (negsuc (suc n)) = negsuc n

abbrev pub pred_ℤ : ℤ → ℤ
pred_ℤ (pos zero) = negsuc 0
pred_ℤ (pos (suc n)) = pos n
pred_ℤ (negsuc n) = negsuc (suc n)

abbrev pub is_neg : ℤ → Bool
is_neg (pos n) = false
is_neg (negsuc n) = true

-- z >= n, for an n that is not negative.
abbrev pub geb_ℕ : ℤ → ℕ → Bool
geb_ℕ (pos m) n = leb n m
geb_ℕ (negsuc m) n = false

-- The value of a signed `char` that holds the byte `b`.
abbrev pub signed8 : ℕ → ℤ
signed8 b = if ltb b 128 then pos b else negsuc (255 - b)
