-- ===== src/Common/Text.antt =====
-- ASCII texts as lists of bytes, for the tests.
use Prim.Native.Nat.{ℕ}
use Prim.Native.Char.{code}
use Prim.Native.String.{String}
use mathlib.Core.List.{List, [], ◌∷◌}

abbrev pub bytes : String → List ℕ
bytes String.[] = []
bytes (String.◌∷◌ letter text) = code letter ∷ bytes text
