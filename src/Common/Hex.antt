-- ===== src/Common/Hex.antt =====
-- Hexadecimal numbers as the C library prints and reads them.
use event_dance.Common.Tests.{leb, ltb, ltb→lt, lt→ltb, ◌==◌, if◌then◌else◌, Bool-cases}
use Prim.Native.Nat.{ℕ, zero, suc, ◌+◌, ◌-◌, ◌*◌, ◌/◌, ◌%◌, ◌^◌, ◌≤◌, ◌<◌}
use event_dance.Common.Lists.{length}
use mathlib.Core.Path.{◌≡◌, refl, sym, ap, ◌∙◌, subst}
use mathlib.Core.Logic.{inl, inr}
use mathlib.Core.Bool.{Bool, false, ◌&&◌, ◌||◌}
use mathlib.Core.Option.{Option, none, some}
use mathlib.Core.List.{List, [], ◌∷◌, ◌++◌}
use native.Mathlib.Omega.{arith}

-- The value of a hexadecimal digit.
abbrev pub digit_value : ℕ → Option ℕ
digit_value c =
    if leb 48 c && leb c 57
    then some (c - 48)
    else if leb 97 c && leb c 102
    then some (c - 87)
    else if leb 65 c && leb c 70
    then some (c - 55)
    else none

abbrev pub hex_digit : ℕ → ℕ
hex_digit d = if ltb d 10 then 48 + d else 87 + d

-- The last `k` digits of a number, before `tail`.
abbrev pub hex_onto : ℕ → ℕ → List ℕ → List ℕ
hex_onto zero n tail = tail
hex_onto (suc k) n tail = hex_onto k (n / 16) (hex_digit (n % 16) ∷ tail)

-- How many digits a number takes, at most `fuel` and one more.
unfoldable pub places : ℕ → ℕ → ℕ
places zero n = 1
places (suc fuel) n = (let more = places fuel (n / 16) in if ltb n 16 then 1 else suc more)

-- The digits that are read, at most `width` of them, from the value `acc` on.
abbrev pub digits_of : ℕ → ℕ → List ℕ → ℕ
digits_of zero acc cs = acc
digits_of (suc width) acc [] = acc
digits_of (suc width) acc (c ∷ cs) = elim (digit_value c) [
  | none ↦ acc
  | some v ↦ digits_of width (acc * 16 + v) cs
]

abbrev pub is_x : ℕ → Bool
is_x c = (c == 120) || (c == 88)

-- A number behind its sign, with or without "0x".
abbrev pub scan_unsigned : ℕ → List ℕ → Option ℕ
scan_unsigned zero cs = none
scan_unsigned (suc width) [] = none
scan_unsigned (suc width) (c ∷ []) = elim (digit_value c) [ none ↦ none | some v ↦ some v ]
scan_unsigned (suc zero) (c ∷ c' ∷ cs) = digit_value c
scan_unsigned (suc (suc width)) (c ∷ c' ∷ cs) =
    if (c == 48) && is_x c'
    then some (digits_of width 0 cs)
    else elim (digit_value c) [ none ↦ none | some v ↦ some (digits_of (suc width) v (c' ∷ cs)) ]

abbrev pub is_space : ℕ → Bool
is_space c = (leb 9 c && leb c 13) || (c == 32)

-- `k` digits stand first.
abbrev pub StartWithDigits : ℕ → List ℕ → Type 0
StartWithDigits zero cs = Unit
StartWithDigits (suc k) [] = suc k ≤ 0
StartWithDigits (suc k) (c ∷ cs) = ((a : ℕ) × (a < 16) × (c ≡ hex_digit a)) × StartWithDigits k cs

pub hex_onto-StartWithDigits :
    (k j n : ℕ) (tail : List ℕ)
    → StartWithDigits j tail
    → StartWithDigits (k + j) (hex_onto k n tail)
hex_onto-StartWithDigits zero j n tail h =
    subst (λ i. StartWithDigits i tail) {x = j} {y = 0 + j} (omega arith) h
hex_onto-StartWithDigits (suc k) j n tail h =
    subst (λ i. StartWithDigits i (hex_onto k (n / 16) (hex_digit (n % 16) ∷ tail))) {x = k + suc j}
      {y = suc k + j} (omega arith)
      (hex_onto-StartWithDigits k (suc j) (n / 16) (hex_digit (n % 16) ∷ tail)
        ((n % 16, omega arith, refl), h))

pub StartWithDigits-fewer :
    (i k : ℕ) (cs : List ℕ) → i ≤ k → StartWithDigits k cs → StartWithDigits i cs
StartWithDigits-fewer zero k cs le h = tt
StartWithDigits-fewer (suc i) zero cs le h = absurd (omega arith)
StartWithDigits-fewer (suc i) (suc k) [] le h = absurd (omega arith)
StartWithDigits-fewer (suc i) (suc k) (c ∷ cs) le (h, hs) =
    (h, StartWithDigits-fewer i k cs (omega arith) hs)

pub digit_value-hex_digit : (d : ℕ) → d < 16 → digit_value (hex_digit d) ≡ some d
digit_value-hex_digit d h = ground arith

pub digits_of-hex_digit :
    (width acc d : ℕ) (cs : List ℕ)
    → d < 16
    → digits_of (suc width) acc (hex_digit d ∷ cs) ≡ digits_of width (acc * 16 + d) cs
digits_of-hex_digit width acc d cs h = rw (digits_of, digit_value-hex_digit d h) refl

-- What is printed is read back.
pub digits_of-hex_onto :
    (k width n : ℕ) (tail : List ℕ)
    → n < 16 ^ k
    → digits_of (k + width) 0 (hex_onto k n tail) ≡ digits_of width n tail
digits_of-hex_onto zero width n tail h =
    ap (λ w. digits_of w 0 tail) {x = 0 + width} {y = width} (omega arith)
    ∙ ap (λ a. digits_of width a tail) {x = 0} {y = n} (omega arith)
digits_of-hex_onto (suc k) width n tail h =
    ap (λ w. digits_of w 0 (hex_onto k (n / 16) (hex_digit (n % 16) ∷ tail))) {x = suc k + width}
      {y = k + suc width} (omega arith)
    ∙ digits_of-hex_onto k (suc width) (n / 16) (hex_digit (n % 16) ∷ tail) (omega arith)
    ∙ digits_of-hex_digit width (n / 16) (n % 16) tail (omega arith)
    ∙ ap (λ a. digits_of width a tail) {x = n / 16 * 16 + n % 16} {y = n} (omega arith)

-- Enough places.
pub places_enough : (fuel n : ℕ) → n < 16 ^ suc fuel → n < 16 ^ places fuel n
unfolding places
places_enough zero n h = h
places_enough (suc fuel) n h = elim (Bool-cases (ltb n 16)) [
  | inl e ↦ rw e (omega (arith, ltb→lt n 16 e))
  | inr e ↦
      let v : n < 16 ^ suc (places fuel (n / 16)) =
        omega (arith, places_enough fuel (n / 16) (omega arith)) in
      rw e v
]

pub places_few : (k fuel n : ℕ) → 0 < k → n < 16 ^ k → places fuel n ≤ k
unfolding places
places_few k zero n k0 h = k0
places_few zero (suc fuel) n k0 h = elim k0 [ ]
places_few (suc zero) (suc fuel) n k0 h = rw (lt→ltb n 16 (omega arith)) (omega arith)
places_few (suc (suc k)) (suc fuel) n k0 h = elim (Bool-cases (ltb n 16)) [
  | inl e ↦ rw e k0
  | inr e ↦
      let v : suc (places fuel (n / 16)) ≤ suc (suc k) =
        omega (arith, places_few (suc k) fuel (n / 16) (omega arith) (omega arith)) in
      rw e v
]

pub places_some : (fuel n : ℕ) → 0 < places fuel n
unfolding places
places_some zero n = omega arith
places_some (suc fuel) n = elim (Bool-cases (ltb n 16)) [
  | inl e ↦ rw e (omega arith)
  | inr e ↦ rw e (omega arith)
]

power_some : (k : ℕ) → 0 < 16 ^ k
power_some zero = omega arith
power_some (suc k) = omega (arith, power_some k)

pub places_many : (k fuel n : ℕ) → k ≤ fuel → 16 ^ k ≤ n → k < places fuel n
unfolding places
places_many zero fuel n f h = places_some fuel n
places_many (suc k) zero n f h = absurd (omega arith)
places_many (suc k) (suc fuel) n f h = elim (Bool-cases (ltb n 16)) [
  | inl e ↦ absurd (omega (arith, ltb→lt n 16 e, power_some k))
  | inr e ↦
      let v : suc k < suc (places fuel (n / 16)) =
        omega (arith, places_many k fuel (n / 16) (omega arith) (omega arith)) in
      rw e v
]

abbrev Reads : ℕ → ℕ → ℕ → List ℕ → Type 0
Reads width c c' cs =
    scan_unsigned (suc (suc width)) (c ∷ c' ∷ cs)
    ≡ some (digits_of (suc (suc width)) 0 (c ∷ c' ∷ cs))

scan_hex_digits :
    (width a b : ℕ) (cs : List ℕ) → a < 16 → b < 16 → Reads width (hex_digit a) (hex_digit b) cs
scan_hex_digits width a b cs ha hb =
    rw (no_x b hb (hex_digit a == 48), digit_value-hex_digit a ha)
      (ap some (
        ap (λ v. digits_of (suc width) v (hex_digit b ∷ cs)) {x = a} {y = 0 * 16 + a} (omega arith)
        ∙ sym (digits_of-hex_digit (suc width) 0 a (hex_digit b ∷ cs) ha)))
  where
    no_x : (d : ℕ) → d < 16 → (b : Bool) → (b && is_x (hex_digit d)) ≡ false
    no_x d h b = ground arith

pub scan_unsigned-digits :
    (width : ℕ) (cs : List ℕ)
    → StartWithDigits 2 cs
    → scan_unsigned (suc (suc width)) cs ≡ some (digits_of (suc (suc width)) 0 cs)
scan_unsigned-digits width [] h = absurd (omega arith)
scan_unsigned-digits width (c ∷ []) (_, h) = absurd (omega arith)
scan_unsigned-digits width (c ∷ c' ∷ cs) ((a, ha, ea), ((b, hb, eb), _)) =
    subst (λ d. Reads width c d cs) {x = hex_digit b} {y = c'} (sym eb)
      (subst (λ d. Reads width d (hex_digit b) cs) {x = hex_digit a} {y = c} (sym ea)
        (scan_hex_digits width a b cs ha hb))

abbrev pub skip_spaces : List ℕ → List ℕ
skip_spaces [] = []
skip_spaces (c ∷ cs) = (let later = skip_spaces cs in if is_space c then later else c ∷ cs)

abbrev negated : Option ℕ → Option ℕ
negated none = none
negated (some v) = some ((2 ^ 64 - v) % 2 ^ 64)

-- A number with or without a sign, in at most `width` characters.
abbrev pub scan_signed : ℕ → List ℕ → Option ℕ
scan_signed zero cs = none
scan_signed (suc width) [] = none
scan_signed (suc width) (c ∷ cs) =
    if c == 45
    then negated (scan_unsigned width cs)
    else if c == 43
    then scan_unsigned width cs
    else scan_unsigned (suc width) (c ∷ cs)

abbrev stored : Option ℕ → Option ℕ
stored none = none
stored (some v) = some (v % 2 ^ 32)

-- sscanf with "%x" and a width: what is stored in an unsigned int, or none where nothing is stored.
abbrev pub sscanf_hex : ℕ → List ℕ → Option ℕ
sscanf_hex width cs = stored (scan_signed width (skip_spaces cs))

pub no_sign : (d : ℕ) → d < 16 → ((hex_digit d == 45) ≡ false) × ((hex_digit d == 43) ≡ false)
no_sign d h = (ground arith, ground arith)

pub no_space : (d : ℕ) → d < 16 → is_space (hex_digit d) ≡ false
no_space d h = ground arith

pub skip_spaces-digits : (cs : List ℕ) → StartWithDigits 2 cs → skip_spaces cs ≡ cs
skip_spaces-digits [] h = refl
skip_spaces-digits (c ∷ cs) ((a, ha, ea), _) = rw (ap is_space ea ∙ no_space a ha) refl

pub scan_signed-digits :
    (width : ℕ) (cs : List ℕ)
    → StartWithDigits 2 cs
    → scan_signed (suc (suc width)) cs ≡ some (digits_of (suc (suc width)) 0 cs)
scan_signed-digits width [] h = absurd (omega arith)
scan_signed-digits width (c ∷ cs) h = no_sign_first c cs h.0 (scan_unsigned-digits width (c ∷ cs) h)
  where
    no_sign_first :
        (c : ℕ) (cs : List ℕ)
        → (a : ℕ) × (a < 16) × (c ≡ hex_digit a)
        → scan_unsigned (suc (suc width)) (c ∷ cs) ≡ some (digits_of (suc (suc width)) 0 (c ∷ cs))
        → scan_signed (suc (suc width)) (c ∷ cs) ≡ some (digits_of (suc (suc width)) 0 (c ∷ cs))
    no_sign_first c cs (a, ha, ea) e =
        rw (ap (λ d. d == 45) ea ∙ (no_sign a ha).0, ap (λ d. d == 43) ea ∙ (no_sign a ha).1) e

sscanf_hex-digits :
    (width n : ℕ) (cs : List ℕ)
    → StartWithDigits 2 cs
    → digits_of (suc (suc width)) 0 cs ≡ n
    → n < 2 ^ 32
    → sscanf_hex (suc (suc width)) cs ≡ some n
sscanf_hex-digits width n cs h e small =
    ap (λ l. stored (scan_signed (suc (suc width)) l)) (skip_spaces-digits cs h)
    ∙ ap stored (scan_signed-digits width cs h)
    ∙ ap (λ v. some (v % 2 ^ 32)) e
    ∙ ap some {x = n % 2 ^ 32} {y = n} (omega arith)

-- A number of as many digits as are read, whatever follows it.
pub sscanf_hex-hex_onto :
    (k n : ℕ) (tail : List ℕ)
    → n < 16 ^ suc (suc k)
    → n < 2 ^ 32
    → sscanf_hex (suc (suc k)) (hex_onto (suc (suc k)) n tail) ≡ some n
sscanf_hex-hex_onto k n tail h small =
    sscanf_hex-digits k n (hex_onto (suc (suc k)) n tail)
      (StartWithDigits-fewer 2 (suc (suc k) + 0) (hex_onto (suc (suc k)) n tail) (omega arith)
        (hex_onto-StartWithDigits (suc (suc k)) 0 n tail tt))
      (ap (λ w. digits_of w 0 (hex_onto (suc (suc k)) n tail)) {x = suc (suc k)}
          {y = suc (suc k) + 0} (omega arith)
        ∙ digits_of-hex_onto (suc (suc k)) 0 n tail h)
      small

pub length-hex_onto : (k n : ℕ) (tail : List ℕ) → length (hex_onto k n tail) ≡ k + length tail
length-hex_onto zero n tail = omega arith
length-hex_onto (suc k) n tail =
    omega (arith, length-hex_onto k (n / 16) (hex_digit (n % 16) ∷ tail))

-- What stands behind the digits.
pub hex_onto-append : (k n : ℕ) (xs ys : List ℕ) → hex_onto k n (xs ++ ys) ≡ hex_onto k n xs ++ ys
hex_onto-append zero n xs ys = refl
hex_onto-append (suc k) n xs ys = hex_onto-append k (n / 16) (hex_digit (n % 16) ∷ xs) ys
