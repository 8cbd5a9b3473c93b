-- ===== src/JsonFilter/Safety.antt =====
-- evd_json_filter_process never reads or writes outside of the 128 entries of its stack.
use event_dance.Common.{
  ℕ, zero, suc, ◌≤◌, ◌<◌, ◌≡◌, refl, ◌∙◌, ◌⊎◌, inl, inr, Bool, true, false, Bool-cases, Option,
  none, some, Option-cases, List, [], ◌∷◌, length, length-set, get_elem?, get_elem?-set_self,
  get_elem?-set_ne, set, arith,
}
use event_dance.Common.Int.{ℤ, pos, negsuc, pred_ℤ}
use native.Mathlib.Decide.{dec_lt}
use event_dance.JsonFilter.Table.{
  State, Cell, state_transition_table, fail, goto, colon, comma, quote, lsqrb, lcurb, rsqrb, rcurb,
  empty_rcurb,
}
use event_dance.JsonFilter.{
  Mode, mode_array, mode_done, mode_key, mode_object, mode_eq, max_depth, Checker, Verdict, moved,
  acted, rejected, ◌>>=◌, stack_get, push, pop, reset_checker, error, finish, and_push, on_quote,
  on_comma, perform, classify, check_char,
}

abbrev pub InStack : ℤ → Type 0
InStack (pos n) = n < max_depth
InStack (negsuc n) = ⊥

-- The stack has its size, `top` is an index of it, and its first entry is MODE_DONE.
pub record IsSound (k : Checker) : Type 0 where
  pub size : length k.stack ≡ max_depth
  pub limit : k.depth ≡ max_depth
  pub inside : InStack k.top
  pub bottom : get_elem? k.stack 0 ≡ some mode_done

abbrev SoundStep : Option (Checker × Bool) → Type 0
SoundStep none = ⊥
SoundStep (some (k, true)) = IsSound k
SoundStep (some (k, false)) = length k.stack ≡ max_depth

abbrev pub SoundVerdict : Option Verdict → Type 0
SoundVerdict none = ⊥
SoundVerdict (some (moved k)) = IsSound k
SoundVerdict (some (acted k)) = IsSound k
SoundVerdict (some (rejected k)) = IsSound k

set_zero-bottom :
    (l : List Mode) → length l ≡ max_depth → get_elem? (set l 0 mode_done) 0 ≡ some mode_done
set_zero-bottom l h = get_elem?-set_self l 0 mode_done (omega arith)

abbrev pub cleared : Checker → Checker
cleared k = record {
  state = State.go;
  depth = max_depth;
  top = pos 0;
  stack = set k.stack 0 mode_done;
}

pub reset_checker-cleared :
    (k : Checker) → length k.stack ≡ max_depth → reset_checker k ≡ some (cleared k)
unfolding reset_checker push
reset_checker-cleared k h = ground arith

pub reset_checker-IsSound :
    (k : Checker)
    → length k.stack ≡ max_depth
    → (k' : Checker) × (reset_checker k ≡ some k') × IsSound k'
reset_checker-IsSound k h = (
  cleared k,
  reset_checker-cleared k h,
  record {
    size = length-set k.stack 0 mode_done ∙ h;
    limit = refl;
    inside = omega arith;
    bottom = set_zero-bottom k.stack h;
  },
)

push_room :
    (k : Checker) (mode : Mode) (n : ℕ)
    → IsSound k
    → k.top ≡ pos n
    → suc n < max_depth
    → push k mode ≡ some (record k { top = pos (suc n); stack = set k.stack (suc n) mode }, true)
unfolding push
push_room k mode n s e h = ground arith

push_full :
    (k : Checker) (mode : Mode) (n : ℕ)
    → IsSound k
    → k.top ≡ pos n
    → max_depth ≤ suc n
    → push k mode ≡ some (record k { top = pos (suc n) }, false)
unfolding push
push_full k mode n s e h = ground arith

push_at : (k : Checker) (mode : Mode) (n : ℕ) → IsSound k → k.top ≡ pos n → SoundStep (push k mode)
push_at k mode n s e = elim (dec_lt (suc n) max_depth) [
  | yes room ↦ rw (push_room k mode n s e room) (record {
    size = length-set k.stack (suc n) mode ∙ s.size;
    limit = s.limit;
    inside = room;
    bottom = get_elem?-set_ne k.stack {i = suc n} {j = 0} mode (λ q. omega arith) ∙ s.bottom;
  })
  | no full ↦ rw (push_full k mode n s e (omega arith)) (s.size)
]

ℤ-cases : (z : ℤ) → ((n : ℕ) × (z ≡ pos n)) ⊎ ((n : ℕ) × (z ≡ negsuc n))
ℤ-cases (pos n) = inl (n, refl)
ℤ-cases (negsuc n) = inr (n, refl)

top_index : (k : Checker) → IsSound k → (n : ℕ) × (k.top ≡ pos n) × (n < max_depth)
top_index k s = elim (ℤ-cases k.top) [
  | inl (n, e) ↦ (n, e, rw e at (s.inside))
  | inr (n, e) ↦ absurd (rw e at (s.inside))
]

push-Sound : (k : Checker) (mode : Mode) → IsSound k → SoundStep (push k mode)
push-Sound k mode s = let (n, e, h) = top_index k s in push_at k mode n s e

get_elem?-some {ℓ} :
    {A : Type ℓ} (l : List A) (n : ℕ) → n < length l → (a : A) × (get_elem? l n ≡ some a)
get_elem?-some [] n h = absurd (omega arith)
get_elem?-some (x ∷ l) zero h = (x, refl)
get_elem?-some (x ∷ l) (suc n) h = get_elem?-some l n (omega arith)

-- stack[top] can be read.
pub current_mode : (k : Checker) → IsSound k → (m : Mode) × (stack_get k.stack k.top ≡ some m)
current_mode k s =
    let (n, e, h) = top_index k s in
    let (m, g) = get_elem?-some k.stack n (omega (arith, s.size)) in (m, rw e g)

pop_same :
    (k : Checker) (mode m : Mode) (n : ℕ)
    → k.top ≡ pos n
    → get_elem? k.stack n ≡ some m
    → mode_eq m mode ≡ true
    → pop k mode ≡ some (record k { top = pred_ℤ (pos n) }, true)
unfolding pop
pop_same k mode m n e g h = ground arith

pop_other :
    (k : Checker) (mode m : Mode) (n : ℕ)
    → k.top ≡ pos n
    → get_elem? k.stack n ≡ some m
    → mode_eq m mode ≡ false
    → pop k mode ≡ some (k, false)
unfolding pop
pop_other k mode m n e g h = ground arith

-- The bottom entry is never popped, for a pop asks for another mode.
pop_above :
    (k : Checker) (mode m : Mode) (n : ℕ)
    → IsSound k
    → mode_eq mode_done mode ≡ false
    → k.top ≡ pos n
    → get_elem? k.stack n ≡ some m
    → mode_eq m mode ≡ true
    → IsSound (record k { top = pred_ℤ (pos n) })
pop_above k mode m zero s d e g h = ground arith
pop_above k mode m (suc n) s d e g h = record {
  size = s.size;
  limit = s.limit;
  inside = omega (arith, rw e at (s.inside));
  bottom = s.bottom;
}

pop-Sound :
    (k : Checker) (mode : Mode)
    → mode_eq mode_done mode ≡ false
    → IsSound k
    → SoundStep (pop k mode)
pop-Sound k mode d s =
    let (n, e, h) = top_index k s in
    let (m, g) = get_elem?-some k.stack n (omega (arith, s.size)) in
    elim (Bool-cases (mode_eq m mode)) [
      | inl same ↦ rw (pop_same k mode m n e g same) (pop_above k mode m n s d e g same)
      | inr other ↦ rw (pop_other k mode m n e g other) (s.size)
    ]

error-Sound : (k : Checker) → length k.stack ≡ max_depth → SoundVerdict (error k)
unfolding error
error-Sound k h = let (k', e, s) = reset_checker-IsSound k h in rw e s

finish-Sound :
    (state : State) (r : Option (Checker × Bool)) → SoundStep r → SoundVerdict (r >>= finish state)
finish-Sound state none s = s
finish-Sound state (some (k, true)) s = record {
  size = s.size;
  limit = s.limit;
  inside = s.inside;
  bottom = s.bottom;
}
finish-Sound state (some (k, false)) s = error-Sound k s

and_push-Sound :
    (mode : Mode) (r : Option (Checker × Bool)) → SoundStep r → SoundStep (r >>= and_push mode)
and_push-Sound mode none s = s
and_push-Sound mode (some (k, true)) s = push-Sound k mode s
and_push-Sound mode (some (k, false)) s = s

flip-Sound :
    (state : State) (mode : Mode) (r : Option (Checker × Bool))
    → SoundStep r
    → SoundVerdict (r >>= λ x. and_push mode x >>= finish state)
flip-Sound state mode none s = s
flip-Sound state mode (some x) s =
    finish-Sound state (and_push mode x) (and_push-Sound mode (some x) s)

on_quote-Sound : (k : Checker) (m : Mode) → IsSound k → SoundVerdict (on_quote k m)
unfolding on_quote
on_quote-Sound k mode_key s = record {
  size = s.size;
  limit = s.limit;
  inside = s.inside;
  bottom = s.bottom;
}
on_quote-Sound k mode_array s = record {
  size = s.size;
  limit = s.limit;
  inside = s.inside;
  bottom = s.bottom;
}
on_quote-Sound k mode_object s = record {
  size = s.size;
  limit = s.limit;
  inside = s.inside;
  bottom = s.bottom;
}
on_quote-Sound k mode_done s = error-Sound k s.size

on_comma-Sound : (k : Checker) (m : Mode) → IsSound k → SoundVerdict (on_comma k m)
unfolding on_comma
on_comma-Sound k mode_object s =
    flip-Sound State.ke mode_key (pop k mode_object) (pop-Sound k mode_object refl s)
on_comma-Sound k mode_array s = record {
  size = s.size;
  limit = s.limit;
  inside = s.inside;
  bottom = s.bottom;
}
on_comma-Sound k mode_key s = error-Sound k s.size
on_comma-Sound k mode_done s = error-Sound k s.size

perform-Sound : (k : Checker) (c : Cell) → IsSound k → SoundVerdict (perform k c)
unfolding perform
perform-Sound k (goto state) s = record {
  size = s.size;
  limit = s.limit;
  inside = s.inside;
  bottom = s.bottom;
}
perform-Sound k empty_rcurb s = finish-Sound State.ok _ (pop-Sound k mode_key refl s)
perform-Sound k rcurb s = finish-Sound State.ok _ (pop-Sound k mode_object refl s)
perform-Sound k rsqrb s = finish-Sound State.ok _ (pop-Sound k mode_array refl s)
perform-Sound k lcurb s = finish-Sound State.ob _ (push-Sound k mode_key s)
perform-Sound k lsqrb s = finish-Sound State.ar _ (push-Sound k mode_array s)
perform-Sound k quote s = let (m, e) = current_mode k s in rw e (on_quote-Sound k m s)
perform-Sound k comma s = let (m, e) = current_mode k s in rw e (on_comma-Sound k m s)
perform-Sound k colon s =
    flip-Sound State.va mode_object (pop k mode_key) (pop-Sound k mode_key refl s)
perform-Sound k fail s = error-Sound k s.size

pub check_char-Sound : (k : Checker) (c : ℤ) → IsSound k → SoundVerdict (check_char k c)
unfolding check_char
check_char-Sound k c s = elim (Option-cases (classify c)) [
  | inl e ↦ rw e (error-Sound k s.size)
  | inr (class, e) ↦ rw e (perform-Sound k (state_transition_table k.state class) s)
]
