-- ===== src/JsonFilter/Feeding.antt =====
-- evd_json_filter_feed_len keeps the stack within its bounds, whatever the bytes.
use event_dance.Common.{
  ℕ, suc, ◌≡◌, refl, inl, inr, Bool, true, false, Bool-cases, Option, none, some, Option-cases,
  List, [], ◌∷◌, replicate,
}
use event_dance.Common.Int.{ℤ, pos, negsuc, signed8}
use event_dance.JsonFilter.{
  Filter, Verdict, moved, acted, rejected, Fed, Round, next, stop, mode_eq, mode_done, max_depth,
  mode_array, ◌>>=◌, check_char, conclude, process, reset, accepted, prepend, feed_char, feed_loop,
  feed_len, new, keep_rest,
}
use event_dance.JsonFilter.Table.{go}
use event_dance.JsonFilter.Safety.{
  IsSound, SoundVerdict, reset_checker-IsSound, current_mode, check_char-Sound,
}

abbrev SoundFiltered : Option (Filter × Bool) → Type 0
SoundFiltered none = ⊥
SoundFiltered (some (f, b)) = IsSound f.checker

abbrev pub SoundRound : Option Round → Type 0
SoundRound none = ⊥
SoundRound (some (next f ps)) = IsSound f.checker
SoundRound (some (stop f)) = IsSound f.checker

abbrev SoundFed : Option Fed → Type 0
SoundFed none = ⊥
SoundFed (some r) = IsSound r.filter.checker

conclude-Sound :
    (f : Filter) (i : ℕ) (v : Option Verdict)
    → SoundVerdict v
    → SoundFiltered (v >>= λ x. some (conclude f i x))
conclude-Sound f i none s = s
conclude-Sound f i (some (moved k)) s = s
conclude-Sound f i (some (acted k)) s = s
conclude-Sound f i (some (rejected k)) s = s

-- Whatever the character and the offset, evd_json_filter_process ends without an access outside of
-- the stack and leaves a sound checker, if the checker was sound.
pub process-Sound : (f : Filter) (c : ℤ) (i : ℕ) → IsSound f.checker → SoundFiltered (process f c i)
unfolding process
process-Sound f c i s = conclude-Sound f i (check_char f.checker c) (check_char-Sound f.checker c s)

deliver-Sound :
    (buffer : List ℕ) (i : ℕ) (f : Filter) (z : ℤ)
    → f.content_start ≡ z
    → IsSound f.checker
    → SoundRound (accepted buffer i (record f { content_start = z }, true))
unfolding reset
deliver-Sound buffer i f (negsuc n) e s = s
deliver-Sound buffer i f (pos start) e s =
    let (m, e') = current_mode f.checker s in
    rw e' (elim (Bool-cases (mode_eq m mode_done)) [
      | inl d ↦ let (k, e'', s') = reset_checker-IsSound f.checker s.size in rw (d, e'') s'
      | inr d ↦ rw d s
    ])

accepted-Sound :
    (buffer : List ℕ) (i : ℕ) (r : Option (Filter × Bool))
    → SoundFiltered r
    → SoundRound (r >>= accepted buffer i)
accepted-Sound buffer i none s = s
accepted-Sound buffer i (some (f, true)) s = deliver-Sound buffer i f f.content_start refl s
accepted-Sound buffer i (some (f, false)) s = s

pub feed_char-Sound :
    (buffer : List ℕ) (f : Filter) (c i : ℕ)
    → IsSound f.checker
    → SoundRound (feed_char buffer f c i)
unfolding feed_char
feed_char-Sound buffer f c i s =
    accepted-Sound buffer i (process f (signed8 c) i) (process-Sound f (signed8 c) i s)

prepend-Sound :
    (ps : List (List ℕ)) (r : Option Fed) → SoundFed r → SoundFed (r >>= λ x. some (prepend ps x))
prepend-Sound ps none s = s
prepend-Sound ps (some r) s = s

keep_rest-Sound :
    (buffer : List ℕ) (f : Filter) (z : ℤ)
    → IsSound f.checker
    → IsSound (keep_rest buffer f z).checker
keep_rest-Sound buffer f (negsuc n) s = s
keep_rest-Sound buffer f (pos start) s = s

feed_loop-Sound :
    (buffer : List ℕ) (f : Filter) (i : ℕ) (rest : List ℕ)
    → IsSound f.checker
    → SoundFed (feed_loop buffer f i rest)
unfolding feed_loop
feed_loop-Sound buffer f i [] s = keep_rest-Sound buffer f f.content_start s
feed_loop-Sound buffer f i (c ∷ cs) s =
    let r = feed_char-Sound buffer f c i s in
    elim (Option-cases (feed_char buffer f c i)) [
      | inl e ↦ absurd (rw e at r)
      | inr (next f' ps, e) ↦ rw e (
          prepend-Sound ps (feed_loop buffer f' (suc i) cs)
            (feed_loop-Sound buffer f' (suc i) cs (rw e at r)))
      | inr (stop f', e) ↦ rw e (rw e at r)
    ]

SoundFed-some : (r : Option Fed) → SoundFed r → (d : Fed) × (r ≡ some d) × IsSound d.filter.checker
SoundFed-some none s = absurd s
SoundFed-some (some d) s = (d, refl, s)

-- On any bytes evd_json_filter_feed_len returns, with every access to the stack inside of it, and
-- leaves a sound checker behind, if the checker was sound.
pub feed_len-IsSound :
    (f : Filter) (buffer : List ℕ)
    → IsSound f.checker
    → (d : Fed) × (feed_len f buffer ≡ some d) × IsSound d.filter.checker
unfolding feed_len
feed_len-IsSound f buffer s =
    SoundFed-some (feed_loop buffer f 0 buffer) (feed_loop-Sound buffer f 0 buffer s)

-- A new filter is sound.
pub new-IsSound : (f : Filter) × (new ≡ some f) × IsSound f.checker
unfolding new reset
new-IsSound =
    let (k, e, s) =
      reset_checker-IsSound
        (record { state = go; depth = 0; top = pos 0; stack = replicate max_depth mode_array })
        refl in
    (
      record { checker = k; content_start = negsuc 0; cache = []; has_handler = false },
      rw e refl,
      s,
    )
