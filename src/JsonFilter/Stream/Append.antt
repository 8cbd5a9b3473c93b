-- ===== src/JsonFilter/Stream/Append.antt =====
-- Two calls of evd_json_filter_feed_len against one call with both buffers.
use event_dance.Common.{
  ℕ, zero, suc, ◌+◌, ◌≡◌, refl, sym, ap, ◌∙◌, inl, inr, Bool, Bool-cases, Option, none, some,
  Option-cases, List, [], ◌∷◌, ◌++◌, append_assoc, length, arith,
}
use event_dance.Common.Int.{ℤ, pos, negsuc, signed8}
use event_dance.JsonFilter.{
  Checker, Filter, Verdict, moved, acted, rejected, ◌>>=◌, stack_get, mode_eq, mode_done,
  check_char, conclude, process, reset, reset_checker, feed_len,
}
use event_dance.JsonFilter.Stream.{
  Outcome, streamed, broken, before, StreamRound, goes_on, malformed, stream_accepted, stream_char,
  stream, take_byte, Resting, with_content,
}
use event_dance.JsonFilter.Stream.Loop.{outcome, feed_len-stream}

abbrev RestingRound : Option StreamRound → Type 0
RestingRound none = Unit
RestingRound (some malformed) = Unit
RestingRound (some (goes_on g ps)) = Resting g.content_start g.cache

abbrev RestingOutcome : Option Outcome → Type 0
RestingOutcome none = Unit
RestingOutcome (some (broken ps i)) = Unit
RestingOutcome (some (streamed g ps)) = Resting g.content_start g.cache

module _ (b : ℕ) (h : Bool) where
  take_byte-Resting :
      (k : Checker) (cache : List ℕ)
      → RestingRound (take_byte (with_content k h (pos 0) cache) b (pos 0))
  unfolding reset
  take_byte-Resting k cache = elim (Option-cases (stack_get k.stack k.top)) [
    | inl e ↦ rw e tt
    | inr (m, e) ↦ rw e (elim (Bool-cases (mode_eq m mode_done)) [
      | inl d ↦ rw d (elim (Option-cases (reset_checker k)) [
        | inl e' ↦ rw e' tt
        | inr (k', e') ↦ rw e' (refl, refl)
      ])
      | inr d ↦ rw d refl
    ])
  ]

  accepted-Resting :
      (k : Checker) (v : Verdict) (z : ℤ) (cache : List ℕ)
      → Resting z cache
      → RestingRound (stream_accepted b (conclude (with_content k h z cache) 0 v))
  accepted-Resting k (rejected k') z cache r = tt
  accepted-Resting k (moved k') (negsuc n) cache r = r
  accepted-Resting k (moved k') (pos zero) cache r = take_byte-Resting k' cache
  accepted-Resting k (moved k') (pos (suc s)) cache r = absurd (omega arith)
  accepted-Resting k (acted k') (negsuc zero) cache r = take_byte-Resting k' cache
  accepted-Resting k (acted k') (negsuc (suc n)) cache r = absurd (omega (arith, r.0))
  accepted-Resting k (acted k') (pos zero) cache r = take_byte-Resting k' cache
  accepted-Resting k (acted k') (pos (suc s)) cache r = absurd (omega arith)

stream_char-Resting :
    (g : Filter) (b : ℕ) → Resting g.content_start g.cache → RestingRound (stream_char g b)
unfolding stream_char process
stream_char-Resting g b r = elim (Option-cases (check_char g.checker (signed8 b))) [
  | inl e ↦ rw e tt
  | inr (v, e) ↦ rw e (accepted-Resting b g.has_handler g.checker v g.content_start g.cache r)
]

before-Resting :
    (ps : List (List ℕ)) (o : Option Outcome)
    → RestingOutcome o
    → RestingOutcome (o >>= λ x. some (before ps x))
before-Resting ps none r = tt
before-Resting ps (some (streamed g qs)) r = r
before-Resting ps (some (broken qs i)) r = tt

stream-Resting :
    (g : Filter) (i : ℕ) (bs : List ℕ)
    → Resting g.content_start g.cache
    → RestingOutcome (stream g i bs)
unfolding stream
stream-Resting g i [] r = r
stream-Resting g i (b ∷ bs) r = elim (Option-cases (stream_char g b)) [
  | inl e ↦ rw e tt
  | inr (malformed, e) ↦ rw e tt
  | inr (goes_on g' ps, e) ↦ rw e (
      before-Resting ps (stream g' (suc i) bs)
        (stream-Resting g' (suc i) bs (rw e at (stream_char-Resting g b r))))
]

-- The position of an error counts from the start of the first buffer.
abbrev pub shift : ℕ → Outcome → Outcome
shift n (streamed g ps) = streamed g ps
shift n (broken ps i) = broken ps (n + i)

-- A second buffer follows, unless there was an error.
abbrev pub resume : (Filter → Option Outcome) → Outcome → Option Outcome
resume k (streamed g ps) = k g >>= λ o. some (before ps o)
resume k (broken ps i) = some (broken ps i)

abbrev pub map_before : List (List ℕ) → Option Outcome → Option Outcome
map_before ps r = r >>= λ o. some (before ps o)

abbrev pub map_shift : ℕ → Option Outcome → Option Outcome
map_shift n r = r >>= λ o. some (shift n o)

before_nil : (r : Option Outcome) → map_before [] r ≡ r
before_nil none = refl
before_nil (some (streamed g qs)) = refl
before_nil (some (broken qs i)) = refl

before_twice :
    (ps qs : List (List ℕ)) (r : Option Outcome)
    → map_before ps (map_before qs r) ≡ map_before (ps ++ qs) r
before_twice ps qs none = refl
before_twice ps qs (some (streamed g rs)) =
    ap (λ l. some (streamed g l)) (sym (append_assoc ps qs rs))
before_twice ps qs (some (broken rs i)) = ap (λ l. some (broken l i)) (sym (append_assoc ps qs rs))

before-shift :
    (ps : List (List ℕ)) (n : ℕ) (r : Option Outcome)
    → map_before ps (map_shift n r) ≡ map_shift n (map_before ps r)
before-shift ps n none = refl
before-shift ps n (some (streamed g qs)) = refl
before-shift ps n (some (broken qs i)) = refl

before-resume :
    (ps : List (List ℕ)) (k : Filter → Option Outcome) (r : Option Outcome)
    → map_before ps (r >>= resume k) ≡ (map_before ps r >>= resume k)
before-resume ps k none = refl
before-resume ps k (some (streamed g qs)) = before_twice ps qs (k g)
before-resume ps k (some (broken qs i)) = refl

stream_shift :
    (g : Filter) (n i : ℕ) (bs : List ℕ) → stream g (n + i) bs ≡ map_shift n (stream g i bs)
unfolding stream
stream_shift g n i [] = refl
stream_shift g n i (b ∷ bs) = elim (Option-cases (stream_char g b)) [
  | inl e ↦ rw e refl
  | inr (malformed, e) ↦ rw e refl
  | inr (goes_on g' ps, e) ↦ rw e (
      ap (λ m. map_before ps (stream g' m bs)) {y = n + suc i} (omega arith)
      ∙ ap (map_before ps) (stream_shift g' n (suc i) bs)
      ∙ before-shift ps n (stream g' (suc i) bs))
]

stream-append :
    (g : Filter) (i : ℕ) (xs ys : List ℕ)
    → stream g i (xs ++ ys) ≡ (stream g i xs >>= resume (λ g'. stream g' (i + length xs) ys))
unfolding stream
stream-append g i [] ys =
    ap (λ m. stream g m ys) {y = i + 0} (omega arith) ∙ sym (before_nil (stream g (i + 0) ys))
stream-append g i (x ∷ xs) ys = elim (Option-cases (stream_char g x)) [
  | inl e ↦ rw e refl
  | inr (malformed, e) ↦ rw e refl
  | inr (goes_on g' ps, e) ↦ rw e (
      ap (map_before ps) (stream-append g' (suc i) xs ys)
      ∙ before-resume ps (λ f. stream f (suc i + length xs) ys) (stream g' (suc i) xs)
      ∙ ap (λ m. map_before ps (stream g' (suc i) xs) >>= resume (λ f. stream f m ys))
          {y = i + length (x ∷ xs)} (omega arith))
]

resume_eq :
    (n : ℕ) (ys : List ℕ) (r : Option Outcome)
    → RestingOutcome r
    → (r >>= resume (λ g. stream g (n + 0) ys))
      ≡ (r >>= resume (λ g. map_shift n (outcome (feed_len g ys))))
resume_eq n ys none rest = refl
resume_eq n ys (some (broken ps i)) rest = refl
resume_eq n ys (some (streamed g ps)) rest =
    ap (map_before ps) (stream_shift g n 0 ys ∙ ap (map_shift n) (sym (feed_len-stream g ys rest)))

-- A stream may be handed over in any pieces: feeding a filter at rest with a buffer, and then, if
-- that was well-formed, the filter that results with a second buffer, delivers the same packets in
-- the same order, reports the same error position in the whole stream, and, without an error, leaves
-- the same filter as feeding both buffers at once.
pub feed_len-append :
    (f : Filter) (xs ys : List ℕ)
    → Resting f.content_start f.cache
    → outcome (feed_len f (xs ++ ys))
      ≡ (outcome (feed_len f xs) >>= resume (λ g. map_shift (length xs) (outcome (feed_len g ys))))
feed_len-append f xs ys rest =
    feed_len-stream f (xs ++ ys) rest
    ∙ stream-append f 0 xs ys
    ∙ ap (λ m. stream f 0 xs >>= resume (λ g. stream g m ys)) {y = length xs + 0} (omega arith)
    ∙ resume_eq (length xs) ys (stream f 0 xs) (stream-Resting f 0 xs rest)
    ∙ ap (λ r. r >>= resume (λ g. map_shift (length xs) (outcome (feed_len g ys))))
        (sym (feed_len-stream f xs rest))
