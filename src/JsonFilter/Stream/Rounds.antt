-- ===== src/JsonFilter/Stream/Rounds.antt =====
-- One round of the loop of evd_json_filter_feed_len does what one byte of the stream does.
use event_dance.Common.{
  ℕ, zero, suc, ◌+◌, ◌-◌, ◌≤◌, ◌≡◌, refl, sym, ap, ◌∙◌, inl, inr, Bool, true, if◌then◌else◌, some,
  Option-cases, Bool-cases, List, [], ◌∷◌, ◌++◌, append_assoc, length, length-append, take, drop,
  arith,
}
use event_dance.Common.Int.{ℤ, pos, negsuc, signed8}
use event_dance.JsonFilter.{
  Checker, Filter, Verdict, moved, acted, rejected, mode_eq, mode_done, stack_get, check_char,
  conclude, process, reset, reset_checker, packet_at, accepted, feed_char,
}
use native.Mathlib.Nat.{le_refl}
use event_dance.JsonFilter.Stream.{
  with_content, AlignedRound, pending, view, goes_on, take_byte, stream_accepted, stream_char,
  Aligned, map_round, snoc,
}

drop-length {ℓ} : {A : Type ℓ} (xs : List A) → drop (length xs) xs ≡ []
drop-length [] = refl
drop-length (x ∷ xs) = drop-length xs

drop-snoc :
    (s : ℕ) (pre : List ℕ) (c : ℕ) → s ≤ length pre → drop s (snoc pre c) ≡ snoc (drop s pre) c
drop-snoc zero pre c h = refl
drop-snoc (suc s) [] c h = absurd (omega arith)
drop-snoc (suc s) (x ∷ pre) c h = drop-snoc s pre c (omega arith)

take-snoc :
    (pre : List ℕ) (c : ℕ) (cs : List ℕ) → take (suc (length pre)) (pre ++ c ∷ cs) ≡ snoc pre c
take-snoc [] c cs = refl
take-snoc (x ∷ pre) c cs = ap (◌∷◌ x) (take-snoc pre c cs)

take_read :
    (pre : List ℕ) (c : ℕ) (cs : List ℕ) → take (length pre + 1) (pre ++ c ∷ cs) ≡ snoc pre c
take_read pre c cs =
    ap (λ n. take n (pre ++ c ∷ cs)) {y = suc (length pre)} (omega arith) ∙ take-snoc pre c cs

slice-snoc :
    (s : ℕ) (pre : List ℕ) (c : ℕ) (cs : List ℕ)
    → s ≤ length pre
    → take (length pre + 1 - s) (drop s (pre ++ c ∷ cs)) ≡ snoc (drop s pre) c
slice-snoc zero pre c cs h =
    ap (λ n. take n (pre ++ c ∷ cs)) {y = suc (length pre)} (omega arith) ∙ take-snoc pre c cs
slice-snoc (suc s) [] c cs h = absurd (omega arith)
slice-snoc (suc s) (x ∷ pre) c cs h =
    ap (λ n. take n (drop s (pre ++ c ∷ cs))) {y = length pre + 1 - s} (omega arith)
    ∙ slice-snoc s pre c cs (omega arith)

packet_at-pending :
    (pre : List ℕ) (f : Filter) (c : ℕ) (cs : List ℕ) (cache : List ℕ) (s : ℕ)
    → Aligned pre (pos s) cache
    → packet_at (pre ++ c ∷ cs) f (length pre) cache s ≡ snoc (pending pre cache (pos s)) c
packet_at-pending pre f c cs [] s (h, a) = slice-snoc s pre c cs h
packet_at-pending pre f c cs (b ∷ bs) s (h, inl e) = cc
packet_at-pending pre f c cs (b ∷ bs) s (h, inr e) =
    rw (e, take_read pre c cs) (sym (append_assoc (b ∷ bs) pre (c ∷ [])))

drop-pending :
    (pre : List ℕ) (c : ℕ) (cache : List ℕ) (s : ℕ)
    → s ≤ length pre
    → cache ++ drop s (snoc pre c) ≡ snoc (cache ++ drop s pre) c
drop-pending pre c cache s h =
    rw (drop-snoc s pre c h) (sym (append_assoc cache (drop s pre) (c ∷ [])))

module _ (pre : List ℕ) (c : ℕ) (cs : List ℕ) (k : Checker) (h : Bool) where
  -- The packet that is open goes on or ends alike.
  deliver-view :
      (s : ℕ) (cache : List ℕ)
      → Aligned pre (pos s) cache
      → take_byte (with_content k h (pos 0) (cache ++ drop s pre)) c (pos 0)
        ≡ map_round
            (snoc pre c)
            (accepted (pre ++ c ∷ cs) (length pre) (with_content k h (pos s) cache, true))
  unfolding reset
  deliver-view s cache a = elim (Option-cases (stack_get k.stack k.top)) [
    | inl e ↦ rw e refl
    | inr (m, e) ↦ rw e (elim (Bool-cases (mode_eq m mode_done)) [
      | inl d ↦ rw d (elim (Option-cases (reset_checker k)) [
        | inl e' ↦ rw e' refl
        | inr (k', e') ↦ rw e' (
            ap
              (λ p. some (
                goes_on
                  (record { checker = k'; content_start = negsuc 0; cache = []; has_handler = h })
                  (if h then p ∷ [] else [])))
              (sym (packet_at-pending pre (with_content k h (pos s) cache) c cs cache s a)))
      ])
      | inr d ↦ rw d (
          ap (λ q. some (goes_on (with_content k h (pos 0) q) []))
            (sym (drop-pending pre c cache s (a.0))))
    ])
  ]

  deliver-Aligned :
      (s : ℕ) (cache : List ℕ)
      → Aligned pre (pos s) cache
      → AlignedRound
          (snoc pre c)
          (accepted (pre ++ c ∷ cs) (length pre) (with_content k h (pos s) cache, true))
  unfolding reset
  deliver-Aligned s cache a = elim (Option-cases (stack_get k.stack k.top)) [
    | inl e ↦ rw e tt
    | inr (m, e) ↦ rw e (elim (Bool-cases (mode_eq m mode_done)) [
      | inl d ↦ rw d (elim (Option-cases (reset_checker k)) [
        | inl e' ↦ rw e' tt
        | inr (k', e') ↦ rw e' (refl, refl)
      ])
      | inr d ↦ rw d (omega (arith, length-append pre (c ∷ [])), a.1)
    ])
  ]

module _ (pre : List ℕ) (c : ℕ) (cs : List ℕ) (k : Checker) (h : Bool) where
  -- A verdict on a character is followed by the same round on both sides.
  accepted-view :
      (v : Verdict) (z : ℤ) (cache : List ℕ)
      → Aligned pre z cache
      → stream_accepted c (conclude (view pre (with_content k h z cache)) 0 v)
        ≡ map_round (snoc pre c) (
            accepted
              (pre ++ c ∷ cs)
              (length pre)
              (conclude (with_content k h z cache) (length pre) v))
  accepted-view (rejected k') z cache a = refl
  accepted-view (moved k') (negsuc n) cache a = refl
  accepted-view (moved k') (pos s) cache a = deliver-view pre c cs k' h s cache a
  accepted-view (acted k') (negsuc zero) cache a =
      ap (λ q. take_byte (with_content k' h (pos 0) q) c (pos 0)) {x = []}
        (sym (rw (a.1, drop-length pre) refl))
      ∙ deliver-view pre c cs k' h (length pre) cache (le_refl (length pre), inl (a.1))
  accepted-view (acted k') (negsuc (suc n)) cache a = absurd (omega (arith, a.0))
  accepted-view (acted k') (pos s) cache a = deliver-view pre c cs k' h s cache a

  accepted-Aligned :
      (v : Verdict) (z : ℤ) (cache : List ℕ)
      → Aligned pre z cache
      → AlignedRound (snoc pre c) (
          accepted
            (pre ++ c ∷ cs)
            (length pre)
            (conclude (with_content k h z cache) (length pre) v))
  accepted-Aligned (rejected k') z cache a = tt
  accepted-Aligned (moved k') (negsuc n) cache a = a
  accepted-Aligned (moved k') (pos s) cache a = deliver-Aligned pre c cs k' h s cache a
  accepted-Aligned (acted k') (negsuc zero) cache a =
      deliver-Aligned pre c cs k' h (length pre) cache (le_refl (length pre), inl (a.1))
  accepted-Aligned (acted k') (negsuc (suc n)) cache a = absurd (omega (arith, a.0))
  accepted-Aligned (acted k') (pos s) cache a = deliver-Aligned pre c cs k' h s cache a

module _ (pre : List ℕ) (c : ℕ) (cs : List ℕ) (f : Filter)
    (a : Aligned pre f.content_start f.cache) where
  pub feed_char-view :
      stream_char (view pre f) c
      ≡ map_round (snoc pre c) (feed_char (pre ++ c ∷ cs) f c (length pre))
  unfolding stream_char feed_char process
  feed_char-view = elim (Option-cases (check_char f.checker (signed8 c))) [
    | inl e ↦ rw e refl
    | inr (v, e) ↦ rw e (accepted-view pre c cs f.checker f.has_handler v f.content_start f.cache a)
  ]

  pub feed_char-Aligned : AlignedRound (snoc pre c) (feed_char (pre ++ c ∷ cs) f c (length pre))
  unfolding feed_char process
  feed_char-Aligned = elim (Option-cases (check_char f.checker (signed8 c))) [
    | inl e ↦ rw e tt
    | inr (v, e) ↦
        rw e (accepted-Aligned pre c cs f.checker f.has_handler v f.content_start f.cache a)
  ]
