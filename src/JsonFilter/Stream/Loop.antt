-- ===== src/JsonFilter/Stream/Loop.antt =====
-- evd_json_filter_feed_len as a whole: it runs the stream of its bytes, so that a stream may be
-- handed over in any pieces.
use event_dance.Common.{
  ℕ, suc, ◌≡◌, refl, sym, ap, ◌∙◌, Option, none, some, Option-cases, inl, inr, List, [], ◌∷◌, ◌++◌,
  append_assoc, append-nil, length, length-append, arith,
}
use event_dance.Common.Int.{ℤ, pos, negsuc}
use event_dance.JsonFilter.{
  Filter, Fed, next, stop, ◌>>=◌, feed_char, keep_rest, prepend, feed_loop, feed_len,
}
use event_dance.JsonFilter.Stream.{
  Outcome, streamed, broken, before, view, stream, Resting, Aligned, snoc,
}
use event_dance.JsonFilter.Stream.Rounds.{feed_char-view, feed_char-Aligned}

-- What a caller of evd_json_filter_feed_len sees, with the state of the filter if all went well.
abbrev pub outcome_at : Option ℕ → Filter → List (List ℕ) → Outcome
outcome_at none f ps = streamed f ps
outcome_at (some i) f ps = broken ps i

abbrev pub outcome : Option Fed → Option Outcome
outcome r = r >>= λ d. some (outcome_at d.error_at d.filter d.packets)

outcome_at-before :
    (e : Option ℕ) (f : Filter) (ps qs : List (List ℕ))
    → outcome_at e f (ps ++ qs) ≡ before ps (outcome_at e f qs)
outcome_at-before none f ps qs = refl
outcome_at-before (some i) f ps qs = refl

outcome-prepend :
    (ps : List (List ℕ)) (r : Option Fed)
    → outcome (r >>= λ d. some (prepend ps d)) ≡ (outcome r >>= λ o. some (before ps o))
outcome-prepend ps none = refl
outcome-prepend ps (some d) = ap some (outcome_at-before d.error_at d.filter ps d.packets)

keep_rest-view :
    (buffer : List ℕ) (f : Filter) (z : ℤ)
    → f.content_start ≡ z
    → Aligned buffer z f.cache
    → keep_rest buffer f z ≡ view buffer f
keep_rest-view buffer f (negsuc n) e a = ground arith
keep_rest-view buffer f (pos s) e a = rw e refl

-- The loop from its index on.
feed_loop-stream :
    (buffer pre rest : List ℕ) (f : Filter) (i : ℕ)
    → buffer ≡ pre ++ rest
    → i ≡ length pre
    → Aligned pre f.content_start f.cache
    → outcome (feed_loop buffer f i rest) ≡ stream (view pre f) i rest
unfolding feed_loop stream
feed_loop-stream buffer pre [] f i e l a =
    rw (e, append-nil pre)
      (ap (λ g. some (streamed g [])) (keep_rest-view pre f f.content_start refl a))
feed_loop-stream buffer pre (c ∷ cs) f i e l a =
    rw (e, l, feed_char-view pre c cs f a)
      (elim (Option-cases (feed_char (pre ++ c ∷ cs) f c (length pre))) [
        | inl e' ↦ rw e' refl
        | inr (stop f', e') ↦ rw e' refl
        | inr (next f' ps, e') ↦ rw e' (
            outcome-prepend ps (feed_loop buffer f' (suc i) cs)
            ∙ ap (λ o. o >>= λ x. some (before ps x))
                (feed_loop-stream buffer (snoc pre c) cs f' (suc i)
                  (e ∙ sym (append_assoc pre (c ∷ []) cs))
                  (omega (arith, l, length-append pre (c ∷ [])))
                  (rw e' at (feed_char-Aligned pre c cs f a))))
      ])

rest-view : (f : Filter) (z : ℤ) → f.content_start ≡ z → Resting z f.cache → view [] f ≡ f
rest-view f (negsuc n) e r = ground arith
rest-view f (pos s) e r = rw (e, r, append-nil f.cache) refl

Resting-Aligned : (z : ℤ) (cache : List ℕ) → Resting z cache → Aligned [] z cache
Resting-Aligned (negsuc n) cache r = r
Resting-Aligned (pos s) cache r = (omega arith, inr r)

-- On a filter at rest, evd_json_filter_feed_len runs the stream of the bytes of its buffer.
pub feed_len-stream :
    (f : Filter) (buffer : List ℕ)
    → Resting f.content_start f.cache
    → outcome (feed_len f buffer) ≡ stream f 0 buffer
unfolding feed_len
feed_len-stream f buffer r =
    feed_loop-stream buffer [] buffer f 0 refl refl (Resting-Aligned f.content_start f.cache r)
    ∙ ap (λ g. stream g 0 buffer) (rest-view f f.content_start refl r)
