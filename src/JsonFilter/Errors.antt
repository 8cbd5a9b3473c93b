-- ===== src/JsonFilter/Errors.antt =====
-- evd/evd-json-filter.c around errors: evd_json_filter_reset does not empty the cache, so an error in the middle of
-- a packet spoils the next one, and bytes outside of ASCII are errors.
use event_dance.Common.{
  ℕ, suc, ◌+◌, ◌-◌, ◌≤◌, inl, inr, Option, Option-cases, ◌≡◌, refl, ap, ◌∙◌, true, false, none,
  some, List, [], ◌∷◌, ◌++◌, length, get_elem?, get_elem?-set_self, get_elem?-set_ne, length-set,
  set, arith,
}
use event_dance.Common.Int.{pos, negsuc, signed8}
use event_dance.JsonFilter.Table.{ascii_class, state_transition_table, go, ob}
use event_dance.JsonFilter.{
  Checker, Filter, Fed, Mode, mode_done, mode_key, max_depth, feed_len, feed_loop, feed_char, stop,
  prepend, ◌>>=◌, process, check_char, classify, next, error, reset, reset_checker, perform, push,
  pop,
}
use event_dance.JsonFilter.Safety.{IsSound, cleared, reset_checker-cleared}
use event_dance.JsonFilter.Feeding.{feed_char-Sound}

abbrev blank : Checker → Filter → Filter
blank k f = record f { checker = k; content_start = negsuc 0 }

signed8-large : (b : ℕ) → 128 ≤ b → signed8 b ≡ negsuc (255 - b)
signed8-large b h = ground arith

-- A NUL byte is an error in every state.
feed_nul :
    (f : Filter) (k : Checker)
    → reset_checker f.checker ≡ some k
    → feed_len f (0 ∷ []) ≡ some (record { filter = blank k f; packets = []; error_at = some 0 })
unfolding feed_len feed_loop feed_char process check_char classify ascii_class error
feed_nul f k e = rw e refl

-- The filter whose stack is `l` and holds MODE_DONE alone, with a stale cache.
abbrev stale : List Mode → List ℕ → Filter
stale l cache = record {
  checker = record { state = go; depth = max_depth; top = pos 0; stack = l };
  content_start = negsuc 0;
  cache = cache;
  has_handler = true;
}

abbrev inside_object : List Mode → List ℕ → Filter
inside_object l cache = record {
  checker = record { state = ob; depth = max_depth; top = pos 1; stack = l };
  content_start = pos 0;
  cache = cache;
  has_handler = true;
}

abbrev pub braces : List ℕ
braces = 0x7b ∷ 0x7d ∷ []

open_brace :
    (l : List Mode) (cache : List ℕ)
    → length l ≡ max_depth
    → feed_char braces (stale l cache) 0x7b 0
      ≡ some (next (inside_object (set l 1 mode_key) cache) [])
unfolding feed_char process check_char classify ascii_class state_transition_table perform push
open_brace l cache h = rw (h, get_elem?-set_self l 1 mode_key (omega arith)) refl

close_brace :
    (l : List Mode) (b : ℕ) (bs : List ℕ)
    → length l ≡ max_depth
    → get_elem? l 1 ≡ some mode_key
    → get_elem? l 0 ≡ some mode_done
    → feed_char braces (inside_object l (b ∷ bs)) 0x7d 1
      ≡ some (next (stale (set l 0 mode_done) []) (((b ∷ bs) ++ braces) ∷ []))
unfolding feed_char process check_char classify ascii_class state_transition_table perform pop push
    reset reset_checker
close_brace l b bs h e1 e0 = rw (e1, e0, h) refl

feed_braces :
    (l : List Mode) (b : ℕ) (bs : List ℕ)
    → length l ≡ max_depth
    → get_elem? l 0 ≡ some mode_done
    → feed_len (stale l (b ∷ bs)) braces
      ≡ some (record {
        filter = stale (set (set l 1 mode_key) 0 mode_done) [];
        packets = ((b ∷ bs) ++ braces) ∷ [];
        error_at = none;
      })
unfolding feed_len feed_loop
feed_braces l b bs h e =
    rw
      (
        open_brace l (b ∷ bs) h,
        close_brace (set l 1 mode_key) b bs (length-set l 1 mode_key ∙ h)
            (get_elem?-set_self l 1 mode_key (omega arith))
            (get_elem?-set_ne l {i = 1} {j = 0} mode_key (λ q. omega arith) ∙ e),
      )
      refl

-- Where a filter holds the first part of a packet in its cache and the next byte is a NUL, the error
-- is reported, but the cache is kept: the object {} that follows in another call is delivered with
-- the bytes of the broken packet in front, if a handler is set.
pub stale_cache-delivered :
    (f : Filter) (b : ℕ) (bs : List ℕ)
    → IsSound f.checker
    → f.cache ≡ b ∷ bs
    → f.has_handler ≡ true
    → (broken next_feed : Fed) × (feed_len f (0 ∷ []) ≡ some broken)
      × (broken.error_at ≡ some 0)
      × (feed_len broken.filter braces ≡ some next_feed)
      × (next_feed.packets ≡ ((b ∷ bs) ++ braces) ∷ [])
stale_cache-delivered f b bs s c h =
    let l = set f.checker.stack 0 mode_done in
    let size = length-set f.checker.stack 0 mode_done ∙ s.size in
    let after : blank (cleared f.checker) f ≡ stale l (b ∷ bs) = λ i. record {
      checker = cleared f.checker;
      content_start = negsuc 0;
      cache = c i;
      has_handler = h i;
    } in
    (
      record { filter = blank (cleared f.checker) f; packets = []; error_at = some 0 },
      record {
        filter = stale (set (set l 1 mode_key) 0 mode_done) [];
        packets = ((b ∷ bs) ++ braces) ∷ [];
        error_at = none;
      },
      feed_nul f (cleared f.checker) (reset_checker-cleared f.checker s.size),
      refl,
      ap (λ g. feed_len g braces) after
          ∙ feed_braces l b bs size
              (get_elem?-set_self f.checker.stack 0 mode_done (omega (arith, s.size))),
      refl,
    )

process_non_ascii :
    (f : Filter) (b i : ℕ)
    → IsSound f.checker
    → 128 ≤ b
    → process f (signed8 b) i ≡ some (blank (cleared f.checker) f, false)
unfolding process check_char classify error
process_non_ascii f b i s h = rw (signed8-large b h, reset_checker-cleared f.checker s.size) refl

-- A call that reports an error at `k` at the latest.
abbrev RefusedBy : ℕ → Option Fed → Type 0
RefusedBy k none = ⊥
RefusedBy k (some d) = (n : ℕ) × (d.error_at ≡ some n) × (n ≤ k)

prepend-RefusedBy :
    (k : ℕ) (ps : List (List ℕ)) (r : Option Fed)
    → RefusedBy k r
    → RefusedBy k (r >>= λ x. some (prepend ps x))
prepend-RefusedBy k ps none h = h
prepend-RefusedBy k ps (some d) h = h

feed_loop-RefusedBy :
    (buffer : List ℕ) (f : Filter) (i : ℕ) (front : List ℕ) (b : ℕ) (rest : List ℕ) (k : ℕ)
    → IsSound f.checker
    → 128 ≤ b
    → i + length front ≤ k
    → RefusedBy k (feed_loop buffer f i (front ++ (b ∷ rest)))
unfolding feed_loop feed_char
feed_loop-RefusedBy buffer f i [] b rest k s h l =
    rw (process_non_ascii f b i s h) (i, refl, omega arith)
feed_loop-RefusedBy buffer f i (c ∷ cs) b rest k s h l =
    let r = feed_char-Sound buffer f c i s in
    elim (Option-cases (feed_char buffer f c i)) [
      | inl e ↦ absurd (rw e at r)
      | inr (next f' ps, e) ↦ rw e (
          prepend-RefusedBy k ps (feed_loop buffer f' (suc i) (cs ++ (b ∷ rest)))
            (feed_loop-RefusedBy buffer f' (suc i) cs b rest k (rw e at r) h (omega arith)))
      | inr (stop f', e) ↦ rw e (i, refl, omega arith)
    ]

RefusedBy-some :
    (k : ℕ) (r : Option Fed)
    → RefusedBy k r
    → (d : Fed) × (n : ℕ) × (r ≡ some d) × (d.error_at ≡ some n) × (n ≤ k)
RefusedBy-some k none h = absurd h
RefusedBy-some k (some d) (n, e, l) = (d, n, refl, e, l)

-- A buffer with a byte outside of ASCII is refused by a filter whose checker is sound, wherever the byte stands and
-- whatever is open there, a string included: evd_json_filter_feed_len reports an error at this byte at the latest.
pub non_ascii_refused :
    (f : Filter) (front : List ℕ) (b : ℕ) (rest : List ℕ)
    → IsSound f.checker
    → 128 ≤ b
    → (d : Fed) × (n : ℕ) × (feed_len f (front ++ (b ∷ rest)) ≡ some d)
      × (d.error_at ≡ some n)
      × (n ≤ length front)
unfolding feed_len
non_ascii_refused f front b rest s h =
    RefusedBy-some (length front) (feed_loop (front ++ (b ∷ rest)) f 0 (front ++ (b ∷ rest)))
      (feed_loop-RefusedBy (front ++ (b ∷ rest)) f 0 front b rest (length front) s h (omega arith))
