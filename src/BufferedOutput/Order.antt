-- ===== src/BufferedOutput/Order.antt =====
-- evd/evd-buffered-output-stream.c: the bytes that the base stream gets.
use event_dance.Common.{
  ℕ, zero, suc, ◌+◌, ◌≤◌, min, ltb, ◌≡◌, refl, sym, ap, ap₂, ◌∙◌, Bool, true, false, not, ◌||◌,
  if-either, List, [], ◌∷◌, ◌++◌, length, take, drop, append_assoc, append-nil, take_all,
  take-append-drop, length-drop, arith,
}
use event_dance.BufferedOutput.{
  would_block, closed_error, other_error, Answer, takes, fails, WriteResult, wrote, write_failed,
  Stream, Effect, write_done, completed, base_flush, fill, answer_write, real_write, filled,
  buffer_rest, is_empty, write,
}

-- The bytes that have been taken: what the base stream has, then what is in the buffer.
abbrev pub contents : Stream → List ℕ
contents s = s.base.written ++ s.buffer

-- The bytes that writes have reported as written.
abbrev pub sent_bytes : List Effect → List ℕ
sent_bytes [] = []
sent_bytes (write_done buf (wrote n) ∷ es) = take n buf ++ sent_bytes es
sent_bytes (write_done buf (write_failed code) ∷ es) = sent_bytes es
sent_bytes (completed tag e ∷ es) = sent_bytes es
sent_bytes (base_flush ∷ es) = sent_bytes es

pub sent_bytes-append :
    (es fs : List Effect) → sent_bytes (es ++ fs) ≡ sent_bytes es ++ sent_bytes fs
sent_bytes-append [] fs = refl
sent_bytes-append (write_done buf (wrote n) ∷ es) fs =
    ap (◌++◌ (take n buf)) (sent_bytes-append es fs)
    ∙ sym (append_assoc (take n buf) (sent_bytes es) (sent_bytes fs))
sent_bytes-append (write_done buf (write_failed code) ∷ es) fs = sent_bytes-append es fs
sent_bytes-append (completed tag e ∷ es) fs = sent_bytes-append es fs
sent_bytes-append (base_flush ∷ es) fs = sent_bytes-append es fs

-- All of `buf` has been taken, and its length is the result.
abbrev Filled : List ℕ → Stream → Stream × ℕ → Type 0
Filled buf s (t, n) = (n ≡ length buf) × ((contents t ≡ contents s ++ buf) × (t.auto_grow ≡ true))

appended : (buf : List ℕ) (s : Stream) → s.base.written ++ (s.buffer ++ buf) ≡ contents s ++ buf
appended buf s = sym (append_assoc s.base.written s.buffer buf)

fill-Filled : (buf : List ℕ) (s : Stream) → s.auto_grow ≡ true → Filled buf s (fill buf s)
unfolding fill
fill-Filled buf s h =
    if-either (Filled buf s) (ltb s.buffer_size (length s.buffer + length buf))
      (λ e. rw h (refl, (appended buf s, refl))) (λ e. (refl, (appended buf s, h)))

-- What a write may do: all is taken, or it fails and nothing is.
abbrev pub Wrote : List ℕ → Stream → Stream × WriteResult → Type 0
Wrote buf s (t, wrote n) = Filled buf s (t, n)
Wrote buf s (t, write_failed code) = (contents t ≡ contents s) × (t.auto_grow ≡ true)

-- What a write to the base stream may do.
abbrev pub Took : List ℕ → Stream → Stream × WriteResult → Type 0
Took buf s (t, wrote n) =
    (n ≤ length buf)
    × ((t.base.written ≡ s.base.written ++ take n buf)
        × ((t.buffer ≡ s.buffer) × (t.auto_grow ≡ s.auto_grow)))
Took buf s (t, write_failed code) =
    (t.base.written ≡ s.base.written) × ((t.buffer ≡ s.buffer) × (t.auto_grow ≡ s.auto_grow))

take_nil : (n : ℕ) → take {A = ℕ} n [] ≡ []
take_nil zero = refl
take_nil (suc n) = refl

take-min : (n : ℕ) (buf : List ℕ) → take n buf ≡ take (min n (length buf)) buf
take-min zero buf = ap (λ k. take k buf) {x = 0} (omega arith)
take-min (suc n) [] = sym (take_nil (min (suc n) 0))
take-min (suc n) (c ∷ cs) =
    ap (◌∷◌ c) (take-min n cs)
    ∙ ap (λ k. take k (c ∷ cs)) {x = suc (min n (length cs))} (omega arith)

answer_write-Took :
    (buf : List ℕ) (later : List Answer) (s : Stream) → Took buf s (answer_write buf later s)
answer_write-Took buf [] s = (
  omega arith,
  (ap (◌++◌ s.base.written) (sym (take_all (length buf) buf (omega arith))), (refl, refl)),
)
answer_write-Took buf (takes n ∷ later) s =
    (omega arith, (ap (◌++◌ s.base.written) (take-min n buf), (refl, refl)))
answer_write-Took buf (fails code ∷ later) s = (refl, (refl, refl))

pub real_write-Took : (buf : List ℕ) (s : Stream) → Took buf s (real_write buf s)
real_write-Took [] s = (omega arith, (sym (append-nil s.base.written), (refl, refl)))
real_write-Took (c ∷ cs) s = answer_write-Took (c ∷ cs) s.base.answers s

took_contents :
    (t s : Stream) (more : List ℕ)
    → t.base.written ≡ s.base.written ++ more
    → t.buffer ≡ s.buffer
    → s.buffer ≡ []
    → contents t ≡ contents s ++ more
took_contents t s more hw hb h =
    ap₂ (λ v w. v ++ w) hw (hb ∙ h)
    ∙ append-nil (s.base.written ++ more)
    ∙ ap (λ v. v ++ more) (sym (append-nil s.base.written))
    ∙ ap (λ v. (s.base.written ++ v) ++ more) (sym h)

-- The rest of a buffer of which the base stream has taken the first bytes.
rest_filled :
    (n : ℕ) (buf : List ℕ) (t s : Stream)
    → n ≤ length buf
    → t.auto_grow ≡ true
    → contents t ≡ contents s ++ take n buf
    → Wrote buf s (filled n (fill (drop n buf) t))
rest_filled n buf t s h g e =
    let f = fill-Filled (drop n buf) t g in
    let l = length-drop n buf in
    (
      omega arith,
      (
        (f.1).0
            ∙ ap (λ v. v ++ drop n buf) e
            ∙ append_assoc (contents s) (take n buf) (drop n buf)
            ∙ ap (◌++◌ (contents s)) (take-append-drop n buf),
        (f.1).1,
      ),
    )

buffer_rest-Wrote :
    (buf : List ℕ) (s : Stream) (r : Stream × WriteResult)
    → s.auto_grow ≡ true
    → s.buffer ≡ []
    → Took buf s r
    → Wrote buf s (buffer_rest buf r)
unfolding buffer_rest
buffer_rest-Wrote buf s (t, write_failed would_block) g h (hw, (hb, hg)) =
    rest_filled 0 buf t s (omega arith) (hg ∙ g)
      (took_contents t s [] (hw ∙ sym (append-nil s.base.written)) hb h)
buffer_rest-Wrote buf s (t, write_failed closed_error) g h (hw, (hb, hg)) =
    (ap₂ (λ v w. v ++ w) hw hb, hg ∙ g)
buffer_rest-Wrote buf s (t, write_failed other_error) g h (hw, (hb, hg)) =
    (ap₂ (λ v w. v ++ w) hw hb, hg ∙ g)
buffer_rest-Wrote buf s (t, wrote n) g h (hn, (hw, (hb, hg))) =
    let e : contents t ≡ contents s ++ take n buf = took_contents t s (take n buf) hw hb h in
    if-either (Wrote buf s) (ltb n (length buf)) (λ l. rest_filled n buf t s hn (hg ∙ g) e)
      (λ l.
        let whole : n ≡ length buf = ground arith in
        (whole, (e ∙ ap (◌++◌ (contents s)) (take_all n buf (omega arith)), hg ∙ g)))

filled-Wrote :
    (buf : List ℕ) (s : Stream) → s.auto_grow ≡ true → Wrote buf s (filled 0 (fill buf s))
filled-Wrote buf s g = (let f = fill-Filled buf s g in (omega arith, f.1))

either_false : (a b : Bool) → (not a || not b) ≡ false → a ≡ true
either_false true b h = refl
either_false false b h = ground arith

emptied : (bs : List ℕ) → is_empty bs ≡ true → bs ≡ []
emptied [] h = refl
emptied (c ∷ cs) h = ground arith

pub write-Wrote : (buf : List ℕ) (s : Stream) → s.auto_grow ≡ true → Wrote buf s (write buf s)
unfolding write
write-Wrote buf s g =
    if-either (Wrote buf s) (not (is_empty s.buffer) || not s.auto_flush)
      (λ e. filled-Wrote buf s g)
      (λ e.
        buffer_rest-Wrote buf s (real_write buf s) g
          (emptied s.buffer (either_false (is_empty s.buffer) s.auto_flush e))
          (real_write-Took buf s))
