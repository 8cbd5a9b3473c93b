-- ===== src/BufferedOutput/Calls.antt =====
-- evd/evd-buffered-output-stream.c: calls and callbacks in any order.
use event_dance.Common.{
  ℕ, zero, suc, ◌+◌, ◌==◌, ◌≡◌, refl, sym, ap, ap₂, ◌∙◌, true, false, not, ◌&&◌, ◌||◌, if-either,
  Option, none, some, List, [], ◌∷◌, ◌++◌, length, take, drop, append_assoc, append-nil, take_all,
  take-append-drop, arith,
}
use event_dance.BufferedOutput.{
  ErrorCode, closed_error, Base, WriteResult, wrote, write_failed, Tag, write_tag, flush_tag,
  Stream, new, Effect, write_done, completed, base_flush, real_write, is_empty, write, finish_write,
  write_async, fail_pending, flush_ended, finish_flush, flush, await_flush, flush_async,
  complete_result, fail_waiting, notify_write, set_auto_flush, set_property, Operation, writes,
  writes_async, flushes, flushes_async, notifies, closes, sets_auto_flush, sets_property,
  base_flushed, written_now, unless_pending, perform, perform_all,
}
use event_dance.BufferedOutput.Order.{
  contents, sent_bytes, sent_bytes-append, Wrote, Took, real_write-Took, write-Wrote,
}

-- A call by which the bytes taken grow by what has been reported as written.
abbrev pub Sends : Stream → Stream × List Effect → Type 0
Sends s (t, es) = (contents t ≡ contents s ++ sent_bytes es) × (t.auto_grow ≡ true)

-- A call that takes no bytes and reports none.
abbrev Quiet : Stream → Stream × List Effect → Type 0
Quiet s (t, es) = (contents t ≡ contents s) × ((t.auto_grow ≡ true) × (sent_bytes es ≡ []))

Quiet→Sends : (s : Stream) (r : Stream × List Effect) → Quiet s r → Sends s r
Quiet→Sends s (t, es) (e, (g, n)) =
    (e ∙ sym (append-nil (contents s)) ∙ ap (◌++◌ (contents s)) (sym n), g)

still : (s : Stream) → s.auto_grow ≡ true → Quiet s (s, [])
still s g = (refl, (g, refl))

reported :
    (buf : List ℕ) (n : ℕ) (t s : Stream)
    → Wrote buf s (t, wrote n)
    → Sends s (t, write_done buf (wrote n) ∷ [])
reported buf n t s (hn, (e, g)) =
    (e ∙ ap (◌++◌ (contents s)) (sym (append-nil (take n buf) ∙ take_all n buf (omega arith))), g)

written_now-Sends :
    (buf : List ℕ) (s : Stream) (r : Stream × WriteResult)
    → Wrote buf s r
    → Sends s (written_now buf r)
written_now-Sends buf s (t, wrote n) h = reported buf n t s h
written_now-Sends buf s (t, write_failed code) (e, g) = (e ∙ sym (append-nil (contents s)), g)

differ : (n m : ℕ) → n ≡ m → (n == m) ≡ false → ⊥
differ n m e h = ground arith

finish_write-Sends :
    (buf : List ℕ) (s : Stream) (r : Stream × WriteResult)
    → Wrote buf s r
    → Sends s (finish_write buf r)
finish_write-Sends buf s (t, wrote n) h =
    if-either (Sends s) (n == length buf) (λ e. reported buf n t s h)
      (λ e. elim (differ n (length buf) h.0 e) [ ])
finish_write-Sends buf s (t, write_failed code) (e, g) = (e ∙ sym (append-nil (contents s)), g)

fail_pending-Quiet :
    (code : ErrorCode) (o : Option Tag) (s t : Stream)
    → contents t ≡ contents s
    → t.auto_grow ≡ true
    → Quiet s (fail_pending code o t)
fail_pending-Quiet code none s t e g = (e, (g, refl))
fail_pending-Quiet code (some tag) s t e g = (e, (g, refl))

flush_ended-Quiet :
    (o : Option Tag) (s t : Stream)
    → contents t ≡ contents s
    → t.auto_grow ≡ true
    → Quiet s (flush_ended o t)
flush_ended-Quiet (some flush_tag) s t e g =
    if-either (Quiet s) (is_empty t.buffer) (λ k. (e, (g, refl))) (λ k. (e, (g, refl)))
flush_ended-Quiet (some write_tag) s t e g = (e, (g, refl))
flush_ended-Quiet none s t e g = (e, (g, refl))

finish_flush-Quiet :
    (s : Stream) (r : Stream × WriteResult)
    → s.auto_grow ≡ true
    → Took s.buffer s r
    → Quiet s (finish_flush r).0
finish_flush-Quiet s (t, write_failed code) g (hw, (hb, hg)) =
    fail_pending-Quiet code t.async_result s t (ap₂ (λ v w. v ++ w) hw hb) (hg ∙ g)
finish_flush-Quiet s (t, wrote zero) g (hn, (hw, (hb, hg))) =
    (ap₂ (λ v w. v ++ w) (hw ∙ append-nil s.base.written) hb, (hg ∙ g, refl))
finish_flush-Quiet s (t, wrote (suc n)) g (hn, (hw, (hb, hg))) =
    let gone : Stream = record t {
      buffer = drop (suc n) t.buffer;
      actual_size = t.actual_size + suc n;
    } in
    flush_ended-Quiet t.async_result s gone
      (ap₂ (λ v w. v ++ drop (suc n) w) hw hb
        ∙ append_assoc s.base.written (take (suc n) s.buffer) (drop (suc n) s.buffer)
        ∙ ap (◌++◌ s.base.written) (take-append-drop (suc n) s.buffer))
      (hg ∙ g)

flush-Quiet : (s : Stream) → s.auto_grow ≡ true → Quiet s (flush s).0
unfolding flush
flush-Quiet s g = finish_flush-Quiet s (real_write s.buffer s) g (real_write-Took s.buffer s)

await_flush-Quiet :
    (s : Stream) (r : (Stream × List Effect) × Option ErrorCode)
    → Quiet s r.0
    → Quiet s (await_flush r)
await_flush-Quiet s ((t, es), some code) (e, (g, n)) = (
  e,
  (g, sent_bytes-append es (completed flush_tag (some code) ∷ []) ∙ append-nil (sent_bytes es) ∙ n),
)
await_flush-Quiet s ((t, es), none) (e, (g, n)) =
    if-either (Quiet s) (is_empty t.buffer)
      (λ k. (e, (g, sent_bytes-append es (base_flush ∷ []) ∙ append-nil (sent_bytes es) ∙ n)))
      (λ k. (e, (g, n)))

complete_result-Quiet :
    (code : Option ErrorCode) (o : Option Tag) (s : Stream)
    → s.auto_grow ≡ true
    → Quiet s (complete_result code o s)
complete_result-Quiet code none s g = (refl, (g, refl))
complete_result-Quiet code (some tag) s g = (refl, (g, refl))

notify_write-Quiet : (s : Stream) → s.auto_grow ≡ true → Quiet s (notify_write s)
notify_write-Quiet s g =
    if-either (Quiet s) (s.flushing || (s.auto_flush && not (is_empty s.buffer)))
      (λ k. flush-Quiet s g) (λ k. still s g)

unless_pending-Sends :
    (s : Stream) (r : Stream × List Effect)
    → s.auto_grow ≡ true
    → Sends s r
    → Sends s (unless_pending s r)
unless_pending-Sends s r g h =
    if-either (Sends s) s.pending (λ k. Quiet→Sends s (s, []) (still s g)) (λ k. h)

pub perform-Sends : (o : Operation) (s : Stream) → s.auto_grow ≡ true → Sends s (perform o s)
unfolding perform
perform-Sends (writes buf) s g =
    unless_pending-Sends s (written_now buf (write buf s)) g
      (written_now-Sends buf s (write buf s) (write-Wrote buf s g))
perform-Sends (writes_async buf) s g =
    let started : Stream = record s { pending = true } in
    unless_pending-Sends s (write_async buf s) g
      (finish_write-Sends buf started (write buf started) (write-Wrote buf started g))
perform-Sends flushes s g =
    unless_pending-Sends s (flush s).0 g (Quiet→Sends s (flush s).0 (flush-Quiet s g))
perform-Sends flushes_async s g =
    let started : Stream = record s { pending = true } in
    unless_pending-Sends s (flush_async s) g (
      Quiet→Sends started (flush_async s)
        (await_flush-Quiet started (flush started) (flush-Quiet started g)))
perform-Sends notifies s g = Quiet→Sends s (notify_write s) (notify_write-Quiet s g)
perform-Sends closes s g =
    unless_pending-Sends s (fail_waiting s) g (
      Quiet→Sends s (fail_waiting s) (complete_result-Quiet (some closed_error) s.async_result s g))
perform-Sends (sets_auto_flush true) s g =
    let set : Stream = record s { auto_flush = true } in
    Quiet→Sends set (notify_write set) (notify_write-Quiet set g)
perform-Sends (sets_auto_flush false) s g = Quiet→Sends s (set_auto_flush false s) (refl, (g, refl))
perform-Sends (sets_property b) s g = Quiet→Sends s (set_property b s, []) (refl, (g, refl))
perform-Sends (base_flushed e) s g =
    let done : Stream = record s { pending = false } in
    Quiet→Sends done (complete_result e s.async_result done)
      (complete_result-Quiet e s.async_result done g)

perform_all-Sends :
    (os : List Operation) (s : Stream) → s.auto_grow ≡ true → Sends s (perform_all os s)
unfolding perform_all
perform_all-Sends [] s g = Quiet→Sends s (s, []) (still s g)
perform_all-Sends (o ∷ os) s g =
    let r = perform o s in
    let rest = perform_all os r.0 in
    let h = perform-Sends o s g in
    let hs = perform_all-Sends os r.0 h.1 in
    (
      hs.0
          ∙ ap (λ v. v ++ sent_bytes rest.1) h.0
          ∙ append_assoc (contents s) (sent_bytes r.1) (sent_bytes rest.1)
          ∙ ap (◌++◌ (contents s)) (sym (sent_bytes-append r.1 rest.1)),
      hs.1,
    )

-- Whatever calls and callbacks follow one another on a new stream, and whatever the base stream answers, what the
-- base stream has been given, followed by the buffer, is what writes have reported as written, in their order:
-- nothing is lost, doubled or moved by partial writes, by the buffer or by flushes.
pub bytes_in_order :
    (os : List Operation) (b : Base)
    → (let r = perform_all os (new b) in contents r.0 ≡ b.written ++ sent_bytes r.1)
bytes_in_order os b =
    (perform_all-Sends os (new b) refl).0
    ∙ ap (λ v. v ++ sent_bytes (perform_all os (new b)).1) (append-nil b.written)
