-- ===== src/Websocket/Split/Pieces.antt =====
-- evd/evd-websocket-protocol.c: process_data on bytes that come in two pieces.
use event_dance.Common.{
  ℕ, zero, suc, ◌+◌, ◌≤◌, ◌<◌, ◌≡◌, refl, sym, ap, ◌∙◌, inl, inr, Bool, true, false, Bool-cases,
  Option-cases, not, ◌&&◌, Option, none, some, List, [], ◌++◌, append_assoc, length, length-append,
  ltb, ltb→lt, lt→ltb, arith,
}
use event_dance.Websocket.Connection.{Data, Effect, is_closed}
use event_dance.Websocket.Closing.{Env}
use event_dance.Websocket.Reader.{read_round, goes_on, after, process_data}
use event_dance.Websocket.Progress.{AwaitsPart, read_round-Advanced}
use event_dance.Websocket.Split.{feed_more, more_after}
use event_dance.Websocket.Split.Rounds.{stops, completes, read_round-Round}

both : (a b : Bool) → (a && not b) ≡ true → (a ≡ true) × (b ≡ false)
both true true e = absurd cc
both true false e = (refl, refl)
both false b e = absurd cc

goes_on-open :
    (d : Data) → goes_on d ≡ true → (d.offset < length d.buf) × (is_closed d.state ≡ false)
goes_on-open d g =
    let (l, o) = both (ltb d.offset (length d.buf)) (is_closed d.state) g in
    (ltb→lt d.offset (length d.buf) l, o)

goes_on-more :
    (d : Data) (more : List ℕ)
    → d.offset ≤ length d.buf
    → 0 < length more
    → is_closed d.state ≡ false
    → goes_on (feed_more d more) ≡ true
goes_on-more d more le some_more o =
    rw (lt→ltb d.offset (length (d.buf ++ more)) (omega (arith, length-append d.buf more)), o) refl

-- More fuel changes no result.
no_result : {r : Data × List Effect × Bool} → none ≡ some r → ⊥
no_result e = cc

process_data-suc :
    (n : ℕ) (d : Data) (env : Env) (r : Data × List Effect × Bool)
    → process_data n d env ≡ some r
    → process_data (suc n) d env ≡ some r
unfolding process_data
process_data-suc zero d env r e = absurd cc
process_data-suc (suc n) d env r e = elim (Bool-cases (goes_on d)) [
  | inr g ↦ rw g (rw g at e)
  | inl g ↦ elim (Bool-cases (read_round d env).2) [
    | inr b ↦ rw (g, b) (rw (g, b) at e)
    | inl b ↦ elim (Option-cases (process_data n (read_round d env).0 env)) [
      | inl z ↦ absurd (no_result (rw (g, b, z) at e))
      | inr (s, z) ↦ rw (g, b, process_data-suc n (read_round d env).0 env s z) (rw (g, b, z) at e)
    ]
  ]
]

process_data-plus :
    (k n : ℕ) (d : Data) (env : Env) (r : Data × List Effect × Bool)
    → process_data n d env ≡ some r
    → process_data (k + n) d env ≡ some r
process_data-plus zero n d env r e = ap (λ m. process_data m d env) {y = n} (omega arith) ∙ e
process_data-plus (suc k) n d env r e =
    ap (λ m. process_data m d env) {y = suc (k + n)} (omega arith)
    ∙ process_data-suc (k + n) d env r (process_data-plus k n d env r e)

-- From the state where a round stops, the loop goes on as from the state before the round.
process_data-resumed :
    (m : ℕ) (d d' : Data) (env : Env)
    → goes_on d' ≡ goes_on d
    → read_round d' env ≡ read_round d env
    → goes_on d ≡ true
    → process_data m d' env ≡ process_data m d env
unfolding process_data
process_data-resumed zero d d' env g e t = refl
process_data-resumed (suc m) d d' env g e t = rw (g, t, e) refl

abbrev or_else : Option (Data × List Effect × Bool) → Data → Data × List Effect × Bool
or_else none d = (d, [], false)
or_else (some r) d = r

same_result :
    {d d' : Data} {es es' : List Effect} {b b' : Bool}
    → ◌≡◌ {A = Option (Data × List Effect × Bool)} (some (d, es, b)) (some (d', es', b'))
    → (d ≡ d') × (es ≡ es')
same_result {d = d} {es = es} e = (ap (λ o. (or_else o d).0) e, ap (λ o. (or_else o d).1) e)

process_data_over :
    (n : ℕ) (d : Data) (env : Env)
    → goes_on d ≡ false
    → process_data (suc n) d env ≡ some (d, [], not (is_closed d.state))
unfolding process_data
process_data_over n d env g = rw g refl

process_data_stops :
    (n : ℕ) (d d' : Data) (env : Env)
    → goes_on d ≡ true
    → read_round d env ≡ (d', [], false)
    → process_data (suc n) d env ≡ some (d', [], true)
unfolding process_data
process_data_stops n d d' env g w = rw (g, w) refl

process_data_completes :
    (n : ℕ) (d : Data) (env : Env)
    → goes_on d ≡ true
    → (read_round d env).2 ≡ true
    → process_data (suc n) d env
      ≡ after (read_round d env).1 (process_data n (read_round d env).0 env)
unfolding process_data
process_data_completes n d env g t = rw (g, t) refl

module _ (env : Env) (more : List ℕ) (some_more : 0 < length more) (d2 : Data) (fs : List Effect)
    (b2 : Bool) (m : ℕ) where
  over :
      (n : ℕ) (d d1 : Data) (es : List Effect) (b1 : Bool)
      → goes_on d ≡ false
      → process_data (suc n) d env ≡ some (d1, es, b1)
      → process_data m (feed_more d1 more) env ≡ some (d2, fs, b2)
      → process_data (suc n + m) (feed_more d more) env ≡ some (d2, es ++ fs, b2)
  over n d d1 es b1 g e f =
      let (same_d, same_es) = same_result (sym (process_data_over n d env g) ∙ e) in
      process_data-plus (suc n) m (feed_more d more) env (d2, fs, b2)
        (ap (λ x. process_data m (feed_more x more) env) same_d ∙ f)
      ∙ ap (λ l. some (d2, l ++ fs, b2)) same_es

  stopped :
      (n : ℕ) (d d' d1 : Data) (es : List Effect) (b1 : Bool)
      → goes_on d ≡ true
      → d.offset ≤ length d.buf
      → read_round d env ≡ (d', [], false)
      → read_round (feed_more d' more) env ≡ read_round (feed_more d more) env
      → d'.offset ≤ length d'.buf
      → d'.state ≡ d.state
      → process_data (suc n) d env ≡ some (d1, es, b1)
      → process_data m (feed_more d1 more) env ≡ some (d2, fs, b2)
      → process_data (suc n + m) (feed_more d more) env ≡ some (d2, es ++ fs, b2)
  stopped n d d' d1 es b1 g h w again le same e f =
      let (same_d, same_es) = same_result (sym (process_data_stops n d d' env g w) ∙ e) in
      let open_d = (goes_on-open d g).1 in
      let on = goes_on-more d more h some_more open_d in
      let on' = goes_on-more d' more le some_more (ap is_closed same ∙ open_d) in
      process_data-plus (suc n) m (feed_more d more) env (d2, fs, b2)
        (sym (
            process_data-resumed m (feed_more d more) (feed_more d' more) env (on' ∙ sym on) again
              on)
          ∙ ap (λ x. process_data m (feed_more x more) env) same_d
          ∙ f)
      ∙ ap (λ l. some (d2, l ++ fs, b2)) same_es

  -- After a complete round.
  completed :
      (n : ℕ) (d : Data) (es : List Effect)
      → goes_on d ≡ true
      → d.offset ≤ length d.buf
      → (read_round d env).2 ≡ true
      → read_round (feed_more d more) env ≡ more_after (read_round d env) more
      → process_data (n + m) (feed_more (read_round d env).0 more) env ≡ some (d2, es ++ fs, b2)
      → process_data (suc n + m) (feed_more d more) env
        ≡ some (d2, ((read_round d env).1 ++ es) ++ fs, b2)
  completed n d es g h t r f =
      let on = goes_on-more d more h some_more (goes_on-open d g).1 in
      ap (λ k. process_data k (feed_more d more) env) {x = suc n + m} {y = suc (n + m)}
        (omega arith)
      ∙ process_data_completes (n + m) (feed_more d more) env on (ap (λ r. r.2) r ∙ t)
      ∙ ap (λ r. after r.1 (process_data (n + m) r.0 env)) r
      ∙ ap (after (read_round d env).1) f
      ∙ ap (λ l. some (d2, l, b2)) (sym (append_assoc (read_round d env).1 es fs))

  -- The reader does not see where the pieces end: if process_data leaves the connection open after the
  -- first bytes and then handles more, at least one, it does all in all what it does when they
  -- come together: the same effects in the same order, and the same data at the end. The fuels add up.
  -- The offset is in the buffer and the reading state is not HEADER, which no code sets.
  pub process_data-more :
      (n : ℕ) (d d1 : Data) (es : List Effect) (b1 : Bool)
      → d.offset ≤ length d.buf
      → AwaitsPart d.reading_state
      → process_data n d env ≡ some (d1, es, b1)
      → is_closed d1.state ≡ false
      → process_data m (feed_more d1 more) env ≡ some (d2, fs, b2)
      → process_data (n + m) (feed_more d more) env ≡ some (d2, es ++ fs, b2)
  process_data-more zero d d1 es b1 h a e o f = absurd (unfold process_data in no_result e)
  process_data-more (suc n) d d1 es b1 h a e o f = elim (Bool-cases (goes_on d)) [
    | inr g ↦ over n d d1 es b1 g e f
    | inl g ↦ elim (read_round-Round d env h) [
      | stops d' w again le same ↦ stopped n d d' d1 es b1 g h w (again more) le same e f
      | completes t r ↦
          let next = read_round-Advanced d env h a t in
          elim (Option-cases (process_data n (read_round d env).0 env)) [
            | inl z ↦ absurd (
                no_result (
                  ap (after (read_round d env).1) (sym z)
                  ∙ sym (process_data_completes n d env g t)
                  ∙ e))
            | inr ((d3, gs, b3), z) ↦
                let (same_d, same_es) = same_result (
                  ap (after (read_round d env).1) (sym z)
                  ∙ sym (process_data_completes n d env g t)
                  ∙ e) in
                completed n d gs g h t (r more) (
                  process_data-more n (read_round d env).0 d3 gs b3 next.inside next.awaits z
                    (ap (λ x. is_closed x.state) same_d ∙ o)
                    (ap (λ x. process_data m (feed_more x more) env) same_d ∙ f))
                ∙ ap (λ l. some (d2, l ++ fs, b2)) same_es
          ]
    ]
  ]
