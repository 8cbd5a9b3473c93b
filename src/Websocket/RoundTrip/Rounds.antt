-- ===== src/Websocket/RoundTrip/Rounds.antt =====
-- evd/evd-websocket-protocol.c: runs of the loop of process_data, as a relation.
use event_dance.Common.{
  ℕ, zero, suc, ◌+◌, ◌<◌, ◌≡◌, refl, sym, ap, ◌∙◌, Bool, true, false, Option, none, some, List, [],
  ◌++◌, append_assoc, length, length-append, ltb, arith,
}
use event_dance.Websocket.Connection.{Data, Effect, is_closed}
use event_dance.Websocket.Closing.{Env}
use event_dance.Websocket.Reader.{
  goes_on, start_frame, read_header, read_part, read_round, after, process_data, is_idle,
}
use event_dance.Websocket.RoundTrip.{inside}

-- `k` rounds lead from one state to another and have the effects.
pub data Rounds (env : Env) : ℕ → Data → List Effect → Data → Type 0 where
  stay : {d : Data} → Rounds env zero d [] d
  round :
      {k : ℕ} {d d' d'' : Data} {es fs all : List Effect}
      → goes_on d ≡ true
      → read_round d env ≡ (d', es, true)
      → Rounds env k d' fs d''
      → all ≡ es ++ fs
      → Rounds env (suc k) d all d''

abbrev pub plus : ℕ → ℕ → ℕ
plus zero n = n
plus (suc k) n = suc (plus k n)

pub plus-+ : (k n : ℕ) → plus k n ≡ k + n
plus-+ zero n = omega arith
plus-+ (suc k) n = omega (arith, plus-+ k n)

pub Rounds-append :
    {env : Env} {k j : ℕ} {d d' d'' : Data} {es fs : List Effect}
    → Rounds env k d es d'
    → Rounds env j d' fs d''
    → Rounds env (plus k j) d (es ++ fs) d''
Rounds-append stay r = r
Rounds-append {fs = fs} (round {es = es} {fs = gs} g e s a) r =
    round g e (Rounds-append s r) (ap (λ l. l ++ fs) a ∙ append_assoc es gs fs)

after-after :
    (es fs : List Effect) (r : Option (Data × List Effect × Bool))
    → after es (after fs r) ≡ after (es ++ fs) r
after-after es fs none = refl
after-after es fs (some (d, gs, b)) = ap (λ l. some (d, l, b)) (sym (append_assoc es fs gs))

after_nil : (r : Option (Data × List Effect × Bool)) → after [] r ≡ r
after_nil none = refl
after_nil (some (d, gs, b)) = refl

process_data-round :
    (n : ℕ) (d d' : Data) (env : Env) (es : List Effect)
    → goes_on d ≡ true
    → read_round d env ≡ (d', es, true)
    → process_data (suc n) d env ≡ after es (process_data n d' env)
unfolding process_data
process_data-round n d d' env es g e = rw (g, e) refl

-- The loop makes the rounds and goes on from where they lead.
pub process_data-Rounds :
    {env : Env} {k : ℕ} {d d' : Data} {es : List Effect} (n : ℕ)
    → Rounds env k d es d'
    → process_data (plus k n) d env ≡ after es (process_data n d' env)
process_data-Rounds n stay = sym (after_nil _)
process_data-Rounds {env} n
      (round {k = k} {d = d} {d' = d'} {d'' = last} {es = es} {fs = fs} g e s a) =
    process_data-round (plus k n) d d' env es g e
    ∙ ap (after es) (process_data-Rounds n s)
    ∙ after-after es fs _
    ∙ ap (λ l. after l (process_data n last env)) (sym a)

pub goes_on-inside :
    (d : Data) (before rest : List ℕ)
    → 0 < length rest
    → is_closed d.state ≡ false
    → goes_on (inside d before rest) ≡ true
goes_on-inside d before rest h c =
    rw
      (c, test (length before) (length (before ++ rest)) (omega (arith, length-append before rest)))
      refl
  where
    test : (a b : ℕ) → a < b → ltb a b ≡ true
    test a b h = ground arith

-- A round in the middle of a frame.
pub read_round-part :
    (d : Data) (env : Env)
    → is_idle d.reading_state ≡ false
    → read_round d env ≡ read_part d.reading_state d env
unfolding read_round start_frame
read_round-part d env e = rw e refl

-- A round that begins a frame.
pub read_round-idle :
    (d d' : Data) (env : Env)
    → is_idle d.reading_state ≡ true
    → read_header d ≡ (d', true)
    → read_round d env ≡ read_part d'.reading_state d' env
unfolding read_round start_frame
read_round-idle d d' env i e = rw (i, e) refl
