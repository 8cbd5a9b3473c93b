-- ===== src/JsonFilter/Stream.antt =====
-- evd_json_filter_feed_len against a filter that sees the stream one byte at a time and has no
-- buffer: where the buffers are cut does not matter.
pub mod Rounds
pub mod Loop
pub mod Append
use event_dance.Common.{
  ℕ, zero, suc, ◌+◌, ◌-◌, ◌≤◌, ◌≡◌, refl, sym, ap, ◌∙◌, ◌⊎◌, inl, inr, Bool, true, false,
  if◌then◌else◌, Option, none, some, Option-cases, Bool-cases, List, [], ◌∷◌, ◌++◌, append_assoc,
  append-nil, length, take, drop, arith,
}
use event_dance.Common.Int.{ℤ, pos, negsuc, signed8}
use event_dance.JsonFilter.{
  Checker, Filter, Verdict, moved, acted, rejected, Fed, Round, next, stop, mode_eq, mode_done,
  ◌>>=◌, stack_get, check_char, conclude, process, reset, notify_packet, packet_at, deliver,
  accepted, slice, feed_char, keep_rest, prepend, feed_loop, feed_len, begin_content,
}

-- The bytes of the open packet, when `pre` is what the buffer holds before the current index.
abbrev pub pending : List ℕ → List ℕ → ℤ → List ℕ
pending pre cache (negsuc n) = []
pending pre cache (pos start) = cache ++ drop start pre

abbrev pub opened : ℤ → ℤ
opened (negsuc n) = negsuc 0
opened (pos start) = pos 0

-- The filter at rest that has the same bytes in its cache.
abbrev pub view : List ℕ → Filter → Filter
view pre f = record f {
  content_start = opened f.content_start;
  cache = pending pre f.cache f.content_start;
}

-- The state of a stream after a byte, or that the stream is malformed.
pub data StreamRound : Type 0 where
  goes_on : Filter → List (List ℕ) → StreamRound
  malformed : StreamRound

-- A byte belongs to the open packet if there is one, and ends it when the stack is at MODE_DONE.
abbrev pub take_byte : Filter → ℕ → ℤ → Option StreamRound
take_byte g b (negsuc n) = some (goes_on g [])
take_byte g b (pos start) = do
  current ← stack_get g.checker.stack g.checker.top
  if mode_eq current mode_done
      then (do
        g' ← reset (record g { cache = [] })
        some (goes_on g' (notify_packet g (g.cache ++ b ∷ []))))
      else some (goes_on (record g { cache = g.cache ++ b ∷ [] }) [])

abbrev pub stream_accepted : ℕ → Filter × Bool → Option StreamRound
stream_accepted b (g, true) = take_byte g b g.content_start
stream_accepted b (g, false) = some malformed

pub stream_char : Filter → ℕ → Option StreamRound
stream_char g b = do r ← process g (signed8 b) 0; stream_accepted b r

-- The result of a stream: the filter at its end and the packets, or the packets before the error
-- and the error's position.
pub data Outcome : Type 0 where
  streamed : Filter → List (List ℕ) → Outcome
  broken : List (List ℕ) → ℕ → Outcome

abbrev pub before : List (List ℕ) → Outcome → Outcome
before ps (streamed g qs) = streamed g (ps ++ qs)
before ps (broken qs i) = broken (ps ++ qs) i

-- `i` counts the bytes.
pub stream : Filter → ℕ → List ℕ → Option Outcome
stream g i [] = some (streamed g [])
stream g i (b ∷ bs) = do
  r ← stream_char g b
  elim r [
    | goes_on g' ps ↦ do rest ← stream g' (suc i) bs; some (before ps rest)
    | malformed ↦ some (broken [] i)
  ]

-- A filter between two calls: no packet is open and the cache is empty, or the cache has its bytes.
abbrev pub Resting : ℤ → List ℕ → Type 0
Resting (negsuc n) cache = (n ≡ 0) × (cache ≡ [])
Resting (pos start) cache = start ≡ 0

-- The same inside of a buffer of which `pre` has been read.
abbrev pub Aligned : List ℕ → ℤ → List ℕ → Type 0
Aligned pre (negsuc n) cache = (n ≡ 0) × (cache ≡ [])
Aligned pre (pos start) cache = (start ≤ length pre) × ((cache ≡ []) ⊎ (start ≡ 0))

abbrev pub round_view : List ℕ → Round → StreamRound
round_view pre (next f ps) = goes_on (view pre f) ps
round_view pre (stop f) = malformed

abbrev pub snoc : List ℕ → ℕ → List ℕ
snoc pre c = pre ++ c ∷ []

abbrev pub map_round : List ℕ → Option Round → Option StreamRound
map_round pre r = r >>= λ x. some (round_view pre x)

abbrev pub with_content : Checker → Bool → ℤ → List ℕ → Filter
with_content k h z cache = record { checker = k; content_start = z; cache = cache; has_handler = h }

-- After a round the filter is aligned with one more byte read.
abbrev pub AlignedRound : List ℕ → Option Round → Type 0
AlignedRound pre none = Unit
AlignedRound pre (some (stop f)) = Unit
AlignedRound pre (some (next f ps)) = Aligned pre f.content_start f.cache
