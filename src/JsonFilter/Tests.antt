-- ===== src/JsonFilter/Tests.antt =====
-- Runs of the JSON filter (evd/evd-json-filter.c) and instances of its theorems.
use event_dance.Common.{
  ℕ, ◌≤◌, ◌≡◌, refl, true, Option, none, some, List, [], ◌∷◌, ◌++◌, replicate, arith,
}
use event_dance.Common.Text.{bytes}
use event_dance.Common.Int.{pos, negsuc}
use event_dance.JsonFilter.Table.{go, ob, ascii_class, state_transition_table}
use event_dance.JsonFilter.{
  Filter, Fed, mode_array, mode_done, mode_key, max_depth, ◌>>=◌, push, pop, reset_checker, error,
  on_quote, on_comma, perform, classify, check_char, process, reset, feed_char, feed_loop, feed_len,
  feed, until_nul,
}
use event_dance.JsonFilter.Safety.{IsSound}
use event_dance.JsonFilter.Feeding.{feed_len-IsSound}
use event_dance.JsonFilter.Stream.Loop.{outcome}
use event_dance.JsonFilter.Stream.Append.{feed_len-append, map_shift, resume}
use event_dance.JsonFilter.Errors.{stale_cache-delivered, non_ascii_refused, braces}

-- A filter that has just been made, with a handler.
abbrev fresh : Filter
fresh = record {
  checker = record {
    state = go;
    depth = max_depth;
    top = pos 0;
    stack = mode_done ∷ replicate 127 mode_array;
  };
  content_start = negsuc 0;
  cache = [];
  has_handler = true;
}

-- The same with an object open that began in an earlier buffer.
abbrev open_object : Filter
open_object = record fresh {
  checker = record {
    state = ob;
    depth = max_depth;
    top = pos 1;
    stack = mode_done ∷ mode_key ∷ replicate 126 mode_array;
  };
  content_start = pos 0;
  cache = bytes "{ ";
}

abbrev packets_of : Option Fed → List (List ℕ)
packets_of none = []
packets_of (some d) = d.packets

abbrev error_of : Option Fed → Option ℕ
error_of none = none
error_of (some d) = d.error_at

two_packets :
    packets_of (feed fresh (bytes "  [1, {\"a\": -0.5e3}] \n {\"k\": [true, \"x\\n\"]} ["))
    ≡ bytes "[1, {\"a\": -0.5e3}]" ∷ bytes "{\"k\": [true, \"x\\n\"]}" ∷ []
unfolding feed feed_len feed_loop until_nul feed_char process reset reset_checker check_char
    classify error ascii_class state_transition_table perform push pop on_quote on_comma
two_packets = refl

bad_bracket : error_of (feed fresh (bytes "[1}")) ≡ some 2
unfolding feed feed_len feed_loop until_nul feed_char process reset reset_checker check_char
    classify error ascii_class state_transition_table perform push pop on_quote on_comma
bad_bracket = refl

-- The byte 0xc3 begins a letter in UTF-8, and is refused also inside of a string.
not_ascii : error_of (feed fresh (0x5b ∷ 0x22 ∷ 0xc3 ∷ 0xa9 ∷ 0x22 ∷ 0x5d ∷ [])) ≡ some 2
unfolding feed feed_len feed_loop until_nul feed_char process reset reset_checker check_char
    classify error ascii_class state_transition_table perform push pop on_quote on_comma
not_ascii = refl

fresh-IsSound : IsSound fresh.checker
fresh-IsSound = record { size = refl; limit = refl; inside = omega arith; bottom = refl }

open_object-IsSound : IsSound open_object.checker
open_object-IsSound = record { size = refl; limit = refl; inside = omega arith; bottom = refl }

feed_len-IsSound_example :
    (d : Fed) × (feed_len fresh (bytes "}]") ≡ some d) × IsSound d.filter.checker
feed_len-IsSound_example = feed_len-IsSound fresh (bytes "}]") fresh-IsSound

feed_len-append_example : outcome (feed_len fresh (bytes "[1" ++ bytes "2]")) ≡ (
    outcome (feed_len fresh (bytes "[1"))
    >>= resume (λ g. map_shift 2 (outcome (feed_len g (bytes "2]")))))
feed_len-append_example = feed_len-append fresh (bytes "[1") (bytes "2]") (refl, refl)

stale_cache-delivered_example :
    (broken next_feed : Fed) × (feed_len open_object (0 ∷ []) ≡ some broken)
    × (broken.error_at ≡ some 0)
    × (feed_len broken.filter braces ≡ some next_feed)
    × (next_feed.packets ≡ bytes "{ {}" ∷ [])
stale_cache-delivered_example =
    stale_cache-delivered open_object (0x7b) (0x20 ∷ []) open_object-IsSound refl refl

-- The same inside of a string, behind a packet that is delivered.
non_ascii_refused_example :
    (d : Fed) × (n : ℕ) × (feed_len fresh (bytes "{}[\"" ++ (0xc3 ∷ bytes "\"]")) ≡ some d)
    × (d.error_at ≡ some n)
    × (n ≤ 4)
non_ascii_refused_example =
    non_ascii_refused fresh (bytes "{}[\"") 0xc3 (bytes "\"]") fresh-IsSound (omega arith)
