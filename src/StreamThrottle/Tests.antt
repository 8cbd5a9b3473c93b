-- ===== src/StreamThrottle/Tests.antt =====
-- Runs of the stream throttle (evd/evd-stream-throttle.c) and instances of its theorems.
use event_dance.Common.{ℕ, ◌≤◌, ◌≡◌, refl, none, some, List, [], ◌∷◌, arith}
use event_dance.StreamThrottle.{
  StreamThrottle, TimeVal, Transfer, prop_bandwidth, init, set_property, update_current_time,
  diff_micro, latency_check, bandwidth_check, request_internal, request, transfers,
}
use event_dance.StreamThrottle.Bounds.{transfers-bytes-le-bandwidth}
use event_dance.StreamThrottle.Latency.{diff_micro_wrapped, request_too_early, request_wrapped}
use event_dance.StreamThrottle.Progress.{request_after_wait}

-- 1.5 kB/s, and 250 ms.
abbrev limited : StreamThrottle
limited = record {
  bandwidth = 1536;
  latency = 0;
  current_time = record { tv_sec = 10; tv_usec = 100000 };
  bytes = 1000;
  actual_bandwidth = 0;
  total = 1000;
  last = record { tv_sec = 10; tv_usec = 100000 };
}

abbrev delayed : StreamThrottle
delayed = record limited { latency = 250000 }

abbrev at : ℕ → ℕ → TimeVal
at sec usec = record { tv_sec = sec; tv_usec = usec }

set_bandwidth :
    (set_property init (prop_bandwidth (record { mantissa = 3; shift = 1 }))).bandwidth ≡ 1536
unfolding set_property init
set_bandwidth = refl

cut_short :
    request limited (at 10 200000) 1000 (some 0)
    ≡ (record limited { current_time = at 10 200000 }, 536, some 801)
unfolding request request_internal latency_check bandwidth_check update_current_time diff_micro
cut_short = refl

abbrev history : List Transfer
history =
    record { asked_at = at 10 200000; size = 1000; moved = 400; reported_at = at 10 200100 }
    ∷ record { asked_at = at 10 300000; size = 1000; moved = 1000; reported_at = at 11 5 }
    ∷ []

transfers-bytes-le-bandwidth_example :
    ((transfers limited history).bytes ≤ 1536) × ((transfers limited history).bandwidth ≡ 1536)
transfers-bytes-le-bandwidth_example =
    transfers-bytes-le-bandwidth limited history (omega arith) (omega arith) (omega arith)

diff_micro_wrapped_example : diff_micro (at 11 0) (at 10 900000) ≡ 1900000
diff_micro_wrapped_example =
    diff_micro_wrapped (at 11 0) (at 10 900000) (omega arith) (omega arith) (omega arith)
      (omega arith)

-- 100 ms after the last transfer.
request_too_early_example : (request delayed (at 10 200000) 1000 (some 0)).1 ≡ 0
request_too_early_example =
    (request_too_early delayed (at 10 200000) 1000 0 (omega arith) (omega arith) (omega arith)
      (omega arith) (omega arith) (omega arith) (omega arith)).0

-- 100 ms after the last transfer, across the end of the second, the latency of 250 ms is ignored.
abbrev late_last : StreamThrottle
late_last = record delayed { last = at 10 900000 }

request_wrapped_example :
    request late_last (at 11 0) 1000 none
    ≡ (record late_last { current_time = at 11 0; bytes = 0; actual_bandwidth = 1000 }, 1000, none)
unfolding update_current_time bandwidth_check
request_wrapped_example =
    request_wrapped late_last (at 11 0) 1000 none (omega arith) (omega arith) (omega arith)
      (omega arith) (omega arith)

request_after_wait_example :
    (request (request limited (at 10 200000) 1000 (some 0)).0 (at 11 1000) 1000 (some 0)).1 ≡ 1000
unfolding request request_internal latency_check bandwidth_check update_current_time diff_micro
request_after_wait_example =
    request_after_wait limited (at 10 200000) (at 11 1000) 1000 801 refl (omega arith) (omega arith)
      (omega arith) (omega arith) (omega arith) refl (omega arith)
