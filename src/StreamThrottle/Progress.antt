-- ===== src/StreamThrottle/Progress.antt =====
-- The wait that evd_stream_throttle_request asks for is long enough.
use event_dance.Common.{ℕ, ◌+◌, ◌*◌, ◌^◌, ◌≤◌, ◌<◌, min, ◌≡◌, ap, ◌∙◌, some, arith}
use event_dance.StreamThrottle.{
  StreamThrottle, TimeVal, update_current_time, latency_check, bandwidth_check, request_internal,
  request,
}
use event_dance.StreamThrottle.Latency.{micros, IsClock, update_current_time-SetsClock}

-- A request that is cut short asks for a wait up to the end of the running second.
cut_short_wait :
    (t : StreamThrottle) (now : TimeVal) (size w : ℕ)
    → t.latency ≡ 0
    → IsClock now
    → (request t now size (some 0)).1 < size
    → (request t now size (some 0)).2 ≡ some w
    → 1000000 < now.tv_usec + 1000 * w
unfolding request request_internal latency_check bandwidth_check update_current_time
cut_short_wait t now size w hl cn refused asked = ground arith

next_second :
    (now later : TimeVal) (w : ℕ)
    → IsClock later
    → 1000000 < now.tv_usec + 1000 * w
    → micros now + 1000 * w ≤ micros later
    → now.tv_sec < later.tv_sec
next_second now later w cl h passed = omega arith

-- With no latency a request in a new second gets all of the size or of the bandwidth.
granted_in_new_second :
    (u : StreamThrottle) (later : TimeVal) (size : ℕ)
    → u.latency ≡ 0
    → 0 < u.bandwidth
    → u.bandwidth < 2 ^ 63
    → u.current_time.tv_sec < later.tv_sec
    → (request u later size (some 0)).1 ≡ min u.bandwidth size
unfolding request request_internal latency_check bandwidth_check update_current_time
granted_in_new_second u later size hl hb hn new = ground arith

-- Where only the bandwidth limits (it is positive and below 2 ^ 63, and the latency 0), a caller that
-- was granted less than it asked for, and asks again after at least the returned `wait`
-- milliseconds, gets the whole size or the whole bandwidth.
pub request_after_wait :
    (t : StreamThrottle) (now later : TimeVal) (size w : ℕ)
    → t.latency ≡ 0
    → 0 < t.bandwidth
    → t.bandwidth < 2 ^ 63
    → IsClock now
    → IsClock later
    → (request t now size (some 0)).1 < size
    → (request t now size (some 0)).2 ≡ some w
    → micros now + 1000 * w ≤ micros later
    → (request (request t now size (some 0)).0 later size (some 0)).1 ≡ min t.bandwidth size
unfolding request
request_after_wait t now later size w hl hb hn cn cl refused asked passed =
    let s = update_current_time-SetsClock t now in
    let next =
      next_second now later w cl (cut_short_wait t now size w hl cn refused asked) passed in
    let u = update_current_time t now in
    granted_in_new_second u later size (s.latency ∙ hl) (omega (arith, s.bandwidth))
      (omega (arith, s.bandwidth)) (rw s.current_time next)
    ∙ ap (λ b. min b size) s.bandwidth
