-- ===== src/StreamThrottle/Latency.antt =====
-- The latency check of evd_stream_throttle_request, against the time that really passed.
use event_dance.Common.{
  ℕ, ◌+◌, ◌-◌, ◌*◌, ◌/◌, ◌%◌, ◌^◌, ◌≤◌, ◌<◌, max, ◌≡◌, refl, ap, ◌∙◌, Option, some, arith,
}
use event_dance.StreamThrottle.{
  StreamThrottle, TimeVal, latency_check, bandwidth_check, usec_per_sec, diff_micro,
  update_current_time, request_internal, request,
}

-- The microseconds since the epoch.
abbrev pub micros : TimeVal → ℕ
micros v = v.tv_sec * usec_per_sec + v.tv_usec

-- A time that g_get_current_time can return (for some 30000 years).
pub record IsClock (v : TimeVal) : Type 0 where
  pub usec_small : v.tv_usec < usec_per_sec
  pub sec_small : v.tv_sec < 2 ^ 40

diff_micro_exact :
    (a b : TimeVal)
    → IsClock a
    → IsClock b
    → b.tv_sec ≤ a.tv_sec
    → b.tv_usec ≤ a.tv_usec
    → diff_micro a b ≡ micros a - micros b
unfolding diff_micro
diff_micro_exact a b ca cb hs hu = ground arith

-- When the microseconds of the clock have wrapped since the last transfer, the time that
-- g_timeval_get_diff_micro gives is too long, by twice what they fell.
pub diff_micro_wrapped :
    (a b : TimeVal)
    → IsClock a
    → IsClock b
    → b.tv_sec < a.tv_sec
    → a.tv_usec < b.tv_usec
    → diff_micro a b ≡ micros a - micros b + 2 * (b.tv_usec - a.tv_usec)
unfolding diff_micro
diff_micro_wrapped a b ca cb hs hu = ground arith

pub record SetsClock (t u : StreamThrottle) (now : TimeVal) : Type 0 where
  pub current_time : u.current_time ≡ now
  pub last : u.last ≡ t.last
  pub latency : u.latency ≡ t.latency
  pub bandwidth : u.bandwidth ≡ t.bandwidth

pub update_current_time-SetsClock :
    (t : StreamThrottle) (now : TimeVal) → SetsClock t (update_current_time t now) now
unfolding update_current_time
update_current_time-SetsClock t now = ground arith

-- What the latency check decides with `elapsed` microseconds since the last transfer.
request_internal_early :
    (u : StreamThrottle) (size w elapsed : ℕ)
    → diff_micro u.current_time u.last ≡ elapsed
    → elapsed < u.latency
    → request_internal u size (some w)
      ≡ (0, some (max ((u.latency - elapsed) / 1000 + 2) w % 2 ^ 32))
unfolding request_internal latency_check bandwidth_check
request_internal_early u size w elapsed e h = ground arith

request_early :
    (t : StreamThrottle) (now : TimeVal) (size w elapsed : ℕ)
    → diff_micro now t.last ≡ elapsed
    → elapsed < t.latency
    → ((request t now size (some w)).1 ≡ 0)
      × ((request t now size (some w)).2 ≡ some (max ((t.latency - elapsed) / 1000 + 2) w % 2 ^ 32))
unfolding request
request_early t now size w elapsed e h =
    let s = update_current_time-SetsClock t now in
    let r =
      request_internal_early (update_current_time t now) size w elapsed
        (rw (s.current_time, s.last) e) (rw s.latency h) in
    (
      ap (λ p. p.0) r,
      ap (λ p. p.1) r ∙ ap (λ l. some (max ((l - elapsed) / 1000 + 2) w % 2 ^ 32)) s.latency,
    )

-- A request that comes before the latency has passed since the last transfer is granted nothing,
-- and `*wait` covers the rest of the latency; provided that the microseconds of the clock have not
-- fallen since the last transfer, and that the latency is below an hour.
pub request_too_early :
    (t : StreamThrottle) (now : TimeVal) (size w : ℕ)
    → IsClock now
    → IsClock t.last
    → t.last.tv_sec ≤ now.tv_sec
    → t.last.tv_usec ≤ now.tv_usec
    → micros now < micros t.last + t.latency
    → t.latency < 3600000000
    → w < 2 ^ 32
    → ((request t now size (some w)).1 ≡ 0)
      × ((v : ℕ) × ((request t now size (some w)).2 ≡ some v)
          × (w ≤ v)
          × (micros t.last + t.latency ≤ micros now + 1000 * v))
request_too_early t now size w cn cl hs hu early small hw =
    let elapsed = micros now - micros t.last in
    let r =
      request_early t now size w elapsed (diff_micro_exact now t.last cn cl hs hu) (omega arith) in
    (r.0, (max ((t.latency - elapsed) / 1000 + 2) w % 2 ^ 32, r.1, omega arith, omega arith))

request_internal_late :
    (u : StreamThrottle) (size : ℕ) (wait : Option ℕ)
    → u.latency ≤ diff_micro u.current_time u.last
    → request_internal u size wait ≡ bandwidth_check u size (size, wait)
unfolding request_internal latency_check
request_internal_late u size wait h = ground arith

-- The latency is not kept when the microseconds of the clock have wrapped: a request that comes
-- early by at most twice what they fell is not held back, and gets what the bandwidth allows.
pub request_wrapped :
    (t : StreamThrottle) (now : TimeVal) (size : ℕ) (wait : Option ℕ)
    → IsClock now
    → IsClock t.last
    → t.last.tv_sec < now.tv_sec
    → now.tv_usec < t.last.tv_usec
    → t.latency ≤ micros now - micros t.last + 2 * (t.last.tv_usec - now.tv_usec)
    → let u = update_current_time t now in
      request t now size wait
      ≡ (u, (bandwidth_check u size (size, wait)).0, (bandwidth_check u size (size, wait)).1)
unfolding request
request_wrapped t now size wait cn cl hs hu late =
    let s = update_current_time-SetsClock t now in
    let late' : _ ≤ _ =
      rw (s.latency, s.current_time, s.last)
        (omega (arith, diff_micro_wrapped now t.last cn cl hs hu)) in
    rw (request_internal_late (update_current_time t now) size wait late') refl
