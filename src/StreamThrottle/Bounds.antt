-- ===== src/StreamThrottle/Bounds.antt =====
-- How much evd_stream_throttle_request grants.
use event_dance.Common.{ℕ, ◌+◌, ◌^◌, ◌≤◌, ◌<◌, ◌≡◌, refl, ◌∙◌, List, [], ◌∷◌, Option, none, arith}
use event_dance.StreamThrottle.{
  StreamThrottle, TimeVal, Transfer, update_current_time, latency_check, bandwidth_check,
  request_internal, request, report, transfer, transfers,
}

-- A request never grants more than the caller asked for.
pub request-le-size :
    (t : StreamThrottle) (now : TimeVal) (size : ℕ) (wait : Option ℕ)
    → (request t now size wait).1 ≤ size
unfolding request request_internal latency_check bandwidth_check
request-le-size t now size wait = ground arith

update_current_time-bandwidth :
    (t : StreamThrottle) (now : TimeVal) → (update_current_time t now).bandwidth ≡ t.bandwidth
unfolding update_current_time
update_current_time-bandwidth t now = ground arith

-- The size that `request_internal` grants fits what the second has left.
granted_fits :
    (t : StreamThrottle) (size : ℕ) (wait : Option ℕ)
    → 0 < t.bandwidth
    → t.bandwidth < 2 ^ 63
    → t.bytes ≤ t.bandwidth
    → t.bytes + (request_internal t size wait).0 ≤ t.bandwidth
unfolding request_internal latency_check bandwidth_check
granted_fits t size wait hb hw h = ground arith

-- A state whose second is within its bandwidth.
pub record WithinBandwidth (t : StreamThrottle) : Type 0 where
  pub limited : 0 < t.bandwidth
  pub narrow : t.bandwidth < 2 ^ 63
  pub within : t.bytes ≤ t.bandwidth

update_current_time-Within :
    (t : StreamThrottle) (now : TimeVal)
    → WithinBandwidth t
    → WithinBandwidth (update_current_time t now)
unfolding update_current_time
update_current_time-Within t now v = ground arith

request-Within :
    (t : StreamThrottle) (now : TimeVal) (size : ℕ) (wait : Option ℕ)
    → WithinBandwidth t
    → let r = request t now size wait in WithinBandwidth r.0 × (r.0.bytes + r.1 ≤ r.0.bandwidth)
unfolding request
request-Within t now size wait v =
    let u = update_current_time-Within t now v in
    (u, granted_fits (update_current_time t now) size wait u.limited u.narrow u.within)

report-Within :
    (t : StreamThrottle) (now : TimeVal) (size : ℕ)
    → WithinBandwidth t
    → t.bytes + size ≤ t.bandwidth
    → WithinBandwidth (report t now size)
unfolding report update_current_time
report-Within t now size v h = ground arith

transfer-Within :
    (t : StreamThrottle) (x : Transfer) → WithinBandwidth t → WithinBandwidth (transfer t x)
unfolding transfer
transfer-Within t x v =
    let r = request-Within t x.asked_at x.size none v in
    report-Within _ x.reported_at _ r.0 (omega arith)

transfer-bandwidth : (t : StreamThrottle) (x : Transfer) → (transfer t x).bandwidth ≡ t.bandwidth
unfolding transfer request report update_current_time
transfer-bandwidth t x = ground (arith)

transfers-Within :
    (t : StreamThrottle) (xs : List Transfer)
    → WithinBandwidth t
    → WithinBandwidth (transfers t xs) × ((transfers t xs).bandwidth ≡ t.bandwidth)
unfolding transfers
transfers-Within t [] v = (v, refl)
transfers-Within t (x ∷ xs) v =
    let r = transfers-Within (transfer t x) xs (transfer-Within t x v) in
    (r.0, r.1 ∙ transfer-bandwidth t x)

-- Under any history of transfers, each of which asks, moves at most what it was granted and
-- reports what it moved, the bytes counted in the running second stay within the bandwidth, which
-- does not change; given that it is set, is below 2 ^ 63, and bounds the bytes counted at the start.
pub transfers-bytes-le-bandwidth :
    (t : StreamThrottle) (xs : List Transfer)
    → 0 < t.bandwidth
    → t.bandwidth < 2 ^ 63
    → t.bytes ≤ t.bandwidth
    → ((transfers t xs).bytes ≤ t.bandwidth) × ((transfers t xs).bandwidth ≡ t.bandwidth)
transfers-bytes-le-bandwidth t xs limited narrow within =
    let r =
      transfers-Within t xs (record { limited = limited; narrow = narrow; within = within }) in
    (omega (arith, r.0.within, r.1), r.1)
