-- ===== src/StreamThrottle.antt =====
-- evd/evd-stream-throttle.c: the bandwidth and latency limiter that the throttled streams ask
-- before each transfer. gsize, gulong and guint64 are 64 bits wide, guint 32. The clock,
-- g_get_current_time, is the argument `now`; a float property is `mantissa / 2 ^ shift`.
pub mod Bounds
pub mod Latency
pub mod Progress
mod Tests
use event_dance.Common.{
  ℕ, ◌+◌, ◌-◌, ◌*◌, ◌/◌, ◌%◌, ◌^◌, max, min, Bool, true, false, Option, none, some, ltb, ◌==◌, not,
  ◌&&◌, if◌then◌else◌, List, [], ◌∷◌,
}

-- GTimeVal. g_get_current_time keeps `tv_usec` below 1000000.
pub record TimeVal : Type 0 where
  pub tv_sec : ℕ
  pub tv_usec : ℕ

-- struct _EvdStreamThrottlePrivate
pub record StreamThrottle : Type 0 where
  pub bandwidth : ℕ
  pub latency : ℕ
  pub current_time : TimeVal
  pub bytes : ℕ
  pub actual_bandwidth : ℕ
  pub total : ℕ
  pub last : TimeVal

abbrev pub usec_per_sec : ℕ
usec_per_sec = 1000000

-- The private structure is zeroed by g_type_class_add_private, `last` included.
pub init : StreamThrottle
init = record {
  bandwidth = 0;
  latency = 0;
  current_time = record { tv_sec = 0; tv_usec = 0 };
  bytes = 0;
  actual_bandwidth = 0;
  total = 0;
  last = record { tv_sec = 0; tv_usec = 0 };
}

-- A `gfloat` that is not negative, as the parameter specifications of both properties demand.
pub record Float : Type 0 where
  pub mantissa : ℕ
  pub shift : ℕ

pub data Property : Type 0 where
  prop_bandwidth : Float → Property
  prop_latency : Float → Property

-- The products with 1024.0 and 1000.0 are exact in a double; the conversion cuts the fraction off.
pub set_property : StreamThrottle → Property → StreamThrottle
set_property t (prop_bandwidth v) = record t { bandwidth = v.mantissa * 1024 / 2 ^ v.shift }
set_property t (prop_latency v) = record t { latency = v.mantissa * 1000 / 2 ^ v.shift }

pub update_current_time : StreamThrottle → TimeVal → StreamThrottle
update_current_time t now =
    if not (now.tv_sec == t.current_time.tv_sec)
    then record t { actual_bandwidth = t.bytes; bytes = 0; current_time = now }
    else record t { current_time = now }

-- ABS (b - a)
abbrev pub abs_diff : ℕ → ℕ → ℕ
abs_diff a b = if ltb a b then b - a else a - b

-- g_timeval_get_diff_micro, in a gulong.
pub diff_micro : TimeVal → TimeVal → ℕ
diff_micro time1 time2 =
    (abs_diff time1.tv_sec time2.tv_sec * usec_per_sec + abs_diff time1.tv_usec time2.tv_usec)
    % 2 ^ 64

-- `a - b` of two gsize values.
abbrev pub sub64 : ℕ → ℕ → ℕ
sub64 a b = (a + 2 ^ 64 - b) % 2 ^ 64

-- MAX ((gssize) n, 0)
abbrev pub max_gssize_zero : ℕ → ℕ
max_gssize_zero n = if ltb n (2 ^ 63) then n else 0

-- `wait` is NULL or points to a guint; `*wait < 0` never holds of one.
abbrev pub raise : Option ℕ → ℕ → Option ℕ
raise none n = none
raise (some w) n = some (max n w % 2 ^ 32)

-- The latency check: the size still allowed, and `wait`.
pub latency_check : StreamThrottle → ℕ → Option ℕ → ℕ × Option ℕ
latency_check t size wait =
    let elapsed = diff_micro t.current_time t.last in
    if ltb 0 t.latency && ltb elapsed t.latency
    then (0, raise wait ((t.latency - elapsed) / 1000 + 2))
    else (size, wait)

-- The bandwidth check, on what the latency check left.
pub bandwidth_check : StreamThrottle → ℕ → ℕ × Option ℕ → ℕ × Option ℕ
bandwidth_check t size (actual_size, wait) =
    let allowed = min (max_gssize_zero (sub64 t.bandwidth t.bytes)) size in
    if ltb 0 t.bandwidth && ltb 0 actual_size
    then (
      allowed,
      if ltb allowed size then raise wait ((1000001 - t.current_time.tv_usec) / 1000 + 1) else wait,
    )
    else (actual_size, wait)

pub request_internal : StreamThrottle → ℕ → Option ℕ → ℕ × Option ℕ
request_internal t size wait = bandwidth_check t size (latency_check t size wait)

-- The result is the new state, the size granted and `*wait`.
pub request : StreamThrottle → TimeVal → ℕ → Option ℕ → StreamThrottle × ℕ × Option ℕ
request t now size wait =
    let t' = update_current_time t now in let r = request_internal t' size wait in (t', r.0, r.1)

pub report : StreamThrottle → TimeVal → ℕ → StreamThrottle
report t now size =
    let t' = update_current_time t now in
    record t' {
      bytes = (t'.bytes + size) % 2 ^ 64;
      total = (t'.total + size) % 2 ^ 64;
      last = t'.current_time;
    }

-- What the throttled streams do: ask, move at most what is granted, report it.
pub record Transfer : Type 0 where
  pub asked_at : TimeVal
  pub size : ℕ
  pub moved : ℕ
  pub reported_at : TimeVal

pub transfer : StreamThrottle → Transfer → StreamThrottle
transfer t x =
    let r = request t x.asked_at x.size none in report (r.0) x.reported_at (min x.moved r.1)

pub transfers : StreamThrottle → List Transfer → StreamThrottle
transfers t [] = t
transfers t (x ∷ xs) = transfers (transfer t x) xs
