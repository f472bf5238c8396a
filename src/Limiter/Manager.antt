-- ===== src/Limiter/Manager.antt =====
-- internal/limiter/manager.go: the circuit breaker between the Redis limiter and the in-memory one.
-- The Redis limiter stands behind the interface `Backend`, which `Limiter.Redis` fills. Readings of
-- the clock, and whether the caller's context has ended, are arguments. What `mu` protects is one
-- step; the flags that are stored outside of it are steps of their own.
pub mod Circuit
pub mod Attempts
pub mod Routing
mod Tests
pub mod Probing
pub mod Outage
pub mod Lifecycle
pub mod Histories
pub mod Flags
pub mod Recovery
use rate_limiting_reverse_pr.Prelude.{
  ℕ, ◌+◌, ◌%◌, ◌^◌, Bool, true, false, not, ◌&&◌, ◌||◌, String, Option, none, some, ◌≡◌,
  if◌then◌else◌,
}
use rate_limiting_reverse_pr.Prelude.Int.{ℤ, pos, negsuc, ◌+ℤ◌, leb_ℤ, ltb_ℤ, eqb_ℤ, i64}
use rate_limiting_reverse_pr.Limiter.Policy.{
  Policy, Decision, normalize, millisecond, second, backend_redis, backend_memory,
}
use rate_limiting_reverse_pr.Limiter.Memory.{Memory, ◌>>=◌, allow, key_count}

-- `time.Time{}`, the first of January of the year 1.
abbrev pub zero_time : ℤ
zero_time = negsuc 62135596799999999999

abbrev pub is_zero : ℤ → Bool
is_zero t = eqb_ℤ t zero_time

-- The logger is not modelled.
pub record ManagerConfig : Type 0 where
  pub timeout : ℤ
  pub failure_threshold : ℤ
  pub cooldown : ℤ
  pub probe_interval : ℤ
  pub policy : Policy

unfoldable pub with_defaults : ManagerConfig → ManagerConfig
with_defaults c = record {
  timeout = if leb_ℤ c.timeout (pos 0) then pos 200000000 else c.timeout;
  failure_threshold = if ltb_ℤ c.failure_threshold (pos 1) then pos 3 else c.failure_threshold;
  cooldown = if leb_ℤ c.cooldown (pos 0) then pos 5000000000 else c.cooldown;
  probe_interval = if leb_ℤ c.probe_interval (pos 0) then pos 2000000000 else c.probe_interval;
  policy = normalize c.policy;
}

-- The fields of `Manager` that `mu` protects, and the two flags.
pub record Breaker : Type 0 where
  pub failures : ℤ
  pub open_until : ℤ
  pub last_err : String
  pub redis_healthy : Bool
  pub degraded : Bool

unfoldable pub try_primary : ManagerConfig → ℤ → Breaker → Breaker × Bool
try_primary c now b =
    if is_zero b.open_until
    then (b, true)
    else if ltb_ℤ b.open_until now
    then (record b { open_until = now +ℤ c.cooldown }, true)
    else (b, false)

-- `recordFailure` up to the unlock, and the flags after it.
unfoldable pub fail_locked : ManagerConfig → ℤ → String → Breaker → Breaker
fail_locked c now err b =
    let failures = i64 (b.failures +ℤ pos 1) in
    let b' : Breaker = record b { failures = failures; last_err = err } in
    if leb_ℤ c.failure_threshold failures && is_zero b.open_until
    then record b' { open_until = now +ℤ c.cooldown }
    else b'

unfoldable pub fail_flags : Breaker → Breaker
fail_flags b = record b { redis_healthy = false; degraded = true }

unfoldable pub record_failure : ManagerConfig → ℤ → String → Breaker → Breaker
unfolding fail_locked fail_flags
record_failure c now err b = fail_flags (fail_locked c now err b)

-- `recordSuccess` up to the unlock, and the flags after it.
unfoldable pub succeed_locked : Breaker → Breaker
succeed_locked b =
    let recovered = ltb_ℤ (pos 0) b.failures || not (is_zero b.open_until) in
    record b {
      failures = pos 0;
      open_until = zero_time;
      last_err = if recovered then "" else b.last_err;
    }

unfoldable pub succeed_flags : Breaker → Breaker
succeed_flags b = record b { redis_healthy = true; degraded = false }

unfoldable pub record_success : Breaker → Breaker
unfolding succeed_locked succeed_flags
record_success b = succeed_flags (succeed_locked b)

-- One tick of `probeLoop` with the ping's error, if it failed: the store of `redisHealthy`, the
-- locked section, and the store of `degraded`, which a failed ping does not reach.
unfoldable pub probe_health : Option String → Breaker → Breaker
probe_health result b = record b { redis_healthy = elim result [ none ↦ true | some err ↦ false ] }

unfoldable pub probe_locked : Option String → Breaker → Breaker
probe_locked (some err) b = record b { last_err = err }
probe_locked none b = record b {
  failures = pos 0;
  open_until = zero_time;
  last_err = if is_zero b.open_until then b.last_err else "";
}

unfoldable pub probe_degraded : Option String → Breaker → Breaker
probe_degraded result b = record b {
  degraded = elim result [ none ↦ false | some err ↦ b.degraded ];
}

unfoldable pub probe : Option String → Breaker → Breaker
unfolding probe_health probe_locked probe_degraded
probe result b = probe_degraded result (probe_locked result (probe_health result b))

-- What a call of the primary limiter brings back.
pub data Reply : Type 0 where
  answered : Decision → Reply
  unavailable : String → Reply

-- The `Limiter` interface as the manager uses it: a store, and a call that may change it.
pub record Backend : Type 1 where
  pub Store : Type 0
  pub call : String → Policy → ℤ → Store → Store × Reply

-- When each part of a call reads the clock, and whether its context has ended by then.
pub record Readings : Type 0 where
  pub at_try : ℤ
  pub at_primary : ℤ
  pub at_failure : ℤ
  pub at_fallback : ℤ
  pub ctx_ended : Bool

pub record Stats : Type 0 where
  pub redis_enabled : Bool
  pub redis_healthy : Bool
  pub degraded : Bool
  pub backend : String
  pub redis_served : ℕ
  pub fallback_served : ℕ
  pub consecutive_failures : ℤ
  pub circuit_open_until : ℤ
  pub tracked_keys : ℤ
  pub evictions : ℤ
  pub last_error : String

-- `atomic.Uint64.Add(1)`
abbrev pub bump64 : ℕ → ℕ
bump64 n = (n + 1) % 2 ^ 64

module _ (primary : Backend) where
  open primary use {Store, call}

  -- `store` is `none` when Redis is not configured.
  pub record Manager : Type 0 where
    pub config : ManagerConfig
    pub store : Option Store
    pub fallback : Memory
    pub policy : Policy
    pub breaker : Breaker
    pub redis_served : ℕ
    pub fallback_served : ℕ

  unfoldable pub new_manager : Option Store → Memory → ManagerConfig → Manager
  unfolding with_defaults
  new_manager store fallback cfg = record {
    config = with_defaults cfg;
    store = store;
    fallback = fallback;
    policy = (with_defaults cfg).policy;
    breaker = record {
      failures = pos 0;
      open_until = zero_time;
      last_err = "";
      redis_healthy = elim store [ none ↦ false | some s ↦ true ];
      degraded = false;
    };
    redis_served = 0;
    fallback_served = 0;
  }

  unfoldable pub set_policy : Policy → Manager → Manager × Policy
  set_policy p m = (record m { policy = normalize p }, normalize p)

  -- `others` is what other goroutines do to the in-memory limiter meanwhile.
  unfoldable pub serve_fallback :
      (ℕ → Memory → Memory) → String → Policy → ℤ → Manager → Option (Manager × Decision)
  serve_fallback others key p now m = do
    (memory, d) ← allow others key p now m.fallback
    some (record m { fallback = memory; fallback_served = bump64 m.fallback_served }, d)

  -- The `switch` after the call of the primary limiter.
  unfoldable pub settle :
      (ℕ → Memory → Memory)
      → String
      → Policy
      → Readings
      → Reply
      → Manager
      → Option (Manager × Decision)
  unfolding record_success record_failure serve_fallback
  settle others key p r (answered d) m =
      some
        (record m { breaker = record_success m.breaker; redis_served = bump64 m.redis_served }, d)
  settle others key p r (unavailable err) m = serve_fallback others key p r.at_fallback (
      if r.ctx_ended
      then m
      else record m { breaker = record_failure m.config r.at_failure err m.breaker })

  -- `AllowPolicy` from the test of the circuit on, when Redis is configured.
  unfoldable pub route :
      (ℕ → Memory → Memory)
      → String
      → Policy
      → Readings
      → Store
      → Manager
      → Option (Manager × Decision)
  unfolding try_primary settle serve_fallback
  route others key p r s m =
      let (b, permitted) = try_primary m.config r.at_try m.breaker in
      let (s', reply) = call key p r.at_primary s in
      if permitted
      then settle others key p r reply (record m { breaker = b; store = some s' })
      else serve_fallback others key p r.at_fallback (record m { breaker = b })

  unfoldable pub allow_policy :
      (ℕ → Memory → Memory) → String → Policy → Readings → Manager → Option (Manager × Decision)
  unfolding route serve_fallback
  allow_policy others key p r m = elim m.store [
    | none ↦ serve_fallback others key p r.at_fallback m
    | some s ↦ route others key p r s m
  ]

  -- `Allow`
  unfoldable pub allow_request :
      (ℕ → Memory → Memory) → String → Readings → Manager → Option (Manager × Decision)
  unfolding allow_policy
  allow_request others key r m = allow_policy others key m.policy r m

  unfoldable pub stats : Manager → Stats
  unfolding key_count
  stats m = record {
    redis_enabled = elim m.store [ none ↦ false | some s ↦ true ];
    redis_healthy = m.breaker.redis_healthy;
    degraded = m.breaker.degraded;
    backend = elim m.store [
      | none ↦ backend_memory
      | some s ↦ if m.breaker.degraded then backend_memory else backend_redis
    ];
    redis_served = m.redis_served;
    fallback_served = m.fallback_served;
    consecutive_failures = m.breaker.failures;
    circuit_open_until = m.breaker.open_until;
    tracked_keys = key_count m.fallback;
    evictions = m.fallback.evictions;
    last_error = m.breaker.last_err;
  }
