-- ===== src/Limiter/Manager/Tests.antt =====
-- Concrete runs of the manager and its circuit breaker, over a Redis that refuses connections.
use rate_limiting_reverse_pr.Prelude.{
  ℕ, suc, ◌+◌, ◌≤◌, ◌≡◌, refl, ◌⊎◌, inr, true, false, some, List, [], ◌∷◌, ◌++◌, arith,
}
use rate_limiting_reverse_pr.Prelude.Int.{ℤ, pos, ◌+ℤ◌, i64}
use rate_limiting_reverse_pr.Limiter.Policy.{Decision}
use rate_limiting_reverse_pr.Limiter.Memory.{new_memory}
use rate_limiting_reverse_pr.Limiter.Memory.Allow.{nobody}
use rate_limiting_reverse_pr.Limiter.Manager.{
  Backend, Manager, ManagerConfig, Breaker, Readings, unavailable, zero_time, is_zero, try_primary,
  fail_locked, fail_flags, allow_policy,
}
use rate_limiting_reverse_pr.Limiter.Manager.Circuit.{
  Op, tries, fails, flags_failure, succeeds, flags_success, probes_health, probes_locked, step,
  run_ops, IsConsistent, run_ops-IsConsistent,
}
use rate_limiting_reverse_pr.Limiter.Manager.Probing.{one_probe}
use rate_limiting_reverse_pr.Limiter.Manager.Outage.{outage_cost}
use rate_limiting_reverse_pr.Limiter.Manager.Recovery.{count_tries, recovers}
use rate_limiting_reverse_pr.Limiter.Manager.Flags.{late_flags}
use rate_limiting_reverse_pr.Limiter.Manager.Routing.{IsRedis, IsFallback, allow_policy_served}

abbrev config : ManagerConfig
config = record {
  timeout = pos 200000000;
  failure_threshold = pos 2;
  cooldown = pos 5000000000;
  probe_interval = pos 2000000000;
  policy = record { limit = pos 10; window = pos 1000000000 };
}

abbrev closed : Breaker
closed = record {
  failures = pos 0;
  open_until = zero_time;
  last_err = "";
  redis_healthy = true;
  degraded = false;
}

abbrev opened : Breaker
opened = record closed {
  failures = pos 2;
  open_until = pos 1700000005000000000;
  last_err = "dial tcp";
  redis_healthy = false;
  degraded = true;
}

closed-IsConsistent : IsConsistent config closed
closed-IsConsistent = ground arith

abbrev outage : List Op
outage =
    tries (pos 1700000000000000000)
    ∷ fails (pos 1700000000000000000) "dial tcp"
    ∷ flags_failure
    ∷ tries (pos 1700000000500000000)
    ∷ fails (pos 1700000000500000000) "dial tcp"
    ∷ flags_failure
    ∷ tries (pos 1700000001000000000)
    ∷ tries (pos 1700000006000000000)
    ∷ tries (pos 1700000006000000001)
    ∷ []

-- Two failures trip the circuit; the request in the cooldown is not let through, one after it is.
outage_permits : (run_ops config outage closed).1 ≡ 3
unfolding run_ops step try_primary fail_locked fail_flags i64 ◌+ℤ◌
outage_permits = refl

run_ops-IsConsistent_example : IsConsistent config (run_ops config outage closed).0
run_ops-IsConsistent_example =
    run_ops-IsConsistent config (omega arith) (omega arith) outage closed (omega arith)
      (omega arith) closed-IsConsistent

abbrev knocks : List Op
knocks =
    tries (pos 1700000006000000000)
    ∷ probes_health (some "dial tcp")
    ∷ probes_locked (some "dial tcp")
    ∷ tries (pos 1700000006000000001)
    ∷ fails (pos 1700000006200000000) "dial tcp"
    ∷ tries (pos 1700000010000000000)
    ∷ []

one_probe_example : (run_ops config knocks opened).1 ≤ 1
unfolding ◌+ℤ◌
one_probe_example =
    one_probe config (omega arith) (omega arith) (pos 1700000006000000000) (pos 1700000011000000000)
      knocks opened (omega arith) (omega arith) (omega arith) (omega arith) refl

-- Two requests are under way when the first of them fails.
abbrev collapse : List Op
collapse =
    tries (pos 1700000000000000000)
    ∷ tries (pos 1700000000100000000)
    ∷ fails (pos 1700000000200000000) "dial tcp"
    ∷ flags_failure
    ∷ tries (pos 1700000000250000000)
    ∷ fails (pos 1700000000300000000) "dial tcp"
    ∷ tries (pos 1700000000400000000)
    ∷ []

outage_cost_example : (run_ops config collapse closed).1 + 0 + 0 + 1 ≤ 2 + 2
unfolding try_primary fail_locked fail_flags i64 ◌+ℤ◌
outage_cost_example =
    outage_cost config (omega arith) (omega arith) (pos 1700000000000000000)
      (pos 1700000005000000000) 2 0 collapse closed (omega arith) (omega arith) (omega arith)
      (omega arith) (omega arith) (omega arith) refl refl (omega arith) (omega arith)

abbrev afterwards : List Op
afterwards =
    tries (pos 1700000006100000000)
    ∷ fails (pos 1700000006200000000) "timeout"
    ∷ tries (pos 1700000006300000000)
    ∷ []

recovers_example :
    let r =
      run_ops config
        (tries (pos 1700000006000000000) ∷ (flags_failure ∷ []) ++ succeeds ∷ afterwards)
        opened in
    (r.1
      ≡ suc (
          (run_ops config
            (flags_failure ∷ [])
            (try_primary config (pos 1700000006000000000) opened).0).1
          + count_tries afterwards))
    × (is_zero r.0.open_until ≡ true)
recovers_example =
    recovers config (omega arith) (omega arith) (omega arith) (pos 1700000006000000000)
      (flags_failure ∷ []) afterwards succeeds opened (inr (omega arith)) tt (omega arith)

late_flags_example :
    let b =
      (run_ops config
        (fails (pos 1700000000000000000) "timeout" ∷ succeeds ∷ flags_success ∷ flags_failure ∷ [])
        closed).0 in
    (b.failures ≡ pos 0)
    × (is_zero b.open_until ≡ true)
    × ((later : ℤ) → try_primary config later b ≡ (b, true))
    × (b.degraded ≡ true)
    × (b.redis_healthy ≡ false)
late_flags_example = late_flags config (pos 1700000000000000000) "timeout" closed

-- The store counts the calls.
abbrev refusing : Backend
refusing = record { Store = ℕ; call = λ key p now s. (s + 1, unavailable "dial tcp") }

abbrev manager : Manager refusing
manager = record {
  config = config;
  store = some 0;
  fallback = new_memory;
  policy = config.policy;
  breaker = opened;
  redis_served = 0;
  fallback_served = 0;
}

abbrev readings : Readings
readings = record {
  at_try = pos 1700000001000000000;
  at_primary = pos 1700000001000000000;
  at_failure = pos 1700000001000000000;
  at_fallback = pos 1700000001000000000;
  ctx_ended = false;
}

allow_policy_served_example :
    (m' : Manager refusing) × (d : Decision) × (allow_policy refusing nobody "a" config.policy
        readings manager
      ≡ some (m', d))
    × (IsRedis refusing nobody "a" config.policy readings manager m' d
        ⊎ IsFallback refusing nobody "a" config.policy readings manager m' d)
allow_policy_served_example = allow_policy_served refusing nobody "a" config.policy readings manager
