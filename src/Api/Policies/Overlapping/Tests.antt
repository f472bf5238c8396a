-- ===== src/Api/Policies/Overlapping/Tests.antt =====
-- Two requests that overlap: one for 20 requests, one for a window of a minute.
use rate_limiting_reverse_pr.Prelude.{◌≡◌, refl, false, none, some}
use rate_limiting_reverse_pr.Prelude.Int.{ℤ, pos}
use rate_limiting_reverse_pr.Limiter.Memory.{new_memory}
use rate_limiting_reverse_pr.Limiter.Manager.{Backend, Manager, unavailable, zero_time}
use rate_limiting_reverse_pr.Api.Policies.{applied, validate_policy}
use rate_limiting_reverse_pr.Api.Policies.Overlapping.{
  finish_policy_set, limit_only, window_only, updates_lost,
}

abbrev no_redis : Backend
no_redis = record { Store = ℤ; call = λ key p now s. (s, unavailable "dial tcp") }

abbrev running : Manager no_redis
running = record {
  config = record {
    timeout = pos 200000000;
    failure_threshold = pos 3;
    cooldown = pos 5000000000;
    probe_interval = pos 2000000000;
    policy = record { limit = pos 10; window = pos 1000000000 };
  };
  store = none;
  fallback = new_memory;
  policy = record { limit = pos 10; window = pos 1000000000 };
  breaker = record {
    failures = pos 0;
    open_until = zero_time;
    last_err = "";
    redis_healthy = false;
    degraded = false;
  };
  redis_served = 0;
  fallback_served = 0;
}

updates_lost_example :
    let (m₁, first) =
      finish_policy_set (λ x. x) no_redis none (limit_only (pos 20)) running.policy running in
    let (m₂, second) =
      finish_policy_set (λ x. x) no_redis none (window_only (pos 60000000000)) running.policy m₁ in
    (applied first ≡ some (record { limit = pos 20; window = pos 1000000000 }))
    × (applied second ≡ some (record { limit = pos 10; window = pos 60000000000 }))
    × (m₂.policy ≡ record { limit = pos 10; window = pos 60000000000 })
unfolding validate_policy
updates_lost_example =
    updates_lost (λ x. x) no_redis none (pos 20) (pos 60000000000) running refl refl
