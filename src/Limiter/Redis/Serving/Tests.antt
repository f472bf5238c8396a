-- ===== src/Limiter/Redis/Serving/Tests.antt =====
-- A manager over a Redis limiter, whose server knows one key: a concrete history, and its end.
use mathlib.Core.List.{head?}
use rate_limiting_reverse_pr.Prelude.{
  ◌+◌, ◌≡◌, refl, Bool, true, false, String, Option, none, some, List, [], ◌∷◌, ◌++◌, arith, length,
}
use rate_limiting_reverse_pr.Prelude.Int.{ℤ, pos}
use rate_limiting_reverse_pr.Limiter.Policy.{Decision, normalize}
use rate_limiting_reverse_pr.Limiter.Window.{live}
use rate_limiting_reverse_pr.Limiter.Memory.Allow.{nobody}
use rate_limiting_reverse_pr.Limiter.Memory.Lifecycle.{new_memory_limiter}
use rate_limiting_reverse_pr.Limiter.Manager.{Backend, Manager, ManagerConfig, Readings, zero_time}
use rate_limiting_reverse_pr.Limiter.Manager.Histories.{
  Call, asks, changes, pings, policies_in_force, AreUnder, run_calls, run_calls_lem,
}
use rate_limiting_reverse_pr.Limiter.Manager.Lifecycle.{new_service, close_service}
use rate_limiting_reverse_pr.Limiter.Manager.Lifecycle.Ending.{IsEnded}
use rate_limiting_reverse_pr.Limiter.Redis.{
  SortedSets, RedisLimiter, Value, int64_value, Carried, returned, backend,
}
use rate_limiting_reverse_pr.Limiter.Redis.Instances.{new_redis_limiter, close_redis}
use rate_limiting_reverse_pr.Limiter.Redis.Serving.{backend-IsFaithful}
use rate_limiting_reverse_pr.Limiter.Redis.Closing.{close_leaves_client}

abbrev one_key : SortedSets
one_key = record {
  State = List ℤ;
  zremrangebyscore = λ k c s. live c s;
  zcard = λ k s. length s;
  zadd = λ k c n s. s ++ c ∷ [];
  pexpire = λ k ttl s. s;
  zrange_first = λ k s. head? s;
  zcount_above = λ k c s. length (live c s);
  lapse = λ k s. [];
}

abbrev carry : (List ℤ → List ℤ × ℤ × ℤ × ℤ) → List ℤ → List ℤ × Carried (List (Value Bool))
carry f s =
    let (s', a, u, t) = f s in (s', returned (int64_value a ∷ int64_value u ∷ int64_value t ∷ []))

abbrev primary : Backend
primary = backend one_key (λ b. pos 0) (λ v. "") carry

abbrev instance_one : RedisLimiter one_key
instance_one = new_redis_limiter one_key none (pos 1764154000000000000) "rl:" []

abbrev config : ManagerConfig
config = record {
  timeout = pos 200000000;
  failure_threshold = pos 2;
  cooldown = pos 5000000000;
  probe_interval = pos 2000000000;
  policy = record { limit = pos 10; window = pos 1000000000 };
}

abbrev readings : Readings
readings = record {
  at_try = pos 1764154001000000000;
  at_primary = pos 1764154001000000000;
  at_failure = pos 1764154001000000000;
  at_fallback = pos 1764154001000000000;
  ctx_ended = false;
}

abbrev manager : Manager primary
manager = record {
  config = config;
  store = some instance_one;
  fallback = (new_memory_limiter (pos 0)).memory;
  policy = config.policy;
  breaker = record {
    failures = pos 0;
    open_until = zero_time;
    last_err = "";
    redis_healthy = true;
    degraded = false;
  };
  redis_served = 0;
  fallback_served = 0;
}

abbrev history : List Call
history =
    asks nobody "a" readings
    ∷ changes (record { limit = pos 0; window = pos 1000000000 })
    ∷ pings (some "dial tcp")
    ∷ asks nobody "b" readings
    ∷ []

run_calls_lem_example :
    (m' : Manager primary) × (ds : List Decision) × (run_calls primary manager history
      ≡ some (m', ds))
    × AreUnder (policies_in_force config.policy history) ds
    × (m'.redis_served + m'.fallback_served ≡ 0 + 0 + length ds)
unfolding normalize
run_calls_lem_example =
    run_calls_lem primary manager history (backend-IsFaithful (λ b. pos 0) (λ v. "") one_key carry)
      refl (omega arith)

close_client : List ℤ → List ℤ × Option String
close_client s = ([], some "redis: client is closed")

close_leaves_client_example :
    let close = close_redis one_key close_client in
    let (s, err) =
      close_service primary close
        (some "dial tcp" ∷ none ∷ [])
        (pos 1764154002000000000 ∷ [])
        (new_service primary (some instance_one) (new_memory_limiter (pos 30000000000)) config) in
    IsEnded primary s
    × (err ≡ none)
    × (s.manager.store ≡ some instance_one)
    × (close_service primary close [] [] s ≡ (s, none))
close_leaves_client_example =
    close_leaves_client one_key (λ b. pos 0) (λ v. "") carry close_client none
      (pos 1764154000000000000) "rl:" [] (new_memory_limiter (pos 30000000000)) config
      (some "dial tcp" ∷ none ∷ []) [] (pos 1764154002000000000 ∷ []) []
