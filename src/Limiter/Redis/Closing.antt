-- ===== src/Limiter/Redis/Closing.antt =====
-- `Close` of a manager (internal/limiter/manager.go) whose primary limiter was made by
-- `NewRedisLimiter` (internal/limiter/redis.go).
use rate_limiting_reverse_pr.Prelude.{ℕ, ◌≡◌, refl, false, String, Option, none, some, List, arith}
use rate_limiting_reverse_pr.Prelude.Int.{ℤ}
use rate_limiting_reverse_pr.Limiter.Memory.Lifecycle.{MemoryLimiter}
use rate_limiting_reverse_pr.Limiter.Manager.{ManagerConfig, new_manager}
use rate_limiting_reverse_pr.Limiter.Manager.Lifecycle.{new_service, close_service}
use rate_limiting_reverse_pr.Limiter.Manager.Lifecycle.Ending.{IsEnded, close_quietly}
use rate_limiting_reverse_pr.Limiter.Redis.{SortedSets, Value, Carried, RedisLimiter, backend}
use rate_limiting_reverse_pr.Limiter.Redis.Instances.{new_redis_limiter, close_redis}

module _ (server : SortedSets) {Float : Type 0} (int_of_float : Float → ℤ)
    (format : List (Value Float) → String)
    (carry : (server.State → server.State × ℤ × ℤ × ℤ)
      → server.State
      → server.State × Carried (List (Value Float)))
    (close_client : server.State → server.State × Option String) where
  -- A limiter that does not own its client leaves it alone.
  not_owned :
      (r : RedisLimiter server) → r.owned ≡ false → close_redis server close_client r ≡ (r, none)
  unfolding close_redis
  not_owned r h = ground arith

  -- However many rounds its goroutines still take: Close of a manager whose primary limiter was made
  -- by NewRedisLimiter ends both goroutines and returns nil, but leaves the client of Redis open, and
  -- its server as it was. A second Close changes nothing and returns nil again.
  pub close_leaves_client :
      (random : Option (List ℕ)) (now : ℤ) (prefix : String) (state : server.State)
      (l : MemoryLimiter) (cfg : ManagerConfig) (late_pings more_pings : List (Option String))
      (late_ticks more_ticks : List ℤ)
      → let b = backend server int_of_float format carry in
        let r = new_redis_limiter server random now prefix state in
        let close = close_redis server close_client in
        let (s, err) = close_service b close late_pings late_ticks (new_service b (some r) l cfg) in
        IsEnded b s
        × (err ≡ none)
        × (s.manager.store ≡ some r)
        × (close_service b close more_pings more_ticks s ≡ (s, none))
  unfolding new_service new_manager new_redis_limiter
  close_leaves_client random now prefix state l cfg late_pings more_pings late_ticks more_ticks =
      let b = backend server int_of_float format carry in
      let r = new_redis_limiter server random now prefix state in
      close_quietly b (close_redis server close_client) late_pings more_pings late_ticks more_ticks
        r (new_service b (some r) l cfg) refl (not_owned r refl)
