-- ===== src/Limiter/Redis/Serving.antt =====
-- The Redis limiter (internal/limiter/redis.go) as the primary limiter of a manager.
mod Tests
use Prim.Native.String.{◌++◌ as join}
use rate_limiting_reverse_pr.Prelude.{
  ℕ, zero, suc, ◌+◌, ◌<◌, ◌≡◌, refl, inl, inr, Bool-cases, Option-cases, Bool, true, false, String,
  Option, none, some, List, [], ◌∷◌, arith,
}
use rate_limiting_reverse_pr.Prelude.Int.{ℤ, pos, eqb_ℤ}
use rate_limiting_reverse_pr.Limiter.Policy.{Policy, Decision, normalize, deny, backend_redis}
use rate_limiting_reverse_pr.Limiter.Manager.{Reply, answered}
use rate_limiting_reverse_pr.Limiter.Manager.Histories.{IsFaithful}
use rate_limiting_reverse_pr.Limiter.Redis.{
  SortedSets, Value, Carried, returned, failed, Carried-cases, RedisLimiter, backend, allow,
  settle_call, read_reply, read_three, wrapped, decide,
}

-- Whatever the three numbers are, the decision is under the policy.
decide_under :
    (p : Policy) (now allowed used reset : ℤ)
    → ((decide p now allowed used reset).limit ≡ p.limit)
      × ((decide p now allowed used reset).window ≡ p.window)
unfolding decide deny
decide_under p now allowed used reset = ground arith

module _ {Float : Type 0} (int_of_float : Float → ℤ) (format : List (Value Float) → String) where
  read_reply_under :
      (p : Policy) (now : ℤ) (raw : List (Value Float)) (d : Decision)
      → read_reply int_of_float format p now raw ≡ answered d
      → (d.limit ≡ p.limit) × (d.window ≡ p.window)
  unfolding read_reply wrapped
  read_reply_under p now [] d h = ground arith
  read_reply_under p now (a ∷ []) d h = ground arith
  read_reply_under p now (a ∷ b ∷ []) d h = ground arith
  read_reply_under p now (a ∷ b ∷ c ∷ []) d h =
      elim (Option-cases (read_three int_of_float format a b c)) [
        | inl e ↦ ground arith
        | inr ((allowed, used, reset), e) ↦ ground (arith, decide_under p now allowed used reset)
      ]
  read_reply_under p now (a ∷ b ∷ c ∷ v ∷ raw) d h = ground arith

  settle_call_under :
      (p : Policy) (now : ℤ) (r : Carried (List (Value Float))) (d : Decision)
      → settle_call int_of_float format p now r ≡ answered d
      → (d.limit ≡ p.limit) × (d.window ≡ p.window)
  unfolding settle_call wrapped
  settle_call_under p now (returned raw) d h = read_reply_under p now raw d h
  settle_call_under p now (failed err) d h = ground arith

  -- Whatever the client library hands over, a decision is under the normalised policy.
  pub backend-IsFaithful :
      (server : SortedSets)
      (carry : (server.State → server.State × ℤ × ℤ × ℤ)
        → server.State
        → server.State × Carried (List (Value Float)))
      → IsFaithful (backend server int_of_float format carry)
  unfolding allow
  backend-IsFaithful server carry key p now s d h = settle_call_under (normalize p) now _ d h
