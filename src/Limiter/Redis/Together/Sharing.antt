-- ===== src/Limiter/Redis/Together/Sharing.antt =====
-- What the clients of several instances are told, and what they are let through (`NewRedisLimiter` and
-- `Allow` of internal/limiter/redis.go).
use Prim.Native.String.{◌++◌ as join}
use rate_limiting_reverse_pr.Prelude.{
  ℕ, ◌^◌, ◌<◌, ◌≡◌, String, Option, List, [], ◌∷◌, arith, length, All,
}
use rate_limiting_reverse_pr.Prelude.Int.{ℤ, pos, ◌<ℤ◌}
use rate_limiting_reverse_pr.Limiter.Policy.{Policy, normalize, normalize-IsEnforceable}
use rate_limiting_reverse_pr.Limiter.Window.{IsWithin}
use rate_limiting_reverse_pr.Limiter.Memory.Trace.{admissions}
use rate_limiting_reverse_pr.Limiter.Memory.Limits.{no_logs}
use rate_limiting_reverse_pr.Limiter.Redis.{SortedSets, Value, int64_value, Carried, returned}
use rate_limiting_reverse_pr.Limiter.Redis.Server.{SortedSetLaws}
use rate_limiting_reverse_pr.Limiter.Redis.Fleet.{IsEmpty, start-MirrorsAll}
use rate_limiting_reverse_pr.Limiter.Redis.Instances.{
  AreNamed, bytes_of, new_instance_id, new_instance_id-has_dash,
}
use rate_limiting_reverse_pr.Limiter.Redis.Replies.{in_ms}
use rate_limiting_reverse_pr.Limiter.Redis.Together.{
  Step, IsOrderly, AreShared, requests, allowed_of, run_together,
}
use rate_limiting_reverse_pr.Limiter.Redis.Together.Limits.{AreShared-IsWithin}
use rate_limiting_reverse_pr.Limiter.Redis.Together.Decisions.{run_together-AreShared}

module _ (server : SortedSets) {Float : Type 0} (int_of_float : Float → ℤ)
    (format : List (Value Float) → String)
    (carry : (server.State → server.State × ℤ × ℤ × ℤ)
      → server.State
      → server.State × Carried (List (Value Float)))
    (prefix : String) (q : Policy) (laws : SortedSetLaws server)
    (delivers : (f : server.State → server.State × ℤ × ℤ × ℤ) (s : server.State)
      → let (s', a, u, t) = f s in
        carry f s ≡ (s', returned (int64_value a ∷ int64_value u ∷ int64_value t ∷ []))) where
  -- Instances that NewRedisLimiter starts between 1970 and 2262, whose random bytes or, where
  -- crypto/rand fails, clocks give no two of them one name, share a server that keeps the laws of
  -- sorted sets and starts empty, through a client library that runs each script once and hands
  -- over its three integers.
  -- Over every history of fewer than 2 ^ 64 requests to any of them for any clients and of keys that
  -- lapse when a window has gone by since their last admission, under one policy, whatever it is, and
  -- with clocks that stay in that time and in milliseconds do not go back: every request is answered
  -- with a decision, which is accurate for one log of its client that all the instances keep
  -- together in milliseconds, and no window of the normalised policy in milliseconds, wherever it
  -- begins, holds more requests of one client that were let through than the limit.
  pub instances_share :
      (count : ℕ) (random : ℕ → Option (List ℕ)) (start : ℕ → ℕ) (before : ℤ) (s : server.State)
      (es : List Step)
      → ((i : ℕ) → All (λ b. b < 256) (bytes_of (random i)))
      → ((i : ℕ) → pos (start i) <ℤ pos 9223372036854775808)
      → AreNamed count (λ i. new_instance_id (random i) (pos (start i)))
      → IsEmpty server laws s
      → IsOrderly count (in_ms (normalize q)) prefix before no_logs es
      → length es < 2 ^ 64
      → let replies =
          (run_together server int_of_float format carry prefix
            (λ i. new_instance_id (random i) (pos (start i)))
            q
            (λ i. 0)
            s
            es).1 in
        AreShared (normalize q) prefix no_logs es replies
        × ((key : String)
            → IsWithin
                (in_ms (normalize q))
                (admissions (join prefix key) (requests prefix es) (allowed_of replies)))
  instances_share count random start before s es bytes early named empty orderly few =
      let ids : ℕ → String = λ i. new_instance_id (random i) (pos (start i)) in
      let shared =
        run_together-AreShared server int_of_float format carry prefix q laws delivers count ids
          named (λ i here. new_instance_id-has_dash (random i) (start i) (bytes i) (early i))
          (λ i. 0) before s no_logs es
          (record {
            sets = (start-MirrorsAll server laws (in_ms (normalize q)) before s empty).sets;
            made = λ k m h. cc (empty.1 k m, h);
          })
          orderly (λ j. omega (arith, few)) in
      (
        shared,
        λ key.
            AreShared-IsWithin (normalize q) prefix es _ (normalize-IsEnforceable q) shared
              (join prefix key),
      )
