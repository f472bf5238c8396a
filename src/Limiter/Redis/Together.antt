-- ===== src/Limiter/Redis/Together.antt =====
-- Requests to several instances of the proxy in turn (`Allow` of internal/limiter/redis.go), from the
-- instant in nanoseconds and the name of the instance down to the sets of the Redis that they share.
pub mod Limits
pub mod Decisions
pub mod Sharing
mod Tests
use Prim.Native.String.{◌++◌ as join}
use rate_limiting_reverse_pr.Prelude.{
  ℕ, ◌+◌, ◌^◌, ◌≤◌, ◌<◌, ◌≡◌, refl, sym, ap, subst, inl, inr, Bool, false, true, false, ◌==◌,
  String, List, [], ◌∷◌, arith, if◌then◌else◌, length,
}
use rate_limiting_reverse_pr.Prelude.Int.{ℤ, pos, ◌-ℤ◌, ◌≤ℤ◌, ◌<ℤ◌}
use rate_limiting_reverse_pr.Prelude.Dict.{same_key→eq}
use rate_limiting_reverse_pr.Prelude.Radix.{has_dash}
use rate_limiting_reverse_pr.Limiter.Policy.{Policy, Decision, normalize, normalize-IsEnforceable}
use rate_limiting_reverse_pr.Limiter.Window.{IsUpTo}
use rate_limiting_reverse_pr.Limiter.Memory.Trace as Trace
use rate_limiting_reverse_pr.Limiter.Memory.Trace.{Logs, History, note, janitor}
use rate_limiting_reverse_pr.Limiter.Memory.Limits.{no_logs}
use rate_limiting_reverse_pr.Limiter.Manager.{Reply, answered, unavailable}
use rate_limiting_reverse_pr.Limiter.Redis.{
  SortedSets, Value, int64_value, Carried, returned, RedisLimiter, unix_milli, member, allow,
  sliding_window,
}
use rate_limiting_reverse_pr.Limiter.Redis.Server.{SortedSetLaws}
use rate_limiting_reverse_pr.Limiter.Redis.Script.{Mirrors, IsRun, sliding_window-IsRun}
use rate_limiting_reverse_pr.Limiter.Redis.Fleet.{note-Mirrors, lapse-Mirrors}
use rate_limiting_reverse_pr.Limiter.Redis.Members.{member_injective}
use rate_limiting_reverse_pr.Limiter.Redis.Instances.{AreNamed, bumped}
use rate_limiting_reverse_pr.Limiter.Redis.Replies.{
  IsShared, in_ms, window_in_ms-IsWindowMs, allow-IsShared,
}

-- An instance is asked about a client at an instant, or a key of Redis lapses.
pub data Step : Type 0 where
  asks : ℕ → String → ℕ → Step
  lapses : String → ℕ → Step

-- The requests go to the first `count` instances, before 2262; in milliseconds the clocks do not go
-- back; a key lapses only when a window has gone by since the last request that was admitted for it.
abbrev pub IsOrderly : ℕ → Policy → String → ℤ → Logs → List Step → Type 0
IsOrderly count p prefix before logs [] = Unit {0}
IsOrderly count p prefix before logs (asks i key now ∷ es) =
    (i < count)
    × (pos now <ℤ pos 9223372036854775808)
    × (before ≤ℤ unix_milli (pos now))
    × IsOrderly count p prefix (unix_milli (pos now))
        (note p (join prefix key) (unix_milli (pos now)) logs) es
IsOrderly count p prefix before logs (lapses key now ∷ es) =
    (before ≤ℤ unix_milli (pos now))
    × IsUpTo (unix_milli (pos now) -ℤ p.window) (logs key)
    × IsOrderly count p prefix (unix_milli (pos now)) logs es

-- Each request gets the decision of the contract for the log of its key, over all the instances.
abbrev pub AreShared : Policy → String → Logs → List Step → List Reply → Type 0
AreShared p prefix logs [] replies = replies ≡ []
AreShared p prefix logs (asks i key now ∷ es) [] = ⊥
AreShared p prefix logs (asks i key now ∷ es) (reply ∷ replies) =
    ((d : Decision) × (reply ≡ answered d) × IsShared p (pos now) (logs (join prefix key)) d)
    × AreShared p prefix (note (in_ms p) (join prefix key) (unix_milli (pos now)) logs) es replies
AreShared p prefix logs (lapses key now ∷ es) replies = AreShared p prefix logs es replies

-- What the contract sees of the requests, on the keys of Redis and in milliseconds.
unfoldable pub requests : String → List Step → History
unfolding unix_milli
requests prefix [] = []
requests prefix (asks i key now ∷ es) =
    (unix_milli (pos now), Trace.request (join prefix key)) ∷ requests prefix es
requests prefix (lapses key now ∷ es) = (unix_milli (pos now), janitor) ∷ requests prefix es

-- Which requests were let through.
unfoldable pub allowed_of : List Reply → List Bool
allowed_of [] = []
allowed_of (answered d ∷ replies) = d.allowed ∷ allowed_of replies
allowed_of (unavailable err ∷ replies) = false ∷ allowed_of replies

module _ (server : SortedSets) {Float : Type 0} (int_of_float : Float → ℤ)
    (format : List (Value Float) → String)
    (carry : (server.State → server.State × ℤ × ℤ × ℤ)
      → server.State
      → server.State × Carried (List (Value Float)))
    (prefix : String) (ids : ℕ → String) (q : Policy) where
  -- What an instance is when its client reaches a server in the state `s`.
  abbrev pub instance_at : (ℕ → ℕ) → ℕ → server.State → RedisLimiter server
  instance_at seqs i s = record {
    prefix = prefix;
    instance_id = ids i;
    seq = seqs i;
    owned = false;
    state = s;
  }

  abbrev pub ask : (ℕ → ℕ) → ℕ → String → ℕ → server.State → RedisLimiter server × Reply
  ask seqs i key now s =
      allow server int_of_float format carry key q (pos now) (instance_at seqs i s)

  -- The state of the server in the end, and what each request is answered.
  unfoldable pub run_together : (ℕ → ℕ) → server.State → List Step → server.State × List Reply
  unfolding allow
  run_together seqs s [] = (s, [])
  run_together seqs s (asks i key now ∷ es) =
      let (r, reply) = ask seqs i key now s in
      let (s', replies) = run_together (λ j. if i == j then r.seq else seqs j) r.state es in
      (s', reply ∷ replies)
  run_together seqs s (lapses key now ∷ es) = run_together seqs (server.lapse key s) es
