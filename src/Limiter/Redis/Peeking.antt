-- ===== src/Limiter/Redis/Peeking.antt =====
-- `Peek` of internal/limiter/redis.go against the log.
use Prim.Native.String.{◌++◌ as join}
use rate_limiting_reverse_pr.Prelude.{ℕ, ◌*◌, ◌≤◌, ◌≡◌, ap, String, none, List, arith, length}
use rate_limiting_reverse_pr.Prelude.Int.{ℤ, pos, ◌-ℤ◌, ◌≤ℤ◌, -ℤ_parts, div_floor, div_trunc}
use rate_limiting_reverse_pr.Limiter.Policy.{Policy, normalize, normalize-IsEnforceable}
use rate_limiting_reverse_pr.Limiter.Window.{live}
use rate_limiting_reverse_pr.Limiter.Memory.Ordered.{live-live}
use rate_limiting_reverse_pr.Limiter.Redis.{
  SortedSets, RedisLimiter, returned, peek, unix_milli, window_in_ms,
}
use rate_limiting_reverse_pr.Limiter.Redis.Server.{SortedSetLaws}
use rate_limiting_reverse_pr.Limiter.Redis.Script.{Mirrors}
use rate_limiting_reverse_pr.Limiter.Redis.Replies.{in_ms}

-- With a window of whole milliseconds `Peek` and the script cut off at the same score.
cutoffs_agree :
    (p : Policy) (n k : ℕ)
    → p.window ≡ pos (k * 1000000)
    → pos 1000000 ≤ℤ p.window
    → k * 1000000 ≤ n
    → unix_milli (pos n -ℤ p.window) ≡ unix_milli (pos n) -ℤ window_in_ms p
unfolding unix_milli window_in_ms div_floor div_trunc ◌-ℤ◌
cutoffs_agree p n k e low le =
    let one : pos 1000000 ≤ℤ pos (k * 1000000) = rw e at low in rw e (ground arith)

module _ (server : SortedSets) (laws : SortedSetLaws server) where
  -- Under a window of whole milliseconds, at an instant at least one window after 1970 and not behind
  -- the last request, a `Peek` that Redis answers reports exactly the admissions that still count.
  pub peek_lem :
      (key : String) (q : Policy) (n k : ℕ) (before : ℤ) (r : RedisLimiter server) (log : List ℤ)
      → (normalize q).window ≡ pos (k * 1000000)
      → k * 1000000 ≤ n
      → before ≤ℤ unix_milli (pos n)
      → Mirrors (in_ms (normalize q)) before (laws.scores (join r.prefix key) r.state) log
      → peek server none key q (pos n) r
        ≡ returned (length (live (unix_milli (pos n) -ℤ window_in_ms (normalize q)) log))
  unfolding peek
  peek_lem key q n k before r log whole le after t =
      let p = normalize q in
      let cut = cutoffs_agree p n k whole (normalize-IsEnforceable q).window_low le in
      rw
        (
          cut,
          laws.zcount_above_scores (join r.prefix key) (unix_milli (pos n) -ℤ window_in_ms p)
              r.state,
          t.same,
        )
        (ap (λ l. returned (length l))
          (live-live t.cutoff (unix_milli (pos n) -ℤ window_in_ms p) log (
            omega (
              arith,
              t.behind,
              -ℤ_parts before (window_in_ms p),
              -ℤ_parts (unix_milli (pos n)) (window_in_ms p),
            ))))
