-- ===== src/Limiter/Redis/Together/Limits.antt =====
-- Replies that are accurate for one log of each key keep to the limit (internal/limiter/redis.go).
use Prim.Native.String.{◌++◌ as join}
use rate_limiting_reverse_pr.Prelude.{◌≡◌, refl, subst, String, List, [], ◌∷◌, arith}
use rate_limiting_reverse_pr.Prelude.Int.{pos}
use rate_limiting_reverse_pr.Limiter.Policy.{Policy, IsEnforceable}
use rate_limiting_reverse_pr.Limiter.Window.{IsWithin}
use rate_limiting_reverse_pr.Limiter.Memory.Trace.{Logs, note, spec_run, admissions}
use rate_limiting_reverse_pr.Limiter.Memory.Limits.{no_logs, spec_run-admissions, spec_run-IsWithin}
use rate_limiting_reverse_pr.Limiter.Manager.{Reply}
use rate_limiting_reverse_pr.Limiter.Redis.{unix_milli}
use rate_limiting_reverse_pr.Limiter.Redis.Replies.{in_ms}
use rate_limiting_reverse_pr.Limiter.Redis.Together.{
  Step, asks, lapses, AreShared, requests, allowed_of,
}

allowed_of-spec_run :
    (p : Policy) (prefix : String) (logs : Logs) (es : List Step) (replies : List Reply)
    → AreShared p prefix logs es replies
    → allowed_of replies ≡ (spec_run (in_ms p) logs (requests prefix es)).1
unfolding allowed_of spec_run requests
allowed_of-spec_run p prefix logs [] replies none_ = rw none_ refl
allowed_of-spec_run p prefix logs (asks i key now ∷ es) [] none_ = absurd none_
allowed_of-spec_run p prefix logs (asks i key now ∷ es) (reply ∷ replies) ((d, e, shared), rest) =
    rw e (λ j.
      shared.allowed j
      ∷ allowed_of-spec_run p prefix (note (in_ms p) (join prefix key) (unix_milli (pos now)) logs)
          es replies rest j)
allowed_of-spec_run p prefix logs (lapses key now ∷ es) replies rest =
    allowed_of-spec_run p prefix logs es replies rest

pub AreShared-IsWithin :
    (p : Policy) (prefix : String) (es : List Step) (replies : List Reply)
    → IsEnforceable p
    → AreShared p prefix no_logs es replies
    → (k : String) → IsWithin (in_ms p) (admissions k (requests prefix es) (allowed_of replies))
AreShared-IsWithin p prefix es replies enforceable shared k =
    rw (allowed_of-spec_run p prefix no_logs es replies shared) (
      subst (IsWithin (in_ms p)) (spec_run-admissions (in_ms p) no_logs (requests prefix es) k) (
        spec_run-IsWithin (in_ms p) no_logs (requests prefix es)
          (λ j a. ground (arith, enforceable.limit_low)) k))
