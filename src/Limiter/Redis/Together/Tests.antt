-- ===== src/Limiter/Redis/Together/Tests.antt =====
-- Two instances that share a server in memory: concrete requests.
use Prim.Native.String.{◌++◌ as join}
use rate_limiting_reverse_pr.Prelude.{◌≡◌, refl, Bool, true, false, String, List, [], ◌∷◌, arith}
use rate_limiting_reverse_pr.Prelude.Int.{pos, i64, ◌+ℤ◌, ◌-ℤ◌, div_floor, div_trunc}
use rate_limiting_reverse_pr.Limiter.Redis.Instances.{new_instance_id}
use rate_limiting_reverse_pr.Limiter.Policy.{Policy, normalize}
use rate_limiting_reverse_pr.Limiter.Window.{IsWithin, admits, record_request}
use rate_limiting_reverse_pr.Limiter.Memory.Trace.{note, admissions}
use rate_limiting_reverse_pr.Limiter.Memory.Limits.{no_logs}
use rate_limiting_reverse_pr.Limiter.Manager.{Reply}
use rate_limiting_reverse_pr.Limiter.Redis.{unix_milli, window_in_ms}
use rate_limiting_reverse_pr.Limiter.Redis.Replies.{in_ms}
use rate_limiting_reverse_pr.Limiter.Redis.Instances.Tests.{
  random, started, names, bytes, names-AreNamed,
}
use rate_limiting_reverse_pr.Limiter.Redis.InMemory.{in_memory, in_memory_laws}
use rate_limiting_reverse_pr.Limiter.Redis.Tests.{nothing, direct}
use rate_limiting_reverse_pr.Limiter.Redis.Together.{
  Step, asks, lapses, IsOrderly, AreShared, requests, allowed_of, run_together,
}
use rate_limiting_reverse_pr.Limiter.Redis.Together.Sharing.{instances_share}

-- Two requests a second for each client.
abbrev two_a_second : Policy
two_a_second = record { limit = pos 2; window = pos 1000000000 }

abbrev asked : List Step
asked =
    asks 0 "a" 1764154000000000001
    ∷ asks 1 "a" 1764154000000000001
    ∷ asks 0 "b" 1764154000100000000
    ∷ asks 1 "a" 1764154000200000000
    ∷ asks 0 "a" 1764154001000000000
    ∷ lapses "rl:b" 1764154001100000000
    ∷ []

abbrev replies : List Reply
replies =
    (run_together in_memory {Float = Bool} (λ b. pos 0) (λ v. "") direct "rl:" names two_a_second
      (λ i. 0) nothing asked).1

answers : allowed_of replies ≡ true ∷ true ∷ true ∷ false ∷ true ∷ []
unfolding run_together allowed_of normalize div_trunc ◌-ℤ◌ div_floor new_instance_id i64
answers = refl

asked-IsOrderly : IsOrderly 2 (in_ms (normalize two_a_second)) "rl:" (pos 0) no_logs asked
unfolding note record_request admits normalize unix_milli window_in_ms div_trunc div_floor ◌+ℤ◌ ◌-ℤ◌
asked-IsOrderly = ground arith

instances_share_example :
    AreShared (normalize two_a_second) "rl:" no_logs asked replies
    × ((key : String)
        → IsWithin
            (in_ms (normalize two_a_second))
            (admissions (join "rl:" key) (requests "rl:" asked) (allowed_of replies)))
instances_share_example =
    instances_share in_memory {Float = Bool} (λ b. pos 0) (λ v. "") direct "rl:" two_a_second
      in_memory_laws (λ f s. refl) 2 random started (pos 0) nothing asked bytes (λ i. omega arith)
      names-AreNamed (λ k. refl, λ k m. refl) asked-IsOrderly (omega arith)
