-- ===== src/Limiter/Redis/Tests.antt =====
-- Concrete runs of the shared limiter on the server in memory.
use rate_limiting_reverse_pr.Prelude.{
  ◌≡◌, refl, Bool, true, false, none, List, [], ◌∷◌, arith, if◌then◌else◌, length,
}
use rate_limiting_reverse_pr.Prelude.Int.{ℤ, pos, ◌+ℤ◌, ◌-ℤ◌, div_floor, div_trunc}
use rate_limiting_reverse_pr.Prelude.Dict.{same_key}
use rate_limiting_reverse_pr.Limiter.Policy.{Policy, Decision, normalize}
use rate_limiting_reverse_pr.Limiter.Window.{live, admits, record_request}
use rate_limiting_reverse_pr.Limiter.Memory.Trace.{note, spec_run}
use rate_limiting_reverse_pr.Limiter.Memory.Limits.{no_logs}
use rate_limiting_reverse_pr.Limiter.Manager.{Reply, answered}
use rate_limiting_reverse_pr.Limiter.Redis.{
  RedisLimiter, Value, int64_value, Carried, returned, sliding_window, allow, unix_milli,
  window_in_ms, peek,
}
use rate_limiting_reverse_pr.Limiter.Redis.Script.{Mirrors}
use rate_limiting_reverse_pr.Limiter.Redis.Fleet.{
  FleetHistory, request, expiry, contract, run_fleet, IsFleetChronicle, fleet_refines_window,
}
use rate_limiting_reverse_pr.Limiter.Redis.Peeking.{peek_lem}
use rate_limiting_reverse_pr.Limiter.Redis.Replies.{IsShared, in_ms, allow-IsShared}
use rate_limiting_reverse_pr.Limiter.Redis.InMemory.{in_memory, in_memory_laws, Store}

-- Two requests a second, from three instances of the proxy.
abbrev two_a_second : Policy
two_a_second = record { limit = pos 2; window = pos 1000 }

abbrev burst : FleetHistory
burst =
    (pos 1700000000000, request "rl:a" "i1-1")
    ∷ (pos 1700000000100, request "rl:a" "i2-1")
    ∷ (pos 1700000000100, request "rl:b" "i1-2")
    ∷ (pos 1700000000300, request "rl:a" "i3-1")
    ∷ (pos 1700000001000, request "rl:a" "i3-2")
    ∷ (pos 1700000001500, expiry "rl:b")
    ∷ (pos 1700000001600, request "rl:b" "i1-3")
    ∷ []

abbrev pub nothing : Store
nothing k = []

burst_answers :
    (run_fleet in_memory two_a_second nothing burst).1
    ≡ true ∷ true ∷ true ∷ false ∷ true ∷ true ∷ []
unfolding run_fleet sliding_window ◌+ℤ◌ ◌-ℤ◌
burst_answers = refl

burst-IsFleetChronicle : IsFleetChronicle two_a_second (pos 0) (λ m. false) no_logs burst
unfolding note record_request admits ◌+ℤ◌ ◌-ℤ◌
burst-IsFleetChronicle = ground arith

fleet_refines_window_example :
    (run_fleet in_memory two_a_second nothing burst).1
    ≡ (spec_run two_a_second no_logs (contract burst)).1
fleet_refines_window_example =
    fleet_refines_window in_memory in_memory_laws two_a_second (pos 0) nothing burst (omega arith)
      (λ k. refl, λ k m. refl) burst-IsFleetChronicle

abbrev pub direct : (Store → Store × ℤ × ℤ × ℤ) → Store → Store × Carried (List (Value Bool))
direct f s =
    let (s', a, u, t) = f s in (s', returned (int64_value a ∷ int64_value u ∷ int64_value t ∷ []))

abbrev instance_one : RedisLimiter in_memory
instance_one = record {
  prefix = "rl:";
  instance_id = "i1";
  seq = 0;
  owned = false;
  state = nothing;
}

abbrev asked : RedisLimiter in_memory × Reply
asked =
    allow in_memory {Float = Bool} (λ b. pos 0) (λ v. "") direct "a"
      (record { limit = pos 2; window = pos 1000000000 }) (pos 1700000000000000000) instance_one

allow-IsShared_example :
    (d : Decision) × (asked.1 ≡ answered d)
    × IsShared
        (normalize (record { limit = pos 2; window = pos 1000000000 }))
        (pos 1700000000000000000)
        []
        d
    × Mirrors
        (in_ms (normalize (record { limit = pos 2; window = pos 1000000000 })))
        (unix_milli (pos 1700000000000000000))
        (in_memory_laws.scores "rl:a" asked.0.state)
        (record_request
          (in_ms (normalize (record { limit = pos 2; window = pos 1000000000 })))
          (unix_milli (pos 1700000000000000000))
          [])
allow-IsShared_example =
    allow-IsShared in_memory in_memory_laws {Float = Bool} (λ b. pos 0) (λ v. "") direct
      (λ f s. refl) "a" (record { limit = pos 2; window = pos 1000000000 })
      (pos 1700000000000000000) (unix_milli (pos 1700000000000000000)) instance_one []
      (record {
        ascending = tt;
        up_to = tt;
        cutoff =
            unix_milli (pos 1700000000000000000)
            -ℤ (in_ms (normalize (record { limit = pos 2; window = pos 1000000000 }))).window;
        behind = omega arith;
        same = refl;
      })
      (omega arith) refl

abbrev one_hit : RedisLimiter in_memory
one_hit = record instance_one {
  state = λ k. if same_key "rl:a" k then (pos 1700000000000, "i1-x-x") ∷ [] else [];
}

peek_lem_example :
    peek in_memory none "a"
      (record { limit = pos 2; window = pos 1000000000 })
      (pos 1700000000500000000)
      one_hit
    ≡ returned (
        length (
          live
            (unix_milli (pos 1700000000500000000)
              -ℤ window_in_ms (normalize (record { limit = pos 2; window = pos 1000000000 })))
            (pos 1700000000000 ∷ [])))
unfolding normalize unix_milli window_in_ms div_floor div_trunc ◌-ℤ◌
peek_lem_example =
    peek_lem in_memory in_memory_laws "a" (record { limit = pos 2; window = pos 1000000000 })
      1700000000500000000 1000 (pos 1700000000000) one_hit (pos 1700000000000 ∷ []) refl
      (omega arith) (omega arith)
      (record {
        ascending = (tt, tt);
        up_to = (omega arith, tt);
        cutoff = pos 0;
        behind = omega arith;
        same = refl;
      })
