-- ===== src/Limiter/Memory/Tests.antt =====
-- Concrete runs of the in-memory limiter: two requests a second, and the clock in 2023.
use mathlib.Core.Option
use rate_limiting_reverse_pr.Prelude.{
  ◌≡◌, refl, Bool, true, false, String, some, List, [], ◌∷◌, arith,
}
use rate_limiting_reverse_pr.Prelude.Int.{ℤ, pos, ◌+ℤ◌, ◌-ℤ◌, ◌*ℤ◌, i64}
use rate_limiting_reverse_pr.Prelude.Dict.{lookup, store}
use rate_limiting_reverse_pr.Limiter.Policy.{Policy, IsEnforceable, normalize}
use rate_limiting_reverse_pr.Limiter.Window.{IsWithin}
use rate_limiting_reverse_pr.Limiter.Memory.{
  MemEntry, Memory, new_memory, prune, expired_count, allow, cleanup,
}
use rate_limiting_reverse_pr.Limiter.Memory.Entry.{outcome_of}
use rate_limiting_reverse_pr.Limiter.Memory.Tracks.{Tracks}
use rate_limiting_reverse_pr.Limiter.Memory.Trace.{request, janitor, History, run, admissions}
use rate_limiting_reverse_pr.Limiter.Memory.Limits.{run_limits}
use rate_limiting_reverse_pr.Limiter.Memory.Lowered.{reset_too_early}

abbrev two_a_second : Policy
two_a_second = record { limit = pos 2; window = pos 1000000000 }

two_a_second-IsEnforceable : IsEnforceable two_a_second
two_a_second-IsEnforceable = omega arith

abbrev burst : History
burst =
    (pos 1700000000000000000, request "a")
    ∷ (pos 1700000000100000000, request "a")
    ∷ (pos 1700000000200000000, request "b")
    ∷ (pos 1700000000300000000, request "a")
    ∷ (pos 1700000000900000000, janitor)
    ∷ (pos 1700000001000000000, request "a")
    ∷ (pos 1700000001050000000, request "a")
    ∷ []

-- The third request of `a` is refused, and a slot is free exactly one window after the first.
burst_answers :
    Option.map (λ r. r.1) (run two_a_second new_memory burst)
    ≡ some (true ∷ true ∷ true ∷ false ∷ true ∷ false ∷ [])
unfolding run new_memory allow cleanup prune expired_count normalize i64 ◌+ℤ◌ ◌-ℤ◌ ◌*ℤ◌ lookup store
burst_answers = refl

run_limits_example :
    (m : Memory) × (answers : List Bool) × (run two_a_second new_memory burst ≡ some (m, answers))
    × ((k : String) → IsWithin (normalize two_a_second) (admissions k burst answers))
run_limits_example = run_limits two_a_second (pos 0) burst (omega arith)

abbrev used_once : MemEntry
used_once = record {
  hits = pos 1700000000000000000 ∷ [];
  window = pos 1000000000;
  dead = false;
  last_seen = pos 1700000000000000000;
}

used_once-Tracks :
    Tracks two_a_second (pos 1700000000000000000) (some used_once) (pos 1700000000000000000 ∷ [])
unfolding ◌-ℤ◌
used_once-Tracks = record {
  ascending = omega arith;
  up_to = omega arith;
  cutoff = pos 0;
  behind = omega arith;
  hits = refl;
  entry = (refl, refl, omega arith, omega arith);
}

-- Three hits under a limit that was lowered to two.
abbrev overfull : MemEntry
overfull = record used_once {
  hits = pos 1700000000000000000 ∷ pos 1700000000100000000 ∷ pos 1700000000200000000 ∷ [];
}

abbrev overfull_at : ℤ
overfull_at = pos 1700000000500000000

reset_too_early_example :
    let (e', d) = outcome_of overfull two_a_second overfull_at in
    (d.allowed ≡ false)
    × (d.reset_at ≡ pos 1700000000000000000 +ℤ two_a_second.window)
    × ((outcome_of e' two_a_second d.reset_at).1.allowed ≡ false)
unfolding prune expired_count i64 ◌-ℤ◌ ◌+ℤ◌
reset_too_early_example =
    reset_too_early two_a_second two_a_second-IsEnforceable overfull overfull_at
      (pos 1700000000000000000) (pos 1700000000100000000 ∷ pos 1700000000200000000 ∷ []) refl
      (omega arith) (omega arith) (omega arith) (omega arith) (omega arith)
