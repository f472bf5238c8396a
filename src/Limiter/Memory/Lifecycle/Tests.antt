-- ===== src/Limiter/Memory/Lifecycle/Tests.antt =====
-- A concrete life of an in-memory limiter.
use mathlib.Core.Option
use rate_limiting_reverse_pr.Prelude.{◌≡◌, refl, Bool, true, false, some, List, [], ◌∷◌, arith}
use rate_limiting_reverse_pr.Prelude.Int.{pos, ◌+ℤ◌, ◌-ℤ◌, ◌*ℤ◌, i64}
use rate_limiting_reverse_pr.Prelude.Dict.{lookup, store, delete}
use rate_limiting_reverse_pr.Limiter.Policy.{Policy, normalize}
use rate_limiting_reverse_pr.Limiter.Memory.{
  new_memory, prune, expired_count, allow, peek, cleanup, reset,
}
use rate_limiting_reverse_pr.Limiter.Memory.Limits.{no_logs}
use rate_limiting_reverse_pr.Limiter.Memory.Sessions.{
  asks, peeks, clears, Reading, answer, usage, serve, spec_serve,
}
use rate_limiting_reverse_pr.Limiter.Memory.Lifecycle.{
  MemoryLimiter, new_memory_limiter, tick, see_stop, close_stop, uses, ticks, closes, sees_stop,
  Life, uses_of, live_through,
}
use rate_limiting_reverse_pr.Limiter.Memory.Lifecycle.Refinement.{live_refines_window}

abbrev one_a_second : Policy
one_a_second = record { limit = pos 1; window = pos 1000000000 }

abbrev two_a_second : Policy
two_a_second = record { limit = pos 2; window = pos 1000000000 }

abbrev life : Life
life =
    (pos 1700000000000000000, uses (asks "a" one_a_second))
    ∷ (pos 1700000000100000000, uses (asks "a" one_a_second))
    ∷ (pos 1700000000200000000, uses (asks "a" two_a_second))
    ∷ (pos 1700000000500000000, ticks)
    ∷ (pos 1700000000600000000, closes)
    ∷ (pos 1700000000700000000, uses (peeks "a" two_a_second))
    ∷ (pos 1700000000800000000, sees_stop)
    ∷ (pos 1700000001100000000, uses (peeks "a" one_a_second))
    ∷ (pos 1700000001150000000, uses clears)
    ∷ (pos 1700000001160000000, closes)
    ∷ (pos 1700000001180000000, uses (asks "a" one_a_second))
    ∷ []

-- A higher limit admits at once what a lower one has just refused; a reset frees the window.
life_readings :
    Option.map {B = Bool × List Reading}
      (λ r. (r.0.waits, r.1))
      (live_through (new_memory_limiter (pos 30000000000)) life)
    ≡ some (
      false,
      answer true ∷ answer false ∷ answer true ∷ usage (pos 2) ∷ usage (pos 1) ∷ answer true ∷ [],
    )
unfolding live_through new_memory_limiter tick see_stop close_stop serve new_memory allow peek
    cleanup reset prune expired_count normalize i64 ◌+ℤ◌ ◌-ℤ◌ ◌*ℤ◌ lookup store delete
life_readings = refl

live_refines_window_example :
    (l : MemoryLimiter) × (live_through (new_memory_limiter (pos 30000000000)) life
      ≡ some (l, spec_serve no_logs (uses_of life)))
unfolding normalize
live_refines_window_example =
    live_refines_window (pos 30000000000) one_a_second (pos 0) life (ground arith)
