-- ===== src/Limiter/Memory/Lifecycle.antt =====
-- The life of an in-memory limiter (`NewMemoryLimiter`, `janitor` and `Close` of
-- internal/limiter/memory.go): its janitor is a goroutine that waits for a tick or for the end, and
-- what happens in the process comes in any order. `Close` is the closing of the channel `stop`, and
-- returns once the janitor has seen that.
mod Tests
pub mod Refinement
use rate_limiting_reverse_pr.Prelude.{
  ◌≡◌, refl, sym, ap, ◌∙◌, Bool, true, false, not, ◌&&◌, Option, none, some, String, List, [], ◌∷◌,
  ◌++◌, arith, if◌then◌else◌, Bool-cases, inl, inr,
}
use rate_limiting_reverse_pr.Prelude.Int.{ℤ, pos, ◌≤ℤ◌, ltb_ℤ, IsClock}
use rate_limiting_reverse_pr.Limiter.Policy.{Policy, normalize, backend_memory}
use rate_limiting_reverse_pr.Limiter.Memory.{Memory, new_memory, allow, peek, cleanup, reset, ◌>>=◌}
use rate_limiting_reverse_pr.Limiter.Memory.Allow.{nobody}
use rate_limiting_reverse_pr.Limiter.Memory.Limits.{no_logs}
use rate_limiting_reverse_pr.Limiter.Memory.Trace.{Logs, note}
use rate_limiting_reverse_pr.Limiter.Memory.Sessions.{
  Use, asks, peeks, cleans, clears, Reading, answer, usage, Session, serve, spec_serve, HasWidth,
  IsSession, serve_refines_window,
}

-- `closed` is whether the channel `stop` is closed, `waits` whether the janitor is in its loop.
pub record MemoryLimiter : Type 0 where
  pub memory : Memory
  pub interval : ℤ
  pub closed : Bool
  pub waits : Bool

unfoldable pub new_memory_limiter : ℤ → MemoryLimiter
new_memory_limiter interval = record {
  memory = new_memory;
  interval = interval;
  closed = false;
  waits = ltb_ℤ (pos 0) interval;
}

-- `Name`
abbrev pub name_of_memory : String
name_of_memory = backend_memory

-- A round of the janitor's loop that takes the tick.
unfoldable pub tick : ℤ → MemoryLimiter → MemoryLimiter
tick now l = if l.waits then record l { memory = cleanup now l.memory } else l

-- A round of the loop that takes `<-m.stop`, which is ready once the channel is closed.
unfoldable pub see_stop : MemoryLimiter → MemoryLimiter
see_stop l = if l.closed then record l { waits = false } else l

-- `Close` up to the wait, which is over once the janitor is not in its loop.
unfoldable pub close_stop : MemoryLimiter → MemoryLimiter
close_stop l = record l { closed = true }

pub data Happening : Type 0 where
  uses : Use → Happening
  ticks : Happening
  closes : Happening
  sees_stop : Happening

abbrev pub Life : Type 0
Life = List (ℤ × Happening)

-- What the limiter is used for in its life.
unfoldable pub uses_of : Life → Session
uses_of [] = []
uses_of ((now, uses u) ∷ es) = (now, u) ∷ uses_of es
uses_of ((now, ticks) ∷ es) = uses_of es
uses_of ((now, closes) ∷ es) = uses_of es
uses_of ((now, sees_stop) ∷ es) = uses_of es

-- The limiter over its life: the final state and what its uses brought back, or a panic.
unfoldable pub live_through : MemoryLimiter → Life → Option (MemoryLimiter × List Reading)
unfolding tick see_stop close_stop
live_through l [] = some (l, [])
live_through l ((now, uses u) ∷ es) = do
  (m, readings) ← serve l.memory ((now, u) ∷ [])
  (l', more) ← live_through (record l { memory = m }) es
  some (l', readings ++ more)
live_through l ((now, ticks) ∷ es) = live_through (tick now l) es
live_through l ((now, closes) ∷ es) = live_through (close_stop l) es
live_through l ((now, sees_stop) ∷ es) = live_through (see_stop l) es

-- The clock never goes back and stays between 1970 and 2116, and all windows have one width.
abbrev pub HasWidths : ℤ → Happening → Type 0
HasWidths w (uses u) = HasWidth w u
HasWidths w ticks = Unit {0}
HasWidths w closes = Unit {0}
HasWidths w sees_stop = Unit {0}

abbrev pub IsLife : ℤ → ℤ → Life → Type 0
IsLife w now [] = Unit {0}
IsLife w now ((later, e) ∷ es) = (now ≤ℤ later) × IsClock later × HasWidths w e × IsLife w later es
