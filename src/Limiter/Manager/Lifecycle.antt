-- ===== src/Limiter/Manager/Lifecycle.antt =====
-- The life of a manager with its goroutines (`NewManager`, `probeLoop`, `Close` and the accessors of
-- internal/limiter/manager.go): the prober runs only with Redis, and the janitor of the in-memory
-- limiter only with an interval. `Close` closes the channel of a goroutine and waits for it; rounds
-- that a goroutine still takes after that, since a `select` chooses among what is ready, are
-- arguments.
pub mod Ending
use rate_limiting_reverse_pr.Prelude.{
  ℕ, ◌≡◌, refl, sym, ◌∙◌, Option-cases, inl, inr, Bool, true, false, ◌||◌, ◌&&◌, not, String,
  Option, none, some, List, [], ◌∷◌, arith, if◌then◌else◌,
}
use rate_limiting_reverse_pr.Prelude.Int.{ℤ, pos, ltb_ℤ}
use rate_limiting_reverse_pr.Prelude.Dict.{is_some}
use rate_limiting_reverse_pr.Limiter.Policy.{Policy}
use rate_limiting_reverse_pr.Limiter.Memory.{Memory, cleanup}
use rate_limiting_reverse_pr.Limiter.Memory.Lifecycle.{MemoryLimiter, tick, see_stop, close_stop}
use rate_limiting_reverse_pr.Limiter.Manager.{
  Backend, Manager, ManagerConfig, Breaker, probe, new_manager,
}

-- What the `select` of `probeLoop` receives: a tick, with the error of the ping that follows, if it
-- fails, or the end.
pub data Wake : Type 0 where
  ticked : Option String → Wake
  stopped : Wake

-- `probeLoop`, and whether it has returned.
unfoldable pub probe_loop : List Wake → Breaker → Breaker × Bool
unfolding probe
probe_loop [] b = (b, false)
probe_loop (ticked r ∷ ws) b = probe_loop ws (probe r b)
probe_loop (stopped ∷ ws) b = (b, true)

-- The rounds of the janitor's loop that take a tick.
unfoldable pub tick_all : List ℤ → MemoryLimiter → MemoryLimiter
unfolding tick
tick_all [] l = l
tick_all (now ∷ ticks) l = tick_all ticks (tick now l)

-- The rounds of a prober that sees the end after some more ticks.
unfoldable pub until_stopped : List (Option String) → List Wake
until_stopped [] = stopped ∷ []
until_stopped (r ∷ rs) = ticked r ∷ until_stopped rs

-- `Close` of the in-memory limiter. Its error is always nil.
unfoldable pub close_limiter : List ℤ → MemoryLimiter → MemoryLimiter × Option String
unfolding tick_all see_stop close_stop
close_limiter late l = (see_stop (tick_all late (close_stop l)), none)

module _ (primary : Backend) where
  open primary use {Store}

  -- A manager, whether its channel `stop` is closed, whether the prober is in its loop, and the
  -- in-memory limiter around the memory of the manager.
  pub record Service : Type 0 where
    pub manager : Manager primary
    pub closed : Bool
    pub probing : Bool
    pub interval : ℤ
    pub limiter_closed : Bool
    pub sweeping : Bool

  unfoldable pub new_service : Option Store → MemoryLimiter → ManagerConfig → Service
  unfolding new_manager
  new_service store l cfg = record {
    manager = new_manager primary store l.memory cfg;
    closed = false;
    probing = is_some store;
    interval = l.interval;
    limiter_closed = l.closed;
    sweeping = l.waits;
  }

  -- `Degraded`, `RedisEnabled`, `Redis`, `Memory` and `Policy`
  unfoldable pub is_degraded : Service → Bool
  is_degraded s = s.manager.breaker.degraded

  unfoldable pub redis_enabled : Service → Bool
  redis_enabled s = is_some s.manager.store

  unfoldable pub redis_of : Service → Option Store
  redis_of s = s.manager.store

  unfoldable pub limiter_of : Service → MemoryLimiter
  limiter_of s = record {
    memory = s.manager.fallback;
    interval = s.interval;
    closed = s.limiter_closed;
    waits = s.sweeping;
  }

  unfoldable pub current_policy : Service → Policy
  current_policy s = s.manager.policy

  -- The prober is told to stop and is waited for.
  unfoldable pub stop_probing : List (Option String) → Service → Service
  unfolding probe_loop until_stopped
  stop_probing late s =
      let m = s.manager in
      let (b, returned) = probe_loop (until_stopped late) m.breaker in
      if s.probing
      then record s { manager = record m { breaker = b }; closed = true; probing = not returned }
      else record s { closed = true }

  -- `m.primary.Close()`, if there is a primary limiter.
  unfoldable pub close_primary : (Store → Store × Option String) → Service → Service × Option String
  close_primary close s = elim s.manager.store [
    | none ↦ (s, none)
    | some r ↦
        let (r', err) = close r in
        (record s { manager = record s.manager { store = some r' } }, err)
  ]

  -- `m.fallback.Close()`
  unfoldable pub close_fallback : List ℤ → Service → Service × Option String
  unfolding close_limiter limiter_of
  close_fallback late s =
      let (l, err) = close_limiter late (limiter_of s) in
      (
        record s {
          manager = record s.manager { fallback = l.memory };
          limiter_closed = l.closed;
          sweeping = l.waits;
        },
        err,
      )

  -- `Close`: the error of the primary limiter comes first.
  unfoldable pub close_service :
      (Store → Store × Option String)
      → List (Option String)
      → List ℤ
      → Service
      → Service × Option String
  unfolding stop_probing close_primary close_fallback
  close_service close late_pings late_ticks s =
      let (s', err) = close_primary close (stop_probing late_pings s) in
      let (s'', ferr) = close_fallback late_ticks s' in
      (s'', elim err [ none ↦ ferr | some e ↦ some e ])
