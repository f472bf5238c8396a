-- ===== src/Limiter/Manager/Circuit.antt =====
-- The circuit breaker of internal/limiter/manager.go under any interleaving of the goroutines that
-- use it: each operation below is one critical section, or one store of the flags.
use rate_limiting_reverse_pr.Prelude.{
  ℕ, suc, ◌+◌, ◌≤◌, ◌<◌, ◌^◌, ◌≡◌, Bool, true, false, String, Option, none, some, List, [], ◌∷◌,
  arith, length,
}
use rate_limiting_reverse_pr.Prelude.Int.{
  ℤ, pos, pos_part, neg_part, ◌+ℤ◌, ◌≤ℤ◌, ltb_ℤ, i64_id, IsClock, +ℤ_parts, parts_lem,
}
use rate_limiting_reverse_pr.Limiter.Manager.{
  ManagerConfig, Breaker, is_zero, try_primary, fail_locked, fail_flags, succeed_locked,
  succeed_flags, probe_health, probe_locked, probe_degraded,
}

pub data Op : Type 0 where
  tries : ℤ → Op
  fails : ℤ → String → Op
  flags_failure : Op
  succeeds : Op
  flags_success : Op
  probes_health : Option String → Op
  probes_locked : Option String → Op
  probes_degraded : Option String → Op

-- One operation, and whether it let a request through to Redis.
unfoldable pub step : ManagerConfig → Op → Breaker → Breaker × Bool
step c (tries now) b = try_primary c now b
step c (fails now err) b = (fail_locked c now err b, false)
step c flags_failure b = (fail_flags b, false)
step c succeeds b = (succeed_locked b, false)
step c flags_success b = (succeed_flags b, false)
step c (probes_health result) b = (probe_health result b, false)
step c (probes_locked result) b = (probe_locked result b, false)
step c (probes_degraded result) b = (probe_degraded result b, false)

abbrev pub count_true : Bool → ℕ → ℕ
count_true true n = suc n
count_true false n = n

-- A schedule, and how many requests it let through.
unfoldable pub run_ops : ManagerConfig → List Op → Breaker → Breaker × ℕ
run_ops c [] b = (b, 0)
run_ops c (op ∷ ops) b =
    let (b', permitted) = step c op b in
    let (b'', n) = run_ops c ops b' in (b'', count_true permitted n)

abbrev pub HasClock : Op → Type 0
HasClock (tries now) = IsClock now
HasClock (fails now err) = IsClock now
HasClock _ = Unit {0}

abbrev pub HasClocks : List Op → Type 0
HasClocks [] = Unit {0}
HasClocks (op ∷ ops) = HasClock op × HasClocks ops

-- The circuit is open exactly when the failures in a row have reached the threshold.
pub record IsConsistent (c : ManagerConfig) (b : Breaker) : Type 0 where
  pub counted : neg_part b.failures ≡ 0
  pub open_iff : is_zero b.open_until ≡ ltb_ℤ b.failures c.failure_threshold

module _ (c : ManagerConfig) (threshold : pos 1 ≤ℤ c.failure_threshold)
    (cooldown : pos 1 ≤ℤ c.cooldown) where
  -- A circuit that is armed now does not look closed.
  pub armed : (now : ℤ) → IsClock now → is_zero (now +ℤ c.cooldown) ≡ false
  armed now clock = ground (arith, +ℤ_parts now c.cooldown, parts_lem (now +ℤ c.cooldown))

  step-IsConsistent :
      (op : Op) (b : Breaker)
      → HasClock op
      → pos_part b.failures < 2 ^ 62
      → IsConsistent c b
      → IsConsistent c (step c op b).0
  unfolding step try_primary fail_locked fail_flags succeed_locked succeed_flags probe_health
      probe_locked probe_degraded
  step-IsConsistent (tries now) b clock room h = ground (arith, armed now)
  step-IsConsistent (fails now err) b clock room h = ground (
    arith,
    armed now,
    i64_id (b.failures +ℤ pos 1),
    +ℤ_parts b.failures (pos 1),
    parts_lem (b.failures +ℤ pos 1),
  )
  step-IsConsistent flags_failure b clock room h = record {
    counted = h.counted;
    open_iff = h.open_iff;
  }
  step-IsConsistent succeeds b clock room h = ground arith
  step-IsConsistent flags_success b clock room h = record {
    counted = h.counted;
    open_iff = h.open_iff;
  }
  step-IsConsistent (probes_health result) b clock room h = record {
    counted = h.counted;
    open_iff = h.open_iff;
  }
  step-IsConsistent (probes_locked (some err)) b clock room h = record {
    counted = h.counted;
    open_iff = h.open_iff;
  }
  step-IsConsistent (probes_locked none) b clock room h = ground arith
  step-IsConsistent (probes_degraded result) b clock room h = record {
    counted = h.counted;
    open_iff = h.open_iff;
  }

  -- A failure adds one to the count, and nothing else adds to it.
  step_counts :
      (op : Op) (b : Breaker)
      → pos_part b.failures < 2 ^ 62
      → neg_part b.failures ≡ 0
      → pos_part (step c op b).0.failures ≤ pos_part b.failures + 1
  unfolding step try_primary fail_locked fail_flags succeed_locked succeed_flags probe_health
      probe_locked probe_degraded
  step_counts (tries now) b room h = ground arith
  step_counts (fails now err) b room h = ground (
    arith,
    i64_id (b.failures +ℤ pos 1),
    +ℤ_parts b.failures (pos 1),
    parts_lem (b.failures +ℤ pos 1),
  )
  step_counts flags_failure b room h = ground arith
  step_counts succeeds b room h = ground arith
  step_counts flags_success b room h = ground arith
  step_counts (probes_health result) b room h = omega arith
  step_counts (probes_locked (some err)) b room h = ground arith
  step_counts (probes_locked none) b room h = ground arith
  step_counts (probes_degraded result) b room h = omega arith

  -- Under every interleaving of fewer than 2 ^ 62 operations at times between 1970 and 2116, a
  -- consistent circuit stays consistent: it is open exactly when the failures in a row, counted
  -- since the last success, have reached the threshold.
  pub run_ops-IsConsistent :
      (ops : List Op) (b : Breaker)
      → HasClocks ops
      → pos_part b.failures + length ops < 2 ^ 62
      → IsConsistent c b
      → IsConsistent c (run_ops c ops b).0
  unfolding run_ops
  run_ops-IsConsistent [] b clocks room h = h
  run_ops-IsConsistent (op ∷ ops) b clocks room h =
      run_ops-IsConsistent ops (step c op b).0 clocks.1
        (omega (arith, step_counts op b (omega arith) h.counted))
        (step-IsConsistent op b clocks.0 (omega arith) h)

-- No success is seen: neither a request's nor a ping's.
abbrev pub IsOutage : List Op → Type 0
IsOutage [] = Unit {0}
IsOutage (succeeds ∷ ops) = ⊥
IsOutage (probes_locked none ∷ ops) = ⊥
IsOutage (op ∷ ops) = IsOutage ops

-- The requests that ask read the clock between two instants.
abbrev pub AsksBetween : ℤ → ℤ → List Op → Type 0
AsksBetween from to [] = Unit {0}
AsksBetween from to (tries now ∷ ops) = (from ≤ℤ now) × (now ≤ℤ to) × AsksBetween from to ops
AsksBetween from to (op ∷ ops) = AsksBetween from to ops
