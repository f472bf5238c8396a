-- ===== src/Limiter/Manager/Flags.antt =====
-- The flags that internal/limiter/manager.go stores outside of its lock (`redisHealthy` and
-- `degraded` in recordFailure and recordSuccess), against the circuit that the lock protects.
use rate_limiting_reverse_pr.Prelude.{
  ◌+◌, ◌^◌, ◌<◌, ◌≡◌, refl, true, false, String, none, some, List, [], ◌∷◌, arith, length,
}
use rate_limiting_reverse_pr.Prelude.Int.{
  ℤ, pos, pos_part, neg_part, ◌+ℤ◌, ltb_ℤ, i64_id, +ℤ_parts, parts_lem,
}
use rate_limiting_reverse_pr.Limiter.Manager.{
  ManagerConfig, Breaker, is_zero, try_primary, fail_locked, fail_flags, succeed_locked,
  succeed_flags, probe_health, probe_locked, probe_degraded,
}
use rate_limiting_reverse_pr.Limiter.Manager.Circuit.{
  Op, tries, fails, flags_failure, succeeds, flags_success, probes_health, probes_locked,
  probes_degraded, step, run_ops,
}

-- Every call, and every ping that succeeds, stores its flags at once after its locked section.
abbrev pub IsPaired : List Op → Type 0
IsPaired [] = Unit {0}
IsPaired (fails now err ∷ flags_failure ∷ ops) = IsPaired ops
IsPaired (succeeds ∷ flags_success ∷ ops) = IsPaired ops
IsPaired (tries now ∷ ops) = IsPaired ops
IsPaired (probes_health r ∷ ops) = IsPaired ops
IsPaired (probes_locked (some err) ∷ ops) = IsPaired ops
IsPaired (probes_locked none ∷ probes_degraded none ∷ ops) = IsPaired ops
IsPaired (probes_degraded (some err) ∷ ops) = IsPaired ops
IsPaired ops = ⊥

-- The flag says that decisions come from the fallback exactly while failures are counted.
abbrev pub IsFlagged : Breaker → Type 0
IsFlagged b = (neg_part b.failures ≡ 0) × (b.degraded ≡ ltb_ℤ (pos 0) b.failures)

failed-IsFlagged :
    (c : ManagerConfig) (now : ℤ) (err : String) (b : Breaker)
    → pos_part b.failures + 1 < 2 ^ 62
    → IsFlagged b
    → IsFlagged (fail_flags (fail_locked c now err b))
      × (pos_part (fail_flags (fail_locked c now err b)).failures ≡ pos_part b.failures + 1)
unfolding fail_locked fail_flags
failed-IsFlagged c now err b room h = ground (
  arith,
  i64_id (b.failures +ℤ pos 1),
  +ℤ_parts b.failures (pos 1),
  parts_lem (b.failures +ℤ pos 1),
)

-- When nothing comes between the locked section of a call or of a ping and its flags: under every order of fewer
-- than 2 ^ 62 steps, `degraded` stays true exactly while failures have been counted since the last
-- success.
pub run_ops-IsFlagged :
    (c : ManagerConfig) (ops : List Op) (b : Breaker)
    → IsPaired ops
    → pos_part b.failures + length ops < 2 ^ 62
    → IsFlagged b
    → IsFlagged (run_ops c ops b).0
unfolding run_ops step try_primary succeed_locked succeed_flags probe_health probe_locked
    probe_degraded
run_ops-IsFlagged c [] b p room h = h
run_ops-IsFlagged c (tries now ∷ ops) b p room h =
    run_ops-IsFlagged c ops (try_primary c now b).0 p (ground arith) (ground arith)
run_ops-IsFlagged c (fails now err ∷ flags_failure ∷ ops) b p room h =
    let (h', counted) = failed-IsFlagged c now err b (omega arith) h in
    run_ops-IsFlagged c ops (fail_flags (fail_locked c now err b)) p (omega (arith, counted)) h'
run_ops-IsFlagged c (succeeds ∷ flags_success ∷ ops) b p room h =
    run_ops-IsFlagged c ops (succeed_flags (succeed_locked b)) p (omega arith) (refl, refl)
run_ops-IsFlagged c (probes_health result ∷ ops) b p room h =
    run_ops-IsFlagged c ops (probe_health result b) p (omega arith) h
run_ops-IsFlagged c (probes_locked (some err) ∷ ops) b p room h =
    run_ops-IsFlagged c ops (probe_locked (some err) b) p (omega arith) h
run_ops-IsFlagged c (probes_locked none ∷ probes_degraded none ∷ ops) b p room h =
    run_ops-IsFlagged c ops (probe_degraded none (probe_locked none b)) p (omega arith) (refl, refl)
run_ops-IsFlagged c (probes_degraded (some err) ∷ ops) b p room h =
    run_ops-IsFlagged c ops (probe_degraded (some err) b) p (omega arith) h
run_ops-IsFlagged c _ b p room h = absurd p

-- But in every state of the breaker: when a call that succeeds runs between the locked section of a
-- call that fails and the flags of that one, the circuit is closed, no failure is counted and every
-- request is let through to Redis, while `degraded` is true and `redisHealthy` is false.
pub late_flags :
    (c : ManagerConfig) (now : ℤ) (err : String) (b : Breaker)
    → let b' = (run_ops c (fails now err ∷ succeeds ∷ flags_success ∷ flags_failure ∷ []) b).0 in
      (b'.failures ≡ pos 0)
      × (is_zero b'.open_until ≡ true)
      × ((later : ℤ) → try_primary c later b' ≡ (b', true))
      × (b'.degraded ≡ true)
      × (b'.redis_healthy ≡ false)
unfolding run_ops step try_primary fail_locked fail_flags succeed_locked succeed_flags
late_flags c now err b = (refl, refl, λ later. refl, refl, refl)
