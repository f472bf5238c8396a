-- ===== src/Limiter/Manager/Probing.antt =====
-- How many requests reach Redis while the circuit of internal/limiter/manager.go is open.
use rate_limiting_reverse_pr.Prelude.{
  ◌≤◌, ◌≡◌, refl, true, false, String, none, some, List, [], ◌∷◌, arith, Bool-cases, inl, inr,
}
use rate_limiting_reverse_pr.Prelude.Int.{ℤ, pos, ◌+ℤ◌, ◌≤ℤ◌, ◌<ℤ◌, ltb_ℤ, +ℤ_parts}
use rate_limiting_reverse_pr.Limiter.Manager.{
  ManagerConfig, Breaker, is_zero, try_primary, fail_locked, fail_flags, succeed_flags,
  probe_health, probe_locked, probe_degraded,
}
use rate_limiting_reverse_pr.Limiter.Manager.Circuit.{
  Op, tries, fails, flags_failure, succeeds, flags_success, probes_health, probes_locked,
  probes_degraded, step, run_ops, HasClocks, IsOutage, AsksBetween, armed,
}

abbrev IsOpen : Breaker → Type 0
IsOpen b = is_zero b.open_until ≡ false

module _ (c : ManagerConfig) where
  -- A request that comes too early is not let through, and changes nothing.
  tries_early :
      (now : ℤ) (b : Breaker) → IsOpen b → now ≤ℤ b.open_until → try_primary c now b ≡ (b, false)
  unfolding try_primary
  tries_early now b o h = ground arith

  pub tries_late :
      (now : ℤ) (b : Breaker)
      → IsOpen b
      → b.open_until <ℤ now
      → try_primary c now b ≡ (record b { open_until = now +ℤ c.cooldown }, true)
  unfolding try_primary
  tries_late now b o h = ground arith

  -- A failure does not move an open circuit.
  fails_open :
      (now : ℤ) (err : String) (b : Breaker)
      → IsOpen b
      → (fail_locked c now err b).open_until ≡ b.open_until
  unfolding fail_locked
  fails_open now err b o = ground arith

  pub shut_out :
      (from to : ℤ) (ops : List Op) (b : Breaker)
      → IsOutage ops
      → AsksBetween from to ops
      → IsOpen b
      → to ≤ℤ b.open_until
      → (run_ops c ops b).1 ≡ 0
  unfolding run_ops step fail_flags succeed_flags probe_health probe_locked probe_degraded
  shut_out from to [] b g a o h = refl
  shut_out from to (tries now ∷ ops) b g a o h =
      rw (tries_early now b o (omega arith)) (shut_out from to ops b g a.2 o h)
  shut_out from to (fails now err ∷ ops) b g a o h =
      shut_out from to ops (fail_locked c now err b) g a (rw (fails_open now err b o) o)
        (rw (fails_open now err b o) h)
  shut_out from to (flags_failure ∷ ops) b g a o h = shut_out from to ops (fail_flags b) g a o h
  shut_out from to (succeeds ∷ ops) b g a o h = absurd g
  shut_out from to (flags_success ∷ ops) b g a o h = shut_out from to ops (succeed_flags b) g a o h
  shut_out from to (probes_locked none ∷ ops) b g a o h = absurd g
  shut_out from to (probes_locked (some err) ∷ ops) b g a o h =
      shut_out from to ops (probe_locked (some err) b) g a o h
  shut_out from to (probes_health result ∷ ops) b g a o h =
      shut_out from to ops (probe_health result b) g a o h
  shut_out from to (probes_degraded result ∷ ops) b g a o h =
      shut_out from to ops (probe_degraded result b) g a o h

  module _ (cooldown : pos 1 ≤ℤ c.cooldown) (threshold : pos 1 ≤ℤ c.failure_threshold) where
    -- During an outage an open circuit lets at most one of the requests through that ask within
    -- one cooldown, under every interleaving of requests, failures, stores of the flags and failed
    -- pings.
    pub one_probe :
        (from to : ℤ) (ops : List Op) (b : Breaker)
        → HasClocks ops
        → IsOutage ops
        → AsksBetween from to ops
        → to ≤ℤ from +ℤ c.cooldown
        → is_zero b.open_until ≡ false
        → (run_ops c ops b).1 ≤ 1
    unfolding run_ops step fail_flags succeed_flags probe_health probe_locked probe_degraded
    one_probe from to [] b t g a w o = omega arith
    one_probe from to (tries now ∷ ops) b t g a w o = elim (Bool-cases (ltb_ℤ b.open_until now)) [
      | inl late ↦ rw (tries_late now b o (ground arith)) (
          omega (
            arith,
            shut_out from to ops (record b { open_until = now +ℤ c.cooldown }) g a.2
                (armed c threshold cooldown now t.0)
                (omega (arith, a.0, +ℤ_parts from c.cooldown, +ℤ_parts now c.cooldown)),
          ))
      | inr early ↦ rw (tries_early now b o (ground arith)) (one_probe from to ops b t.1 g a.2 w o)
    ]
    one_probe from to (fails now err ∷ ops) b t g a w o =
        one_probe from to ops (fail_locked c now err b) t.1 g a w (rw (fails_open now err b o) o)
    one_probe from to (flags_failure ∷ ops) b t g a w o =
        one_probe from to ops (fail_flags b) t.1 g a w o
    one_probe from to (succeeds ∷ ops) b t g a w o = absurd g
    one_probe from to (flags_success ∷ ops) b t g a w o =
        one_probe from to ops (succeed_flags b) t.1 g a w o
    one_probe from to (probes_locked none ∷ ops) b t g a w o = absurd g
    one_probe from to (probes_locked (some err) ∷ ops) b t g a w o =
        one_probe from to ops (probe_locked (some err) b) t.1 g a w o
    one_probe from to (probes_health result ∷ ops) b t g a w o =
        one_probe from to ops (probe_health result b) t.1 g a w o
    one_probe from to (probes_degraded result ∷ ops) b t g a w o =
        one_probe from to ops (probe_degraded result b) t.1 g a w o
