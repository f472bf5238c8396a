-- ===== src/Limiter/Manager/Recovery.antt =====
-- How the circuit breaker of internal/limiter/manager.go comes back: what one success opens the way
-- for, whether it is a request's or a ping's.
use rate_limiting_reverse_pr.Prelude.{
  ℕ, suc, ◌+◌, ◌^◌, ◌<◌, ◌≡◌, refl, ◌⊎◌, true, false, none, some, List, [], ◌∷◌, ◌++◌, arith,
}
use rate_limiting_reverse_pr.Prelude.Int.{ℤ, pos, pos_part, neg_part, ◌≤ℤ◌, ◌<ℤ◌}
use rate_limiting_reverse_pr.Limiter.Manager.{
  ManagerConfig, Breaker, is_zero, try_primary, fail_locked, fail_flags, succeed_locked,
  succeed_flags, probe_health, probe_locked, probe_degraded,
}
use rate_limiting_reverse_pr.Limiter.Manager.Circuit.{
  Op, tries, fails, flags_failure, succeeds, flags_success, probes_health, probes_locked,
  probes_degraded, count_true, step, run_ops,
}
use rate_limiting_reverse_pr.Limiter.Manager.Outage.{tries_closed, fails_closed}

-- Redis has answered: a request or a ping.
abbrev pub IsGood : Op → Type 0
IsGood succeeds = Unit {0}
IsGood (probes_locked none) = Unit {0}
IsGood op = ⊥

-- The requests that ask, and the failures that are seen.
abbrev pub count_tries : List Op → ℕ
count_tries [] = 0
count_tries (tries now ∷ ops) = suc (count_tries ops)
count_tries (op ∷ ops) = count_tries ops

abbrev pub count_fails : List Op → ℕ
count_fails [] = 0
count_fails (fails now err ∷ ops) = suc (count_fails ops)
count_fails (op ∷ ops) = count_fails ops

count_true-add : (b : _) (m n : ℕ) → count_true b (m + n) ≡ count_true b m + n
count_true-add true m n = omega arith
count_true-add false m n = refl

run_ops-append :
    (c : ManagerConfig) (ops more : List Op) (b : Breaker)
    → ((run_ops c (ops ++ more) b).1 ≡ (run_ops c ops b).1 + (run_ops c more (run_ops c ops b).0).1)
      × ((run_ops c (ops ++ more) b).0 ≡ (run_ops c more (run_ops c ops b).0).0)
unfolding run_ops
run_ops-append c [] more b = (omega arith, refl)
run_ops-append c (op ∷ ops) more b =
    let (b', permitted) = step c op b in
    let (counted, same) = run_ops-append c ops more b' in
    (
      rw counted
          (count_true-add permitted (run_ops c ops b').1 (run_ops c more (run_ops c ops b').0).1),
      same,
    )

module _ (c : ManagerConfig) (threshold : pos 1 ≤ℤ c.failure_threshold)
    (cooldown : pos 1 ≤ℤ c.cooldown) (small : pos_part c.failure_threshold < 2 ^ 62) where
  -- While the circuit is closed and too few failures are to come, every request is let through.
  closed_serves :
      (ops : List Op) (b : Breaker)
      → is_zero b.open_until ≡ true
      → neg_part b.failures ≡ 0
      → pos_part b.failures + count_fails ops < pos_part c.failure_threshold
      → ((run_ops c ops b).1 ≡ count_tries ops) × (is_zero (run_ops c ops b).0.open_until ≡ true)
  unfolding run_ops step fail_flags succeed_locked succeed_flags probe_health probe_locked
      probe_degraded
  closed_serves [] b o counted few = (refl, o)
  closed_serves (tries now ∷ ops) b o counted few =
      let (n, o') = closed_serves ops b o counted few in
      rw (tries_closed c threshold cooldown now b o) (rw n refl, o')
  closed_serves (fails now err ∷ ops) b o counted few =
      let (o', f', k') =
        fails_closed c threshold cooldown now err b counted (omega arith) (omega arith) o in
      closed_serves ops (fail_locked c now err b) o' k' (omega (arith, f', few))
  closed_serves (flags_failure ∷ ops) b o counted few =
      closed_serves ops (fail_flags b) o counted few
  closed_serves (succeeds ∷ ops) b o counted few =
      closed_serves ops (succeed_locked b) refl refl (omega arith)
  closed_serves (flags_success ∷ ops) b o counted few =
      closed_serves ops (succeed_flags b) o counted few
  closed_serves (probes_locked none ∷ ops) b o counted few =
      closed_serves ops (probe_locked none b) refl refl (omega arith)
  closed_serves (probes_locked (some err) ∷ ops) b o counted few =
      closed_serves ops (probe_locked (some err) b) o counted few
  closed_serves (probes_health result ∷ ops) b o counted few =
      closed_serves ops (probe_health result b) o counted few
  closed_serves (probes_degraded result ∷ ops) b o counted few =
      closed_serves ops (probe_degraded result b) o counted few

  good_serves :
      (good : Op) (ops : List Op) (b : Breaker)
      → IsGood good
      → count_fails ops < pos_part c.failure_threshold
      → ((run_ops c (good ∷ ops) b).1 ≡ count_tries ops)
        × (is_zero (run_ops c (good ∷ ops) b).0.open_until ≡ true)
  unfolding run_ops step succeed_locked probe_health probe_locked probe_degraded
  good_serves succeeds ops b g few = closed_serves ops (succeed_locked b) refl refl (omega arith)
  good_serves (probes_locked none) ops b g few =
      closed_serves ops (probe_locked none b) refl refl (omega arith)
  good_serves (probes_locked (some err)) ops b g few = absurd g
  good_serves (probes_health result) ops b g few = absurd g
  good_serves (probes_degraded result) ops b g few = absurd g
  good_serves (tries now) ops b g few = absurd g
  good_serves (fails now err) ops b g few = absurd g
  good_serves flags_failure ops b g few = absurd g
  good_serves flags_success ops b g few = absurd g

  permitted :
      (now : ℤ) (b : Breaker)
      → (is_zero b.open_until ≡ true) ⊎ (b.open_until <ℤ now)
      → (try_primary c now b).1 ≡ true
  unfolding try_primary
  permitted now b h = ground arith

  -- From any state of the circuit: a request that asks when the circuit is closed, or when its time
  -- has passed, is let through. And as soon as Redis has answered a request or a ping, whatever
  -- happened in between, the circuit is closed and every later request is let through, under every
  -- interleaving with fewer failures than the threshold, for a threshold below 2 ^ 62.
  pub recovers :
      (now : ℤ) (between ops : List Op) (good : Op) (b : Breaker)
      → (is_zero b.open_until ≡ true) ⊎ (b.open_until <ℤ now)
      → IsGood good
      → count_fails ops < pos_part c.failure_threshold
      → let r = run_ops c (tries now ∷ between ++ good ∷ ops) b in
        (r.1 ≡ suc ((run_ops c between (try_primary c now b).0).1 + count_tries ops))
        × (is_zero r.0.open_until ≡ true)
  unfolding run_ops step
  recovers now between ops good b h g few =
      let b' = (try_primary c now b).0 in
      let (counted, same) = run_ops-append c between (good ∷ ops) b' in
      let (served, closed) = good_serves good ops (run_ops c between b').0 g few in
      (rw (permitted now b h, counted, served) refl, rw (same) closed)
