-- ===== src/Limiter/Manager/Outage.antt =====
-- What an outage of Redis costs, under the circuit breaker of internal/limiter/manager.go: how many
-- requests wait for Redis in vain before the circuit is open, when several calls are under way.
use rate_limiting_reverse_pr.Prelude.{
  ℕ, suc, ◌+◌, ◌-◌, ◌^◌, ◌≤◌, ◌<◌, ◌≡◌, true, String, none, some, List, [], ◌∷◌, arith, ltb,
  Bool-cases, inl, inr,
}
use rate_limiting_reverse_pr.Prelude.Int.{
  ℤ, pos, pos_part, neg_part, ◌+ℤ◌, ◌≤ℤ◌, i64_id, +ℤ_parts, parts_lem,
}
use rate_limiting_reverse_pr.Limiter.Manager.{
  ManagerConfig, Breaker, is_zero, try_primary, fail_locked, fail_flags, succeed_flags,
  probe_health, probe_locked, probe_degraded,
}
use rate_limiting_reverse_pr.Limiter.Manager.Circuit.{
  Op, tries, fails, flags_failure, succeeds, flags_success, probes_health, probes_locked,
  probes_degraded, count_true, step, run_ops, HasClocks, IsOutage, AsksBetween, armed,
}
use rate_limiting_reverse_pr.Limiter.Manager.Probing.{shut_out}

-- Failures are reported by calls that are under way, of which there are never more than `most`;
-- `n` of them are now. The failures are seen no earlier than `from`.
abbrev pub HasCalls : ManagerConfig → ℤ → ℕ → ℕ → List Op → Breaker → Type 0
HasCalls c from most n [] b = Unit {0}
HasCalls c from most n (tries now ∷ ops) b =
    let (b', permitted) = try_primary c now b in
    (count_true permitted n ≤ most) × HasCalls c from most (count_true permitted n) ops b'
HasCalls c from most n (fails now err ∷ ops) b =
    (1 ≤ n) × (from ≤ℤ now) × HasCalls c from most (n - 1) ops (fail_locked c now err b)
HasCalls c from most n (flags_failure ∷ ops) b = HasCalls c from most n ops (fail_flags b)
HasCalls c from most n (succeeds ∷ ops) b = HasCalls c from most n ops (step c succeeds b).0
HasCalls c from most n (flags_success ∷ ops) b = HasCalls c from most n ops (succeed_flags b)
HasCalls c from most n (probes_health r ∷ ops) b = HasCalls c from most n ops (probe_health r b)
HasCalls c from most n (probes_locked r ∷ ops) b = HasCalls c from most n ops (probe_locked r b)
HasCalls c from most n (probes_degraded r ∷ ops) b = HasCalls c from most n ops (probe_degraded r b)

module _ (c : ManagerConfig) (threshold : pos 1 ≤ℤ c.failure_threshold)
    (cooldown : pos 1 ≤ℤ c.cooldown) where
  -- A request that asks while the circuit is closed is let through.
  pub tries_closed :
      (now : ℤ) (b : Breaker) → is_zero b.open_until ≡ true → try_primary c now b ≡ (b, true)
  unfolding try_primary
  tries_closed now b o = ground arith

  -- A failure that does not reach the threshold leaves the circuit closed and is counted.
  pub fails_closed :
      (now : ℤ) (err : String) (b : Breaker)
      → neg_part b.failures ≡ 0
      → pos_part b.failures + 1 < 2 ^ 62
      → pos_part b.failures + 1 < pos_part c.failure_threshold
      → is_zero b.open_until ≡ true
      → (is_zero (fail_locked c now err b).open_until ≡ true)
        × (pos_part (fail_locked c now err b).failures ≡ pos_part b.failures + 1)
        × (neg_part (fail_locked c now err b).failures ≡ 0)
  unfolding fail_locked
  fails_closed now err b counted room few o = ground (
    arith,
    i64_id (b.failures +ℤ pos 1),
    +ℤ_parts b.failures (pos 1),
    parts_lem (b.failures +ℤ pos 1),
    parts_lem c.failure_threshold,
  )

  -- The failure that reaches the threshold opens the circuit for one cooldown.
  fails_trips :
      (now : ℤ) (err : String) (b : Breaker)
      → neg_part b.failures ≡ 0
      → pos_part b.failures + 1 < 2 ^ 62
      → pos_part c.failure_threshold ≤ pos_part b.failures + 1
      → is_zero b.open_until ≡ true
      → (fail_locked c now err b).open_until ≡ now +ℤ c.cooldown
  unfolding fail_locked
  fails_trips now err b counted room many o = ground (
    arith,
    i64_id (b.failures +ℤ pos 1),
    +ℤ_parts b.failures (pos 1),
    parts_lem (b.failures +ℤ pos 1),
    parts_lem c.failure_threshold,
  )

  -- During an outage, from a circuit that is closed: within one cooldown the requests that are let
  -- through, together with the calls that were under way and the failures already counted, are fewer
  -- than the failure threshold and the calls that are ever under way at once. A call whose own
  -- context has ended reports nothing and counts as under way. This holds under every interleaving
  -- of requests, failures, stores of the flags and failed pings, at times between 1970 and 2116, for
  -- a threshold below 2 ^ 62.
  pub outage_cost :
      (from to : ℤ) (most n : ℕ) (ops : List Op) (b : Breaker)
      → HasClocks ops
      → IsOutage ops
      → AsksBetween from to ops
      → to ≤ℤ from +ℤ c.cooldown
      → HasCalls c from most n ops b
      → n ≤ most
      → is_zero b.open_until ≡ true
      → neg_part b.failures ≡ 0
      → pos_part b.failures < pos_part c.failure_threshold
      → pos_part c.failure_threshold < 2 ^ 62
      → (run_ops c ops b).1 + n + pos_part b.failures + 1 ≤ pos_part c.failure_threshold + most
  unfolding run_ops step fail_flags succeed_flags probe_health probe_locked probe_degraded
  outage_cost from to most n [] b t g a w h le o counted few small = omega arith
  outage_cost from to most n (tries now ∷ ops) b t g a w h le o counted few small =
      let open_ = tries_closed now b o in
      let h' : (suc n ≤ most) × HasCalls c from most (suc n) ops b = rw open_ at h in
      rw open_ (
        omega
          (arith, outage_cost from to most (suc n) ops b t.1 g a.2 w h'.1 h'.0 o counted few small))
  outage_cost from to most n (fails now err ∷ ops) b t g a w h le o counted few small =
      elim (Bool-cases (ltb (pos_part b.failures + 1) (pos_part c.failure_threshold))) [
        | inl more ↦
            let (o', f', k') = fails_closed now err b counted (omega arith) (ground arith) o in
            omega (
              arith,
              outage_cost from to most (n - 1) ops (fail_locked c now err b) t.1 g a w h.2
                  (omega (arith, le)) o' k' (ground arith) small,
              f',
              h.0,
            )
        | inr trips ↦
            let opened = fails_trips now err b counted (omega arith) (ground arith) o in
            omega (
              arith,
              shut_out c from to ops (fail_locked c now err b) g a
                  (rw opened (armed c threshold cooldown now t.0))
                  (rw opened
                    (omega (arith, w, h.1, +ℤ_parts from c.cooldown, +ℤ_parts now c.cooldown))),
            )
      ]
  outage_cost from to most n (flags_failure ∷ ops) b t g a w h le o counted few small =
      outage_cost from to most n ops (fail_flags b) t.1 g a w h le o counted few small
  outage_cost from to most n (succeeds ∷ ops) b t g a w h le o counted few small = absurd g
  outage_cost from to most n (flags_success ∷ ops) b t g a w h le o counted few small =
      outage_cost from to most n ops (succeed_flags b) t.1 g a w h le o counted few small
  outage_cost from to most n (probes_locked none ∷ ops) b t g a w h le o counted few small =
      absurd g
  outage_cost from to most n (probes_locked (some err) ∷ ops) b t g a w h le o counted few small =
      outage_cost from to most n ops (probe_locked (some err) b) t.1 g a w h le o counted few small
  outage_cost from to most n (probes_health result ∷ ops) b t g a w h le o counted few small =
      outage_cost from to most n ops (probe_health result b) t.1 g a w h le o counted few small
  outage_cost from to most n (probes_degraded result ∷ ops) b t g a w h le o counted few small =
      outage_cost from to most n ops (probe_degraded result b) t.1 g a w h le o counted few small
