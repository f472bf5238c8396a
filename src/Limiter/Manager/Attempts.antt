-- ===== src/Limiter/Manager/Attempts.antt =====
-- What one call does to the breaker of internal/limiter/manager.go, when it asks the circuit and when
-- Redis fails.
use rate_limiting_reverse_pr.Prelude.{
  ◌≡◌, ◌≢◌, refl, ◌⊎◌, inl, inr, true, false, ◌&&◌, String, arith, Bool-cases, if◌then◌else◌,
}
use rate_limiting_reverse_pr.Prelude.Int.{ℤ, pos, ◌+ℤ◌, ◌≤ℤ◌, ◌<ℤ◌, leb_ℤ, ltb_ℤ, i64, eq_of_parts}
use rate_limiting_reverse_pr.Limiter.Manager.{
  ManagerConfig, Breaker, Readings, zero_time, is_zero, fail_locked, fail_flags, record_failure,
  try_primary,
}

-- When the circuit lets a request through, and when not.
abbrev pub Permits : ℤ → Breaker → Type 0
Permits now b = (b.open_until ≡ zero_time) ⊎ (b.open_until <ℤ now)

abbrev pub Refuses : ℤ → Breaker → Type 0
Refuses now b = (b.open_until ≢ zero_time) × (now ≤ℤ b.open_until)

-- What letting a request through does to an open circuit: it opens it for another cooldown.
abbrev pub rearmed : ManagerConfig → ℤ → Breaker → ℤ
rearmed c now b = if is_zero b.open_until then b.open_until else now +ℤ c.cooldown

pub try_primary-cases :
    (c : ManagerConfig) (now : ℤ) (b : Breaker)
    → (Permits now b × (try_primary c now b ≡ (record b { open_until = rearmed c now b }, true)))
      ⊎ (Refuses now b × (try_primary c now b ≡ (b, false)))
unfolding try_primary
try_primary-cases c now b = elim (Bool-cases (is_zero b.open_until)) [
  | inl zero_ ↦
      inl (inl (ground (arith, eq_of_parts b.open_until zero_time)), rw (zero_, try_primary) refl)
  | inr open_ ↦ elim (Bool-cases (ltb_ℤ b.open_until now)) [
    | inl past ↦ inl (inr (ground arith), rw (open_, past, try_primary) refl)
    | inr early ↦
        inr (((λ e. ground (arith, e)), ground arith), rw (open_, early, try_primary) refl)
  ]
]

-- What a failure that counts leaves of the breaker: one more failure, the error, the flags of an
-- outage, and a circuit that is opened if it was not and the failures have reached the threshold.
pub record IsCounted (c : ManagerConfig) (r : Readings) (err : String) (b b' : Breaker)
    : Type 0 where
  pub failures : b'.failures ≡ i64 (b.failures +ℤ pos 1)
  pub last_err : b'.last_err ≡ err
  pub healthy : b'.redis_healthy ≡ false
  pub degraded : b'.degraded ≡ true
  pub open_until : b'.open_until ≡ (
      let open_until = rearmed c r.at_try b in
      if leb_ℤ c.failure_threshold b'.failures && is_zero open_until
      then r.at_failure +ℤ c.cooldown
      else open_until)

pub record_failure-IsCounted :
    (c : ManagerConfig) (r : Readings) (err : String) (b : Breaker)
    → IsCounted c r err b
        (record_failure c r.at_failure err (record b { open_until = rearmed c r.at_try b }))
unfolding record_failure fail_locked fail_flags
record_failure-IsCounted c r err b =
    elim (Bool-cases
      (leb_ℤ c.failure_threshold (i64 (b.failures +ℤ pos 1)) && is_zero (rearmed c r.at_try b))) [
        | inl trips ↦ rw trips (record {
          failures = refl;
          last_err = refl;
          healthy = refl;
          degraded = refl;
          open_until = rw trips refl;
        })
        | inr holds ↦ rw holds (record {
          failures = refl;
          last_err = refl;
          healthy = refl;
          degraded = refl;
          open_until = rw holds refl;
        })
      ]
