-- ===== src/Api/Policies/Overlapping.antt =====
-- Two requests to change the policy at the same time (`handlePolicySet` of internal/api/api.go): the
-- handler reads the current policy, and stores the changed one later, with nothing that keeps other
-- requests out between the two.
mod Tests
use rate_limiting_reverse_pr.Prelude.{
  ◌≡◌, refl, Bool, true, false, String, Option, none, some, arith, if◌then◌else◌,
}
use rate_limiting_reverse_pr.Prelude.Int.{ℤ}
use rate_limiting_reverse_pr.Limiter.Policy.{Policy, normalize_id}
use rate_limiting_reverse_pr.Limiter.Manager.{Backend, Manager, set_policy}
use rate_limiting_reverse_pr.Api.Policies.{
  PolicyRequest, Response, rejected, requested, validate_policy, share, applied, handle_policy_set,
  validated-IsEnforceable, applied-share,
}

abbrev pub limit_only : {Float : Type 0} → ℤ → PolicyRequest Float
limit_only n = record { rps = some n; window_seconds = none }

abbrev pub window_only : {Float : Type 0} → Float → PolicyRequest Float
window_only x = record { rps = none; window_seconds = some x }

module _ {Float : Type 0} (to_duration : Float → ℤ) (primary : Backend) where
  -- The handler from the validation on, when it has read the policy `seen`.
  unfoldable pub finish_policy_set :
      Option (Policy → Option String)
      → PolicyRequest Float
      → Policy
      → Manager primary
      → Manager primary × Response
  unfolding requested validate_policy set_policy share
  finish_policy_set store req seen m =
      let next = requested to_duration req seen in
      let (m', p) = set_policy primary next m in
      if validate_policy next then (m', share store p) else (m, rejected "invalid_policy")

  -- Undisturbed, that is the whole handler.
  finish_policy_set-handle_policy_set :
      (store : Option (Policy → Option String)) (req : PolicyRequest Float) (m : Manager primary)
      → finish_policy_set store req m.policy m
        ≡ handle_policy_set to_duration primary store (some req) m
  unfolding finish_policy_set handle_policy_set
  finish_policy_set-handle_policy_set store req m = refl

  finish_policy_set_lem :
      (store : Option (Policy → Option String)) (req : PolicyRequest Float) (seen : Policy)
      (m : Manager primary)
      → validate_policy (requested to_duration req seen) ≡ true
      → ((finish_policy_set store req seen m).0.policy ≡ requested to_duration req seen)
        × (applied (finish_policy_set store req seen m).1 ≡ some (requested to_duration req seen))
  unfolding finish_policy_set set_policy
  finish_policy_set_lem store req seen m valid =
      let same = normalize_id _ (validated-IsEnforceable (requested to_duration req seen) valid) in
      (
        rw (valid, finish_policy_set) same,
        rw (valid, finish_policy_set, same) (applied-share store (requested to_duration req seen)),
      )

  -- When a request for a limit and a request for a window have both read the policy before
  -- either stores its own, and both pass the validation, and the one for the limit stores
  -- first: both are answered by 200 with what they asked for, but the policy in force
  -- afterwards has the old limit.
  pub updates_lost :
      (store : Option (Policy → Option String)) (n : ℤ) (x : Float) (m : Manager primary)
      → validate_policy (record { limit = n; window = m.policy.window }) ≡ true
      → validate_policy (record { limit = m.policy.limit; window = to_duration x }) ≡ true
      → let (m₁, first) = finish_policy_set store (limit_only n) m.policy m in
        let (m₂, second) = finish_policy_set store (window_only x) m.policy m₁ in
        (applied first ≡ some (record { limit = n; window = m.policy.window }))
        × (applied second ≡ some (record { limit = m.policy.limit; window = to_duration x }))
        × (m₂.policy ≡ record { limit = m.policy.limit; window = to_duration x })
  unfolding requested
  updates_lost store n x m valid valid' =
      let (m₁, first) = finish_policy_set store (limit_only n) m.policy m in
      let one = finish_policy_set_lem store (limit_only n) m.policy m valid in
      let two = finish_policy_set_lem store (window_only x) m.policy m₁ valid' in
      (one.1, two.1, two.0)
