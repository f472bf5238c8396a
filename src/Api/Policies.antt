-- ===== src/Api/Policies.antt =====
-- internal/api/api.go: updates of the policy. The decoding of the body is a parameter, as are the
-- conversion of seconds to a duration and `Save` of the shared store; the log is not modelled.
pub mod Overlapping
use rate_limiting_reverse_pr.Prelude.{
  ◌≡◌, refl, ap, ◌⊎◌, Bool, Bool-cases, inl, inr, true, false, not, ◌&&◌, ◌||◌, String, Option,
  none, some, arith, if◌then◌else◌,
}
use rate_limiting_reverse_pr.Prelude.Int.{ℤ, pos, ltb_ℤ}
use rate_limiting_reverse_pr.Limiter.Policy.{Policy, normalize_id, IsEnforceable, second}
use rate_limiting_reverse_pr.Limiter.Manager.{Backend, Manager, set_policy}

abbrev pub hour : ℤ
hour = pos 3600000000000

pub record PolicyRequest (Float : Type 0) : Type 0 where
  pub rps : Option ℤ
  pub window_seconds : Option Float

-- The answers of the handler: 400 with its code, or 200 with the applied policy, whether it was
-- shared, and the error of sharing.
pub data Response : Type 0 where
  rejected : String → Response
  updated : Policy → Bool → String → Response

-- `validatePolicy`, without the text of its errors.
unfoldable pub validate_policy : Policy → Bool
validate_policy p =
    not (ltb_ℤ p.limit (pos 1) || ltb_ℤ (pos 1000000) p.limit)
    && not (ltb_ℤ p.window second || ltb_ℤ hour p.window)

-- A policy that the control plane accepts is enforced as it is: the bounds of the API lie within
-- those of the limiters.
pub validated-IsEnforceable : (p : Policy) → validate_policy p ≡ true → IsEnforceable p
unfolding validate_policy
validated-IsEnforceable p h = ground arith

-- Sharing the policy: with no store, with a store that fails, and with one that works.
unfoldable pub share : Option (Policy → Option String) → Policy → Response
share none p = updated p false ""
share (some save) p = elim (save p) [ none ↦ updated p true "" | some err ↦ updated p false err ]

abbrev pub applied : Response → Option Policy
applied (rejected code) = none
applied (updated p shared err) = some p

pub applied-share :
    (store : Option (Policy → Option String)) (p : Policy) → applied (share store p) ≡ some p
unfolding share
applied-share none p = refl
applied-share (some save) p = go (save p)
  where
    go :
        (o : Option String)
        → applied (elim o [ none ↦ updated p true "" | some err ↦ updated p false err ]) ≡ some p
    go none = refl
    go (some err) = refl

module _ {Float : Type 0} (to_duration : Float → ℤ) where
  -- The current policy with the fields that the request gives.
  unfoldable pub requested : PolicyRequest Float → Policy → Policy
  requested req p = record {
    limit = elim req.rps [ none ↦ p.limit | some n ↦ n ];
    window = elim req.window_seconds [ none ↦ p.window | some x ↦ to_duration x ];
  }

  module _ (primary : Backend) where
    -- `handlePolicySet`, from the decoded request, or none if decoding failed.
    unfoldable pub handle_policy_set :
        Option (Policy → Option String)
        → Option (PolicyRequest Float)
        → Manager primary
        → Manager primary × Response
    unfolding requested validate_policy set_policy share
    handle_policy_set store none m = (m, rejected "invalid_request")
    handle_policy_set store (some req) m =
        let next = requested req m.policy in
        let (m', p) = set_policy primary next m in
        if validate_policy next then (m', share store p) else (m, rejected "invalid_policy")

    -- An update changes the manager's policy and nothing else, and only to a policy that passes the
    -- validation: the one requested, never a corrected one, which is also the policy that the answer
    -- reports, whether sharing it with the fleet works, fails or is not configured. A request that
    -- does not pass changes nothing and is answered by 400.
    pub handle_policy_set_lem :
        (store : Option (Policy → Option String)) (req : PolicyRequest Float) (m : Manager primary)
        → let next = requested req m.policy in
          let (m', answer) = handle_policy_set store (some req) m in
          ((validate_policy next ≡ true)
            × (m' ≡ record m { policy = next })
            × (applied answer ≡ some next))
          ⊎ ((validate_policy next ≡ false) × (m' ≡ m) × (answer ≡ rejected "invalid_policy"))
    unfolding handle_policy_set set_policy
    handle_policy_set_lem store req m =
        elim (Bool-cases (validate_policy (requested req m.policy))) [
          | inl ok ↦
              let same = normalize_id _ (validated-IsEnforceable (requested req m.policy) ok) in
              inl (
                ok,
                rw (ok, handle_policy_set) (ap (λ p. record m { policy = p }) same),
                rw (ok, handle_policy_set, same) (applied-share store (requested req m.policy)),
              )
          | inr bad ↦ inr (bad, rw (bad, handle_policy_set) refl, rw (bad, handle_policy_set) refl)
        ]
