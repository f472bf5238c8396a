-- ===== src/Api/Requests/Policies.antt =====
-- Requests to change the policy (`handlePolicySet` of internal/api/api.go), against a description of
-- what they ask for.
use rate_limiting_reverse_pr.Prelude.{
  ◌≡◌, refl, ◌⊎◌, inl, inr, true, false, String, Option, none, some, arith,
}
use rate_limiting_reverse_pr.Prelude.Int.{ℤ, pos, ◌≤ℤ◌}
use rate_limiting_reverse_pr.Limiter.Redis.{Carried}
use rate_limiting_reverse_pr.Limiter.Policy.{Policy, second}
use rate_limiting_reverse_pr.Limiter.Manager.{Backend, Manager}
use rate_limiting_reverse_pr.Api.Policies.{
  PolicyRequest, rejected, hour, requested, validate_policy, applied, handle_policy_set,
  handle_policy_set_lem,
}
use rate_limiting_reverse_pr.Api.Requests.{
  Body, RequestError-cases, decode_policy_request, put_policy,
}
use rate_limiting_reverse_pr.Api.Requests.Asking.{
  Asks, decode_policy_request-Asks, Asks-decode_policy_request,
}

-- The limits of the control plane: 1 to 1,000,000 requests in 1 second to 1 hour.
abbrev pub IsInBounds : Policy → Type 0
IsInBounds p =
    (pos 1 ≤ℤ p.limit) × (p.limit ≤ℤ pos 1000000) × (second ≤ℤ p.window) × (p.window ≤ℤ hour)

module _ {Float : Type 0} (to_duration : Float → ℤ) where
  -- A policy is the one that a request asks for: what it gives, and the rest as before.
  abbrev pub IsAskedFor : PolicyRequest Float → Policy → Policy → Type 0
  IsAskedFor req old next =
      (((n : ℤ) × (req.rps ≡ some n) × (next.limit ≡ n))
        ⊎ ((req.rps ≡ none) × (next.limit ≡ old.limit)))
      × (((x : Float) × (req.window_seconds ≡ some x) × (next.window ≡ to_duration x))
          ⊎ ((req.window_seconds ≡ none) × (next.window ≡ old.window)))

  requested-IsAskedFor :
      (rps : Option ℤ) (window : Option Float) (old : Policy)
      → let req : PolicyRequest Float = record { rps = rps; window_seconds = window } in
        IsAskedFor req old (requested to_duration req old)
  unfolding requested
  requested-IsAskedFor none none old = (inr (refl, refl), inr (refl, refl))
  requested-IsAskedFor (some n) none old = (inl (n, refl, refl), inr (refl, refl))
  requested-IsAskedFor none (some x) old = (inr (refl, refl), inl (x, refl, refl))
  requested-IsAskedFor (some n) (some x) old = (inl (n, refl, refl), inl (x, refl, refl))

valid-IsInBounds : (p : Policy) → validate_policy p ≡ true → IsInBounds p
unfolding validate_policy
valid-IsInBounds p h = ground arith

invalid-IsInBounds : (p : Policy) → validate_policy p ≡ false → IsInBounds p → ⊥
unfolding validate_policy
invalid-IsInBounds p h b = ground arith

module _ {Float : Type 0} (parse_float : String → Carried Float) (to_duration : Float → ℤ)
    (primary : Backend) where
  -- A body asks for nothing, or for the policy of the manager with the limit and the window that it
  -- gives, as a form or as JSON. If it asks for a policy of 1 to 1,000,000 requests in 1 second to
  -- 1 hour, that is the manager's policy afterwards, nothing else has changed, and the answer reports
  -- it, whether sharing it with the fleet works, fails or is not configured. If it asks for another
  -- policy, it is answered by 400 as an invalid policy, and if it asks for nothing, by 400 as an invalid
  -- request; then nothing changes.
  pub put_policy_lem :
      (store : Option (Policy → Option String)) (body : Body (PolicyRequest Float))
      (m : Manager primary)
      → let (m', answer) = put_policy parse_float to_duration primary store body m in
        ((req : PolicyRequest Float) × (next : Policy) × Asks parse_float body req
          × IsAskedFor to_duration req m.policy next
          × ((IsInBounds next × (m' ≡ record m { policy = next }) × (applied answer ≡ some next))
              ⊎ ((IsInBounds next → ⊥) × (m' ≡ m) × (answer ≡ rejected "invalid_policy"))))
        ⊎ (((req : PolicyRequest Float) → Asks parse_float body req → ⊥)
            × (m' ≡ m)
            × (answer ≡ rejected "invalid_request"))
  unfolding put_policy handle_policy_set
  put_policy_lem store body m = elim (RequestError-cases (decode_policy_request parse_float body)) [
    | inl (err, bad) ↦ inr (
      λ req asks. cc (bad, Asks-decode_policy_request parse_float body req asks),
      rw (bad, put_policy) refl,
      rw (bad, put_policy) refl,
    )
    | inr (req, good) ↦
        let next = requested to_duration req m.policy in
        inl (
          req,
          next,
          decode_policy_request-Asks parse_float body req good,
          requested-IsAskedFor to_duration req.rps req.window_seconds m.policy,
          elim (handle_policy_set_lem to_duration primary store req m) [
            | inl (valid, changed, reported) ↦ inl (
              valid-IsInBounds next valid,
              rw (good, put_policy) changed,
              rw (good, put_policy) reported,
            )
            | inr (invalid, same, refused) ↦ inr (
              invalid-IsInBounds next invalid,
              rw (good, put_policy) same,
              rw (good, put_policy) refused,
            )
          ],
        )
  ]
