-- ===== src/Config/Redaction.antt =====
-- What `Redact` of config/config.go hides, and what it does not.
use rate_limiting_reverse_pr.Prelude.{◌≡◌, refl, Bool-cases, inl, inr, String, false}
use rate_limiting_reverse_pr.Prelude.Dict.{same_key}
use rate_limiting_reverse_pr.Config.{Config, redact}

-- Two configurations that differ in nothing but a Redis password, which is there, are redacted to
-- the same value, so the log tells nothing of it; the admin token is logged as it is.
pub redact_lem :
    (c : Config) (p q token : String)
    → same_key p "" ≡ false
    → same_key q "" ≡ false
    → (redact (record c { redis_password = p }) ≡ redact (record c { redis_password = q }))
      × ((redact (record c { admin_token = token })).admin_token ≡ token)
unfolding redact
redact_lem c p q token hp hq = (
  rw (hp, hq) refl,
  elim (Bool-cases (same_key c.redis_password "")) [
    | inl absent ↦ rw absent refl
    | inr given ↦ rw given refl
  ],
)
