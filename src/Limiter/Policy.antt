-- ===== src/Limiter/Policy.antt =====
-- internal/limiter/limiter.go: policies, decisions, and what normalising a policy means.
-- A duration is an integer of nanoseconds, an instant one of nanoseconds since the Unix epoch.
use rate_limiting_reverse_pr.Prelude.{
  ◌≡◌, subst, ◌↔◌, Bool, true, false, ◌&&◌, String, arith, if◌then◌else◌,
}
use rate_limiting_reverse_pr.Prelude.Int.{ℤ, pos, ◌-ℤ◌, ◌≤ℤ◌, ltb_ℤ, eqb_ℤ, sat64, eq_of_parts}

abbrev pub backend_redis : String
backend_redis = "redis"

abbrev pub backend_memory : String
backend_memory = "memory"

abbrev pub millisecond : ℤ
millisecond = pos 1000000

abbrev pub second : ℤ
second = pos 1000000000

abbrev pub day : ℤ
day = pos 86400000000000

pub record Policy : Type 0 where
  pub limit : ℤ
  pub window : ℤ

unfoldable pub normalize : Policy → Policy
normalize p =
    let l : ℤ = if ltb_ℤ p.limit (pos 1) then pos 1 else p.limit in
    let l' : ℤ = if ltb_ℤ (pos 1000000) l then pos 1000000 else l in
    let w : ℤ = if ltb_ℤ p.window millisecond then second else p.window in
    let w' : ℤ = if ltb_ℤ day w then day else w in record { limit = l'; window = w' }

unfoldable pub equal : Policy → Policy → Bool
equal p o = eqb_ℤ p.limit o.limit && eqb_ℤ p.window o.window

pub record Decision : Type 0 where
  pub allowed : Bool
  pub limit : ℤ
  pub window : ℤ
  pub used : ℤ
  pub remaining : ℤ
  pub reset_at : ℤ
  pub retry_after : ℤ
  pub backend : String

-- `resetAt.Sub(now)`, and a negative delay set to 0.
unfoldable pub delay : ℤ → ℤ → ℤ
delay reset_at now =
    let retry = sat64 (reset_at -ℤ now) in if ltb_ℤ retry (pos 0) then pos 0 else retry

unfoldable pub deny : String → Policy → ℤ → ℤ → ℤ → Decision
unfolding delay
deny backend p used reset_at now = record {
  allowed = false;
  limit = p.limit;
  window = p.window;
  used = used;
  remaining = pos 0;
  reset_at = reset_at;
  retry_after = delay reset_at now;
  backend = backend;
}

-- The policies that the limiters can enforce.
pub record IsEnforceable (p : Policy) : Type 0 where
  pub limit_low : pos 1 ≤ℤ p.limit
  pub limit_high : p.limit ≤ℤ pos 1000000
  pub window_low : millisecond ≤ℤ p.window
  pub window_high : p.window ≤ℤ day

-- Whatever policy comes in, the normalised one is enforceable.
pub normalize-IsEnforceable : (p : Policy) → IsEnforceable (normalize p)
unfolding normalize
normalize-IsEnforceable p = ground arith

-- An enforceable policy is left as it is.
pub normalize_id : (p : Policy) → IsEnforceable p → normalize p ≡ p
unfolding normalize
normalize_id p h = ground arith

-- Normalising changes a policy exactly when it is not enforceable, and its result always is.
pub normalize_lem :
    (p : Policy) → IsEnforceable (normalize p) × ((normalize p ≡ p) ↔ IsEnforceable p)
normalize_lem p = (
  normalize-IsEnforceable p,
  (λ e. subst IsEnforceable e (normalize-IsEnforceable p), normalize_id p),
)

-- Two policies are `Equal` exactly when they are the same policy.
pub equal_iff : (p o : Policy) → (equal p o ≡ true) ↔ (p ≡ o)
unfolding equal
equal_iff p o = (
  λ h. ground (arith, eq_of_parts p.limit o.limit, eq_of_parts p.window o.window),
  λ e. ground arith,
)

-- A delay is never negative, and is the exact distance to an instant that is not past.
pub delay_nonneg : (t now : ℤ) → pos 0 ≤ℤ delay t now
unfolding delay
delay_nonneg t now = ground arith
