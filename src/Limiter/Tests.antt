-- ===== src/Limiter/Tests.antt =====
-- Concrete policies.
use rate_limiting_reverse_pr.Prelude.{◌≡◌, refl}
use rate_limiting_reverse_pr.Prelude.Int.{pos, negsuc}
use rate_limiting_reverse_pr.Limiter.Policy.{Policy, normalize, second}

abbrev unusable : Policy
unusable = record { limit = negsuc 4; window = pos 10 }

unusable_normalized : normalize unusable ≡ record { limit = pos 1; window = second }
unfolding normalize
unusable_normalized = refl
