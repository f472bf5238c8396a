-- ===== src/Config/Windows.antt =====
-- The rate-limit policy that the configuration (config/config.go) stands for, once the limiters
-- normalise it.
use rate_limiting_reverse_pr.Prelude.{◌≡◌, String, Bool, arith, if◌then◌else◌}
use rate_limiting_reverse_pr.Prelude.Int.{ℤ, pos, ◌*ℤ◌, ◌≤ℤ◌, ◌<ℤ◌, ltb_ℤ, i64, bits64}
use rate_limiting_reverse_pr.Limiter.Policy.{normalize, day, second}
use rate_limiting_reverse_pr.Config.{Config, window}
use rate_limiting_reverse_pr.Config.Loading.{IsServiceable}

-- The smaller of two numbers.
abbrev pub at_most : ℤ → ℤ → ℤ
at_most high z = if ltb_ℤ high z then high else z

-- Up to 9223372036 seconds, a serviceable configuration is enforced as it is written, but for the
-- limiters' caps of a million requests and of one day.
pub window_kept :
    (splits : String → Bool) (c : Config)
    → IsServiceable splits c
    → c.window_size_seconds ≤ℤ pos 9223372036
    → normalize (record { limit = c.rate_limit_rps; window = window c }) ≡ record {
      limit = at_most (pos 1000000) c.rate_limit_rps;
      window = at_most day (c.window_size_seconds *ℤ second);
    }
unfolding window normalize i64 bits64 ◌*ℤ◌
window_kept splits c s h = ground (arith, s.rps, s.window)

-- Above that the duration wraps: for 9223372037 up to 18446744073 seconds a configuration that
-- passes the validation has a negative window, and is enforced with a window of one second.
pub window_wraps :
    (splits : String → Bool) (c : Config)
    → IsServiceable splits c
    → pos 9223372037 ≤ℤ c.window_size_seconds
    → c.window_size_seconds ≤ℤ pos 18446744073
    → (window c <ℤ pos 0)
      × ((normalize (record { limit = c.rate_limit_rps; window = window c })).window ≡ second)
unfolding window normalize i64 bits64 ◌*ℤ◌
window_wraps splits c s low high = ground (arith, s.window)
