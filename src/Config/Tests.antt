-- ===== src/Config/Tests.antt =====
-- Concrete environments.
use rate_limiting_reverse_pr.Prelude.{
  ◌≡◌, refl, ◌⊎◌, inl, inr, Bool, true, false, String, Option, none, some, arith, if◌then◌else◌,
}
use rate_limiting_reverse_pr.Prelude.Int.{ℤ, pos, ◌*ℤ◌, ◌<ℤ◌, i64}
use rate_limiting_reverse_pr.Prelude.Dict.{same_key}
use rate_limiting_reverse_pr.Prelude.Text.{ends_with, trim, trim_space}
use rate_limiting_reverse_pr.Prelude.Strconv.{atoi, show}
use rate_limiting_reverse_pr.Limiter.Policy.{normalize, day, second}
use rate_limiting_reverse_pr.Config.{
  Config, ConfigError, Env, normalize_prefix, validate_admin_prefix, prefix_with, env_duration,
  read_config, validate, load, window,
}
use rate_limiting_reverse_pr.Config.Loading.{IsServiceable, slash, validate_iff, load_lem}
use rate_limiting_reverse_pr.Config.Windows.{at_most, window_kept, window_wraps}

-- No text is a duration with a unit, and every text splits into host and port.
abbrev no_units : String → Option ℤ
no_units s = none

abbrev any_address : String → Bool
any_address s = true

abbrev with : String → String → Env
with name v key = if same_key key name then some v else none

shown : show (pos 65535) ≡ "65535"
unfolding show
shown = refl

prefix : normalize_prefix " /ops/limits/ " ≡ "/ops/limits"
unfolding normalize_prefix trim_space trim
prefix = refl

wildcard : validate_admin_prefix "/{tenant}" ≡ some (prefix_with "{")
unfolding validate_admin_prefix
wildcard = refl

bare_seconds :
    env_duration no_units (with "READ_TIMEOUT" " 30 ") "READ_TIMEOUT" (pos 1) ≡ pos 30000000000
unfolding env_duration trim_space trim atoi i64 ◌*ℤ◌
bare_seconds = refl

abbrev long_window : Config
long_window = read_config no_units (with "WINDOW_SIZE_SECONDS" "9223372037")

long_window-IsServiceable : IsServiceable any_address long_window
unfolding validate read_config atoi trim_space trim
long_window-IsServiceable = (validate_iff any_address long_window).0 refl

window_wraps_example :
    (window long_window <ℤ pos 0)
    × ((normalize
          (record { limit = long_window.rate_limit_rps; window = window long_window })).window
        ≡ second)
unfolding read_config atoi trim_space trim
window_wraps_example =
    window_wraps any_address long_window long_window-IsServiceable (omega arith) (omega arith)

abbrev usual : Config
usual = read_config no_units (with "WINDOW_SIZE_SECONDS" "60")

usual-IsServiceable : IsServiceable any_address usual
unfolding validate read_config atoi trim_space trim
usual-IsServiceable = (validate_iff any_address usual).0 refl

window_kept_example :
    normalize (record { limit = usual.rate_limit_rps; window = window usual }) ≡ record {
      limit = at_most (pos 1000000) usual.rate_limit_rps;
      window = at_most day (usual.window_size_seconds *ℤ second);
    }
unfolding read_config atoi trim_space trim
window_kept_example = window_kept any_address usual usual-IsServiceable (omega arith)

load_lem_example :
    ((load no_units any_address (with "PORT" "0") ≡ inr (read_config no_units (with "PORT" "0")))
      × IsServiceable any_address (read_config no_units (with "PORT" "0"))
      × (ends_with slash (read_config no_units (with "PORT" "0")).admin_prefix ≡ false))
    ⊎ ((err : ConfigError) × (load no_units any_address (with "PORT" "0") ≡ inl err)
        × (¬ IsServiceable any_address (read_config no_units (with "PORT" "0"))))
load_lem_example = load_lem no_units any_address (with "PORT" "0")
