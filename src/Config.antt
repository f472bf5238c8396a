-- ===== src/Config.antt =====
-- config/config.go: the configuration from the environment. The environment is a function of the
-- variable's name (`os.LookupEnv`); `time.ParseDuration` and `net.SplitHostPort` are parameters.
-- Durations are integers of nanoseconds. The texts of the errors are constructors here.
pub mod Loading
pub mod Windows
pub mod Redaction
mod Tests
use Prim.Native.String.{◌++◌ as join}
use text.Mathlib.Text.{starts_with, find?}
use rate_limiting_reverse_pr.Prelude.{
  ◌⊎◌, inl, inr, Bool, true, false, not, ◌&&◌, ◌||◌, String, Option, none, some, List, [], ◌∷◌,
  ◌==◌, if◌then◌else◌,
}
use rate_limiting_reverse_pr.Prelude.Int.{ℤ, pos, ◌*ℤ◌, leb_ℤ, ltb_ℤ, i64}
use rate_limiting_reverse_pr.Prelude.Dict.{same_key, is_some}
use rate_limiting_reverse_pr.Prelude.Text.{trim, trim_space, is_empty}
use rate_limiting_reverse_pr.Prelude.Strconv.{atoi, parse_bool, show, equal_fold}

pub record Config : Type 0 where
  pub port : ℤ
  pub read_timeout : ℤ
  pub write_timeout : ℤ
  pub idle_timeout : ℤ
  pub shutdown_timeout : ℤ
  pub redis_addr : String
  pub redis_password : String
  pub redis_db : ℤ
  pub redis_timeout : ℤ
  pub redis_prefix : String
  pub rate_limit_rps : ℤ
  pub window_size_seconds : ℤ
  pub failure_threshold : ℤ
  pub fallback_cooldown : ℤ
  pub probe_interval : ℤ
  pub cleanup_interval : ℤ
  pub upstream_url : String
  pub upstream_timeout : ℤ
  pub trust_proxy_headers : Bool
  pub upstream_editable : Bool
  pub dashboard_enabled : Bool
  pub metrics_window : ℤ
  pub admin_prefix : String
  pub admin_addr : String
  pub admin_token : String
  pub log_level : String

abbrev pub default_admin_prefix : String
default_admin_prefix = "/_rl"

-- `strings.Trim(v, "/")`
abbrev pub trim_slashes : String → String
trim_slashes v = trim (λ c. c == 47) v

unfoldable pub normalize_prefix : String → String
normalize_prefix v =
    let inner = trim_slashes (trim_space v) in if is_empty inner then "" else join "/" inner

unfoldable pub admin_separate : Config → Bool
admin_separate c = not (same_key (trim_space c.admin_addr) "")

-- `Addr`
unfoldable pub addr : Config → String
addr c = join ":" (show c.port)

unfoldable pub admin_url : Config → String → String
unfolding admin_separate
admin_url c path =
    let host =
      if starts_with c.admin_addr ":" then join "localhost" c.admin_addr else c.admin_addr in
    if admin_separate c
    then join "http://" (join host path)
    else join "http://localhost:" (join (show c.port) (join c.admin_prefix path))

-- `Window`
unfoldable pub window : Config → ℤ
window c = i64 (c.window_size_seconds *ℤ pos 1000000000)

unfoldable pub redis_enabled : Config → Bool
redis_enabled c = not (same_key c.redis_addr "") && not (equal_fold c.redis_addr "disabled")

-- `strings.Contains`
abbrev pub contains : String → String → Bool
contains s t = is_some (find? s t)

abbrev pub bad_parts : List String
bad_parts = "{" ∷ "}" ∷ "?" ∷ "#" ∷ ".." ∷ " " ∷ "\t" ∷ "//" ∷ []

-- Why a configuration is rejected.
pub data ConfigError : Type 0 where
  bad_port bad_rps bad_window bad_redis_timeout bad_threshold bad_metrics_window : ConfigError
  no_upstream prefix_without_slash prefix_with_dashboard : ConfigError
  prefix_with : String → ConfigError
  bad_admin_addr admin_addr_is_public : ConfigError

-- The loop over the parts that a prefix must not contain.
unfoldable pub find_bad : String → List String → Option ConfigError
find_bad prefix [] = none
find_bad prefix (bad ∷ rest) =
    if contains prefix bad then some (prefix_with bad) else find_bad prefix rest

unfoldable pub validate_admin_prefix : String → Option ConfigError
unfolding find_bad
validate_admin_prefix prefix =
    if same_key prefix ""
    then none
    else if not (starts_with prefix "/")
    then some prefix_without_slash
    else elim (find_bad prefix bad_parts) [
      | some err ↦ some err
      | none ↦ if contains prefix "/dashboard" then some prefix_with_dashboard else none
    ]

-- A copy that is meant to be safe to log.
unfoldable pub redact : Config → Config
redact c = if same_key c.redis_password "" then c else record c { redis_password = "***" }

-- The environment readers.
abbrev pub Env : Type 0
Env = String → Option String

unfoldable pub env_string : Env → String → String → String
env_string env key default = elim (env key) [
  | none ↦ default
  | some v ↦ if same_key (trim_space v) "" then default else trim_space v
]

unfoldable pub env_int : Env → String → ℤ → ℤ
env_int env key default = elim (env key) [
  | none ↦ default
  | some v ↦ elim (atoi (trim_space v)) [ none ↦ default | some n ↦ n ]
]

unfoldable pub env_bool : Env → String → Bool → Bool
env_bool env key default = elim (env key) [
  | none ↦ default
  | some v ↦ elim (parse_bool (trim_space v)) [ none ↦ default | some b ↦ b ]
]

module _ (splits_host_port : String → Bool) where
  unfoldable pub validate_admin_addr : Config → Option ConfigError
  unfolding admin_separate addr
  validate_admin_addr c =
      if not (admin_separate c)
      then none
      else if not (splits_host_port (trim_space c.admin_addr))
      then some bad_admin_addr
      else if same_key (trim_space c.admin_addr) (addr c)
      then some admin_addr_is_public
      else none

  unfoldable pub validate : Config → Option ConfigError
  unfolding validate_admin_prefix validate_admin_addr
  validate c =
      if ltb_ℤ c.port (pos 1) || ltb_ℤ (pos 65535) c.port
      then some bad_port
      else if ltb_ℤ c.rate_limit_rps (pos 1)
      then some bad_rps
      else if ltb_ℤ c.window_size_seconds (pos 1)
      then some bad_window
      else if leb_ℤ c.redis_timeout (pos 0)
      then some bad_redis_timeout
      else if ltb_ℤ c.failure_threshold (pos 1)
      then some bad_threshold
      else if ltb_ℤ c.metrics_window (pos 10) || ltb_ℤ (pos 3600) c.metrics_window
      then some bad_metrics_window
      else if same_key c.upstream_url ""
      then some no_upstream
      else elim (validate_admin_prefix c.admin_prefix) [
        | some err ↦ some err
        | none ↦ validate_admin_addr c
      ]

module _ (parse_duration : String → Option ℤ) where
  unfoldable pub read_duration : String → ℤ → ℤ
  read_duration v default = elim (parse_duration v) [
    | some d ↦ d
    | none ↦ elim (atoi v) [ some n ↦ i64 (n *ℤ pos 1000000000) | none ↦ default ]
  ]

  unfoldable pub env_duration : Env → String → ℤ → ℤ
  unfolding read_duration
  env_duration env key default = elim (env key) [
    | none ↦ default
    | some v ↦ if same_key (trim_space v) "" then default else read_duration (trim_space v) default
  ]

  -- `Load` before the validation.
  unfoldable pub read_config : Env → Config
  unfolding env_string env_int env_bool env_duration normalize_prefix
  read_config env = record {
    port = env_int env "PORT" (pos 8080);
    read_timeout = env_duration env "READ_TIMEOUT" (pos 15000000000);
    write_timeout = env_duration env "WRITE_TIMEOUT" (pos 0);
    idle_timeout = env_duration env "IDLE_TIMEOUT" (pos 60000000000);
    shutdown_timeout = env_duration env "SHUTDOWN_TIMEOUT" (pos 10000000000);
    redis_addr = env_string env "REDIS_ADDR" "localhost:6379";
    redis_password = env_string env "REDIS_PASSWORD" "";
    redis_db = env_int env "REDIS_DB" (pos 0);
    redis_timeout = env_duration env "REDIS_TIMEOUT" (pos 200000000);
    redis_prefix = env_string env "REDIS_PREFIX" "rl:";
    rate_limit_rps = env_int env "RATE_LIMIT_RPS" (pos 10);
    window_size_seconds = env_int env "WINDOW_SIZE_SECONDS" (pos 1);
    failure_threshold = env_int env "FAILURE_THRESHOLD" (pos 3);
    fallback_cooldown = env_duration env "FALLBACK_COOLDOWN" (pos 5000000000);
    probe_interval = env_duration env "PROBE_INTERVAL" (pos 2000000000);
    cleanup_interval = env_duration env "CLEANUP_INTERVAL" (pos 30000000000);
    upstream_url = env_string env "UPSTREAM_URL" "mock://internal";
    upstream_timeout = env_duration env "UPSTREAM_TIMEOUT" (pos 30000000000);
    trust_proxy_headers = env_bool env "TRUST_PROXY_HEADERS" false;
    upstream_editable = env_bool env "UPSTREAM_EDITABLE" false;
    dashboard_enabled = env_bool env "DASHBOARD_ENABLED" true;
    metrics_window = env_int env "METRICS_WINDOW_SECONDS" (pos 60);
    admin_prefix = normalize_prefix (env_string env "ADMIN_PREFIX" default_admin_prefix);
    admin_addr = env_string env "ADMIN_ADDR" "";
    admin_token = env_string env "ADMIN_TOKEN" "";
    log_level = env_string env "LOG_LEVEL" "info";
  }

  module _ (splits_host_port : String → Bool) where
    -- `Load`
    unfoldable pub load : Env → ConfigError ⊎ Config
    unfolding read_config validate
    load env = elim (validate splits_host_port (read_config env)) [
      | some err ↦ inl err
      | none ↦ inr (read_config env)
    ]
