-- ===== src/Config/Loading.antt =====
-- What a configuration that `Load` of config/config.go accepts promises to the rest of the program.
use Prim.Native.String.{◌++◌ as join}
use text.Mathlib.Text.{starts_with}
use text.Mathlib.TextEquality.{eq_iff}
use text.Mathlib.TextLemmas.{cons-append, nil-append}
use rate_limiting_reverse_pr.Prelude.{
  ℕ, ◌≡◌, ◌≢◌, refl, ap, ◌∙◌, ◌⊎◌, inl, inr, ◌↔◌, Bool, Bool-cases, Option-cases, true, false, ◌==◌,
  String, Option, none, List, [], ◌∷◌, All, arith,
}
use rate_limiting_reverse_pr.Prelude.Int.{ℤ, pos, ◌≤ℤ◌}
use rate_limiting_reverse_pr.Prelude.Dict.{same_key, same_key→eq}
use rate_limiting_reverse_pr.Prelude.Text.{trim_space, is_empty, ends_with, ends_with-trim}
use rate_limiting_reverse_pr.Config.{
  Config, ConfigError, Env, contains, bad_parts, find_bad, validate_admin_prefix, normalize_prefix,
  trim_slashes, admin_separate, addr, validate_admin_addr, validate, read_config, load,
}

-- A prefix that is empty, or a literal path for `http.ServeMux`.
pub record IsLiteral (prefix : String) : Type 0 where
  pub rooted : starts_with prefix "/" ≡ true
  pub literal : All (λ bad. contains prefix bad ≡ false) bad_parts
  pub no_dashboard : contains prefix "/dashboard" ≡ false

find_bad_iff :
    (prefix : String) (parts : List String)
    → (find_bad prefix parts ≡ none) ↔ All (λ bad. contains prefix bad ≡ false) parts
unfolding find_bad
find_bad_iff prefix [] = (λ _. tt, λ _. refl)
find_bad_iff prefix (bad ∷ parts) = elim (Bool-cases (contains prefix bad)) [
  | inl hit ↦ (λ h. cc (rw (hit, find_bad) at h), λ a. cc (hit, a.0))
  | inr miss ↦ (
    λ h. (miss, (find_bad_iff prefix parts).0 (rw (miss, find_bad) at h)),
    λ a. rw (miss, find_bad) ((find_bad_iff prefix parts).1 a.1),
  )
]

-- The tests of `validateAdminPrefix` after the first, for a prefix that is not empty.
checks_iff :
    (prefix : String)
    → same_key prefix "" ≡ false
    → (validate_admin_prefix prefix ≡ none) ↔ IsLiteral prefix
unfolding validate_admin_prefix
checks_iff prefix filled = elim (Bool-cases (starts_with prefix "/")) [
  | inr bare ↦ (λ h. cc (rw (filled, bare, validate_admin_prefix) at h), λ l. cc (l.rooted, bare))
  | inl rooted ↦ elim (Option-cases (find_bad prefix bad_parts)) [
    | inr (err, found) ↦ (
      λ h. cc (rw (filled, rooted, found, validate_admin_prefix) at h),
      λ l. cc ((find_bad_iff prefix bad_parts).1 l.literal, found),
    )
    | inl clean ↦ elim (Bool-cases (contains prefix "/dashboard")) [
      | inl page ↦ (
        λ h. cc (rw (filled, rooted, clean, page, validate_admin_prefix) at h),
        λ l. cc (l.no_dashboard, page),
      )
      | inr free ↦ (
        λ _. record {
          rooted = rooted;
          literal = (find_bad_iff prefix bad_parts).0 clean;
          no_dashboard = free;
        },
        λ l. rw (filled, rooted, clean, free, validate_admin_prefix) refl,
      )
    ]
  ]
]

-- `validateAdminPrefix` accepts exactly the empty prefix and the literal ones.
pub validate_admin_prefix_iff :
    (prefix : String) → (validate_admin_prefix prefix ≡ none) ↔ ((prefix ≡ "") ⊎ IsLiteral prefix)
unfolding validate_admin_prefix
validate_admin_prefix_iff prefix = elim (Bool-cases (same_key prefix "")) [
  | inl empty ↦
      (λ _. inl (same_key→eq prefix "" empty), λ _. rw (empty, validate_admin_prefix) refl)
  | inr filled ↦ (
    λ h. inr ((checks_iff prefix filled).0 h),
    λ o. elim o [
      | inl e ↦ cc ((eq_iff prefix "").1 e, filled)
      | inr l ↦ (checks_iff prefix filled).1 l
    ],
  )
]

-- A control plane of its own has an address of its own.
abbrev pub IsAddressed : (String → Bool) → Config → Type 0
IsAddressed splits c =
    (admin_separate c ≡ false)
    ⊎ ((splits (trim_space c.admin_addr) ≡ true) × (trim_space c.admin_addr ≢ addr c))

-- What a validated configuration promises.
pub record IsServiceable (splits : String → Bool) (c : Config) : Type 0 where
  pub port : (pos 1 ≤ℤ c.port) × (c.port ≤ℤ pos 65535)
  pub rps : pos 1 ≤ℤ c.rate_limit_rps
  pub window : pos 1 ≤ℤ c.window_size_seconds
  pub redis_timeout : pos 1 ≤ℤ c.redis_timeout
  pub threshold : pos 1 ≤ℤ c.failure_threshold
  pub metrics : (pos 10 ≤ℤ c.metrics_window) × (c.metrics_window ≤ℤ pos 3600)
  pub upstream : c.upstream_url ≢ ""
  pub prefix : (c.admin_prefix ≡ "") ⊎ IsLiteral c.admin_prefix
  pub address : IsAddressed splits c

module _ (splits : String → Bool) where
  address_iff : (c : Config) → (validate_admin_addr splits c ≡ none) ↔ IsAddressed splits c
  unfolding validate_admin_addr
  address_iff c = elim (Bool-cases (admin_separate c)) [
    | inr shared ↦ (λ _. inl shared, λ _. rw (shared, validate_admin_addr) refl)
    | inl separate ↦ elim (Bool-cases (splits (trim_space c.admin_addr))) [
      | inr bad ↦ (
        λ h. cc (rw (separate, bad, validate_admin_addr) at h),
        λ o. elim o [ inl s ↦ cc (separate, s) | inr a ↦ cc (a.0, bad) ],
      )
      | inl good ↦ elim (Bool-cases (same_key (trim_space c.admin_addr) (addr c))) [
        | inl same ↦ (
          λ h. cc (rw (separate, good, same, validate_admin_addr) at h),
          λ o. elim o [
            | inl s ↦ cc (separate, s)
            | inr a ↦ absurd (a.1 (same_key→eq (trim_space c.admin_addr) (addr c) same))
          ],
        )
        | inr other ↦ (
          λ _. inr (good, λ e. cc ((eq_iff (trim_space c.admin_addr) (addr c)).1 e, other)),
          λ _. rw (separate, good, other, validate_admin_addr) refl,
        )
      ]
    ]
  ]

  -- The tests of `Validate` that stand in it.
  record PassesTests (c : Config) : Type 0 where
    port : (pos 1 ≤ℤ c.port) × (c.port ≤ℤ pos 65535)
    rps : pos 1 ≤ℤ c.rate_limit_rps
    window : pos 1 ≤ℤ c.window_size_seconds
    redis_timeout : pos 1 ≤ℤ c.redis_timeout
    threshold : pos 1 ≤ℤ c.failure_threshold
    metrics : (pos 10 ≤ℤ c.metrics_window) × (c.metrics_window ≤ℤ pos 3600)
    upstream : same_key c.upstream_url "" ≡ false
    prefix : validate_admin_prefix c.admin_prefix ≡ none
    address : validate_admin_addr splits c ≡ none

  validate-PassesTests : (c : Config) → validate splits c ≡ none → PassesTests c
  unfolding validate
  validate-PassesTests c h = ground arith

  PassesTests-validate : (c : Config) → PassesTests c → validate splits c ≡ none
  unfolding validate
  PassesTests-validate c h = ground arith

  -- `Validate` accepts exactly the serviceable configurations.
  pub validate_iff : (c : Config) → (validate splits c ≡ none) ↔ IsServiceable splits c
  validate_iff c = (
    λ h.
        let t = validate-PassesTests c h in
        record {
          port = t.port;
          rps = t.rps;
          window = t.window;
          redis_timeout = t.redis_timeout;
          threshold = t.threshold;
          metrics = t.metrics;
          upstream = λ e. cc ((eq_iff c.upstream_url "").1 e, t.upstream);
          prefix = (validate_admin_prefix_iff c.admin_prefix).0 t.prefix;
          address = (address_iff c).0 t.address;
        },
    λ s. PassesTests-validate c (record {
      port = s.port;
      rps = s.rps;
      window = s.window;
      redis_timeout = s.redis_timeout;
      threshold = s.threshold;
      metrics = s.metrics;
      upstream = elim (Bool-cases (same_key c.upstream_url "")) [
        | inl empty ↦ absurd (s.upstream (same_key→eq c.upstream_url "" empty))
        | inr filled ↦ filled
      ];
      prefix = (validate_admin_prefix_iff c.admin_prefix).1 s.prefix;
      address = (address_iff c).1 s.address;
    }),
  )

abbrev pub slash : ℕ → Bool
slash c = c == 47

ends_with-join :
    (v : String) → is_empty v ≡ false → ends_with slash (join "/" v) ≡ ends_with slash v
ends_with-join v h =
    let rooted : join "/" v ≡ String.◌∷◌ "/" v =
      cons-append "/" "" v ∙ ap (String.◌∷◌ "/") (nil-append v) in
    rw rooted (rw h refl)

-- A prefix does not end with a slash, so a route is the prefix followed by its path.
pub ends_with-normalize_prefix : (v : String) → ends_with slash (normalize_prefix v) ≡ false
unfolding normalize_prefix
ends_with-normalize_prefix v = elim (Bool-cases (is_empty (trim_slashes (trim_space v)))) [
  | inl empty ↦ rw (empty, normalize_prefix) refl
  | inr filled ↦
      rw (filled, normalize_prefix)
        (ends_with-join (trim_slashes (trim_space v)) filled ∙ ends_with-trim slash (trim_space v))
]

module _ (parse_duration : String → Option ℤ) (splits : String → Bool) where
  -- `Load` returns the configuration that it has read exactly when that one is serviceable: every
  -- number in its range, an upstream, an admin prefix that is empty or a literal path, and, for a
  -- control plane of its own, an address that is no other than host and port and not the public
  -- one. Its admin prefix never ends with a slash. Otherwise it returns an error.
  pub load_lem :
      (env : Env)
      → let c = read_config parse_duration env in
        ((load parse_duration splits env ≡ inr c)
          × IsServiceable splits c
          × (ends_with slash c.admin_prefix ≡ false))
        ⊎ ((err : ConfigError) × (load parse_duration splits env ≡ inl err)
            × (¬ IsServiceable splits c))
  unfolding load read_config
  load_lem env =
      let c = read_config parse_duration env in
      elim (Option-cases (validate splits c)) [
        | inl accepted ↦ inl (
          rw (accepted, load) refl,
          (validate_iff splits c).0 accepted,
          ends_with-normalize_prefix _,
        )
        | inr (err, refused) ↦
            inr (err, rw (refused, load) refl, λ s. cc ((validate_iff splits c).1 s, refused))
      ]
