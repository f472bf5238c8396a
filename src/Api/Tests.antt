-- ===== src/Api/Tests.antt =====
-- Concrete requests to the control plane.
use rate_limiting_reverse_pr.Prelude.{
  ◌≡◌, refl, All, ◌⊎◌, inr, true, String, Option, none, some, if◌then◌else◌,
}
use rate_limiting_reverse_pr.Prelude.Int.{ℤ, pos, ◌+ℤ◌}
use rate_limiting_reverse_pr.Prelude.Dict.{same_key}
use rate_limiting_reverse_pr.Limiter.Memory.{new_memory}
use rate_limiting_reverse_pr.Limiter.Manager.{Backend, Manager, unavailable, new_manager}
use rate_limiting_reverse_pr.Api.Routes.{IsOpen, register, serve, register_lem}
use rate_limiting_reverse_pr.Api.Auth.{
  in_header, as_bearer, as_password, cut_prefix_fold, Credentials, Presents, guard, guard_lem,
}
use rate_limiting_reverse_pr.Api.Policies.{PolicyRequest, rejected, applied}
use rate_limiting_reverse_pr.Prelude.Text.{trim, trim_space}
use rate_limiting_reverse_pr.Prelude.Strconv.{atoi}
use rate_limiting_reverse_pr.Limiter.Policy.{Policy}
use rate_limiting_reverse_pr.Limiter.Redis.{Carried, returned, failed}
use rate_limiting_reverse_pr.Limiter.Stores.{upstream_names}
use rate_limiting_reverse_pr.Api.Requests.Asking.{Asks}
use rate_limiting_reverse_pr.Api.Requests.Policies.{IsInBounds, IsAskedFor, put_policy_lem}
use rate_limiting_reverse_pr.Api.Requests.{
  Body, UpstreamRequest, is_form, form_request, form_rps, form_window, something_given, checked_url,
  decode_policy_request, decode_upstream_request, put_policy,
}
use rate_limiting_reverse_pr.Api.Upstreams.{Proxying, Server}

-- `curl -H 'Authorization: Bearer s3cret'`
abbrev bearer : Credentials
bearer = record { admin_token = ""; authorization = "Bearer s3cret"; basic_password = none }

abbrev count_up : ℤ → ℤ × ℤ
count_up n = (n +ℤ pos 1, pos 200)

guard_lem_example :
    (Presents same_key (λ s. s) "s3cret" bearer
      × (guard same_key (λ s. s) "s3cret" count_up bearer (pos 0) ≡ count_up (pos 0)))
    ⊎ ((¬ Presents same_key (λ s. s) "s3cret" bearer)
        × (guard same_key (λ s. s) "s3cret" count_up bearer (pos 0) ≡ (pos 0, pos 401)))
guard_lem_example = guard_lem same_key (λ s. s) "s3cret" count_up bearer (pos 0) refl

abbrev no_redis : Backend
no_redis = record { Store = ℤ; call = λ key p now s. (s, unavailable "dial tcp") }

abbrev running : Manager no_redis
running = new_manager no_redis none new_memory (record {
  timeout = pos 200000000;
  failure_threshold = pos 3;
  cooldown = pos 5000000000;
  probe_interval = pos 2000000000;
  policy = record { limit = pos 10; window = pos 1000000000 };
})

abbrev twenty : PolicyRequest ℤ
twenty = record { rps = some (pos 20); window_seconds = none }

-- `curl -d rps=20`
abbrev form_of_twenty : Body (PolicyRequest ℤ)
form_of_twenty = record {
  content_type = "application/x-www-form-urlencoded";
  form = returned (λ name. if same_key name "rps" then "20" else "");
  json = failed "invalid character 'r'";
}

abbrev no_floats : String → Carried ℤ
no_floats text = failed "invalid syntax"

twenty_decoded : decode_policy_request no_floats form_of_twenty ≡ inr twenty
unfolding decode_policy_request is_form form_request form_rps form_window something_given atoi
twenty_decoded = refl

put_policy_lem_example :
    let save : Option (Policy → Option String) = some (λ p. some "timeout") in
    let (m', answer) = put_policy no_floats (λ x. x) no_redis save form_of_twenty running in
    ((req : PolicyRequest ℤ) × (next : Policy) × Asks no_floats form_of_twenty req
      × IsAskedFor (λ x. x) req running.policy next
      × ((IsInBounds next × (m' ≡ record running { policy = next }) × (applied answer ≡ some next))
          ⊎ ((IsInBounds next → ⊥) × (m' ≡ running) × (answer ≡ rejected "invalid_policy"))))
    ⊎ (((req : PolicyRequest ℤ) → Asks no_floats form_of_twenty req → ⊥)
        × (m' ≡ running)
        × (answer ≡ rejected "invalid_request"))
put_policy_lem_example =
    put_policy_lem no_floats (λ x. x) no_redis (some (λ p. some "timeout")) form_of_twenty running

-- An upstream is its URL; the handler holds one.
abbrev plain_proxy : Proxying
plain_proxy = record {
  Upstream = String;
  target = λ u. u;
  raw_url = λ u. u;
  mock = λ u. same_key u "mock://internal";
  new_upstream = λ url. if same_key url "nonsense" then failed "no scheme" else returned url;
  Handler = String;
  upstream = λ h. some h;
  set_upstream = λ u h. u;
}

abbrev edited : Server plain_proxy
edited = record {
  upstream = none;
  proxy = some "mock://internal";
  upstream_store = some (upstream_names "rl:");
  upstream_editable = true;
}

abbrev new_target : Body UpstreamRequest
new_target = record {
  content_type = "application/json";
  form = failed "no form";
  json = returned (record { url = " http://app:8080 " });
}

new_target_decoded : decode_upstream_request new_target ≡ inr "http://app:8080"
unfolding decode_upstream_request is_form checked_url trim_space trim
new_target_decoded = refl

-- A request without credentials.
abbrev stranger : Credentials
stranger = record { admin_token = ""; authorization = ""; basic_password = none }

stranger_has_none : ¬ Presents same_key (λ s. s) "s3cret" stranger
unfolding cut_prefix_fold
stranger_has_none (in_header e) = cc
stranger_has_none (as_bearer start rest front fold back same) = cc
stranger_has_none (as_password e) = cc

register_lem_example :
    All
      (λ route.
        IsOpen route.endpoint
        ⊎ (serve same_key (λ s. s) "s3cret" (λ e. count_up) stranger route (pos 0)
            ≡ (pos 0, pos 401)))
      (register "/_rl/")
register_lem_example =
    register_lem same_key (λ s. s) "s3cret" (λ e. count_up) stranger (pos 0) "/_rl/" refl
      stranger_has_none
