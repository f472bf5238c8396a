-- ===== src/Api/Requests.antt =====
-- internal/api/api.go: the bodies of the requests that change the policy and the upstream, as a form
-- or as JSON. What net/http makes of the form, encoding/json of the body and `strconv.ParseFloat` of
-- a text are parameters; an error is a constructor.
pub mod Asking
pub mod Policies
use text.Mathlib.Text.{starts_with}
use rate_limiting_reverse_pr.Prelude.{
  ◌≡◌, refl, ap, subst, ◌⊎◌, inl, inr, Bool, Bool-cases, true, ◌||◌, String, Option, none, some,
  if◌then◌else◌,
}
use rate_limiting_reverse_pr.Prelude.Int.{ℤ}
use rate_limiting_reverse_pr.Prelude.Dict.{same_key, is_some}
use rate_limiting_reverse_pr.Prelude.Text.{trim_space, is_empty}
use rate_limiting_reverse_pr.Prelude.Strconv.{atoi}
use rate_limiting_reverse_pr.Limiter.Redis.{Carried, Carried-cases, returned, failed}
use rate_limiting_reverse_pr.Limiter.Policy.{Policy}
use rate_limiting_reverse_pr.Limiter.Manager.{Backend, Manager}
use rate_limiting_reverse_pr.Api.Policies.{
  PolicyRequest, Response, rejected, requested, validate_policy, applied, handle_policy_set,
  handle_policy_set_lem,
}

-- A request as the decoders see it: the header, `ParseForm` with the lookup in its form, and what
-- the decoder of JSON makes of the body.
pub record Body (A : Type 0) : Type 0 where
  pub content_type : String
  pub form : Carried (String → String)
  pub json : Carried A

pub data RequestError : Type 0 where
  bad_form bad_json bad_window_seconds : String → RequestError
  bad_rps nothing_given no_url : RequestError

unfoldable pub is_form : String → Bool
is_form ct =
    starts_with ct "application/x-www-form-urlencoded" || starts_with ct "multipart/form-data"

-- The field `rps` of a form.
unfoldable pub form_rps : String → RequestError ⊎ Option ℤ
form_rps v =
    if same_key v "" then inr none else elim (atoi v) [ none ↦ inl bad_rps | some n ↦ inr (some n) ]

-- The body of a change of the upstream.
pub record UpstreamRequest : Type 0 where
  pub url : String

unfoldable pub checked_url : String → RequestError ⊎ String
checked_url url = if is_empty (trim_space url) then inl no_url else inr (trim_space url)

unfoldable pub decode_upstream_request : Body UpstreamRequest → RequestError ⊎ String
unfolding is_form checked_url
decode_upstream_request b =
    if is_form b.content_type
    then elim b.form [ failed err ↦ inl (bad_form err) | returned get ↦ checked_url (get "url") ]
    else elim b.json [ failed err ↦ inl (bad_json err) | returned req ↦ checked_url req.url ]

-- What has been decoded, if anything.
abbrev pub decoded : {A : Type 0} → RequestError ⊎ A → Option A
decoded (inl err) = none
decoded (inr a) = some a

pub RequestError-cases :
    {A : Type 0} (r : RequestError ⊎ A)
    → ((err : RequestError) × (r ≡ inl err)) ⊎ ((a : A) × (r ≡ inr a))
RequestError-cases (inl err) = inl (err, refl)
RequestError-cases (inr a) = inr (a, refl)

module _ {Float : Type 0} where
  -- The test that both ways end with.
  unfoldable pub something_given : PolicyRequest Float → RequestError ⊎ PolicyRequest Float
  something_given req =
      if is_some req.rps || is_some req.window_seconds then inr req else inl nothing_given

module _ {Float : Type 0} (parse_float : String → Carried Float) where
  -- The field `window_seconds` of a form.
  unfoldable pub form_window : String → RequestError ⊎ Option Float
  form_window v = if same_key v "" then inr none else elim (parse_float v) [
    | failed err ↦ inl (bad_window_seconds err)
    | returned f ↦ inr (some f)
  ]

  unfoldable pub form_request : (String → String) → RequestError ⊎ PolicyRequest Float
  unfolding form_rps form_window something_given
  form_request get = elim (form_rps (get "rps")) [
    | inl err ↦ inl err
    | inr rps ↦ elim (form_window (get "window_seconds")) [
      | inl err ↦ inl err
      | inr window ↦ something_given (record { rps = rps; window_seconds = window })
    ]
  ]

  unfoldable pub decode_policy_request :
      Body (PolicyRequest Float) → RequestError ⊎ PolicyRequest Float
  unfolding is_form form_request something_given
  decode_policy_request b =
      if is_form b.content_type
      then elim b.form [ failed err ↦ inl (bad_form err) | returned get ↦ form_request get ]
      else elim b.json [ failed err ↦ inl (bad_json err) | returned req ↦ something_given req ]

  module _ (to_duration : Float → ℤ) (primary : Backend) where
    -- `handlePolicySet` on a request.
    unfoldable pub put_policy :
        Option (Policy → Option String)
        → Body (PolicyRequest Float)
        → Manager primary
        → Manager primary × Response
    unfolding decode_policy_request handle_policy_set
    put_policy store body m =
        handle_policy_set to_duration primary store (decoded (decode_policy_request body)) m
