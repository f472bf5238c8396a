-- ===== src/Api/Requests/Asking.antt =====
-- What the body of a request for a change of the policy asks for (`decodePolicyRequest` of
-- internal/api/api.go), described apart from its decoding.
use text.Mathlib.Text.{starts_with}
use rate_limiting_reverse_pr.Prelude.{
  ◌≡◌, ◌≢◌, refl, sym, subst, ◌⊎◌, inl, inr, Bool-cases, Option-cases, true, false, ◌||◌, String,
  Option, none, some, arith,
}
use rate_limiting_reverse_pr.Prelude.Int.{ℤ}
use rate_limiting_reverse_pr.Prelude.Dict.{same_key, same_key→eq, same_key_self, is_some}
use rate_limiting_reverse_pr.Prelude.Strconv.{atoi}
use rate_limiting_reverse_pr.Limiter.Redis.{Carried, Carried-cases, returned}
use rate_limiting_reverse_pr.Api.Policies.{PolicyRequest}
use rate_limiting_reverse_pr.Api.Requests.{
  Body, RequestError-cases, is_form, form_rps, form_window, form_request, something_given,
  decode_policy_request,
}

abbrev pub IsForm : String → Type 0
IsForm ct =
    (starts_with ct "application/x-www-form-urlencoded" ≡ true)
    ⊎ (starts_with ct "multipart/form-data" ≡ true)

-- A field of a form: it is empty and gives nothing, or it is the text of a value.
abbrev pub IsField : {A : Type 0} → (A → Type 0) → String → Option A → Type 0
IsField Reads text field =
    ((text ≡ "") × (field ≡ none)) ⊎ ((a : _) × (text ≢ "") × Reads a × (field ≡ some a))

same_key-false : (v w : String) → same_key v w ≡ false → v ≢ w
same_key-false v w h e = cc (subst (λ u. same_key v u ≡ false) (sym e) h, same_key_self v)

is_form-IsForm : (ct : String) → is_form ct ≡ true → IsForm ct
unfolding is_form
is_form-IsForm ct h = ground arith

IsForm-is_form : (ct : String) → IsForm ct → is_form ct ≡ true
unfolding is_form
IsForm-is_form ct h = ground arith

module _ {Float : Type 0} (parse_float : String → Carried Float) where
  abbrev pub GivesSomething : PolicyRequest Float → Type 0
  GivesSomething req = (is_some req.rps || is_some req.window_seconds) ≡ true

  -- What a body asks for, as a form or as JSON: a limit, a window or both.
  abbrev pub Asks : Body (PolicyRequest Float) → PolicyRequest Float → Type 0
  Asks b req =
      (((get : String → String) × IsForm b.content_type
          × (b.form ≡ returned get)
          × IsField (λ n. atoi (get "rps") ≡ some n) (get "rps") req.rps
          × IsField (λ x. parse_float (get "window_seconds") ≡ returned x) (get "window_seconds")
              req.window_seconds)
        ⊎ ((IsForm b.content_type → ⊥) × (b.json ≡ returned req)))
      × GivesSomething req

  not_empty : (v : String) → v ≢ "" → same_key v "" ≡ false
  not_empty v ne = elim (Bool-cases (same_key v "")) [
    | inl yes_ ↦ absurd (ne (same_key→eq v "" yes_))
    | inr no_ ↦ no_
  ]

  form_rps-IsField :
      (v : String) (o : Option ℤ) → form_rps v ≡ inr o → IsField (λ n. atoi v ≡ some n) v o
  unfolding form_rps
  form_rps-IsField v o e = elim (Bool-cases (same_key v "")) [
    | inl empty ↦ inl (same_key→eq v "" empty, cc (rw (empty, form_rps) at e))
    | inr given ↦ elim (Option-cases (atoi v)) [
      | inl bad ↦ cc (rw (given, bad, form_rps) at e)
      | inr (n, good) ↦
          inr (n, same_key-false v "" given, good, cc (rw (given, good, form_rps) at e))
    ]
  ]

  IsField-form_rps :
      (v : String) (o : Option ℤ) → IsField (λ n. atoi v ≡ some n) v o → form_rps v ≡ inr o
  unfolding form_rps
  IsField-form_rps v o (inl (empty, e)) = rw (empty, e) refl
  IsField-form_rps v o (inr (n, given, good, e)) = rw (not_empty v given, good, e) refl

  form_window-IsField :
      (v : String) (o : Option Float)
      → form_window parse_float v ≡ inr o
      → IsField (λ x. parse_float v ≡ returned x) v o
  unfolding form_window
  form_window-IsField v o e = elim (Bool-cases (same_key v "")) [
    | inl empty ↦ inl (same_key→eq v "" empty, cc (rw (empty, form_window) at e))
    | inr given ↦ elim (Carried-cases (parse_float v)) [
      | inl (err, bad) ↦ cc (rw (given, bad, form_window) at e)
      | inr (x, good) ↦
          inr (x, same_key-false v "" given, good, cc (rw (given, good, form_window) at e))
    ]
  ]

  IsField-form_window :
      (v : String) (o : Option Float)
      → IsField (λ x. parse_float v ≡ returned x) v o
      → form_window parse_float v ≡ inr o
  unfolding form_window
  IsField-form_window v o (inl (empty, e)) = rw (empty, e) refl
  IsField-form_window v o (inr (x, given, good, e)) = rw (not_empty v given, good, e) refl

  something_given-GivesSomething :
      (req req' : PolicyRequest Float)
      → something_given req ≡ inr req'
      → (req ≡ req') × GivesSomething req
  unfolding something_given
  something_given-GivesSomething req req' e =
      elim (Bool-cases (is_some req.rps || is_some req.window_seconds)) [
        | inl given ↦ (cc (rw (given, something_given) at e), given)
        | inr bare ↦ cc (rw (bare, something_given) at e)
      ]

  given_lem : (req : PolicyRequest Float) → GivesSomething req → something_given req ≡ inr req
  unfolding something_given
  given_lem req given = rw given refl

  -- The fields of a form, once both have been read.
  abbrev IsRead : (String → String) → PolicyRequest Float → Type 0
  IsRead get req =
      IsField (λ n. atoi (get "rps") ≡ some n) (get "rps") req.rps
      × IsField (λ x. parse_float (get "window_seconds") ≡ returned x) (get "window_seconds")
          req.window_seconds

  form_request-IsRead :
      (get : String → String) (req : PolicyRequest Float)
      → form_request parse_float get ≡ inr req
      → IsRead get req × GivesSomething req
  unfolding form_request
  form_request-IsRead get req e = elim (RequestError-cases (form_rps (get "rps"))) [
    | inl (err, bad) ↦ cc (rw (bad, form_request) at e)
    | inr (rps, good) ↦ elim (RequestError-cases (form_window parse_float (get "window_seconds"))) [
      | inl (err, bad) ↦ cc (rw (good, bad, form_request) at e)
      | inr (window, fine) ↦
          let both : PolicyRequest Float = record { rps = rps; window_seconds = window } in
          let (same, given) =
            something_given-GivesSomething both req (rw (good, fine, form_request) at e) in
          subst (λ q. IsRead get q × GivesSomething q) same
            (
              (
                form_rps-IsField (get "rps") rps good,
                form_window-IsField (get "window_seconds") window fine,
              ),
              given,
            )
    ]
  ]

  IsRead-form_request :
      (get : String → String) (req : PolicyRequest Float)
      → IsRead get req
      → GivesSomething req
      → form_request parse_float get ≡ inr req
  unfolding form_request
  IsRead-form_request get req (r, w) given =
      rw
        (
          IsField-form_rps (get "rps") req.rps r,
          IsField-form_window (get "window_seconds") req.window_seconds w,
          form_request,
        )
        (given_lem req given)

  pub decode_policy_request-Asks :
      (b : Body (PolicyRequest Float)) (req : PolicyRequest Float)
      → decode_policy_request parse_float b ≡ inr req
      → Asks b req
  unfolding decode_policy_request
  decode_policy_request-Asks b req e = elim (Bool-cases (is_form b.content_type)) [
    | inl form ↦ elim (Carried-cases b.form) [
      | inl (err, bad) ↦ cc (rw (form, bad, decode_policy_request) at e)
      | inr (get, good) ↦
          let ((r, w), given) =
            form_request-IsRead get req (rw (form, good, decode_policy_request) at e) in
          (inl (get, is_form-IsForm b.content_type form, good, r, w), given)
    ]
    | inr other ↦ elim (Carried-cases b.json) [
      | inl (err, bad) ↦ cc (rw (other, bad, decode_policy_request) at e)
      | inr (req', good) ↦
          let (same, given) =
            something_given-GivesSomething req' req
              (rw (other, good, decode_policy_request) at e) in
          subst (Asks b) same
            (inr ((λ f. cc (IsForm-is_form b.content_type f, other)), good), given)
    ]
  ]

  pub Asks-decode_policy_request :
      (b : Body (PolicyRequest Float)) (req : PolicyRequest Float)
      → Asks b req
      → decode_policy_request parse_float b ≡ inr req
  unfolding decode_policy_request
  Asks-decode_policy_request b req (inl (get, form, good, r, w), given) =
      rw (IsForm-is_form b.content_type form, good) (IsRead-form_request get req (r, w) given)
  Asks-decode_policy_request b req (inr (other, good), given) =
      elim (Bool-cases (is_form b.content_type)) [
        | inl form ↦ absurd (other (is_form-IsForm b.content_type form))
        | inr json ↦ rw (json, good) (given_lem req given)
      ]
