-- ===== src/Api/Routes.antt =====
-- internal/api/api.go: the routes of the control plane (Register). What http.ServeMux does with a
-- pattern is not modelled.
use Prim.Native.String.{◌++◌ as join}
use rate_limiting_reverse_pr.Prelude.{
  ◌≡◌, refl, ◌⊎◌, inl, inr, Bool, true, false, String, List, [], ◌∷◌, All, if◌then◌else◌,
}
use rate_limiting_reverse_pr.Prelude.Int.{ℤ, pos}
use rate_limiting_reverse_pr.Prelude.Dict.{same_key}
use rate_limiting_reverse_pr.Prelude.Text.{is_empty}
use rate_limiting_reverse_pr.Api.Auth.{Credentials, Presents, guard, guard_lem}

-- The handlers.
pub data Endpoint : Type 0 where
  serves_health serves_ready serves_stats serves_stream not_found : Endpoint
  shows_policy changes_policy shows_upstream changes_upstream : Endpoint
  lists_clients clears_clients : Endpoint

-- `strings.TrimSuffix(s, "/")`
unfoldable pub trim_slash : String → String
trim_slash String.[] = ""
trim_slash (String.◌∷◌ c rest) =
    if is_empty rest
    then (if same_key (String.◌∷◌ c "") "/" then "" else String.◌∷◌ c "")
    else String.◌∷◌ c (trim_slash rest)

-- A call of `HandleFunc`, and whether its handler is wrapped in `guard`.
pub record Registration : Type 0 where
  pub pattern : String
  pub guarded : Bool
  pub endpoint : Endpoint

abbrev pub open_ : String → Endpoint → Registration
open_ pattern endpoint = record { pattern = pattern; guarded = false; endpoint = endpoint }

abbrev pub closed_ : String → Endpoint → Registration
closed_ pattern endpoint = record { pattern = pattern; guarded = true; endpoint = endpoint }

-- `Register`
unfoldable pub register : String → List Registration
unfolding trim_slash
register prefix =
    let p = trim_slash prefix in
    open_ (join "GET " (join p "/api/health")) serves_health
    ∷ open_ (join "GET " (join p "/healthz")) serves_health
    ∷ open_ (join "GET " (join p "/readyz")) serves_ready
    ∷ closed_ (join "GET " (join p "/api/stats")) serves_stats
    ∷ closed_ (join "GET " (join p "/api/stream")) serves_stream
    ∷ closed_ (join "GET " (join p "/api/policy")) shows_policy
    ∷ closed_ (join "PUT " (join p "/api/policy")) changes_policy
    ∷ closed_ (join "POST " (join p "/api/policy")) changes_policy
    ∷ closed_ (join "GET " (join p "/api/clients")) lists_clients
    ∷ closed_ (join "POST " (join p "/api/clients/reset")) clears_clients
    ∷ closed_ (join "GET " (join p "/api/upstream")) shows_upstream
    ∷ closed_ (join "PUT " (join p "/api/upstream")) changes_upstream
    ∷ closed_ (join "POST " (join p "/api/upstream")) changes_upstream
    ∷ open_ (join p "/api/") not_found
    ∷ []

-- The handlers that answer without a token.
abbrev pub IsOpen : Endpoint → Type 0
IsOpen e = (e ≡ serves_health) ⊎ (e ≡ serves_ready) ⊎ (e ≡ not_found)

module _ (equal_fold : String → String → Bool) (trim_space : String → String) where
  -- A request to a route, as `guard` lets it through.
  unfoldable pub serve :
      {State : Type 0}
      → String
      → (Endpoint → State → State × ℤ)
      → Credentials
      → Registration
      → State
      → State × ℤ
  unfolding guard
  serve token handlers r route s =
      if route.guarded
      then guard equal_fold trim_space token (handlers route.endpoint) r s
      else handlers route.endpoint s

  -- A route that wraps its handler unless that is an open one.
  abbrev IsWrapped : Registration → Type 0
  IsWrapped route = (route.guarded ≡ true) ⊎ IsOpen route.endpoint

  refused :
      {State : Type 0} (token : String) (handlers : Endpoint → State → State × ℤ) (r : Credentials)
      (s : State) (routes : List Registration)
      → same_key token "" ≡ false
      → (¬ Presents equal_fold trim_space token r)
      → All IsWrapped routes
      → All
          (λ route. IsOpen route.endpoint ⊎ (serve token handlers r route s ≡ (s, pos 401)))
          routes
  unfolding serve
  refused token handlers r s [] set stranger w = tt
  refused token handlers r s (route ∷ routes) set stranger w = (
    elim w.0 [
      | inr free ↦ inl free
      | inl wrapped ↦
          elim (guard_lem equal_fold trim_space token (handlers route.endpoint) r s set) [
            | inl (shown, run) ↦ absurd (stranger shown)
            | inr (hidden, run) ↦ inr (rw (wrapped, serve) run)
          ]
    ],
    refused token handlers r s routes set stranger w.1,
  )

  register-IsWrapped : (prefix : String) → All IsWrapped (register prefix)
  unfolding register
  register-IsWrapped prefix =
      let health = inr (inl refl) in
      (
        health,
        (
          health,
          (
            inr (inr (inl refl)),
            (
              inl refl,
              (
                inl refl,
                (
                  inl refl,
                  (
                    inl refl,
                    (
                      inl refl,
                      (
                        inl refl,
                        (inl refl, (inl refl, (inl refl, (inl refl, (inr (inr (inr refl)), tt))))),
                      ),
                    ),
                  ),
                ),
              ),
            ),
          ),
        ),
      )

  -- With a token configured, under every prefix: a request that does not present the token is
  -- answered by 401 and changes nothing on every route, but for those of health and readiness and
  -- the answer to unknown paths.
  pub register_lem :
      {State : Type 0} (token : String) (handlers : Endpoint → State → State × ℤ) (r : Credentials)
      (s : State) (prefix : String)
      → same_key token "" ≡ false
      → (¬ Presents equal_fold trim_space token r)
      → All
          (λ route. IsOpen route.endpoint ⊎ (serve token handlers r route s ≡ (s, pos 401)))
          (register prefix)
  register_lem token handlers r s prefix set stranger =
      refused token handlers r s (register prefix) set stranger (register-IsWrapped prefix)
