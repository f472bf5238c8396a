-- ===== src/Dashboard/Mounting.antt =====
-- The patterns that internal/dashboard/dashboard.go and internal/api/api.go register on one mux. A
-- pattern that is registered twice makes http.ServeMux panic.
mod Tests
use Prim.Native.String.{◌++◌ as join}
use text.Mathlib.TextLemmas.{nil-append}
use rate_limiting_reverse_pr.Prelude.{
  ◌≡◌, refl, sym, ap, true, String, List, [], ◌∷◌, ◌++◌, map, AreDistinct, subst,
}
use rate_limiting_reverse_pr.Api.Routes.{Registration, register, trim_slash}
use rate_limiting_reverse_pr.Dashboard.{page_patterns}
use rate_limiting_reverse_pr.Dashboard.Patterns.{Spec, at, apart_in, apart_in-AreDistinct}

-- Everything that the two parts register.
unfoldable pub all_patterns : String → List String
unfolding register page_patterns
all_patterns prefix = map (λ r. r.pattern) (register prefix) ++ page_patterns prefix

abbrev specs : List Spec
specs =
    ("GET ", "/api/health")
    ∷ ("GET ", "/healthz")
    ∷ ("GET ", "/readyz")
    ∷ ("GET ", "/api/stats")
    ∷ ("GET ", "/api/stream")
    ∷ ("GET ", "/api/policy")
    ∷ ("PUT ", "/api/policy")
    ∷ ("POST ", "/api/policy")
    ∷ ("GET ", "/api/clients")
    ∷ ("POST ", "/api/clients/reset")
    ∷ ("GET ", "/api/upstream")
    ∷ ("PUT ", "/api/upstream")
    ∷ ("POST ", "/api/upstream")
    ∷ ("", "/api/")
    ∷ ("GET ", "/dashboard")
    ∷ ("GET ", "/dashboard/")
    ∷ []

specs_apart : apart_in specs ≡ true
specs_apart = refl

all_patterns-specs : (prefix : String) → map (at (trim_slash prefix)) specs ≡ all_patterns prefix
unfolding all_patterns register page_patterns
all_patterns-specs prefix = rw (nil-append (join (trim_slash prefix) "/api/")) refl

-- Under every prefix, the patterns of the control plane and of the dashboard are all different, so
-- that registering both on one mux does not panic for a pattern that is there twice.
pub all_patterns-AreDistinct : (prefix : String) → AreDistinct (all_patterns prefix)
all_patterns-AreDistinct prefix =
    subst AreDistinct (all_patterns-specs prefix)
      (apart_in-AreDistinct (trim_slash prefix) specs specs_apart)
