-- ===== src/Dashboard.antt =====
-- internal/dashboard/dashboard.go: where the page is mounted. The page itself, an embedded file that
-- net/http serves, is not modelled.
pub mod Patterns
pub mod Mounting
use Prim.Native.String.{◌++◌ as join}
use rate_limiting_reverse_pr.Prelude.{String, List, [], ◌∷◌}
use rate_limiting_reverse_pr.Api.Routes.{trim_slash}

-- `Path`
abbrev pub path : String
path = "/dashboard"

-- `Register`: the patterns that get the page.
unfoldable pub page_patterns : String → List String
unfolding trim_slash
page_patterns prefix =
    let p = trim_slash prefix in
    join "GET " (join p path) ∷ join "GET " (join p (join path "/")) ∷ []
