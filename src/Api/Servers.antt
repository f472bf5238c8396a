-- ===== src/Api/Servers.antt =====
-- internal/api/api.go: the server of the control plane (Options, New), and the handlers that only
-- show something. The types of its parts are parameters, and so is `NewHub`; the logger is not
-- modelled.
use Prim.Native.String.{◌++◌ as join}
use rate_limiting_reverse_pr.Prelude.{
  ◌≡◌, refl, ◌⊎◌, inl, inr, Bool, false, Option-cases, Bool-cases, String, Option, none, some, [],
  ◌∷◌, if◌then◌else◌,
}
use rate_limiting_reverse_pr.Prelude.Int.{ℤ, pos}
use rate_limiting_reverse_pr.Prelude.Dict.{Dict, same_key}
use rate_limiting_reverse_pr.Limiter.Redis.{Carried, returned, failed}

-- The parts that a server is put together from, and `NewHub`.
pub record Parts : Type 1 where
  pub Limiter : Type 0
  pub Metrics : Type 0
  pub Hub : Type 0
  pub PolicyStore : Type 0
  pub Upstream : Type 0
  pub Proxy : Type 0
  pub UpstreamStore : Type 0
  pub new_hub : ℤ → Hub

-- `writeError`: the status and the fields of the document.
unfoldable pub write_error : ℤ → String → String → ℤ × Dict String
write_error status code message = (status, ("error", code) ∷ ("message", message) ∷ [])

-- `handleReady`
abbrev pub ready : ℤ × Dict String
ready = (pos 200, ("status", "ready") ∷ [])

-- The answer to unknown paths of the control plane.
unfoldable pub no_endpoint : String → ℤ × Dict String
unfolding write_error
no_endpoint path = write_error (pos 404) "not_found" (join "no such control-plane endpoint: " path)

-- A version is never empty.
named : (v : String) → same_key (if same_key v "" then "dev" else v) "" ≡ false
named v = elim (Bool-cases (same_key v "")) [ inl e ↦ rw e refl | inr e ↦ rw (e, e) refl ]

module _ (parts : Parts) where
  open parts use {Limiter, Metrics, Hub, PolicyStore, Upstream, Proxy, UpstreamStore, new_hub}

  -- A pointer that may be nil is an option.
  pub record Options : Type 0 where
    pub limiter : Option Limiter
    pub metrics : Option Metrics
    pub hub : Option Hub
    pub store : Option PolicyStore
    pub upstream : Option Upstream
    pub proxy : Option Proxy
    pub upstream_store : Option UpstreamStore
    pub upstream_timeout : ℤ
    pub upstream_editable : Bool
    pub admin_token : String
    pub version : String

  pub record ApiServer : Type 0 where
    pub limiter : Limiter
    pub metrics : Metrics
    pub hub : Hub
    pub store : Option PolicyStore
    pub upstream : Option Upstream
    pub proxy : Option Proxy
    pub upstream_store : Option UpstreamStore
    pub upstream_timeout : ℤ
    pub upstream_editable : Bool
    pub token : String
    pub version : String
    pub started : ℤ

  -- `New` once the limiter and the metrics are there.
  unfoldable pub built : ℤ → Limiter → Metrics → Options → ApiServer
  built now limiter metrics o = record {
    limiter = limiter;
    metrics = metrics;
    hub = elim o.hub [ none ↦ new_hub (pos 8) | some h ↦ h ];
    store = o.store;
    upstream = o.upstream;
    proxy = o.proxy;
    upstream_store = o.upstream_store;
    upstream_timeout = o.upstream_timeout;
    upstream_editable = o.upstream_editable;
    token = o.admin_token;
    version = if same_key o.version "" then "dev" else o.version;
    started = now;
  }

  -- `New`
  unfoldable pub new_server : ℤ → Options → Carried ApiServer
  unfolding built
  new_server now o = elim o.limiter [
    | none ↦ failed "api: limiter is required"
    | some limiter ↦ elim o.metrics [
      | none ↦ failed "api: metrics collector is required"
      | some metrics ↦ returned (built now limiter metrics o)
    ]
  ]

  -- New gives a server exactly if there are a limiter and a collector; its version is never empty.
  pub new_server_lem :
      (now : ℤ) (o : Options)
      → ((s : ApiServer) × (new_server now o ≡ returned s)
          × (o.limiter ≡ some s.limiter)
          × (o.metrics ≡ some s.metrics)
          × (same_key s.version "" ≡ false))
        ⊎ (((o.limiter ≡ none) ⊎ (o.metrics ≡ none))
            × ((err : String) × (new_server now o ≡ failed err)))
  unfolding new_server built
  new_server_lem now o = elim (Option-cases o.limiter) [
    | inl e ↦ inr (inl e, ("api: limiter is required", rw (e, new_server) refl))
    | inr (l, e) ↦ elim (Option-cases o.metrics) [
      | inl f ↦ inr (inr f, ("api: metrics collector is required", simp (e, f, new_server)))
      | inr (m, f) ↦ inl (built now l m o, simp (e, f, new_server), e, f, named o.version)
    ]
  ]
