-- ===== src/Api/Upstreams/Changes.antt =====
-- What a change of the upstream through the control plane (internal/api/api.go) does to this
-- instance and to the fleet.
use rate_limiting_reverse_pr.Prelude.{◌≡◌, ◌⊎◌, inr, true, false, String, none, some, [], ◌∷◌, ◌++◌}
use rate_limiting_reverse_pr.Prelude.Text.{trim_space}
use rate_limiting_reverse_pr.Limiter.Redis.{returned}
use rate_limiting_reverse_pr.Limiter.Stores.{Client, Names}
use rate_limiting_reverse_pr.Limiter.Stores.RoundTrip.{ClientLaws}
use rate_limiting_reverse_pr.Api.Requests.{Body, UpstreamRequest, decode_upstream_request}
use rate_limiting_reverse_pr.Api.Upstreams.{
  Proxying, Server, current_upstream, upstream_view, snapshot_target, UpstreamResponse, locked,
  refused, changed,
}

-- The handler of the proxy serves the upstream that was set last.
pub record ProxyingLaws (proxying : Proxying) : Type 0 where
  pub upstream_set :
      (u : proxying.Upstream) (h : proxying.Handler)
      → proxying.upstream (proxying.set_upstream u h) ≡ some u

module _ (proxying : Proxying) (proxying_laws : ProxyingLaws proxying) (client : Client)
    (laws : ClientLaws client) where
  -- A server that has taken over a new upstream, and told so.
  pub record IsApplied (up : proxying.Upstream) (srv srv' : Server proxying) (s s' : client.State)
      (answer : UpstreamResponse proxying) : Type 0 where
    pub editable : srv.upstream_editable ≡ true
    pub current : current_upstream proxying srv' ≡ some up
    pub target : snapshot_target proxying srv' ≡ proxying.target up
    pub same :
        (srv'.upstream ≡ srv.upstream)
        × (srv'.upstream_store ≡ srv.upstream_store)
        × (srv'.upstream_editable ≡ srv.upstream_editable)
    pub reported :
        ((err : String) × (answer ≡ changed (upstream_view proxying srv') false err))
        ⊎ ((names : Names) × (answer ≡ changed (upstream_view proxying srv') true "")
            × (srv.upstream_store ≡ some names)
            × (laws.value names.key s' ≡ some (trim_space (proxying.raw_url up)))
            × (laws.sent names.channel s'
                ≡ laws.sent names.channel s ++ trim_space (proxying.raw_url up) ∷ []))

  -- What became of a request: refused by 403, refused by 400, or applied.
  abbrev pub IsHandled :
      Body UpstreamRequest
      → Server proxying
      → client.State
      → Server proxying × client.State × UpstreamResponse proxying
      → Type 0
  IsHandled body srv s (srv', s', answer) =
      ((answer ≡ locked)
        × ((srv.upstream_editable ≡ false) ⊎ (srv.proxy ≡ none))
        × (srv' ≡ srv)
        × (s' ≡ s))
      ⊎ ((code : String) × (answer ≡ refused code)
          × (srv.upstream_editable ≡ true)
          × (srv' ≡ srv)
          × (s' ≡ s))
      ⊎ ((url : String) × (up : proxying.Upstream) × (decode_upstream_request body ≡ inr url)
          × (proxying.new_upstream url ≡ returned up)
          × IsApplied up srv srv' s s' answer)
