-- ===== src/Api/Upstreams.antt =====
-- internal/api/api.go: the upstream target as the control plane shows and changes it. The package
-- proxy is a parameter, as are the Redis client and the bodies' decoding by the standard library;
-- the log is not modelled. A handler of the proxy is a value that `SetUpstream` replaces.
pub mod Changes
use rate_limiting_reverse_pr.Prelude.{
  ◌≡◌, refl, ap, ◌∙◌, ◌⊎◌, inl, inr, Bool, Bool-cases, Option-cases, true, false, ◌&&◌, String,
  Option, none, some, List, [], ◌∷◌, ◌++◌, arith, if◌then◌else◌,
}
use rate_limiting_reverse_pr.Prelude.Dict.{is_some}
use rate_limiting_reverse_pr.Prelude.Text.{trim_space}
use rate_limiting_reverse_pr.Limiter.Redis.{Carried, Carried-cases, returned, failed}
use rate_limiting_reverse_pr.Limiter.Stores.{Client, Names, save_upstream}
use rate_limiting_reverse_pr.Limiter.Stores.RoundTrip.{ClientLaws, IsSaved, set_and_publish-IsSaved}
use rate_limiting_reverse_pr.Api.Requests.{
  Body, RequestError, RequestError-cases, UpstreamRequest, decode_upstream_request,
}

-- What the control plane uses of the package proxy: an upstream with its three fields, `NewUpstream`
-- at the server's timeout, and the handler with its current upstream.
pub record Proxying : Type 1 where
  pub Upstream : Type 0
  pub target : Upstream → String
  pub raw_url : Upstream → String
  pub mock : Upstream → Bool
  pub new_upstream : String → Carried Upstream
  pub Handler : Type 0
  pub upstream : Handler → Option Upstream
  pub set_upstream : Upstream → Handler → Handler

pub record UpstreamView : Type 0 where
  pub target : String
  pub raw_url : String
  pub mock : Bool
  pub editable : Bool

module _ (proxying : Proxying) where
  open proxying use {Upstream, Handler, new_upstream, set_upstream}

  -- The fields of `Server` that concern the upstream.
  pub record Server : Type 0 where
    pub upstream : Option Upstream
    pub proxy : Option Handler
    pub upstream_store : Option Names
    pub upstream_editable : Bool

  unfoldable pub current_upstream : Server → Option Upstream
  current_upstream s = elim s.proxy [
    | none ↦ s.upstream
    | some h ↦ elim (proxying.upstream h) [ none ↦ s.upstream | some u ↦ some u ]
  ]

  -- `upstreamView`
  unfoldable pub upstream_view : Server → UpstreamView
  unfolding current_upstream
  upstream_view s =
      let editable = s.upstream_editable && is_some s.proxy in
      elim (current_upstream s) [
        | none ↦ record { target = ""; raw_url = ""; mock = false; editable = editable }
        | some u ↦ record {
          target = proxying.target u;
          raw_url = proxying.raw_url u;
          mock = proxying.mock u;
          editable = editable;
        }
      ]

  -- The target in the document of `Snapshot`.
  unfoldable pub snapshot_target : Server → String
  snapshot_target s =
      let static : String = elim s.upstream [
        | none ↦ "unconfigured"
        | some u ↦ proxying.target u
      ] in
      elim s.proxy [
        | none ↦ static
        | some h ↦ elim (proxying.upstream h) [ none ↦ static | some u ↦ proxying.target u ]
      ]

  -- The answers: 403, 400 with its code, or 200 with the view, whether the change was shared, and
  -- the error of sharing.
  pub data UpstreamResponse : Type 0 where
    locked : UpstreamResponse
    refused : String → UpstreamResponse
    changed : UpstreamView → Bool → String → UpstreamResponse

  module _ (client : Client) where
    -- Sharing a target: with no store, with a save that fails, and with one that works.
    unfoldable pub share_upstream :
        Option Names → String → client.State → client.State × Bool × String
    unfolding save_upstream
    share_upstream none url s = (s, false, "")
    share_upstream (some names) url s =
        let (s', saved) = save_upstream client names url s in
        elim saved [ none ↦ (s', true, "") | some err ↦ (s', false, err) ]

    -- `handleUpstreamSet` from `SetUpstream` on.
    unfoldable pub apply_upstream :
        Upstream → Handler → Server → client.State → Server × client.State × UpstreamResponse
    unfolding share_upstream upstream_view
    apply_upstream up h srv s =
        let srv' : Server = record srv { proxy = some (set_upstream up h) } in
        let (s', shared, share_error) = share_upstream srv.upstream_store (proxying.raw_url up) s in
        (srv', s', changed (upstream_view srv') shared share_error)

    -- `handleUpstreamSet`
    unfoldable pub handle_upstream_set :
        Body UpstreamRequest → Server → client.State → Server × client.State × UpstreamResponse
    unfolding apply_upstream decode_upstream_request
    handle_upstream_set body srv s = elim srv.proxy [
      | none ↦ (srv, s, locked)
      | some h ↦ elim srv.upstream_editable [
        | false ↦ (srv, s, locked)
        | true ↦ elim (decode_upstream_request body) [
          | inl err ↦ (srv, s, refused "invalid_request")
          | inr url ↦ elim (new_upstream url) [
            | failed err ↦ (srv, s, refused "invalid_upstream")
            | returned up ↦ apply_upstream up h srv s
          ]
        ]
      ]
    ]
