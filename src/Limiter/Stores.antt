-- ===== src/Limiter/Stores.antt =====
-- internal/limiter/policystore.go and internal/limiter/upstreamstore.go: what the instances of the
-- proxy share through Redis besides the counts. The Redis client and encoding/json are parameters;
-- an instant is an argument, and the log is not modelled. A `Watch` is a run over what its `select`
-- receives, in that order.
pub mod RoundTrip
pub mod InMemory
mod Tests
use Prim.Native.String.{◌++◌ as join}
use rate_limiting_reverse_pr.Prelude.{String, Option, none, some, List, [], ◌∷◌, if◌then◌else◌}
use rate_limiting_reverse_pr.Prelude.Int.{ℤ, pos, ◌*ℤ◌, i64, div_trunc}
use rate_limiting_reverse_pr.Prelude.Text.{trim_space, is_empty}
use rate_limiting_reverse_pr.Limiter.Policy.{Policy, normalize}
use rate_limiting_reverse_pr.Limiter.Redis.{Carried, returned, failed, unix_milli}

-- GET, with none for `redis.Nil`, SET without expiry, and PUBLISH; the last two return an error, if
-- there is one.
pub record Client : Type 1 where
  pub State : Type 0
  pub get : String → State → Carried (Option String)
  pub set : String → String → State → State × Option String
  pub publish : String → String → State → State × Option String

pub record PolicyDoc : Type 0 where
  pub limit : ℤ
  pub window_ms : ℤ
  pub update_at : ℤ

-- `json.Marshal` and `json.Unmarshal` at `policyDoc`.
pub record Json : Type 0 where
  pub marshal : PolicyDoc → Carried String
  pub unmarshal : String → Carried PolicyDoc

-- What a subscription brings: a message, the end of the channel, or the end of the context.
pub data Incoming : Type 0 where
  message : String → Incoming
  channel_closed : Incoming
  context_done : Incoming

-- `fmt.Errorf("%w: %v", ErrUnavailable, err)`
abbrev pub unavailable_error : String → String
unavailable_error err = join "limiter: backend unavailable: " err

-- The names of a store in Redis.
pub record Names : Type 0 where
  pub key : String
  pub channel : String

-- `NewPolicyStore` and `NewUpstreamStore`
unfoldable pub policy_names : String → Names
policy_names prefix = record { key = join prefix "policy"; channel = join prefix "policy:updates" }

unfoldable pub upstream_names : String → Names
upstream_names prefix = record {
  key = join prefix "upstream";
  channel = join prefix "upstream:updates";
}

-- The policy that a document stands for.
unfoldable pub policy_of : PolicyDoc → Policy
policy_of d = normalize (record { limit = d.limit; window = i64 (d.window_ms *ℤ pos 1000000) })

-- The document of a policy, at an instant.
unfoldable pub doc_of : Policy → ℤ → PolicyDoc
doc_of p now = record {
  limit = p.limit;
  window_ms = div_trunc p.window 1000000;
  update_at = unix_milli now;
}

module _ (client : Client) where
  open client use {State, get, set, publish}

  -- SET, then PUBLISH, unless SET failed.
  unfoldable pub set_and_publish : Names → String → State → State × Option String
  set_and_publish names text s =
      let (stored, set_error) = set names.key text s in
      let (sent, publish_error) = publish names.channel text stored in
      elim set_error [
        | some err ↦ (stored, some (unavailable_error err))
        | none ↦ elim publish_error [
          | some err ↦ (sent, some (unavailable_error err))
          | none ↦ (sent, none)
        ]
      ]

  -- `UpstreamStore.Load`: none stands for ok = false.
  unfoldable pub load_upstream : Names → State → Carried (Option String)
  load_upstream names s = elim (get names.key s) [
    | failed err ↦ failed (unavailable_error err)
    | returned none ↦ returned none
    | returned (some v) ↦
        if is_empty (trim_space v) then returned none else returned (some (trim_space v))
  ]

  -- `UpstreamStore.Save`
  unfoldable pub save_upstream : Names → String → State → State × Option String
  unfolding set_and_publish
  save_upstream names url s = set_and_publish names (trim_space url) s

  module _ (json : Json) where
    open json use {marshal, unmarshal}

    -- `PolicyStore.Load`
    unfoldable pub load_policy : Names → State → Carried (Option Policy)
    unfolding policy_of
    load_policy names s = elim (get names.key s) [
      | failed err ↦ failed (unavailable_error err)
      | returned none ↦ returned none
      | returned (some raw) ↦ elim (unmarshal raw) [
        | failed err ↦ failed (join "policy store: corrupt document: " err)
        | returned doc ↦ returned (some (policy_of doc))
      ]
    ]

    -- `PolicyStore.Save`
    unfoldable pub save_policy : Names → Policy → ℤ → State → State × Option String
    unfolding doc_of set_and_publish
    save_policy names p now s = elim (marshal (doc_of (normalize p) now)) [
      | failed err ↦ (s, some (join "policy store: marshal: " err))
      | returned text ↦ set_and_publish names text s
    ]

-- `PolicyStore.Watch` and `UpstreamStore.Watch`: a message that is malformed, or blank, is ignored.
module _ {S : Type 0} where
  unfoldable pub watch_policies :
      (String → Carried PolicyDoc) → (Policy → S → S) → List Incoming → S → S
  unfolding policy_of
  watch_policies unmarshal apply [] s = s
  watch_policies unmarshal apply (context_done ∷ rest) s = s
  watch_policies unmarshal apply (channel_closed ∷ rest) s = s
  watch_policies unmarshal apply (message text ∷ rest) s =
      watch_policies unmarshal apply rest
        (elim (unmarshal text) [ failed err ↦ s | returned doc ↦ apply (policy_of doc) s ])

  unfoldable pub watch_upstreams : (String → S → S) → List Incoming → S → S
  watch_upstreams apply [] s = s
  watch_upstreams apply (context_done ∷ rest) s = s
  watch_upstreams apply (channel_closed ∷ rest) s = s
  watch_upstreams apply (message text ∷ rest) s =
      watch_upstreams apply rest
        (if is_empty (trim_space text) then s else apply (trim_space text) s)
