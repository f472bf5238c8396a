-- ===== src/Limiter/Stores/RoundTrip.antt =====
-- What one instance saves in the shared stores (internal/limiter/policystore.go and
-- upstreamstore.go) is what another one loads, and what the ones that watch apply.
use rate_limiting_reverse_pr.Prelude.{
  ℕ, ◌/◌, ◌*◌, ◌≤◌, ◌≡◌, Option-cases, inl, inr, refl, ap, subst, ◌∙◌, String, Option, none, some,
  List, [], ◌∷◌, ◌++◌, false, arith,
}
use rate_limiting_reverse_pr.Prelude.Int.{
  ℤ, pos, negsuc, pos_part, ◌*ℤ◌, ◌≤ℤ◌, i64, i64_id, div_trunc,
}
use rate_limiting_reverse_pr.Prelude.Text.{trim_space, is_empty, trim_space-trim_space}
use rate_limiting_reverse_pr.Limiter.Policy.{
  Policy, IsEnforceable, normalize, normalize-IsEnforceable, normalize_id,
}
use rate_limiting_reverse_pr.Limiter.Redis.{Carried-cases, returned}
use rate_limiting_reverse_pr.Limiter.Stores.{
  Client, PolicyDoc, Json, Names, message, policy_of, doc_of, set_and_publish, load_policy,
  save_policy, load_upstream, save_upstream, watch_policies, watch_upstreams,
}

-- Redis as its documentation states it: a GET that is answered gives the last value that was set,
-- and a message that was published goes to the channel's subscribers.
pub record ClientLaws (client : Client) : Type 0 where
  pub value : String → client.State → Option String
  pub sent : String → client.State → List String
  pub get_value :
      (k : String) (s : client.State) (o : Option String)
      → client.get k s ≡ returned o
      → o ≡ value k s
  pub value_set :
      (k v : String) (s : client.State)
      → (client.set k v s).1 ≡ none
      → value k (client.set k v s).0 ≡ some v
  pub sent_set : (c k v : String) (s : client.State) → sent c (client.set k v s).0 ≡ sent c s
  pub value_publish :
      (k c v : String) (s : client.State) → value k (client.publish c v s).0 ≡ value k s
  pub sent_publish :
      (c v : String) (s : client.State)
      → (client.publish c v s).1 ≡ none
      → sent c (client.publish c v s).0 ≡ sent c s ++ v ∷ []

-- A document is read back as it was written.
pub record JsonLaws (json : Json) : Type 0 where
  pub unmarshal_marshal :
      (d : PolicyDoc) (text : String)
      → json.marshal d ≡ returned text
      → json.unmarshal text ≡ returned d

-- A policy with its window cut to whole milliseconds.
unfoldable pub in_whole_ms : Policy → Policy
in_whole_ms p = record p { window = pos (pos_part p.window / 1000000 * 1000000) }

in_whole_ms-IsEnforceable : (p : Policy) → IsEnforceable p → IsEnforceable (in_whole_ms p)
unfolding in_whole_ms
in_whole_ms-IsEnforceable p h = ground arith

ms_pos :
    (n : ℕ)
    → n ≤ 86400000000000
    → i64 (pos (n / 1000000) *ℤ pos 1000000) ≡ pos (n / 1000000 * 1000000)
unfolding ◌*ℤ◌
ms_pos n high = i64_id _ (ground arith) ∙ ground arith

ms_lem :
    (w : ℤ)
    → pos 0 ≤ℤ w
    → w ≤ℤ pos 86400000000000
    → i64 (div_trunc w 1000000 *ℤ pos 1000000) ≡ pos (pos_part w / 1000000 * 1000000)
unfolding div_trunc
ms_lem (pos n) low high = ms_pos n (omega arith)
ms_lem (negsuc n) low high = absurd (omega arith)

-- The document of an enforceable policy stands for the policy in whole milliseconds.
policy_of-doc_of :
    (p : Policy) (now : ℤ) → IsEnforceable p → policy_of (doc_of p now) ≡ in_whole_ms p
unfolding policy_of doc_of in_whole_ms
policy_of-doc_of p now h =
    rw (ms_lem p.window (omega (arith, h)) h.window_high)
      (normalize_id (in_whole_ms p) (in_whole_ms-IsEnforceable p h))

module _ (client : Client) (laws : ClientLaws client) where
  set_and_publish_lem :
      (names : Names) (text : String) (s : client.State)
      → (set_and_publish client names text s).1 ≡ none
      → (laws.value names.key (set_and_publish client names text s).0 ≡ some text)
        × (laws.sent names.channel (set_and_publish client names text s).0
            ≡ laws.sent names.channel s ++ text ∷ [])
  unfolding set_and_publish
  set_and_publish_lem names text s h = elim (Option-cases (client.set names.key text s).1) [
    | inr (err, failed_) ↦ cc (rw (failed_, set_and_publish) at h)
    | inl stored ↦
        elim (Option-cases (client.publish names.channel text (client.set names.key text s).0).1) [
          | inr (err, failed_) ↦ cc (rw (stored, failed_, set_and_publish) at h)
          | inl published ↦
              rw (stored, set_and_publish)
                (rw published (
                  laws.value_publish names.key names.channel text _
                      ∙ laws.value_set names.key text s stored,
                  laws.sent_publish names.channel text _ published
                      ∙ ap (λ l. l ++ text ∷ []) (laws.sent_set names.channel names.key text s),
                ))
        ]
  ]

  -- What a `Save` without an error leaves behind.
  pub record IsSaved (names : Names) (text : String) (s s' : client.State) : Type 0 where
    pub value : laws.value names.key s' ≡ some text
    pub sent : laws.sent names.channel s' ≡ laws.sent names.channel s ++ text ∷ []

  pub set_and_publish-IsSaved :
      (names : Names) (text : String) (s s' : client.State)
      → set_and_publish client names text s ≡ (s', none)
      → IsSaved names text s s'
  set_and_publish-IsSaved names text s s' h =
      let (value, sent) = set_and_publish_lem names text s (ap (λ r. r.1) h) in
      subst (IsSaved names text s) (ap (λ r. r.0) h) (record { value = value; sent = sent })

  module _ (json : Json) (codec : JsonLaws json) where
    save_policy_lem :
        (names : Names) (p : Policy) (now : ℤ) (s s' : client.State)
        → save_policy client json names p now s ≡ (s', none)
        → (text : String) × (json.marshal (doc_of (normalize p) now) ≡ returned text)
          × IsSaved names text s s'
    unfolding save_policy
    save_policy_lem names p now s s' h =
        elim (Carried-cases (json.marshal (doc_of (normalize p) now))) [
          | inl (err, bad) ↦ cc (ap (λ r. r.1) (rw (bad, save_policy) at h))
          | inr (text, good) ↦
              (text, good, set_and_publish-IsSaved names text s s' (rw (good, save_policy) at h))
        ]

    -- After a `Save` that reports no error, under any names and at any instant, every `Load` that
    -- Redis answers gives the normalised policy with its window cut to whole milliseconds, and the
    -- one message that was published makes each instance that watches apply that same policy.
    pub save_policy-load_policy :
        {S : Type 0} (apply : Policy → S → S) (held : S) (names : Names) (p : Policy) (now : ℤ)
        (s s' : client.State) (answer : Option String)
        → save_policy client json names p now s ≡ (s', none)
        → client.get names.key s' ≡ returned answer
        → (load_policy client json names s' ≡ returned (some (in_whole_ms (normalize p))))
          × ((text : String) × (laws.sent names.channel s' ≡ laws.sent names.channel s ++ text ∷ [])
              × (watch_policies json.unmarshal apply (message text ∷ []) held
                  ≡ apply (in_whole_ms (normalize p)) held))
    unfolding load_policy watch_policies
    save_policy-load_policy apply held names p now s s' answer saved answered =
        let (text, written, left) = save_policy_lem names p now s s' saved in
        let found : answer ≡ some text = laws.get_value names.key s' answer answered ∙ left.value in
        let read = codec.unmarshal_marshal (doc_of (normalize p) now) text written in
        let same = policy_of-doc_of (normalize p) now (normalize-IsEnforceable p) in
        (
          rw (answered, load_policy) (rw found (rw (read, same) refl)),
          (text, left.sent, rw (read, watch_policies, same) refl),
        )

  -- After a `Save` of a target that is not blank, without an error, every `Load` that Redis answers
  -- gives the target without the space around it, and the one message that was published makes each
  -- instance that watches apply that same text.
  pub save_upstream-load_upstream :
      {S : Type 0} (apply : String → S → S) (held : S) (names : Names) (url : String)
      (s s' : client.State) (answer : Option String)
      → is_empty (trim_space url) ≡ false
      → save_upstream client names url s ≡ (s', none)
      → client.get names.key s' ≡ returned answer
      → (load_upstream client names s' ≡ returned (some (trim_space url)))
        × (laws.sent names.channel s' ≡ laws.sent names.channel s ++ trim_space url ∷ [])
        × (watch_upstreams apply (message (trim_space url) ∷ []) held ≡ apply (trim_space url) held)
  unfolding load_upstream save_upstream watch_upstreams
  save_upstream-load_upstream apply held names url s s' answer given saved answered =
      let left = set_and_publish-IsSaved names (trim_space url) s s' saved in
      let found : answer ≡ some (trim_space url) =
        laws.get_value names.key s' answer answered ∙ left.value in
      (
        rw (answered, load_upstream) (rw found (rw (trim_space-trim_space url, given) refl)),
        left.sent,
        rw (trim_space-trim_space url, given) refl,
      )
