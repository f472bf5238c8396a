-- ===== src/Limiter/Stores/InMemory.antt =====
-- A Redis in memory that keeps the laws that internal/limiter/policystore.go and upstreamstore.go
-- rely on.
use rate_limiting_reverse_pr.Prelude.{
  refl, String, Option, none, some, List, [], ◌∷◌, ◌++◌, if◌then◌else◌,
}
use rate_limiting_reverse_pr.Prelude.Dict.{same_key, same_key_self}
use rate_limiting_reverse_pr.Limiter.Redis.{returned}
use rate_limiting_reverse_pr.Limiter.Stores.{Client}
use rate_limiting_reverse_pr.Limiter.Stores.RoundTrip.{ClientLaws}

abbrev pub Keyspace : Type 0
Keyspace = (String → Option String) × (String → List String)

abbrev pub in_memory : Client
in_memory = record {
  State = Keyspace;
  get = λ k s. returned (s.0 k);
  set = λ k v s. ((λ j. if same_key k j then some v else s.0 j, s.1), none);
  publish = λ c v s. ((s.0, λ d. if same_key c d then s.1 d ++ v ∷ [] else s.1 d), none);
}

pub in_memory_laws : ClientLaws in_memory
in_memory_laws = record {
  value = λ k s. s.0 k;
  sent = λ c s. s.1 c;
  get_value = λ k s o h. cc;
  value_set = λ k v s h. rw (same_key_self k) refl;
  sent_set = λ c k v s. refl;
  value_publish = λ k c v s. refl;
  sent_publish = λ c v s h. rw (same_key_self c) refl;
}

abbrev pub fresh_server : Keyspace
fresh_server = (λ k. none, λ c. [])
