-- ===== src/Api/Clients/Tests.antt =====
-- A concrete reset.
use rate_limiting_reverse_pr.Prelude.{ℕ, ◌≡◌, refl, true, String, some, [], ◌∷◌}
use rate_limiting_reverse_pr.Prelude.Int.{pos}
use rate_limiting_reverse_pr.Prelude.Dict.{lookup}
use rate_limiting_reverse_pr.Prelude.Strconv.{atoi}
use rate_limiting_reverse_pr.Limiter.Memory.{new_memory}
use rate_limiting_reverse_pr.Limiter.Redis.Keys.TwoKeys.{two_keys, two_keys_laws, first_rounds}
use rate_limiting_reverse_pr.Metrics.Collector.{new_collector}
use rate_limiting_reverse_pr.Api.Clients.{Tracking, clients_limit, handle_clients_reset}
use rate_limiting_reverse_pr.Api.Clients.Clearing.{IsReset, handle_clients_reset_lem}

limits : clients_limit "200" ≡ pos 200
unfolding clients_limit atoi
limits = refl

too_many : clients_limit "501" ≡ pos 50
unfolding clients_limit atoi
too_many = refl

-- Two clients in each place.
abbrev busy : Tracking two_keys
busy = record {
  clients = record ((new_collector (pos 0) (pos 60) (pos 0)).clients) {
    entries = ("a", 0) ∷ ("b", 1) ∷ [];
  };
  memory = record new_memory { entries = ("a", 0) ∷ ("b", 1) ∷ [] };
  redis = some (true, true);
}

handle_clients_reset_lem_example :
    (t : Tracking two_keys) × (n : ℕ) × (note : String) × (handle_clients_reset two_keys "rl:" 2
        busy
      ≡ some (t, n, note))
    × (t.clients.entries ≡ [])
    × (t.memory.entries ≡ [])
    × IsReset two_keys "rl:" two_keys_laws busy.redis t.redis note
unfolding lookup
handle_clients_reset_lem_example =
    handle_clients_reset_lem two_keys "rl:" two_keys_laws 2 busy (refl, (refl, tt))
      (refl, (refl, tt)) (λ s e. first_rounds 200 (two_keys_laws.size s))
