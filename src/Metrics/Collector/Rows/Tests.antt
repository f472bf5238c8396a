-- ===== src/Metrics/Collector/Rows/Tests.antt =====
-- A concrete history of the table of clients: two events of one client, a sweep and one more event.
use rate_limiting_reverse_pr.Prelude.{Bool, true, false, String, List, [], ◌∷◌, arith}
use rate_limiting_reverse_pr.Prelude.Int.{ℤ, pos, ◌-ℤ◌, ◌+ℤ◌, i64}
use rate_limiting_reverse_pr.Prelude.Dict.{lookup, store, delete}
use rate_limiting_reverse_pr.Metrics.Collector.{
  Event, new_collector, record_client, enforce_client_cap, count_client, fresh_stat, sweep,
  sweep_clients,
}
use rate_limiting_reverse_pr.Metrics.Collector.Rows.{Visit, seen, swept, Matches, row}
use rate_limiting_reverse_pr.Metrics.Collector.Rows.Histories.{
  visit, visit_all, visit_all_logs, HasRoom, rows_match,
}

abbrev answered : Bool → Event
answered allowed = record {
  key = "10.0.0.7";
  kind = "ip";
  allowed = allowed;
  status = pos 200;
  limit = pos 10;
  remaining = pos 9;
  reset_at = pos 1764154001000000000;
  backend = "redis";
  latency = pos 1500000;
}

abbrev visits : List (ℤ × Visit)
visits =
    (pos 1764154000000000000, seen (answered true))
    ∷ (pos 1764154000500000000, seen (answered false))
    ∷ (pos 1764154001000000000, swept)
    ∷ (pos 1764154900000000000, swept)
    ∷ (pos 1764154900000000000, seen (answered true))
    ∷ []

abbrev unsorted : List (String × ℤ) → List (String × ℤ)
unsorted all = all

visits-HasRoom :
    HasRoom unsorted visits
      (new_collector (pos 1764154000000000000) (pos 60) (pos 300000000000)).clients
unfolding visit new_collector record_client enforce_client_cap lookup store delete sweep
    sweep_clients count_client fresh_stat ◌-ℤ◌ ◌+ℤ◌ i64
visits-HasRoom = omega arith

rows_match_example :
    let t = (new_collector (pos 1764154000000000000) (pos 60) (pos 300000000000)).clients in
    Matches
      (visit_all_logs t.ttl visits (λ j. []) "10.0.0.7")
      (row "10.0.0.7" (visit_all unsorted visits t))
rows_match_example =
    rows_match unsorted (pos 1764154000000000000) (pos 60) (pos 300000000000) visits (omega arith)
      visits-HasRoom "10.0.0.7"
