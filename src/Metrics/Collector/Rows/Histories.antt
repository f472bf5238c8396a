-- ===== src/Metrics/Collector/Rows/Histories.antt =====
-- Whole histories of the table of clients of internal/metrics/metrics.go: events, runs of `Sweep`
-- and resets.
use rate_limiting_reverse_pr.Prelude.{
  ◌+◌, ◌^◌, ◌≤◌, ◌<◌, ◌≡◌, refl, sym, Bool-cases, inl, inr, subst, String, List, [], ◌∷◌, arith,
  if◌then◌else◌, length,
}
use rate_limiting_reverse_pr.Prelude.Int.{ℤ, ◌-ℤ◌}
use rate_limiting_reverse_pr.Prelude.Dict.{lookup, same_key, same_key→eq, IsKeyed}
use rate_limiting_reverse_pr.Metrics.Collector.{
  Table, new_collector, Event, sweep, record_client, reset_clients,
}
use rate_limiting_reverse_pr.Metrics.Collector.Rows.{
  delete_each_all, row, Visit, seen, swept, cleared, Logs, forget, visit_logs, Matches, MatchesAll,
  count_client-IsRow,
}
use rate_limiting_reverse_pr.Metrics.Collector.Rows.Visited.{
  row_missing, IsVisited, record_client-IsVisited,
}
use rate_limiting_reverse_pr.Metrics.Collector.Rows.Swept.{
  sweep-IsSound, sweep_ttl, expire-Matches, row-sweep,
}

reset_entries : (t : Table) → IsKeyed t.entries → (reset_clients t).entries ≡ []
unfolding reset_clients
reset_entries t h = delete_each_all t.entries h

reset_ttl : (t : Table) → (reset_clients t).ttl ≡ t.ttl
unfolding reset_clients
reset_ttl t = refl

emptied-MatchesAll : (t : Table) → t.entries ≡ [] → MatchesAll (λ k. []) t
unfolding lookup
emptied-MatchesAll t e = record {
  sound = record {
    below = λ k a h. ground arith;
    apart = λ k j a h g. ground arith;
    keyed = rw e tt;
  };
  rows = λ k. rw (row_missing k t (rw e refl)) tt;
}

length-forget : (cutoff : ℤ) (log : List (ℤ × Event)) → length (forget cutoff log) ≤ length log + 1
length-forget cutoff [] = omega arith
length-forget cutoff ((t, ev) ∷ log) = ground arith

-- The same history on the logs.
unfoldable pub visit_all_logs : ℤ → List (ℤ × Visit) → Logs → Logs
unfolding visit_logs
visit_all_logs ttl [] logs = logs
visit_all_logs ttl ((now, v) ∷ vs) logs = visit_all_logs ttl vs (visit_logs ttl now v logs)

length-visit_logs :
    (ttl now : ℤ) (v : Visit) (logs : Logs) (j : String)
    → length (visit_logs ttl now v logs j) ≤ length (logs j) + 1
unfolding visit_logs
length-visit_logs ttl now (seen ev) logs j = ground arith
length-visit_logs ttl now swept logs j = length-forget (now -ℤ ttl) (logs j)
length-visit_logs ttl now cleared logs j = omega arith

module _ (sort_aged : List (String × ℤ) → List (String × ℤ)) where
  -- The table over a history; an event without a key leaves it alone, as in `Record`.
  unfoldable pub visit : ℤ → Visit → Table → Table
  visit now (seen ev) t = if same_key ev.key "" then t else record_client sort_aged now ev t
  visit now swept t = (sweep now t).0
  visit now cleared t = reset_clients t

  unfoldable pub visit_all : List (ℤ × Visit) → Table → Table
  unfolding visit
  visit_all [] t = t
  visit_all ((now, v) ∷ vs) t = visit_all vs (visit now v t)

  event-Matches :
      (now : ℤ) (ev : Event) (logs : Logs) (t t' : Table) (k : String)
      → IsVisited now ev t t'
      → ((j : String) → Matches (logs j) (row j t))
      → length (logs ev.key) + 1 < 2 ^ 63
      → Matches (if same_key ev.key k then (now, ev) ∷ logs k else logs k) (row k t')
  event-Matches now ev logs t t' k v m room = elim (Bool-cases (same_key ev.key k)) [
    | inl hit ↦ rw hit (
        subst (λ j. Matches ((now, ev) ∷ logs j) (row j t')) (same_key→eq ev.key k hit)
          (rw v.own (count_client-IsRow now ev (logs ev.key) (row ev.key t) (m ev.key) room)))
    | inr miss ↦ rw (miss, v.others k miss) (m k)
  ]

  visit-MatchesAll :
      (now : ℤ) (v : Visit) (logs : Logs) (t : Table)
      → MatchesAll logs t
      → ((j : String) → length (logs j) + 1 < 2 ^ 63)
      → length t.entries < t.max_clients + 64
      → MatchesAll (visit_logs t.ttl now v logs) (visit now v t) × ((visit now v t).ttl ≡ t.ttl)
  unfolding visit visit_logs
  visit-MatchesAll now (seen ev) logs t m room few = elim (Bool-cases (same_key ev.key "")) [
    | inl anonymous ↦
        rw (anonymous, visit)
          (record { sound = m.sound; rows = λ k. rw anonymous (m.rows k) }, refl)
    | inr named ↦
        let v = record_client-IsVisited sort_aged now ev t m.sound few in
        rw (named, visit)
          (
            record {
              sound = v.sound;
              rows = λ k. rw named (
                  event-Matches now ev logs t (record_client sort_aged now ev t) k v m.rows
                    (room ev.key));
            },
            v.ttl,
          )
  ]
  visit-MatchesAll now swept logs t m room few = (
    record {
      sound = sweep-IsSound now t m.sound;
      rows = λ k.
          subst (Matches (forget (now -ℤ t.ttl) (logs k))) (sym (row-sweep now t k m.sound))
            (expire-Matches (now -ℤ t.ttl) (logs k) (row k t) (m.rows k));
    },
    sweep_ttl now t,
  )
  visit-MatchesAll now cleared logs t m room few =
      (emptied-MatchesAll (reset_clients t) (reset_entries t m.sound.keyed), reset_ttl t)

  -- Before each visit the table has room for one more client than it holds.
  abbrev pub HasRoom : List (ℤ × Visit) → Table → Type 0
  HasRoom [] t = Unit {0}
  HasRoom ((now, v) ∷ vs) t = (length t.entries < t.max_clients + 64) × HasRoom vs (visit now v t)

  visit_all-MatchesAll :
      (vs : List (ℤ × Visit)) (logs : Logs) (t : Table)
      → MatchesAll logs t
      → ((j : String) → length (logs j) + length vs < 2 ^ 63)
      → HasRoom vs t
      → MatchesAll (visit_all_logs t.ttl vs logs) (visit_all vs t)
  unfolding visit_all visit_all_logs
  visit_all-MatchesAll [] logs t m few room = m
  visit_all-MatchesAll ((now, v) ∷ vs) logs t m few room =
      let (m', kept) = visit-MatchesAll now v logs t m (λ j. omega (arith, few j)) room.0 in
      subst
        (λ l.
          MatchesAll (visit_all_logs l vs (visit_logs t.ttl now v logs))
            (visit_all vs (visit now v t)))
        kept
        (visit_all-MatchesAll vs (visit_logs t.ttl now v logs) (visit now v t) m'
          (λ j. omega (arith, few j, length-visit_logs t.ttl now v logs j)) room.1)

  -- Over every history of fewer than 2 ^ 63 events, sweeps and resets on a new table that always has
  -- room for one more client: a client has a row exactly if it has events since it
  -- was last forgotten, and the row shows how many they are, how many of them were allowed and how
  -- many blocked, when the last one was seen and what it said. A client is forgotten by a reset, and
  -- by a sweep when its last event lies before the time to live; an event without a key is in no row.
  pub rows_match :
      (now window ttl : ℤ) (vs : List (ℤ × Visit))
      → length vs < 2 ^ 63
      → HasRoom vs (new_collector now window ttl).clients
      → (k : String)
      → let t = (new_collector now window ttl).clients in
        Matches (visit_all_logs t.ttl vs (λ j. []) k) (row k (visit_all vs t))
  unfolding new_collector
  rows_match now window ttl vs few room k =
      let t = (new_collector now window ttl).clients in
      (visit_all-MatchesAll vs (λ j. []) t (emptied-MatchesAll t refl) (λ j. omega (arith, few))
          room).rows
        k
