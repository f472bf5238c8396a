-- ===== src/Metrics/Collector/Rows.antt =====
-- The rows of the table of clients (internal/metrics/metrics.go: `recordClient`, `Sweep` and
-- `ResetClients`) over whole histories, against the list of each client's events.
pub mod Visited
pub mod Swept
pub mod Histories
mod Tests
use text.Mathlib.TextEquality.{eq_iff}
use rate_limiting_reverse_pr.Prelude.{
  ℕ, zero, suc, ◌+◌, ◌^◌, ◌≤◌, ◌<◌, ◌≡◌, refl, ap, sym, ◌∙◌, Bool, Bool-cases, Option-cases, inl,
  inr, true, false, not, subst, String, Option, none, some, List, [], ◌∷◌, arith, ◌==◌,
  if◌then◌else◌, length, leb,
}
use rate_limiting_reverse_pr.Prelude.Int.{ℤ, pos, ◌-ℤ◌, ◌+ℤ◌, ltb_ℤ, i64, i64_id}
use rate_limiting_reverse_pr.Prelude.Dict.{
  Dict, lookup, store, delete, same_key, same_key_self, same_key→eq, lookup-store, lookup-delete,
  IsKeyed, store-IsKeyed, is_some, delete_first_key, length-store,
}
use rate_limiting_reverse_pr.Metrics.Collector.{
  ClientStat, Table, Event, sweep, sweep_clients, enforce_client_cap, record_client, count_client,
  put_stat, fresh_stat, delete_each, reset_clients,
}
use rate_limiting_reverse_pr.Metrics.Collector.Clients.{sweep-lookup, stays}

pub delete_each_all : (m : Dict ℕ) → IsKeyed m → delete_each m m ≡ []
delete_each_all [] h = refl
delete_each_all ((k, a) ∷ m) h =
    ap (delete_each m) (delete_first_key k a m h.0) ∙ delete_each_all m h.1

-- The statistics of a client.
unfoldable pub row : String → Table → Option ClientStat
row k t = elim (lookup k t.entries) [ none ↦ none | some a ↦ some (t.heap a) ]

-- Objects are allocated, no two clients share one, and no client stands twice.
pub record IsSound (t : Table) : Type 0 where
  pub below : (k : String) (a : ℕ) → lookup k t.entries ≡ some a → a < t.fresh
  pub apart :
      (k j : String) (a : ℕ)
      → lookup k t.entries ≡ some a
      → lookup j t.entries ≡ some a
      → same_key k j ≡ true
  pub keyed : IsKeyed t.entries

-- What happens to the table.
pub data Visit : Type 0 where
  seen : Event → Visit
  swept : Visit
  cleared : Visit

-- The events of each client since it was last forgotten, the newest first.
abbrev pub Logs : Type 0
Logs = String → List (ℤ × Event)

-- A client that has been quiet since before the cutoff is forgotten.
abbrev pub forget : ℤ → List (ℤ × Event) → List (ℤ × Event)
forget cutoff [] = []
forget cutoff ((t, ev) ∷ log) = if ltb_ℤ t cutoff then [] else (t, ev) ∷ log

unfoldable pub visit_logs : ℤ → ℤ → Visit → Logs → Logs
visit_logs ttl now (seen ev) logs j =
    if same_key ev.key "" then logs j else if same_key ev.key j then (now, ev) ∷ logs j else logs j
visit_logs ttl now swept logs j = forget (now -ℤ ttl) (logs j)
visit_logs ttl now cleared logs j = []

-- How many of the events were answered by "allowed", or by "blocked".
abbrev pub count_answers : Bool → List (ℤ × Event) → ℕ
count_answers answer [] = 0
count_answers answer ((t, ev) ∷ log) =
    (if ev.allowed then (if answer then 1 else 0) else if answer then 0 else 1)
    + count_answers answer log

pub record IsRow (now : ℤ) (ev : Event) (log : List (ℤ × Event)) (s : ClientStat) : Type 0 where
  pub requests : s.requests ≡ suc (length log)
  pub allowed : s.allowed ≡ count_answers true ((now, ev) ∷ log)
  pub blocked : s.blocked ≡ count_answers false ((now, ev) ∷ log)
  pub lat_count : s.lat_count ≡ pos (suc (length log))
  pub last_seen : s.last_seen ≡ now
  pub shown :
      (s.kind ≡ ev.kind)
      × (s.limit ≡ ev.limit)
      × (s.remaining ≡ ev.remaining)
      × (s.reset_at ≡ ev.reset_at)
      × (s.backend ≡ ev.backend)

-- A client has a row exactly if it has events, and the row tells of them.
abbrev pub Matches : List (ℤ × Event) → Option ClientStat → Type 0
Matches [] none = Unit {0}
Matches [] (some s) = ⊥
Matches (e ∷ log) none = ⊥
Matches ((t, ev) ∷ log) (some s) = IsRow t ev log s

pub record MatchesAll (logs : Logs) (t : Table) : Type 0 where
  pub sound : IsSound t
  pub rows : (k : String) → Matches (logs k) (row k t)

count_answers_le : (b : Bool) (log : List (ℤ × Event)) → count_answers b log ≤ length log
count_answers_le b [] = omega arith
count_answers_le b ((t, ev) ∷ log) = ground (arith, count_answers_le b log)

next : (n : ℕ) → n + 1 < 2 ^ 63 → i64 (pos n +ℤ pos 1) ≡ pos (suc n)
unfolding ◌+ℤ◌
next n h = i64_id _ (ground arith) ∙ ground arith

abbrev pub stat_or_fresh : String → Option ClientStat → ClientStat
stat_or_fresh kind none = fresh_stat kind
stat_or_fresh kind (some s) = s

-- One event on the statistics that the client has, or on fresh ones.
pub count_client-IsRow :
    (now : ℤ) (ev : Event) (log : List (ℤ × Event)) (o : Option ClientStat)
    → Matches log o
    → length log + 1 < 2 ^ 63
    → IsRow now ev log (count_client now ev (stat_or_fresh ev.kind o))
unfolding count_client fresh_stat
count_client-IsRow now ev [] none m room = record {
  requests = ground arith;
  allowed = ground arith;
  blocked = ground arith;
  lat_count = next 0 room;
  last_seen = refl;
  shown = (refl, refl, refl, refl, refl);
}
count_client-IsRow now ev [] (some s) m room = absurd m
count_client-IsRow now ev (e ∷ log) none m room = absurd m
count_client-IsRow now ev ((t, old) ∷ log) (some s) m room = record {
  requests = ground (arith, m.requests);
  allowed = ground (arith, m.allowed, count_answers_le true log);
  blocked = ground (arith, m.blocked, count_answers_le false log);
  lat_count = ap (λ n. i64 (n +ℤ pos 1)) m.lat_count ∙ next (suc (length log)) room;
  last_seen = refl;
  shown = (refl, refl, refl, refl, refl);
}
