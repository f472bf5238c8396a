-- ===== src/Metrics/Collector/Tests.antt =====
-- Concrete runs of the traffic counters.
use mathlib.Core.List.{head?}
use Prim.Native.String.{◌++◌ as join}
use rate_limiting_reverse_pr.Prelude.{
  ℕ, zero, suc, ◌≤◌, ◌≡◌, refl, ap, subst, ◌⊎◌, inl, inr, Bool-cases, true, false, String, Option,
  none, some, List, [], ◌∷◌, map, arith, if◌then◌else◌, length, All,
}
use rate_limiting_reverse_pr.Prelude.Int.{ℤ, pos, ◌-ℤ◌, ◌≤ℤ◌, ◌<ℤ◌, leb_ℤ}
use rate_limiting_reverse_pr.Prelude.Dict.{Dict, lookup, same_key, IsKeyed}
use rate_limiting_reverse_pr.Metrics.Collector.{
  Ring, ClientStat, Table, Event, series, sweep, record_client,
}
use rate_limiting_reverse_pr.Metrics.Collector.Tallies.{Sample, counts}
use rate_limiting_reverse_pr.Metrics.Collector.Series.{
  record_all, empty_ring, recent, series_tallies,
}
use rate_limiting_reverse_pr.Metrics.Collector.Clients.{
  stays, sweep-lookup, SortsByAge, IsSeen, new_client_evicted,
}

abbrev traffic : List Sample
traffic =
    (1700000000200000000, true, false)
    ∷ (1700000000900000000, false, false)
    ∷ (1700000012000000000, true, true)
    ∷ []

series_tallies_example :
    (r : Ring) × (record_all traffic (empty_ring 10) ≡ some r)
    × (series (pos 1700000013000000000) r ≡ map (counts traffic) (recent 10 1700000013))
series_tallies_example =
    series_tallies 10 traffic 1700000013000000000 (omega arith) (omega arith) (omega arith)

abbrev seen_at : ℤ → ClientStat
seen_at now = record {
  kind = "ip";
  requests = 1;
  allowed = 1;
  blocked = 0;
  limit = pos 2;
  remaining = pos 1;
  reset_at = now;
  backend = "memory";
  last_seen = now;
  lat_sum_ns = pos 0;
  lat_count = pos 1;
}

abbrev two_clients : Table
two_clients = record {
  heap = λ a.
      seen_at (if leb_ℤ (pos a) (pos 0) then pos 1700000000000000000 else pos 1700000200000000000);
  fresh = 2;
  entries = ("a", 0) ∷ ("b", 1) ∷ [];
  ttl = pos 300000000000;
  max_clients = 500;
}

two_clients-IsKeyed : IsKeyed two_clients.entries
unfolding lookup
two_clients-IsKeyed = (refl, (refl, tt))

sweep-lookup_example : lookup "a" (sweep (pos 1700000400000000000) two_clients).0.entries ≡ (
    if stays
      (pos 1700000400000000000 -ℤ two_clients.ttl)
      two_clients.heap
      (lookup "a" two_clients.entries)
    then lookup "a" two_clients.entries
    else none)
sweep-lookup_example = sweep-lookup (pos 1700000400000000000) two_clients "a" two_clients-IsKeyed

-- `a` is forgotten.
sweep_a : lookup "a" (sweep (pos 1700000400000000000) two_clients).0.entries ≡ none
unfolding lookup ◌-ℤ◌
sweep_a = sweep-lookup_example

-- Insertion sort by age.
abbrev insert : String × ℤ → List (String × ℤ) → List (String × ℤ)
insert e [] = e ∷ []
insert e (f ∷ all) = if leb_ℤ e.1 f.1 then e ∷ f ∷ all else f ∷ insert e all

abbrev sort : List (String × ℤ) → List (String × ℤ)
sort [] = []
sort (e ∷ all) = insert e (sort all)

length-insert :
    (e : String × ℤ) (all : List (String × ℤ)) → length (insert e all) ≡ suc (length all)
length-insert e [] = refl
length-insert e (f ∷ all) = ground (arith, length-insert e all)

length-sort : (all : List (String × ℤ)) → length (sort all) ≡ length all
length-sort [] = refl
length-sort (e ∷ all) = omega (arith, length-insert e (sort all), length-sort all)

abbrev IsAfter : ℤ → List (String × ℤ) → Type 0
IsAfter old all = All (λ e. old ≤ℤ e.1) all

insert-IsAfter :
    (old : ℤ) (e : String × ℤ) (all : List (String × ℤ))
    → old ≤ℤ e.1
    → IsAfter old all
    → IsAfter old (insert e all)
insert-IsAfter old e [] h a = (h, tt)
insert-IsAfter old e (f ∷ all) h a = ground (arith, insert-IsAfter old e all h a.1)

sort-IsAfter : (old : ℤ) (all : List (String × ℤ)) → IsAfter old all → IsAfter old (sort all)
sort-IsAfter old [] a = tt
sort-IsAfter old (e ∷ all) a = insert-IsAfter old e (sort all) a.0 (sort-IsAfter old all a.1)

insert_first :
    (e : String × ℤ) (all : List (String × ℤ)) → IsAfter e.1 all → head? (insert e all) ≡ some e
insert_first e [] a = refl
insert_first e (f ∷ all) a = ground (arith, a.0)

given : String × ℤ → Option (String × ℤ) → String × ℤ
given f none = f
given f (some g) = g

insert_later :
    (e g : String × ℤ) (all : List (String × ℤ))
    → g.1 <ℤ e.1
    → head? all ≡ some g
    → head? (insert e all) ≡ some g
unfolding given
insert_later e g [] lt h = cc
insert_later e g (f ∷ all) lt h =
    let same : f ≡ g = ap (given f) h in
    let after : leb_ℤ e.1 f.1 ≡ false = rw same (ground arith) in rw after h

All-IsAfter :
    (k : String) (old : ℤ) (all : List (String × ℤ))
    → All (λ e. (e ≡ (k, old)) ⊎ (old <ℤ e.1)) all
    → IsAfter old all
All-IsAfter k old [] a = tt
All-IsAfter k old (e ∷ all) a = (
  elim a.0 [ inl same ↦ rw same (omega arith) | inr later ↦ omega arith ],
  All-IsAfter k old all a.1,
)

or_given : ℤ → Option ℤ → ℤ
or_given z none = z
or_given z (some y) = y

sort_earliest :
    (k : String) (old : ℤ) (all : List (String × ℤ))
    → lookup k all ≡ some old
    → All (λ e. (e ≡ (k, old)) ⊎ (old <ℤ e.1)) all
    → head? (sort all) ≡ some (k, old)
unfolding lookup or_given
sort_earliest k old [] h a = cc
sort_earliest k old ((j, seen) ∷ all) h a = elim a.0 [
  | inl same ↦
      rw same (insert_first (k, old) (sort all) (sort-IsAfter old all (All-IsAfter k old all a.1)))
  | inr later ↦ elim (Bool-cases (same_key j k)) [
    | inl hit ↦
        let same : seen ≡ old = ap (or_given seen) (rw hit at h) in
        let bad : old <ℤ old = subst (λ z. old <ℤ z) same later in ground arith
    | inr miss ↦
        insert_later (j, seen) (k, old) (sort all) later
          (sort_earliest k old all (rw miss at h) a.1)
  ]
]

sort-SortsByAge : SortsByAge sort
sort-SortsByAge = record { same_length = length-sort; earliest_first = sort_earliest }

-- 64 clients, named by their distance from the end.
abbrev names : ℕ → String
names zero = "x"
names (suc n) = join "x" (names n)

abbrev crowd : ℕ → Dict ℕ
crowd zero = []
crowd (suc n) = (names n, n) ∷ crowd n

abbrev crowded : Table
crowded = record {
  heap = λ a. seen_at (pos 1700000000000000000);
  fresh = 64;
  entries = crowd 64;
  ttl = pos 300000000000;
  max_clients = 0;
}

crowd-IsSeen : (n : ℕ) → n ≤ 64 → IsSeen crowded.heap 64 (crowd n)
crowd-IsSeen zero le = tt
crowd-IsSeen (suc n) le = ((omega arith, omega arith), crowd-IsSeen n (omega arith))

abbrev visit : Event
visit = record {
  key = "y";
  kind = "ip";
  allowed = true;
  status = pos 200;
  limit = pos 2;
  remaining = pos 1;
  reset_at = pos 1700000000000000000;
  backend = "memory";
  latency = pos 1000;
}

absent_y : lookup "y" crowded.entries ≡ none
unfolding lookup
absent_y = refl

new_client_evicted_example :
    lookup "y" (record_client sort (pos 1700000000000000000) visit crowded).entries ≡ none
new_client_evicted_example =
    new_client_evicted sort (pos 1700000000000000000) visit crowded sort-SortsByAge absent_y
      (crowd-IsSeen 64 (omega arith)) (omega arith)
