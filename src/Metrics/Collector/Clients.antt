-- ===== src/Metrics/Collector/Clients.antt =====
-- The table of clients of internal/metrics/metrics.go: what `Sweep` forgets, and whom the cap on
-- the table evicts.
use mathlib.Core.List.{head?}
use rate_limiting_reverse_pr.Prelude.{
  ℕ, zero, suc, ◌+◌, ◌≤◌, ◌<◌, ◌≡◌, ◌⊎◌, refl, ◌∙◌, Bool, Bool-cases, inl, inr, true, false, not,
  subst, ap, ◌&&◌, String, Option, none, some, List, [], ◌∷◌, arith, if◌then◌else◌, length, All,
  leb,
}
use rate_limiting_reverse_pr.Prelude.Int.{ℤ, ◌<ℤ◌, ◌-ℤ◌, ltb_ℤ}
use rate_limiting_reverse_pr.Prelude.Dict.{
  Dict, lookup, store, delete, same_key, same_key_self, same_key→eq, lookup-delete, IsKeyed,
  is_some, length-store,
}
use rate_limiting_reverse_pr.Limiter.Manager.{zero_time}
use rate_limiting_reverse_pr.Metrics.Collector.{
  ClientStat, Table, Event, sweep, sweep_clients, aged, delete_first, enforce_client_cap,
  record_client, put_stat, fresh_stat,
}

-- A client stays when it was seen at the cutoff or after it.
abbrev pub stays : ℤ → (ℕ → ClientStat) → Option ℕ → Bool
stays cutoff heap none = true
stays cutoff heap (some a) = not (ltb_ℤ (heap a).last_seen cutoff)

stays_absent :
    (cutoff : ℤ) (heap : ℕ → ClientStat) (o : Option ℕ)
    → is_some o ≡ false
    → stays cutoff heap o ≡ true
stays_absent cutoff heap none h = refl
stays_absent cutoff heap (some a) h = cc

dropped :
    (b : Bool) (k j : String) (m : Dict ℕ)
    → lookup j (if b then delete k m else m) ≡ (if b && same_key k j then none else lookup j m)
dropped true k j m = lookup-delete k j m
dropped false k j m = refl

kept_or_dropped :
    (b : Bool) (o : Option ℕ) → (if b && true then none else o) ≡ (if not b then o else none)
kept_or_dropped true o = refl
kept_or_dropped false o = refl

undropped : (b : Bool) (o : Option ℕ) → (if b && false then none else o) ≡ o
undropped true o = refl
undropped false o = refl

sweep_clients-lookup :
    (cutoff : ℤ) (heap : ℕ → ClientStat) (rest m : Dict ℕ) (j : String)
    → IsKeyed rest
    → lookup j (sweep_clients cutoff heap rest m).0
      ≡ (if stays cutoff heap (lookup j rest) then lookup j m else none)
unfolding sweep_clients lookup
sweep_clients-lookup cutoff heap [] m j h = refl
sweep_clients-lookup cutoff heap ((k, a) ∷ rest) m j h = elim (Bool-cases (same_key k j)) [
  | inl hit ↦
      subst
        (λ i.
          lookup i
            (sweep_clients cutoff heap rest
              (if ltb_ℤ (heap a).last_seen cutoff then delete k m else m)).0
          ≡ (if stays cutoff heap (if same_key k i then some a else lookup i rest)
              then lookup i m
              else none))
        (same_key→eq k j hit)
        (sweep_clients-lookup cutoff heap rest _ k h.1
          ∙ rw (same_key_self k, stays_absent cutoff heap (lookup k rest) h.0)
              (dropped _ k k m ∙ rw (same_key_self k) (kept_or_dropped _ (lookup k m))))
  | inr miss ↦
      sweep_clients-lookup cutoff heap rest _ j h.1
      ∙ rw
          (
            miss,
            dropped (ltb_ℤ (heap a).last_seen cutoff) k j m,
            miss,
            undropped (ltb_ℤ (heap a).last_seen cutoff) (lookup j m),
          )
          refl
]

-- In a table in which no key stands twice, `Sweep` forgets exactly the clients that were last seen
-- before `now` minus the time to live; every other client keeps its statistics.
pub sweep-lookup :
    (now : ℤ) (t : Table) (j : String)
    → IsKeyed t.entries
    → lookup j (sweep now t).0.entries
      ≡ (if stays (now -ℤ t.ttl) t.heap (lookup j t.entries) then lookup j t.entries else none)
unfolding sweep
sweep-lookup now t j h = sweep_clients-lookup (now -ℤ t.ttl) t.heap t.entries t.entries j h

-- `sort.Slice` by `Before` on `lastSeen`: no element is lost or added, and one that is earlier than
-- all the others comes first.
pub record SortsByAge (sort_aged : List (String × ℤ) → List (String × ℤ)) : Type 0 where
  pub same_length : (all : List (String × ℤ)) → length (sort_aged all) ≡ length all
  pub earliest_first :
      (k : String) (old : ℤ) (all : List (String × ℤ))
      → lookup k all ≡ some old
      → All (λ e. (e ≡ (k, old)) ⊎ (old <ℤ e.1)) all
      → head? (sort_aged all) ≡ some (k, old)

-- Every client in the table was seen after `time.Time{}`, and its object was allocated before.
abbrev pub IsSeen : (ℕ → ClientStat) → ℕ → Dict ℕ → Type 0
IsSeen heap fresh m = All (λ e. (e.1 < fresh) × (zero_time <ℤ (heap e.1).last_seen)) m

abbrev grown_heap : String → Table → ℕ → ClientStat
grown_heap kind t = (put_stat t.fresh (fresh_stat kind) t).heap

grown_last_seen : (kind : String) (t : Table) → (grown_heap kind t t.fresh).last_seen ≡ zero_time
unfolding fresh_stat
grown_last_seen kind t = ground arith

missing :
    (k j : String) (a : ℕ) (m : Dict ℕ)
    → lookup k ((j, a) ∷ m) ≡ none
    → (same_key j k ≡ false) × (lookup k m ≡ none)
unfolding lookup
missing k j a m h = elim (Bool-cases (same_key j k)) [
  | inl hit ↦ cc (rw hit at h)
  | inr miss ↦ (miss, rw miss at h)
]

-- An object that was allocated before keeps what it has when another is allocated.
grown_old : (kind : String) (t : Table) (a : ℕ) → a < t.fresh → grown_heap kind t a ≡ t.heap a
grown_old kind t a lt = ground arith

aged-lookup_new :
    (k kind : String) (t : Table) (m : Dict ℕ)
    → lookup k m ≡ none
    → lookup k (aged (grown_heap kind t) (store k t.fresh m)) ≡ some zero_time
unfolding lookup store
aged-lookup_new k kind t [] h = rw (same_key_self k, grown_last_seen kind t) refl
aged-lookup_new k kind t ((j, a) ∷ m) h =
    let (miss, rest) = missing k j a m h in rw (miss, miss) (aged-lookup_new k kind t m rest)

aged-earliest :
    (k kind : String) (t : Table) (m : Dict ℕ)
    → lookup k m ≡ none
    → IsSeen t.heap t.fresh m
    → All
        (λ e. (e ≡ (k, zero_time)) ⊎ (zero_time <ℤ e.1))
        (aged (grown_heap kind t) (store k t.fresh m))
unfolding lookup store
aged-earliest k kind t [] h seen = (inl (ap (λ z. (k, z)) (grown_last_seen kind t)), tt)
aged-earliest k kind t ((j, a) ∷ m) h seen =
    let (miss, rest) = missing k j a m h in
    rw miss (inr (rw (grown_old kind t a seen.0.0) seen.0.1), aged-earliest k kind t m rest seen.1)

length-aged : (heap : ℕ → ClientStat) (m : Dict ℕ) → length (aged heap m) ≡ length m
length-aged heap [] = refl
length-aged heap (e ∷ m) = ap suc (length-aged heap m)

delete_first_absent :
    (n : ℕ) (all : List (String × ℤ)) (m : Dict ℕ) (k : String)
    → lookup k m ≡ none
    → lookup k (delete_first n all m) ≡ none
unfolding delete_first
delete_first_absent zero all m k h = h
delete_first_absent (suc n) [] m k h = h
delete_first_absent (suc n) ((j, seen) ∷ all) m k h =
    delete_first_absent n all (delete j m) k (ground (arith, lookup-delete j k m))

key_or : String → Option (String × ℤ) → String
key_or j none = j
key_or j (some e) = e.0

delete_first_head :
    (n : ℕ) (all : List (String × ℤ)) (m : Dict ℕ) (k : String) (old : ℤ)
    → 0 < n
    → head? all ≡ some (k, old)
    → lookup k (delete_first n all m) ≡ none
unfolding delete_first key_or
delete_first_head zero all m k old lt h = ground arith
delete_first_head (suc n) [] m k old lt h = cc
delete_first_head (suc n) ((j, seen) ∷ all) m k old lt h =
    delete_first_absent n all (delete j m) k
      (let same : j ≡ k = ap (key_or j) h in rw (lookup-delete j k m, same, same_key_self k) refl)

-- Whatever `sort.Slice` does that keeps its contract: when the table already holds 64 clients more than its maximum, all of them seen before, a client
-- that asks for the first time is not in the table after its own request: the cap is enforced while
-- its `lastSeen` is still the zero time, so it sorts first and is the one that is deleted.
pub new_client_evicted :
    (sort_aged : List (String × ℤ) → List (String × ℤ)) (now : ℤ) (ev : Event) (t : Table)
    → SortsByAge sort_aged
    → lookup ev.key t.entries ≡ none
    → IsSeen t.heap t.fresh t.entries
    → t.max_clients + 64 ≤ length t.entries
    → lookup ev.key (record_client sort_aged now ev t).entries ≡ none
unfolding record_client enforce_client_cap
new_client_evicted sort_aged now ev t sorts absent seen full =
    let longer : length (store ev.key t.fresh t.entries) ≡ length t.entries + 1 =
      length-store ev.key t.fresh t.entries ∙ rw absent refl in
    let over : leb (length (store ev.key t.fresh t.entries)) (t.max_clients + 64) ≡ false =
      ground (arith, longer) in
    rw (absent, record_client)
      (rw (over, enforce_client_cap)
        (delete_first_head _ _ (store ev.key t.fresh t.entries) ev.key zero_time
          (rw (sorts.same_length _, length-aged _ (store ev.key t.fresh t.entries))
            (omega (arith, longer, full)))
          (sorts.earliest_first ev.key zero_time _
            (aged-lookup_new ev.key ev.kind t t.entries absent)
            (aged-earliest ev.key ev.kind t t.entries absent seen))))
