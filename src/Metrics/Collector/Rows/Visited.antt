-- ===== src/Metrics/Collector/Rows/Visited.antt =====
-- What one event does to the table of clients (`recordClient` of internal/metrics/metrics.go).
use text.Mathlib.TextEquality.{eq_iff}
use rate_limiting_reverse_pr.Prelude.{
  ℕ, ◌+◌, ◌<◌, ◌≡◌, refl, ap, sym, ◌∙◌, Option-cases, inl, inr, true, false, String, none, some,
  List, arith, ◌==◌, if◌then◌else◌, length, leb,
}
use rate_limiting_reverse_pr.Prelude.Int.{ℤ}
use rate_limiting_reverse_pr.Prelude.Dict.{
  lookup, store, same_key, same_key_self, lookup-store, store-IsKeyed, length-store,
}
use rate_limiting_reverse_pr.Metrics.Collector.{
  ClientStat, Table, Event, enforce_client_cap, record_client, count_client, put_stat, fresh_stat,
}
use rate_limiting_reverse_pr.Metrics.Collector.Rows.{row, IsSound, stat_or_fresh}

pub row_missing : (k : String) (t : Table) → lookup k t.entries ≡ none → row k t ≡ none
unfolding row
row_missing k t h = rw (h, row)

row_found :
    (k : String) (a : ℕ) (t : Table) → lookup k t.entries ≡ some a → row k t ≡ some (t.heap a)
unfolding row
row_found k a t h = rw (h, row)

row-put_self :
    (k : String) (a : ℕ) (s : ClientStat) (t : Table)
    → lookup k t.entries ≡ some a
    → row k (put_stat a s t) ≡ some s
unfolding row
row-put_self k a s t h = ground arith

row-put_ne :
    (k j : String) (a : ℕ) (s : ClientStat) (t : Table)
    → IsSound t
    → lookup k t.entries ≡ some a
    → same_key k j ≡ false
    → row j (put_stat a s t) ≡ row j t
unfolding row
row-put_ne k j a s t sound h n = elim (Option-cases (lookup j t.entries)) [
  | inl e ↦ rw (e, row)
  | inr (b, f) ↦ rw (f, row) (ground (arith, sound.apart k j a h))
]

-- The object of a client that is new to the table.
grown : String → ClientStat → ClientStat → Table → Table
grown k first s t =
    put_stat t.fresh s (record (put_stat t.fresh first t) {
      fresh = t.fresh + 1;
      entries = store k t.fresh t.entries;
    })

grown_ttl : (k : String) (first s : ClientStat) (t : Table) → (grown k first s t).ttl ≡ t.ttl
unfolding grown
grown_ttl k first s t = refl

grown-IsSound :
    (k : String) (first s : ClientStat) (t : Table)
    → IsSound t
    → lookup k t.entries ≡ none
    → IsSound (grown k first s t)
unfolding grown
grown-IsSound k first s t sound h = record {
  below = λ j a e. ground (arith, lookup-store k j t.fresh t.entries, sound.below j a);
  apart = λ i j a e f. ground (
    arith,
    lookup-store k i t.fresh t.entries,
    lookup-store k j t.fresh t.entries,
    sound.apart i j a,
    sound.below i a,
    sound.below j a,
    eq_iff k i,
    eq_iff k j,
    eq_iff i j,
  );
  keyed = store-IsKeyed k t.fresh t.entries sound.keyed;
}

row-grown :
    (k j : String) (first s : ClientStat) (t : Table)
    → IsSound t
    → row j (grown k first s t) ≡ (if same_key k j then some s else row j t)
unfolding grown row
row-grown k j first s t sound = elim (Option-cases (lookup j t.entries)) [
  | inl e ↦ ground (arith, lookup-store k j t.fresh t.entries)
  | inr (b, f) ↦ ground (arith, lookup-store k j t.fresh t.entries, sound.below j b)
]

-- What an event leaves of the table.
pub record IsVisited (now : ℤ) (ev : Event) (t t' : Table) : Type 0 where
  pub sound : IsSound t'
  pub own : row ev.key t' ≡ some (count_client now ev (stat_or_fresh ev.kind (row ev.key t)))
  pub others : (j : String) → same_key ev.key j ≡ false → row j t' ≡ row j t
  pub ttl : t'.ttl ≡ t.ttl

module _ (sort_aged : List (String × ℤ) → List (String × ℤ)) where
  known_client :
      (now : ℤ) (ev : Event) (a : ℕ) (t : Table)
      → lookup ev.key t.entries ≡ some a
      → record_client sort_aged now ev t ≡ put_stat a (count_client now ev (t.heap a)) t
  unfolding record_client
  known_client now ev a t h = rw (h, record_client)

  new_client :
      (now : ℤ) (ev : Event) (t : Table)
      → lookup ev.key t.entries ≡ none
      → length t.entries < t.max_clients + 64
      → record_client sort_aged now ev t
        ≡ grown ev.key (fresh_stat ev.kind) (count_client now ev (fresh_stat ev.kind)) t
  unfolding record_client enforce_client_cap grown
  new_client now ev t h room =
      let longer : length (store ev.key t.fresh t.entries) ≡ length t.entries + 1 =
        length-store ev.key t.fresh t.entries ∙ rw h refl in
      let fits : leb (length (store ev.key t.fresh t.entries)) (t.max_clients + 64) ≡ true =
        ground (arith, longer) in
      let same : (t.fresh == t.fresh) ≡ true = ground arith in
      rw (h, record_client) (rw (fits, enforce_client_cap) (rw same refl))

  pub record_client-IsVisited :
      (now : ℤ) (ev : Event) (t : Table)
      → IsSound t
      → length t.entries < t.max_clients + 64
      → IsVisited now ev t (record_client sort_aged now ev t)
  record_client-IsVisited now ev t sound room = elim (Option-cases (lookup ev.key t.entries)) [
    | inl e ↦ rw (new_client now ev t e room) (record {
      sound = grown-IsSound ev.key _ _ t sound e;
      own =
          row-grown ev.key ev.key _ _ t sound
          ∙ rw (same_key_self ev.key) (
              ap (λ o. some (count_client now ev (stat_or_fresh ev.kind o)))
                (sym (row_missing ev.key t e)));
      others = λ j n. row-grown ev.key j _ _ t sound ∙ rw n refl;
      ttl = grown_ttl ev.key _ _ t;
    })
    | inr (a, e) ↦ rw (known_client now ev a t e) (record {
      sound = record { below = sound.below; apart = sound.apart; keyed = sound.keyed };
      own =
          row-put_self ev.key a _ t e
          ∙ ap (λ o. some (count_client now ev (stat_or_fresh ev.kind o)))
              (sym (row_found ev.key a t e));
      others = λ j n. row-put_ne ev.key j a _ t sound e n;
      ttl = refl;
    })
  ]
