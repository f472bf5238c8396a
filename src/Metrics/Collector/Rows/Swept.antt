-- ===== src/Metrics/Collector/Rows/Swept.antt =====
-- What `Sweep` of internal/metrics/metrics.go leaves of the rows.
use rate_limiting_reverse_pr.Prelude.{
  ℕ, ◌≡◌, refl, ap, sym, ◌∙◌, Bool-cases, Option-cases, inl, inr, true, false, String, Option, none,
  some, List, [], ◌∷◌, arith, if◌then◌else◌,
}
use rate_limiting_reverse_pr.Prelude.Int.{ℤ, ◌-ℤ◌, ltb_ℤ}
use rate_limiting_reverse_pr.Prelude.Dict.{Dict, lookup, delete, delete-IsKeyed, IsKeyed}
use rate_limiting_reverse_pr.Metrics.Collector.{ClientStat, Table, Event, sweep, sweep_clients}
use rate_limiting_reverse_pr.Metrics.Collector.Clients.{sweep-lookup, stays}
use rate_limiting_reverse_pr.Metrics.Collector.Rows.{row, IsSound, forget, Matches}

sweep_clients-IsKeyed :
    (cutoff : ℤ) (heap : ℕ → ClientStat) (rest m : Dict ℕ)
    → IsKeyed m
    → IsKeyed (sweep_clients cutoff heap rest m).0
unfolding sweep_clients
sweep_clients-IsKeyed cutoff heap [] m h = h
sweep_clients-IsKeyed cutoff heap ((k, a) ∷ rest) m h =
    sweep_clients-IsKeyed cutoff heap rest
      (if ltb_ℤ (heap a).last_seen cutoff then delete k m else m)
      (ground (arith, delete-IsKeyed k m h))

pub sweep-IsSound : (now : ℤ) (t : Table) → IsSound t → IsSound (sweep now t).0
unfolding sweep
sweep-IsSound now t sound = record {
  below = λ k a h. ground (arith, sweep-lookup now t k sound.keyed, sound.below k a);
  apart = λ k j a h g. ground (
    arith,
    sweep-lookup now t k sound.keyed,
    sweep-lookup now t j sound.keyed,
    sound.apart k j a,
  );
  keyed = sweep_clients-IsKeyed (now -ℤ t.ttl) t.heap t.entries t.entries sound.keyed;
}

pub sweep_ttl : (now : ℤ) (t : Table) → (sweep now t).0.ttl ≡ t.ttl
unfolding sweep
sweep_ttl now t = refl

-- What the sweep leaves of a row.
pub expire : ℤ → Option ClientStat → Option ClientStat
expire cutoff none = none
expire cutoff (some s) = if ltb_ℤ s.last_seen cutoff then none else some s

swept_lookup :
    (now : ℤ) (t : Table) (k : String)
    → IsSound t
    → lookup k (sweep now t).0.entries
      ≡ (if stays (now -ℤ t.ttl) t.heap (lookup k t.entries) then lookup k t.entries else none)
swept_lookup now t k sound = sweep-lookup now t k sound.keyed

row_with : (ℕ → ClientStat) → Option ℕ → Option ClientStat
row_with heap none = none
row_with heap (some a) = some (heap a)

row-row_with : (k : String) (t : Table) → row k t ≡ row_with t.heap (lookup k t.entries)
unfolding row row_with
row-row_with k t = elim (Option-cases (lookup k t.entries)) [
  | inl e ↦ rw (e, row) refl
  | inr (a, e) ↦ rw (e, row) refl
]

expire-row_with :
    (cutoff : ℤ) (heap : ℕ → ClientStat) (o : Option ℕ)
    → row_with heap (if stays cutoff heap o then o else none) ≡ expire cutoff (row_with heap o)
unfolding expire row_with
expire-row_with cutoff heap none = refl
expire-row_with cutoff heap (some a) = ground arith

pub row-sweep :
    (now : ℤ) (t : Table) (k : String)
    → IsSound t
    → row k (sweep now t).0 ≡ expire (now -ℤ t.ttl) (row k t)
unfolding sweep
row-sweep now t k sound =
    row-row_with k (sweep now t).0
    ∙ ap (row_with t.heap) (swept_lookup now t k sound)
    ∙ expire-row_with (now -ℤ t.ttl) t.heap (lookup k t.entries)
    ∙ ap (expire (now -ℤ t.ttl)) (sym (row-row_with k t))

pub expire-Matches :
    (cutoff : ℤ) (log : List (ℤ × Event)) (o : Option ClientStat)
    → Matches log o
    → Matches (forget cutoff log) (expire cutoff o)
unfolding expire
expire-Matches cutoff [] none m = tt
expire-Matches cutoff [] (some s) m = absurd m
expire-Matches cutoff (e ∷ log) none m = absurd m
expire-Matches cutoff ((t, ev) ∷ log) (some s) m = elim (Bool-cases (ltb_ℤ t cutoff)) [
  | inl old ↦
      let old' : ltb_ℤ s.last_seen cutoff ≡ true = ap (λ z. ltb_ℤ z cutoff) m.last_seen ∙ old in
      rw (old, old') tt
  | inr young ↦
      let young' : ltb_ℤ s.last_seen cutoff ≡ false =
        ap (λ z. ltb_ℤ z cutoff) m.last_seen ∙ young in
      rw (young, young') m
]
