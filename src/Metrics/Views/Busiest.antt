-- ===== src/Metrics/Views/Busiest.antt =====
-- Which clients the dashboard shows (Clients and Snapshot of internal/metrics/metrics.go).
use mathlib.Core.List.{Permᴰ}
use rate_limiting_reverse_pr.Prelude.{◌<◌, ◌≡◌, ◌⊎◌, false, List, [], ◌∷◌, ◌++◌, All, length}
use rate_limiting_reverse_pr.Prelude.Int.{ℤ, pos, ◌≤ℤ◌}
use rate_limiting_reverse_pr.Prelude.Dict.{Dict}
use rate_limiting_reverse_pr.Metrics.Views.{Floats, ClientView, busier, ltb_text}

module _ (floats : Floats) where
  -- No row is `less`, by the function that `sort.Slice` is given, than one that stands before it.
  abbrev pub IsInOrder : List (ClientView floats) → Type 0
  IsInOrder [] = Unit {0}
  IsInOrder (r ∷ rows) = All (λ q. busier floats q r ≡ false) rows × IsInOrder rows

  -- `sort.Slice` by that function.
  pub record SortsRows (sort_rows : List (ClientView floats) → List (ClientView floats))
      : Type 0 where
    pub permutes : (rows : List (ClientView floats)) → Permᴰ (sort_rows rows) rows
    pub sorted : (rows : List (ClientView floats)) → IsInOrder (sort_rows rows)

  -- A row may stand before another if it has more requests, or as many and no greater key.
  abbrev pub IsBefore : ClientView floats → ClientView floats → Type 0
  IsBefore r q =
      (q.requests < r.requests) ⊎ ((q.requests ≡ r.requests) × (ltb_text q.key r.key ≡ false))

  abbrev pub IsSorted : List (ClientView floats) → Type 0
  IsSorted [] = Unit {0}
  IsSorted (r ∷ rows) = All (IsBefore r) rows × IsSorted rows

  -- The rows that are shown, against all of them: they are sorted, they are as many as the limit
  -- allows, and each of them may stand before all the others.
  pub record IsTop (limit : ℤ) (all shown : List (ClientView floats)) : Type 0 where
    pub rest : List (ClientView floats)
    pub rows : Permᴰ (shown ++ rest) all
    pub sorted : IsSorted shown
    pub busiest : All (λ r. All (IsBefore r) rest) shown
    pub fits : ((pos (length all) ≤ℤ limit) × (rest ≡ [])) ⊎ (pos (length shown) ≡ limit)
