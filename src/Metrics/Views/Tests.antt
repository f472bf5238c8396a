-- ===== src/Metrics/Views/Tests.antt =====
-- An insertion sort that keeps the contract, and a concrete table.
use mathlib.Core.List.Permᴰ
use mathlib.Core.List.{Permᴰ}
use rate_limiting_reverse_pr.Prelude.{◌≡◌, false, List, [], ◌∷◌, All, ◌==◌, if◌then◌else◌}
use rate_limiting_reverse_pr.Prelude.Int.{ℤ, pos, ltb_ℤ}
use rate_limiting_reverse_pr.Metrics.Collector.{Table, fresh_stat}
use rate_limiting_reverse_pr.Metrics.Views.{Floats, ClientView, busier}

-- Whole numbers in the place of float64.
abbrev whole : Floats
whole = record {
  Float = ℤ;
  of_int = λ n. n;
  div = λ a b. a;
  seconds = λ d. d;
  positive = λ d. ltb_ℤ (pos 0) d;
}

abbrev Row : Type 0
Row = ClientView whole

abbrev insert : Row → List Row → List Row
insert r [] = r ∷ []
insert r (q ∷ rows) = if busier whole q r then q ∷ insert r rows else r ∷ q ∷ rows

abbrev sort_rows : List Row → List Row
sort_rows [] = []
sort_rows (r ∷ rows) = insert r (sort_rows rows)

abbrev AreNoBusier : Row → List Row → Type 0
AreNoBusier r rows = All (λ q. busier whole q r ≡ false) rows

-- Three clients, of which two are as busy.
abbrev visitors : Table
visitors = record {
  heap = λ a. record (fresh_stat "ip") { requests = if a == 1 then 9 else 4 };
  fresh = 3;
  entries = ("b", 0) ∷ ("c", 1) ∷ ("a", 2) ∷ [];
  ttl = pos 300000000000;
  max_clients = 500;
}
