-- ===== src/Metrics/Views.antt =====
-- internal/metrics/metrics.go: what the dashboard reads of the counters, Clients and Snapshot. A
-- view is read in one step; the arithmetic of float64 and `sort.Slice` are parameters. `none` is the
-- panic of a slice that is cut at a negative index.
pub mod Busiest
mod Tests
use Prim.Native.Char.{code}
use rate_limiting_reverse_pr.Prelude.{
  ℕ, zero, suc, Bool, true, false, not, ◌||◌, ◌&&◌, String, Option, none, some, List, [], ◌∷◌, ◌==◌,
  ltb, if◌then◌else◌, length, take,
}
use rate_limiting_reverse_pr.Prelude.Int.{
  ℤ, pos, negsuc, pos_part, ◌-ℤ◌, leb_ℤ, ltb_ℤ, sat64, div_trunc,
}
use rate_limiting_reverse_pr.Prelude.Dict.{Dict}
use rate_limiting_reverse_pr.Limiter.Memory.{◌>>=◌}
use rate_limiting_reverse_pr.Limiter.Redis.{unix_milli}
use rate_limiting_reverse_pr.Metrics.Collector.{
  Bucket, ClientStat, Table, Totals, Collector, series,
}

-- float64: the conversion of an integer, the division, `Duration.Seconds`, and the test > 0.
pub record Floats : Type 1 where
  pub Float : Type 0
  pub of_int : ℤ → Float
  pub div : Float → Float → Float
  pub seconds : ℤ → Float
  pub positive : Float → Bool

-- `<` on texts, which compares code points as it compares the bytes of UTF-8.
unfoldable pub ltb_text : String → String → Bool
ltb_text String.[] String.[] = false
ltb_text String.[] (String.◌∷◌ d t) = true
ltb_text (String.◌∷◌ c s) String.[] = false
ltb_text (String.◌∷◌ c s) (String.◌∷◌ d t) =
    if ltb (code c) (code d) then true else if code c == code d then ltb_text s t else false

-- `rows[:limit]`, and the whole slice when it is no longer than that.
unfoldable pub cut : {A : Type 0} → ℤ → List A → Option (List A)
cut (negsuc n) rows = none
cut (pos n) rows = some (take n rows)

module _ (floats : Floats) where
  open floats use {Float, of_int, div, seconds}

  pub record ClientView : Type 0 where
    pub key : String
    pub kind : String
    pub requests : ℕ
    pub allowed : ℕ
    pub blocked : ℕ
    pub limit : ℤ
    pub remaining : ℤ
    pub reset_in_ms : ℤ
    pub backend : String
    pub last_seen_ms : ℤ
    pub idle_ms : ℤ
    pub avg_ms : Float

  -- A mean in milliseconds, of a sum in nanoseconds.
  unfoldable pub mean_ms : ℤ → ℤ → Float
  mean_ms sum count =
      if ltb_ℤ (pos 0) count
      then div (div (of_int sum) (of_int count)) (of_int (pos 1000000))
      else of_int (pos 0)

  -- One row.
  unfoldable pub client_row : ℤ → String → ClientStat → ClientView
  unfolding mean_ms
  client_row now key s =
      let left = sat64 (s.reset_at -ℤ now) in
      record {
        key = key;
        kind = s.kind;
        requests = s.requests;
        allowed = s.allowed;
        blocked = s.blocked;
        limit = s.limit;
        remaining = s.remaining;
        reset_in_ms = if ltb_ℤ (pos 0) left then div_trunc left 1000000 else pos 0;
        backend = s.backend;
        last_seen_ms = unix_milli s.last_seen;
        idle_ms = div_trunc (sat64 (now -ℤ s.last_seen)) 1000000;
        avg_ms = mean_ms s.lat_sum_ns s.lat_count;
      }

  -- The `Range` of Clients.
  unfoldable pub client_rows : ℤ → (ℕ → ClientStat) → Dict ℕ → List ClientView
  unfolding client_row
  client_rows now heap [] = []
  client_rows now heap ((k, a) ∷ m) = client_row now k (heap a) ∷ client_rows now heap m

  -- The order of the rows: the busiest first, and by key among equals.
  unfoldable pub busier : ClientView → ClientView → Bool
  unfolding ltb_text
  busier r q =
      if not (r.requests == q.requests) then ltb q.requests r.requests else ltb_text r.key q.key

  pub record Snapshot : Type 0 where
    pub total : ℕ
    pub allowed : ℕ
    pub blocked : ℕ
    pub errors : ℕ
    pub block_rate : Float
    pub rps : Float
    pub avg_latency_ms : Float
    pub uptime_seconds : Float
    pub tracked_clients : ℕ
    pub series : List Bucket
    pub clients : List ClientView

  -- `series[len(series)-2].Total`, or 0 for a shorter series.
  unfoldable pub last_complete : List Bucket → ℕ
  last_complete [] = 0
  last_complete (b ∷ []) = 0
  last_complete (b ∷ c ∷ []) = b.total
  last_complete (b ∷ c ∷ d ∷ rest) = last_complete (c ∷ d ∷ rest)

  module _ (sort_rows : List ClientView → List ClientView) where
    -- `Clients`
    unfoldable pub clients : ℤ → ℤ → Table → Option (List ClientView × ℕ)
    unfolding client_rows cut
    clients now limit t =
        let rows = client_rows now t.heap t.entries in
        let sorted = sort_rows rows in
        do
          shown ← if ltb_ℤ limit (pos (length rows)) then cut limit sorted else some sorted
          some (shown, length rows)

    -- `Snapshot`
    unfoldable pub snapshot : ℤ → ℤ → Collector → Option Snapshot
    unfolding clients mean_ms last_complete series
    snapshot max_clients now c =
        let limit = if leb_ℤ max_clients (pos 0) then pos 50 else max_clients in
        let seconds_shown = series now c.series in
        do
          (shown, tracked) ← clients now limit c.clients
          some (record {
            total = c.totals.total;
            allowed = c.totals.allowed;
            blocked = c.totals.blocked;
            errors = c.totals.errors;
            block_rate =
                if ltb 0 c.totals.total
                then div (of_int (pos c.totals.blocked)) (of_int (pos c.totals.total))
                else of_int (pos 0);
            rps = of_int (pos (last_complete seconds_shown));
            avg_latency_ms = mean_ms c.totals.lat_sum_ns c.totals.lat_count;
            uptime_seconds = seconds (sat64 (now -ℤ c.start));
            tracked_clients = tracked;
            series = seconds_shown;
            clients = shown;
          })
