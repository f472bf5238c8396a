-- ===== src/Metrics/Collector.antt =====
-- internal/metrics/metrics.go: the live counters behind the dashboard. Instants are nanoseconds
-- since 1970, read from the clock as arguments. A client's statistics are an object on a heap, since
-- a goroutine may hold one that has been taken out of the table. The order of an association list is
-- that of one `Range`. Floating-point numbers and `sort.Slice` are parameters.
pub mod Tallies
pub mod Series
pub mod Clients
pub mod Rows
mod Tests
use rate_limiting_reverse_pr.Prelude.{
  ℕ, zero, suc, ◌+◌, ◌-◌, ◌*◌, ◌/◌, ◌%◌, ◌^◌, Bool, true, false, not, ◌||◌, String, Option, none,
  some, List, [], ◌∷◌, ◌==◌, leb, ltb, if◌then◌else◌, length,
}
use rate_limiting_reverse_pr.Prelude.Int.{
  ℤ, pos, negsuc, ◌+ℤ◌, ◌-ℤ◌, leb_ℤ, ltb_ℤ, eqb_ℤ, i64, sat64, div_floor, div_trunc,
}
use rate_limiting_reverse_pr.Prelude.Dict.{Dict, lookup, store, delete, same_key}
use rate_limiting_reverse_pr.Limiter.Memory.{◌>>=◌}
use rate_limiting_reverse_pr.Limiter.Manager.{bump64, zero_time}

pub record Bucket : Type 0 where
  pub ts : ℤ
  pub total : ℕ
  pub allowed : ℕ
  pub blocked : ℕ
  pub errors : ℕ

-- `Bucket{TS: sec}`
unfoldable pub empty_bucket : ℤ → Bucket
empty_bucket sec = record { ts = sec; total = 0; allowed = 0; blocked = 0; errors = 0 }

pub record Event : Type 0 where
  pub key : String
  pub kind : String
  pub allowed : Bool
  pub status : ℤ
  pub limit : ℤ
  pub remaining : ℤ
  pub reset_at : ℤ
  pub backend : String
  pub latency : ℤ

pub record ClientStat : Type 0 where
  pub kind : String
  pub requests : ℕ
  pub allowed : ℕ
  pub blocked : ℕ
  pub limit : ℤ
  pub remaining : ℤ
  pub reset_at : ℤ
  pub backend : String
  pub last_seen : ℤ
  pub lat_sum_ns : ℤ
  pub lat_count : ℤ

-- `&clientStat{kind: ev.Kind}`
unfoldable pub fresh_stat : String → ClientStat
fresh_stat kind = record {
  kind = kind;
  requests = 0;
  allowed = 0;
  blocked = 0;
  limit = pos 0;
  remaining = pos 0;
  reset_at = zero_time;
  backend = "";
  last_seen = zero_time;
  lat_sum_ns = pos 0;
  lat_count = pos 0;
}

-- The atomic counters of `Collector`.
pub record Totals : Type 0 where
  pub total : ℕ
  pub allowed : ℕ
  pub blocked : ℕ
  pub errors : ℕ
  pub lat_sum_ns : ℤ
  pub lat_count : ℤ

-- The slice `series`: `size` buckets.
pub record Ring : Type 0 where
  pub size : ℕ
  pub cells : ℕ → Bucket

-- The clients' table: the map, and the objects that it points to.
pub record Table : Type 0 where
  pub heap : ℕ → ClientStat
  pub fresh : ℕ
  pub entries : Dict ℕ
  pub ttl : ℤ
  pub max_clients : ℕ

pub record Collector : Type 0 where
  pub start : ℤ
  pub totals : Totals
  pub series : Ring
  pub clients : Table

-- `now.Unix()`
unfoldable pub unix : ℤ → ℤ
unix now = div_floor now 1000000000

unfoldable pub new_collector : ℤ → ℤ → ℤ → Collector
unfolding fresh_stat empty_bucket
new_collector now window_seconds ttl = record {
  start = now;
  totals = record {
    total = 0;
    allowed = 0;
    blocked = 0;
    errors = 0;
    lat_sum_ns = pos 0;
    lat_count = pos 0;
  };
  series = record {
    size = elim window_seconds [ pos n ↦ if ltb n 10 then 10 else n | negsuc n ↦ 10 ];
    cells = λ i. empty_bucket (pos 0);
  };
  clients = record {
    heap = λ a. fresh_stat "";
    fresh = 0;
    entries = [];
    ttl = if leb_ℤ ttl (pos 0) then pos 300000000000 else ttl;
    max_clients = 500;
  };
}

-- The latency that is summed up: a negative one is no sample of time.
abbrev pub sample : ℤ → ℤ → ℤ
sample latency sum = if ltb_ℤ (pos 0) latency then i64 (sum +ℤ latency) else sum

abbrev pub bump_if : Bool → ℕ → ℕ
bump_if b n = if b then bump64 n else n

-- `Record` before the series.
unfoldable pub count_event : Event → Totals → Totals
count_event ev t = record {
  total = bump64 t.total;
  allowed = bump_if ev.allowed t.allowed;
  blocked = bump_if (not ev.allowed) t.blocked;
  errors = bump_if (leb_ℤ (pos 500) ev.status) t.errors;
  lat_sum_ns = sample ev.latency t.lat_sum_ns;
  lat_count = i64 (t.lat_count +ℤ pos 1);
}

-- `sec % n` as an index: Go's remainder has the sign of `sec`, and a negative index panics.
unfoldable pub index : ℤ → ℕ → Option ℕ
index (pos s) n = some (s % n)
index (negsuc s) n = if (suc s % n) == 0 then some 0 else none

-- One event into a bucket that is known to be of its second.
unfoldable pub count_in : Bool → Bool → Bucket → Bucket
count_in allowed is_error b = record {
  ts = b.ts;
  total = bump64 b.total;
  allowed = bump_if allowed b.allowed;
  blocked = bump_if (not allowed) b.blocked;
  errors = bump_if is_error b.errors;
}

abbrev pub put_cell : ℕ → Bucket → Ring → Ring
put_cell i b r = record r { cells = λ j. if i == j then b else r.cells j }

-- The bucket of a second: what the cell holds, if it is of that second.
unfoldable pub bucket_of : ℤ → Bucket → Bucket
unfolding empty_bucket
bucket_of sec b = if eqb_ℤ b.ts sec then b else empty_bucket sec

unfoldable pub record_series : ℤ → Bool → Bool → Ring → Option Ring
unfolding unix index count_in bucket_of
record_series now allowed is_error r = do
  i ← index (unix now) r.size
  some (put_cell i (count_in allowed is_error (bucket_of (unix now) (r.cells i))) r)

-- `((sec%n)+n)%n`
unfoldable pub wrapped_index : ℤ → ℕ → ℕ
wrapped_index (pos s) n = (s % n + n) % n
wrapped_index (negsuc s) n = (n - suc s % n) % n

-- The loop of `Series`: the seconds from `i` before the end on.
unfoldable pub series_from : ℕ → ℤ → Ring → List Bucket
unfolding wrapped_index bucket_of
series_from zero end r = []
series_from (suc i) end r =
    let sec = end -ℤ pos i in
    bucket_of sec (r.cells (wrapped_index sec r.size)) ∷ series_from i end r

unfoldable pub series : ℤ → Ring → List Bucket
unfolding series_from unix
series now r = series_from r.size (unix now) r

abbrev pub put_stat : ℕ → ClientStat → Table → Table
put_stat a s t = record t { heap = λ b. if a == b then s else t.heap b }

-- The locked section of `recordClient`.
unfoldable pub count_client : ℤ → Event → ClientStat → ClientStat
count_client now ev s = record {
  kind = ev.kind;
  requests = bump64 s.requests;
  allowed = bump_if ev.allowed s.allowed;
  blocked = bump_if (not ev.allowed) s.blocked;
  limit = ev.limit;
  remaining = ev.remaining;
  reset_at = ev.reset_at;
  backend = ev.backend;
  last_seen = now;
  lat_sum_ns = sample ev.latency s.lat_sum_ns;
  lat_count = i64 (s.lat_count +ℤ pos 1);
}

-- `all` of `enforceClientCap`: each key with its `lastSeen`.
abbrev pub aged : (ℕ → ClientStat) → Dict ℕ → List (String × ℤ)
aged heap [] = []
aged heap ((k, a) ∷ m) = (k, (heap a).last_seen) ∷ aged heap m

-- The loop that deletes the first `n` keys.
unfoldable pub delete_first : ℕ → List (String × ℤ) → Dict ℕ → Dict ℕ
delete_first zero all m = m
delete_first (suc n) [] m = m
delete_first (suc n) ((k, seen) ∷ all) m = delete_first n all (delete k m)

-- One step of the `Range` in `Sweep`.
unfoldable pub sweep_clients : ℤ → (ℕ → ClientStat) → Dict ℕ → Dict ℕ → Dict ℕ × ℕ
sweep_clients cutoff heap [] m = (m, 0)
sweep_clients cutoff heap ((k, a) ∷ rest) m =
    let stale = ltb_ℤ (heap a).last_seen cutoff in
    let (m', removed) = sweep_clients cutoff heap rest (if stale then delete k m else m) in
    (m', (if stale then 1 else 0) + removed)

-- `Sweep`
unfoldable pub sweep : ℤ → Table → Table × ℕ
unfolding sweep_clients
sweep now t =
    let (m, removed) = sweep_clients (now -ℤ t.ttl) t.heap t.entries t.entries in
    (record t { entries = m }, removed)

abbrev pub delete_each : Dict ℕ → Dict ℕ → Dict ℕ
delete_each [] m = m
delete_each ((k, a) ∷ rest) m = delete_each rest (delete k m)

-- `ResetClients`
unfoldable pub reset_clients : Table → Table
reset_clients t = record t { entries = delete_each t.entries t.entries }

module _ (sort_aged : List (String × ℤ) → List (String × ℤ)) where
  unfoldable pub enforce_client_cap : Table → Table
  unfolding delete_first
  enforce_client_cap t =
      let n = length t.entries in
      let all = sort_aged (aged t.heap t.entries) in
      if leb n (t.max_clients + 64)
      then t
      else record t { entries = delete_first (length all - t.max_clients) all t.entries }

  unfoldable pub record_client : ℤ → Event → Table → Table
  unfolding enforce_client_cap count_client fresh_stat
  record_client now ev t = elim (lookup ev.key t.entries) [
    | some a ↦ put_stat a (count_client now ev (t.heap a)) t
    | none ↦
        let a = t.fresh in
        let grown : Table = record (put_stat a (fresh_stat ev.kind) t) {
          fresh = t.fresh + 1;
          entries = store ev.key a t.entries;
        } in
        let capped = enforce_client_cap grown in
        put_stat a (count_client now ev (capped.heap a)) capped
  ]

  -- `Record`
  unfoldable pub record_event : ℤ → Event → Collector → Option Collector
  unfolding count_event record_series record_client
  record_event now ev c = do
    ring ← record_series now ev.allowed (leb_ℤ (pos 500) ev.status) c.series
    some (record c {
      totals = count_event ev c.totals;
      series = ring;
      clients = if same_key ev.key "" then c.clients else record_client now ev c.clients;
    })
