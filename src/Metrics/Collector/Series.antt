-- ===== src/Metrics/Collector/Series.antt =====
-- The ring of seconds (`recordSeries` and `Series` of internal/metrics/metrics.go) against a count
-- of the events of each second.
use rate_limiting_reverse_pr.Prelude.{
  ℕ, zero, suc, ◌+◌, ◌-◌, ◌%◌, ◌≤◌, ◌<◌, ◌≡◌, ◌≢◌, refl, sym, ◌∙◌, ap, subst, leb, Bool, Bool-cases,
  inl, inr, true, false, Option, some, List, [], ◌∷◌, map, ◌==◌, arith,
}
use rate_limiting_reverse_pr.Prelude.Int.{ℤ, pos, ◌≤ℤ◌, ◌-ℤ◌, div_floor, eq_of_parts}
use rate_limiting_reverse_pr.Limiter.Memory.{◌>>=◌}
use rate_limiting_reverse_pr.Metrics.Collector.Tallies.{
  Sample, second_of, Tallies, tally, tally_all, no_tallies, counts, tally_all-counts,
}
use rate_limiting_reverse_pr.Metrics.Collector.{
  Bucket, empty_bucket, Ring, put_cell, count_in, bucket_of, record_series, series, series_from,
  index, wrapped_index, unix,
}

-- Two seconds less than `n` apart have different cells.
apart : (n s t : ℕ) → s < t → t < s + n → s % n ≢ t % n
apart n s t lt near = λ e. grind arith

-- The ring over the same events.
unfoldable pub record_all : List Sample → Ring → Option Ring
unfolding record_series
record_all [] r = some r
record_all ((now, allowed, is_error) ∷ es) r = do
  r' ← record_series (pos now) allowed is_error r
  record_all es r'

-- The clock does not go back, and the last reading is not after `now`.
abbrev pub IsTimeline : ℕ → List Sample → ℕ → Type 0
IsTimeline last [] now = last ≤ now
IsTimeline last ((t, allowed, is_error) ∷ es) now = (last ≤ t) × IsTimeline t es now

-- Up to the second `last` the ring knows the tally of each of its last seconds.
pub record Shows (last : ℕ) (r : Ring) (c : Tallies) : Type 0 where
  pub sized : 0 < r.size
  pub shown :
      (s : ℕ) → s ≤ last → last < s + r.size → bucket_of (pos s) (r.cells (s % r.size)) ≡ c s
  pub past : (i : ℕ) → (r.cells i).ts ≤ℤ pos last
  pub future : (s : ℕ) → last < s → c s ≡ empty_bucket (pos s)

ts_bucket_of : (sec : ℤ) (b : Bucket) → (bucket_of sec b).ts ≡ sec
unfolding bucket_of empty_bucket
ts_bucket_of sec b = ground (arith, eq_of_parts b.ts sec)

bucket_of_self : (sec : ℤ) (b : Bucket) → b.ts ≡ sec → bucket_of sec b ≡ b
unfolding bucket_of
bucket_of_self sec b h = ground arith

bucket_of_past :
    (last s : ℕ) (b : Bucket)
    → last < s
    → b.ts ≤ℤ pos last
    → bucket_of (pos s) b ≡ empty_bucket (pos s)
unfolding bucket_of
bucket_of_past last s b lt h = ground arith

-- Time passes without an event.
later-Shows :
    (last next : ℕ) (r : Ring) (c : Tallies) → last ≤ next → Shows last r c → Shows next r c
later-Shows last next r c le h = record {
  sized = h.sized;
  shown = λ s a b. elim (Bool-cases (leb s last)) [
    | inl old ↦ h.shown s (ground arith) (omega arith)
    | inr new_ ↦
        bucket_of_past last s _ (ground arith) (h.past (s % r.size))
        ∙ sym (h.future s (ground arith))
  ];
  past = λ i. omega (arith, h.past i);
  future = λ s lt. h.future s (omega arith);
}

counted : (sec : ℕ) (allowed is_error : Bool) (r : Ring) → Ring
counted sec allowed is_error r =
    put_cell (sec % r.size)
      (count_in allowed is_error (bucket_of (pos sec) (r.cells (sec % r.size)))) r

ts_count_in : (allowed is_error : Bool) (b : Bucket) → (count_in allowed is_error b).ts ≡ b.ts
unfolding count_in
ts_count_in allowed is_error b = refl

ts_counted :
    (sec : ℕ) (allowed is_error : Bool) (b : Bucket)
    → (count_in allowed is_error (bucket_of (pos sec) b)).ts ≡ pos sec
ts_counted sec allowed is_error b = ts_count_in allowed is_error _ ∙ ts_bucket_of (pos sec) b

self_test : (n : ℕ) → (n == n) ≡ true
self_test n = ground arith

test→eq : (m n : ℕ) → (m == n) ≡ true → m ≡ n
test→eq m n h = ground arith

counted_own :
    (sec : ℕ) (allowed is_error : Bool) (r : Ring) (c : Tallies)
    → Shows sec r c
    → bucket_of (pos sec) ((counted sec allowed is_error r).cells (sec % r.size))
      ≡ tally sec allowed is_error c sec
unfolding counted tally
counted_own sec allowed is_error r c h =
    rw (self_test (sec % r.size), self_test sec)
      (bucket_of_self (pos sec) _ (ts_counted sec allowed is_error _)
        ∙ ap (count_in allowed is_error) (h.shown sec (omega arith) (omega (arith, h.sized))))

counted_other :
    (sec s : ℕ) (allowed is_error : Bool) (r : Ring) (c : Tallies)
    → Shows sec r c
    → s < sec
    → sec < s + r.size
    → bucket_of (pos s) ((counted sec allowed is_error r).cells (s % r.size))
      ≡ tally sec allowed is_error c s
unfolding counted tally
counted_other sec s allowed is_error r c h lt near =
    let away : ((sec % r.size) == (s % r.size)) ≡ false =
      ground (arith, apart r.size s sec lt near) in
    let other : (sec == s) ≡ false = ground arith in rw (away, other) (h.shown s (omega arith) near)

counted-Shows :
    (sec : ℕ) (allowed is_error : Bool) (r : Ring) (c : Tallies)
    → Shows sec r c
    → Shows sec (counted sec allowed is_error r) (tally sec allowed is_error c)
unfolding counted tally
counted-Shows sec allowed is_error r c h = record {
  sized = h.sized;
  shown = λ s a b. elim (Bool-cases (sec == s)) [
    | inl same ↦
        subst
          (λ i.
            bucket_of (pos i) ((counted sec allowed is_error r).cells (i % r.size))
            ≡ tally sec allowed is_error c i)
          (test→eq sec s same) (counted_own sec allowed is_error r c h)
    | inr other ↦ counted_other sec s allowed is_error r c h (ground arith) b
  ];
  past = λ i. ground (arith, h.past i, ts_counted sec allowed is_error (r.cells (sec % r.size)));
  future = λ s lt. ground (arith, h.future s lt);
}

second_lem : (now : ℕ) → unix (pos now) ≡ pos (second_of now)
unfolding unix div_floor
second_lem now = refl

record_series_lem :
    (now : ℕ) (allowed is_error : Bool) (r : Ring)
    → record_series (pos now) allowed is_error r ≡ some (counted (second_of now) allowed is_error r)
unfolding record_series unix div_floor index counted
record_series_lem now allowed is_error r = refl

second_of_mono : (a b : ℕ) → a ≤ b → second_of a ≤ second_of b
second_of_mono a b le = omega arith

record_all-Shows :
    (es : List Sample) (last now : ℕ) (r : Ring) (c : Tallies)
    → Shows (second_of last) r c
    → IsTimeline last es now
    → (r' : Ring) × (record_all es r ≡ some r')
      × (r'.size ≡ r.size)
      × Shows (second_of now) r' (tally_all es c)
unfolding record_all tally_all counted
record_all-Shows [] last now r c h t =
    (r, refl, refl, later-Shows _ _ r c (second_of_mono last now t) h)
record_all-Shows ((next, allowed, is_error) ∷ es) last now r c h t =
    let here = later-Shows _ (second_of next) r c (second_of_mono last next t.0) h in
    let (r', e, same, shows) =
      record_all-Shows es next now (counted (second_of next) allowed is_error r) _
        (counted-Shows (second_of next) allowed is_error r c here) t.1 in
    (r', rw (record_series_lem next allowed is_error r) e, same, shows)

-- The `i` seconds up to `end`, the oldest first.
abbrev pub recent : ℕ → ℕ → List ℕ
recent zero end = []
recent (suc i) end = (end - i) ∷ recent i end

minus_lem : (end i : ℕ) → i ≤ end → pos end -ℤ pos i ≡ pos (end - i)
unfolding ◌-ℤ◌
minus_lem end i le = ground arith

wrapped_index_lem : (s n : ℕ) → 0 < n → wrapped_index (pos s) n ≡ s % n
unfolding wrapped_index
wrapped_index_lem s n lt = grind arith

series_from-map :
    (i end : ℕ) (r : Ring) (c : Tallies)
    → Shows end r c
    → i ≤ r.size
    → i ≤ end + 1
    → series_from i (pos end) r ≡ map c (recent i end)
unfolding series_from
series_from-map zero end r c h a b = refl
series_from-map (suc i) end r c h a b =
    rw (minus_lem end i (omega arith), wrapped_index_lem (end - i) r.size h.sized)
      (λ j.
        h.shown (end - i) (omega arith) (omega arith) j
        ∷ series_from-map i end r c h (omega arith) (omega arith) j)

abbrev pub empty_ring : ℕ → Ring
empty_ring n = record { size = n; cells = λ i. empty_bucket (pos 0) }

empty_ring-Shows : (n : ℕ) → 0 < n → Shows 0 (empty_ring n) no_tallies
unfolding empty_bucket bucket_of
empty_ring-Shows n lt = record {
  sized = lt;
  shown = λ s a b. ground arith;
  past = λ i. omega arith;
  future = λ s lt. refl;
}

map-counts :
    (es : List Sample) (seconds : List ℕ)
    → map (tally_all es no_tallies) seconds ≡ map (counts es) seconds
map-counts es [] = refl
map-counts es (s ∷ seconds) = λ j. tally_all-counts es s j ∷ map-counts es seconds j

-- Over every sequence of events at instants that do not go back, recording never panics, and the
-- series read afterwards has one bucket for each of the last `n` seconds, the oldest first, quiet
-- seconds included. It holds the number of all events of its second, of the allowed ones, of the
-- blocked ones and of the errors, each modulo 2 ^ 64; for a ring of `n` > 0 seconds read at least
-- `n` - 1 seconds after 1970.
pub series_tallies :
    (n : ℕ) (es : List Sample) (now : ℕ)
    → 0 < n
    → IsTimeline 0 es now
    → n ≤ second_of now + 1
    → (r : Ring) × (record_all es (empty_ring n) ≡ some r)
      × (series (pos now) r ≡ map (counts es) (recent n (second_of now)))
unfolding series unix div_floor
series_tallies n es now lt t enough =
    let (r, e, same, shows) =
      record_all-Shows es 0 now (empty_ring n) no_tallies (empty_ring-Shows n lt) t in
    (
      r,
      e,
      ap (λ m. series_from m (pos (second_of now)) r) same
          ∙ series_from-map n (second_of now) r _ shows (omega (arith, same)) enough
          ∙ map-counts es (recent n (second_of now)),
    )
