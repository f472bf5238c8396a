-- ===== src/Metrics/Collector/Tallies.antt =====
-- What the buckets of internal/metrics/metrics.go are to hold: how many events of each kind there were
-- in a second.
use rate_limiting_reverse_pr.Prelude.{
  ℕ, ◌+◌, ◌/◌, ◌%◌, ◌^◌, ◌<◌, ◌≡◌, ◌∙◌, Bool, true, false, not, ◌&&◌, List, [], ◌∷◌, ◌==◌, arith,
  if◌then◌else◌,
}
use rate_limiting_reverse_pr.Prelude.Int.{pos}
use rate_limiting_reverse_pr.Metrics.Collector.{Bucket, empty_bucket, count_in}

-- When an event happened, in nanoseconds, whether it was allowed, and whether it was an error.
abbrev pub Sample : Type 0
Sample = ℕ × Bool × Bool

abbrev pub second_of : ℕ → ℕ
second_of now = now / 1000000000

-- The events of each second, counted one after the other.
abbrev pub Tallies : Type 0
Tallies = ℕ → Bucket

unfoldable pub tally : ℕ → Bool → Bool → Tallies → Tallies
tally sec allowed is_error c s = if sec == s then count_in allowed is_error (c s) else c s

unfoldable pub tally_all : List Sample → Tallies → Tallies
unfolding tally
tally_all [] c = c
tally_all ((now, allowed, is_error) ∷ es) c =
    tally_all es (tally (second_of now) allowed is_error c)

abbrev pub no_tallies : Tallies
no_tallies s = empty_bucket (pos s)

-- How many events there are of which a test holds.
unfoldable pub count_of : (Sample → Bool) → List Sample → ℕ
count_of test [] = 0
count_of test (e ∷ es) = let rest = count_of test es in if test e then rest + 1 else rest

abbrev pub is_in : ℕ → Sample → Bool
is_in s e = second_of e.0 == s

-- The contract: a second, and the number of its events, of the allowed and the blocked ones, and of
-- the errors among them, in 64 bits.
unfoldable pub counts : List Sample → ℕ → Bucket
unfolding count_of
counts es s = record {
  ts = pos s;
  total = count_of (is_in s) es % 2 ^ 64;
  allowed = count_of (λ e. is_in s e && e.1) es % 2 ^ 64;
  blocked = count_of (λ e. is_in s e && not e.1) es % 2 ^ 64;
  errors = count_of (λ e. is_in s e && e.2) es % 2 ^ 64;
}

-- A bucket with the events of a second counted in.
abbrev with_events : ℕ → List Sample → Bucket → Bucket
with_events s es b = record {
  ts = b.ts;
  total = (b.total + count_of (is_in s) es) % 2 ^ 64;
  allowed = (b.allowed + count_of (λ e. is_in s e && e.1) es) % 2 ^ 64;
  blocked = (b.blocked + count_of (λ e. is_in s e && not e.1) es) % 2 ^ 64;
  errors = (b.errors + count_of (λ e. is_in s e && e.2) es) % 2 ^ 64;
}

abbrev IsSmall : Bucket → Type 0
IsSmall b = (b.total < 2 ^ 64) × (b.allowed < 2 ^ 64) × (b.blocked < 2 ^ 64) × (b.errors < 2 ^ 64)

tally-IsSmall :
    (sec s : ℕ) (allowed is_error : Bool) (c : Tallies)
    → IsSmall (c s)
    → IsSmall (tally sec allowed is_error c s)
unfolding tally count_in
tally-IsSmall sec s allowed is_error c h = ground arith

with_events-cons :
    (es : List Sample) (s now : ℕ) (allowed is_error : Bool) (c : Tallies)
    → with_events s es (tally (second_of now) allowed is_error c s)
      ≡ with_events s ((now, allowed, is_error) ∷ es) (c s)
unfolding tally count_in count_of
with_events-cons es s now true true c = ground arith
with_events-cons es s now true false c = ground arith
with_events-cons es s now false true c = ground arith
with_events-cons es s now false false c = ground arith

tally_all-with_events :
    (es : List Sample) (s : ℕ) (c : Tallies)
    → IsSmall (c s)
    → tally_all es c s ≡ with_events s es (c s)
unfolding tally_all count_of
tally_all-with_events [] s c h = ground arith
tally_all-with_events ((now, allowed, is_error) ∷ es) s c h =
    tally_all-with_events es s (tally (second_of now) allowed is_error c)
      (tally-IsSmall (second_of now) s allowed is_error c h)
    ∙ with_events-cons es s now allowed is_error c

-- Counting one after the other gives the numbers of the contract.
pub tally_all-counts : (es : List Sample) (s : ℕ) → tally_all es no_tallies s ≡ counts es s
unfolding counts empty_bucket
tally_all-counts es s = tally_all-with_events es s no_tallies (omega arith) ∙ ground arith
