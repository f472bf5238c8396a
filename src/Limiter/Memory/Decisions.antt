-- ===== src/Limiter/Memory/Decisions.antt =====
-- The decisions of the in-memory limiter (internal/limiter/memory.go) whatever the other
-- goroutines do between the lookup of an entry and its lock.
use rate_limiting_reverse_pr.Prelude.{
  ℕ, zero, suc, ◌+◌, ◌≡◌, ◌⊎◌, refl, sym, ap, ◌∙◌, ◌==◌, true, false, Option, some, String, List,
  [], ◌∷◌, ◌++◌, arith, Bool-cases, inl, inr, length, length-append, if◌then◌else◌,
}
use rate_limiting_reverse_pr.Prelude.Int.{
  ℤ, pos, ◌+ℤ◌, ◌-ℤ◌, ◌≤ℤ◌, ◌<ℤ◌, i64, i64_id, -ℤ_parts, parts_lem, eq_of_parts, leb_ℤ, ltb_ℤ,
  sat64,
}
use rate_limiting_reverse_pr.Limiter.Policy.{
  Policy, Decision, IsEnforceable, normalize, normalize-IsEnforceable, deny, delay, backend_memory,
}
use rate_limiting_reverse_pr.Limiter.Memory.{
  MemEntry, Memory, fresh_entry, accept, write, touch, load_or_store, prune, expired_count,
  admit_at, admit_detached, attempt, allow_loop, allow,
}
use rate_limiting_reverse_pr.Limiter.Memory.Entry.{
  outcome_of, outcome_cases, admitted, refused, admit_lem, head_or,
}

-- How long it is until an instant: nothing if that is past, and at most the longest duration.
abbrev pub time_until : ℤ → ℤ → ℤ
time_until t now =
    if leb_ℤ t now
    then pos 0
    else if ltb_ℤ (pos 9223372036854775807) (t -ℤ now)
    then pos 9223372036854775807
    else t -ℤ now

-- What the fields of a decision say under a policy, when `hits` are what the client's entry holds
-- afterwards: `used` counts them. An allowed request is the last of them and within the limit, and
-- `remaining` is what is left; a denied one found the limit used up. The reset is when the oldest
-- of them leaves the window, in int64 nanoseconds, and the delay is the time until then.
pub record IsAccurate (p : Policy) (now : ℤ) (hits : List ℤ) (d : Decision) : Type 0 where
  pub limit : d.limit ≡ p.limit
  pub window : d.window ≡ p.window
  pub backend : d.backend ≡ backend_memory
  pub used : d.used ≡ pos (length hits)
  pub own : d.allowed ≡ true → (kept : List ℤ) × (hits ≡ kept ++ i64 now ∷ [])
  pub counted : d.allowed ≡ true → (pos 1 ≤ℤ d.used) × (d.used ≤ℤ p.limit)
  pub left : d.allowed ≡ true → d.remaining ≡ p.limit -ℤ d.used
  pub exhausted : d.allowed ≡ false → (p.limit ≤ℤ d.used) × (d.remaining ≡ pos 0)
  pub reset_at :
      (oldest : ℤ) × (rest : List ℤ) × (hits ≡ oldest ∷ rest)
      × (d.reset_at ≡ i64 (oldest +ℤ p.window))
  pub retry_after : d.retry_after ≡ time_until d.reset_at now

delay-time_until : (t now : ℤ) → delay t now ≡ time_until t now
unfolding delay sat64
delay-time_until t now =
    ground (arith, -ℤ_parts t now, parts_lem (t -ℤ now), eq_of_parts (t -ℤ now) (pos 0))

first_of :
    (kept : List ℤ) (t w : ℤ)
    → (oldest : ℤ) × (rest : List ℤ) × (kept ++ t ∷ [] ≡ oldest ∷ rest)
      × (i64 (head_or kept t +ℤ w) ≡ i64 (oldest +ℤ w))
first_of [] t w = (t, [], refl, refl)
first_of (x ∷ kept) t w = (x, kept ++ t ∷ [], refl, refl)

first_kept :
    (kept : List ℤ) (t w : ℤ)
    → pos 1 ≤ℤ pos (length kept)
    → (oldest : ℤ) × (rest : List ℤ) × (kept ≡ oldest ∷ rest)
      × (i64 (head_or kept t +ℤ w) ≡ i64 (oldest +ℤ w))
first_kept [] t w h = absurd (omega arith)
first_kept (x ∷ kept) t w h = (x, kept, refl, refl)

-- Where the hits are: in an entry of the heap, or in none, and then only the request itself.
abbrev pub IsIn : ℤ → List ℤ → Memory → Type 0
IsIn now hits m = ((a : ℕ) × ((m.heap a).hits ≡ hits)) ⊎ (hits ≡ i64 now ∷ [])

module _ (p : Policy) (enforceable : IsEnforceable p) where
  counts : (n : ℕ) → pos n <ℤ p.limit → i64 (pos n +ℤ pos 1) ≡ pos (n + 1)
  unfolding ◌+ℤ◌
  counts n h = i64_id _ (ground (arith, enforceable.limit_high)) ∙ ground arith

  leaves : (n : ℕ) → pos n <ℤ p.limit → i64 (p.limit -ℤ pos (n + 1)) ≡ p.limit -ℤ pos (n + 1)
  leaves n h = i64_id _ (
      omega
        (arith, enforceable, -ℤ_parts p.limit (pos (n + 1)), parts_lem (p.limit -ℤ pos (n + 1))))

  admitted-IsAccurate :
      (e : MemEntry) (now : ℤ) (kept : List ℤ)
      → pos (length kept) <ℤ p.limit
      → IsAccurate p now (admitted e p now kept).0.hits (admitted e p now kept).1
  unfolding admitted accept
  admitted-IsAccurate e now kept h =
      rw (counts (length kept) h, leaves (length kept) h)
        (record {
          limit = refl;
          window = refl;
          backend = refl;
          counted = λ _. (omega arith, omega arith);
          left = λ _. refl;
          exhausted = λ e. cc;
          used = sym (ap pos (length-append kept (i64 now ∷ [])));
          own = λ _. (kept, refl);
          reset_at = first_of kept (i64 now) p.window;
          retry_after = delay-time_until _ now;
        })

  refused-IsAccurate :
      (e : MemEntry) (now : ℤ) (kept : List ℤ)
      → p.limit ≤ℤ pos (length kept)
      → IsAccurate p now (refused e p now kept).0.hits (refused e p now kept).1
  unfolding refused deny
  refused-IsAccurate e now kept h = record {
    limit = refl;
    window = refl;
    backend = refl;
    counted = λ e. cc;
    left = λ e. cc;
    exhausted = λ _. (omega arith, refl);
    used = refl;
    own = λ e. cc;
    reset_at = first_kept kept (i64 now) p.window (omega (arith, enforceable.limit_low));
    retry_after = delay-time_until _ now;
  }

  outcome_of-IsAccurate :
      (e : MemEntry) (now : ℤ) → IsAccurate p now (outcome_of e p now).0.hits (outcome_of e p now).1
  unfolding outcome_of
  outcome_of-IsAccurate e now =
      outcome_cases (λ r. IsAccurate p now r.0.hits r.1) e p now _ (admitted-IsAccurate e now _)
        (refused-IsAccurate e now _)

  -- A result that is accurate for the entry in which the request was counted: one of the heap, or one
  -- that no table holds, with nothing but the request.
  abbrev Answers : ℤ → Option (Memory × Decision) → Type 0
  Answers now r =
      (m : Memory) × (d : Decision) × (hits : List ℤ) × (r ≡ some (m, d))
      × IsIn now hits m
      × IsAccurate p now hits d

  self_test : (a : ℕ) → (a == a) ≡ true
  self_test a = ground arith

  -- On a fresh entry the request is admitted and stands alone.
  fresh_hits : (now : ℤ) → (outcome_of fresh_entry p now).0.hits ≡ i64 now ∷ []
  unfolding outcome_of admitted refused prune expired_count
  fresh_hits now = ground (arith, enforceable.limit_low)

  admit_at-Answers : (a : ℕ) (now : ℤ) (m : Memory) → Answers now (admit_at a p now m)
  unfolding admit_at write
  admit_at-Answers a now m = (
    write a (outcome_of (m.heap a) p now).0 m,
    (outcome_of (m.heap a) p now).1,
    (outcome_of (m.heap a) p now).0.hits,
    rw (admit_lem (m.heap a) p now enforceable.limit_low, admit_at),
    inl (a, rw (self_test a) refl),
    outcome_of-IsAccurate (m.heap a) now,
  )

  admit_detached-Answers : (now : ℤ) (m : Memory) → Answers now (admit_detached p now m)
  unfolding admit_detached
  admit_detached-Answers now m = (
    m,
    (outcome_of fresh_entry p now).1,
    (outcome_of fresh_entry p now).0.hits,
    rw (admit_lem fresh_entry p now enforceable.limit_low, admit_detached),
    inr (fresh_hits now),
    outcome_of-IsAccurate fresh_entry now,
  )

  attempt-Answers :
      (retry : Memory → Option (Memory × Decision)) (others : Memory → Memory) (key : String)
      (now : ℤ) (m : Memory)
      → ((m' : Memory) → Answers now (retry m'))
      → Answers now (attempt retry others key p now m)
  unfolding attempt
  attempt-Answers retry others key now m h =
      let (m', a) = load_or_store key m in
      let locked = others (touch a (i64 now) m') in
      elim (Bool-cases (locked.heap a).dead) [
        | inl dead ↦ rw (dead, attempt) (h _)
        | inr alive ↦ rw (alive, attempt) (admit_at-Answers a now locked)
      ]

  allow_loop-Answers :
      (left : ℕ) (others : ℕ → Memory → Memory) (key : String) (now : ℤ) (m : Memory)
      → Answers now (allow_loop left others key p now m)
  unfolding allow_loop
  allow_loop-Answers zero others key now m =
      attempt-Answers (admit_detached p now) (others 0) key now m (admit_detached-Answers now)
  allow_loop-Answers (suc left) others key now m =
      attempt-Answers (allow_loop left others key p now) (others (suc left)) key now m
        (allow_loop-Answers left others key now)

pub allow_answers :
    (others : ℕ → Memory → Memory) (key : String) (q : Policy) (now : ℤ) (m : Memory)
    → (m' : Memory) × (d : Decision) × (hits : List ℤ) × (allow others key q now m ≡ some (m', d))
      × IsIn now hits m'
      × IsAccurate (normalize q) now hits d
unfolding allow
allow_answers others key q now m =
    allow_loop-Answers (normalize q) (normalize-IsEnforceable q) 8 others key now m
