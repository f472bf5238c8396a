-- ===== src/Limiter/Memory/Allow.antt =====
-- `Allow` of internal/limiter/memory.go when no other goroutine runs between the lookup and the
-- lock: one round of the loop, on the entry of the key.
use rate_limiting_reverse_pr.Prelude.{ℕ, ◌≡◌, ◌∙◌, false, Option, some, String, arith}
use rate_limiting_reverse_pr.Prelude.Int.{ℤ, pos, i64, ◌≤ℤ◌}
use rate_limiting_reverse_pr.Prelude.Dict.{same_key}
use rate_limiting_reverse_pr.Limiter.Policy.{Policy, Decision, normalize, normalize-IsEnforceable}
use rate_limiting_reverse_pr.Limiter.Memory.{
  MemEntry, Memory, write, load_or_store, touch, admit_at, attempt, allow_loop, allow,
}
use rate_limiting_reverse_pr.Limiter.Memory.Entry.{outcome_of, admit_lem}
use rate_limiting_reverse_pr.Limiter.Memory.Tracks.{entry_or_fresh}
use rate_limiting_reverse_pr.Limiter.Memory.Store.{
  view, IsSound, IsLoaded, load_or_store-IsLoaded, view-write_self, view-write_ne, write-IsSound,
}

-- No other goroutine does anything.
abbrev pub nobody : ℕ → Memory → Memory
nobody n m = m

-- The key's entry as the locked section finds it.
abbrev pub found_entry : String → ℤ → Memory → MemEntry
found_entry k now m = record (entry_or_fresh (view k m)) { last_seen = i64 now }

abbrev pub entry_outcome : String → Policy → ℤ → Memory → MemEntry × Decision
entry_outcome k p now m = outcome_of (found_entry k now m) p now

-- What a call leaves.
pub record IsAllowed (k : String) (p : Policy) (now : ℤ) (m m' : Memory) : Type 0 where
  pub own : view k m' ≡ some (entry_outcome k p now m).0
  pub others : (j : String) → same_key k j ≡ false → view j m' ≡ view j m
  pub sound : IsSound m'

touch-IsSound : (a : ℕ) (now_ns : ℤ) (m : Memory) → IsSound m → IsSound (touch a now_ns m)
unfolding touch
touch-IsSound a now_ns m s = write-IsSound a _ m s

touched :
    (k : String) (now : ℤ) (m : Memory) (r : Memory × ℕ)
    → IsLoaded k m r
    → (touch r.1 (i64 now) r.0).heap r.1 ≡ found_entry k now m
unfolding touch write
touched k now m r l = ground (arith, l.entry)

admit_at_found :
    (a : ℕ) (e : MemEntry) (p : Policy) (now : ℤ) (m : Memory)
    → m.heap a ≡ e
    → pos 1 ≤ℤ p.limit
    → admit_at a p now m ≡ some (write a (outcome_of e p now).0 m, (outcome_of e p now).1)
unfolding admit_at
admit_at_found a e p now m h l = rw (h, admit_at) (rw (admit_lem e p now l))

-- The memory after a round on the entry that was looked up.
allowed : String → Policy → ℤ → Memory → Memory
allowed k p now m =
    let (m', a) = load_or_store k m in write a (entry_outcome k p now m).0 (touch a (i64 now) m')

-- The round ends at the first entry: it is not dead.
attempt_quiet :
    (retry : Memory → Option (Memory × Decision)) (k : String) (p : Policy) (now : ℤ) (m : Memory)
    → IsLoaded k m (load_or_store k m)
    → (entry_or_fresh (view k m)).dead ≡ false
    → pos 1 ≤ℤ p.limit
    → attempt retry (λ n. n) k p now m ≡ some (allowed k p now m, (entry_outcome k p now m).1)
unfolding attempt allowed
attempt_quiet retry k p now m l alive h =
    let (m', a) = load_or_store k m in
    let same = touched k now m (m', a) l in
    let live_ : ((touch a (i64 now) m').heap a).dead ≡ false = rw same alive in
    rw (live_, attempt) (admit_at_found a (found_entry k now m) p now (touch a (i64 now) m') same h)

allowed-IsAllowed :
    (k : String) (p : Policy) (now : ℤ) (m : Memory)
    → IsLoaded k m (load_or_store k m)
    → IsAllowed k p now m (allowed k p now m)
unfolding allowed touch
allowed-IsAllowed k p now m l =
    let (m', a) = load_or_store k m in
    let seen = write a (record (m'.heap a) { last_seen = i64 now }) m' in
    let sound : IsSound seen = write-IsSound a _ m' l.sound in
    record {
      own = view-write_self k a _ seen l.found;
      others = λ j n.
          view-write_ne k j a _ seen sound l.found n
          ∙ view-write_ne k j a _ m' l.sound l.found n
          ∙ l.others j n;
      sound = write-IsSound a _ seen sound;
    }

-- On a live entry `Allow` decides in the first round and always returns a decision.
pub allow_quiet :
    (k : String) (p : Policy) (now : ℤ) (m : Memory)
    → IsSound m
    → (entry_or_fresh (view k m)).dead ≡ false
    → (m' : Memory) × (allow nobody k p now m ≡ some (m', (entry_outcome k (normalize p) now m).1))
      × IsAllowed k (normalize p) now m m'
unfolding allow
allow_quiet k p now m s alive =
    let l = load_or_store-IsLoaded k m s in
    (
      allowed k (normalize p) now m,
      attempt_quiet (allow_loop 7 nobody k (normalize p) now) k (normalize p) now m l alive
          (normalize-IsEnforceable p).limit_low,
      allowed-IsAllowed k (normalize p) now m l,
    )
