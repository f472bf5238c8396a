-- ===== src/Limiter/Memory.antt =====
-- internal/limiter/memory.go: the process-local limiter. Entries are objects on a heap, since a
-- goroutine may hold one that the janitor has taken out of the map meanwhile. What a mutex
-- protects is one step; `others` is what the other goroutines do between two steps. The clock's
-- reading is an argument. The capacity of the slice `hits` is not modelled: copying it to a
-- smaller array keeps its elements.
pub mod Ordered
pub mod Entry
pub mod Tracks
pub mod Sweep
pub mod Store
pub mod Cleanup
pub mod Decisions
pub mod Lowered
pub mod Allow
pub mod Trace
pub mod Limits
pub mod Clearing
pub mod Peeks
pub mod Sessions
pub mod Lifecycle
mod Tests
use mathlib.Core.List.{head?}
use rate_limiting_reverse_pr.Prelude.{
  ℕ, zero, suc, ◌+◌, Bool, true, false, String, Option, none, some, List, [], ◌∷◌, ◌++◌, ◌==◌,
  if◌then◌else◌, length, drop,
}
use rate_limiting_reverse_pr.Prelude.Int.{ℤ, pos, ◌+ℤ◌, ◌-ℤ◌, ◌*ℤ◌, leb_ℤ, ltb_ℤ, i64}
use rate_limiting_reverse_pr.Prelude.Dict.{Dict, lookup, store, delete}
use rate_limiting_reverse_pr.Limiter.Policy.{
  Policy, Decision, normalize, deny, delay, backend_memory,
}

infixl 5 ◌>>=◌
abbrev pub ◌>>=◌ {ℓ κ} : {A : Type ℓ} {B : Type κ} → Option A → (A → Option B) → Option B
none >>= f = none
some a >>= f = f a

pub record MemEntry : Type 0 where
  pub hits : List ℤ
  pub window : ℤ
  pub dead : Bool
  pub last_seen : ℤ

-- `&memEntry{}`
abbrev pub fresh_entry : MemEntry
fresh_entry = record { hits = []; window = pos 0; dead = false; last_seen = pos 0 }

-- The loop of `prune`: how many hits from the front are at or before the cutoff.
unfoldable pub expired_count : ℤ → List ℤ → ℕ
expired_count cutoff [] = 0
expired_count cutoff (t ∷ hits) = if leb_ℤ t cutoff then suc (expired_count cutoff hits) else 0

unfoldable pub prune : ℤ → List ℤ → List ℤ
prune cutoff hits = let i = expired_count cutoff hits in if i == 0 then hits else drop i hits

-- The decision on an admitted request, from the count and the oldest hit.
unfoldable pub accept : Policy → ℤ → ℤ → ℤ → Decision
unfolding delay
accept p used oldest now =
    let reset_at = i64 (oldest +ℤ p.window) in
    record {
      allowed = true;
      limit = p.limit;
      window = p.window;
      used = used;
      remaining = i64 (p.limit -ℤ used);
      reset_at = reset_at;
      retry_after = delay reset_at now;
      backend = backend_memory;
    }

-- The body of `Allow` between `e.mu.Lock()` and the return, under a normalised policy.
-- `none` is the panic of `e.hits[0]` on an empty slice.
unfoldable pub admit : MemEntry → Policy → ℤ → Option (MemEntry × Decision)
unfolding accept deny
admit e p now =
    let cutoff = i64 (i64 now -ℤ p.window) in
    let kept = prune cutoff e.hits in
    let pruned : MemEntry = record e { window = p.window; hits = kept } in
    let used = pos (length kept) in
    let hits = kept ++ i64 now ∷ [] in
    let counted : MemEntry = record pruned { hits = hits } in
    if leb_ℤ p.limit used
    then (do
      oldest ← head? kept
      some (pruned, deny backend_memory p used (i64 (oldest +ℤ p.window)) now))
    else (do oldest ← head? hits; some (counted, accept p (i64 (used +ℤ pos 1)) oldest now))

-- One entry under the janitor, and whether it was idle.
unfoldable pub sweep_entry : ℤ → ℤ → MemEntry → MemEntry × Bool
sweep_entry min_ttl now_ns e =
    let twice = i64 (pos 2 *ℤ e.window) in
    let ttl = if ltb_ℤ twice min_ttl then min_ttl else twice in
    if ltb_ℤ ttl (i64 (now_ns -ℤ e.last_seen))
    then (record e { dead = true; hits = [] }, true)
    else (record e { hits = prune (i64 (now_ns -ℤ e.window)) e.hits }, false)

pub record Memory : Type 0 where
  pub heap : ℕ → MemEntry
  pub fresh : ℕ
  pub entries : Dict ℕ
  pub evictions : ℤ
  pub min_ttl : ℤ

-- `NewMemoryLimiter`, without the janitor's goroutine.
unfoldable pub new_memory : Memory
new_memory = record {
  heap = λ _. fresh_entry;
  fresh = 0;
  entries = [];
  evictions = pos 0;
  min_ttl = pos 60000000000;
}

unfoldable pub write : ℕ → MemEntry → Memory → Memory
write a e m = record m { heap = λ b. if a == b then e else m.heap b }

unfoldable pub load_or_store : String → Memory → Memory × ℕ
unfolding write
load_or_store key m = elim (lookup key m.entries) [
  | some a ↦ (m, a)
  | none ↦ (
    record (write m.fresh fresh_entry m) {
      fresh = m.fresh + 1;
      entries = store key m.fresh m.entries;
    },
    m.fresh,
  )
]

unfoldable pub compare_and_delete : String → ℕ → Memory → Memory × Bool
compare_and_delete key a m = elim (lookup key m.entries) [
  | some b ↦ if a == b then (record m { entries = delete key m.entries }, true) else (m, false)
  | none ↦ (m, false)
]

-- `e.lastSeen.Store(nowNS)`
unfoldable pub touch : ℕ → ℤ → Memory → Memory
unfolding write
touch a now_ns m = write a (record (m.heap a) { last_seen = now_ns }) m

-- The locked section on the entry at `a`.
unfoldable pub admit_at : ℕ → Policy → ℤ → Memory → Option (Memory × Decision)
unfolding admit write
admit_at a p now m = do (e, d) ← admit (m.heap a) p now; some (write a e m, d)

-- The last resort: an entry that is in no map.
unfoldable pub admit_detached : Policy → ℤ → Memory → Option (Memory × Decision)
unfolding admit
admit_detached p now m = do (e, d) ← admit fresh_entry p now; some (m, d)

-- One round of the loop of `Allow`; `retry` is what follows when the entry was found dead.
unfoldable pub attempt :
    (Memory → Option (Memory × Decision))
    → (Memory → Memory)
    → String
    → Policy
    → ℤ
    → Memory
    → Option (Memory × Decision)
unfolding admit_at touch load_or_store compare_and_delete
attempt retry others key p now m =
    let (m', a) = load_or_store key m in
    let locked = others (touch a (i64 now) m') in
    elim (locked.heap a).dead [
      | true ↦ retry (compare_and_delete key a locked).0
      | false ↦ admit_at a p now locked
    ]

-- The loop, with the retries that are left; it gives up after the ninth dead entry.
unfoldable pub allow_loop :
    ℕ → (ℕ → Memory → Memory) → String → Policy → ℤ → Memory → Option (Memory × Decision)
unfolding attempt admit_detached
allow_loop zero others key p now m = attempt (admit_detached p now) (others 0) key p now m
allow_loop (suc left) others key p now m =
    attempt (allow_loop left others key p now) (others (suc left)) key p now m

-- `Allow`
unfoldable pub allow :
    (ℕ → Memory → Memory) → String → Policy → ℤ → Memory → Option (Memory × Decision)
unfolding allow_loop
allow others key p now m = allow_loop 8 others key (normalize p) now m

-- `Peek`: the usage, and the entry with its expired hits dropped.
unfoldable pub peek : String → Policy → ℤ → Memory → Memory × ℤ × Bool
unfolding write
peek key p now m = elim (lookup key m.entries) [
  | none ↦ (m, pos 0, false)
  | some a ↦
      let cutoff = i64 (i64 now -ℤ (normalize p).window) in
      let kept = prune cutoff (m.heap a).hits in
      (write a (record (m.heap a) { hits = kept }) m, pos (length kept), true)
]

unfoldable pub key_count : Memory → ℤ
key_count m = pos (length m.entries)

-- One step of the `Range` in `cleanup`.
unfoldable pub sweep_at : ℤ → String → ℕ → Memory → Memory
unfolding sweep_entry write compare_and_delete
sweep_at now_ns key a m =
    let (e, idle) = sweep_entry m.min_ttl now_ns (m.heap a) in
    let swept = write a e m in
    if idle
    then (let (m', deleted) = compare_and_delete key a swept in
        if deleted then record m' { evictions = i64 (m'.evictions +ℤ pos 1) } else m')
    else swept

unfoldable pub sweep_all : ℤ → Dict ℕ → Memory → Memory
unfolding sweep_at
sweep_all now_ns [] m = m
sweep_all now_ns ((key, a) ∷ rest) m = sweep_all now_ns rest (sweep_at now_ns key a m)

unfoldable pub cleanup : ℤ → Memory → Memory
unfolding sweep_all
cleanup now m = sweep_all (i64 now) m.entries m

-- `Reset`
unfoldable pub reset_all : Dict ℕ → Memory → Memory
unfolding write compare_and_delete
reset_all [] m = m
reset_all ((key, a) ∷ rest) m =
    reset_all rest (compare_and_delete key a (write a (record (m.heap a) { dead = true }) m)).0

unfoldable pub reset : Memory → Memory
unfolding reset_all
reset m = reset_all m.entries m
