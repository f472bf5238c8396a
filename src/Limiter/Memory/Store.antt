-- ===== src/Limiter/Memory/Store.antt =====
-- The map of entries (internal/limiter/memory.go, `MemoryLimiter.entries`): what a call does to
-- the entry of its own key, and that it leaves those of the other keys alone.
use text.Mathlib.TextEquality.{eq_iff}
use rate_limiting_reverse_pr.Prelude.{
  ℕ, ◌+◌, ◌<◌, ◌≡◌, refl, true, false, Option, none, some, String, arith, if◌then◌else◌,
  Option-cases, inl, inr,
}
use rate_limiting_reverse_pr.Prelude.Dict.{
  lookup, store, delete, same_key, lookup-store, lookup-delete, IsKeyed, store-IsKeyed,
  delete-IsKeyed, same_key_self,
}
use rate_limiting_reverse_pr.Limiter.Memory.{
  MemEntry, Memory, fresh_entry, new_memory, write, load_or_store,
}
use rate_limiting_reverse_pr.Limiter.Memory.Tracks.{entry_or_fresh}

-- The entry of a key.
unfoldable pub view : String → Memory → Option MemEntry
view k m = elim (lookup k m.entries) [ none ↦ none | some a ↦ some (m.heap a) ]

-- Entries are allocated, no two keys share one, and no key stands twice.
pub record IsSound (m : Memory) : Type 0 where
  pub below : (k : String) (a : ℕ) → lookup k m.entries ≡ some a → a < m.fresh
  pub apart :
      (k j : String) (a : ℕ)
      → lookup k m.entries ≡ some a
      → lookup j m.entries ≡ some a
      → same_key k j ≡ true
  pub keyed : IsKeyed m.entries

pub new_memory-IsSound : IsSound new_memory
unfolding new_memory lookup
new_memory-IsSound = record {
  below = λ k a h. ground arith;
  apart = λ k j a h i. ground arith;
  keyed = tt;
}

-- A write through a key's own address.
pub view-write_self :
    (k : String) (a : ℕ) (e : MemEntry) (m : Memory)
    → lookup k m.entries ≡ some a
    → view k (write a e m) ≡ some e
unfolding view write
view-write_self k a e m h = ground arith

pub view-write_ne :
    (k j : String) (a : ℕ) (e : MemEntry) (m : Memory)
    → IsSound m
    → lookup k m.entries ≡ some a
    → same_key k j ≡ false
    → view j (write a e m) ≡ view j m
unfolding view write
view-write_ne k j a e m s h n = elim (Option-cases (lookup j m.entries)) [
  | inl e ↦ rw (e, view)
  | inr (b, f) ↦ rw (f, view) (ground (arith, s.apart k j a h))
]

pub write-IsSound : (a : ℕ) (e : MemEntry) (m : Memory) → IsSound m → IsSound (write a e m)
unfolding write
write-IsSound a e m s = record { below = s.below; apart = s.apart; keyed = s.keyed }

-- What `LoadOrStore` leaves: the key's entry, old or fresh, at the address that it returns.
pub record IsLoaded (k : String) (m : Memory) (r : Memory × ℕ) : Type 0 where
  pub found : lookup k r.0.entries ≡ some r.1
  pub entry : r.0.heap r.1 ≡ entry_or_fresh (view k m)
  pub others : (j : String) → same_key k j ≡ false → view j r.0 ≡ view j m
  pub sound : IsSound r.0
  pub min_ttl : r.0.min_ttl ≡ m.min_ttl

stored-IsSound :
    (k : String) (m : Memory)
    → IsSound m
    → lookup k m.entries ≡ none
    → IsSound (record (write m.fresh fresh_entry m) {
      fresh = m.fresh + 1;
      entries = store k m.fresh m.entries;
    })
unfolding write
stored-IsSound k m s e = record {
  below = λ j a h. ground (arith, lookup-store k j m.fresh m.entries, s.below j a);
  apart = λ i j a h g. ground (
    arith,
    lookup-store k i m.fresh m.entries,
    lookup-store k j m.fresh m.entries,
    s.apart i j a,
    s.below i a,
    s.below j a,
    eq_iff k i,
    eq_iff k j,
    eq_iff i j,
  );
  keyed = store-IsKeyed k m.fresh m.entries s.keyed;
}

stored-view :
    (k j : String) (m : Memory)
    → IsSound m
    → same_key k j ≡ false
    → view j (record (write m.fresh fresh_entry m) {
      fresh = m.fresh + 1;
      entries = store k m.fresh m.entries;
    })
      ≡ view j m
unfolding view write
stored-view k j m s n = elim (Option-cases (lookup j m.entries)) [
  | inl e ↦ ground (arith, lookup-store k j m.fresh m.entries)
  | inr (b, f) ↦ ground (arith, lookup-store k j m.fresh m.entries, s.below j b)
]

pub load_or_store-IsLoaded :
    (k : String) (m : Memory) → IsSound m → IsLoaded k m (load_or_store k m)
unfolding load_or_store view
load_or_store-IsLoaded k m s = elim (Option-cases (lookup k m.entries)) [
  | inl e ↦
      rw (e, load_or_store)
        (record {
          found = ground (arith, lookup-store k k m.fresh m.entries, same_key_self k);
          entry = rw (e, view) (ground arith);
          others = λ j n. stored-view k j m s n;
          sound = stored-IsSound k m s e;
          min_ttl = ground arith;
        })
  | inr (a, e) ↦
      rw (e, load_or_store)
        (record {
          found = e;
          entry = rw (e, view);
          others = λ j n. refl;
          sound = s;
          min_ttl = refl;
        })
]

-- What one step of the janitor's `Range` does.
pub delete-IsSound :
    (k : String) (m : Memory) → IsSound m → IsSound (record m { entries = delete k m.entries })
delete-IsSound k m s = record {
  below = λ j a h. ground (arith, lookup-delete k j m.entries, s.below j a);
  apart = λ i j a h g.
      ground (arith, lookup-delete k i m.entries, lookup-delete k j m.entries, s.apart i j a);
  keyed = delete-IsKeyed k m.entries s.keyed;
}

pub view-delete :
    (k j : String) (m : Memory)
    → view j (record m { entries = delete k m.entries }) ≡ (if same_key k j then none else view j m)
unfolding view
view-delete k j m = ground (arith, lookup-delete k j m.entries)
