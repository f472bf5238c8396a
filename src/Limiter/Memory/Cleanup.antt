-- ===== src/Limiter/Memory/Cleanup.antt =====
-- `cleanup` of internal/limiter/memory.go on the whole map: every entry gets what the janitor does
-- to one entry (`Memory.Sweep`), in whatever order the `Range` visits them.
use rate_limiting_reverse_pr.Prelude.{
  ℕ, ◌≡◌, refl, sym, ◌∙◌, true, false, none, some, String, [], ◌∷◌, arith, if◌then◌else◌,
  Option-cases, Bool-cases, inl, inr, subst,
}
use rate_limiting_reverse_pr.Prelude.Int.{ℤ, pos, i64, ◌+ℤ◌}
use rate_limiting_reverse_pr.Prelude.Dict.{
  Dict, lookup, delete, is_some, same_key, lookup-delete, IsKeyed, same_key_self, same_key→eq,
}
use rate_limiting_reverse_pr.Limiter.Memory.{
  MemEntry, Memory, write, compare_and_delete, sweep_entry, sweep_at, sweep_all, cleanup,
}
use rate_limiting_reverse_pr.Limiter.Memory.Sweep.{swept}
use rate_limiting_reverse_pr.Limiter.Memory.Store.{
  view, IsSound, view-write_self, view-write_ne, write-IsSound, delete-IsSound, view-delete,
}

record IsSwept (now_ns : ℤ) (k : String) (m r : Memory) : Type 0 where
  own : view k r ≡ swept m.min_ttl now_ns (view k m)
  others : (j : String) → same_key k j ≡ false → view j r ≡ view j m
  lookups : (j : String) → same_key k j ≡ false → lookup j r.entries ≡ lookup j m.entries
  sound : IsSound r
  min_ttl : r.min_ttl ≡ m.min_ttl

view_found :
    (k : String) (a : ℕ) (m : Memory) → lookup k m.entries ≡ some a → view k m ≡ some (m.heap a)
unfolding view
view_found k a m h = rw (h, view)

-- `CompareAndDelete` of the object that the map holds.
deleted :
    (k : String) (a : ℕ) (m : Memory)
    → lookup k m.entries ≡ some a
    → compare_and_delete k a m ≡ (record m { entries = delete k m.entries }, true)
unfolding compare_and_delete
deleted k a m h = rw (h, compare_and_delete) (ground arith)

evicted :
    (now_ns : ℤ) (k : String) (a : ℕ) (m : Memory)
    → lookup k m.entries ≡ some a
    → (sweep_entry m.min_ttl now_ns (m.heap a)).1 ≡ true
    → let w = write a (sweep_entry m.min_ttl now_ns (m.heap a)).0 m in
      sweep_at now_ns k a m
      ≡ record w { entries = delete k m.entries; evictions = i64 (m.evictions +ℤ pos 1) }
unfolding sweep_at write
evicted now_ns k a m h idle =
    ground (arith, deleted k a (write a (sweep_entry m.min_ttl now_ns (m.heap a)).0 m) h)

spared :
    (now_ns : ℤ) (k : String) (a : ℕ) (m : Memory)
    → (sweep_entry m.min_ttl now_ns (m.heap a)).1 ≡ false
    → sweep_at now_ns k a m ≡ write a (sweep_entry m.min_ttl now_ns (m.heap a)).0 m
unfolding sweep_at
spared now_ns k a m busy = rw (busy, sweep_at)

swept_idle :
    (now_ns : ℤ) (k : String) (a : ℕ) (m : Memory)
    → lookup k m.entries ≡ some a
    → (sweep_entry m.min_ttl now_ns (m.heap a)).1 ≡ true
    → swept m.min_ttl now_ns (view k m) ≡ none
unfolding swept
swept_idle now_ns k a m h idle = rw (view_found k a m h) (rw (idle, swept))

swept_busy :
    (now_ns : ℤ) (k : String) (a : ℕ) (m : Memory)
    → lookup k m.entries ≡ some a
    → (sweep_entry m.min_ttl now_ns (m.heap a)).1 ≡ false
    → swept m.min_ttl now_ns (view k m) ≡ some (sweep_entry m.min_ttl now_ns (m.heap a)).0
unfolding swept
swept_busy now_ns k a m h busy = rw (view_found k a m h) (rw (busy, swept))

evicted-IsSwept :
    (now_ns : ℤ) (k : String) (a : ℕ) (e : MemEntry) (n : ℤ) (m : Memory)
    → IsSound m
    → lookup k m.entries ≡ some a
    → swept m.min_ttl now_ns (view k m) ≡ none
    → IsSwept now_ns k m (record (write a e m) { entries = delete k m.entries; evictions = n })
unfolding view write
evicted-IsSwept now_ns k a e n m s h none_ = record {
  own = ground (arith, view-delete k k (write a e m), same_key_self k, none_);
  others = λ j ne. ground (arith, view-delete k j (write a e m), view-write_ne k j a e m s h ne);
  lookups = λ j ne. ground (arith, lookup-delete k j m.entries);
  sound =
      let d = delete-IsSound k m s in record { below = d.below; apart = d.apart; keyed = d.keyed };
  min_ttl = refl;
}

sweep_at-IsSwept :
    (now_ns : ℤ) (k : String) (a : ℕ) (m : Memory)
    → IsSound m
    → lookup k m.entries ≡ some a
    → IsSwept now_ns k m (sweep_at now_ns k a m)
unfolding write
sweep_at-IsSwept now_ns k a m s h = elim (Bool-cases (sweep_entry m.min_ttl now_ns (m.heap a)).1) [
  | inl idle ↦
      rw (evicted now_ns k a m h idle)
        (evicted-IsSwept now_ns k a _ _ m s h (swept_idle now_ns k a m h idle))
  | inr busy ↦ rw (spared now_ns k a m busy) (record {
    own = view-write_self k a _ m h ∙ sym (swept_busy now_ns k a m h busy);
    others = λ j ne. view-write_ne k j a _ m s h ne;
    lookups = λ j ne. refl;
    sound = write-IsSound a _ m s;
    min_ttl = refl;
  })
]

-- What the map holds of the snapshot that is still to be visited.
abbrev Present : Dict ℕ → Memory → Type 0
Present es m = (k : String) (a : ℕ) → lookup k es ≡ some a → lookup k m.entries ≡ some a

Present-step :
    (k : String) (a : ℕ) (es : Dict ℕ) (m r : Memory)
    → is_some (lookup k es) ≡ false
    → ((j : String) → same_key k j ≡ false → lookup j r.entries ≡ lookup j m.entries)
    → Present ((k, a) ∷ es) m
    → Present es r
unfolding lookup
Present-step k a es m r n same h j b e = elim (Bool-cases (same_key k j)) [
  | inl hit ↦ absurd (clash (subst (λ i. lookup i es ≡ some b) (sym (same_key→eq k j hit)) e))
  | inr miss ↦ same j miss ∙ h j b (ground arith)
]
  where
    clash : lookup k es ≡ some b → ⊥
    clash f = ground arith

pub record IsSweptAll (now_ns : ℤ) (es : Dict ℕ) (m r : Memory) : Type 0 where
  pub views :
      (j : String)
      → view j r ≡ (if is_some (lookup j es) then swept m.min_ttl now_ns (view j m) else view j m)
  pub sound : IsSound r
  pub min_ttl : r.min_ttl ≡ m.min_ttl

swept_first :
    (now_ns : ℤ) (k j : String) (a : ℕ) (es : Dict ℕ) (m r q : Memory)
    → is_some (lookup k es) ≡ false
    → IsSwept now_ns k m r
    → IsSweptAll now_ns es r q
    → view j q
      ≡ (if is_some (lookup j ((k, a) ∷ es)) then swept m.min_ttl now_ns (view j m) else view j m)
unfolding lookup
swept_first now_ns k j a es m r q n one rest = elim (Bool-cases (same_key k j)) [
  | inl hit ↦ rw (← same_key→eq k j hit) (ground (arith, rest.views k, one.own, same_key_self k, n))
  | inr miss ↦ ground (arith, rest.views j, one.others j miss, one.min_ttl)
]

sweep_all-IsSweptAll :
    (now_ns : ℤ) (es : Dict ℕ) (m : Memory)
    → IsSound m
    → IsKeyed es
    → Present es m
    → IsSweptAll now_ns es m (sweep_all now_ns es m)
unfolding sweep_all lookup
sweep_all-IsSweptAll now_ns [] m s d h = record { views = λ j. refl; sound = s; min_ttl = refl }
sweep_all-IsSweptAll now_ns ((k, a) ∷ es) m s d h =
    let r = sweep_at now_ns k a m in
    let one : IsSwept now_ns k m r =
      sweep_at-IsSwept now_ns k a m s (h k a (ground (arith, same_key_self k))) in
    let rest : IsSweptAll now_ns es r (sweep_all now_ns es r) =
      sweep_all-IsSweptAll now_ns es r one.sound d.1 (Present-step k a es m r d.0 one.lookups h) in
    record {
      views = λ j. swept_first now_ns k j a es m r (sweep_all now_ns es r) d.0 one rest;
      sound = rest.sound;
      min_ttl = rest.min_ttl ∙ one.min_ttl;
    }

view_missing : (k : String) (m : Memory) → lookup k m.entries ≡ none → view k m ≡ none
unfolding view
view_missing k m h = rw (h, view)

-- The janitor's run does to every client's entry what it does to one.
pub view-cleanup :
    (now : ℤ) (j : String) (m : Memory)
    → IsSound m
    → view j (cleanup now m) ≡ swept m.min_ttl (i64 now) (view j m)
unfolding cleanup swept
view-cleanup now j m s =
    let all = sweep_all-IsSweptAll (i64 now) m.entries m s s.keyed (λ k a e. e) in
    elim (Option-cases (lookup j m.entries)) [
      | inl e ↦ ground (arith, all.views j, view_missing j m e)
      | inr (a, e) ↦ ground (arith, all.views j)
    ]

pub cleanup-IsSound : (now : ℤ) (m : Memory) → IsSound m → IsSound (cleanup now m)
unfolding cleanup
cleanup-IsSound now m s = (sweep_all-IsSweptAll (i64 now) m.entries m s s.keyed (λ k a e. e)).sound
