-- ===== src/Limiter/Memory/Clearing.antt =====
-- `Reset` of internal/limiter/memory.go on the whole map.
use rate_limiting_reverse_pr.Prelude.{
  ℕ, ◌≡◌, refl, ap, ◌∙◌, true, false, ◌==◌, String, none, some, [], ◌∷◌, arith,
}
use rate_limiting_reverse_pr.Prelude.Dict.{
  Dict, lookup, delete_first_key, delete, same_key_self, is_some, IsKeyed,
}
use rate_limiting_reverse_pr.Limiter.Memory.{Memory, write, compare_and_delete, reset_all, reset}
use rate_limiting_reverse_pr.Limiter.Memory.Store.{view, IsSound}

-- One step of `Reset` takes its own entry out of the map.
reset_step :
    (k : String) (a : ℕ) (rest : Dict ℕ) (m : Memory)
    → m.entries ≡ (k, a) ∷ rest
    → is_some (lookup k rest) ≡ false
    → (compare_and_delete k a (write a (record (m.heap a) { dead = true }) m)).0.entries ≡ rest
unfolding compare_and_delete write lookup
reset_step k a rest m e h =
    let found : lookup k m.entries ≡ some a = ap (lookup k) e ∙ rw (same_key_self k) refl in
    let same : (a == a) ≡ true = ground arith in
    rw (found, same, compare_and_delete) (ap (delete k) e ∙ delete_first_key k a rest h)

reset_all_entries :
    (rest : Dict ℕ) (m : Memory) → m.entries ≡ rest → IsKeyed rest → (reset_all rest m).entries ≡ []
unfolding reset_all
reset_all_entries [] m e h = e
reset_all_entries ((k, a) ∷ rest) m e h = reset_all_entries rest _ (reset_step k a rest m e h.0) h.1

-- After a reset no client is tracked.
pub reset_entries : (m : Memory) → IsKeyed m.entries → (reset m).entries ≡ []
unfolding reset
reset_entries m h = reset_all_entries m.entries m refl h

pub emptied-IsSound : (m : Memory) → m.entries ≡ [] → IsSound m
unfolding lookup
emptied-IsSound m e = record {
  below = λ k a h. ground arith;
  apart = λ k j a h i. ground arith;
  keyed = rw e tt;
}

pub view_emptied : (k : String) (m : Memory) → m.entries ≡ [] → view k m ≡ none
unfolding view lookup
view_emptied k m e = rw (e, view)
