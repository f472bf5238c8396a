-- ===== src/Limiter/Redis/Keys/Tests.antt =====
-- Concrete walks over a server with two keys.
use rate_limiting_reverse_pr.Prelude.{
  ℕ, ◌<◌, ◌≤◌, ◌≡◌, refl, ◌⊎◌, true, false, String, none, some, [], ◌∷◌, All, length,
}
use rate_limiting_reverse_pr.Prelude.Int.{pos, ◌≤ℤ◌}
use rate_limiting_reverse_pr.Prelude.Text.{strip, trim_prefix}
use rate_limiting_reverse_pr.Prelude.Dict.{Dict, store}
use rate_limiting_reverse_pr.Limiter.Redis.{returned, failed}
use rate_limiting_reverse_pr.Limiter.Redis.Keys.{reset_keys, active_keys}
use rate_limiting_reverse_pr.Limiter.Redis.Keys.Counting.{active_keys_lem}
use rate_limiting_reverse_pr.Limiter.Redis.Keys.TwoKeys.{
  Pair, two_keys, two_keys_laws, first_rounds, held_most,
}

abbrev full : Pair
full = (true, true)

reset_run : reset_keys two_keys "rl:" 2 full ≡ some ((false, false), 2, none)
unfolding reset_keys
reset_run = refl

-- More is asked for than there is, and less.
active_run :
    active_keys two_keys "rl:" (pos 5) 2 (λ i. full) ≡ some (returned (("a", 3) ∷ ("b", 3) ∷ []))
unfolding active_keys trim_prefix strip store
active_run = refl

active_run_cut : active_keys two_keys "rl:" (pos 1) 2 (λ i. full) ≡ some (returned (("a", 3) ∷ []))
unfolding active_keys trim_prefix strip store
active_run_cut = refl

active_keys_lem_example :
    ((err : String) × (active_keys two_keys "rl:" (pos 1) 2 (λ i. full) ≡ some (failed err)))
    ⊎ ((out : Dict ℕ) × (active_keys two_keys "rl:" (pos 1) 2 (λ i. full) ≡ some (returned out))
        × (((pos 1 ≤ℤ pos 0) × (length out ≤ 100)) ⊎ (pos (length out) ≤ℤ pos 1))
        × All (λ entry. 0 < entry.1) out)
active_keys_lem_example =
    active_keys_lem two_keys "rl:" two_keys_laws (pos 1) 2 2 (λ i. full) (λ i. held_most full)
      (first_rounds 100 2)
