-- ===== src/Limiter/Redis/Keys/Counting.antt =====
-- `ActiveKeys` of internal/limiter/redis.go: it is bounded, and it ends.
use Prim.Native.String.{◌++◌ as join}
use rate_limiting_reverse_pr.Prelude.{
  ℕ, zero, suc, ◌+◌, ◌≤◌, ◌<◌, ◌≡◌, refl, subst, ap, ◌⊎◌, inl, inr, Bool-cases, ◌==◌, String,
  Option, some, List, [], ◌∷◌, All, leb, arith, length,
}
use rate_limiting_reverse_pr.Prelude.Int.{ℤ, pos, pos_part, leb_ℤ, ◌≤ℤ◌}
use rate_limiting_reverse_pr.Prelude.Dict.{Dict, store, length-store}
use rate_limiting_reverse_pr.Prelude.Text.{trim_prefix}
use rate_limiting_reverse_pr.Limiter.Redis.{Carried, Carried-cases, returned, failed}
use rate_limiting_reverse_pr.Limiter.Stores.{unavailable_error}
use rate_limiting_reverse_pr.Limiter.Redis.Keys.{
  Keyspace, take_batch, count_batch, active_loop, active_keys,
}
use rate_limiting_reverse_pr.Limiter.Redis.Keys.Iteration.{KeyspaceLaws, Walk, start, step}

-- Usage that the dashboard can show: no more keys than it asked for, and every one in use.
pub record IsBounded (bound : ℕ) (out : Dict ℕ) : Type 0 where
  pub keys : length out ≤ bound
  pub in_use : All (λ entry. 0 < entry.1) out

store_in_use :
    (k : String) (n : ℕ) (out : Dict ℕ)
    → 0 < n
    → All (λ entry. 0 < entry.1) out
    → All (λ entry. 0 < entry.1) (store k n out)
unfolding store
store_in_use k n [] p a = (p, tt)
store_in_use k n ((j, m) ∷ out) p a = ground (arith, store_in_use k n out p a.1)

take_batch-IsBounded :
    (prefix : String) (bound : ℕ) (keys : List String) (counts : List ℕ) (out : Dict ℕ)
    → length out < bound
    → All (λ entry. 0 < entry.1) out
    → IsBounded bound (take_batch prefix bound keys counts out)
unfolding take_batch
take_batch-IsBounded prefix bound [] counts out room used = record {
  keys = omega arith;
  in_use = used;
}
take_batch-IsBounded prefix bound (k ∷ keys) [] out room used = record {
  keys = omega arith;
  in_use = used;
}
take_batch-IsBounded prefix bound (k ∷ keys) (n ∷ counts) out room used =
    elim (Bool-cases (n == 0)) [
      | inl idle ↦
          rw (take_batch, idle) (take_batch-IsBounded prefix bound keys counts out room used)
      | inr busy ↦
          let more = store (trim_prefix k prefix) n out in
          let used' = store_in_use (trim_prefix k prefix) n out (ground (arith, busy)) used in
          elim (Bool-cases (leb bound (length more))) [
            | inl full ↦
                rw (take_batch, busy, full)
                  (record {
                    keys = ground (arith, length-store (trim_prefix k prefix) n out);
                    in_use = used';
                  })
            | inr open_ ↦
                rw (take_batch, busy, open_)
                  (take_batch-IsBounded prefix bound keys counts more (ground (arith, open_)) used')
          ]
    ]

abbrev usage_or : Dict ℕ → Carried (Dict ℕ) → Dict ℕ
usage_or out (failed err) = out
usage_or out (returned out') = out'

module _ (keyspace : Keyspace) (prefix : String) (laws : KeyspaceLaws keyspace prefix) where
  -- A batch that is answered stays within the bound.
  count_batch-IsBounded :
      (bound : ℕ) (keys : List String) (s : keyspace.State) (out out' : Dict ℕ)
      → length out < bound
      → All (λ entry. 0 < entry.1) out
      → count_batch keyspace prefix bound keys s out ≡ returned out'
      → IsBounded bound out'
  unfolding count_batch
  count_batch-IsBounded bound [] s out out' room used e =
      subst (IsBounded bound) (ap (usage_or out) e) (record { keys = omega arith; in_use = used })
  count_batch-IsBounded bound (k ∷ keys) s out out' room used e =
      elim (Carried-cases (keyspace.zcards (k ∷ keys) s)) [
        | inl (err, bad) ↦ cc (rw (count_batch, bad) at e)
        | inr (counts, good) ↦
            subst (IsBounded bound) (ap (usage_or out) (rw (count_batch, good) at e))
              (take_batch-IsBounded prefix bound (k ∷ keys) counts out room used)
      ]

  -- A run that failed, or one within the bound.
  abbrev Ended : ℕ → Option (Carried (Dict ℕ)) → Type 0
  Ended bound run =
      ((err : String) × (run ≡ some (failed err)))
      ⊎ ((out : Dict ℕ) × (run ≡ some (returned out)) × IsBounded bound out)

  active_loop-Ended :
      (most bound fuel c n : ℕ) (states : ℕ → keyspace.State) (out : Dict ℕ)
      → ((i : ℕ) → laws.size (states i) ≤ most)
      → Walk keyspace laws.size most (join prefix "*") 100 c n
      → laws.rounds 100 most < n + fuel
      → IsBounded bound out
      → Ended bound (active_loop keyspace prefix bound fuel c states out)
  unfolding active_loop
  active_loop-Ended most bound zero c n states out small w enough b =
      absurd (omega (arith, laws.ends most 100 c n w))
  active_loop-Ended most bound (suc fuel) c n states out small w enough b =
      elim (Bool-cases (leb bound (length out))) [
        | inl full ↦ inr (out, rw (active_loop, full) refl, b)
        | inr open_ ↦ elim (Carried-cases (keyspace.scan c (join prefix "*") 100 (states fuel))) [
          | inl (err, bad) ↦ inl (unavailable_error err, rw (active_loop, open_) (rw bad refl))
          | inr ((keys, next), found) ↦
              elim (Carried-cases (count_batch keyspace prefix bound keys (states fuel) out)) [
                | inl (err, bad) ↦ inl (err, rw (active_loop, open_) (rw found (rw bad refl)))
                | inr (out', good) ↦
                    let b' =
                      count_batch-IsBounded bound keys (states fuel) out out'
                        (ground (arith, open_)) b.in_use good in
                    elim (Bool-cases (next == 0)) [
                      | inl ended ↦
                          inr (out', rw (active_loop, open_) (rw found (rw (good, ended) refl)), b')
                      | inr going ↦
                          let w' : Walk keyspace laws.size most (join prefix "*") 100 next (suc n) =
                            step (states fuel) keys next w (small fuel) found
                              (λ e. ground (arith, going)) in
                          rw (active_loop, open_)
                            (rw found (
                              rw (good, going)
                                (active_loop-Ended most bound fuel next (suc n) states out' small w'
                                  (omega arith) b')))
                    ]
              ]
        ]
      ]

  -- While the server never holds more than `most` keys, ActiveKeys ends within one round more than
  -- an iteration over that many keys takes, however its keys change from round to round. When it reports no error, it gives at most the keys that were asked
  -- for, a hundred if that was no positive number, and each with a usage above 0.
  pub active_keys_lem :
      (max_keys : ℤ) (most fuel : ℕ) (states : ℕ → keyspace.State)
      → ((i : ℕ) → laws.size (states i) ≤ most)
      → laws.rounds 100 most < fuel
      → ((err : String) × (active_keys keyspace prefix max_keys fuel states ≡ some (failed err)))
        ⊎ ((out : Dict ℕ) × (active_keys keyspace prefix max_keys fuel states ≡ some (returned out))
            × (((max_keys ≤ℤ pos 0) × (length out ≤ 100)) ⊎ (pos (length out) ≤ℤ max_keys))
            × All (λ entry. 0 < entry.1) out)
  unfolding active_keys
  active_keys_lem max_keys most fuel states small enough =
      elim (Bool-cases (leb_ℤ max_keys (pos 0))) [
        | inl none_ ↦
            rw (active_keys, none_) (from 100 (λ out high. inl (ground (arith, none_), high)))
        | inr given ↦
            rw (active_keys, given)
              (from (pos_part max_keys) (λ out high. inr (ground (arith, given, high))))
      ]
    where
      from :
          (bound : ℕ)
          → ((out : Dict ℕ)
              → length out ≤ bound
              → ((max_keys ≤ℤ pos 0) × (length out ≤ 100)) ⊎ (pos (length out) ≤ℤ max_keys))
          → ((err : String) × (active_loop keyspace prefix bound fuel 0 states []
                ≡ some (failed err)))
            ⊎ ((out : Dict ℕ) × (active_loop keyspace prefix bound fuel 0 states []
                  ≡ some (returned out))
                × (((max_keys ≤ℤ pos 0) × (length out ≤ 100)) ⊎ (pos (length out) ≤ℤ max_keys))
                × All (λ entry. 0 < entry.1) out)
      from bound fits =
          elim (active_loop-Ended most bound fuel 0 0 states [] small start (omega arith)
            (record { keys = omega arith; in_use = tt })) [
              | inl failure ↦ inl failure
              | inr (out, run, b) ↦ inr (out, run, fits out b.keys, b.in_use)
            ]
