-- ===== src/Limiter/Redis/Keys/Resetting.antt =====
-- `Reset` of internal/limiter/redis.go, when no other client of the server adds keys meanwhile.
use Prim.Native.String.{◌++◌ as join}
use rate_limiting_reverse_pr.Prelude.{
  ℕ, zero, suc, ◌+◌, ◌≤◌, ◌<◌, ◌≡◌, refl, ap, ◌∙◌, ◌⊎◌, inl, inr, Bool-cases, true, false, ◌==◌,
  String, Option, none, some, List, [], ◌∷◌, arith,
}
use rate_limiting_reverse_pr.Limiter.Redis.{Carried-cases, returned}
use rate_limiting_reverse_pr.Limiter.Stores.{unavailable_error}
use rate_limiting_reverse_pr.Limiter.Redis.Keys.{Keyspace, del_batch, reset_loop, reset_keys}
use rate_limiting_reverse_pr.Limiter.Redis.Keys.Iteration.{
  is_among, Iteration, last, more, IsMissed, KeyspaceLaws, Walk, start, step,
}

module _ (keyspace : Keyspace) (prefix : String) (laws : KeyspaceLaws keyspace prefix) where
  abbrev Rounds : Type 0
  Rounds = List (keyspace.State × List String)

  -- A run that failed; or one that ended, after an iteration that missed every key that is left.
  record IsCleared (c : ℕ) (s s' : keyspace.State) : Type 0 where
    rounds : Rounds
    walked : Iteration keyspace (join prefix "*") 200 c rounds
    missed :
        (k : String)
        → laws.present k s' ≡ true
        → (laws.present k s ≡ true) × IsMissed keyspace laws.present k rounds

  abbrev Failed : Option (keyspace.State × ℕ × Option String) → Type 0
  Failed run =
      (s' : keyspace.State) × (n : ℕ) × (err : String) × (run
        ≡ some (s', n, some (unavailable_error err)))

  abbrev Cleared : ℕ → keyspace.State → Option (keyspace.State × ℕ × Option String) → Type 0
  Cleared c s run = (s' : keyspace.State) × (n : ℕ) × (run ≡ some (s', n, none)) × IsCleared c s s'

  -- A key that is there after a batch was there before, and was not in it.
  del_batch_lem :
      (keys : List String) (n : ℕ) (s : keyspace.State) (k : String)
      → (del_batch keyspace keys s).1 ≡ returned n
      → laws.present k (del_batch keyspace keys s).0 ≡ true
      → (laws.present k s ≡ true) × (is_among k keys ≡ false)
  unfolding del_batch
  del_batch_lem [] n s k e p = (p, refl)
  del_batch_lem (j ∷ js) n s k e p = (
    laws.not_added (j ∷ js) s k p,
    elim (Bool-cases (is_among k (j ∷ js))) [
      | inl in_ ↦ cc (laws.deleted (j ∷ js) n s k e in_, p)
      | inr out ↦ out
    ],
  )

  del_batch_size :
      (keys : List String) (s : keyspace.State)
      → laws.size (del_batch keyspace keys s).0 ≤ laws.size s
  unfolding del_batch
  del_batch_size [] s = omega arith
  del_batch_size (j ∷ js) s = laws.no_larger (j ∷ js) s

  reset_loop_lem :
      (most fuel c n deleted : ℕ) (s : keyspace.State)
      → laws.size s ≤ most
      → Walk keyspace laws.size most (join prefix "*") 200 c n
      → laws.rounds 200 most < n + fuel
      → Failed (reset_loop keyspace prefix fuel c deleted s)
        ⊎ Cleared c s (reset_loop keyspace prefix fuel c deleted s)
  unfolding reset_loop
  reset_loop_lem most zero c n deleted s small w enough =
      absurd (omega (arith, laws.ends most 200 c n w))
  reset_loop_lem most (suc fuel) c n deleted s small w enough =
      elim (Carried-cases (keyspace.scan c (join prefix "*") 200 s)) [
        | inl (err, bad) ↦ inl (s, deleted, err, rw (reset_loop, bad) refl)
        | inr ((keys, next), found) ↦ elim (Carried-cases (del_batch keyspace keys s).1) [
          | inl (err, bad) ↦
              inl
                ((del_batch keyspace keys s).0, deleted, err, rw (reset_loop, found) (rw bad refl))
          | inr (gone, removed) ↦ elim (Bool-cases (next == 0)) [
            | inl ended ↦ inr (
              (del_batch keyspace keys s).0,
              deleted + gone,
              rw (reset_loop, found) (rw (removed, ended) refl),
              record {
                rounds = (s, keys) ∷ [];
                walked = last s keys (found ∙ ap (λ m. returned (keys, m)) (ground (arith, ended)));
                missed = λ k p.
                    let (before, out) = del_batch_lem keys gone s k removed p in
                    (before, (before, out, tt));
              },
            )
            | inr going ↦
                let s₁ = (del_batch keyspace keys s).0 in
                let w' : Walk keyspace laws.size most (join prefix "*") 200 next (suc n) =
                  step s keys next w small found (λ e. ground (arith, going)) in
                elim (reset_loop_lem most fuel next (suc n) (deleted + gone) s₁
                  (omega (arith, del_batch_size keys s)) w' (omega arith)) [
                    | inl (s', m, err, run) ↦
                        inl (s', m, err, rw (reset_loop, found) (rw (removed, going) run))
                    | inr (s', m, run, t) ↦ inr (
                      s',
                      m,
                      rw (reset_loop, found) (rw (removed, going) run),
                      record {
                        rounds = (s, keys) ∷ t.rounds;
                        walked = more s keys next t.rounds found t.walked;
                        missed = λ k p.
                            let (there, missed) = t.missed k p in
                            let (before, out) = del_batch_lem keys gone s k removed there in
                            (before, (before, out, missed));
                      },
                    )
                  ]
          ]
        ]
      ]

  -- Reset ends within one round more than an iteration over the keys takes that are there at first. When it reports no error,
  -- no key of the prefix is left.
  pub reset_keys_lem :
      (fuel : ℕ) (s : keyspace.State)
      → laws.rounds 200 (laws.size s) < fuel
      → ((s' : keyspace.State) × (n : ℕ) × (err : String) × (reset_keys keyspace prefix fuel s
            ≡ some (s', n, some (unavailable_error err))))
        ⊎ ((s' : keyspace.State) × (n : ℕ) × (reset_keys keyspace prefix fuel s
              ≡ some (s', n, none))
            × ((k : String) → laws.present (join prefix k) s' ≡ false))
  unfolding reset_keys
  reset_keys_lem fuel s enough =
      elim (reset_loop_lem (laws.size s) fuel 0 0 0 s (omega arith) start (omega arith)) [
        | inl failure ↦ inl failure
        | inr (s', n, run, t) ↦ inr (
          s',
          n,
          run,
          λ k. elim (Bool-cases (laws.present (join prefix k) s')) [
            | inl left ↦
                absurd (laws.complete 200 t.rounds k t.walked (t.missed (join prefix k) left).1)
            | inr gone ↦ gone
          ],
        )
      ]
