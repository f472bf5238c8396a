-- ===== src/Limiter/Redis/Keys/Iteration.antt =====
-- What Redis documents about the commands that internal/limiter/redis.go walks its keys with.
use Prim.Native.String.{◌++◌ as join}
use rate_limiting_reverse_pr.Prelude.{
  ℕ, suc, ◌≤◌, ◌≡◌, ◌≢◌, Bool, true, false, ◌||◌, String, List, [], ◌∷◌,
}
use rate_limiting_reverse_pr.Prelude.Dict.{same_key}
use rate_limiting_reverse_pr.Limiter.Redis.{returned}
use rate_limiting_reverse_pr.Limiter.Redis.Keys.{Keyspace}

abbrev pub is_among : String → List String → Bool
is_among k [] = false
is_among k (j ∷ js) = same_key k j || is_among k js

module _ (keyspace : Keyspace) where
  -- A full iteration of SCAN from a cursor: the state in each round, and the keys it gave.
  pub data Iteration (pattern : String) (count : ℕ)
      : ℕ → List (keyspace.State × List String) → Type 0 where
    last :
        {c : ℕ} (s : keyspace.State) (keys : List String)
        → keyspace.scan c pattern count s ≡ returned (keys, 0)
        → Iteration pattern count c ((s, keys) ∷ [])
    more :
        {c : ℕ} (s : keyspace.State) (keys : List String) (next : ℕ)
        (rest : List (keyspace.State × List String))
        → keyspace.scan c pattern count s ≡ returned (keys, next)
        → Iteration pattern count next rest
        → Iteration pattern count c ((s, keys) ∷ rest)

  -- The states of an iteration all have a key, and none of its rounds gave it.
  abbrev pub IsMissed :
      (String → keyspace.State → Bool) → String → List (keyspace.State × List String) → Type 0
  IsMissed present k [] = Unit {0}
  IsMissed present k ((s, keys) ∷ rest) =
      (present k s ≡ true) × (is_among k keys ≡ false) × IsMissed present k rest

  -- Rounds of SCAN from the cursor 0 that have not come round to it, while the server never holds
  -- more than `most` keys.
  pub data Walk (size : keyspace.State → ℕ) (most : ℕ) (pattern : String) (count : ℕ)
      : ℕ → ℕ → Type 0 where
    start : Walk size most pattern count 0 0
    step :
        {c n : ℕ} (s : keyspace.State) (keys : List String) (next : ℕ)
        → Walk size most pattern count c n
        → size s ≤ most
        → keyspace.scan c pattern count s ≡ returned (keys, next)
        → next ≢ 0
        → Walk size most pattern count next (suc n)

  -- While the server's size is bounded, an iteration comes round within a number of rounds for that
  -- bound; a full iteration gives every key of the prefix that was there from its start to its end;
  -- and DEL removes the keys it is given and adds none.
  pub record KeyspaceLaws (prefix : String) : Type 0 where
    pub present : String → keyspace.State → Bool
    pub size : keyspace.State → ℕ
    pub rounds : ℕ → ℕ → ℕ
    pub ends :
        (most count c n : ℕ) → Walk size most (join prefix "*") count c n → n ≤ rounds count most
    pub complete :
        (count : ℕ) (rounds : List (keyspace.State × List String)) (k : String)
        → Iteration (join prefix "*") count 0 rounds
        → IsMissed present (join prefix k) rounds
        → ⊥
    pub deleted :
        (keys : List String) (n : ℕ) (s : keyspace.State) (k : String)
        → (keyspace.del keys s).1 ≡ returned n
        → is_among k keys ≡ true
        → present k (keyspace.del keys s).0 ≡ false
    pub not_added :
        (keys : List String) (s : keyspace.State) (k : String)
        → present k (keyspace.del keys s).0 ≡ true
        → present k s ≡ true
    pub no_larger :
        (keys : List String) (s : keyspace.State) → size (keyspace.del keys s).0 ≤ size s
