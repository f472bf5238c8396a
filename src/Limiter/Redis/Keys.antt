-- ===== src/Limiter/Redis/Keys.antt =====
-- internal/limiter/redis.go: the walks over the keys of the prefix, ActiveKeys and Reset, and Ping
-- and Close. The server's keyspace is an interface; a loop over the cursor is a recursion on fuel,
-- one unit for a round, and `none` is the lack of it.
pub mod Iteration
pub mod Resetting
pub mod Counting
pub mod TwoKeys
mod Tests
use Prim.Native.String.{◌++◌ as join}
use rate_limiting_reverse_pr.Prelude.{
  ℕ, zero, suc, ◌+◌, Bool, true, false, String, Option, none, some, List, [], ◌∷◌, ◌==◌, leb, ltb,
  if◌then◌else◌, length,
}
use rate_limiting_reverse_pr.Prelude.Int.{ℤ, pos, pos_part, leb_ℤ}
use rate_limiting_reverse_pr.Prelude.Dict.{Dict, store}
use rate_limiting_reverse_pr.Prelude.Text.{trim_prefix}
use rate_limiting_reverse_pr.Limiter.Redis.{Carried, returned, failed}
use rate_limiting_reverse_pr.Limiter.Stores.{unavailable_error}

-- SCAN from a cursor with a pattern and a count, which gives keys and the next cursor; the
-- pipeline of ZCARDs; DEL, which gives how many keys it removed; and PING.
pub record Keyspace : Type 1 where
  pub State : Type 0
  pub scan : ℕ → String → ℕ → State → Carried (List String × ℕ)
  pub zcards : List String → State → Carried (List ℕ)
  pub del : List String → State → State × Carried ℕ
  pub ping : State → Option String

-- `Ping`
unfoldable pub ping_redis : (keyspace : Keyspace) → keyspace.State → Option String
ping_redis keyspace s = elim (keyspace.ping s) [
  | none ↦ none
  | some err ↦ some (unavailable_error err)
]

-- One batch of counts into the usage, until it is full: the loop over `keys` in ActiveKeys. A
-- command without a reply has the value 0.
unfoldable pub take_batch : String → ℕ → List String → List ℕ → Dict ℕ → Dict ℕ
take_batch prefix max_keys [] counts out = out
take_batch prefix max_keys (k ∷ keys) [] out = out
take_batch prefix max_keys (k ∷ keys) (n ∷ counts) out =
    let more = store (trim_prefix k prefix) n out in
    if n == 0
    then take_batch prefix max_keys keys counts out
    else if leb max_keys (length more)
    then more
    else take_batch prefix max_keys keys counts more

module _ (keyspace : Keyspace) where
  open keyspace use {State, scan, zcards, del}

  -- One round of ActiveKeys after its SCAN.
  unfoldable pub count_batch : String → ℕ → List String → State → Dict ℕ → Carried (Dict ℕ)
  unfolding take_batch
  count_batch prefix max_keys [] s out = returned out
  count_batch prefix max_keys (k ∷ keys) s out = elim (zcards (k ∷ keys) s) [
    | failed err ↦ failed (unavailable_error err)
    | returned counts ↦ returned (take_batch prefix max_keys (k ∷ keys) counts out)
  ]

  -- The loop of ActiveKeys; `states` are the states of the server in its rounds.
  unfoldable pub active_loop : String → ℕ → ℕ → ℕ → (ℕ → State) → Dict ℕ → Option (Carried (Dict ℕ))
  unfolding count_batch
  active_loop prefix max_keys zero cursor states out = none
  active_loop prefix max_keys (suc fuel) cursor states out =
      if leb max_keys (length out)
      then some (returned out)
      else elim (scan cursor (join prefix "*") 100 (states fuel)) [
        | failed err ↦ some (failed (unavailable_error err))
        | returned (keys, next) ↦ elim (count_batch prefix max_keys keys (states fuel) out) [
          | failed err ↦ some (failed err)
          | returned out' ↦
              if next == 0
              then some (returned out')
              else active_loop prefix max_keys fuel next states out'
        ]
      ]

  -- `ActiveKeys`
  unfoldable pub active_keys : String → ℤ → ℕ → (ℕ → State) → Option (Carried (Dict ℕ))
  unfolding active_loop
  active_keys prefix max_keys fuel states =
      let bound = if leb_ℤ max_keys (pos 0) then 100 else pos_part max_keys in
      active_loop prefix bound fuel 0 states []

  -- DEL of the keys of one SCAN, if there are any.
  unfoldable pub del_batch : List String → State → State × Carried ℕ
  del_batch [] s = (s, returned 0)
  del_batch (k ∷ keys) s = del (k ∷ keys) s

  -- The loop of Reset: the keys that were deleted, and the error of the call, if there is one.
  unfoldable pub reset_loop : String → ℕ → ℕ → ℕ → State → Option (State × ℕ × Option String)
  unfolding del_batch
  reset_loop prefix zero cursor deleted s = none
  reset_loop prefix (suc fuel) cursor deleted s = elim (scan cursor (join prefix "*") 200 s) [
    | failed err ↦ some (s, deleted, some (unavailable_error err))
    | returned (keys, next) ↦
        let (s', removed) = del_batch keys s in
        elim removed [
          | failed err ↦ some (s', deleted, some (unavailable_error err))
          | returned n ↦
              if next == 0
              then some (s', deleted + n, none)
              else reset_loop prefix fuel next (deleted + n) s'
        ]
  ]

  -- `Reset`
  unfoldable pub reset_keys : String → ℕ → State → Option (State × ℕ × Option String)
  unfolding reset_loop
  reset_keys prefix fuel s = reset_loop prefix fuel 0 0 s
