-- ===== src/Limiter/Redis.antt =====
-- internal/limiter/redis.go: the limiter that the fleet shares. The Redis server is the interface
-- `SortedSets`; one run of the Lua script is one step on its state. Lua's numbers are doubles, and
-- exact here, since every number of the script lies below 2 ^ 53 for instants before 2116. How the
-- client library carries the script to the server, the conversion of a float64 and the `%v` of a reply
-- are parameters.
pub mod Server
pub mod Script
pub mod Fleet
pub mod Delays
pub mod Replies
pub mod Peeking
pub mod Members
pub mod Closing
pub mod Instances
pub mod Together
pub mod Serving
pub mod Keys
mod InMemory
mod Tests
use Prim.Native.String.{◌++◌ as join}
use rate_limiting_reverse_pr.Prelude.{
  ℕ, ◌≡◌, refl, ◌⊎◌, inl, inr, Bool, true, String, Option, none, some, List, [], ◌∷◌, if◌then◌else◌,
}
use rate_limiting_reverse_pr.Prelude.Int.{
  ℤ, pos, ◌+ℤ◌, ◌-ℤ◌, ◌*ℤ◌, ltb_ℤ, eqb_ℤ, i64, div_floor, div_trunc,
}
use rate_limiting_reverse_pr.Prelude.Strconv.{atoi}
use rate_limiting_reverse_pr.Prelude.Radix.{format36}
use rate_limiting_reverse_pr.Limiter.Policy.{Policy, Decision, normalize, deny, backend_redis}
use rate_limiting_reverse_pr.Limiter.Memory.{◌>>=◌}
use rate_limiting_reverse_pr.Limiter.Manager.{Backend, Reply, answered, unavailable, bump64}

-- The commands of Redis that the limiter uses, on the state of the server: ZREMRANGEBYSCORE from
-- -inf, ZCARD, ZADD, PEXPIRE, the score of ZRANGE 0 0, and ZCOUNT above a score. `lapse` is the
-- removal of a key whose time to live has passed.
pub record SortedSets : Type 1 where
  pub State : Type 0
  pub zremrangebyscore : String → ℤ → State → State
  pub zcard : String → State → ℕ
  pub zadd : String → ℤ → String → State → State
  pub pexpire : String → ℤ → State → State
  pub zrange_first : String → State → Option ℤ
  pub zcount_above : String → ℤ → State → ℕ
  pub lapse : String → State → State

-- A value of a script's reply, as the client library hands it over.
pub data Value (Float : Type 0) : Type 0 where
  int64_value : ℤ → Value Float
  int_value : ℤ → Value Float
  float_value : Float → Value Float
  string_value : String → Value Float
  other_value : String → Value Float

-- A call of the client library: its result or its error.
pub data Carried (A : Type 0) : Type 0 where
  returned : A → Carried A
  failed : String → Carried A

pub Carried-cases :
    {A : Type 0} (c : Carried A)
    → ((err : String) × (c ≡ failed err)) ⊎ ((a : A) × (c ≡ returned a))
Carried-cases (failed err) = inl (err, refl)
Carried-cases (returned a) = inr (a, refl)

-- `reset_ms` of the script, from the score of the oldest member.
unfoldable pub reset_ms : ℤ → ℤ → Option ℤ → ℤ
reset_ms now_ms window_ms none = window_ms
reset_ms now_ms window_ms (some oldest) =
    let reset = (oldest +ℤ window_ms) -ℤ now_ms in if ltb_ℤ reset (pos 0) then pos 0 else reset

-- `p.Window.Milliseconds()`, at least 1.
unfoldable pub window_in_ms : Policy → ℤ
window_in_ms p =
    let window_ms = div_trunc p.window 1000000 in
    if ltb_ℤ window_ms (pos 1) then pos 1 else window_ms

-- `now.UnixMilli()`
unfoldable pub unix_milli : ℤ → ℤ
unix_milli now = div_floor now 1000000

-- `fmt.Errorf("%w: %v", ErrUnavailable, err)`
unfoldable pub wrapped : String → Reply
wrapped err = unavailable (join "limiter: backend unavailable: " err)

-- The decision from the script's three numbers.
unfoldable pub decide : Policy → ℤ → ℤ → ℤ → ℤ → Decision
unfolding deny
decide p now allowed used reset =
    let wait = i64 (reset *ℤ pos 1000000) in
    let reset_at = now +ℤ wait in
    let left = i64 (p.limit -ℤ used) in
    if eqb_ℤ allowed (pos 0) then deny backend_redis p used reset_at now else record {
      allowed = true;
      limit = p.limit;
      window = p.window;
      used = used;
      remaining = if ltb_ℤ left (pos 0) then pos 0 else left;
      reset_at = reset_at;
      retry_after = wait;
      backend = backend_redis;
    }

-- `member`, with the sequence number that `seq.Add(1)` returns.
unfoldable pub member : String → ℤ → ℕ → String
unfolding format36
member instance_id now seq =
    join instance_id (join "-" (join (format36 (i64 now)) (join "-" (format36 (pos seq)))))

module _ {Float : Type 0} (int_of_float : Float → ℤ) (format : List (Value Float) → String) where
  -- `toInt`; the text of its error is never used.
  unfoldable pub to_int : Value Float → Option ℤ
  to_int (int64_value n) = some n
  to_int (int_value n) = some n
  to_int (float_value x) = some (int_of_float x)
  to_int (string_value s) = atoi s
  to_int (other_value t) = none

  -- `toInt` on each of the three values.
  unfoldable pub read_three : Value Float → Value Float → Value Float → Option (ℤ × ℤ × ℤ)
  unfolding to_int
  read_three a b c = do
    allowed ← to_int a
    used ← to_int b
    reset ← to_int c
    some (allowed, used, reset)

  unfoldable pub read_reply : Policy → ℤ → List (Value Float) → Reply
  unfolding read_three wrapped decide
  read_reply p now (a ∷ b ∷ c ∷ []) = elim (read_three a b c) [
    | some (allowed, used, reset) ↦ answered (decide p now allowed used reset)
    | none ↦ wrapped (join "malformed script reply " (format (a ∷ b ∷ c ∷ [])))
  ]
  read_reply p now raw = wrapped (join "unexpected script reply " (format raw))

  unfoldable pub settle_call : Policy → ℤ → Carried (List (Value Float)) → Reply
  unfolding read_reply wrapped
  settle_call p now (returned raw) = read_reply p now raw
  settle_call p now (failed err) = wrapped err

module _ (server : SortedSets) where
  open server use {State, zremrangebyscore, zcard, zadd, pexpire, zrange_first, zcount_above}

  -- `slidingWindowScript`: allowed, used and reset_ms.
  unfoldable pub sliding_window : String → ℤ → ℤ → ℤ → String → State → State × ℤ × ℤ × ℤ
  unfolding reset_ms
  sliding_window key now_ms window_ms limit member s =
      let pruned = zremrangebyscore key (now_ms -ℤ window_ms) s in
      let used = pos (zcard key pruned) in
      let room = ltb_ℤ used limit in
      let counted = if room then zadd key now_ms member pruned else pruned in
      let used' = if room then used +ℤ pos 1 else used in
      let allowed = if room then pos 1 else pos 0 in
      let kept = pexpire key window_ms counted in
      (kept, allowed, used', reset_ms now_ms window_ms (zrange_first key kept))

  -- `RedisLimiter`, with the server that its client reaches.
  pub record RedisLimiter : Type 0 where
    pub prefix : String
    pub instance_id : String
    pub seq : ℕ
    pub owned : Bool
    pub state : State

  -- `Peek`, with the error of the call, if it failed.
  unfoldable pub peek : Option String → String → Policy → ℤ → RedisLimiter → Carried ℕ
  unfolding unix_milli
  peek (some err) key q now r = failed (join "limiter: backend unavailable: " err)
  peek none key q now r =
      returned (zcount_above (join r.prefix key) (unix_milli (now -ℤ (normalize q).window)) r.state)

  module _ {Float : Type 0} (int_of_float : Float → ℤ) (format : List (Value Float) → String)
      (carry : (State → State × ℤ × ℤ × ℤ) → State → State × Carried (List (Value Float))) where
    -- `Allow`
    unfoldable pub allow : String → Policy → ℤ → RedisLimiter → RedisLimiter × Reply
    unfolding settle_call sliding_window member window_in_ms unix_milli
    allow key q now r =
        let p = normalize q in
        let seq = bump64 r.seq in
        let (state, result) =
          carry
            (sliding_window (join r.prefix key) (unix_milli now) (window_in_ms p) p.limit
              (member r.instance_id now seq))
            r.state in
        (record r { seq = seq; state = state }, settle_call int_of_float format p now result)

    -- The primary limiter of the manager.
    abbrev pub backend : Backend
    backend = record { Store = RedisLimiter; call = allow }
