-- ===== src/Limiter/Redis/Instances.antt =====
-- The instances of the proxy that share a Redis (internal/limiter/redis.go): `NewRedisLimiter`,
-- `newInstanceID` and `Close`, and the members that the instances make up between them.
pub mod Tests
use rate_limiting_reverse_pr.Prelude.{
  ℕ, zero, suc, ◌+◌, ◌^◌, ◌≤◌, ◌<◌, ◌≡◌, ◌≢◌, refl, Bool-cases, inl, inr, Bool, true, false, ◌==◌,
  String, Option, none, some, List, [], ◌∷◌, arith, if◌then◌else◌, length, All, AreDistinct, subst,
}
use rate_limiting_reverse_pr.Prelude.Int.{ℤ, pos, ◌<ℤ◌, i64, i64_id}
use rate_limiting_reverse_pr.Prelude.Radix.{
  has_dash, format36, encode_hex, format36-has_dash, encode_hex-has_dash,
}
use rate_limiting_reverse_pr.Limiter.Policy.{backend_redis}
use rate_limiting_reverse_pr.Limiter.Manager.{bump64}
use rate_limiting_reverse_pr.Limiter.Redis.{SortedSets, RedisLimiter, member}
use rate_limiting_reverse_pr.Limiter.Redis.Members.{member_injective}

-- `newInstanceID`: the four bytes that crypto/rand gives, or `none` for its error, and the clock.
unfoldable pub new_instance_id : Option (List ℕ) → ℤ → String
unfolding encode_hex format36
new_instance_id (some bytes) now = encode_hex bytes
new_instance_id none now = format36 (i64 now)

-- `Name`
abbrev pub name_of_redis : String
name_of_redis = backend_redis

module _ (server : SortedSets) where
  -- `Client`: what stands for the client is the server that it reaches.
  unfoldable pub client_of : RedisLimiter server → server.State
  client_of r = r.state

  -- `NewRedisLimiter`
  unfoldable pub new_redis_limiter :
      Option (List ℕ) → ℤ → String → server.State → RedisLimiter server
  unfolding new_instance_id
  new_redis_limiter random now prefix s = record {
    prefix = prefix;
    instance_id = new_instance_id random now;
    seq = 0;
    owned = false;
    state = s;
  }

  -- `Close`, with what closing the client would return.
  unfoldable pub close_redis :
      (server.State → server.State × Option String)
      → RedisLimiter server
      → RedisLimiter server × Option String
  close_redis close_client r =
      if r.owned
      then (let (s, err) = close_client r.state in (record r { state = s }, err))
      else (r, none)

-- What requests of several instances make up in turn: the instance and the instant of each, with
-- the name and the last sequence number of each instance.
unfoldable pub make_members : (ℕ → String) → (ℕ → ℕ) → List (ℕ × ℕ) → List String
unfolding member
make_members ids seqs [] = []
make_members ids seqs ((i, now) ∷ es) =
    let n = bump64 (seqs i) in
    member (ids i) (pos now) n ∷ make_members ids (λ j. if i == j then n else seqs j) es

abbrev pub bytes_of : Option (List ℕ) → List ℕ
bytes_of none = []
bytes_of (some bytes) = bytes

-- Whether crypto/rand works or fails, the name of an instance that is started between 1970 and 2262
-- has no dash.
pub new_instance_id-has_dash :
    (random : Option (List ℕ)) (now : ℕ)
    → All (λ r. r < 256) (bytes_of random)
    → pos now <ℤ pos 9223372036854775808
    → has_dash (new_instance_id random (pos now)) ≡ false
unfolding new_instance_id
new_instance_id-has_dash (some bytes) now h early = encode_hex-has_dash bytes h
new_instance_id-has_dash none now h early =
    rw (i64_id (pos now) (omega (arith, early))) (format36-has_dash now)

-- The requests come from the first `count` instances, at instants before 2262.
abbrev pub AreFrom : ℕ → List (ℕ × ℕ) → Type 0
AreFrom count es = All (λ e. (e.0 < count) × (pos e.1 <ℤ pos 9223372036854775808)) es

-- No two of the first `count` instances have one name.
abbrev pub AreNamed : ℕ → (ℕ → String) → Type 0
AreNamed count ids = (i j : ℕ) → i < count → j < count → ids i ≡ ids j → i ≡ j

-- Before 2 ^ 64 requests a sequence number does not wrap.
pub bumped : (n k : ℕ) → n + suc k < 2 ^ 64 → bump64 n ≡ n + 1
bumped n k h = ground arith

module _ (count : ℕ) (ids : ℕ → String) (named : AreNamed count ids)
    (clean : (i : ℕ) → i < count → has_dash (ids i) ≡ false) where
  -- A sequence number that has been given is not given again.
  new_member :
      (i now n : ℕ) (seqs : ℕ → ℕ) (es : List (ℕ × ℕ))
      → i < count
      → n ≤ seqs i
      → pos now <ℤ pos 9223372036854775808
      → AreFrom count es
      → ((j : ℕ) → seqs j + length es < 2 ^ 64)
      → All (λ m. member (ids i) (pos now) n ≢ m) (make_members ids seqs es)
  unfolding make_members
  new_member i now n seqs [] here old early a room = tt
  new_member i now n seqs ((j, later) ∷ es) here old early a room =
      let b = bumped (seqs j) (length es) (room j) in
      (
        λ e.
            let (names, clocks, seqs_) =
              member_injective (ids i) (ids j) now later n (bump64 (seqs j)) (clean i here)
                (clean j a.0.0) early a.0.1 e in
            let same = named i j here a.0.0 names in
            let old' : n ≤ seqs j = subst (λ k. n ≤ seqs k) same old in
            omega (arith, seqs_, b, old'),
        new_member i now n (λ k. if j == k then bump64 (seqs j) else seqs k) es here (ground arith)
            early a.1 (λ k. ground (arith, room k, room j)),
      )

  make_members-AreDistinct :
      (seqs : ℕ → ℕ) (es : List (ℕ × ℕ))
      → AreFrom count es
      → ((j : ℕ) → seqs j + length es < 2 ^ 64)
      → AreDistinct (make_members ids seqs es)
  unfolding make_members
  make_members-AreDistinct seqs [] a room = tt
  make_members-AreDistinct seqs ((i, now) ∷ es) a room =
      let b = bumped (seqs i) (length es) (room i) in
      let seqs' : ℕ → ℕ = λ j. if i == j then bump64 (seqs i) else seqs j in
      let room' : (j : ℕ) → seqs' j + length es < 2 ^ 64 = λ j. ground (arith, room i, room j) in
      (
        new_member i now (bump64 (seqs i)) seqs' es a.0.0 (ground arith) a.0.1 a.1 room',
        make_members-AreDistinct seqs' es a.1 room',
      )

-- Among instances started by NewRedisLimiter between 1970 and 2262, whose random bytes or, where
-- crypto/rand fails, clocks give no two of them one name: the members that they make up are all
-- different, in whatever order their requests come and whatever their clocks read in that time, also
-- when these stand still or go back, for fewer than 2 ^ 64 requests.
pub instances_differ :
    (count : ℕ) (random : ℕ → Option (List ℕ)) (start : ℕ → ℕ) (es : List (ℕ × ℕ))
    → ((i : ℕ) → All (λ b. b < 256) (bytes_of (random i)))
    → ((i : ℕ) → pos (start i) <ℤ pos 9223372036854775808)
    → AreNamed count (λ i. new_instance_id (random i) (pos (start i)))
    → AreFrom count es
    → length es < 2 ^ 64
    → AreDistinct (make_members (λ i. new_instance_id (random i) (pos (start i))) (λ i. 0) es)
instances_differ count random start es bytes early named a few =
    make_members-AreDistinct count (λ i. new_instance_id (random i) (pos (start i))) named
      (λ i here. new_instance_id-has_dash (random i) (start i) (bytes i) (early i)) (λ i. 0) es a
      (λ j. omega arith)
