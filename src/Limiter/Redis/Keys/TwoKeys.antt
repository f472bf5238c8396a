-- ===== src/Limiter/Redis/Keys/TwoKeys.antt =====
-- A server with room for two keys, whose SCAN takes a round for each: a keyspace that keeps the laws
-- that internal/limiter/redis.go relies on.
use Prim.Native.String.{◌++◌ as join}
use rate_limiting_reverse_pr.Prelude.{
  ℕ, ◌+◌, ◌≤◌, ◌<◌, ◌≡◌, ◌⊎◌, refl, subst, ap, inl, inr, Bool, Bool-cases, true, false, not, ◌&&◌,
  ◌||◌, String, none, List, [], ◌∷◌, ◌==◌, arith, if◌then◌else◌, length,
}
use rate_limiting_reverse_pr.Prelude.Dict.{same_key, same_key→eq}
use rate_limiting_reverse_pr.Limiter.Redis.{returned}
use rate_limiting_reverse_pr.Limiter.Redis.Keys.{Keyspace}
use rate_limiting_reverse_pr.Limiter.Redis.Keys.Iteration.{
  is_among, Iteration, last, more, IsMissed, KeyspaceLaws, Walk, start, step,
}

abbrev pub Pair : Type 0
Pair = Bool × Bool

abbrev pub if_there : String → Bool → List String
if_there k there = if there then k ∷ [] else []

abbrev pub two_keys : Keyspace
two_keys = record {
  State = Pair;
  scan = λ c pattern count s.
      if c == 0 then returned (if_there "rl:a" s.0, 1) else returned (if_there "rl:b" s.1, 0);
  zcards = λ keys s. returned (if length keys == 0 then [] else 3 ∷ []);
  del = λ keys s. (
    (not (is_among "rl:a" keys) && s.0, not (is_among "rl:b" keys) && s.1),
    returned (length keys),
  );
  ping = λ s. none;
}

abbrev pub held : String → Pair → Bool
held k s = (same_key k "rl:a" && s.0) || (same_key k "rl:b" && s.1)

abbrev pub slot : ℕ → Pair → List String × ℕ
slot c s = if c == 0 then (if_there "rl:a" s.0, 1) else (if_there "rl:b" s.1, 0)

slot_lem :
    (c next : ℕ) (s : Pair) (pattern : String) (count : ℕ) (keys : List String)
    → two_keys.scan c pattern count s ≡ returned (keys, next)
    → (keys ≡ (slot c s).0) × (next ≡ (slot c s).1)
slot_lem c next s pattern count keys e = elim (Bool-cases (c == 0)) [
  | inl z ↦ (cc (rw z at e, z), cc (rw z at e, z))
  | inr nz ↦ (cc (rw nz at e, nz), cc (rw nz at e, nz))
]

missed_first :
    (k : String) (s : Pair)
    → held k s ≡ true
    → is_among k (if_there "rl:a" s.0) ≡ false
    → same_key k "rl:b" ≡ true
missed_first k s h m = ground arith

missed_second :
    (k : String) (s : Pair)
    → held k s ≡ true
    → is_among k (if_there "rl:b" s.1) ≡ false
    → same_key k "rl:a" ≡ true
missed_second k s h m = ground arith

not_both : (k : String) → same_key k "rl:a" ≡ true → same_key k "rl:b" ≡ true → ⊥
not_both k a b =
    let clash : same_key "rl:a" "rl:b" ≡ true =
      subst (λ j. same_key j "rl:b" ≡ true) (same_key→eq k "rl:a" a) b in
    cc clash

-- A round at the second cursor gives the second key.
second_round :
    (pattern : String) (count next : ℕ) (s : Pair) (keys : List String) (k : String)
    → two_keys.scan 1 pattern count s ≡ returned (keys, next)
    → held k s ≡ true
    → is_among k keys ≡ false
    → same_key k "rl:a" ≡ true
second_round pattern count next s keys k e h m =
    missed_second k s h
      (subst (λ ks. is_among k ks ≡ false) (slot_lem 1 next s pattern count keys e).0 m)

second_rounds :
    (pattern : String) (count c : ℕ) (rounds : List (Pair × List String)) (k : String)
    → Iteration two_keys pattern count c rounds
    → c ≡ 1
    → IsMissed two_keys held k rounds
    → same_key k "rl:a" ≡ true
second_rounds pattern count c rounds k (last s keys e) z m =
    second_round pattern count 0 s keys k
      (subst (λ d. two_keys.scan d pattern count s ≡ returned (keys, 0)) z e) m.0 m.1
second_rounds pattern count c rounds k (more s keys next rest e i) z m =
    second_round pattern count next s keys k
      (subst (λ d. two_keys.scan d pattern count s ≡ returned (keys, next)) z e) m.0 m.1

two_keys_complete :
    (pattern : String) (count c : ℕ) (rounds : List (Pair × List String)) (k : String)
    → Iteration two_keys pattern count c rounds
    → c ≡ 0
    → IsMissed two_keys held k rounds
    → ⊥
two_keys_complete pattern count c rounds k (last s keys e) z m =
    let (_, next) =
      slot_lem 0 0 s pattern count keys
        (subst (λ d. two_keys.scan d pattern count s ≡ returned (keys, 0)) z e) in
    absurd (omega (arith, next))
two_keys_complete pattern count c rounds k (more s keys next rest e i) z m =
    let (keys_, next_) =
      slot_lem 0 next s pattern count keys
        (subst (λ d. two_keys.scan d pattern count s ≡ returned (keys, next)) z e) in
    not_both k (second_rounds pattern count next rest k i next_ m.2)
      (missed_first k s m.0 (subst (λ ks. is_among k ks ≡ false) keys_ m.1))

also : (k j : String) (keys : List String) → same_key k j ≡ true → is_among k keys ≡ is_among j keys
also k j keys e = ap (λ x. is_among x keys) (same_key→eq k j e)

abbrev pub held_count : Pair → ℕ
held_count s = (if s.0 then 1 else 0) + (if s.1 then 1 else 0)

-- The first round leads to the second cursor, and that one back.
two_keys_walk :
    (most count c n : ℕ)
    → Walk two_keys held_count most "rl:*" count c n
    → ((c ≡ 0) × (n ≡ 0)) ⊎ ((c ≡ 1) × (n ≡ 1))
two_keys_walk most count c n start = inl (refl, refl)
two_keys_walk most count c n (step {c = d} s keys next w small e going) =
    let (_, next_) = slot_lem d next s "rl:*" count keys e in
    ground (arith, two_keys_walk most count d _ w, next_, going)

pub two_keys_laws : KeyspaceLaws two_keys "rl:"
two_keys_laws = record {
  present = held;
  size = held_count;
  rounds = λ count most. 1;
  ends = λ most count c n w. ground (arith, two_keys_walk most count c n w);
  complete = λ count rounds k i m. two_keys_complete "rl:*" count 0 rounds (join "rl:" k) i refl m;
  deleted = λ keys n s k e a. elim (Bool-cases (same_key k "rl:a")) [
    | inl e₁ ↦ ground (arith, a, also k "rl:a" keys e₁, not_both k e₁)
    | inr e₁ ↦ elim (Bool-cases (same_key k "rl:b")) [
      | inl e₂ ↦ ground (arith, a, also k "rl:b" keys e₂)
      | inr e₂ ↦ ground arith
    ]
  ];
  not_added = λ keys s k h. ground arith;
  no_larger = λ keys s. ground arith;
}

-- Two rounds are enough.
pub first_rounds : (count most : ℕ) → two_keys_laws.rounds count most < 2
unfolding two_keys_laws
first_rounds count most = omega arith

pub held_most : (s : Pair) → two_keys_laws.size s ≤ 2
unfolding two_keys_laws
held_most s = ground arith
