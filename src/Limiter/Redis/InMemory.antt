-- ===== src/Limiter/Redis/InMemory.antt =====
-- A server in memory that keeps the laws of Redis' sorted sets, for the examples of
-- internal/limiter/redis.go.
use mathlib.Core.List.{head?}
use rate_limiting_reverse_pr.Prelude.{
  ◌≡◌, refl, ◌⊎◌, Bool, true, false, ◌||◌, String, Option, none, some, List, [], ◌∷◌, ◌++◌, arith,
  Bool-cases, inl, inr, subst, if◌then◌else◌, length,
}
use rate_limiting_reverse_pr.Prelude.Int.{ℤ, pos, ltb_ℤ, leb_ℤ}
use rate_limiting_reverse_pr.Prelude.Dict.{same_key, same_key→eq}
use rate_limiting_reverse_pr.Limiter.Window.{live, IsUpTo}
use rate_limiting_reverse_pr.Limiter.Redis.{SortedSets}
use rate_limiting_reverse_pr.Limiter.Redis.Server.{SortedSetLaws}

abbrev pub ZSet : Type 0
ZSet = List (ℤ × String)

abbrev pub scores_of : ZSet → List ℤ
scores_of [] = []
scores_of ((t, m) ∷ z) = t ∷ scores_of z

abbrev pub holds : String → ZSet → Bool
holds n [] = false
holds n ((t, m) ∷ z) = same_key m n || holds n z

abbrev pub above : ℤ → ZSet → ZSet
above c [] = []
above c ((t, m) ∷ z) = if ltb_ℤ c t then (t, m) ∷ above c z else above c z

-- A member's score replaces the old one.
abbrev pub without : String → ZSet → ZSet
without n [] = []
without n ((t, m) ∷ z) = if same_key m n then without n z else (t, m) ∷ without n z

abbrev pub insert : ℤ → String → ZSet → ZSet
insert c n [] = (c, n) ∷ []
insert c n ((t, m) ∷ z) = if leb_ℤ t c then (t, m) ∷ insert c n z else (c, n) ∷ (t, m) ∷ z

abbrev pub first : ZSet → Option ℤ
first [] = none
first ((t, m) ∷ z) = some t

abbrev pub Store : Type 0
Store = String → ZSet

abbrev pub change : String → (ZSet → ZSet) → Store → Store
change k f s j = if same_key k j then f (s j) else s j

abbrev pub in_memory : SortedSets
in_memory = record {
  State = Store;
  zremrangebyscore = λ k c s. change k (above c) s;
  zcard = λ k s. length (scores_of (s k));
  zadd = λ k c n s. change k (λ z. insert c n (without n z)) s;
  pexpire = λ k ttl s. if ltb_ℤ (pos 0) ttl then s else change k (λ z. []) s;
  zrange_first = λ k s. first (s k);
  zcount_above = λ k c s. length (scores_of (above c (s k)));
  lapse = λ k s. change k (λ z. []) s;
}

pub scores_of-above : (c : ℤ) (z : ZSet) → scores_of (above c z) ≡ live c (scores_of z)
scores_of-above c [] = refl
scores_of-above c ((t, m) ∷ z) = ground (arith, scores_of-above c z)

pub holds-above : (c : ℤ) (n : String) (z : ZSet) → holds n (above c z) ≡ true → holds n z ≡ true
holds-above c n [] h = h
holds-above c n ((t, m) ∷ z) h = ground (arith, holds-above c n z)

without_absent : (n : String) (z : ZSet) → holds n z ≡ false → without n z ≡ z
without_absent n [] h = refl
without_absent n ((t, m) ∷ z) h = ground (arith, without_absent n z)

scores_of-insert :
    (c : ℤ) (n : String) (z : ZSet)
    → IsUpTo c (scores_of z)
    → scores_of (insert c n z) ≡ scores_of z ++ c ∷ []
scores_of-insert c n [] u = refl
scores_of-insert c n ((t, m) ∷ z) u = ground (arith, scores_of-insert c n z u.1)

pub holds-insert :
    (c : ℤ) (m n : String) (z : ZSet)
    → holds n (insert c m z) ≡ true
    → (same_key m n ≡ true) ⊎ (holds n z ≡ true)
holds-insert c m n [] h = ground arith
holds-insert c m n ((t, i) ∷ z) h = ground (arith, holds-insert c m n z)

pub holds-without : (m n : String) (z : ZSet) → holds n (without m z) ≡ true → holds n z ≡ true
holds-without m n [] h = h
holds-without m n ((t, i) ∷ z) h = ground (arith, holds-without m n z)

scores_of-zadd :
    (c : ℤ) (n : String) (z : ZSet)
    → holds n z ≡ false
    → IsUpTo c (scores_of z)
    → scores_of (insert c n (without n z)) ≡ scores_of z ++ c ∷ []
scores_of-zadd c n z h u = rw (without_absent n z h) (scores_of-insert c n z u)

pub zadd_law :
    (k j m : String) (c : ℤ) (s : Store)
    → holds m (s k) ≡ false
    → IsUpTo c (scores_of (s k))
    → scores_of (change k (λ z. insert c m (without m z)) s j)
      ≡ (if same_key k j then scores_of (s j) ++ c ∷ [] else scores_of (s j))
zadd_law k j m c s new_ u = elim (Bool-cases (same_key k j)) [
  | inl hit ↦ rw hit (
      subst (λ i. scores_of (insert c m (without m (s i))) ≡ scores_of (s i) ++ c ∷ [])
        (same_key→eq k j hit) (scores_of-zadd c m (s k) new_ u))
  | inr miss ↦ rw miss
]

pub first-head? : (z : ZSet) → first z ≡ head? (scores_of z)
first-head? [] = refl
first-head? ((t, m) ∷ z) = refl

abbrev pub in_memory_laws : SortedSetLaws in_memory
in_memory_laws = record {
  scores = λ k s. scores_of (s k);
  has = λ k n s. holds n (s k);
  zcard_scores = λ k s. refl;
  zrange_first_scores = λ k s. first-head? (s k);
  zcount_above_scores = λ k c s. rw (scores_of-above c (s k)) refl;
  scores_zremrangebyscore = λ k j c s. ground (arith, scores_of-above c (s j));
  has_zremrangebyscore = λ k j m c s h. ground (arith, holds-above c m (s j));
  scores_zadd = zadd_law;
  has_zadd = λ k j m n c s h.
      ground (arith, holds-insert c m n (without m (s j)), holds-without m n (s j));
  scores_pexpire = λ k j ttl s h. ground arith;
  has_pexpire = λ k j m ttl s h. ground arith;
  scores_lapse = λ k j s. ground arith;
  has_lapse = λ k j m s h. ground arith;
}
