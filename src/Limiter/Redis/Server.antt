-- ===== src/Limiter/Redis/Server.antt =====
-- What internal/limiter/redis.go relies on of Redis' sorted sets, as its documentation states it.
use mathlib.Core.List.{head?}
use rate_limiting_reverse_pr.Prelude.{
  ◌≡◌, ◌⊎◌, Bool, true, false, String, List, [], ◌∷◌, ◌++◌, if◌then◌else◌, length,
}
use rate_limiting_reverse_pr.Prelude.Int.{ℤ, pos, ◌<ℤ◌}
use rate_limiting_reverse_pr.Prelude.Dict.{same_key}
use rate_limiting_reverse_pr.Limiter.Window.{live, IsUpTo}
use rate_limiting_reverse_pr.Limiter.Redis.{SortedSets}

-- `scores` are the scores of a key's set in Redis' order, `has` tells whether a set has a member.
-- ZADD of a new member with a score that none exceeds puts that score last; nothing but ZADD
-- brings in a member; PEXPIRE with a positive time to live changes no set.
pub record SortedSetLaws (server : SortedSets) : Type 0 where
  pub scores : String → server.State → List ℤ
  pub has : String → String → server.State → Bool
  pub zcard_scores : (k : String) (s : server.State) → server.zcard k s ≡ length (scores k s)
  pub zrange_first_scores :
      (k : String) (s : server.State) → server.zrange_first k s ≡ head? (scores k s)
  pub zcount_above_scores :
      (k : String) (c : ℤ) (s : server.State)
      → server.zcount_above k c s ≡ length (live c (scores k s))
  pub scores_zremrangebyscore :
      (k j : String) (c : ℤ) (s : server.State)
      → scores j (server.zremrangebyscore k c s)
        ≡ (if same_key k j then live c (scores j s) else scores j s)
  pub has_zremrangebyscore :
      (k j m : String) (c : ℤ) (s : server.State)
      → has j m (server.zremrangebyscore k c s) ≡ true
      → has j m s ≡ true
  pub scores_zadd :
      (k j m : String) (score : ℤ) (s : server.State)
      → has k m s ≡ false
      → IsUpTo score (scores k s)
      → scores j (server.zadd k score m s)
        ≡ (if same_key k j then scores j s ++ score ∷ [] else scores j s)
  pub has_zadd :
      (k j m n : String) (score : ℤ) (s : server.State)
      → has j n (server.zadd k score m s) ≡ true
      → (same_key m n ≡ true) ⊎ (has j n s ≡ true)
  pub scores_pexpire :
      (k j : String) (ttl : ℤ) (s : server.State)
      → pos 0 <ℤ ttl
      → scores j (server.pexpire k ttl s) ≡ scores j s
  pub has_pexpire :
      (k j m : String) (ttl : ℤ) (s : server.State)
      → has j m (server.pexpire k ttl s) ≡ true
      → has j m s ≡ true
  pub scores_lapse :
      (k j : String) (s : server.State)
      → scores j (server.lapse k s) ≡ (if same_key k j then [] else scores j s)
  pub has_lapse :
      (k j m : String) (s : server.State) → has j m (server.lapse k s) ≡ true → has j m s ≡ true
