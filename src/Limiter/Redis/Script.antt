-- ===== src/Limiter/Redis/Script.antt =====
-- One run of the Lua script (`slidingWindowScript` of internal/limiter/redis.go) against the log of
-- `Limiter.Window`, in milliseconds.
use mathlib.Core.List.{head?}
use rate_limiting_reverse_pr.Prelude.{
  ◌≡◌, refl, sym, ◌∙◌, ap, ◌⊎◌, inl, inr, Bool-cases, true, false, String, List, [], ◌∷◌, ◌++◌,
  arith, if◌then◌else◌, length, length-append,
}
use rate_limiting_reverse_pr.Prelude.Int.{ℤ, pos, ◌+ℤ◌, ◌-ℤ◌, ◌≤ℤ◌, ◌<ℤ◌, ltb_ℤ, -ℤ_parts}
use rate_limiting_reverse_pr.Prelude.Dict.{same_key, same_key_self}
use rate_limiting_reverse_pr.Limiter.Policy.{Policy}
use rate_limiting_reverse_pr.Limiter.Window.{live, IsUpTo, IsUpTo-mono, admits, record_request}
use rate_limiting_reverse_pr.Limiter.Memory.Ordered.{
  IsAscending, live-live, live-snoc, snoc-IsAscending, snoc-IsUpTo,
}
use rate_limiting_reverse_pr.Limiter.Redis.{SortedSets, sliding_window, reset_ms}
use rate_limiting_reverse_pr.Limiter.Redis.Server.{SortedSetLaws}

-- At the time `now` the scores of a set hold all of the log that can still matter.
pub record Mirrors (p : Policy) (now : ℤ) (kept log : List ℤ) : Type 0 where
  pub ascending : IsAscending log
  pub up_to : IsUpTo now log
  pub cutoff : ℤ
  pub behind : cutoff ≤ℤ now -ℤ p.window
  pub same : kept ≡ live cutoff log

IsUpTo-live : (now c : ℤ) (log : List ℤ) → IsUpTo now log → IsUpTo now (live c log)
IsUpTo-live now c [] u = tt
IsUpTo-live now c (t ∷ log) u = ground (arith, IsUpTo-live now c log u.1)

pub waits-Mirrors :
    (p : Policy) (now later : ℤ) (kept log : List ℤ)
    → now ≤ℤ later
    → Mirrors p now kept log
    → Mirrors p later kept log
waits-Mirrors p now later kept log le t = record {
  ascending = t.ascending;
  up_to = IsUpTo-mono now later log le t.up_to;
  cutoff = t.cutoff;
  behind = omega (arith, t.behind, -ℤ_parts now p.window, -ℤ_parts later p.window);
  same = t.same;
}

-- A request later, with nothing but the live part of the log kept.
pub record_request-Mirrors :
    (p : Policy) (now later : ℤ) (kept log : List ℤ)
    → now ≤ℤ later
    → Mirrors p now kept log
    → Mirrors p later
        (live (later -ℤ p.window) (record_request p later log))
        (record_request p later log)
unfolding record_request
record_request-Mirrors p now later kept log le t =
    let up : IsUpTo later log = IsUpTo-mono now later log le t.up_to in
    elim (Bool-cases (admits p later log)) [
      | inl yes_ ↦ rw yes_ (record {
        ascending = snoc-IsAscending later log t.ascending up;
        up_to = snoc-IsUpTo later later log up (omega arith);
        cutoff = later -ℤ p.window;
        behind = omega arith;
        same = refl;
      })
      | inr no_ ↦ rw no_ (record {
        ascending = t.ascending;
        up_to = up;
        cutoff = later -ℤ p.window;
        behind = omega arith;
        same = refl;
      })
    ]

module _ (server : SortedSets) (laws : SortedSetLaws server) where
  open server use {State, zremrangebyscore, zcard, zadd, pexpire, zrange_first}
  open laws use {scores, has}

  -- What a run leaves and returns, in terms of the log after the request.
  pub record IsRun (k n : String) (p : Policy) (now : ℤ) (log : List ℤ) (s s' : State)
      (reply : ℤ × ℤ × ℤ) : Type 0 where
    pub allowed : reply.0 ≡ (if admits p now log then pos 1 else pos 0)
    pub used : reply.1 ≡ pos (length (live (now -ℤ p.window) (record_request p now log)))
    pub reset :
        reply.2 ≡ reset_ms now p.window (head? (live (now -ℤ p.window) (record_request p now log)))
    pub own : scores k s' ≡ live (now -ℤ p.window) (record_request p now log)
    pub others : (j : String) → same_key k j ≡ false → scores j s' ≡ scores j s
    pub members : (j m : String) → has j m s' ≡ true → (same_key n m ≡ true) ⊎ (has j m s ≡ true)

  module _ (k n : String) (p : Policy) (now later : ℤ) (log : List ℤ) (s : State)
      (positive : pos 0 <ℤ p.window) (new_ : has k n s ≡ false) (le : now ≤ℤ later)
      (t : Mirrors p now (scores k s) log) where
    abbrev pruned : State
    pruned = zremrangebyscore k (later -ℤ p.window) s

    pruned_scores : scores k pruned ≡ live (later -ℤ p.window) log
    pruned_scores =
        rw (laws.scores_zremrangebyscore k k (later -ℤ p.window) s, same_key_self k, t.same)
          (live-live t.cutoff (later -ℤ p.window) log
            (omega (arith, t.behind, -ℤ_parts now p.window, -ℤ_parts later p.window)))

    pruned_new : has k n pruned ≡ false
    pruned_new = elim (Bool-cases (has k n pruned)) [
      | inl yes_ ↦ cc (laws.has_zremrangebyscore k k n (later -ℤ p.window) s yes_, new_)
      | inr no_ ↦ no_
    ]

    room : ltb_ℤ (pos (zcard k pruned)) p.limit ≡ admits p later log
    unfolding admits
    room = rw (laws.zcard_scores k pruned, pruned_scores)

    up : IsUpTo later log
    up = IsUpTo-mono now later log le t.up_to

    pruned_up : IsUpTo later (scores k pruned)
    pruned_up = rw pruned_scores (IsUpTo-live later (later -ℤ p.window) log up)

    added_scores : scores k (zadd k later n pruned) ≡ live (later -ℤ p.window) (log ++ later ∷ [])
    added_scores =
        rw
          (laws.scores_zadd k k n later pruned pruned_new pruned_up, same_key_self k, pruned_scores)
          (sym (live-snoc (later -ℤ p.window) later log (omega (arith, -ℤ_parts later p.window))))

    kept_scores : (x : State) (j : String) → scores j (pexpire k p.window x) ≡ scores j x
    kept_scores x j = laws.scores_pexpire k j p.window x positive

    oldest : (x : State) → zrange_first k (pexpire k p.window x) ≡ head? (scores k x)
    oldest x = laws.zrange_first_scores k _ ∙ ap head? (kept_scores x k)

    pruned_others : (j : String) → same_key k j ≡ false → scores j pruned ≡ scores j s
    pruned_others j miss = rw (laws.scores_zremrangebyscore k j (later -ℤ p.window) s, miss) refl

    added_others :
        (j : String)
        → same_key k j ≡ false
        → scores j (pexpire k p.window (zadd k later n pruned)) ≡ scores j s
    added_others j miss =
        kept_scores _ j
        ∙ rw (laws.scores_zadd k j n later pruned pruned_new pruned_up, miss) (pruned_others j miss)

    pruned_count : zcard k pruned ≡ length (live (later -ℤ p.window) log)
    pruned_count = laws.zcard_scores k pruned ∙ ap length pruned_scores

    used_up :
        pos (zcard k pruned) +ℤ pos 1 ≡ pos (length (live (later -ℤ p.window) (log ++ later ∷ [])))
    unfolding ◌+ℤ◌
    used_up =
        rw
          (
            pruned_count,
            live-snoc (later -ℤ p.window) later log (omega (arith, -ℤ_parts later p.window)),
          )
          (ground (arith, length-append (live (later -ℤ p.window) log) (later ∷ [])))

    admitted-IsRun :
        admits p later log ≡ true
        → IsRun k n p later log s (pexpire k p.window (zadd k later n pruned)) (
          pos 1,
          pos (zcard k pruned) +ℤ pos 1,
          reset_ms later p.window (zrange_first k (pexpire k p.window (zadd k later n pruned))),
        )
    unfolding record_request ◌+ℤ◌
    admitted-IsRun yes_ = record {
      allowed = rw yes_ refl;
      used = rw (yes_, record_request) used_up;
      reset =
          rw (yes_, record_request)
            (ap (reset_ms later p.window) (oldest _ ∙ ap head? added_scores));
      own = rw (yes_, record_request) (kept_scores _ k ∙ added_scores);
      others = λ j miss. added_others j miss;
      members = λ j m h. elim (laws.has_zadd k j n m _ _ (laws.has_pexpire k j m _ _ h)) [
        | inl same ↦ inl same
        | inr old ↦ inr (laws.has_zremrangebyscore k j m _ s old)
      ];
    }

    refused-IsRun :
        admits p later log ≡ false
        → IsRun k n p later log s (pexpire k p.window pruned) (
          pos 0,
          pos (zcard k pruned),
          reset_ms later p.window (zrange_first k (pexpire k p.window pruned)),
        )
    unfolding record_request
    refused-IsRun no_ = record {
      allowed = rw no_ refl;
      used = rw (no_, record_request) (ap pos pruned_count);
      reset =
          rw (no_, record_request)
            (ap (reset_ms later p.window) (oldest _ ∙ ap head? pruned_scores));
      own = rw (no_, record_request) (kept_scores _ k ∙ pruned_scores);
      others = λ j miss. kept_scores _ j ∙ pruned_others j miss;
      members = λ j m h. inr (laws.has_zremrangebyscore k j m _ s (laws.has_pexpire k j m _ _ h));
    }

    -- The script answers as the log does, and the set still mirrors the log.
    pub sliding_window-IsRun :
        let (s', allowed, used, reset) = sliding_window server k later p.window p.limit n s in
        IsRun k n p later log s s' (allowed, used, reset)
    unfolding sliding_window
    sliding_window-IsRun = elim (Bool-cases (admits p later log)) [
      | inl yes_ ↦ rw (room ∙ yes_, sliding_window) (admitted-IsRun yes_)
      | inr no_ ↦ rw (room ∙ no_, sliding_window) (refused-IsRun no_)
    ]
