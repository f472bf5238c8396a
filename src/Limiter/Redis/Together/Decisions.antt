-- ===== src/Limiter/Redis/Together/Decisions.antt =====
-- Every decision of several instances is the contract's for one log of each client (`Allow` of
-- internal/limiter/redis.go).
use Prim.Native.String.{◌++◌ as join}
use rate_limiting_reverse_pr.Prelude.{
  ℕ, ◌+◌, ◌^◌, ◌≤◌, ◌<◌, ◌≡◌, refl, sym, ap, subst, inl, inr, Bool-cases, true, false, ◌==◌, String,
  List, [], ◌∷◌, arith, if◌then◌else◌, length,
}
use rate_limiting_reverse_pr.Prelude.Int.{ℤ, pos, ◌-ℤ◌, ◌≤ℤ◌, ◌<ℤ◌}
use rate_limiting_reverse_pr.Prelude.Dict.{same_key→eq}
use rate_limiting_reverse_pr.Prelude.Radix.{has_dash}
use rate_limiting_reverse_pr.Limiter.Policy.{Policy, normalize, normalize-IsEnforceable}
use rate_limiting_reverse_pr.Limiter.Window.{IsUpTo}
use rate_limiting_reverse_pr.Limiter.Memory.Trace.{Logs, note}
use rate_limiting_reverse_pr.Limiter.Manager.{bump64}
use rate_limiting_reverse_pr.Limiter.Redis.{
  SortedSets, Value, int64_value, Carried, returned, unix_milli, member, allow, sliding_window,
}
use rate_limiting_reverse_pr.Limiter.Redis.Server.{SortedSetLaws}
use rate_limiting_reverse_pr.Limiter.Redis.Script.{Mirrors, IsRun, sliding_window-IsRun}
use rate_limiting_reverse_pr.Limiter.Redis.Fleet.{note-Mirrors, lapse-Mirrors}
use rate_limiting_reverse_pr.Limiter.Redis.Members.{member_injective}
use rate_limiting_reverse_pr.Limiter.Redis.Instances.{AreNamed, bumped}
use rate_limiting_reverse_pr.Limiter.Redis.Replies.{in_ms, window_in_ms-IsWindowMs, allow-IsShared}
use rate_limiting_reverse_pr.Limiter.Redis.Together.{
  Step, asks, lapses, IsOrderly, AreShared, instance_at, ask, run_together,
}

module _ (server : SortedSets) {Float : Type 0} (int_of_float : Float → ℤ)
    (format : List (Value Float) → String)
    (carry : (server.State → server.State × ℤ × ℤ × ℤ)
      → server.State
      → server.State × Carried (List (Value Float)))
    (prefix : String) (q : Policy) (laws : SortedSetLaws server)
    (delivers : (f : server.State → server.State × ℤ × ℤ × ℤ) (s : server.State)
      → let (s', a, u, t) = f s in
        carry f s ≡ (s', returned (int64_value a ∷ int64_value u ∷ int64_value t ∷ []))) where
  module _ (count : ℕ) (ids : ℕ → String) (named : AreNamed count ids)
      (clean : (i : ℕ) → i < count → has_dash (ids i) ≡ false) where
    abbrev pub p : Policy
    p = in_ms (normalize q)

    -- A member that one of the instances has made up.
    abbrev pub IsMade : (ℕ → ℕ) → String → Type 0
    IsMade seqs m =
        (i : ℕ) × (now : ℕ) × (n : ℕ) × (i < count)
        × (pos now <ℤ pos 9223372036854775808)
        × (n ≤ seqs i)
        × (m ≡ member (ids i) (pos now) n)

    pub record IsJoined (seqs : ℕ → ℕ) (before : ℤ) (s : server.State) (logs : Logs) : Type 0 where
      pub sets : (k : String) → Mirrors p before (laws.scores k s) (logs k)
      pub made : (k m : String) → laws.has k m s ≡ true → IsMade seqs m

    fresh :
        (seqs : ℕ → ℕ) (before : ℤ) (s : server.State) (logs : Logs) (i now : ℕ) (k : String)
        → IsJoined seqs before s logs
        → i < count
        → pos now <ℤ pos 9223372036854775808
        → bump64 (seqs i) ≡ seqs i + 1
        → laws.has k (member (ids i) (pos now) (bump64 (seqs i))) s ≡ false
    fresh seqs before s logs i now k t here early b =
        elim (Bool-cases (laws.has k (member (ids i) (pos now) (bump64 (seqs i))) s)) [
          | inl yes_ ↦
              let (j, later, n, there, early', old, e) = t.made k _ yes_ in
              let (names, clocks, seqs_) =
                member_injective (ids i) (ids j) now later (bump64 (seqs i)) n (clean i here)
                  (clean j there) early early' e in
              let old' : n ≤ seqs i =
                subst (λ x. n ≤ seqs x) (sym (named i j here there names)) old in
              let again : ⊥ = omega (arith, seqs_, b, old') in absurd again
          | inr no_ ↦ no_
        ]

    script : (ℕ → ℕ) → ℕ → String → ℕ → server.State → server.State × ℤ × ℤ × ℤ
    script seqs i key now =
        sliding_window server (join prefix key) (unix_milli (pos now)) p.window p.limit
          (member (ids i) (pos now) (bump64 (seqs i)))

    ask_state :
        (seqs : ℕ → ℕ) (i : ℕ) (key : String) (now : ℕ) (s : server.State)
        → (ask server int_of_float format carry prefix ids q seqs i key now s).0.state
          ≡ (script seqs i key now s).0
    unfolding allow script
    ask_state seqs i key now s = ap (λ x. x.0) (delivers (script seqs i key now) s)

    script-IsRun :
        (seqs : ℕ → ℕ) (before : ℤ) (s : server.State) (logs : Logs) (i : ℕ) (key : String)
        (now : ℕ)
        → IsJoined seqs before s logs
        → i < count
        → pos now <ℤ pos 9223372036854775808
        → before ≤ℤ unix_milli (pos now)
        → bump64 (seqs i) ≡ seqs i + 1
        → let k = join prefix key in
          IsRun server laws k
            (member (ids i) (pos now) (bump64 (seqs i)))
            p
            (unix_milli (pos now))
            (logs k)
            s
            (script seqs i key now s).0
            ((script seqs i key now s).1, (script seqs i key now s).2, (script seqs i key now s).3)
    unfolding script
    script-IsRun seqs before s logs i key now t here early le b =
        let short = window_in_ms-IsWindowMs (normalize q) (normalize-IsEnforceable q) in
        let k = join prefix key in
        sliding_window-IsRun server laws k (member (ids i) (pos now) (bump64 (seqs i))) p before
          (unix_milli (pos now)) (logs k) s (omega (arith, short))
          (fresh seqs before s logs i now k t here early b) le (t.sets k)

    IsMade-mono :
        (seqs seqs' : ℕ → ℕ) (m : String)
        → ((j : ℕ) → seqs j ≤ seqs' j)
        → IsMade seqs m
        → IsMade seqs' m
    IsMade-mono seqs seqs' m grows (j, now, n, here, early, old, e) =
        (j, now, n, here, early, (let g = grows j in omega arith), e)

    asks-IsJoined :
        (seqs : ℕ → ℕ) (before : ℤ) (s : server.State) (logs : Logs) (i : ℕ) (key : String)
        (now : ℕ)
        → IsJoined seqs before s logs
        → i < count
        → pos now <ℤ pos 9223372036854775808
        → before ≤ℤ unix_milli (pos now)
        → bump64 (seqs i) ≡ seqs i + 1
        → IsJoined
            (λ j. if i == j then bump64 (seqs i) else seqs j)
            (unix_milli (pos now))
            (ask server int_of_float format carry prefix ids q seqs i key now s).0.state
            (note p (join prefix key) (unix_milli (pos now)) logs)
    asks-IsJoined seqs before s logs i key now t here early le b =
        let k = join prefix key in
        let seqs' : ℕ → ℕ = λ j. if i == j then bump64 (seqs i) else seqs j in
        let r = script-IsRun seqs before s logs i key now t here early le b in
        rw (ask_state seqs i key now s) (record {
          sets =
              note-Mirrors server laws p before (unix_milli (pos now)) s _ logs k _ _ t.sets le r;
          made = λ j m h. elim (r.members j m h) [
            | inl same ↦
                (i, now, bump64 (seqs i), here, early, ground arith, sym (same_key→eq _ m same))
            | inr old ↦ IsMade-mono seqs seqs' m (λ x. ground (arith, b)) (t.made j m old)
          ];
        })

    lapses-IsJoined :
        (seqs : ℕ → ℕ) (before later : ℤ) (s : server.State) (logs : Logs) (k : String)
        → IsJoined seqs before s logs
        → before ≤ℤ later
        → IsUpTo (later -ℤ p.window) (logs k)
        → IsJoined seqs later (server.lapse k s) logs
    lapses-IsJoined seqs before later s logs k t le old = record {
      sets = lapse-Mirrors server laws p before later s logs k t.sets le old;
      made = λ j m h. t.made j m (laws.has_lapse k j m s h);
    }

    pub run_together-AreShared :
        (seqs : ℕ → ℕ) (before : ℤ) (s : server.State) (logs : Logs) (es : List Step)
        → IsJoined seqs before s logs
        → IsOrderly count p prefix before logs es
        → ((j : ℕ) → seqs j + length es < 2 ^ 64)
        → AreShared
            (normalize q)
            prefix
            logs
            es
            (run_together server int_of_float format carry prefix ids q seqs s es).1
    unfolding run_together
    run_together-AreShared seqs before s logs [] t o room = refl
    run_together-AreShared seqs before s logs (lapses k now ∷ es) t o room =
        run_together-AreShared seqs (unix_milli (pos now)) (server.lapse k s) logs es
          (lapses-IsJoined seqs before (unix_milli (pos now)) s logs k t o.0 o.1) o.2
          (λ j. (let h = room j in omega arith))
    run_together-AreShared seqs before s logs (asks i key now ∷ es) t o room =
        let b : bump64 (seqs i) ≡ seqs i + 1 = bumped (seqs i) (length es) (room i) in
        let k = join prefix key in
        let (d, e, shared, mirrored) =
          allow-IsShared server laws int_of_float format carry delivers key q (pos now) before
            (instance_at server int_of_float format carry prefix ids q seqs i s) (logs k) (t.sets k)
            o.2 (fresh seqs before s logs i now k t o.0 o.1 b) in
        (
          (d, e, shared),
          run_together-AreShared (λ j. if i == j then bump64 (seqs i) else seqs j)
              (unix_milli (pos now))
              (ask server int_of_float format carry prefix ids q seqs i key now s).0.state
              (note p k (unix_milli (pos now)) logs) es
              (asks-IsJoined seqs before s logs i key now t o.0 o.1 o.2 b) o.3
              (λ j. ground (arith, room i, room j)),
        )
