-- ===== src/Limiter/Redis/Fleet.antt =====
-- Histories of the shared limiter (`slidingWindowScript` of internal/limiter/redis.go): runs of the
-- script by any instances of the proxy for any keys, and keys whose time to live passes, against
-- one log for each key. Instants and the window are in milliseconds.
use rate_limiting_reverse_pr.Prelude.{
  ◌≡◌, refl, sym, ap, ◌∙◌, subst, inl, inr, Bool, Bool-cases, true, false, not, ◌||◌, String, List,
  [], ◌∷◌, arith, if◌then◌else◌,
}
use rate_limiting_reverse_pr.Prelude.Int.{ℤ, pos, ◌-ℤ◌, ◌≤ℤ◌, ◌<ℤ◌, eqb_ℤ}
use rate_limiting_reverse_pr.Prelude.Dict.{same_key, same_key→eq}
use rate_limiting_reverse_pr.Limiter.Policy.{Policy}
use rate_limiting_reverse_pr.Limiter.Window.{record_request, IsUpTo, IsUpTo-mono, IsWithin}
use rate_limiting_reverse_pr.Limiter.Memory.Ordered.{live-eq-nil}
use rate_limiting_reverse_pr.Limiter.Memory.Trace as Trace
use rate_limiting_reverse_pr.Limiter.Memory.Trace.{
  History, Logs, note, spec_run, admissions, janitor,
}
use rate_limiting_reverse_pr.Limiter.Memory.Limits.{no_logs, spec_run-admissions, spec_run-IsWithin}
use rate_limiting_reverse_pr.Limiter.Redis.{SortedSets, sliding_window}
use rate_limiting_reverse_pr.Limiter.Redis.Server.{SortedSetLaws}
use rate_limiting_reverse_pr.Limiter.Redis.Script.{
  Mirrors, waits-Mirrors, record_request-Mirrors, IsRun, sliding_window-IsRun,
}

-- A request has a key and the member that its instance of the proxy made up for it.
pub data FleetEvent : Type 0 where
  request : String → String → FleetEvent
  expiry : String → FleetEvent

abbrev pub FleetHistory : Type 0
FleetHistory = List (ℤ × FleetEvent)

-- What the contract sees of a history: the requests, and that nothing else happens to a log.
unfoldable pub contract : FleetHistory → History
contract [] = []
contract ((now, request k n) ∷ es) = (now, Trace.request k) ∷ contract es
contract ((now, expiry k) ∷ es) = (now, janitor) ∷ contract es

-- Instants do not go back, no member is made up twice, and the time to live of a key passes only
-- when a window has gone by since its last admitted request.
abbrev pub IsFleetChronicle : Policy → ℤ → (String → Bool) → Logs → FleetHistory → Type 0
IsFleetChronicle p now used logs [] = Unit {0}
IsFleetChronicle p now used logs ((later, request k n) ∷ es) =
    (now ≤ℤ later)
    × (used n ≡ false)
    × IsFleetChronicle p later (λ m. same_key n m || used m) (note p k later logs) es
IsFleetChronicle p now used logs ((later, expiry k) ∷ es) =
    (now ≤ℤ later) × IsUpTo (later -ℤ p.window) (logs k) × IsFleetChronicle p later used logs es

-- A log whose admissions have all left the window is mirrored by the empty set.
lapsed-Mirrors :
    (p : Policy) (now later : ℤ) (kept log : List ℤ)
    → now ≤ℤ later
    → IsUpTo (later -ℤ p.window) log
    → Mirrors p now kept log
    → Mirrors p later [] log
lapsed-Mirrors p now later kept log le old t = record {
  ascending = t.ascending;
  up_to = IsUpTo-mono now later log le t.up_to;
  cutoff = later -ℤ p.window;
  behind = omega arith;
  same = sym (live-eq-nil (later -ℤ p.window) log old);
}

module _ (server : SortedSets) where
  open server use {State, lapse}

  -- The server over a history, and whether each request was allowed: `allowed != 0`.
  unfoldable pub run_fleet : Policy → State → FleetHistory → State × List Bool
  unfolding sliding_window
  run_fleet p s [] = (s, [])
  run_fleet p s ((now, request k n) ∷ es) =
      let (s', allowed, used, reset) = sliding_window server k now p.window p.limit n s in
      let (s'', answers) = run_fleet p s' es in (s'', not (eqb_ℤ allowed (pos 0)) ∷ answers)
  run_fleet p s ((now, expiry k) ∷ es) = run_fleet p (lapse k s) es

  module _ (laws : SortedSetLaws server) where
    open laws use {scores, has}

    -- Each set mirrors its log, and every member in a set was made up before.
    pub record MirrorsAll (p : Policy) (now : ℤ) (used : String → Bool) (s : State) (logs : Logs)
        : Type 0 where
      pub sets : (k : String) → Mirrors p now (scores k s) (logs k)
      pub members : (k m : String) → has k m s ≡ true → used m ≡ true

    unused :
        (p : Policy) (now : ℤ) (used : String → Bool) (s : State) (logs : Logs) (k n : String)
        → MirrorsAll p now used s logs
        → used n ≡ false
        → has k n s ≡ false
    unused p now used s logs k n t new_ = elim (Bool-cases (has k n s)) [
      | inl yes_ ↦ cc (t.members k n yes_, new_)
      | inr no_ ↦ no_
    ]

    -- After a run for one key, every set mirrors its log.
    pub note-Mirrors :
        (p : Policy) (now later : ℤ) (s s' : State) (logs : Logs) (k n : String) (reply : ℤ × ℤ × ℤ)
        → ((j : String) → Mirrors p now (scores j s) (logs j))
        → now ≤ℤ later
        → IsRun server laws k n p later (logs k) s s' reply
        → (j : String) → Mirrors p later (scores j s') (note p k later logs j)
    unfolding note
    note-Mirrors p now later s s' logs k n reply t le r j = elim (Bool-cases (same_key k j)) [
      | inl hit ↦ rw hit (
          subst (λ i. Mirrors p later (scores i s') (record_request p later (logs i)))
            (same_key→eq k j hit)
            (rw r.own (record_request-Mirrors p now later _ (logs k) le (t k))))
      | inr miss ↦ rw (miss, r.others j miss) (waits-Mirrors p now later _ _ le (t j))
    ]

    -- So it does after a key has lapsed.
    pub lapse-Mirrors :
        (p : Policy) (now later : ℤ) (s : State) (logs : Logs) (k : String)
        → ((j : String) → Mirrors p now (scores j s) (logs j))
        → now ≤ℤ later
        → IsUpTo (later -ℤ p.window) (logs k)
        → (j : String) → Mirrors p later (scores j (lapse k s)) (logs j)
    lapse-Mirrors p now later s logs k t le old j = elim (Bool-cases (same_key k j)) [
      | inl hit ↦
          rw (laws.scores_lapse k j s, hit)
            (lapsed-Mirrors p now later (scores j s) (logs j) le
              (subst (λ i. IsUpTo (later -ℤ p.window) (logs i)) (same_key→eq k j hit) old) (t j))
      | inr miss ↦ rw (laws.scores_lapse k j s, miss) (waits-Mirrors p now later _ _ le (t j))
    ]

    request-MirrorsAll :
        (p : Policy) (now later : ℤ) (used : String → Bool) (s s' : State) (logs : Logs)
        (k n : String) (reply : ℤ × ℤ × ℤ)
        → MirrorsAll p now used s logs
        → now ≤ℤ later
        → IsRun server laws k n p later (logs k) s s' reply
        → MirrorsAll p later (λ m. same_key n m || used m) s' (note p k later logs)
    request-MirrorsAll p now later used s s' logs k n reply t le r = record {
      sets = note-Mirrors p now later s s' logs k n reply t.sets le r;
      members = λ j m h. elim (r.members j m h) [
        | inl same ↦ rw same refl
        | inr old ↦ ground (arith, t.members j m old)
      ];
    }

    lapse-MirrorsAll :
        (p : Policy) (now later : ℤ) (used : String → Bool) (s : State) (logs : Logs) (k : String)
        → MirrorsAll p now used s logs
        → now ≤ℤ later
        → IsUpTo (later -ℤ p.window) (logs k)
        → MirrorsAll p later used (lapse k s) logs
    lapse-MirrorsAll p now later used s logs k t le old = record {
      sets = lapse-Mirrors p now later s logs k t.sets le old;
      members = λ j m h. t.members j m (laws.has_lapse k j m s h);
    }

    answer_lem : (b : Bool) → not (eqb_ℤ (if b then pos 1 else pos 0) (pos 0)) ≡ b
    answer_lem true = refl
    answer_lem false = refl

    pub run_fleet-spec_run :
        (p : Policy) (now : ℤ) (used : String → Bool) (s : State) (logs : Logs) (es : FleetHistory)
        → pos 0 <ℤ p.window
        → MirrorsAll p now used s logs
        → IsFleetChronicle p now used logs es
        → (run_fleet p s es).1 ≡ (spec_run p logs (contract es)).1
    unfolding run_fleet spec_run contract
    run_fleet-spec_run p now used s logs [] positive t c = refl
    run_fleet-spec_run p now used s logs ((later, expiry k) ∷ es) positive t c =
        run_fleet-spec_run p later used (lapse k s) logs es positive
          (lapse-MirrorsAll p now later used s logs k t c.0 c.1) c.2
    run_fleet-spec_run p now used s logs ((later, request k n) ∷ es) positive t c =
        let (s', allowed, used_up, reset) = sliding_window server k later p.window p.limit n s in
        let r =
          sliding_window-IsRun server laws k n p now later (logs k) s positive
            (unused p now used s logs k n t c.1) c.0 (t.sets k) in
        let rest =
          run_fleet-spec_run p later _ s' _ es positive
            (request-MirrorsAll p now later used s s' logs k n (allowed, used_up, reset) t c.0 r)
            c.2 in
        (λ i. (ap (λ z. not (eqb_ℤ z (pos 0))) r.allowed ∙ answer_lem _) i ∷ rest i)

    abbrev pub IsEmpty : State → Type 0
    IsEmpty s = ((k : String) → scores k s ≡ []) × ((k m : String) → has k m s ≡ false)

    pub start-MirrorsAll :
        (p : Policy) (now : ℤ) (s : State) → IsEmpty s → MirrorsAll p now (λ m. false) s no_logs
    start-MirrorsAll p now s empty = record {
      sets = λ k. record {
        ascending = tt;
        up_to = tt;
        cutoff = now -ℤ p.window;
        behind = omega arith;
        same = empty.0 k;
      };
      members = λ k m h. cc (empty.1 k m, h);
    }

    -- Under a policy with a positive window, over every history of script runs by any instances for
    -- any keys on a server that keeps the laws of sorted sets and starts empty,
    -- and of keys that lapse when a window has gone by since their last admission, with instants that
    -- do not go back and members that are all different, the shared limiter gives exactly the answers
    -- of the contract, which keeps every admission for ever.
    pub fleet_refines_window :
        (p : Policy) (now : ℤ) (s : State) (es : FleetHistory)
        → pos 0 <ℤ p.window
        → IsEmpty s
        → IsFleetChronicle p now (λ m. false) no_logs es
        → (run_fleet p s es).1 ≡ (spec_run p no_logs (contract es)).1
    fleet_refines_window p now s es positive empty c =
        run_fleet-spec_run p now (λ m. false) s no_logs es positive (start-MirrorsAll p now s empty)
          c

    -- Under a policy with a positive window and a limit that is not negative, over every
    -- history of script runs by any instances for any keys on a server that keeps the laws
    -- of sorted sets and starts empty, and of keys that lapse when a window has gone by
    -- since their last admission, with instants that do not go back and members that are all
    -- different: no window (a, a + window], wherever it begins, holds more than `limit`
    -- allowed requests of one key, over all the instances together.
    fleet_limits :
        (p : Policy) (now : ℤ) (s : State) (es : FleetHistory)
        → pos 0 <ℤ p.window
        → pos 0 ≤ℤ p.limit
        → IsEmpty s
        → IsFleetChronicle p now (λ m. false) no_logs es
        → (k : String) → IsWithin p (admissions k (contract es) (run_fleet p s es).1)
    fleet_limits p now s es positive limited empty c k =
        rw (fleet_refines_window p now s es positive empty c) (
          subst (IsWithin p) (spec_run-admissions p no_logs (contract es) k)
            (spec_run-IsWithin p no_logs (contract es) (λ j a. limited) k))
