-- ===== src/Limiter/Memory/Trace.antt =====
-- Histories of the in-memory limiter (internal/limiter/memory.go): requests of any clients under
-- one policy, with runs of the janitor anywhere between them, against one log for each client.
use rate_limiting_reverse_pr.Prelude.{
  Bool, Option, some, String, List, [], ◌∷◌, arith, if◌then◌else◌, Bool-cases, inl, inr, subst,
}
use rate_limiting_reverse_pr.Prelude.Int.{ℤ, ◌≤ℤ◌, -ℤ_parts, IsClock}
use rate_limiting_reverse_pr.Prelude.Dict.{same_key, same_key→eq}
use rate_limiting_reverse_pr.Limiter.Policy.{Policy, IsEnforceable}
use rate_limiting_reverse_pr.Limiter.Window.{IsUpTo-mono, admits, record_request}
use rate_limiting_reverse_pr.Limiter.Memory.{MemEntry, Memory, allow, cleanup, ◌>>=◌}
use rate_limiting_reverse_pr.Limiter.Memory.Tracks.{Tracks, outcome_of-Tracks}
use rate_limiting_reverse_pr.Limiter.Memory.Store.{view, IsSound}
use rate_limiting_reverse_pr.Limiter.Memory.Allow.{nobody, IsAllowed}

pub data Event : Type 0 where
  request : String → Event
  janitor : Event

abbrev pub History : Type 0
History = List (ℤ × Event)

-- The limiter over a history: the final state and the answers, or a panic.
unfoldable pub run : Policy → Memory → History → Option (Memory × List Bool)
run p m [] = some (m, [])
run p m ((now, request k) ∷ es) = do
  (m', d) ← allow nobody k p now m
  (m'', answers) ← run p m' es
  some (m'', d.allowed ∷ answers)
run p m ((now, janitor) ∷ es) = run p (cleanup now m) es

-- The contract: a log for each client, and no janitor.
abbrev pub Logs : Type 0
Logs = String → List ℤ

unfoldable pub note : Policy → String → ℤ → Logs → Logs
note p k now logs j = if same_key k j then record_request p now (logs j) else logs j

unfoldable pub spec_run : Policy → Logs → History → Logs × List Bool
spec_run p logs [] = (logs, [])
spec_run p logs ((now, request k) ∷ es) =
    let (logs', answers) = spec_run p (note p k now logs) es in
    (logs', admits p now (logs k) ∷ answers)
spec_run p logs ((now, janitor) ∷ es) = spec_run p logs es

-- The clock of a history never goes back, and stays between 1970 and 2116.
abbrev pub IsChronicle : ℤ → History → Type 0
IsChronicle now [] = Unit {0}
IsChronicle now ((later, e) ∷ es) = (now ≤ℤ later) × IsClock later × IsChronicle later es

-- When the requests of a client were answered by "allowed".
unfoldable pub admissions : String → History → List Bool → List ℤ
admissions k [] answers = []
admissions k ((now, request j) ∷ es) [] = []
admissions k ((now, request j) ∷ es) (allowed ∷ answers) =
    let rest = admissions k es answers in
    if same_key j k then (if allowed then now ∷ rest else rest) else rest
admissions k ((now, janitor) ∷ es) answers = admissions k es answers

abbrev pub TracksAll : Policy → ℤ → Memory → Logs → Type 0
TracksAll p now m logs = IsSound m × ((k : String) → Tracks p now (view k m) (logs k))

module _ (p : Policy) (enforceable : IsEnforceable p) where
  pub waits-Tracks :
      (now later : ℤ) (o : Option MemEntry) (log : List ℤ)
      → now ≤ℤ later
      → Tracks p now o log
      → Tracks p later o log
  waits-Tracks now later o log le t = record {
    ascending = t.ascending;
    up_to = IsUpTo-mono now later log le t.up_to;
    cutoff = t.cutoff;
    behind = omega (arith, t.behind, -ℤ_parts now p.window, -ℤ_parts later p.window);
    hits = t.hits;
    entry = t.entry;
  }

  pub request-TracksAll :
      (now later : ℤ) (k : String) (m m' : Memory) (logs : Logs)
      → TracksAll p now m logs
      → now ≤ℤ later
      → IsClock later
      → IsAllowed k p later m m'
      → TracksAll p later m' (note p k later logs)
  unfolding note
  request-TracksAll now later k m m' logs t le clock a = (a.sound, tracked)
    where
      tracked : (j : String) → Tracks p later (view j m') (note p k later logs j)
      tracked j = elim (Bool-cases (same_key k j)) [
        | inl hit ↦
            rw (hit, note)
              (subst (λ i. Tracks p later (view i m') (record_request p later (logs i)))
                (same_key→eq k j hit)
                (rw a.own
                  (outcome_of-Tracks p enforceable now later (view k m) (logs k) (t.1 k) le
                    clock).1))
        | inr miss ↦
            rw (miss, a.others j miss) (waits-Tracks now later (view j m) (logs j) le (t.1 j))
      ]
