-- ===== src/Limiter/Memory/Limits.antt =====
-- What the in-memory limiter (internal/limiter/memory.go) promises over any history.
use rate_limiting_reverse_pr.Prelude.{
  ◌≡◌, refl, sym, ◌∙◌, Bool, some, String, List, [], ◌∷◌, ◌++◌, arith, Bool-cases, inl, inr, subst,
}
use mathlib.Core.List.{append-nil, append_assoc}
use rate_limiting_reverse_pr.Prelude.Int.{ℤ, ◌≤ℤ◌, ◌-ℤ◌, IsClock}
use rate_limiting_reverse_pr.Prelude.Dict.{lookup, same_key, same_key→eq, same_key_self}
use rate_limiting_reverse_pr.Limiter.Policy.{
  Policy, IsEnforceable, normalize, normalize-IsEnforceable,
}
use rate_limiting_reverse_pr.Limiter.Window.{
  admits, record_request, IsWithin, record_request-IsWithin,
}
use rate_limiting_reverse_pr.Limiter.Memory.{Memory, new_memory, cleanup}
use rate_limiting_reverse_pr.Limiter.Memory.Tracks.{Agrees-alive, outcome_of-Tracks}
use rate_limiting_reverse_pr.Limiter.Memory.Sweep.{swept-Tracks}
use rate_limiting_reverse_pr.Limiter.Memory.Store.{view, new_memory-IsSound}
use rate_limiting_reverse_pr.Limiter.Memory.Cleanup.{view-cleanup, cleanup-IsSound}
use rate_limiting_reverse_pr.Limiter.Memory.Allow.{allow_quiet}
use rate_limiting_reverse_pr.Limiter.Memory.Trace.{
  request, janitor, History, run, Logs, note, spec_run, IsChronicle, admissions, TracksAll,
  request-TracksAll,
}

pub cleanup-TracksAll :
    (p : Policy) (now later : ℤ) (m : Memory) (logs : Logs)
    → IsEnforceable p
    → TracksAll p now m logs
    → now ≤ℤ later
    → IsClock later
    → TracksAll p later (cleanup later m) logs
cleanup-TracksAll p now later m logs enforceable t le clock = (
  cleanup-IsSound later m t.0,
  λ k.
      rw (view-cleanup later k m t.0)
        (swept-Tracks p enforceable m.min_ttl now later (view k m) (logs k) (t.1 k) le clock),
)

run-spec_run :
    (q : Policy) (now : ℤ) (m : Memory) (logs : Logs) (es : History)
    → TracksAll (normalize q) now m logs
    → IsChronicle now es
    → (m' : Memory) × (run q m es ≡ some (m', (spec_run (normalize q) logs es).1))
unfolding run spec_run
run-spec_run q now m logs [] t c = (m, refl)
run-spec_run q now m logs ((later, janitor) ∷ es) t c =
    run-spec_run q later (cleanup later m) logs es
      (cleanup-TracksAll (normalize q) now later m logs (normalize-IsEnforceable q) t c.0 c.1) c.2
run-spec_run q now m logs ((later, request k) ∷ es) t c =
    let p = normalize q in
    let enforceable = normalize-IsEnforceable q in
    let (m', called, left) =
      allow_quiet k q later m t.0 (Agrees-alive p enforceable (logs k) (view k m) (t.1 k).entry) in
    let (m'', rest) =
      run-spec_run q later m' (note p k later logs) es
        (request-TracksAll p enforceable now later k m m' logs t c.0 c.1 left) c.2 in
    let same = (outcome_of-Tracks p enforceable now later (view k m) (logs k) (t.1 k) c.0 c.1).0 in
    (m'', rw (called, run) (rw (rest, same)))

note-admissions_self :
    (p : Policy) (k : String) (now : ℤ) (logs : Logs) (es : History) (answers : List Bool)
    → note p k now logs k ++ admissions k es answers
      ≡ logs k ++ admissions k ((now, request k) ∷ es) (admits p now (logs k) ∷ answers)
unfolding note record_request admissions
note-admissions_self p k now logs es answers = elim (Bool-cases (admits p now (logs k))) [
  | inl yes_ ↦ rw (same_key_self k, yes_) (append_assoc (logs k) (now ∷ []) _)
  | inr no_ ↦ rw (same_key_self k, no_)
]

note-admissions :
    (p : Policy) (k j : String) (now : ℤ) (logs : Logs) (es : History) (answers : List Bool)
    → note p k now logs j ++ admissions j es answers
      ≡ logs j ++ admissions j ((now, request k) ∷ es) (admits p now (logs k) ∷ answers)
unfolding note admissions
note-admissions p k j now logs es answers = elim (Bool-cases (same_key k j)) [
  | inl hit ↦
      subst
        (λ i.
          note p k now logs i ++ admissions i es answers
          ≡ logs i ++ admissions i ((now, request k) ∷ es) (admits p now (logs k) ∷ answers))
        (same_key→eq k j hit) (note-admissions_self p k now logs es answers)
  | inr miss ↦ rw miss
]

-- The logs of the contract are the admissions that its answers announce.
pub spec_run-admissions :
    (p : Policy) (logs : Logs) (es : History) (k : String)
    → (spec_run p logs es).0 k ≡ logs k ++ admissions k es (spec_run p logs es).1
unfolding spec_run admissions
spec_run-admissions p logs [] k = sym (append-nil (logs k))
spec_run-admissions p logs ((now, request j) ∷ es) k =
    spec_run-admissions p (note p j now logs) es k ∙ note-admissions p j k now logs es _
spec_run-admissions p logs ((now, janitor) ∷ es) k = spec_run-admissions p logs es k

note-IsWithin :
    (p : Policy) (j : String) (now : ℤ) (logs : Logs)
    → ((k : String) → IsWithin p (logs k))
    → (k : String) → IsWithin p (note p j now logs k)
unfolding note
note-IsWithin p j now logs w k = elim (Bool-cases (same_key j k)) [
  | inl hit ↦ rw (hit, note) (record_request-IsWithin p now (logs k) (w k))
  | inr miss ↦ rw (miss, note) (w k)
]

pub spec_run-IsWithin :
    (p : Policy) (logs : Logs) (es : History)
    → ((k : String) → IsWithin p (logs k))
    → (k : String) → IsWithin p ((spec_run p logs es).0 k)
unfolding spec_run
spec_run-IsWithin p logs [] w = w
spec_run-IsWithin p logs ((now, request j) ∷ es) w =
    spec_run-IsWithin p (note p j now logs) es (note-IsWithin p j now logs w)
spec_run-IsWithin p logs ((now, janitor) ∷ es) w = spec_run-IsWithin p logs es w

abbrev pub no_logs : Logs
no_logs k = []

pub start-TracksAll : (p : Policy) (now : ℤ) → TracksAll p now new_memory no_logs
unfolding new_memory view lookup
start-TracksAll p now = (
  new_memory-IsSound,
  λ k. record {
    ascending = tt;
    up_to = tt;
    cutoff = now -ℤ p.window;
    behind = omega arith;
    hits = refl;
    entry = tt;
  },
)

-- Over every history of requests by any clients and runs of the janitor, with a clock that does
-- not go back and lies between 1970 and 2116, the in-memory limiter under one fixed policy never
-- panics and gives exactly the answers of the contract, which keeps every admission for ever and
-- allows a request when fewer than `limit` admissions of its client lie in the window before it.
pub run_refines_window :
    (q : Policy) (now : ℤ) (es : History)
    → IsChronicle now es
    → (m : Memory) × (run q new_memory es ≡ some (m, (spec_run (normalize q) no_logs es).1))
run_refines_window q now es c =
    run-spec_run q now new_memory no_logs es (start-TracksAll (normalize q) now) c

-- Over every history of requests by any clients and runs of the janitor, with a clock that does
-- not go back and lies between 1970 and 2116, the in-memory limiter under one fixed policy
-- answers every request, and no window (a, a + window], wherever it begins, holds more than
-- `limit` allowed requests of one client.
pub run_limits :
    (q : Policy) (now : ℤ) (es : History)
    → IsChronicle now es
    → (m : Memory) × (answers : List Bool) × (run q new_memory es ≡ some (m, answers))
      × ((k : String) → IsWithin (normalize q) (admissions k es answers))
run_limits q now es c =
    let p = normalize q in
    let (m, e) = run_refines_window q now es c in
    (
      m,
      (spec_run p no_logs es).1,
      e,
      λ k. subst (IsWithin p) (spec_run-admissions p no_logs es k) (
          spec_run-IsWithin p no_logs es
            (λ j a. ground (arith, (normalize-IsEnforceable q).limit_low)) k),
    )
