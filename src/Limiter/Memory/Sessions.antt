-- ===== src/Limiter/Memory/Sessions.antt =====
-- Everything that a process does to its in-memory limiter (internal/limiter/memory.go) in any order:
-- requests and peeks of any clients under policies of one width, whose limits may change from one to
-- the next, runs of the janitor and resets, against one log for each client.
use rate_limiting_reverse_pr.Prelude.{
  ◌≡◌, refl, sym, ◌∙◌, Bool, Option, none, some, String, List, [], ◌∷◌, length,
}
use rate_limiting_reverse_pr.Prelude.Int.{ℤ, pos, ◌-ℤ◌, ◌≤ℤ◌, IsClock}
use rate_limiting_reverse_pr.Prelude.Dict.{lookup}
use rate_limiting_reverse_pr.Limiter.Policy.{
  Policy, IsEnforceable, normalize, normalize-IsEnforceable,
}
use rate_limiting_reverse_pr.Limiter.Window.{live, admits}
use rate_limiting_reverse_pr.Limiter.Memory.{
  MemEntry, Memory, new_memory, allow, peek, cleanup, reset, ◌>>=◌,
}
use rate_limiting_reverse_pr.Limiter.Memory.Tracks.{Tracks, Agrees-alive, outcome_of-Tracks}
use rate_limiting_reverse_pr.Limiter.Memory.Store.{view}
use rate_limiting_reverse_pr.Limiter.Memory.Allow.{nobody, allow_quiet}
use rate_limiting_reverse_pr.Limiter.Memory.Peeks.{peek-IsPeeked, peeked-TracksAll}
use rate_limiting_reverse_pr.Limiter.Memory.Clearing.{reset_entries, emptied-IsSound, view_emptied}
use rate_limiting_reverse_pr.Limiter.Memory.Trace.{Logs, note, TracksAll, request-TracksAll}
use rate_limiting_reverse_pr.Limiter.Memory.Limits.{no_logs, start-TracksAll, cleanup-TracksAll}

pub data Use : Type 0 where
  asks : String → Policy → Use
  peeks : String → Policy → Use
  cleans : Use
  clears : Use

-- What a use brings back: the answer to a request, or the usage that a peek reports.
pub data Reading : Type 0 where
  answer : Bool → Reading
  usage : ℤ → Reading

abbrev pub Session : Type 0
Session = List (ℤ × Use)

-- The limiter over a session: the final state and the readings, or a panic.
unfoldable pub serve : Memory → Session → Option (Memory × List Reading)
serve m [] = some (m, [])
serve m ((now, asks k q) ∷ es) = do
  (m', d) ← allow nobody k q now m
  (m'', readings) ← serve m' es
  some (m'', answer d.allowed ∷ readings)
serve m ((now, peeks k q) ∷ es) = do
  let (m', used, found) = peek k q now m
  (m'', readings) ← serve m' es
  some (m'', usage used ∷ readings)
serve m ((now, cleans) ∷ es) = serve (cleanup now m) es
serve m ((now, clears) ∷ es) = serve (reset m) es

-- The contract: a peek and the janitor change no log, and a reset empties all of them.
unfoldable pub spec_serve : Logs → Session → List Reading
spec_serve logs [] = []
spec_serve logs ((now, asks k q) ∷ es) =
    answer (admits (normalize q) now (logs k)) ∷ spec_serve (note (normalize q) k now logs) es
spec_serve logs ((now, peeks k q) ∷ es) =
    usage (pos (length (live (now -ℤ (normalize q).window) (logs k)))) ∷ spec_serve logs es
spec_serve logs ((now, cleans) ∷ es) = spec_serve logs es
spec_serve logs ((now, clears) ∷ es) = spec_serve no_logs es

-- The width that a use names, if it names one, is this one.
abbrev pub HasWidth : ℤ → Use → Type 0
HasWidth w (asks k q) = (normalize q).window ≡ w
HasWidth w (peeks k q) = (normalize q).window ≡ w
HasWidth w cleans = Unit {0}
HasWidth w clears = Unit {0}

-- The clock never goes back and stays between 1970 and 2116, and all windows have one width.
abbrev pub IsSession : ℤ → ℤ → Session → Type 0
IsSession w now [] = Unit {0}
IsSession w now ((later, e) ∷ es) =
    (now ≤ℤ later) × IsClock later × HasWidth w e × IsSession w later es

-- Only the width of the policy matters to what an entry remembers.
retarget-Tracks :
    (p q : Policy) (now : ℤ) (o : Option MemEntry) (log : List ℤ)
    → p.window ≡ q.window
    → Tracks p now o log
    → Tracks q now o log
retarget-Tracks p q now none log e t = record {
  ascending = t.ascending;
  up_to = t.up_to;
  cutoff = t.cutoff;
  behind = rw (← e) t.behind;
  hits = t.hits;
  entry = tt;
}
retarget-Tracks p q now (some m) log e t = record {
  ascending = t.ascending;
  up_to = t.up_to;
  cutoff = t.cutoff;
  behind = rw (← e) t.behind;
  hits = t.hits;
  entry = (t.entry.0, t.entry.1 ∙ e, t.entry.2, t.entry.3);
}

retarget-TracksAll :
    (p q : Policy) (now : ℤ) (m : Memory) (logs : Logs)
    → p.window ≡ q.window
    → TracksAll p now m logs
    → TracksAll q now m logs
retarget-TracksAll p q now m logs e t =
    (t.0, λ k. retarget-Tracks p q now (view k m) (logs k) e (t.1 k))

reset-TracksAll :
    (p : Policy) (now later : ℤ) (m : Memory) (logs : Logs)
    → TracksAll p now m logs
    → TracksAll p later (reset m) no_logs
unfolding view lookup new_memory
reset-TracksAll p now later m logs t =
    let empty = reset_entries m t.0.keyed in
    (
      emptied-IsSound (reset m) empty,
      λ k. rw (view_emptied k (reset m) empty) ((start-TracksAll p later).1 k),
    )

serve-spec_serve :
    (w now : ℤ) (p : Policy) (m : Memory) (logs : Logs) (es : Session)
    → p.window ≡ w
    → IsEnforceable p
    → TracksAll p now m logs
    → IsSession w now es
    → (m' : Memory) × (serve m es ≡ some (m', spec_serve logs es))
unfolding serve spec_serve
serve-spec_serve w now p m logs [] same enf t c = (m, refl)
serve-spec_serve w now p m logs ((later, asks k q) ∷ es) same enf t c =
    let enforceable = normalize-IsEnforceable q in
    let width : (normalize q).window ≡ w = c.2 in
    let here : TracksAll (normalize q) now m logs =
      retarget-TracksAll p (normalize q) now m logs (same ∙ sym width) t in
    let (m', called, left) =
      allow_quiet k q later m t.0
        (Agrees-alive (normalize q) enforceable (logs k) (view k m) (here.1 k).entry) in
    let next =
      request-TracksAll (normalize q) enforceable now later k m m' logs here c.0 c.1 left in
    let (m'', rest) =
      serve-spec_serve w later (normalize q) m' (note (normalize q) k later logs) es width
        enforceable next c.3 in
    let agree =
      (outcome_of-Tracks (normalize q) enforceable now later (view k m) (logs k) (here.1 k) c.0
        c.1).0 in
    (m'', rw (called, serve) (rw (rest, agree)))
serve-spec_serve w now p m logs ((later, peeks k q) ∷ es) same enf t c =
    let enforceable = normalize-IsEnforceable q in
    let width : (normalize q).window ≡ w = c.2 in
    let here : TracksAll (normalize q) now m logs =
      retarget-TracksAll p (normalize q) now m logs (same ∙ sym width) t in
    let peeked = peek-IsPeeked k q now later m logs here c.0 c.1 in
    let (m'', rest) =
      serve-spec_serve w later (normalize q) (peek k q later m).0 logs es width enforceable
        (peeked-TracksAll k (normalize q) now later m logs _ enforceable here c.0 peeked) c.3 in
    (m'', simp (rest, peeked.used))
serve-spec_serve w now p m logs ((later, cleans) ∷ es) same enf t c =
    serve-spec_serve w later p (cleanup later m) logs es same enf
      (cleanup-TracksAll p now later m logs enf t c.0 c.1) c.3
serve-spec_serve w now p m logs ((later, clears) ∷ es) same enf t c =
    serve-spec_serve w later p (reset m) no_logs es same enf (reset-TracksAll p now later m logs t)
      c.3

-- Over every session of requests, peeks, resets and runs of the janitor, with a clock that does not
-- go back and lies between 1970 and 2116, under policies whose windows have one width after
-- normalising while their limits may change from call to call, a new in-memory limiter never panics
-- and gives exactly the readings of the contract: a request is allowed when fewer admissions than
-- the limit of its own policy lie in the window before it, and a peek reports how many lie there;
-- neither a peek nor the janitor changes what later calls see, and a reset forgets everything.
pub serve_refines_window :
    (p : Policy) (now : ℤ) (es : Session)
    → IsSession (normalize p).window now es
    → (m : Memory) × (serve new_memory es ≡ some (m, spec_serve no_logs es))
serve_refines_window p now es c =
    serve-spec_serve (normalize p).window now (normalize p) new_memory no_logs es refl
      (normalize-IsEnforceable p) (start-TracksAll (normalize p) now) c
