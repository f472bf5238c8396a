-- ===== src/Limiter/Memory/Lifecycle/Refinement.antt =====
-- The whole life of an in-memory limiter (internal/limiter/memory.go), its janitor and its end
-- included, against one log for each client.
use rate_limiting_reverse_pr.Prelude.{
  ◌≡◌, refl, sym, ap, ◌∙◌, Bool, true, false, not, ◌&&◌, Option, none, some, List, [], ◌∷◌, ◌++◌,
  arith, if◌then◌else◌,
}
use rate_limiting_reverse_pr.Prelude.Int.{ℤ, ◌≤ℤ◌}
use rate_limiting_reverse_pr.Limiter.Policy.{Policy, normalize}
use rate_limiting_reverse_pr.Limiter.Memory.{Memory, cleanup, ◌>>=◌}
use rate_limiting_reverse_pr.Limiter.Memory.Limits.{no_logs}
use rate_limiting_reverse_pr.Limiter.Memory.Trace.{Logs, note}
use rate_limiting_reverse_pr.Limiter.Memory.Sessions.{
  Use, asks, peeks, cleans, clears, Reading, Session, serve, spec_serve, IsSession,
  serve_refines_window,
}
use rate_limiting_reverse_pr.Limiter.Memory.Lifecycle.{
  MemoryLimiter, new_memory_limiter, tick, see_stop, close_stop, uses, ticks, closes, sees_stop,
  Life, uses_of, live_through, IsLife,
}

-- The same life as a session: a tick that the janitor takes is a run of `cleanup`.
session_of : Bool → Bool → Life → Session
session_of closed waits [] = []
session_of closed waits ((now, uses u) ∷ es) = (now, u) ∷ session_of closed waits es
session_of closed waits ((now, ticks) ∷ es) =
    let rest = session_of closed waits es in if waits then (now, cleans) ∷ rest else rest
session_of closed waits ((now, closes) ∷ es) = session_of true waits es
session_of closed waits ((now, sees_stop) ∷ es) = session_of closed (waits && not closed) es

serve-cons :
    (m : Memory) (now : ℤ) (u : Use) (es : Session)
    → serve m ((now, u) ∷ es)
      ≡ (serve m ((now, u) ∷ []) >>= λ r. serve r.0 es >>= λ r'. some (r'.0, r.1 ++ r'.1))
unfolding serve
serve-cons m now (asks k q) es = ground arith
serve-cons m now (peeks k q) es = ground arith
serve-cons m now cleans es = ground arith
serve-cons m now clears es = ground arith

serve_nothing : (m : Memory) → serve m [] ≡ some (m, [])
unfolding serve
serve_nothing m = refl

serve_cleans :
    (m : Memory) (now : ℤ) (es : Session) → serve m ((now, cleans) ∷ es) ≡ serve (cleanup now m) es
unfolding serve
serve_cleans m now es = refl

abbrev memory_of : Option (MemoryLimiter × List Reading) → Option (Memory × List Reading)
memory_of none = none
memory_of (some (l, readings)) = some (l.memory, readings)

memory_of-bind :
    (o : Option (MemoryLimiter × List Reading)) (readings : List Reading)
    → memory_of (o >>= λ r. some (r.0, readings ++ r.1))
      ≡ (memory_of o >>= λ r. some (r.0, readings ++ r.1))
memory_of-bind none readings = refl
memory_of-bind (some r) readings = refl

-- One use, when the rest is already known to be a session.
uses_step :
    (o : Option (Memory × List Reading)) (l : MemoryLimiter) (es : Life)
    (rest : Memory → Option (Memory × List Reading))
    → ((m : Memory) → memory_of (live_through (record l { memory = m }) es) ≡ rest m)
    → memory_of
        (o >>= λ r. live_through (record l { memory = r.0 }) es >>= λ r'. some (r'.0, r.1 ++ r'.1))
      ≡ (o >>= λ r. rest r.0 >>= λ r'. some (r'.0, r.1 ++ r'.1))
uses_step none l es rest h = refl
uses_step (some (m, readings)) l es rest h =
    memory_of-bind (live_through (record l { memory = m }) es) readings
    ∙ ap (λ o. o >>= λ r. some (r.0, readings ++ r.1)) (h m)

live_through-serve :
    (l : MemoryLimiter) (es : Life)
    → memory_of (live_through l es) ≡ serve l.memory (session_of l.closed l.waits es)
unfolding live_through session_of tick see_stop close_stop
live_through-serve l [] = sym (serve_nothing l.memory)
live_through-serve l ((now, uses u) ∷ es) =
    uses_step (serve l.memory ((now, u) ∷ [])) l es (λ m. serve m (session_of l.closed l.waits es))
      (λ m. live_through-serve (record l { memory = m }) es)
    ∙ sym (serve-cons l.memory now u (session_of l.closed l.waits es))
live_through-serve l ((now, ticks) ∷ es) = ground (
  arith,
  live_through-serve (tick now l) es,
  serve_cleans l.memory now (session_of l.closed l.waits es),
)
live_through-serve l ((now, closes) ∷ es) = live_through-serve (close_stop l) es
live_through-serve l ((now, sees_stop) ∷ es) = ground (arith, live_through-serve (see_stop l) es)

IsSession-earlier :
    (w now later : ℤ) (es : Session) → now ≤ℤ later → IsSession w later es → IsSession w now es
IsSession-earlier w now later [] le c = tt
IsSession-earlier w now later ((t, u) ∷ es) le c = (omega (arith, c.0), c.1, c.2, c.3)

session_of-IsSession :
    (w now : ℤ) (closed waits : Bool) (es : Life)
    → IsLife w now es
    → IsSession w now (session_of closed waits es)
unfolding session_of
session_of-IsSession w now closed waits [] c = tt
session_of-IsSession w now closed waits ((later, uses u) ∷ es) c =
    (c.0, c.1, c.2, session_of-IsSession w later closed waits es c.3)
session_of-IsSession w now closed true ((later, ticks) ∷ es) c =
    (c.0, c.1, tt, session_of-IsSession w later closed true es c.3)
session_of-IsSession w now closed false ((later, ticks) ∷ es) c =
    IsSession-earlier w now later _ c.0 (session_of-IsSession w later closed false es c.3)
session_of-IsSession w now closed waits ((later, closes) ∷ es) c =
    IsSession-earlier w now later _ c.0 (session_of-IsSession w later true waits es c.3)
session_of-IsSession w now closed waits ((later, sees_stop) ∷ es) c =
    IsSession-earlier w now later _ c.0
      (session_of-IsSession w later closed (waits && not closed) es c.3)

-- The contract does not see the janitor.
spec_serve-session_of :
    (logs : Logs) (closed waits : Bool) (es : Life)
    → spec_serve logs (session_of closed waits es) ≡ spec_serve logs (uses_of es)
unfolding session_of spec_serve uses_of
spec_serve-session_of logs closed waits [] = refl
spec_serve-session_of logs closed waits ((now, uses (asks k q)) ∷ es) =
    cc (spec_serve-session_of (note (normalize q) k now logs) closed waits es)
spec_serve-session_of logs closed waits ((now, uses (peeks k q)) ∷ es) =
    cc (spec_serve-session_of logs closed waits es)
spec_serve-session_of logs closed waits ((now, uses cleans) ∷ es) =
    spec_serve-session_of logs closed waits es
spec_serve-session_of logs closed waits ((now, uses clears) ∷ es) =
    spec_serve-session_of no_logs closed waits es
spec_serve-session_of logs closed true ((now, ticks) ∷ es) =
    spec_serve-session_of logs closed true es
spec_serve-session_of logs closed false ((now, ticks) ∷ es) =
    spec_serve-session_of logs closed false es
spec_serve-session_of logs closed waits ((now, closes) ∷ es) =
    spec_serve-session_of logs true waits es
spec_serve-session_of logs closed waits ((now, sees_stop) ∷ es) =
    spec_serve-session_of logs closed (waits && not closed) es

memory_of-some :
    (o : Option (MemoryLimiter × List Reading)) (m : Memory) (readings : List Reading)
    → memory_of o ≡ some (m, readings)
    → (l : MemoryLimiter) × (o ≡ some (l, readings))
memory_of-some none m readings h = ground arith
memory_of-some (some (l, got)) m readings h = (l, ground arith)

-- Whatever the interval of its janitor, whenever that ticks, and whenever the limiter is closed,
-- once, twice or never: over every life of requests, peeks and resets by any clients, with a clock
-- that does not go back and lies between 1970 and 2116, under policies whose windows have one width
-- after normalising while their limits may change from call to call, the limiter never panics and
-- gives exactly the readings of the contract. There a request is allowed when fewer admissions than
-- the limit of its own policy lie in the window before it, a peek reports how many lie there and
-- changes nothing, and a reset forgets everything.
pub live_refines_window :
    (interval : ℤ) (p : Policy) (now : ℤ) (es : Life)
    → IsLife (normalize p).window now es
    → (l : MemoryLimiter) × (live_through (new_memory_limiter interval) es
        ≡ some (l, spec_serve no_logs (uses_of es)))
unfolding new_memory_limiter
live_refines_window interval p now es c =
    let l = new_memory_limiter interval in
    let (m, served) =
      serve_refines_window p now (session_of l.closed l.waits es)
        (session_of-IsSession (normalize p).window now l.closed l.waits es c) in
    memory_of-some (live_through l es) m (spec_serve no_logs (uses_of es)) (
      live_through-serve l es
      ∙ served
      ∙ ap (λ r. some (m, r)) (spec_serve-session_of no_logs l.closed l.waits es))
