-- ===== src/Limiter/Window.antt =====
-- The contract of a sliding-window limiter (the `Limiter` interface of internal/limiter/limiter.go):
-- a log of the admitted requests, from which each decision is read off. It forgets nothing; the
-- limiters that prune are compared with it.
use rate_limiting_reverse_pr.Prelude.{
  ◌+◌, ◌≤◌, ◌≡◌, Bool, ◌&&◌, List, [], ◌∷◌, ◌++◌, arith, if◌then◌else◌, length, keep, All,
  length-append, keep-append,
}
use rate_limiting_reverse_pr.Prelude.Int.{
  ℤ, pos, ◌+ℤ◌, ◌-ℤ◌, ◌≤ℤ◌, leb_ℤ, ltb_ℤ, -ℤ_parts, +ℤ_parts,
}
use rate_limiting_reverse_pr.Limiter.Policy.{Policy}

-- The admissions after the cutoff.
abbrev pub live : ℤ → List ℤ → List ℤ
live cutoff log = keep (λ t. ltb_ℤ cutoff t) log

-- The admissions in the half-open window (a, b].
abbrev pub between : ℤ → ℤ → List ℤ → List ℤ
between a b log = keep (λ t. ltb_ℤ a t && leb_ℤ t b) log

-- A request is admitted when fewer than `limit` admissions lie in the window that ends now.
unfoldable pub admits : Policy → ℤ → List ℤ → Bool
admits p now log = ltb_ℤ (pos (length (live (now -ℤ p.window) log))) p.limit

unfoldable pub record_request : Policy → ℤ → List ℤ → List ℤ
record_request p now log = if admits p now log then log ++ now ∷ [] else log

-- No window of the policy's width holds more admissions than the limit.
abbrev pub IsWithin : Policy → List ℤ → Type 0
IsWithin p log = (a : ℤ) → pos (length (between a (a +ℤ p.window) log)) ≤ℤ p.limit

-- The log is in order and not ahead of the clock.
abbrev pub IsUpTo : ℤ → List ℤ → Type 0
IsUpTo now log = All (λ t. t ≤ℤ now) log

pub IsUpTo-mono : (now later : ℤ) (log : List ℤ) → now ≤ℤ later → IsUpTo now log → IsUpTo later log
IsUpTo-mono now later [] h u = tt
IsUpTo-mono now later (t ∷ log) h u = (omega arith, IsUpTo-mono now later log h u.1)

-- A window that begins no earlier than the cutoff holds at most what is live.
length-between-le :
    (a b c : ℤ) (log : List ℤ) → c ≤ℤ a → length (between a b log) ≤ length (live c log)
length-between-le a b c [] h = omega arith
length-between-le a b c (t ∷ log) h = ground (arith, length-between-le a b c log h)

-- The window grows by at most the new admission, and only if that lies inside.
length-between-snoc :
    (a b now : ℤ) (log : List ℤ)
    → length (between a b (log ++ now ∷ []))
      ≡ length (between a b log) + (if ltb_ℤ a now && leb_ℤ now b then 1 else 0)
length-between-snoc a b now log =
    rw (keep-append _ log (now ∷ [])) (
      ground
        (arith, length-append (between a b log) (now ∷ []), length-append (between a b log) []))

-- One request, admitted or not, keeps every window within the limit.
pub record_request-IsWithin :
    (p : Policy) (now : ℤ) (log : List ℤ) → IsWithin p log → IsWithin p (record_request p now log)
unfolding record_request admits
record_request-IsWithin p now log w a = ground (
  arith,
  w a,
  length-between-snoc a (a +ℤ p.window) now log,
  length-between-le a (a +ℤ p.window) (now -ℤ p.window) log,
  -ℤ_parts now p.window,
  +ℤ_parts a p.window,
)
