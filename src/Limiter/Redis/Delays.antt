-- ===== src/Limiter/Redis/Delays.antt =====
-- The arithmetic of the delays in internal/limiter/redis.go: milliseconds of the script, nanoseconds of
-- a decision.
use mathlib.Core.List.{head?}
use rate_limiting_reverse_pr.Prelude.{
  ◌≡◌, refl, ap, subst, Bool-cases, inl, inr, List, [], ◌∷◌, arith, if◌then◌else◌, length,
}
use rate_limiting_reverse_pr.Prelude.Int.{
  ℤ, pos, ◌+ℤ◌, ◌-ℤ◌, ◌*ℤ◌, ◌≤ℤ◌, ◌<ℤ◌, i64, i64_id, ltb_ℤ, sat64_id, +ℤ_parts, -ℤ_parts, parts_lem,
  eq_of_parts,
}
use rate_limiting_reverse_pr.Limiter.Policy.{delay}
use rate_limiting_reverse_pr.Limiter.Window.{live, IsUpTo}
use rate_limiting_reverse_pr.Limiter.Redis.{reset_ms}

-- The script's reset lies between now and one window later.
pub reset_ms_bounds :
    (now w : ℤ) (log : List ℤ)
    → pos 0 ≤ℤ w
    → IsUpTo now log
    → (pos 0 ≤ℤ reset_ms now w (head? (live (now -ℤ w) log)))
      × (reset_ms now w (head? (live (now -ℤ w) log)) ≤ℤ w)
unfolding reset_ms
reset_ms_bounds now w [] h u = (omega arith, omega arith)
reset_ms_bounds now w (t ∷ log) h u =
    ground
      (arith, reset_ms_bounds now w log h u.1, -ℤ_parts now w, +ℤ_parts t w, -ℤ_parts (t +ℤ w) now)

pub live_first : (c t : ℤ) (log rest : List ℤ) → live c log ≡ t ∷ rest → c <ℤ t
live_first c t [] rest e = cc e
live_first c t (u ∷ log) rest e = elim (Bool-cases (ltb_ℤ c u)) [
  | inl later ↦ subst (λ v. c <ℤ v) (ap (first_or u) (rw later at e)) (ground arith)
  | inr gone ↦ live_first c t log rest (rw gone at e)
]
  where
    first_or : ℤ → List ℤ → ℤ
    first_or v [] = v
    first_or v (x ∷ xs) = x

-- What is in the window leaves it later, so the script's reset is not cut off at 0.
pub reset_lem :
    (now w t : ℤ) (log rest : List ℤ)
    → live (now -ℤ w) log ≡ t ∷ rest
    → reset_ms now w (head? (live (now -ℤ w) log)) ≡ (t +ℤ w) -ℤ now
unfolding reset_ms
reset_lem now w t log rest e =
    let later = live_first (now -ℤ w) t log rest e in
    rw e (ground (arith, later, -ℤ_parts now w, +ℤ_parts t w, -ℤ_parts (t +ℤ w) now))

pub a_first : (xs : List ℤ) → pos 1 ≤ℤ pos (length xs) → (t : ℤ) × (rest : List ℤ) × (xs ≡ t ∷ rest)
a_first [] h = absurd (omega arith)
a_first (t ∷ rest) h = (t, rest, refl)

pub wait_lem : (r : ℤ) → pos 0 ≤ℤ r → r ≤ℤ pos 86400000 → i64 (r *ℤ pos 1000000) ≡ r *ℤ pos 1000000
unfolding ◌*ℤ◌
wait_lem r a b = i64_id _ (ground arith)

pub wait_bounds :
    (r w : ℤ)
    → pos 0 ≤ℤ r
    → r ≤ℤ w
    → (pos 0 ≤ℤ r *ℤ pos 1000000) × (r *ℤ pos 1000000 ≤ℤ w *ℤ pos 1000000)
unfolding ◌*ℤ◌
wait_bounds r w a b = ground arith

pub wait_high : (r : ℤ) → pos 0 ≤ℤ r → r ≤ℤ pos 86400000 → r *ℤ pos 1000000 ≤ℤ pos 86400000000000
unfolding ◌*ℤ◌
wait_high r a b = ground arith

pub delay_lem : (now w : ℤ) → pos 0 ≤ℤ w → w ≤ℤ pos 86400000000000 → delay (now +ℤ w) now ≡ w
unfolding delay
delay_lem now w a b =
    let e : (now +ℤ w) -ℤ now ≡ w =
      eq_of_parts _ _ (omega (arith, +ℤ_parts now w, -ℤ_parts (now +ℤ w) now)) in
    rw (e, sat64_id w (omega (arith, parts_lem w))) (ground arith)

-- What is left of an enforceable limit is a small number and not negative.
pub left_lem :
    (l u : ℤ)
    → pos 1 ≤ℤ u
    → u ≤ℤ l
    → l ≤ℤ pos 1000000
    → (let left = i64 (l -ℤ u) in if ltb_ℤ left (pos 0) then pos 0 else left) ≡ l -ℤ u
left_lem l u one most high =
    rw (i64_id (l -ℤ u) (omega (arith, -ℤ_parts l u, parts_lem (l -ℤ u))))
      (ground (arith, -ℤ_parts l u))
