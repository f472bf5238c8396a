-- ===== src/Limiter/Memory/Lowered.antt =====
-- After the limit has been lowered (`SetPolicy`) an entry of internal/limiter/memory.go can hold
-- more hits than the limit: the reset time that a denied request gets is then too early.
use rate_limiting_reverse_pr.Prelude.{◌≡◌, refl, ◌∙◌, false, List, [], ◌∷◌, arith, All, length}
use rate_limiting_reverse_pr.Prelude.Int.{
  ℤ, pos, ◌+ℤ◌, ◌-ℤ◌, ◌≤ℤ◌, ◌<ℤ◌, i64, i64-clock-sub, i64-clock-add, +ℤ_parts, -ℤ_parts,
  eq_of_parts, IsClock,
}
use rate_limiting_reverse_pr.Limiter.Policy.{Policy, IsEnforceable, deny}
use rate_limiting_reverse_pr.Limiter.Window.{live}
use rate_limiting_reverse_pr.Limiter.Memory.{MemEntry, prune}
use rate_limiting_reverse_pr.Limiter.Memory.Entry.{outcome_of, refused}
use rate_limiting_reverse_pr.Limiter.Memory.Ordered.{IsAscending, prune-live}
use rate_limiting_reverse_pr.Limiter.Memory.Tracks.{window-IsShort}

-- Later than an instant, each of them.
abbrev pub IsAfter : ℤ → List ℤ → Type 0
IsAfter t log = All (λ u. t <ℤ u) log

live_after : (t : ℤ) (log : List ℤ) → IsAfter t log → live t log ≡ log
live_after t [] h = refl
live_after t (u ∷ log) h = ground (arith, live_after t log h.1)

first_drops : (t : ℤ) (rest : List ℤ) → IsAfter t rest → live t (t ∷ rest) ≡ rest
first_drops t rest h = ground (arith, live_after t rest h)

weaken : (t : ℤ) (log : List ℤ) → IsAfter t log → All (λ u. t ≤ℤ u) log
weaken t [] h = tt
weaken t (u ∷ log) h = (omega arith, weaken t log h.1)

refuses :
    (e : MemEntry) (p : Policy) (now : ℤ) (kept : List ℤ)
    → prune (i64 (i64 now -ℤ p.window)) e.hits ≡ kept
    → p.limit ≤ℤ pos (length kept)
    → outcome_of e p now ≡ refused e p now kept
unfolding outcome_of
refuses e p now kept k h = rw (k, outcome_of) (ground arith)

back : (t w : ℤ) → t +ℤ w -ℤ w ≡ t
back t w = eq_of_parts _ _ (omega (arith, +ℤ_parts t w, -ℤ_parts (t +ℤ w) w))

module _ (p : Policy) (enforceable : IsEnforceable p) where
  -- If more hits than the limit are left in the window, at distinct times, a request is denied with
  -- the reset time `oldest + window`, and the next request at exactly that time is denied again:
  -- one hit has left the window, but no slot is free.
  pub reset_too_early :
      (e : MemEntry) (now t : ℤ) (rest : List ℤ)
      → prune (i64 (i64 now -ℤ p.window)) e.hits ≡ t ∷ rest
      → p.limit ≤ℤ pos (length rest)
      → IsAfter t rest
      → IsAscending rest
      → IsClock t
      → IsClock (t +ℤ p.window)
      → let (e', d) = outcome_of e p now in
        (d.allowed ≡ false)
        × (d.reset_at ≡ t +ℤ p.window)
        × ((outcome_of e' p d.reset_at).1.allowed ≡ false)
  unfolding refused deny
  reset_too_early e now t rest k full after ascending clock later =
      let w = p.window in
      let reset_at = i64 (t +ℤ w) in
      let same : reset_at ≡ t +ℤ w = i64-clock-add t w clock (window-IsShort p enforceable) in
      let cut : i64 (i64 reset_at -ℤ w) ≡ t =
        rw same (i64-clock-sub (t +ℤ w) w later (window-IsShort p enforceable) ∙ back t w) in
      let dropped : prune (i64 (i64 reset_at -ℤ w)) (t ∷ rest) ≡ rest =
        rw cut
          (prune-live t (t ∷ rest) (weaken t rest after, ascending) ∙ first_drops t rest after) in
      rw (refuses e p now (t ∷ rest) k (omega arith))
        (refl, same, rw (refuses (refused e p now (t ∷ rest)).0 p reset_at rest dropped full))
