-- ===== src/Limiter/Memory/Entry.antt =====
-- One client's entry (internal/limiter/memory.go, the locked section of `Allow` and the body of
-- `cleanup`) against the log of `Limiter.Window`, which forgets nothing.
use rate_limiting_reverse_pr.Prelude.{
  ◌≡◌, refl, some, List, [], ◌∷◌, ◌++◌, arith, if◌then◌else◌, length, Bool-cases, inl, inr,
}
use rate_limiting_reverse_pr.Prelude.Int.{ℤ, pos, ◌+ℤ◌, ◌-ℤ◌, ◌≤ℤ◌, ◌<ℤ◌, leb_ℤ, i64}
use rate_limiting_reverse_pr.Limiter.Policy.{Policy, Decision, deny, backend_memory}
use rate_limiting_reverse_pr.Limiter.Memory.{MemEntry, prune, accept, admit}

-- The head of `xs ++ t ∷ []`.
abbrev pub head_or : List ℤ → ℤ → ℤ
head_or [] t = t
head_or (x ∷ xs) t = x

-- What the locked section does once `kept` is left of the hits.
unfoldable pub refused : MemEntry → Policy → ℤ → List ℤ → MemEntry × Decision
refused e p now kept = (
  record e { window = p.window; hits = kept },
  deny backend_memory p (pos (length kept)) (i64 (head_or kept (i64 now) +ℤ p.window)) now,
)

unfoldable pub admitted : MemEntry → Policy → ℤ → List ℤ → MemEntry × Decision
admitted e p now kept = (
  record e { window = p.window; hits = kept ++ i64 now ∷ [] },
  accept p (i64 (pos (length kept) +ℤ pos 1)) (head_or kept (i64 now)) now,
)

abbrev pub outcome : MemEntry → Policy → ℤ → List ℤ → MemEntry × Decision
outcome e p now kept =
    if leb_ℤ p.limit (pos (length kept)) then refused e p now kept else admitted e p now kept

admit_kept :
    (e : MemEntry) (p : Policy) (now : ℤ) (kept : List ℤ)
    → prune (i64 (i64 now -ℤ p.window)) e.hits ≡ kept
    → pos 1 ≤ℤ p.limit
    → admit e p now ≡ some (outcome e p now kept)
unfolding admit refused admitted
admit_kept e p now [] k h = rw (k, admit) (ground arith)
admit_kept e p now (t ∷ kept) k h = rw (k, admit) (ground arith)

unfoldable pub outcome_of : MemEntry → Policy → ℤ → MemEntry × Decision
outcome_of e p now = outcome e p now (prune (i64 (i64 now -ℤ p.window)) e.hits)

-- The locked section never panics.
pub admit_lem :
    (e : MemEntry) (p : Policy) (now : ℤ)
    → pos 1 ≤ℤ p.limit
    → admit e p now ≡ some (outcome_of e p now)
unfolding outcome_of
admit_lem e p now h = admit_kept e p now _ refl h

pub outcome_cases {ℓ} :
    (P : MemEntry × Decision → Type ℓ) (e : MemEntry) (p : Policy) (now : ℤ) (kept : List ℤ)
    → (pos (length kept) <ℤ p.limit → P (admitted e p now kept))
    → (p.limit ≤ℤ pos (length kept) → P (refused e p now kept))
    → P (outcome e p now kept)
outcome_cases P e p now kept yields refuses =
    elim (Bool-cases (leb_ℤ p.limit (pos (length kept)))) [
      | inl full ↦ rw full (refuses (ground arith))
      | inr room ↦ rw room (yields (ground arith))
    ]
