-- ===== src/Limiter/Memory/Ordered.antt =====
-- `prune` (internal/limiter/memory.go) against the filter that it optimises, and the laws of the
-- live part of a log.
use rate_limiting_reverse_pr.Prelude.{◌≡◌, refl, List, [], ◌∷◌, ◌++◌, arith, drop, All, keep-append}
use rate_limiting_reverse_pr.Prelude.Int.{ℤ, ◌≤ℤ◌, ◌<ℤ◌}
use rate_limiting_reverse_pr.Limiter.Window.{live, IsUpTo}
use rate_limiting_reverse_pr.Limiter.Memory.{expired_count, prune}

-- Oldest first.
abbrev pub IsAscending : List ℤ → Type 0
IsAscending [] = Unit {0}
IsAscending (t ∷ log) = All (λ u. t ≤ℤ u) log × IsAscending log

-- Nothing is dropped from a list that lies after the cutoff.
live_later : (c t : ℤ) (log : List ℤ) → c <ℤ t → All (λ u. t ≤ℤ u) log → live c log ≡ log
live_later c t [] h a = refl
live_later c t (u ∷ log) h a = ground (arith, live_later c t log h a.1)

drop_expired :
    (c : ℤ) (log : List ℤ) → IsAscending log → drop (expired_count c log) log ≡ live c log
unfolding expired_count
drop_expired c [] a = refl
drop_expired c (t ∷ log) a = ground (arith, drop_expired c log a.1, live_later c t log)

-- On hits in ascending order the single scan from the front drops exactly the hits at or before
-- the cutoff, wherever they stand.
pub prune-live : (c : ℤ) (hits : List ℤ) → IsAscending hits → prune c hits ≡ live c hits
unfolding prune
prune-live c hits a = ground (arith, drop_expired c hits a)

pub live-live : (c d : ℤ) (log : List ℤ) → c ≤ℤ d → live d (live c log) ≡ live d log
live-live c d [] h = refl
live-live c d (t ∷ log) h = ground (arith, live-live c d log h)

pub live-snoc : (c t : ℤ) (log : List ℤ) → c <ℤ t → live c (log ++ t ∷ []) ≡ live c log ++ t ∷ []
live-snoc c t log h = rw (keep-append _ log (t ∷ [])) (ground arith)

pub live-eq-nil : (c : ℤ) (log : List ℤ) → IsUpTo c log → live c log ≡ []
live-eq-nil c [] u = refl
live-eq-nil c (t ∷ log) u = ground (arith, live-eq-nil c log u.1)

All-live : (c t : ℤ) (log : List ℤ) → All (λ u. t ≤ℤ u) log → All (λ u. t ≤ℤ u) (live c log)
All-live c t [] a = tt
All-live c t (u ∷ log) a = ground (arith, All-live c t log a.1)

pub live-IsAscending : (c : ℤ) (log : List ℤ) → IsAscending log → IsAscending (live c log)
live-IsAscending c [] a = tt
live-IsAscending c (t ∷ log) a = ground (arith, live-IsAscending c log a.1, All-live c t log a.0)

All-snoc :
    (t u : ℤ) (log : List ℤ) → All (λ v. t ≤ℤ v) log → t ≤ℤ u → All (λ v. t ≤ℤ v) (log ++ u ∷ [])
All-snoc t u [] a h = (h, tt)
All-snoc t u (v ∷ log) a h = (a.0, All-snoc t u log a.1 h)

pub snoc-IsAscending :
    (t : ℤ) (log : List ℤ) → IsAscending log → IsUpTo t log → IsAscending (log ++ t ∷ [])
snoc-IsAscending t [] a u = (tt, tt)
snoc-IsAscending t (v ∷ log) a u = (All-snoc v t log a.0 u.0, snoc-IsAscending t log a.1 u.1)

pub snoc-IsUpTo :
    (now t : ℤ) (log : List ℤ) → IsUpTo now log → t ≤ℤ now → IsUpTo now (log ++ t ∷ [])
snoc-IsUpTo now t [] u h = (h, tt)
snoc-IsUpTo now t (v ∷ log) u h = (u.0, snoc-IsUpTo now t log u.1 h)
