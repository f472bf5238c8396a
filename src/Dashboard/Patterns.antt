-- ===== src/Dashboard/Patterns.antt =====
-- When two patterns are different whatever the prefix of internal/dashboard/dashboard.go and
-- internal/api/api.go is.
use Prim.Native.Char.{code}
use Prim.Native.String.{String, [], ◌∷◌, ◌++◌ as join}
use text.Mathlib.TextLemmas.{cons-append, nil-append}
use mathlib.Core.List as List
use rate_limiting_reverse_pr.Prelude.{
  ℕ, suc, ◌+◌, ◌≡◌, ◌≢◌, ap, sym, ◌∙◌, Bool, true, false, not, ◌&&◌, ◌||◌, ◌==◌, Bool-cases, inl,
  inr, map, arith, All, AreDistinct,
}
use rate_limiting_reverse_pr.Prelude.Dict.{same_key, same_key→eq, same_key_self}
use rate_limiting_reverse_pr.Prelude.Text.{strip, strip-join}

abbrev size : String → ℕ
size [] = 0
size (c ∷ s) = suc (size s)

size-join : (a b : String) → size (join a b) ≡ size a + size b
size-join [] b = rw (nil-append b) (omega arith)
size-join (c ∷ a) b = rw (cons-append c a b) (omega (arith, size-join a b))

-- Two texts that differ within the shorter one.
abbrev differs : String → String → Bool
differs [] b = false
differs (c ∷ a) [] = false
differs (c ∷ a) (d ∷ b) = not (code c == code d) || differs a b

head_code : String → ℕ
head_code [] = 0
head_code (c ∷ s) = code c

tail_of : String → String
tail_of [] = []
tail_of (c ∷ s) = s

differs-join : (a b x y : String) → differs a b ≡ true → join a x ≢ join b y
unfolding head_code tail_of
differs-join [] b x y h e = cc
differs-join (c ∷ a) [] x y h e = cc
differs-join (c ∷ a) (d ∷ b) x y h e =
    let e' : c ∷ join a x ≡ d ∷ join b y = sym (cons-append c a x) ∙ e ∙ cons-append d b y in
    let same : code c ≡ code d = ap head_code e' in
    differs-join a b x y (ground (arith, same)) (ap tail_of e')

cancel : (p s t : String) → join p s ≡ join p t → s ≡ t
cancel p s t e = cc (strip-join p s, ap (strip p) e, strip-join p t)

-- A pattern is a method, which may be missing, and what follows the prefix.
abbrev pub Spec : Type 0
Spec = String × String

abbrev pub at : String → Spec → String
at p (m, s) = join m (join p s)

-- A reason why two specifications give different patterns under every prefix.
abbrev apart : Spec → Spec → Bool
apart (m, s) (n, t) =
    differs m n || not (size m + size s == size n + size t) || (same_key m n && not (same_key s t))

size-at : (p m s : String) → size (at p (m, s)) ≡ size m + (size p + size s)
size-at p m s = omega (arith, size-join m (join p s), size-join p s)

same_rest : (p m n s t : String) → same_key m n ≡ true → at p (m, s) ≡ at p (n, t) → s ≡ t
same_rest p m n s t h e =
    let e' : join m (join p s) ≡ join m (join p t) =
      e ∙ ap (λ k. join k (join p t)) (sym (same_key→eq m n h)) in
    cancel p s t (cancel m (join p s) (join p t) e')

apart-at : (p : String) (x y : Spec) → apart x y ≡ true → at p x ≢ at p y
apart-at p (m, s) (n, t) h e = elim (Bool-cases (differs m n)) [
  | inl d ↦ differs-join m n (join p s) (join p t) d e
  | inr same ↦ elim (Bool-cases (size m + size s == size n + size t)) [
    | inr longer ↦ ground (arith, size-at p m s, size-at p n t, ap size e)
    | inl level ↦ elim (Bool-cases (same_key m n)) [
      | inl method ↦ ground (arith, ap (same_key s) (same_rest p m n s t method e), same_key_self s)
      | inr other ↦ ground arith
    ]
  ]
]

-- The test on a whole list.
abbrev all_apart : Spec → List.List Spec → Bool
all_apart x List.[] = true
all_apart x (List.◌∷◌ y ys) = apart x y && all_apart x ys

abbrev pub apart_in : List.List Spec → Bool
apart_in List.[] = true
apart_in (List.◌∷◌ x xs) = all_apart x xs && apart_in xs

all_apart-All :
    (p : String) (x : Spec) (ys : List.List Spec)
    → all_apart x ys ≡ true
    → All (λ q. at p x ≢ q) (map (at p) ys)
all_apart-All p x List.[] h = tt
all_apart-All p x (List.◌∷◌ y ys) h =
    (apart-at p x y (ground arith), all_apart-All p x ys (ground arith))

pub apart_in-AreDistinct :
    (p : String) (xs : List.List Spec) → apart_in xs ≡ true → AreDistinct (map (at p) xs)
apart_in-AreDistinct p List.[] h = tt
apart_in-AreDistinct p (List.◌∷◌ x xs) h =
    (all_apart-All p x xs (ground arith), apart_in-AreDistinct p xs (ground arith))
