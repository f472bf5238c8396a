-- ===== src/Prelude/Text.antt =====
-- Texts as Go's `strings` and `strconv` treat them, over the code points. A text that is not valid
-- UTF-8 has no counterpart here.
use Prim.Native.Char.{code}
use Prim.Native.String.{String, [], ◌∷◌, ◌++◌ as join}
use text.Mathlib.TextLemmas.{cons-append, nil-append}
use rate_limiting_reverse_pr.Prelude.{
  ℕ, ◌≡◌, refl, Option, none, some, Bool, true, false, ◌&&◌, ◌||◌, ◌==◌, leb, arith, if◌then◌else◌,
}

-- `unicode.IsSpace`
unfoldable pub is_space : ℕ → Bool
is_space c =
    (leb 9 c && leb c 13)
    || c == 32
    || c == 133
    || c == 160
    || c == 5760
    || (leb 8192 c && leb c 8202)
    || c == 8232
    || c == 8233
    || c == 8239
    || c == 8287
    || c == 12288

abbrev pub is_empty : String → Bool
is_empty [] = true
is_empty (c ∷ s) = false

unfoldable pub trim_left : (ℕ → Bool) → String → String
trim_left p [] = []
trim_left p (c ∷ s) = if p (code c) then trim_left p s else c ∷ s

unfoldable pub trim_right : (ℕ → Bool) → String → String
trim_right p [] = []
trim_right p (c ∷ s) =
    let rest = trim_right p s in if is_empty rest && p (code c) then [] else c ∷ rest

-- `strings.TrimFunc`
unfoldable pub trim : (ℕ → Bool) → String → String
unfolding trim_left trim_right
trim p s = trim_right p (trim_left p s)

-- `strings.TrimSpace`
unfoldable pub trim_space : String → String
unfolding trim is_space
trim_space s = trim is_space s

abbrev pub begins_with : (ℕ → Bool) → String → Bool
begins_with p [] = false
begins_with p (c ∷ s) = p (code c)

begins_with-trim_left : (p : ℕ → Bool) (s : String) → begins_with p (trim_left p s) ≡ false
unfolding trim_left
begins_with-trim_left p [] = refl
begins_with-trim_left p (c ∷ s) = ground (arith, begins_with-trim_left p s)

begins_with-trim_right :
    (p : ℕ → Bool) (s : String) → begins_with p s ≡ false → begins_with p (trim_right p s) ≡ false
unfolding trim_right
begins_with-trim_right p [] h = refl
begins_with-trim_right p (c ∷ s) h = ground arith

trim_left_id : (p : ℕ → Bool) (s : String) → begins_with p s ≡ false → trim_left p s ≡ s
unfolding trim_left
trim_left_id p [] h = refl
trim_left_id p (c ∷ s) h = ground arith

trim_right-trim_right : (p : ℕ → Bool) (s : String) → trim_right p (trim_right p s) ≡ trim_right p s
unfolding trim_right
trim_right-trim_right p [] = refl
trim_right-trim_right p (c ∷ s) = ground (arith, trim_right-trim_right p s)

-- What is trimmed does not begin with a character that is trimmed off.
pub begins_with-trim : (p : ℕ → Bool) (s : String) → begins_with p (trim p s) ≡ false
unfolding trim
begins_with-trim p s = begins_with-trim_right p (trim_left p s) (begins_with-trim_left p s)

pub trim-trim : (p : ℕ → Bool) (s : String) → trim p (trim p s) ≡ trim p s
unfolding trim
trim-trim p s =
    rw (trim_left_id p (trim_right p (trim_left p s)) (begins_with-trim p s))
      (trim_right-trim_right p (trim_left p s))

pub trim_space-trim_space : (s : String) → trim_space (trim_space s) ≡ trim_space s
unfolding trim_space
trim_space-trim_space s = trim-trim is_space s

abbrev pub ends_with : (ℕ → Bool) → String → Bool
ends_with p [] = false
ends_with p (c ∷ s) = if is_empty s then p (code c) else ends_with p s

ends_with-trim_right : (p : ℕ → Bool) (s : String) → ends_with p (trim_right p s) ≡ false
unfolding trim_right
ends_with-trim_right p [] = refl
ends_with-trim_right p (c ∷ s) = ground (arith, ends_with-trim_right p s)

-- Nor does it end with one.
pub ends_with-trim : (p : ℕ → Bool) (s : String) → ends_with p (trim p s) ≡ false
unfolding trim
ends_with-trim p s = ends_with-trim_right p (trim_left p s)

-- The rest of a text behind a prefix.
unfoldable pub strip : String → String → Option String
strip [] l = some l
strip (p ∷ ps) [] = none
strip (p ∷ ps) (c ∷ cs) = if code p == code c then strip ps cs else none

pub strip-join : (p s : String) → strip p (join p s) ≡ some s
unfolding strip
strip-join [] s = rw (nil-append s) refl
strip-join (c ∷ p) s = rw (cons-append c p s) (ground (arith, strip-join p s))

-- `strings.TrimPrefix`
unfoldable pub trim_prefix : String → String → String
unfolding strip
trim_prefix s prefix = elim (strip prefix s) [ none ↦ s | some rest ↦ rest ]
