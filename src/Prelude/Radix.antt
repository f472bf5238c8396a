-- ===== src/Prelude/Radix.antt =====
-- Numbers as texts in other bases than ten: `strconv.FormatInt` and `strconv.FormatUint` in base 36,
-- and `hex.EncodeToString`.
use Prim.Native.Char.{Char, code}
use Prim.Native.String.{String, [], ◌∷◌, char_at}
use mathlib.Core.List as List
use rate_limiting_reverse_pr.Prelude.{
  ℕ, zero, suc, ◌+◌, ◌-◌, ◌*◌, ◌/◌, ◌%◌, ◌<◌, ◌≡◌, refl, ap, sym, ◌∙◌, inl, inr, Bool-cases, Bool,
  true, false, ◌&&◌, ◌||◌, not, ◌==◌, leb, ltb, if◌then◌else◌, arith, All,
}
use rate_limiting_reverse_pr.Prelude.Int.{ℤ, pos, negsuc}

-- The digit of a number below 36.
abbrev pub digit : ℕ → Char
digit n = char_at "0123456789abcdefghijklmnopqrstuvwxyz" n

-- A number has at most as many digits as the number itself and one.
unfoldable pub radix_digits : ℕ → ℕ → ℕ → String → String
radix_digits base zero n rest = rest
radix_digits base (suc fuel) n rest =
    let text = digit (n % base) ∷ rest in
    let more = radix_digits base fuel (n / base) text in if ltb n base then text else more

-- `strconv.FormatInt(z, 36)`
unfoldable pub format36 : ℤ → String
unfolding radix_digits
format36 (pos n) = radix_digits 36 (suc n) n []
format36 (negsuc n) = "-" ∷ radix_digits 36 (suc (suc n)) (suc n) []

-- `hex.EncodeToString`
unfoldable pub encode_hex : List.List ℕ → String
encode_hex List.[] = []
encode_hex (List.◌∷◌ b bytes) = digit (b / 16) ∷ digit (b % 16) ∷ encode_hex bytes

abbrev pub has_dash : String → Bool
has_dash [] = false
has_dash (c ∷ s) = code c == 45 || has_dash s

-- A test on every number below a bound.
all_below : ℕ → (ℕ → Bool) → Bool
all_below zero f = true
all_below (suc n) f = f n && all_below n f

all_below_lem : (n k : ℕ) (f : ℕ → Bool) → all_below n f ≡ true → k < n → f k ≡ true
unfolding all_below
all_below_lem zero k f h lt = ground arith
all_below_lem (suc n) k f h lt = elim (Bool-cases (k == n)) [
  | inl same ↦ let e : k ≡ n = ground arith in rw e (ground arith)
  | inr other ↦ all_below_lem n k f (ground arith) (ground arith)
]

-- What a digit stands for.
abbrev digit_value : Char → ℕ
digit_value c = if leb (code c) 57 then code c - 48 else code c - 87

digits_checked :
    all_below 36 (λ k. (digit_value (digit k) == k) && not (code (digit k) == 45)) ≡ true
unfolding all_below
digits_checked = refl

digit_lem : (k : ℕ) → k < 36 → (digit_value (digit k) ≡ k) × ((code (digit k) == 45) ≡ false)
digit_lem k h = split (digit_value (digit k)) (code (digit k) == 45) (
    all_below_lem 36 k (λ k. (digit_value (digit k) == k) && not (code (digit k) == 45))
      digits_checked h)
  where
    split : (v : ℕ) (b : Bool) → ((v == k) && not b) ≡ true → (v ≡ k) × (b ≡ false)
    split v b e = ground arith

-- The number that a text of digits stands for, behind the digits of `n`.
reading : ℕ → String → ℕ
reading n [] = n
reading n (c ∷ s) = reading (n * 36 + digit_value c) s

reading-radix_digits :
    (fuel n : ℕ) (rest : String)
    → n < fuel
    → reading 0 (radix_digits 36 fuel n rest) ≡ reading n rest
unfolding radix_digits reading
reading-radix_digits zero n rest h = ground arith
reading-radix_digits (suc fuel) n rest h =
    let d : digit_value (digit (n % 36)) ≡ n % 36 = (digit_lem (n % 36) (omega arith)).0 in
    elim (Bool-cases (ltb n 36)) [
      | inl small ↦
          rw (small, radix_digits) (rw (d, reading) (ap (λ k. reading k rest) (ground arith)))
      | inr large ↦
          rw (large, radix_digits)
            (reading-radix_digits fuel (n / 36) (digit (n % 36) ∷ rest) (ground arith)
              ∙ rw (d, reading) (ap (λ k. reading k rest) (omega arith)))
    ]

has_dash-radix_digits :
    (fuel n : ℕ) (rest : String)
    → has_dash rest ≡ false
    → has_dash (radix_digits 36 fuel n rest) ≡ false
unfolding radix_digits
has_dash-radix_digits zero n rest clean = clean
has_dash-radix_digits (suc fuel) n rest clean =
    let d : (code (digit (n % 36)) == 45) ≡ false = (digit_lem (n % 36) (omega arith)).1 in
    let clean' : has_dash (digit (n % 36) ∷ rest) ≡ false = rw d clean in
    elim (Bool-cases (ltb n 36)) [
      | inl small ↦ rw (small, radix_digits) clean'
      | inr large ↦ rw (large, radix_digits) (has_dash-radix_digits fuel (n / 36) _ clean')
    ]

-- No two numbers that are not negative share a text, and none of their texts has a sign.
pub format36_injective : (m n : ℕ) → format36 (pos m) ≡ format36 (pos n) → m ≡ n
unfolding format36 reading
format36_injective m n e =
    sym (reading-radix_digits (suc m) m [] (omega arith))
    ∙ ap (reading 0) e
    ∙ reading-radix_digits (suc n) n [] (omega arith)

pub format36-has_dash : (n : ℕ) → has_dash (format36 (pos n)) ≡ false
unfolding format36 reading
format36-has_dash n = has_dash-radix_digits (suc n) n [] refl

pub encode_hex-has_dash :
    (bytes : List.List ℕ) → All (λ b. b < 256) bytes → has_dash (encode_hex bytes) ≡ false
unfolding encode_hex
encode_hex-has_dash List.[] h = refl
encode_hex-has_dash (List.◌∷◌ b bytes) h =
    let high = (digit_lem (b / 16) (omega (arith, h.0))).1 in
    let low = (digit_lem (b % 16) (omega arith)).1 in rw (high, low) (encode_hex-has_dash bytes h.1)
