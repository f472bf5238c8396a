-- ===== src/Prelude/Strconv.antt =====
-- Numbers and truth values as texts: what Go's `strconv`, the verb %d of `fmt` and
-- `strings.EqualFold` do with the texts of the program.
use Prim.Native.Char.{code}
use Prim.Native.String.{String, [], ◌∷◌, char_at}
use rate_limiting_reverse_pr.Prelude.{
  ℕ, zero, suc, ◌+◌, ◌-◌, ◌*◌, ◌/◌, ◌%◌, ◌^◌, Bool, true, false, ◌&&◌, ◌||◌, Option, none, some,
  ◌==◌, leb, ltb, if◌then◌else◌,
}
use rate_limiting_reverse_pr.Prelude.Int.{ℤ, pos, negsuc}
use rate_limiting_reverse_pr.Prelude.Dict.{same_key}

-- The digits that follow `n`; none on any other character.
unfoldable pub digits : ℕ → String → Option ℕ
digits n [] = some n
digits n (c ∷ s) =
    let rest = digits (n * 10 + (code c - 48)) s in
    if leb 48 (code c) && leb (code c) 57 then rest else none

-- At least one digit.
unfoldable pub number : String → Option ℕ
unfolding digits
number [] = none
number (c ∷ s) = digits 0 (c ∷ s)

-- An int is what fits 64 bits.
abbrev pub positive_int : Option ℕ → Option ℤ
positive_int none = none
positive_int (some n) = if ltb n (2 ^ 63) then some (pos n) else none

abbrev pub negative_int : Option ℕ → Option ℤ
negative_int none = none
negative_int (some zero) = some (pos 0)
negative_int (some (suc n)) = if ltb n (2 ^ 63) then some (negsuc n) else none

-- `strconv.Atoi`
unfoldable pub atoi : String → Option ℤ
unfolding number
atoi [] = none
atoi (c ∷ s) =
    if code c == 43
    then positive_int (number s)
    else if code c == 45
    then negative_int (number s)
    else positive_int (number (c ∷ s))

-- `strconv.ParseBool`
unfoldable pub parse_bool : String → Option Bool
parse_bool s =
    if same_key s "1"
      || same_key s "t"
      || same_key s "T"
      || same_key s "TRUE"
      || same_key s "true"
      || same_key s "True"
    then some true
    else if same_key s "0"
        || same_key s "f"
        || same_key s "F"
        || same_key s "FALSE"
        || same_key s "false"
        || same_key s "False"
    then some false
    else none

-- The verb %d: a number has at most as many digits as the number itself and one.
unfoldable pub show_digits : ℕ → ℕ → String → String
show_digits zero n rest = rest
show_digits (suc fuel) n rest =
    let text = char_at "0123456789" (n % 10) ∷ rest in
    let more = show_digits fuel (n / 10) text in if ltb n 10 then text else more

unfoldable pub show : ℤ → String
unfolding show_digits
show (pos n) = show_digits (suc n) n []
show (negsuc n) = "-" ∷ show_digits (suc (suc n)) (suc n) []

-- What `strings.EqualFold` compares, where one side is lower-case ASCII: besides the capitals only
-- the long s and the sign of Kelvin fold to such a letter.
abbrev pub fold : ℕ → ℕ
fold c =
    if leb 65 c && leb c 90 then c + 32 else if c == 383 then 115 else if c == 8490 then 107 else c

unfoldable pub equal_fold : String → String → Bool
equal_fold [] [] = true
equal_fold [] (d ∷ t) = false
equal_fold (c ∷ s) [] = false
equal_fold (c ∷ s) (d ∷ t) = fold (code c) == fold (code d) && equal_fold s t
