-- ===== src/Prelude/Int.antt =====
-- Signed integers over the native numbers, and Go's `int64` arithmetic on them: `i64` is the
-- two's complement wrap, `sat64` the saturation of `time.Time.Sub`.
use rate_limiting_reverse_pr.Prelude.{
  ℕ, suc, ◌+◌, ◌-◌, ◌*◌, ◌/◌, ◌%◌, ◌^◌, ◌≤◌, ◌<◌, ◌≡◌, ◌⊎◌, Bool, true, false, arith, ltb, leb,
  ◌==◌, ◌&&◌, if◌then◌else◌,
}

-- `negsuc n` is -(n + 1).
pub data ℤ : Type 0 where
  pos : ℕ → ℤ
  negsuc : ℕ → ℤ

abbrev pub pos_part : ℤ → ℕ
pos_part (pos n) = n
pos_part (negsuc n) = 0

abbrev pub neg_part : ℤ → ℕ
neg_part (pos n) = 0
neg_part (negsuc n) = suc n

abbrev pub sub_ℕ : ℕ → ℕ → ℤ
sub_ℕ a b = if leb b a then pos (a - b) else negsuc (b - a - 1)

infixl 65 ◌+ℤ◌ ◌-ℤ◌
infixl 70 ◌*ℤ◌
infix 50 ◌≤ℤ◌ ◌<ℤ◌
unfoldable pub ◌+ℤ◌ : ℤ → ℤ → ℤ
a +ℤ b = sub_ℕ (pos_part a + pos_part b) (neg_part a + neg_part b)

unfoldable pub ◌-ℤ◌ : ℤ → ℤ → ℤ
a -ℤ b = sub_ℕ (pos_part a + neg_part b) (neg_part a + pos_part b)

unfoldable pub ◌*ℤ◌ : ℤ → ℤ → ℤ
a *ℤ b =
    sub_ℕ (pos_part a * pos_part b + neg_part a * neg_part b)
      (pos_part a * neg_part b + neg_part a * pos_part b)

abbrev pub ◌≤ℤ◌ : ℤ → ℤ → Type 0
a ≤ℤ b = pos_part a + neg_part b ≤ pos_part b + neg_part a

abbrev pub ◌<ℤ◌ : ℤ → ℤ → Type 0
a <ℤ b = pos_part a + neg_part b < pos_part b + neg_part a

abbrev pub leb_ℤ : ℤ → ℤ → Bool
leb_ℤ a b = leb (pos_part a + neg_part b) (pos_part b + neg_part a)

abbrev pub ltb_ℤ : ℤ → ℤ → Bool
ltb_ℤ a b = ltb (pos_part a + neg_part b) (pos_part b + neg_part a)

abbrev pub eqb_ℤ : ℤ → ℤ → Bool
eqb_ℤ a b = (pos_part a + neg_part b) == (pos_part b + neg_part a)

-- Division by a positive number, rounded down (`UnixMilli`, `Unix`) and towards 0 (Go's `/`).
unfoldable pub div_floor : ℤ → ℕ → ℤ
div_floor (pos n) k = pos (n / k)
div_floor (negsuc n) k = negsuc (n / k)

unfoldable pub div_trunc : ℤ → ℕ → ℤ
div_trunc (pos n) k = pos (n / k)
div_trunc (negsuc n) k = sub_ℕ 0 (suc n / k)

-- The 64-bit pattern of an integer, and the `int64` that it stands for.
unfoldable pub bits64 : ℤ → ℕ
bits64 (pos n) = n % 2 ^ 64
bits64 (negsuc n) = 2 ^ 64 - 1 - n % 2 ^ 64

unfoldable pub i64 : ℤ → ℤ
unfolding bits64
i64 z = if ltb (bits64 z) (2 ^ 63) then pos (bits64 z) else negsuc (2 ^ 64 - 1 - bits64 z)

abbrev pub max_i64 : ℤ
max_i64 = pos 9223372036854775807

abbrev pub min_i64 : ℤ
min_i64 = negsuc 9223372036854775807

unfoldable pub sat64 : ℤ → ℤ
sat64 z = if ltb_ℤ max_i64 z then max_i64 else if ltb_ℤ z min_i64 then min_i64 else z

abbrev pub InI64 : ℤ → Type 0
InI64 z = (pos_part z < 2 ^ 63) × (neg_part z ≤ 2 ^ 63)

pub +ℤ_parts :
    (a b : ℤ)
    → pos_part (a +ℤ b) + neg_part a + neg_part b ≡ neg_part (a +ℤ b) + pos_part a + pos_part b
unfolding ◌+ℤ◌
+ℤ_parts a b = ground arith

pub -ℤ_parts :
    (a b : ℤ)
    → pos_part (a -ℤ b) + neg_part a + pos_part b ≡ neg_part (a -ℤ b) + pos_part a + neg_part b
unfolding ◌-ℤ◌
-ℤ_parts a b = ground arith

-- One of the two parts is 0, so the parts are bounded by any bound on their difference.
pub parts_lem : (a : ℤ) → (pos_part a ≡ 0) ⊎ (neg_part a ≡ 0)
parts_lem a = ground arith

pub eq_of_parts : (a b : ℤ) → pos_part a + neg_part b ≡ pos_part b + neg_part a → a ≡ b
eq_of_parts a b h = ground arith

pub i64_id : (z : ℤ) → InI64 z → i64 z ≡ z
unfolding i64 bits64
i64_id (pos n) h = ground arith
i64_id (negsuc n) h = ground arith

pub i64-InI64 : (z : ℤ) → InI64 (i64 z)
unfolding i64 bits64
i64-InI64 (pos n) = ground arith
i64-InI64 (negsuc n) = ground arith

pub sat64_id : (z : ℤ) → InI64 z → sat64 z ≡ z
unfolding sat64
sat64_id z h = ground arith

pub ruleset int_laws = (arith, +ℤ_parts, -ℤ_parts, parts_lem, eq_of_parts)

-- An instant between 1970 and 2116, far from the ends of an `int64` of nanoseconds.
abbrev pub IsClock : ℤ → Type 0
IsClock t = (neg_part t ≡ 0) × (pos_part t < 2 ^ 62)

-- A duration of at most two days.
abbrev pub IsShort : ℤ → Type 0
IsShort d = (neg_part d ≡ 0) × (pos_part d ≤ 172800000000000)

pub i64-clock : (t : ℤ) → IsClock t → i64 t ≡ t
i64-clock t c = i64_id t (omega arith)

pub i64-clock-sub : (t d : ℤ) → IsClock t → IsShort d → i64 (i64 t -ℤ d) ≡ t -ℤ d
i64-clock-sub t d c s =
    rw (i64-clock t c) (i64_id (t -ℤ d) (omega (arith, -ℤ_parts t d, parts_lem (t -ℤ d))))

pub i64-clock-add : (t d : ℤ) → IsClock t → IsShort d → i64 (t +ℤ d) ≡ t +ℤ d
i64-clock-add t d c s = i64_id (t +ℤ d) (omega (arith, +ℤ_parts t d, parts_lem (t +ℤ d)))

pub i64-clocks-sub : (t u : ℤ) → IsClock t → IsClock u → i64 (i64 t -ℤ u) ≡ t -ℤ u
i64-clocks-sub t u c d =
    rw (i64-clock t c) (i64_id (t -ℤ u) (omega (arith, -ℤ_parts t u, parts_lem (t -ℤ u))))
