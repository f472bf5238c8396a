-- ===== src/Limiter/Redis/Members.antt =====
-- The members of the sorted sets of internal/limiter/redis.go: one request never takes the place of
-- another one.
use Prim.Native.Char.{code}
use Prim.Native.String.{◌++◌ as join}
use text.Mathlib.TextLemmas.{cons-append, nil-append}
use rate_limiting_reverse_pr.Prelude.{
  ℕ, ◌≡◌, ap, sym, ◌∙◌, inl, inr, Bool-cases, false, ◌==◌, String, arith, if◌then◌else◌,
}
use rate_limiting_reverse_pr.Prelude.Int.{pos, ◌<ℤ◌, i64, i64_id}
use rate_limiting_reverse_pr.Prelude.Radix.{
  has_dash, format36, format36_injective, format36-has_dash,
}
use rate_limiting_reverse_pr.Limiter.Redis.{member}

-- A text up to its first dash, and what follows that.
unfoldable cut_dash : String → String × String
cut_dash String.[] = ("", "")
cut_dash (String.◌∷◌ c s) =
    let (front, back) = cut_dash s in if code c == 45 then ("", s) else (String.◌∷◌ c front, back)

cut_dash-join : (a b : String) → has_dash a ≡ false → cut_dash (join a (join "-" b)) ≡ (a, b)
unfolding cut_dash
cut_dash-join String.[] b h =
    ap cut_dash
      (nil-append (join "-" b) ∙ cons-append "-" "" b ∙ ap (String.◌∷◌ "-") (nil-append b))
cut_dash-join (String.◌∷◌ c a) b h = elim (Bool-cases (code c == 45)) [
  | inl dash ↦ cc (rw dash at h)
  | inr other ↦
      rw (cons-append c a (join "-" b))
        (rw other (ap (λ p. (String.◌∷◌ c p.0, p.1)) (cut_dash-join a b (rw other at h))))
]

-- What stands before the first dash, and behind it, is determined by the whole.
cut_once :
    (a a' b b' : String)
    → has_dash a ≡ false
    → has_dash a' ≡ false
    → join a (join "-" b) ≡ join a' (join "-" b')
    → (a ≡ a') × (b ≡ b')
cut_once a a' b b' h h' e =
    let same = sym (cut_dash-join a b h) ∙ ap cut_dash e ∙ cut_dash-join a' b' h' in
    (ap (λ p. p.0) same, ap (λ p. p.1) same)

-- Two requests whose members are the same came from one instance, at one instant, and have one
-- sequence number, if the instances' names have no dash and the clocks read instants from 1970 until
-- int64 nanoseconds end, in 2262.
pub member_injective :
    (id id' : String) (now now' seq seq' : ℕ)
    → has_dash id ≡ false
    → has_dash id' ≡ false
    → pos now <ℤ pos 9223372036854775808
    → pos now' <ℤ pos 9223372036854775808
    → member id (pos now) seq ≡ member id' (pos now') seq'
    → (id ≡ id') × (now ≡ now') × (seq ≡ seq')
unfolding member
member_injective id id' now now' seq seq' h h' early early' e =
    let (ids, rest) = cut_once id id' _ _ h h' e in
    let (nows, seqs) =
      cut_once (format36 (i64 (pos now))) (format36 (i64 (pos now'))) _ _ (clock_unsigned now early)
        (clock_unsigned now' early') rest in
    (
      ids,
      format36_injective now now'
          (ap format36 (sym (in_time now early)) ∙ nows ∙ ap format36 (in_time now' early')),
      format36_injective seq seq' seqs,
    )
  where
    in_time : (n : ℕ) → pos n <ℤ pos 9223372036854775808 → i64 (pos n) ≡ pos n
    in_time n small = i64_id (pos n) (omega arith)

    clock_unsigned :
        (n : ℕ) → pos n <ℤ pos 9223372036854775808 → has_dash (format36 (i64 (pos n))) ≡ false
    clock_unsigned n small = ap (λ z. has_dash (format36 z)) (in_time n small) ∙ format36-has_dash n
