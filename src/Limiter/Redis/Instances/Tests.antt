-- ===== src/Limiter/Redis/Instances/Tests.antt =====
-- Two instances, one of them without randomness, and the members of three requests.
use text.Mathlib.TextEquality.{eq_iff}
use rate_limiting_reverse_pr.Prelude.{
  ℕ, zero, suc, ◌<◌, ◌≡◌, refl, sym, String, Option, none, some, List, [], ◌∷◌, arith, All,
  AreDistinct,
}
use rate_limiting_reverse_pr.Prelude.Int.{pos, i64}
use rate_limiting_reverse_pr.Prelude.Radix.{format36, radix_digits, encode_hex}
use rate_limiting_reverse_pr.Limiter.Redis.{member}
use rate_limiting_reverse_pr.Limiter.Redis.Instances.{
  new_instance_id, make_members, AreNamed, bytes_of, instances_differ,
}

abbrev pub random : ℕ → Option (List ℕ)
random zero = some (161 ∷ 178 ∷ 195 ∷ 7 ∷ [])
random (suc i) = none

abbrev pub started : ℕ → ℕ
started i = 1764154000000000000

abbrev pub names : ℕ → String
names i = new_instance_id (random i) (pos (started i))

abbrev asked : List (ℕ × ℕ)
asked = (0, 1764154000000000001) ∷ (1, 1764154000000000001) ∷ (0, 1764154000000000001) ∷ []

made :
    make_members names (λ i. 0) asked
    ≡ "a1b2c307-deikefbxisxt-1" ∷ "deikefbxisxs-deikefbxisxt-1" ∷ "a1b2c307-deikefbxisxt-2" ∷ []
unfolding make_members new_instance_id encode_hex format36 radix_digits member i64
made = refl

abbrev first_name : String
first_name = "a1b2c307"

abbrev second_name : String
second_name = "deikefbxisxs"

differ : first_name ≡ second_name → ⊥
differ e = ground (arith, (eq_iff first_name second_name).1 e)

pub names-AreNamed : AreNamed 2 names
unfolding new_instance_id encode_hex format36 radix_digits i64
names-AreNamed zero zero h g e = refl
names-AreNamed zero (suc zero) h g e = absurd (differ e)
names-AreNamed (suc zero) zero h g e = absurd (differ (sym e))
names-AreNamed (suc zero) (suc zero) h g e = refl
names-AreNamed (suc (suc i)) j h g e = omega (arith, h)
names-AreNamed i (suc (suc j)) h g e = omega (arith, g)

pub bytes : (i : ℕ) → All (λ b. b < 256) (bytes_of (random i))
bytes zero = omega arith
bytes (suc i) = tt

instances_differ_example : AreDistinct (make_members names (λ i. 0) asked)
instances_differ_example =
    instances_differ 2 random started asked bytes (λ i. omega arith) names-AreNamed (omega arith)
      (omega arith)
