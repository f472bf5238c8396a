-- ===== src/Prelude/Dict.antt =====
-- Maps from texts (`map[string]V`, `sync.Map`) as association lists. The order of the list stands
-- for the order of one `Range`, which Go leaves open.
use text.Mathlib.Text.{◌==◌ as str_eq}
use text.Mathlib.TextEquality.{eq_iff}
use rate_limiting_reverse_pr.Prelude.{
  ◌+◌, ◌≡◌, refl, Bool, true, false, String, Option, none, some, List, [], ◌∷◌, arith,
  if◌then◌else◌, length,
}

abbrev pub Dict {ℓ} : Type ℓ → Type ℓ
Dict V = List (String × V)

-- The test on keys.
abbrev pub same_key : String → String → Bool
same_key k j = str_eq k j

pub same_key_self : (k : String) → same_key k k ≡ true
same_key_self k = (eq_iff k k).1 refl

pub same_key→eq : (k j : String) → same_key k j ≡ true → k ≡ j
same_key→eq k j h = (eq_iff k j).0 h

abbrev pub is_some {ℓ} : {V : Type ℓ} → Option V → Bool
is_some none = false
is_some (some v) = true

module _ {ℓ} {V : Type ℓ} where
  unfoldable pub lookup : String → Dict V → Option V
  lookup k [] = none
  lookup k ((j, v) ∷ m) = if same_key j k then some v else lookup k m

  -- Replaces the value of a key that is there, and appends a new one.
  unfoldable pub store : String → V → Dict V → Dict V
  store k v [] = (k, v) ∷ []
  store k v ((j, w) ∷ m) = if same_key j k then (j, v) ∷ m else (j, w) ∷ store k v m

  unfoldable pub delete : String → Dict V → Dict V
  delete k [] = []
  delete k ((j, v) ∷ m) = if same_key j k then delete k m else (j, v) ∷ delete k m

  pub lookup-store :
      (k j : String) (v : V) (m : Dict V)
      → lookup j (store k v m) ≡ (if same_key k j then some v else lookup j m)
  unfolding lookup store
  lookup-store k j v [] = refl
  lookup-store k j v ((i, w) ∷ m) =
      ground (arith, eq_iff k j, eq_iff i k, eq_iff i j, lookup-store k j v m)

  pub lookup-delete :
      (k j : String) (m : Dict V)
      → lookup j (delete k m) ≡ (if same_key k j then none else lookup j m)
  unfolding lookup delete
  lookup-delete k j [] = ground arith
  lookup-delete k j ((i, w) ∷ m) =
      ground (arith, eq_iff k j, eq_iff i k, eq_iff i j, lookup-delete k j m)

  -- A new key makes the map longer by one entry, an old one leaves its size.
  pub length-store :
      (k : String) (v : V) (m : Dict V)
      → length (store k v m) ≡ length m + (if is_some (lookup k m) then 0 else 1)
  unfolding lookup store
  length-store k v [] = refl
  length-store k v ((i, w) ∷ m) = ground (arith, length-store k v m)

  -- No key stands twice.
  abbrev pub IsKeyed : Dict V → Type 0
  IsKeyed [] = Unit {0}
  IsKeyed ((k, v) ∷ m) = (is_some (lookup k m) ≡ false) × IsKeyed m

  pub store-IsKeyed : (k : String) (v : V) (m : Dict V) → IsKeyed m → IsKeyed (store k v m)
  unfolding store lookup
  store-IsKeyed k v [] h = (refl, tt)
  store-IsKeyed k v ((j, w) ∷ m) h =
      ground (arith, eq_iff j k, eq_iff k j, lookup-store k j v m, store-IsKeyed k v m h.1)

  pub delete-IsKeyed : (k : String) (m : Dict V) → IsKeyed m → IsKeyed (delete k m)
  unfolding delete lookup
  delete-IsKeyed k [] h = tt
  delete-IsKeyed k ((j, w) ∷ m) h =
      ground (arith, eq_iff j k, eq_iff k j, lookup-delete k j m, delete-IsKeyed k m h.1)

  pub delete_absent : (k : String) (m : Dict V) → is_some (lookup k m) ≡ false → delete k m ≡ m
  unfolding delete lookup
  delete_absent k [] h = refl
  delete_absent k ((j, w) ∷ m) h = ground (arith, delete_absent k m)

  pub delete_first_key :
      (k : String) (v : V) (m : Dict V) → is_some (lookup k m) ≡ false → delete k ((k, v) ∷ m) ≡ m
  unfolding delete
  delete_first_key k v m h = rw (same_key_self k) (delete_absent k m h)
