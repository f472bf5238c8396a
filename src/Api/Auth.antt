-- ===== src/Api/Auth.antt =====
-- internal/api/auth.go: who may use the control plane. `strings.EqualFold`, `strings.TrimSpace` and
-- the password that net/http reads from a Basic header are parameters; the constant time of the
-- comparison is not modelled.
use Prim.Native.String.{len}
use text.Mathlib.Text.{get?}
use rate_limiting_reverse_pr.Prelude.{
  ◌≡◌, refl, sym, ◌∙◌, ap, ◌⊎◌, inl, inr, Bool, Bool-cases, Option-cases, true, false, not, ◌&&◌,
  String, Option, none, some, arith, if◌then◌else◌,
}
use rate_limiting_reverse_pr.Prelude.Int.{ℤ, pos}
use rate_limiting_reverse_pr.Prelude.Dict.{same_key, same_key→eq, same_key_self}

-- The parts of a request that `authorized` reads: two headers, "" when absent, and the password
-- that `BasicAuth` finds.
pub record Credentials : Type 0 where
  pub admin_token : String
  pub authorization : String
  pub basic_password : Option String

-- `tokenEqual`
unfoldable pub token_equal : String → String → Bool
token_equal got want = same_key got want

module _ (equal_fold : String → String → Bool) (trim_space : String → String) where
  -- `cutPrefixFold`, `none` for a false second result. The first bytes of a text that do not end
  -- at a character's end equal no prefix of ASCII characters.
  unfoldable pub cut_prefix_fold : String → String → Option String
  cut_prefix_fold s prefix = elim (get? s 0 (len prefix)) [
    | none ↦ none
    | some start ↦ if equal_fold start prefix then get? s (len prefix) (len s) else none
  ]

  -- The two headers and the password, each tried in its turn.
  unfoldable pub by_header : String → Credentials → Bool
  unfolding token_equal
  by_header token r = not (same_key r.admin_token "") && token_equal r.admin_token token

  unfoldable pub by_bearer : String → Credentials → Bool
  unfolding token_equal cut_prefix_fold
  by_bearer token r =
      not (same_key r.authorization "") && elim (cut_prefix_fold r.authorization "Bearer ") [
        | none ↦ false
        | some rest ↦ token_equal (trim_space rest) token
      ]

  unfoldable pub by_password : String → Credentials → Bool
  unfolding token_equal
  by_password token r = elim r.basic_password [ none ↦ false | some pass ↦ token_equal pass token ]

  unfoldable pub authorized : String → Credentials → Bool
  unfolding by_header by_bearer by_password
  authorized token r =
      if same_key token ""
      then true
      else if by_header token r
      then true
      else if by_bearer token r
      then true
      else by_password token r

  -- `guard`: the handler's answer and what it does, or 401 and nothing.
  unfoldable pub guard :
      {State : Type 0} → String → (State → State × ℤ) → Credentials → State → State × ℤ
  unfolding authorized
  guard token handler r s = if authorized token r then handler s else (s, pos 401)

  -- A way to present the token.
  pub data Presents (token : String) (r : Credentials) : Type 0 where
    in_header : r.admin_token ≡ token → Presents token r
    as_bearer :
        (start rest : String)
        → get? r.authorization 0 7 ≡ some start
        → equal_fold start "Bearer " ≡ true
        → get? r.authorization 7 (len r.authorization) ≡ some rest
        → trim_space rest ≡ token
        → Presents token r
    as_password : r.basic_password ≡ some token → Presents token r

  -- The scheme is the first seven bytes of the header.
  cut_parts :
      (h rest : String)
      → cut_prefix_fold h "Bearer " ≡ some rest
      → (start : String) × (get? h 0 7 ≡ some start)
        × (equal_fold start "Bearer " ≡ true)
        × (get? h 7 (len h) ≡ some rest)
  unfolding cut_prefix_fold
  cut_parts h rest e = elim (Option-cases (get? h 0 7)) [
    | inl short ↦ cc (rw (short, cut_prefix_fold) at e)
    | inr (start, front) ↦ elim (Bool-cases (equal_fold start "Bearer ")) [
      | inl same ↦ (start, front, same, rw (front, same, cut_prefix_fold) at e)
      | inr other ↦ cc (rw (front, other, cut_prefix_fold) at e)
    ]
  ]

  parts_cut :
      (h start rest : String)
      → get? h 0 7 ≡ some start
      → equal_fold start "Bearer " ≡ true
      → get? h 7 (len h) ≡ some rest
      → cut_prefix_fold h "Bearer " ≡ some rest
  unfolding cut_prefix_fold
  parts_cut h start rest front same back = rw (front, same, cut_prefix_fold) back

  bearer-Presents : (token : String) (r : Credentials) → by_bearer token r ≡ true → Presents token r
  unfolding by_bearer token_equal
  bearer-Presents token r h = elim (Bool-cases (same_key r.authorization "")) [
    | inl empty ↦ cc (rw empty at h)
    | inr given ↦ from_rest (cut_prefix_fold r.authorization "Bearer ") refl (rw given at h)
  ]
    where
      from_rest :
          (o : Option String)
          → cut_prefix_fold r.authorization "Bearer " ≡ o
          → elim o [ none ↦ false | some rest ↦ same_key (trim_space rest) token ] ≡ true
          → Presents token r
      from_rest none e b = cc
      from_rest (some rest) e b =
          let (start, front, same, back) = cut_parts r.authorization rest e in
          as_bearer start rest front same back (same_key→eq (trim_space rest) token b)

  password-Presents :
      (token : String) (r : Credentials) → by_password token r ≡ true → Presents token r
  unfolding by_password token_equal
  password-Presents token r h = from_pass r.basic_password refl h
    where
      from_pass :
          (o : Option String)
          → r.basic_password ≡ o
          → elim o [ none ↦ false | some pass ↦ same_key pass token ] ≡ true
          → Presents token r
      from_pass none e b = cc
      from_pass (some pass) e b = as_password (e ∙ ap some (same_key→eq pass token b))

  -- With a token configured, a request that gets past the guard has presented that very token, in
  -- one of the three ways.
  pub authorized-Presents :
      (token : String) (r : Credentials)
      → same_key token "" ≡ false
      → authorized token r ≡ true
      → Presents token r
  unfolding authorized by_header token_equal
  authorized-Presents token r set h = elim (Bool-cases (by_header token r)) [
    | inl header ↦ in_header (same_key→eq r.admin_token token (ground arith))
    | inr no_header ↦ elim (Bool-cases (by_bearer token r)) [
      | inl bearer ↦ bearer-Presents token r bearer
      | inr no_bearer ↦ password-Presents token r (rw (set, no_header, no_bearer) at h)
    ]
  ]

  header-Presents :
      (token : String) (r : Credentials)
      → same_key token "" ≡ false
      → r.admin_token ≡ token
      → authorized token r ≡ true
  unfolding authorized by_header token_equal
  header-Presents token r set same = rw (set, same) (rw (same_key_self token, set) refl)

  cut_nothing : cut_prefix_fold "" "Bearer " ≡ none
  unfolding cut_prefix_fold
  cut_nothing = refl

  presented_bearer :
      (token : String) (r : Credentials) (rest : String)
      → cut_prefix_fold r.authorization "Bearer " ≡ some rest
      → trim_space rest ≡ token
      → by_bearer token r ≡ true
  unfolding by_bearer token_equal
  presented_bearer token r rest cut same = elim (Bool-cases (same_key r.authorization "")) [
    | inl empty ↦
        let e : r.authorization ≡ "" = same_key→eq r.authorization "" empty in
        cc (sym cut_nothing ∙ sym (ap (λ h. cut_prefix_fold h "Bearer ") e) ∙ cut)
    | inr given ↦ rw (given, cut, same) (same_key_self token)
  ]

  presented_password :
      (token : String) (r : Credentials)
      → r.basic_password ≡ some token
      → by_password token r ≡ true
  unfolding by_password token_equal
  presented_password token r same = rw same (same_key_self token)

  -- Presenting the token is enough.
  authorized_if :
      (token : String) (r : Credentials)
      → same_key token "" ≡ false
      → Presents token r
      → authorized token r ≡ true
  unfolding authorized
  authorized_if token r set (in_header same) = header-Presents token r set same
  authorized_if token r set (as_bearer start rest front fold back same) = ground (
    arith,
    presented_bearer token r rest (parts_cut r.authorization start rest front fold back) same,
  )
  authorized_if token r set (as_password same) = ground (arith, presented_password token r same)

  -- With a token configured, a guarded handler runs exactly for the requests that present that very
  -- token, in one of the three ways; any other request is answered by 401 and changes nothing.
  pub guard_lem :
      {State : Type 0} (token : String) (handler : State → State × ℤ) (r : Credentials) (s : State)
      → same_key token "" ≡ false
      → (Presents token r × (guard token handler r s ≡ handler s))
        ⊎ ((¬ Presents token r) × (guard token handler r s ≡ (s, pos 401)))
  unfolding guard
  guard_lem token handler r s set = elim (Bool-cases (authorized token r)) [
    | inl yes_ ↦ inl (authorized-Presents token r set yes_, rw (yes_, guard) refl)
    | inr no_ ↦ inr (λ shown. cc (authorized_if token r set shown, no_), rw (no_, guard) refl)
  ]
