-- ===== src/Limiter/Stores/Tests.antt =====
-- A Redis in memory and a codec that keep the laws, and concrete saves on them. The codec writes a
-- number in unary, behind its sign.
use Prim.Native.Char.{code}
use rate_limiting_reverse_pr.Prelude.{
  ℕ, zero, suc, ◌+◌, ◌≡◌, refl, ap, sym, ◌∙◌, String, Option, none, some, [], ◌∷◌, ◌++◌, arith,
  ◌==◌, if◌then◌else◌,
}
use rate_limiting_reverse_pr.Prelude.Int.{ℤ, pos, negsuc}
use rate_limiting_reverse_pr.Prelude.Text.{trim_space}
use rate_limiting_reverse_pr.Limiter.Policy.{Policy, normalize}
use rate_limiting_reverse_pr.Limiter.Memory.{◌>>=◌}
use rate_limiting_reverse_pr.Limiter.Redis.{Carried, returned, failed}
use rate_limiting_reverse_pr.Limiter.Stores.{
  PolicyDoc, Json, message, policy_names, upstream_names, load_policy, save_policy, save_upstream,
  watch_policies,
}
use rate_limiting_reverse_pr.Limiter.Stores.RoundTrip.{
  JsonLaws, in_whole_ms, save_policy-load_policy,
}
use rate_limiting_reverse_pr.Limiter.Stores.InMemory.{
  Keyspace, in_memory, in_memory_laws, fresh_server,
}

abbrev unary : ℕ → String → String
unary zero rest = String.◌∷◌ "," rest
unary (suc n) rest = String.◌∷◌ "1" (unary n rest)

abbrev count_ones : ℕ → String → Option (ℕ × String)
count_ones n String.[] = none
count_ones n (String.◌∷◌ c rest) = if code c == 49 then count_ones (suc n) rest else some (n, rest)

count_ones-unary : (m n : ℕ) (rest : String) → count_ones m (unary n rest) ≡ some (m + n, rest)
count_ones-unary m zero rest = ap (λ k. some (k, rest)) (omega arith)
count_ones-unary m (suc n) rest =
    count_ones-unary (suc m) n rest ∙ ap (λ k. some (k, rest)) (omega arith)

abbrev write_int : ℤ → String → String
write_int (pos n) rest = String.◌∷◌ "+" (unary n rest)
write_int (negsuc n) rest = String.◌∷◌ "-" (unary n rest)

abbrev read_signed : ℕ → Option (ℕ × String) → Option (ℤ × String)
read_signed sign none = none
read_signed sign (some (n, rest)) = some (if sign == 43 then pos n else negsuc n, rest)

abbrev read : String → Option (ℤ × String)
read String.[] = none
read (String.◌∷◌ c rest) = read_signed (code c) (count_ones 0 rest)

read-write_int : (z : ℤ) (rest : String) → read (write_int z rest) ≡ some (z, rest)
read-write_int (pos n) rest =
    ap (read_signed 43) (count_ones-unary 0 n rest) ∙ ap (λ k. some (pos k, rest)) (omega arith)
read-write_int (negsuc n) rest =
    ap (read_signed 45) (count_ones-unary 0 n rest) ∙ ap (λ k. some (negsuc k, rest)) (omega arith)

abbrev encode : PolicyDoc → String
encode d = write_int d.limit (write_int d.window_ms (write_int d.update_at ""))

abbrev decode : String → Option PolicyDoc
decode text = do
  (limit, rest) ← read text
  (window_ms, rest') ← read rest
  (update_at, rest'') ← read rest'
  some (record { limit = limit; window_ms = window_ms; update_at = update_at })

decode-encode : (d : PolicyDoc) → decode (encode d) ≡ some d
decode-encode d = rw (read-write_int d.limit (write_int d.window_ms (write_int d.update_at ""))) (
    rw (read-write_int d.window_ms (write_int d.update_at ""))
      (rw (read-write_int d.update_at "") refl))

abbrev or_failed : Option PolicyDoc → Carried PolicyDoc
or_failed none = failed "unexpected end of input"
or_failed (some d) = returned d

abbrev plain : Json
plain = record { marshal = λ d. returned (encode d); unmarshal = λ text. or_failed (decode text) }

plain_laws : JsonLaws plain
plain_laws = record {
  unmarshal_marshal =
      λ d text h. ap plain.unmarshal (sym (text_of h)) ∙ ap or_failed (decode-encode d);
}
  where
    text_of : {a b : String} → ◌≡◌ {A = Carried String} (returned a) (returned b) → a ≡ b
    text_of h = cc

-- Twenty requests in a window of a second and half a millisecond.
abbrev twenty : Policy
twenty = record { limit = pos 20; window = pos 1000500000 }

abbrev saved_policy : Keyspace
saved_policy = (save_policy in_memory plain (policy_names "rl:") twenty (pos 5) fresh_server).0

save_policy_ok :
    save_policy in_memory plain (policy_names "rl:") twenty (pos 5) fresh_server
    ≡ (saved_policy, none)
unfolding save_policy
save_policy_ok = refl

save_policy-load_policy_example :
    (load_policy in_memory plain (policy_names "rl:") saved_policy
      ≡ returned (some (in_whole_ms (normalize twenty))))
    × ((text : String) × (in_memory_laws.sent (policy_names "rl:").channel saved_policy
          ≡ in_memory_laws.sent (policy_names "rl:").channel fresh_server ++ text ∷ [])
        × (watch_policies plain.unmarshal (λ p held. p ∷ held) (message text ∷ []) []
            ≡ in_whole_ms (normalize twenty) ∷ []))
save_policy-load_policy_example =
    save_policy-load_policy in_memory in_memory_laws plain plain_laws (λ p held. p ∷ held) []
      (policy_names "rl:") twenty (pos 5) fresh_server saved_policy
      (saved_policy.0 (policy_names "rl:").key) save_policy_ok refl

abbrev saved_upstream : Keyspace
saved_upstream =
    (save_upstream in_memory (upstream_names "rl:") " http://app:8080\n" fresh_server).0

save_upstream_ok :
    save_upstream in_memory (upstream_names "rl:") " http://app:8080\n" fresh_server
    ≡ (saved_upstream, none)
unfolding save_upstream
save_upstream_ok = refl

trimmed : trim_space " http://app:8080\n" ≡ "http://app:8080"
unfolding trim_space
trimmed = refl
