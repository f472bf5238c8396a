-- ===== src/Limiter/Manager/Histories.antt =====
-- Histories of a manager (internal/limiter/manager.go): requests, changes of the policy and pings of
-- its prober, one after the other. What the other goroutines do meanwhile to the in-memory limiter
-- stays free.
use rate_limiting_reverse_pr.Prelude.{
  ℕ, ◌+◌, ◌^◌, ◌<◌, ◌≡◌, refl, ap, sym, ◌∙◌, ◌⊎◌, inl, inr, Bool-cases, Option-cases, String,
  Option, some, List, [], ◌∷◌, arith, length, subst,
}
use rate_limiting_reverse_pr.Limiter.Policy.{
  Policy, Decision, normalize, normalize_id, normalize-IsEnforceable,
}
use rate_limiting_reverse_pr.Limiter.Memory.{Memory, allow, ◌>>=◌}
use rate_limiting_reverse_pr.Limiter.Manager.{
  Backend, Manager, Readings, Reply, answered, unavailable, probe, try_primary, record_failure,
  set_policy, serve_fallback, settle, route, allow_policy, allow_request,
}
use rate_limiting_reverse_pr.Limiter.Manager.Routing.{IsRedis, IsFallback, allow_policy_served}

-- `asks` is `Allow`, with the interference and the clock readings of that call.
pub data Call : Type 0 where
  asks : (ℕ → Memory → Memory) → String → Readings → Call
  changes : Policy → Call
  pings : Option String → Call

-- The policy in force at each request.
unfoldable pub policies_in_force : Policy → List Call → List Policy
policies_in_force p [] = []
policies_in_force p (asks others key r ∷ es) = p ∷ policies_in_force p es
policies_in_force p (changes q ∷ es) = policies_in_force (normalize q) es
policies_in_force p (pings r ∷ es) = policies_in_force p es

-- Each decision is made under its own policy.
abbrev pub AreUnder : List Policy → List Decision → Type 0
AreUnder [] [] = Unit {0}
AreUnder (p ∷ ps) (d ∷ ds) = (d.limit ≡ p.limit) × (d.window ≡ p.window) × AreUnder ps ds
AreUnder _ _ = ⊥

module _ (primary : Backend) where
  open primary use {Store, call}

  -- The primary limiter decides under the policy that it is asked about.
  abbrev pub IsFaithful : Type 0
  IsFaithful =
      (key : String) (p : Policy) (now : _) (s : Store) (d : Decision)
      → (call key p now s).1 ≡ answered d
      → (d.limit ≡ (normalize p).limit) × (d.window ≡ (normalize p).window)

  unfoldable pub run_calls : Manager primary → List Call → Option (Manager primary × List Decision)
  unfolding set_policy
  run_calls m [] = some (m, [])
  run_calls m (asks others key r ∷ es) = do
    (m', d) ← allow_request primary others key r m
    (m'', ds) ← run_calls m' es
    some (m'', d ∷ ds)
  run_calls m (changes q ∷ es) = run_calls (set_policy primary q m).0 es
  run_calls m (pings r ∷ es) = run_calls (record m { breaker = probe r m.breaker }) es

  fallback_policy :
      (others : ℕ → Memory → Memory) (key : String) (p : Policy) (now : _) (m m' : Manager primary)
      (d : Decision)
      → serve_fallback primary others key p now m ≡ some (m', d)
      → m'.policy ≡ m.policy
  unfolding serve_fallback
  fallback_policy others key p now m m' d h =
      elim (Option-cases (allow others key p now m.fallback)) [
        | inl e ↦ ground arith
        | inr (r, e) ↦ ground arith
      ]

  settle_policy :
      (others : ℕ → Memory → Memory) (key : String) (p : Policy) (r : Readings) (reply : Reply)
      (m m' : Manager primary) (d : Decision)
      → settle primary others key p r reply m ≡ some (m', d)
      → m'.policy ≡ m.policy
  unfolding settle
  settle_policy others key p r (answered a) m m' d h = ground arith
  settle_policy others key p r (unavailable err) m m' d h = elim (Bool-cases r.ctx_ended) [
    | inl e ↦ fallback_policy others key p r.at_fallback m m' d (ground arith)
    | inr e ↦
        fallback_policy others key p r.at_fallback
          (record m { breaker = record_failure m.config r.at_failure err m.breaker }) m' d
          (ground arith)
  ]

  route_policy :
      (others : ℕ → Memory → Memory) (key : String) (p : Policy) (r : Readings) (s : Store)
      (m m' : Manager primary) (d : Decision)
      → route primary others key p r s m ≡ some (m', d)
      → m'.policy ≡ m.policy
  unfolding route
  route_policy others key p r s m m' d h =
      let (b, permitted) = try_primary m.config r.at_try m.breaker in
      elim (Bool-cases (try_primary m.config r.at_try m.breaker).1) [
        | inl yes_ ↦
            settle_policy others key p r (call key p r.at_primary s).1
              (record m { breaker = b; store = some (call key p r.at_primary s).0 }) m' d
              (ground arith)
        | inr no_ ↦
            fallback_policy others key p r.at_fallback (record m { breaker = b }) m' d
              (ground arith)
      ]

  -- A request does not change the policy.
  allow_policy_kept :
      (others : ℕ → Memory → Memory) (key : String) (p : Policy) (r : Readings)
      (m m' : Manager primary) (d : Decision)
      → allow_policy primary others key p r m ≡ some (m', d)
      → m'.policy ≡ m.policy
  unfolding allow_policy
  allow_policy_kept others key p r m m' d h = elim (Option-cases m.store) [
    | inl e ↦ fallback_policy others key p r.at_fallback m m' d (ground arith)
    | inr (s, e) ↦ route_policy others key p r s m m' d (ground arith)
  ]

  -- One request: its decision is made under the policy, and one of the counters moves by one.
  record IsAnswered (m m' : Manager primary) (d : Decision) : Type 0 where
    limit : d.limit ≡ m.policy.limit
    window : d.window ≡ m.policy.window
    policy : m'.policy ≡ m.policy
    counted : m'.redis_served + m'.fallback_served ≡ m.redis_served + m.fallback_served + 1

  answer-IsAnswered :
      (others : ℕ → Memory → Memory) (key : String) (r : Readings) (m m' : Manager primary)
      (d : Decision)
      → IsFaithful
      → normalize m.policy ≡ m.policy
      → m.redis_served + m.fallback_served + 1 < 2 ^ 64
      → m'.policy ≡ m.policy
      → IsRedis primary others key m.policy r m m' d
        ⊎ IsFallback primary others key m.policy r m m' d
      → IsAnswered m m' d
  answer-IsAnswered others key r m m' d faithful normal room kept (inl h) =
      let (s, has, asked, stored, permitted) = h.asked in
      let (l, w) = faithful key m.policy r.at_primary s d asked in
      record {
        limit = l ∙ ap (λ p. p.limit) normal;
        window = w ∙ ap (λ p. p.window) normal;
        policy = kept;
        counted = rw (h.counted, h.kept) (ground arith);
      }
  answer-IsAnswered others key r m m' d faithful normal room kept (inr h) = record {
    limit = h.accurate.limit ∙ ap (λ p. p.limit) normal;
    window = h.accurate.window ∙ ap (λ p. p.window) normal;
    policy = kept;
    counted = rw (h.counted, h.kept) (ground arith);
  }

  -- Whatever the Redis limiter replies, as long as it decides under the policy that it is asked
  -- about, and whatever the other goroutines do to the in-memory limiter: over every history of
  -- requests, changes of the policy and pings, the manager answers every request, each decision
  -- carries the limit and the window that were in force at its request, the normalised ones of the
  -- last change, and the two counters together have moved by the number of requests, below 2 ^ 64.
  pub run_calls_lem :
      (m : Manager primary) (es : List Call)
      → IsFaithful
      → normalize m.policy ≡ m.policy
      → m.redis_served + m.fallback_served + length es < 2 ^ 64
      → (m' : Manager primary) × (ds : List Decision) × (run_calls m es ≡ some (m', ds))
        × AreUnder (policies_in_force m.policy es) ds
        × (m'.redis_served + m'.fallback_served ≡ m.redis_served + m.fallback_served + length ds)
  unfolding run_calls policies_in_force set_policy allow_request
  run_calls_lem m [] faithful normal room = (m, [], refl, tt, omega arith)
  run_calls_lem m (asks others key r ∷ es) faithful normal room =
      let (m', d, asked, served) = allow_policy_served primary others key m.policy r m in
      let kept = allow_policy_kept others key m.policy r m m' d asked in
      let a = answer-IsAnswered others key r m m' d faithful normal (omega arith) kept served in
      let (m'', ds, run, under, total) =
        run_calls_lem m' es faithful (ap normalize kept ∙ normal ∙ sym kept)
          (omega (arith, a.counted)) in
      (
        m'',
        d ∷ ds,
        simp (asked, run),
        (a.limit, a.window, subst (λ q. AreUnder (policies_in_force q es) ds) kept under),
        omega (arith, total, a.counted),
      )
  run_calls_lem m (changes q ∷ es) faithful normal room =
      run_calls_lem (record m { policy = normalize q }) es faithful
        (normalize_id (normalize q) (normalize-IsEnforceable q)) (omega arith)
  run_calls_lem m (pings r ∷ es) faithful normal room =
      run_calls_lem (record m { breaker = probe r m.breaker }) es faithful normal (omega arith)
