-- ===== src/Limiter/Manager/Routing.antt =====
-- Where a request is decided (`AllowPolicy` of internal/limiter/manager.go). The breaker and the
-- counters are this call's alone here; Circuit and its neighbours interleave the steps of many calls.
use rate_limiting_reverse_pr.Prelude.{
  ℕ, ◌≡◌, refl, ◌⊎◌, inl, inr, true, false, String, List, Option, none, some, arith, Bool-cases,
  Option-cases,
}
use rate_limiting_reverse_pr.Prelude.Int.{ℤ, pos}
use rate_limiting_reverse_pr.Limiter.Policy.{Policy, Decision, normalize}
use rate_limiting_reverse_pr.Limiter.Memory.{Memory}
use rate_limiting_reverse_pr.Limiter.Memory.Decisions.{IsAccurate, IsIn, allow_answers}
use rate_limiting_reverse_pr.Limiter.Manager.{
  Backend, Manager, Readings, Reply, answered, unavailable, bump64, zero_time, record_failure,
  succeed_locked, succeed_flags, record_success, serve_fallback, settle, route, allow_policy,
}
use rate_limiting_reverse_pr.Limiter.Manager.Attempts.{
  Permits, Refuses, rearmed, try_primary-cases, IsCounted, record_failure-IsCounted,
}

module _ (primary : Backend) (others : ℕ → Memory → Memory) (key : String) (p : Policy)
    (r : Readings) where
  open primary use {Store, call}

  -- Redis is configured, the circuit lets the request through, and this is what Redis replies.
  abbrev pub Replies : Manager primary → Manager primary → Reply → Type 0
  Replies m m' reply =
      (s : Store) × (m.store ≡ some s)
      × ((call key p r.at_primary s).1 ≡ reply)
      × (m'.store ≡ some (call key p r.at_primary s).0)
      × Permits r.at_try m.breaker

  -- The Redis limiter answered: its decision is returned, the breaker is reset, one counter moves.
  pub record IsRedis (m m' : Manager primary) (d : Decision) : Type 0 where
    pub asked : Replies m m' (answered d)
    pub counted : m'.redis_served ≡ bump64 m.redis_served
    pub kept : m'.fallback_served ≡ m.fallback_served
    pub memory : m'.fallback ≡ m.fallback
    pub closed : (m'.breaker.failures ≡ pos 0) × (m'.breaker.open_until ≡ zero_time)
    pub healthy : (m'.breaker.redis_healthy ≡ true) × (m'.breaker.degraded ≡ false)

  -- Why the in-memory limiter is asked. Redis is not configured, or the circuit refuses; nothing
  -- but the in-memory limiter changes.
  abbrev pub IsSkipped : Manager primary → Manager primary → Type 0
  IsSkipped m m' =
      ((m.store ≡ none) ⊎ Refuses r.at_try m.breaker)
      × (m'.breaker ≡ m.breaker)
      × (m'.store ≡ m.store)

  -- Or Redis failed: the failure counts, unless the caller's context has ended.
  abbrev pub IsFailed : Manager primary → Manager primary → Type 0
  IsFailed m m' =
      (err : String) × Replies m m' (unavailable err)
      × (((r.ctx_ended ≡ true)
            × (m'.breaker ≡ record m.breaker { open_until = rearmed m.config r.at_try m.breaker }))
          ⊎ ((r.ctx_ended ≡ false) × IsCounted m.config r err m.breaker m'.breaker))

  -- The in-memory limiter answered.
  pub record IsFallback (m m' : Manager primary) (d : Decision) : Type 0 where
    pub reason : IsSkipped m m' ⊎ IsFailed m m'
    pub hits : List ℤ
    pub found : IsIn r.at_fallback hits m'.fallback
    pub accurate : IsAccurate (normalize p) r.at_fallback hits d
    pub counted : m'.fallback_served ≡ bump64 m.fallback_served
    pub kept : m'.redis_served ≡ m.redis_served

  abbrev Served : Manager primary → Option (Manager primary × Decision) → Type 0
  Served m o =
      (m' : Manager primary) × (d : Decision) × (o ≡ some (m', d))
      × (IsRedis m m' d ⊎ IsFallback m m' d)

  fallback-Served :
      (m m₀ : Manager primary)
      → m₀.redis_served ≡ m.redis_served
      → m₀.fallback_served ≡ m.fallback_served
      → IsSkipped m m₀ ⊎ IsFailed m m₀
      → Served m (serve_fallback primary others key p r.at_fallback m₀)
  unfolding serve_fallback
  fallback-Served m m₀ e f why =
      let (memory, d, hits, called, found, accurate) =
        allow_answers others key p r.at_fallback m₀.fallback in
      (
        record m₀ { fallback = memory; fallback_served = bump64 m₀.fallback_served },
        d,
        rw (called, serve_fallback),
        inr (record {
          reason = why;
          hits = hits;
          found = found;
          accurate = accurate;
          counted = rw f;
          kept = e;
        }),
      )

  -- The manager once the call of the Redis limiter has come back.
  abbrev called : Manager primary → Store → Manager primary
  called m s = record m {
    breaker = record m.breaker { open_until = rearmed m.config r.at_try m.breaker };
    store = some (call key p r.at_primary s).0;
  }

  settle_ended :
      (err : String) (m : Manager primary)
      → r.ctx_ended ≡ true
      → settle primary others key p r (unavailable err) m
        ≡ serve_fallback primary others key p r.at_fallback m
  unfolding settle
  settle_ended err m ended = rw ended refl

  settle_going :
      (err : String) (m : Manager primary)
      → r.ctx_ended ≡ false
      → settle primary others key p r (unavailable err) m
        ≡ serve_fallback primary others key p r.at_fallback
            (record m { breaker = record_failure m.config r.at_failure err m.breaker })
  unfolding settle
  settle_going err m going = rw going refl

  settle-Served :
      (s : Store) (m : Manager primary) (reply : Reply)
      → m.store ≡ some s
      → (call key p r.at_primary s).1 ≡ reply
      → Permits r.at_try m.breaker
      → Served m (settle primary others key p r reply (called m s))
  unfolding settle record_success succeed_locked succeed_flags
  settle-Served s m (answered d) has asked permitted = (
    record (called m s) {
      breaker = record_success (called m s).breaker;
      redis_served = bump64 m.redis_served;
    },
    d,
    refl,
    inl (record {
      asked = (s, has, asked, refl, permitted);
      counted = refl;
      kept = refl;
      memory = refl;
      closed = (refl, refl);
      healthy = (refl, refl);
    }),
  )
  settle-Served s m (unavailable err) has asked permitted = elim (Bool-cases r.ctx_ended) [
    | inl ended ↦ rw (settle_ended err (called m s) ended) (
        fallback-Served m (called m s) refl refl
          (inr (err, (s, has, asked, refl, permitted), inl (ended, refl))))
    | inr going ↦ rw (settle_going err (called m s) going) (
        fallback-Served m
          (record (called m s) {
            breaker = record_failure m.config r.at_failure err (called m s).breaker;
          })
          refl refl
          (inr (
            err,
            (s, has, asked, refl, permitted),
            inr (going, record_failure-IsCounted m.config r err m.breaker),
          )))
  ]

  route-Served :
      (s : Store) (m : Manager primary)
      → m.store ≡ some s
      → Served m (route primary others key p r s m)
  unfolding route
  route-Served s m has = elim (try_primary-cases m.config r.at_try m.breaker) [
    | inl (permitted, tried) ↦ rw (tried, route) (settle-Served s m _ has refl permitted)
    | inr (refused_, tried) ↦
        rw (tried, route) (fallback-Served m m refl refl (inl (inr refused_, refl, refl)))
  ]

  not_configured :
      (m : Manager primary)
      → m.store ≡ none
      → allow_policy primary others key p r m ≡ serve_fallback primary others key p r.at_fallback m
  unfolding allow_policy
  not_configured m off = ground arith

  configured :
      (s : Store) (m : Manager primary)
      → m.store ≡ some s
      → allow_policy primary others key p r m ≡ route primary others key p r s m
  unfolding allow_policy
  configured s m on = ground arith

  -- Whatever Redis replies, and whatever the other goroutines do to the entries of the in-memory
  -- limiter, while none of them touches the breaker or the counters during the call: every call
  -- returns one decision and moves one of the two counters. If Redis is configured and the
  -- circuit is closed or its time has passed, Redis is asked, and an answer of it is the decision: the
  -- breaker is closed, and the in-memory limiter is untouched. Otherwise the decision is
  -- accurate for what an entry of the in-memory limiter holds afterwards. The breaker is then as
  -- before if Redis was not asked; if Redis failed, a circuit whose time has passed is open for another
  -- cooldown, and, unless the caller's context has ended, one more failure counts, which opens a closed
  -- circuit at the threshold, and the flags tell of the outage.
  pub allow_policy_served :
      (m : Manager primary)
      → (m' : Manager primary) × (d : Decision) × (allow_policy primary others key p r m
          ≡ some (m', d))
        × (IsRedis m m' d ⊎ IsFallback m m' d)
  allow_policy_served m = elim (Option-cases m.store) [
    | inl off ↦
        rw (not_configured m off) (fallback-Served m m refl refl (inl (inl off, refl, refl)))
    | inr (s, on) ↦ rw (configured s m on) (route-Served s m on)
  ]

  -- While the circuit is open and its time has not passed, Redis is not called and the breaker does
  -- not change: the in-memory limiter alone is asked.
  open_skips_redis :
      (m : Manager primary)
      → Refuses r.at_try m.breaker
      → (m' : Manager primary) × (d : Decision) × (allow_policy primary others key p r m
          ≡ some (m', d))
        × (m'.store ≡ m.store)
        × (m'.breaker ≡ m.breaker)
        × IsFallback m m' d
  open_skips_redis m o =
      let (m', d, e, served) = allow_policy_served m in
      let never : Permits r.at_try m.breaker → ⊥ = λ permitted. elim permitted [
        | inl closed ↦ o.0 closed
        | inr past ↦ omega (arith, o.1, past)
      ] in
      elim served [
        | inl h ↦ absurd (never h.asked.4)
        | inr h ↦ elim h.reason [
          | inl skipped ↦ (m', d, e, skipped.2, skipped.1, h)
          | inr failed_ ↦ absurd (never failed_.1.4)
        ]
      ]
