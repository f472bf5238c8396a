-- ===== src/Limiter/Redis/Replies.antt =====
-- `Allow` of internal/limiter/redis.go: from the script's reply to the decision.
use Prim.Native.String.{◌++◌ as join}
use mathlib.Core.List.{head?}
use rate_limiting_reverse_pr.Prelude.{
  ◌+◌, ◌≡◌, refl, sym, ap, Bool-cases, inl, inr, true, false, String, List, [], ◌∷◌, ◌++◌, arith,
  if◌then◌else◌, length, length-append,
}
use rate_limiting_reverse_pr.Prelude.Int.{ℤ, pos, ◌+ℤ◌, ◌-ℤ◌, ◌*ℤ◌, ◌≤ℤ◌, ◌<ℤ◌, div_trunc, -ℤ_parts}
use rate_limiting_reverse_pr.Limiter.Policy.{
  Policy, Decision, IsEnforceable, normalize, normalize-IsEnforceable, deny, backend_redis,
}
use rate_limiting_reverse_pr.Limiter.Window.{live, admits, record_request}
use rate_limiting_reverse_pr.Limiter.Memory.Ordered.{live-snoc}
use rate_limiting_reverse_pr.Limiter.Manager.{answered, bump64}
use rate_limiting_reverse_pr.Limiter.Redis.{
  SortedSets, Value, int64_value, Carried, returned, RedisLimiter, window_in_ms, unix_milli,
  reset_ms, decide, member, allow, settle_call, read_reply, read_three, to_int, sliding_window,
}
use rate_limiting_reverse_pr.Limiter.Redis.Server.{SortedSetLaws}
use rate_limiting_reverse_pr.Limiter.Redis.Script.{
  Mirrors, record_request-Mirrors, sliding_window-IsRun,
}
use rate_limiting_reverse_pr.Limiter.Redis.Delays.{
  reset_ms_bounds, reset_lem, a_first, wait_lem, wait_bounds, wait_high, delay_lem, left_lem,
}

-- The policy that the script is given.
abbrev pub in_ms : Policy → Policy
in_ms p = record { limit = p.limit; window = window_in_ms p }

abbrev pub IsWindowMs : ℤ → Type 0
IsWindowMs w = (pos 1 ≤ℤ w) × (w ≤ℤ pos 86400000)

pub window_in_ms-IsWindowMs : (p : Policy) → IsEnforceable p → IsWindowMs (window_in_ms p)
unfolding window_in_ms div_trunc
window_in_ms-IsWindowMs p h = ground (arith, h)

-- The admissions that lie in the window once a request has been decided, in milliseconds.
abbrev pub in_window : Policy → ℤ → List ℤ → List ℤ
in_window p now log =
    live (unix_milli now -ℤ window_in_ms p) (record_request (in_ms p) (unix_milli now) log)

-- What an instance of the proxy tells its client: as in the contract. `used` counts the admissions
-- in the window; the delay is the time until the oldest of them leaves it, in whole milliseconds and
-- at most one window, and the reset is that much after now.
pub record IsShared (p : Policy) (now : ℤ) (log : List ℤ) (d : Decision) : Type 0 where
  pub allowed : d.allowed ≡ admits (in_ms p) (unix_milli now) log
  pub limit : d.limit ≡ p.limit
  pub window : d.window ≡ p.window
  pub backend : d.backend ≡ backend_redis
  pub used : d.used ≡ pos (length (in_window p now log))
  pub counted : d.allowed ≡ true → (pos 1 ≤ℤ d.used) × (d.used ≤ℤ p.limit)
  pub left : d.allowed ≡ true → d.remaining ≡ p.limit -ℤ d.used
  pub exhausted : d.allowed ≡ false → (p.limit ≤ℤ d.used) × (d.remaining ≡ pos 0)
  pub oldest :
      (t : ℤ) × (rest : List ℤ) × (in_window p now log ≡ t ∷ rest)
      × (d.retry_after ≡ ((t +ℤ window_in_ms p) -ℤ unix_milli now) *ℤ pos 1000000)
  pub reset_at : d.reset_at ≡ now +ℤ d.retry_after
  pub patient : (pos 0 ≤ℤ d.retry_after) × (d.retry_after ≤ℤ window_in_ms p *ℤ pos 1000000)

module _ (p : Policy) (enforceable : IsEnforceable p) (now : ℤ) (log : List ℤ) where
  abbrev now_ms : ℤ
  now_ms = unix_milli now

  abbrev window_ms : ℤ
  window_ms = window_in_ms p

  abbrev after : List ℤ
  after = live (now_ms -ℤ window_ms) (record_request (in_ms p) now_ms log)

  room_lt :
      admits (in_ms p) now_ms log ≡ true → pos (length (live (now_ms -ℤ window_ms) log)) <ℤ p.limit
  unfolding admits
  room_lt yes_ = ground arith

  count_lem :
      length (live (now_ms -ℤ window_ms) (log ++ now_ms ∷ []))
      ≡ length (live (now_ms -ℤ window_ms) log) + 1
  count_lem =
      rw
        (live-snoc (now_ms -ℤ window_ms) now_ms log
          (omega (arith, -ℤ_parts now_ms window_ms, window_in_ms-IsWindowMs p enforceable)))
        (length-append (live (now_ms -ℤ window_ms) log) (now_ms ∷ []))

  -- The count of the script, with the request itself when it is admitted.
  used_admitted :
      admits (in_ms p) now_ms log ≡ true
      → (pos 1 ≤ℤ pos (length after)) × (pos (length after) ≤ℤ p.limit)
  unfolding record_request
  used_admitted yes_ =
      rw (yes_, count_lem) (omega (arith, room_lt yes_), omega (arith, room_lt yes_))

  used_refused : admits (in_ms p) now_ms log ≡ false → p.limit ≤ℤ pos (length after)
  unfolding record_request admits
  used_refused no_ = rw no_ (ground arith)

  abbrev reset_after : ℤ
  reset_after = reset_ms now_ms window_ms (head? after)

  some_left : pos 1 ≤ℤ pos (length after)
  some_left = elim (Bool-cases (admits (in_ms p) now_ms log)) [
    | inl yes_ ↦ (used_admitted yes_).0
    | inr no_ ↦ omega (arith, used_refused no_, enforceable.limit_low)
  ]

  first_leaves :
      (t : ℤ) × (rest : List ℤ) × (after ≡ t ∷ rest)
      × (reset_after *ℤ pos 1000000 ≡ ((t +ℤ window_ms) -ℤ now_ms) *ℤ pos 1000000)
  first_leaves =
      let (t, rest, e) = a_first after some_left in
      (t, rest, e, ap (λ r. r *ℤ pos 1000000) (reset_lem now_ms window_ms t _ rest e))

  -- The decision on the three numbers that the script returns for this log.
  pub decide-IsShared :
      pos 0 ≤ℤ reset_after
      → reset_after ≤ℤ window_ms
      → IsShared p now log (
          decide p now
            (if admits (in_ms p) now_ms log then pos 1 else pos 0)
            (pos (length after))
            reset_after)
  unfolding decide deny
  decide-IsShared low high =
      let short = window_in_ms-IsWindowMs p enforceable in
      let wait = wait_lem reset_after low (omega (arith, short)) in
      let bounds = wait_bounds reset_after window_ms low high in
      elim (Bool-cases (admits (in_ms p) now_ms log)) [
        | inl yes_ ↦
            let (one, most) = used_admitted yes_ in
            simp (yes_, wait)
              (record {
                allowed = sym yes_;
                limit = refl;
                window = refl;
                backend = refl;
                used = refl;
                counted = λ _. (one, most);
                left = λ _. left_lem p.limit (pos (length after)) one most enforceable.limit_high;
                exhausted = λ e. cc;
                oldest = first_leaves;
                reset_at = refl;
                patient = bounds;
              })
        | inr no_ ↦
            simp
              (
                no_,
                wait,
                delay_lem now (reset_after *ℤ pos 1000000) bounds.0
                    (wait_high reset_after low (omega (arith, short))),
              )
              (record {
                allowed = sym no_;
                limit = refl;
                window = refl;
                backend = refl;
                used = refl;
                counted = λ e. cc;
                left = λ e. cc;
                exhausted = λ _. (used_refused no_, refl);
                oldest = first_leaves;
                reset_at = refl;
                patient = bounds;
              })
      ]

module _ (server : SortedSets) (laws : SortedSetLaws server) {Float : Type 0}
    (int_of_float : Float → ℤ) (format : List (Value Float) → String)
    (carry : (server.State → server.State × ℤ × ℤ × ℤ)
      → server.State
      → server.State × Carried (List (Value Float)))
    (delivers : (f : server.State → server.State × ℤ × ℤ × ℤ) (s : server.State)
      → let (s', a, u, t) = f s in
        carry f s ≡ (s', returned (int64_value a ∷ int64_value u ∷ int64_value t ∷ []))) where
  -- When the client library runs the script once and hands over its three integers, `Allow` under
  -- any policy answers as the contract does for the normalised policy in milliseconds: it is allowed
  -- exactly if the contract admits it, `used` counts the admissions in the window, `remaining` is
  -- what is left of the limit, the delay is the time until the oldest admission leaves the window, in
  -- whole milliseconds and at most one window, the reset is that much after now, and the set mirrors
  -- the log with this request in it. The member must be new, and the clock not behind the last
  -- request.
  pub allow-IsShared :
      (key : String) (q : Policy) (now before : ℤ) (r : RedisLimiter server) (log : List ℤ)
      → Mirrors (in_ms (normalize q)) before (laws.scores (join r.prefix key) r.state) log
      → before ≤ℤ unix_milli now
      → laws.has (join r.prefix key) (member r.instance_id now (bump64 r.seq)) r.state ≡ false
      → let (r', reply) = allow server int_of_float format carry key q now r in
        (d : Decision) × (reply ≡ answered d)
        × IsShared (normalize q) now log d
        × Mirrors
            (in_ms (normalize q))
            (unix_milli now)
            (laws.scores (join r.prefix key) r'.state)
            (record_request (in_ms (normalize q)) (unix_milli now) log)
  unfolding allow settle_call read_reply read_three to_int
  allow-IsShared key q now before r log t le new_ =
      let p = normalize q in
      let enforceable = normalize-IsEnforceable q in
      let short = window_in_ms-IsWindowMs p enforceable in
      let n = member r.instance_id now (bump64 r.seq) in
      let k = join r.prefix key in
      let script = sliding_window server k (unix_milli now) (window_in_ms p) p.limit n in
      let run =
        sliding_window-IsRun server laws k n (in_ms p) before (unix_milli now) log r.state
          (omega (arith, short)) new_ le t in
      let mirrored = record_request-Mirrors (in_ms p) before (unix_milli now) _ log le t in
      let bounds =
        reset_ms_bounds (unix_milli now) (window_in_ms p) _ (omega (arith, short)) mirrored.up_to in
      rw (delivers script r.state) (
        decide p now (script r.state).1 (script r.state).2 (script r.state).3,
        refl,
        rw (run.allowed, run.used, run.reset)
            (decide-IsShared p enforceable now log bounds.0 bounds.1),
        rw run.own mirrored,
      )
