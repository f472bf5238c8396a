-- ===== src/Limiter/Manager/Lifecycle/Ending.antt =====
-- What `Close` of internal/limiter/manager.go leaves, of the manager and of the goroutines.
use rate_limiting_reverse_pr.Prelude.{
  ◌≡◌, refl, ap, ◌∙◌, Option-cases, inl, inr, true, false, String, Option, none, some, List, [],
  ◌∷◌, arith,
}
use rate_limiting_reverse_pr.Prelude.Int.{ℤ}
use rate_limiting_reverse_pr.Limiter.Memory.Lifecycle.{MemoryLimiter, tick, see_stop, close_stop}
use rate_limiting_reverse_pr.Limiter.Manager.{Backend, Breaker, probe}
use rate_limiting_reverse_pr.Limiter.Manager.Lifecycle.{
  probe_loop, tick_all, until_stopped, close_limiter, Service, limiter_of, stop_probing,
  close_primary, close_fallback, close_service,
}

-- A prober that is told to stop returns, after however many ticks.
probe_loop_returns :
    (late : List (Option String)) (b : Breaker) → (probe_loop (until_stopped late) b).1 ≡ true
unfolding probe_loop until_stopped
probe_loop_returns [] b = refl
probe_loop_returns (r ∷ late) b = probe_loop_returns late (probe r b)

tick_all_closed :
    (late : List ℤ) (l : MemoryLimiter)
    → ((tick_all late l).closed ≡ l.closed) × ((tick_all late l).waits ≡ l.waits)
unfolding tick_all tick
tick_all_closed [] l = (refl, refl)
tick_all_closed (now ∷ late) l = ground (arith, tick_all_closed late (tick now l))

-- Ticks do nothing once the janitor has returned.
tick_all_gone : (late : List ℤ) (l : MemoryLimiter) → l.waits ≡ false → tick_all late l ≡ l
unfolding tick_all tick
tick_all_gone [] l gone = refl
tick_all_gone (now ∷ late) l gone = ground (arith, tick_all_gone late l gone)

close_limiter_lem :
    (late : List ℤ) (l : MemoryLimiter)
    → ((close_limiter late l).0.closed ≡ true)
      × ((close_limiter late l).0.waits ≡ false)
      × ((close_limiter late l).1 ≡ none)
unfolding close_limiter see_stop close_stop
close_limiter_lem late l = ground (arith, tick_all_closed late (close_stop l))

close_limiter_again :
    (late : List ℤ) (l : MemoryLimiter)
    → l.closed ≡ true
    → l.waits ≡ false
    → (close_limiter late l).0 ≡ l
unfolding close_limiter see_stop close_stop
close_limiter_again late l c w = ground (arith, tick_all_gone late (close_stop l))

first_error :
    (err ferr : Option String) → ferr ≡ none → (elim err [ none ↦ ferr | some e ↦ some e ]) ≡ err
first_error none ferr h = h
first_error (some e) ferr h = refl

module _ (primary : Backend) where
  open primary use {Store}

  pub record IsEnded (s : Service primary) : Type 0 where
    pub closed : s.closed ≡ true
    pub probing : s.probing ≡ false
    pub limiter_closed : s.limiter_closed ≡ true
    pub sweeping : s.sweeping ≡ false

  stop_probing_lem :
      (late : List (Option String)) (s : Service primary)
      → ((stop_probing primary late s).closed ≡ true)
        × ((stop_probing primary late s).probing ≡ false)
        × ((stop_probing primary late s).manager.store ≡ s.manager.store)
  unfolding stop_probing
  stop_probing_lem late s = ground (arith, probe_loop_returns late s.manager.breaker)

  stop_probing_again :
      (late : List (Option String)) (s : Service primary)
      → s.closed ≡ true
      → s.probing ≡ false
      → stop_probing primary late s ≡ s
  unfolding stop_probing
  stop_probing_again late s c p = ground arith

  close_fallback_lem :
      (late : List ℤ) (s : Service primary)
      → s.closed ≡ true
      → s.probing ≡ false
      → IsEnded (close_fallback primary late s).0
        × ((close_fallback primary late s).1 ≡ none)
        × ((close_fallback primary late s).0.manager.store ≡ s.manager.store)
  unfolding close_fallback
  close_fallback_lem late s c p =
      let (closed_, gone, nil_) = close_limiter_lem late (limiter_of primary s) in
      (record { closed = c; probing = p; limiter_closed = closed_; sweeping = gone }, nil_, refl)

  close_fallback_again :
      (late : List ℤ) (s : Service primary) → IsEnded s → close_fallback primary late s ≡ (s, none)
  unfolding close_fallback limiter_of close_limiter see_stop close_stop
  close_fallback_again late s e =
      ground (arith, tick_all_gone late (close_stop (limiter_of primary s)))

  -- What closing the primary limiter returns.
  abbrev pub primary_error : (Store → Store × Option String) → Option Store → Option String
  primary_error close none = none
  primary_error close (some r) = (close r).1

  abbrev pub closed_store : (Store → Store × Option String) → Option Store → Option Store
  closed_store close none = none
  closed_store close (some r) = some (close r).0

  close_primary_lem :
      (close : Store → Store × Option String) (s : Service primary)
      → let (s', err) = close_primary primary close s in
        (s'.closed ≡ s.closed)
        × (s'.probing ≡ s.probing)
        × (s'.manager.store ≡ closed_store close s.manager.store)
        × (err ≡ primary_error close s.manager.store)
  unfolding close_primary
  close_primary_lem close s = elim (Option-cases s.manager.store) [
    | inl e ↦ ground arith
    | inr (r, e) ↦ ground arith
  ]

  -- However many rounds the goroutines still take, Close ends them both, closes the primary limiter
  -- if there is one, and returns its error.
  pub close_service_lem :
      (close : Store → Store × Option String) (late_pings : List (Option String))
      (late_ticks : List ℤ) (s : Service primary)
      → let (s', err) = close_service primary close late_pings late_ticks s in
        IsEnded s'
        × (s'.manager.store ≡ closed_store close s.manager.store)
        × (err ≡ primary_error close s.manager.store)
  unfolding close_service
  close_service_lem close late_pings late_ticks s =
      let stopped_ = stop_probing primary late_pings s in
      let (c, p, st) = stop_probing_lem late_pings s in
      let (c', p', st', err) = close_primary_lem close stopped_ in
      let closed_ = (close_primary primary close stopped_).0 in
      let (ended, nil_, st'') = close_fallback_lem late_ticks closed_ (c' ∙ c) (p' ∙ p) in
      (
        ended,
        st'' ∙ st' ∙ ap (closed_store close) st,
        first_error (close_primary primary close stopped_).1 _ nil_
            ∙ err
            ∙ ap (primary_error close) st,
      )

  close_primary-IsEnded :
      (close : Store → Store × Option String) (s : Service primary)
      → IsEnded s
      → IsEnded (close_primary primary close s).0
  unfolding close_primary
  close_primary-IsEnded close s e = elim (Option-cases s.manager.store) [
    | inl h ↦ ground arith
    | inr (r, h) ↦ ground arith
  ]

  -- The end of Close, once the primary limiter is closed.
  abbrev finish : List ℤ → Service primary × Option String → Service primary × Option String
  finish late_ticks r =
      let (s'', ferr) = close_fallback primary late_ticks r.0 in
      (s'', elim r.1 [ none ↦ ferr | some e ↦ some e ])

  finish_again :
      (late_ticks : List ℤ) (r : Service primary × Option String)
      → IsEnded r.0
      → finish late_ticks r ≡ r
  finish_again late_ticks (s, none) e = rw (close_fallback_again late_ticks s e) refl
  finish_again late_ticks (s, some err) e = rw (close_fallback_again late_ticks s e) refl

  -- After that a second Close changes nothing but what closing the primary limiter again does.
  pub close_service_again :
      (close : Store → Store × Option String) (late_pings : List (Option String))
      (late_ticks : List ℤ) (s : Service primary)
      → IsEnded s
      → close_service primary close late_pings late_ticks s ≡ close_primary primary close s
  unfolding close_service
  close_service_again close late_pings late_ticks s e =
      ap (λ x. finish late_ticks (close_primary primary close x))
        (stop_probing_again late_pings s e.closed e.probing)
      ∙ finish_again late_ticks (close_primary primary close s) (close_primary-IsEnded close s e)

  close_primary_quiet :
      (close : Store → Store × Option String) (r : Store) (s : Service primary)
      → s.manager.store ≡ some r
      → close r ≡ (r, none)
      → close_primary primary close s ≡ (s, none)
  unfolding close_primary
  close_primary_quiet close r s has quiet = ground arith

  -- Closing twice, with a primary limiter that is left as it is by closing it.
  pub close_quietly :
      (close : Store → Store × Option String) (late_pings more_pings : List (Option String))
      (late_ticks more_ticks : List ℤ) (r : Store) (s : Service primary)
      → s.manager.store ≡ some r
      → close r ≡ (r, none)
      → let (s', err) = close_service primary close late_pings late_ticks s in
        IsEnded s'
        × (err ≡ none)
        × (s'.manager.store ≡ some r)
        × (close_service primary close more_pings more_ticks s' ≡ (s', none))
  unfolding close_primary
  close_quietly close late_pings more_pings late_ticks more_ticks r s has quiet =
      let (ended, store_, err_) = close_service_lem close late_pings late_ticks s in
      let s' = (close_service primary close late_pings late_ticks s).0 in
      let kept : s'.manager.store ≡ some r =
        store_ ∙ ap (closed_store close) has ∙ ap (λ x. some x.0) quiet in
      (
        ended,
        err_ ∙ ap (primary_error close) has ∙ ap (λ x. x.1) quiet,
        kept,
        close_service_again close more_pings more_ticks s' ended
            ∙ close_primary_quiet close r s' kept quiet,
      )
