-- ===== src/Metrics/Hub/Closing.antt =====
-- `Close` of internal/metrics/hub.go.
use rate_limiting_reverse_pr.Prelude.{
  ℕ, ◌≡◌, refl, true, false, some, List, [], ◌∷◌, arith, if◌then◌else◌, Bool-cases, inl, inr,
}
use rate_limiting_reverse_pr.Metrics.Hub.{
  member, remove, Hub, put, close_channel, close_each, close_hub,
}
use rate_limiting_reverse_pr.Metrics.Hub.Lifecycle.{IsSound, IsDistinct, shut, remove_absent}

module _ {Frame : Type 0} where
  pub record IsClosedBy (as_ : List ℕ) (h h' : Hub Frame) : Type 0 where
    pub heap_ : (a : ℕ) → h'.heap a ≡ (if member a as_ then shut (h.heap a) else h.heap a)
    pub subs : h'.subs ≡ []
    pub closed : h'.closed ≡ h.closed
    pub next : h'.next ≡ h.next

  -- The hub after one round of the loop.
  one_closed : ℕ → List ℕ → Hub Frame → Hub Frame
  one_closed a rest h = put Frame a (shut (h.heap a)) (record h { subs = rest })

  close_one :
      (a : ℕ) (rest : List ℕ) (h : Hub Frame)
      → h.subs ≡ a ∷ rest
      → member a rest ≡ false
      → (h.heap a).closed ≡ false
      → close_channel Frame a (record h { subs = remove a h.subs }) ≡ some (one_closed a rest h)
  unfolding one_closed close_channel put
  close_one a rest h e d o = rw e (ground (arith, remove_absent a rest))

  IsClosedBy-step :
      (a : ℕ) (rest : List ℕ) (h h' : Hub Frame)
      → member a rest ≡ false
      → IsClosedBy rest (one_closed a rest h) h'
      → IsClosedBy (a ∷ rest) h h'
  unfolding one_closed put
  IsClosedBy-step a rest h h' d t = record {
    heap_ = λ b. ground (arith, t.heap_ b);
    subs = t.subs;
    closed = t.closed;
    next = t.next;
  }

  still_open :
      (a : ℕ) (rest : List ℕ) (h : Hub Frame)
      → ((b : ℕ) → member b (a ∷ rest) ≡ true → (h.heap b).closed ≡ false)
      → member a rest ≡ false
      → (b : ℕ) → member b rest ≡ true
      → ((one_closed a rest h).heap b).closed ≡ false
  unfolding one_closed put
  still_open a rest h o d b m = ground (arith, o b)

  pub close_each-IsClosedBy :
      (as_ : List ℕ) (h : Hub Frame)
      → h.subs ≡ as_
      → IsDistinct as_
      → ((a : ℕ) → member a as_ ≡ true → (h.heap a).closed ≡ false)
      → (h' : Hub Frame) × (close_each Frame as_ h ≡ some h') × IsClosedBy as_ h h'
  unfolding close_each
  close_each-IsClosedBy [] h e d o =
      (h, refl, record { heap_ = λ a. refl; subs = e; closed = refl; next = refl })
  close_each-IsClosedBy (a ∷ rest) h e d o =
      let (h', run, t) =
        close_each-IsClosedBy rest (one_closed a rest h) (unfold one_closed put in refl) d.1
          (still_open a rest h o d.0) in
      (
        h',
        rw (close_one a rest h e d.0 (o a (ground arith))) run,
        IsClosedBy-step a rest h h' d.0 t,
      )

  closed-IsSound :
      (h h' : Hub Frame)
      → IsSound h
      → IsClosedBy h.subs (record h { closed = true }) h'
      → IsSound h'
  closed-IsSound h h' s t = record {
    registered = λ a m. absurd (clash a m);
    left = λ a m lt. ground (arith, t.heap_ a, s.left a, t.next);
    bounded = λ a. ground (arith, t.heap_ a, s.bounded a);
    distinct = rw t.subs tt;
    ended = λ e. t.subs;
  }
    where
      clash : (a : ℕ) → member a h'.subs ≡ true → ⊥
      clash a m = ground (arith, t.subs)

  -- Closing a sound hub never panics, also a second time, when it changes nothing. The hub is sound
  -- again and has no subscribers, so every channel that was ever handed out is closed, and the
  -- queued frames stay readable.
  pub close_hub_lem :
      (h : Hub Frame)
      → IsSound h
      → (h' : Hub Frame) × (close_hub Frame h ≡ some h')
        × IsSound h'
        × (h'.subs ≡ [])
        × ((a : ℕ) → (h'.heap a).queue ≡ (h.heap a).queue)
        × (close_hub Frame h' ≡ some h')
  unfolding close_hub
  close_hub_lem h s = elim (Bool-cases h.closed) [
    | inl ended ↦ (h, ground arith, s, s.ended ended, (λ a. refl), ground arith)
    | inr running ↦
        let (h', e, t) =
          close_each-IsClosedBy h.subs (record h { closed = true }) refl s.distinct
            (λ a m. (s.registered a m).1) in
        (
          h',
          ground arith,
          closed-IsSound h h' s t,
          t.subs,
          (λ a. ground (arith, t.heap_ a)),
          ground (arith, t.closed),
        )
  ]
