-- ===== src/Metrics/Hub/Delivery.antt =====
-- `Broadcast` and `Close` of internal/metrics/hub.go: every subscriber gets its offer, and what a
-- client receives is what was broadcast, in order, less the frames that are counted as dropped.
use rate_limiting_reverse_pr.Prelude.{
  ℕ, ◌≤◌, ◌≡◌, refl, sym, ◌∙◌, true, false, some, List, [], ◌∷◌, arith, if◌then◌else◌, length,
  length-append,
}
use rate_limiting_reverse_pr.Metrics.Hub.{
  member, Subscriber, Hub, put, offer, send, send_all, broadcast,
}
use rate_limiting_reverse_pr.Metrics.Hub.Lifecycle.{IsSound, IsDistinct}

module _ {Frame : Type 0} where
  abbrev AreOpen : List ℕ → Hub Frame → Type 0
  AreOpen as_ h = (a : ℕ) → member a as_ ≡ true → (h.heap a).closed ≡ false

  pub record IsSent (frame : Frame) (as_ : List ℕ) (h h' : Hub Frame) : Type 0 where
    pub offers :
        (a : ℕ) → h'.heap a ≡ (if member a as_ then offer Frame frame (h.heap a) else h.heap a)
    pub subs : h'.subs ≡ h.subs
    pub closed : h'.closed ≡ h.closed
    pub next : h'.next ≡ h.next

  offer_open : (frame : Frame) (s : Subscriber Frame) → (offer Frame frame s).closed ≡ s.closed
  unfolding offer
  offer_open frame s = ground arith

  offer_bounded :
      (frame : Frame) (s : Subscriber Frame)
      → length s.queue ≤ s.room
      → length (offer Frame frame s).queue ≤ (offer Frame frame s).room
  unfolding offer
  offer_bounded frame s h = ground (arith, length-append s.queue (frame ∷ []))

  send_lem :
      (frame : Frame) (a : ℕ) (h : Hub Frame)
      → (h.heap a).closed ≡ false
      → send Frame frame a h ≡ some (put Frame a (offer Frame frame (h.heap a)) h)
  unfolding send
  send_lem frame a h o = ground arith

  AreOpen-step :
      (frame : Frame) (a : ℕ) (rest : List ℕ) (h : Hub Frame)
      → AreOpen (a ∷ rest) h
      → AreOpen rest (put Frame a (offer Frame frame (h.heap a)) h)
  unfolding put
  AreOpen-step frame a rest h o b m = ground (arith, o a, o b, offer_open frame (h.heap a))

  IsSent-step :
      (frame : Frame) (a : ℕ) (rest : List ℕ) (h h' : Hub Frame)
      → member a rest ≡ false
      → IsSent frame rest (put Frame a (offer Frame frame (h.heap a)) h) h'
      → IsSent frame (a ∷ rest) h h'
  unfolding put
  IsSent-step frame a rest h h' d t = record {
    offers = λ b. ground (arith, t.offers b);
    subs = t.subs;
    closed = t.closed;
    next = t.next;
  }

  pub send_all-IsSent :
      (frame : Frame) (as_ : List ℕ) (h : Hub Frame)
      → IsDistinct as_
      → AreOpen as_ h
      → (h' : Hub Frame) × (send_all Frame frame as_ h ≡ some h') × IsSent frame as_ h h'
  unfolding send_all
  send_all-IsSent frame [] h d o =
      (h, refl, record { offers = λ a. refl; subs = refl; closed = refl; next = refl })
  send_all-IsSent frame (a ∷ rest) h d o =
      let h₁ = put Frame a (offer Frame frame (h.heap a)) h in
      let (h', e, t) = send_all-IsSent frame rest h₁ d.1 (AreOpen-step frame a rest h o) in
      (h', rw (send_lem frame a h (o a (ground arith))) e, IsSent-step frame a rest h h' d.0 t)

  IsSent-IsSound :
      (frame : Frame) (h h' : Hub Frame) → IsSound h → IsSent frame h.subs h h' → IsSound h'
  IsSent-IsSound frame h h' s t = record {
    registered = λ a m. ground (arith, t, s.registered a, t.offers a, offer_open frame (h.heap a));
    left = λ a m lt. ground (arith, t, s.left a, t.offers a);
    bounded = λ a. ground (arith, t.offers a, s.bounded a, offer_bounded frame (h.heap a));
    distinct = rw t.subs s.distinct;
    ended = λ e. rw t.subs (s.ended (sym t.closed ∙ e));
  }

  -- A broadcast to a sound hub never panics, offers the frame exactly once to every registered
  -- subscriber, touches no other, and leaves the hub sound.
  pub broadcast_offers :
      (frame : Frame) (h : Hub Frame)
      → IsSound h
      → (h' : Hub Frame) × (broadcast Frame frame h ≡ some h')
        × IsSound h'
        × ((a : ℕ)
            → h'.heap a ≡ (if member a h.subs then offer Frame frame (h.heap a) else h.heap a))
  unfolding broadcast
  broadcast_offers frame h s =
      let (h', e, t) = send_all-IsSent frame h.subs h s.distinct (λ a m. (s.registered a m).1) in
      (h', e, IsSent-IsSound frame h h' s t, t.offers)
