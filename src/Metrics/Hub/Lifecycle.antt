-- ===== src/Metrics/Hub/Lifecycle.antt =====
-- The life of the subscribers of internal/metrics/hub.go: channels are closed once, and never sent
-- to afterwards.
use rate_limiting_reverse_pr.Prelude.{
  ℕ, ◌+◌, ◌≤◌, ◌<◌, ◌≡◌, refl, true, false, Option, none, some, List, [], ◌∷◌, ◌==◌, arith,
  if◌then◌else◌, length, Bool-cases, ◌⊎◌, inl, inr,
}
use rate_limiting_reverse_pr.Metrics.Hub.{
  member, remove, Subscriber, Hub, empty_subscriber, put, close_channel, subscribe, unsubscribe,
}

abbrev pub IsDistinct : List ℕ → Type 0
IsDistinct [] = Unit {0}
IsDistinct (a ∷ as_) = (member a as_ ≡ false) × IsDistinct as_

pub member-remove :
    (a b : ℕ) (xs : List ℕ) → member a (remove b xs) ≡ (if b == a then false else member a xs)
member-remove a b [] = ground arith
member-remove a b (x ∷ xs) = ground (arith, member-remove a b xs)

pub remove-IsDistinct : (b : ℕ) (xs : List ℕ) → IsDistinct xs → IsDistinct (remove b xs)
remove-IsDistinct b [] d = tt
remove-IsDistinct b (x ∷ xs) d = ground (arith, member-remove x b xs, remove-IsDistinct b xs d.1)

pub remove_absent : (b : ℕ) (xs : List ℕ) → member b xs ≡ false → remove b xs ≡ xs
remove_absent b [] h = refl
remove_absent b (x ∷ xs) h = ground (arith, remove_absent b xs)

module _ {Frame : Type 0} where
  -- A registered subscriber's channel is open, one that has left the hub is closed, no queue is
  -- longer than its channel's capacity, and a closed hub has no subscribers.
  pub record IsSound (h : Hub Frame) : Type 0 where
    pub registered : (a : ℕ) → member a h.subs ≡ true → (a < h.next) × ((h.heap a).closed ≡ false)
    pub left : (a : ℕ) → member a h.subs ≡ false → a < h.next → (h.heap a).closed ≡ true
    pub bounded : (a : ℕ) → length (h.heap a).queue ≤ (h.heap a).room
    pub distinct : IsDistinct h.subs
    pub ended : h.closed ≡ true → h.subs ≡ []

  -- Closing the channel of an open subscriber.
  abbrev pub shut : Subscriber Frame → Subscriber Frame
  shut s = record s { closed = true }

  pub close_channel_lem :
      (a : ℕ) (h : Hub Frame)
      → (h.heap a).closed ≡ false
      → close_channel Frame a h ≡ some (put Frame a (shut (h.heap a)) h)
  unfolding close_channel
  close_channel_lem a h open_ = rw (open_, close_channel)

  -- The hub with one more subscriber allocated, and registered or not.
  abbrev allocated : Hub Frame → Hub Frame
  allocated h = record (put Frame h.next (empty_subscriber Frame h.buffer) h) { next = h.next + 1 }

  turned_away : Hub Frame → Hub Frame
  turned_away h = put Frame h.next (shut ((allocated h).heap h.next)) (allocated h)

  turned_away-IsSound : (h : Hub Frame) → h.closed ≡ true → IsSound h → IsSound (turned_away h)
  unfolding turned_away put
  turned_away-IsSound h ended s = record {
    registered = λ a m. ground (arith, s.registered a);
    left = λ a m lt. ground (arith, s.left a);
    bounded = λ a. ground (arith, s.bounded a);
    distinct = s.distinct;
    ended = s.ended;
  }

  enrolled-IsSound :
      (h : Hub Frame)
      → h.closed ≡ false
      → IsSound h
      → IsSound (record (allocated h) { subs = h.next ∷ h.subs })
  unfolding put
  enrolled-IsSound h running s = record {
    registered = λ a m. ground (arith, s.registered a);
    left = λ a m lt. ground (arith, s.left a);
    bounded = λ a. ground (arith, s.bounded a);
    distinct = (fresh (Bool-cases (member h.next h.subs)), s.distinct);
    ended = λ e. cc;
  }
    where
      fresh :
          (member h.next h.subs ≡ true) ⊎ (member h.next h.subs ≡ false)
          → member h.next h.subs ≡ false
      fresh (inl m) = absurd (omega (arith, (s.registered h.next m).0))
      fresh (inr m) = m

  -- Subscribing to a sound hub never panics and leaves it sound. The new client's channel is open
  -- exactly if the hub is.
  pub subscribe-IsSound :
      (h : Hub Frame)
      → IsSound h
      → (h' : Hub Frame) × (subscribe Frame h ≡ some (h', h.next))
        × IsSound h'
        × ((h'.heap h.next).closed ≡ h.closed)
  unfolding subscribe turned_away put
  subscribe-IsSound h s = elim (Bool-cases h.closed) [
    | inl ended ↦ (turned_away h, ground arith, turned_away-IsSound h ended s, ground arith)
    | inr running ↦ (
      record (allocated h) { subs = h.next ∷ h.subs },
      ground arith,
      enrolled-IsSound h running s,
      ground arith,
    )
  ]

  departed-IsSound :
      (a : ℕ) (h : Hub Frame)
      → member a h.subs ≡ true
      → IsSound h
      → IsSound (put Frame a (shut (h.heap a)) (record h { subs = remove a h.subs }))
  unfolding put
  departed-IsSound a h m s = record {
    registered = λ b n. ground (arith, s.registered b, member-remove b a h.subs);
    left = λ b n lt. ground (arith, s.left b, member-remove b a h.subs);
    bounded = λ b. ground (arith, s.bounded a, s.bounded b);
    distinct = remove-IsDistinct a h.subs s.distinct;
    ended = λ e. rw (s.ended e);
  }

  -- Unsubscribing any subscriber, also nil, one that has left and one of a closed hub, never panics
  -- and leaves a sound hub sound; doing it a second time changes nothing.
  pub unsubscribe-IsSound :
      (o : Option ℕ) (h : Hub Frame)
      → IsSound h
      → (h' : Hub Frame) × (unsubscribe Frame o h ≡ some h')
        × IsSound h'
        × (unsubscribe Frame o h' ≡ some h')
  unfolding unsubscribe put
  unsubscribe-IsSound none h s = (h, refl, s, refl)
  unsubscribe-IsSound (some a) h s = elim (Bool-cases (member a h.subs)) [
    | inl in_ ↦ (
      put Frame a (shut (h.heap a)) (record h { subs = remove a h.subs }),
      ground (arith, close_channel_lem a (record h { subs = remove a h.subs }), s.registered a in_),
      departed-IsSound a h in_ s,
      ground (arith, member-remove a a h.subs),
    )
    | inr out ↦ (h, ground arith, s, ground arith)
  ]
