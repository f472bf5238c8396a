-- ===== src/Metrics/Hub/Stream.antt =====
-- What one client of internal/metrics/hub.go receives over any interleaving of the broadcasts with
-- its own reads.
use mathlib.Core.List.{append_assoc, append-nil}
use rate_limiting_reverse_pr.Prelude.{
  ℕ, ◌+◌, ◌≤◌, ◌<◌, ◌^◌, ◌≡◌, refl, ap, none, some, List, [], ◌∷◌, ◌++◌, arith, length,
  length-append, Bool-cases, ltb, inl, inr, subst,
}
use rate_limiting_reverse_pr.Metrics.Hub.{Subscriber, empty_subscriber, offer, take_frame}

-- The frames of the first list are among those of the second, in the same order.
pub data IsWithin {ℓ} {A : Type ℓ} : List A → List A → Type ℓ where
  none_left : IsWithin [] []
  keeps : {x : A} {xs ys : List A} → IsWithin xs ys → IsWithin (x ∷ xs) (x ∷ ys)
  skips : {y : A} {xs ys : List A} → IsWithin xs ys → IsWithin xs (y ∷ ys)

-- A broadcast, or a read by the client.
pub data Move (Frame : Type 0) : Type 0 where
  sends : Frame → Move Frame
  reads : Move Frame

pub record Client (Frame : Type 0) : Type 0 where
  pub sub : Subscriber Frame
  pub received : List Frame

module _ {Frame : Type 0} where
  keeps_last :
      {xs ys : List Frame} (x : Frame) → IsWithin xs ys → IsWithin (xs ++ x ∷ []) (ys ++ x ∷ [])
  keeps_last x none_left = keeps none_left
  keeps_last x (keeps w) = keeps (keeps_last x w)
  keeps_last x (skips w) = skips (keeps_last x w)

  skips_last : {xs ys : List Frame} (y : Frame) → IsWithin xs ys → IsWithin xs (ys ++ y ∷ [])
  skips_last y none_left = skips none_left
  skips_last y (keeps w) = keeps (skips_last y w)
  skips_last y (skips w) = skips (skips_last y w)

  unfoldable pub move : Move Frame → Client Frame → Client Frame
  move (sends frame) c = record c { sub = offer Frame frame c.sub }
  move reads c = elim (take_frame Frame c.sub) [
    | none ↦ c
    | some (frame, s) ↦ record { sub = s; received = c.received ++ frame ∷ [] }
  ]

  unfoldable pub move_all : List (Move Frame) → Client Frame → Client Frame
  move_all [] c = c
  move_all (m ∷ ms) c = move_all ms (move m c)

  -- The frames that were broadcast.
  abbrev pub sent : List (Move Frame) → List Frame
  sent [] = []
  sent (sends frame ∷ ms) = frame ∷ sent ms
  sent (reads ∷ ms) = sent ms

  record Accounts (done : List Frame) (c : Client Frame) : Type 0 where
    within : IsWithin (c.received ++ c.sub.queue) done
    total : length c.received + length c.sub.queue + c.sub.dropped ≡ length done
    bounded : length c.sub.queue ≤ c.sub.room

  sends-Accounts :
      (done : List Frame) (frame : Frame) (c : Client Frame)
      → length done < 2 ^ 63
      → Accounts done c
      → Accounts (done ++ frame ∷ []) (move (sends frame) c)
  unfolding move offer
  sends-Accounts done frame c small a = elim (Bool-cases (ltb (length c.sub.queue) c.sub.room)) [
    | inl room ↦ rw room (record {
      within = rw (← append_assoc) (keeps_last frame a.within);
      total =
          omega (
            arith,
            a.total,
            length-append c.sub.queue (frame ∷ []),
            length-append done (frame ∷ []),
          );
      bounded = ground (arith, a.bounded, length-append c.sub.queue (frame ∷ []));
    })
    | inr full ↦ rw full (record {
      within = skips_last frame a.within;
      total = omega (arith, a.total, length-append done (frame ∷ []));
      bounded = a.bounded;
    })
  ]

  nothing_waits : (c : Client Frame) → c.sub.queue ≡ [] → move reads c ≡ c
  unfolding move take_frame
  nothing_waits c e = ground arith

  one_waits :
      (frame : Frame) (queue : List Frame) (c : Client Frame)
      → c.sub.queue ≡ frame ∷ queue
      → move reads c
        ≡ record { sub = record (c.sub) { queue = queue }; received = c.received ++ frame ∷ [] }
  unfolding move take_frame
  one_waits frame queue c e = ground arith

  reads-Accounts :
      (done queue : List Frame) (c : Client Frame)
      → c.sub.queue ≡ queue
      → Accounts done c
      → Accounts done (move reads c)
  reads-Accounts done [] c e a = rw (nothing_waits c e) a
  reads-Accounts done (frame ∷ queue) c e a = rw (one_waits frame queue c e) (record {
    within =
        rw (append_assoc c.received (frame ∷ []) queue)
          (subst (λ q. IsWithin (c.received ++ q) done) e a.within);
    total = omega (arith, a.total, length-append c.received (frame ∷ []), ap length e);
    bounded = omega (arith, a.bounded, ap length e);
  })

  move_all-Accounts :
      (done : List Frame) (ms : List (Move Frame)) (c : Client Frame)
      → length done + length (sent ms) < 2 ^ 63
      → Accounts done c
      → Accounts (done ++ sent ms) (move_all ms c)
  unfolding move_all
  move_all-Accounts done [] c small a = rw (append-nil done) a
  move_all-Accounts done (sends frame ∷ ms) c small a =
      subst (λ xs. Accounts xs (move_all ms (move (sends frame) c)))
        (append_assoc done (frame ∷ []) (sent ms))
        (move_all-Accounts (done ++ frame ∷ []) ms (move (sends frame) c)
          (omega (arith, length-append done (frame ∷ [])))
          (sends-Accounts done frame c (omega arith) a))
  move_all-Accounts done (reads ∷ ms) c small a =
      move_all-Accounts done ms (move reads c) small (reads-Accounts done c.sub.queue c refl a)

  abbrev pub new_client : ℕ → Client Frame
  new_client room = record { sub = empty_subscriber Frame room; received = [] }

  -- Over every interleaving of fewer than 2 ^ 63 broadcasts with the client's reads: what the client
  -- has received and what still waits is a part of what was broadcast, in the same order, the
  -- frames that are missing are exactly as many as `dropped` counts, and no more frames wait than
  -- the channel holds.
  pub stream_accounts :
      (room : ℕ) (ms : List (Move Frame))
      → length (sent ms) < 2 ^ 63
      → let c = move_all ms (new_client room) in
        IsWithin (c.received ++ c.sub.queue) (sent ms)
        × (length c.received + length c.sub.queue + c.sub.dropped ≡ length (sent ms))
        × (length c.sub.queue ≤ c.sub.room)
  stream_accounts room ms small =
      let a =
        move_all-Accounts [] ms (new_client room) (omega arith)
          (record { within = none_left; total = omega arith; bounded = omega arith }) in
      (a.within, a.total, a.bounded)
