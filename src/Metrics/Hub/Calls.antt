-- ===== src/Metrics/Hub/Calls.antt =====
-- The calls that the goroutines of the program make on one hub of internal/metrics/hub.go, in any
-- order.
use rate_limiting_reverse_pr.Prelude.{
  ℕ, ◌≤◌, ◌<◌, ◌≡◌, sym, subst, ap, ◌∙◌, refl, Bool-cases, inl, inr, true, false, Option, none,
  some, arith,
}
use rate_limiting_reverse_pr.Metrics.Hub.{
  ◌>>=◌, member, Hub, put, close_channel, subscribe, unsubscribe, broadcast, close_hub,
}
use rate_limiting_reverse_pr.Metrics.Hub.Lifecycle.{
  IsSound, member-remove, subscribe-IsSound, unsubscribe-IsSound,
}
use rate_limiting_reverse_pr.Metrics.Hub.Delivery.{broadcast_offers, IsSent, send_all-IsSent}
use rate_limiting_reverse_pr.Metrics.Hub.Closing.{close_hub_lem, IsClosedBy, close_each-IsClosedBy}

pub data Call (Frame : Type 0) : Type 0 where
  subscribes : Call Frame
  unsubscribes : Option ℕ → Call Frame
  broadcasts : Frame → Call Frame
  closes : Call Frame

module _ {Frame : Type 0} where
  unfoldable pub run_call : Call Frame → Hub Frame → Option (Hub Frame)
  unfolding subscribe unsubscribe broadcast close_hub
  run_call subscribes h = do r ← subscribe Frame h; some r.0
  run_call (unsubscribes o) h = unsubscribe Frame o h
  run_call (broadcasts frame) h = broadcast Frame frame h
  run_call closes h = close_hub Frame h

  -- A call on a sound hub never panics and leaves it sound.
  pub run_call-IsSound :
      (c : Call Frame) (h : Hub Frame)
      → IsSound h
      → (h' : Hub Frame) × (run_call c h ≡ some h') × IsSound h'
  unfolding run_call
  run_call-IsSound subscribes h s =
      let (h', e, s', _) = subscribe-IsSound h s in (h', rw (e, run_call) refl, s')
  run_call-IsSound (unsubscribes o) h s =
      let (h', e, s', _) = unsubscribe-IsSound o h s in (h', e, s')
  run_call-IsSound (broadcasts frame) h s =
      let (h', e, s', _) = broadcast_offers frame h s in (h', e, s')
  run_call-IsSound closes h s = let (h', e, s', _, _, _) = close_hub_lem h s in (h', e, s')

  -- A subscriber that has left the hub.
  pub record HasLeft (a : ℕ) (h : Hub Frame) : Type 0 where
    pub known : a < h.next
    pub absent : member a h.subs ≡ false

  abbrev hub_or : Hub Frame → Option (Hub Frame) → Hub Frame
  hub_or h none = h
  hub_or h (some h') = h'

  broadcast-IsSent :
      (frame : Frame) (h h' : Hub Frame)
      → IsSound h
      → broadcast Frame frame h ≡ some h'
      → IsSent frame h.subs h h'
  unfolding broadcast
  broadcast-IsSent frame h h' s e =
      let (h″, e″, t) = send_all-IsSent frame h.subs h s.distinct (λ b m. (s.registered b m).1) in
      subst (IsSent frame h.subs h) (ap (hub_or h) (sym e″ ∙ e)) t

  close_hub-IsClosedBy :
      (h h' : Hub Frame)
      → IsSound h
      → h.closed ≡ false
      → close_hub Frame h ≡ some h'
      → IsClosedBy h.subs (record h { closed = true }) h'
  unfolding close_hub
  close_hub-IsClosedBy h h' s running e =
      let (h″, e″, t) =
        close_each-IsClosedBy h.subs (record h { closed = true }) refl s.distinct
          (λ b m. (s.registered b m).1) in
      subst (IsClosedBy h.subs (record h { closed = true }))
        (ap (hub_or h) (sym e″ ∙ rw (running, close_hub) at e)) t

  -- What a call means to a subscriber that has left: its channel stays as it is.
  pub record IsSpared (a : ℕ) (h h' : Hub Frame) : Type 0 where
    pub left : HasLeft a h'
    pub same : h'.heap a ≡ h.heap a

  subscribe-IsSpared :
      (a : ℕ) (h h' : Hub Frame)
      → HasLeft a h
      → subscribe Frame h ≡ some (h', h.next)
      → IsSpared a h h'
  unfolding subscribe close_channel put
  subscribe-IsSpared a h h' l e = elim (Bool-cases h.closed) [
    | inl ended ↦ record {
      left = record { known = ground (arith, l.known); absent = ground (arith, l.absent) };
      same = ground (arith, l.known);
    }
    | inr running ↦ record {
      left = record { known = ground (arith, l.known); absent = ground (arith, l.absent, l.known) };
      same = ground (arith, l.known);
    }
  ]

  unsubscribe-IsSpared :
      (a : ℕ) (o : Option ℕ) (h h' : Hub Frame)
      → HasLeft a h
      → unsubscribe Frame o h ≡ some h'
      → IsSpared a h h'
  unfolding unsubscribe close_channel put
  unsubscribe-IsSpared a none h h' l e = record {
    left = record { known = ground (arith, l.known); absent = ground (arith, l.absent) };
    same = ground arith;
  }
  unsubscribe-IsSpared a (some b) h h' l e = record {
    left = record {
      known = ground (arith, l.known);
      absent = ground (arith, l.absent, member-remove a b h.subs);
    };
    same = ground (arith, l.absent);
  }

  broadcast-IsSpared :
      (a : ℕ) (frame : Frame) (h h' : Hub Frame)
      → IsSound h
      → HasLeft a h
      → broadcast Frame frame h ≡ some h'
      → IsSpared a h h'
  unfolding broadcast
  broadcast-IsSpared a frame h h' s l e =
      let t = broadcast-IsSent frame h h' s e in
      record {
        left = record {
          known = ground (arith, l.known, t.next);
          absent = ground (arith, l.absent, t.subs);
        };
        same = ground (arith, l.absent, t.offers a);
      }

  close_hub-IsSpared :
      (a : ℕ) (h h' : Hub Frame)
      → IsSound h
      → HasLeft a h
      → close_hub Frame h ≡ some h'
      → IsSpared a h h'
  unfolding close_hub
  close_hub-IsSpared a h h' s l e = elim (Bool-cases h.closed) [
    | inl ended ↦ record {
      left = record { known = ground (arith, l.known); absent = ground (arith, l.absent) };
      same = ground arith;
    }
    | inr running ↦
        let t = close_hub-IsClosedBy h h' s running e in
        record {
          left = record {
            known = ground (arith, l.known, t.next);
            absent = ground (arith, l.absent, t.subs);
          };
          same = ground (arith, l.absent, t.heap_ a);
        }
  ]

  -- No call on a sound hub touches a subscriber that has left it.
  pub run_call-IsSpared :
      (a : ℕ) (c : Call Frame) (h h' : Hub Frame)
      → IsSound h
      → HasLeft a h
      → run_call c h ≡ some h'
      → IsSpared a h h'
  unfolding run_call
  run_call-IsSpared a subscribes h h' s l e =
      let (h″, e″, _, _) = subscribe-IsSound h s in
      subscribe-IsSpared a h h' l (ground (arith, e, e″))
  run_call-IsSpared a (unsubscribes o) h h' s l e = unsubscribe-IsSpared a o h h' l e
  run_call-IsSpared a (broadcasts frame) h h' s l e = broadcast-IsSpared a frame h h' s l e
  run_call-IsSpared a closes h h' s l e = close_hub-IsSpared a h h' s l e

  -- A call never takes a number of a subscriber back.
  pub run_call-next :
      (c : Call Frame) (h h' : Hub Frame) → IsSound h → run_call c h ≡ some h' → h.next ≤ h'.next
  unfolding run_call subscribe unsubscribe close_channel close_hub broadcast put
  run_call-next subscribes h h' s e = ground arith
  run_call-next (unsubscribes none) h h' s e = ground arith
  run_call-next (unsubscribes (some b)) h h' s e = ground arith
  run_call-next (broadcasts frame) h h' s e =
      let t = broadcast-IsSent frame h h' s e in ground (arith, t.next)
  run_call-next closes h h' s e = elim (Bool-cases h.closed) [
    | inl ended ↦ ground arith
    | inr running ↦ let t = close_hub-IsClosedBy h h' s running e in ground (arith, t.next)
  ]

  pub close_hub-closed :
      (h h' : Hub Frame) → IsSound h → close_hub Frame h ≡ some h' → h'.closed ≡ true
  unfolding close_hub
  close_hub-closed h h' s e = elim (Bool-cases h.closed) [
    | inl ended ↦ ground arith
    | inr running ↦ let t = close_hub-IsClosedBy h h' s running e in ground (arith, t.closed)
  ]

  -- A closed hub stays closed.
  pub run_call-closed :
      (c : Call Frame) (h h' : Hub Frame)
      → IsSound h
      → run_call c h ≡ some h'
      → h.closed ≡ true
      → h'.closed ≡ true
  unfolding run_call subscribe unsubscribe close_channel broadcast put
  run_call-closed subscribes h h' s e k = ground arith
  run_call-closed (unsubscribes none) h h' s e k = ground arith
  run_call-closed (unsubscribes (some b)) h h' s e k = ground arith
  run_call-closed (broadcasts frame) h h' s e k =
      let t = broadcast-IsSent frame h h' s e in ground (arith, t.closed)
  run_call-closed closes h h' s e k = close_hub-closed h h' s e
