-- ===== src/Metrics/Hub/Tests.antt =====
-- Concrete runs of the hub, with numbers for frames.
use rate_limiting_reverse_pr.Prelude.{
  ℕ, ◌+◌, ◌≤◌, ◌≡◌, refl, true, false, some, List, [], ◌∷◌, ◌++◌, arith, if◌then◌else◌, length,
}
use rate_limiting_reverse_pr.Metrics.Hub.{Hub, member, offer, broadcast, take_frame, close_hub}
use rate_limiting_reverse_pr.Metrics.Hub.Lifecycle.{IsSound}
use rate_limiting_reverse_pr.Metrics.Hub.Delivery.{broadcast_offers}
use rate_limiting_reverse_pr.Metrics.Hub.Closing.{close_hub_lem}
use rate_limiting_reverse_pr.Metrics.Hub.Stream.{
  Move, sends, reads, sent, move, move_all, new_client, IsWithin, stream_accounts,
}

-- Subscriber 0 has left; subscriber 1 is connected and has one frame waiting.
abbrev two_seen : Hub ℕ
two_seen = record {
  subs = 1 ∷ [];
  closed = false;
  buffer = 2;
  heap = λ a. record {
    queue = if member a (1 ∷ []) then 7 ∷ [] else [];
    room = 2;
    closed = if member a (1 ∷ []) then false else true;
    dropped = 0;
  };
  next = 2;
}

two_seen-IsSound : IsSound two_seen
two_seen-IsSound = record {
  registered = λ a m. ground arith;
  left = λ a m lt. ground arith;
  bounded = λ a. ground arith;
  distinct = (refl, tt);
  ended = λ e. cc;
}

broadcast_offers_example :
    (h' : Hub ℕ) × (broadcast ℕ 9 two_seen ≡ some h')
    × IsSound h'
    × ((a : ℕ)
        → h'.heap a
          ≡ (if member a two_seen.subs then offer ℕ 9 (two_seen.heap a) else two_seen.heap a))
broadcast_offers_example = broadcast_offers 9 two_seen two_seen-IsSound

close_hub_lem_example :
    (h' : Hub ℕ) × (close_hub ℕ two_seen ≡ some h')
    × IsSound h'
    × (h'.subs ≡ [])
    × ((a : ℕ) → (h'.heap a).queue ≡ (two_seen.heap a).queue)
    × (close_hub ℕ h' ≡ some h')
close_hub_lem_example = close_hub_lem two_seen two_seen-IsSound

-- Three frames into a channel of two, a read, and one more frame.
abbrev busy : List (Move ℕ)
busy = sends 1 ∷ sends 2 ∷ sends 3 ∷ reads ∷ sends 4 ∷ []

busy_waits : (move_all busy (new_client 2)).sub.queue ≡ 2 ∷ 4 ∷ []
unfolding move_all move offer take_frame
busy_waits = refl

stream_accounts_example :
    let c = move_all busy (new_client 2) in
    IsWithin (c.received ++ c.sub.queue) (sent busy)
    × (length c.received + length c.sub.queue + c.sub.dropped ≡ length (sent busy))
    × (length c.sub.queue ≤ c.sub.room)
stream_accounts_example = stream_accounts 2 busy (omega arith)
