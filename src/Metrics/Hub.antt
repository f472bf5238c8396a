-- ===== src/Metrics/Hub.antt =====
-- internal/metrics/hub.go: the fan-out of the frames to the connected dashboards. A subscriber is
-- an object on a heap, named by its address; its channel is a bounded queue and a flag. `none` is
-- the panic of a send on a closed channel or of a second close. `mu` makes each call one step.
pub mod Lifecycle
pub mod Delivery
pub mod Stream
pub mod Closing
pub mod Calls
mod Tests
use rate_limiting_reverse_pr.Prelude.{
  ℕ, suc, ◌+◌, ◌%◌, ◌^◌, Bool, true, false, ◌||◌, Option, none, some, List, [], ◌∷◌, ◌++◌, ◌==◌,
  ltb, if◌then◌else◌, length,
}
use rate_limiting_reverse_pr.Prelude.Int.{ℤ, pos, pos_part, ltb_ℤ}

infixl 5 ◌>>=◌
abbrev pub ◌>>=◌ {ℓ κ} : {A : Type ℓ} {B : Type κ} → Option A → (A → Option B) → Option B
none >>= f = none
some a >>= f = f a

abbrev pub member : ℕ → List ℕ → Bool
member a [] = false
member a (b ∷ bs) = b == a || member a bs

abbrev pub remove : ℕ → List ℕ → List ℕ
remove a [] = []
remove a (b ∷ bs) = if b == a then remove a bs else b ∷ remove a bs

module _ (Frame : Type 0) where
  -- The frames wait in the order in which they were sent. `room` is the channel's capacity.
  pub record Subscriber : Type 0 where
    pub queue : List Frame
    pub room : ℕ
    pub closed : Bool
    pub dropped : ℕ

  pub record Hub : Type 0 where
    pub subs : List ℕ
    pub closed : Bool
    pub buffer : ℕ
    pub heap : ℕ → Subscriber
    pub next : ℕ

  abbrev pub empty_subscriber : ℕ → Subscriber
  empty_subscriber room = record { queue = []; room = room; closed = false; dropped = 0 }

  unfoldable pub new_hub : ℤ → Hub
  new_hub buffer = record {
    subs = [];
    closed = false;
    buffer = if ltb_ℤ buffer (pos 1) then 8 else pos_part buffer;
    heap = λ _. empty_subscriber 0;
    next = 0;
  }

  unfoldable pub put : ℕ → Subscriber → Hub → Hub
  put a s h = record h { heap = λ b. if a == b then s else h.heap b }

  -- `close(s.ch)`
  unfoldable pub close_channel : ℕ → Hub → Option Hub
  unfolding put
  close_channel a h =
      if (h.heap a).closed then none else some (put a (record (h.heap a) { closed = true }) h)

  -- A new client, at the address that is returned.
  unfoldable pub subscribe : Hub → Option (Hub × ℕ)
  unfolding put close_channel
  subscribe h =
      let made = record (put h.next (empty_subscriber h.buffer) h) { next = h.next + 1 } in
      if h.closed
      then (do h' ← close_channel h.next made; some (h', h.next))
      else some (record made { subs = h.next ∷ h.subs }, h.next)

  -- `none` stands for the nil subscriber.
  unfoldable pub unsubscribe : Option ℕ → Hub → Option Hub
  unfolding close_channel
  unsubscribe none h = some h
  unsubscribe (some a) h =
      if member a h.subs then close_channel a (record h { subs = remove a h.subs }) else some h

  -- What the `select` does to one subscriber: queue the frame, or count it as dropped.
  unfoldable pub offer : Frame → Subscriber → Subscriber
  offer frame s =
      if ltb (length s.queue) s.room
      then record s { queue = s.queue ++ frame ∷ [] }
      else record s { dropped = (s.dropped + 1) % 2 ^ 64 }

  unfoldable pub send : Frame → ℕ → Hub → Option Hub
  unfolding put offer
  send frame a h = if (h.heap a).closed then none else some (put a (offer frame (h.heap a)) h)

  unfoldable pub send_all : Frame → List ℕ → Hub → Option Hub
  unfolding send
  send_all frame [] h = some h
  send_all frame (a ∷ rest) h = do h' ← send frame a h; send_all frame rest h'

  unfoldable pub broadcast : Frame → Hub → Option Hub
  unfolding send_all
  broadcast frame h = send_all frame h.subs h

  -- `<-s.Events()` by the client: the oldest frame, if one waits.
  unfoldable pub take_frame : Subscriber → Option (Frame × Subscriber)
  take_frame s = elim s.queue [ [] ↦ none | frame ∷ rest ↦ some (frame, record s { queue = rest }) ]

  unfoldable pub count_subs : Hub → ℕ
  count_subs h = length h.subs

  unfoldable pub close_each : List ℕ → Hub → Option Hub
  unfolding close_channel
  close_each [] h = some h
  close_each (a ∷ rest) h = do
    h' ← close_channel a (record h { subs = remove a h.subs })
    close_each rest h'

  -- `Close`
  unfoldable pub close_hub : Hub → Option Hub
  unfolding close_each
  close_hub h = if h.closed then some h else close_each h.subs (record h { closed = true })
