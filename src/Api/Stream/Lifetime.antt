-- ===== src/Api/Stream/Lifetime.antt =====
-- One stream of internal/api/sse.go from its `Subscribe` to its `Unsubscribe`.
use rate_limiting_reverse_pr.Prelude.{
  ℕ, ◌+◌, ◌≡◌, refl, Bool, Bool-cases, Option-cases, inl, inr, true, false, String, Option, some,
  List, [], ◌∷◌, arith, length,
}
use rate_limiting_reverse_pr.Limiter.Redis.{Carried, returned, failed}
use rate_limiting_reverse_pr.Metrics.Hub.{
  member, Subscriber, Hub, put, close_channel, take_frame, unsubscribe,
}
use rate_limiting_reverse_pr.Metrics.Hub.Lifecycle.{
  IsSound, member-remove, subscribe-IsSound, unsubscribe-IsSound,
}
use rate_limiting_reverse_pr.Metrics.Hub.Calls.{run_call-IsSound}
use rate_limiting_reverse_pr.Api.Stream.{
  Writer, Turn, request_done, keepalive_due, events_ready, other, Streaming, Outcome, looping,
  returned_, event_text, encode_frame, keepalive, send_out, receive, leave, stream_loop,
  handle_stream,
}

module _ (writer : Writer) where
  abbrev pub hub_of : Outcome writer → Hub String
  hub_of (looping s) = s.hub
  hub_of (returned_ s) = s.hub

  -- A handler that has returned has left nothing behind in the hub.
  abbrev pub IsGone : ℕ → Outcome writer → Type 0
  IsGone a (looping s) = Unit {0}
  IsGone a (returned_ s) = (member a s.hub.subs ≡ false)

  -- What a receive takes off a channel.
  pub record IsTaken (sub sub' : Subscriber String) : Type 0 where
    pub shorter : length sub.queue ≡ length sub'.queue + 1
    pub room : sub'.room ≡ sub.room
    pub closed : sub'.closed ≡ sub.closed

  take_frame-IsTaken :
      (sub sub' : Subscriber String) (frame : String)
      → take_frame String sub ≡ some (frame, sub')
      → IsTaken sub sub'
  unfolding take_frame
  take_frame-IsTaken sub sub' frame e = from sub.queue refl
    where
      from : (q : List String) → sub.queue ≡ q → IsTaken sub sub'
      from [] w = ground (arith, e)
      from (f ∷ q) w = record {
        shorter = ground (arith, e);
        room = ground (arith, e);
        closed = ground (arith, e);
      }

  -- Replacing a queue by a shorter one keeps a hub sound.
  taken-IsSound :
      (a : ℕ) (sub : Subscriber String) (h : Hub String)
      → IsTaken (h.heap a) sub
      → IsSound h
      → IsSound (put String a sub h)
  unfolding put
  taken-IsSound a sub h t s = record {
    registered = λ b m. ground (arith, s.registered b, t.closed);
    left = λ b m lt. ground (arith, s.left b, t.closed);
    bounded = λ b. ground (arith, s.bounded b, t.shorter, t.room);
    distinct = s.distinct;
    ended = s.ended;
  }

  -- What one receive does: it takes the oldest frame, or finds nothing.
  pub data IsReceived (a : ℕ) (s : Streaming writer) : Streaming writer → Bool → Type 0 where
    got :
        (sub : Subscriber String) (out : writer.State) (ok : Bool)
        → IsTaken (s.hub.heap a) sub
        → IsReceived a s (record { hub = put String a sub s.hub; out = out }) ok
    ended : (s.hub.heap a).closed ≡ true → IsReceived a s s false
    not_ready : (s.hub.heap a).closed ≡ false → IsReceived a s s true

  pub receive-IsReceived :
      (a : ℕ) (s : Streaming writer) → IsReceived a s (receive writer a s).0 (receive writer a s).1
  unfolding receive
  receive-IsReceived a s = elim (Option-cases (take_frame String (s.hub.heap a))) [
    | inr ((frame, sub), e) ↦
        rw (e, receive) (got sub _ _ (take_frame-IsTaken (s.hub.heap a) sub frame e))
    | inl nothing ↦ elim (Bool-cases (s.hub.heap a).closed) [
      | inl shut_ ↦ rw (nothing, receive) (rw shut_ (ended shut_))
      | inr open_ ↦ rw (nothing, receive) (rw open_ (not_ready open_))
    ]
  ]

  -- A run of the handler that is sound to the end.
  abbrev IsSafe : ℕ → Option (Outcome writer) → Type 0
  IsSafe a run = (o : Outcome writer) × (run ≡ some o) × IsSound (hub_of o) × IsGone a o

  unsubscribed :
      (a : ℕ) (h h' : Hub String)
      → unsubscribe String (some a) h ≡ some h'
      → member a h'.subs ≡ false
  unfolding unsubscribe close_channel put
  unsubscribed a h h' e = ground (arith, member-remove a a h.subs)

  leave-IsSafe : (a : ℕ) (s : Streaming writer) → IsSound s.hub → IsSafe a (leave writer a s)
  unfolding leave
  leave-IsSafe a s sound =
      let (h', e, sound', again) = unsubscribe-IsSound (some a) s.hub sound in
      (returned_ (record s { hub = h' }), rw (e, leave) refl, sound', unsubscribed a s.hub h' e)

  pub received-IsSound :
      (a : ℕ) (s s' : Streaming writer) (ok : Bool)
      → IsReceived a s s' ok
      → IsSound s.hub
      → IsSound s'.hub
  received-IsSound a s s' ok (got sub out ok' t) sound = taken-IsSound a sub s.hub t sound
  received-IsSound a s s' ok (ended e) sound = sound
  received-IsSound a s s' ok (not_ready e) sound = sound

  -- Whatever the schedule, the loop never panics.
  stream_loop-IsSafe :
      (a : ℕ) (turns : List Turn) (s : Streaming writer)
      → IsSound s.hub
      → IsSafe a (stream_loop writer a turns s)
  unfolding stream_loop
  stream_loop-IsSafe a [] s sound = (looping s, refl, sound, tt)
  stream_loop-IsSafe a (request_done ∷ rest) s sound = leave-IsSafe a s sound
  stream_loop-IsSafe a (keepalive_due ∷ rest) s sound =
      elim (Bool-cases (send_out writer keepalive s.out).1) [
        | inl ok ↦ rw (stream_loop, ok) (stream_loop-IsSafe a rest _ sound)
        | inr lost ↦ rw (stream_loop, lost) (leave-IsSafe a _ sound)
      ]
  stream_loop-IsSafe a (events_ready ∷ rest) s sound =
      let sound' = received-IsSound a s _ _ (receive-IsReceived a s) sound in
      elim (Bool-cases (receive writer a s).1) [
        | inl ok ↦ rw (stream_loop, ok) (stream_loop-IsSafe a rest _ sound')
        | inr lost ↦ rw (stream_loop, lost) (leave-IsSafe a _ sound')
      ]
  stream_loop-IsSafe a (other call ∷ rest) s sound =
      let (h', e, sound') = run_call-IsSound call s.hub sound in
      rw (stream_loop, e) (stream_loop-IsSafe a rest (record s { hub = h' }) sound')

  -- From a sound hub, whatever the schedule and whether or not its writes succeed, a stream never
  -- panics and leaves the hub sound; once it has returned, its subscriber is no longer registered.
  pub handle_stream-IsSafe :
      (snapshot : Carried String) (turns : List Turn) (s : Streaming writer)
      → IsSound s.hub
      → (o : Outcome writer) × (handle_stream writer snapshot turns s ≡ some o)
        × IsSound (hub_of o)
        × IsGone s.hub.next o
  unfolding handle_stream encode_frame
  handle_stream-IsSafe (failed err) turns s sound =
      let (h', e, sound', _) = subscribe-IsSound s.hub sound in
      rw (e, handle_stream) (stream_loop-IsSafe s.hub.next turns (record s { hub = h' }) sound')
  handle_stream-IsSafe (returned body) turns s sound =
      let (h', e, sound', _) = subscribe-IsSound s.hub sound in
      elim (Bool-cases (send_out writer (event_text "stats" body) s.out).1) [
        | inl ok ↦ rw (e, handle_stream, ok) (stream_loop-IsSafe s.hub.next turns _ sound')
        | inr lost ↦ rw (e, handle_stream, lost) (leave-IsSafe s.hub.next _ sound')
      ]
