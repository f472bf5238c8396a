-- ===== src/Api/Stream/Shutdown.antt =====
-- How the streams of internal/api/sse.go end when the hub is closed.
use rate_limiting_reverse_pr.Prelude.{
  ℕ, ◌+◌, ◌<◌, ◌≡◌, refl, ap, subst, Bool, Bool-cases, inl, inr, true, String, Option, none, some,
  List, [], ◌∷◌, ◌++◌, arith, length,
}
use rate_limiting_reverse_pr.Limiter.Redis.{Carried, returned, failed}
use rate_limiting_reverse_pr.Metrics.Hub.{Hub, put, close_channel, subscribe, unsubscribe}
use rate_limiting_reverse_pr.Metrics.Hub.Lifecycle.{IsSound, subscribe-IsSound}
use rate_limiting_reverse_pr.Metrics.Hub.Closing.{close_hub_lem}
use rate_limiting_reverse_pr.Metrics.Hub.Calls.{
  closes, HasLeft, run_call, run_call-IsSound, run_call-IsSpared, run_call-next,
}
use rate_limiting_reverse_pr.Api.Stream.{
  Writer, Turn, request_done, keepalive_due, events_ready, other, Streaming, Outcome, looping,
  returned_, event_text, encode_frame, keepalive, send_out, receive, leave, stream_loop,
  handle_stream,
}
use rate_limiting_reverse_pr.Api.Stream.Lifetime.{
  IsReceived, got, ended, not_ready, receive-IsReceived, received-IsSound,
}

-- How often a schedule lets the stream receive from its channel.
abbrev pub receives : List Turn → ℕ
receives [] = 0
receives (request_done ∷ rest) = receives rest
receives (keepalive_due ∷ rest) = receives rest
receives (events_ready ∷ rest) = receives rest + 1
receives (other call ∷ rest) = receives rest

module _ (writer : Writer) where
  -- A run that has returned.
  abbrev HasReturned : Option (Outcome writer) → Type 0
  HasReturned run = (s : Streaming writer) × (run ≡ some (returned_ s))

  leave-HasReturned :
      (a : ℕ) (s : Streaming writer) → HasLeft a s.hub → HasReturned (leave writer a s)
  unfolding leave unsubscribe
  leave-HasReturned a s l = (s, ground (arith, l.absent))

  abbrev waiting : ℕ → Streaming writer → ℕ
  waiting a s = length (s.hub.heap a).queue

  received_left :
      (a : ℕ) (s s' : Streaming writer) (ok : Bool)
      → IsReceived writer a s s' ok
      → HasLeft a s.hub
      → HasLeft a s'.hub
  unfolding put
  received_left a s s' ok (got sub out ok' t) l = record { known = l.known; absent = l.absent }
  received_left a s s' ok (ended e) l = l
  received_left a s s' ok (not_ready e) l = l

  -- A receive that lets the loop go on has made the queue shorter.
  received_waiting :
      (a : ℕ) (s s' : Streaming writer) (ok : Bool)
      → IsReceived writer a s s' ok
      → IsSound s.hub
      → HasLeft a s.hub
      → ok ≡ true
      → waiting a s ≡ waiting a s' + 1
  unfolding put
  received_waiting a s s' ok (got sub out ok' t) sound l e = ground (arith, t.shorter)
  received_waiting a s s' ok (ended shut_) sound l e = cc
  received_waiting a s s' ok (not_ready open_) sound l e = cc (sound.left a l.absent l.known, open_)

  -- The loop of a stream whose channel is closed returns.
  stream_loop-HasReturned :
      (a : ℕ) (turns : List Turn) (s : Streaming writer)
      → IsSound s.hub
      → HasLeft a s.hub
      → waiting a s < receives turns
      → HasReturned (stream_loop writer a turns s)
  unfolding stream_loop
  stream_loop-HasReturned a [] s sound l few = absurd (omega arith)
  stream_loop-HasReturned a (request_done ∷ rest) s sound l few = leave-HasReturned a s l
  stream_loop-HasReturned a (keepalive_due ∷ rest) s sound l few =
      elim (Bool-cases (send_out writer keepalive s.out).1) [
        | inl ok ↦ rw (stream_loop, ok) (stream_loop-HasReturned a rest _ sound l few)
        | inr lost ↦ rw (stream_loop, lost) (leave-HasReturned a _ l)
      ]
  stream_loop-HasReturned a (events_ready ∷ rest) s sound l few =
      let r = receive-IsReceived writer a s in
      let sound' = received-IsSound writer a s _ _ r sound in
      let l' = received_left a s _ _ r l in
      elim (Bool-cases (receive writer a s).1) [
        | inl ok ↦
            rw (stream_loop, ok)
              (stream_loop-HasReturned a rest _ sound' l'
                (omega (arith, received_waiting a s _ _ r sound l ok)))
        | inr lost ↦ rw (stream_loop, lost) (leave-HasReturned a _ l')
      ]
  stream_loop-HasReturned a (other call ∷ rest) s sound l few =
      let (h', e, sound') = run_call-IsSound call s.hub sound in
      let spared = run_call-IsSpared a call s.hub h' sound l e in
      rw (stream_loop, e)
        (stream_loop-HasReturned a rest (record s { hub = h' }) sound' spared.left
          (omega (arith, ap (λ sub. length sub.queue) spared.same)))

  -- Where a loop has got to is where it goes on.
  record IsAt (a : ℕ) (before : List Turn) (s s' : Streaming writer) : Type 0 where
    known : a < s'.hub.next
    sound : IsSound s'.hub
    goes_on :
        (after : List Turn)
        → stream_loop writer a (before ++ after) s ≡ stream_loop writer a after s'

  received_next :
      (a : ℕ) (s s' : Streaming writer) (ok : Bool)
      → IsReceived writer a s s' ok
      → s'.hub.next ≡ s.hub.next
  unfolding put
  received_next a s s' ok (got sub out ok' t) = refl
  received_next a s s' ok (ended e) = refl
  received_next a s s' ok (not_ready e) = refl

  leaves_for_good : (a : ℕ) (s s' : Streaming writer) → leave writer a s ≡ some (looping s') → ⊥
  unfolding leave
  leaves_for_good a s s' e = ground arith

  abbrev state_of : Streaming writer → Option (Outcome writer) → Streaming writer
  state_of s (some (looping s')) = s'
  state_of s (some (returned_ s')) = s
  state_of s none = s

  stream_loop-IsAt :
      (a : ℕ) (before : List Turn) (s s' : Streaming writer)
      → IsSound s.hub
      → a < s.hub.next
      → stream_loop writer a before s ≡ some (looping s')
      → IsAt a before s s'
  unfolding stream_loop
  stream_loop-IsAt a [] s s' sound known e =
      subst (IsAt a [] s) (ap (state_of s) e)
        (record { known = known; sound = sound; goes_on = λ after. refl })
  stream_loop-IsAt a (request_done ∷ rest) s s' sound known e = absurd (leaves_for_good a s s' e)
  stream_loop-IsAt a (keepalive_due ∷ rest) s s' sound known e =
      elim (Bool-cases (send_out writer keepalive s.out).1) [
        | inl ok ↦
            let t = stream_loop-IsAt a rest _ s' sound known (rw (stream_loop, ok) at e) in
            record {
              known = t.known;
              sound = t.sound;
              goes_on = λ after. rw (stream_loop, ok) (t.goes_on after);
            }
        | inr lost ↦ absurd (
            leaves_for_good a (record s { out = (send_out writer keepalive s.out).0 }) s'
              (rw (stream_loop, lost) at e))
      ]
  stream_loop-IsAt a (events_ready ∷ rest) s s' sound known e =
      let r = receive-IsReceived writer a s in
      let sound' = received-IsSound writer a s _ _ r sound in
      let known' : a < (receive writer a s).0.hub.next =
        omega (arith, known, received_next a s _ _ r) in
      elim (Bool-cases (receive writer a s).1) [
        | inl ok ↦
            let t = stream_loop-IsAt a rest _ s' sound' known' (rw (stream_loop, ok) at e) in
            record {
              known = t.known;
              sound = t.sound;
              goes_on = λ after. rw (stream_loop, ok) (t.goes_on after);
            }
        | inr lost ↦
            absurd (leaves_for_good a (receive writer a s).0 s' (rw (stream_loop, lost) at e))
      ]
  stream_loop-IsAt a (other call ∷ rest) s s' sound known e =
      let (h', ran, sound') = run_call-IsSound call s.hub sound in
      let known' : a < h'.next = omega (arith, known, run_call-next call s.hub h' sound ran) in
      let t =
        stream_loop-IsAt a rest (record s { hub = h' }) s' sound' known'
          (rw (stream_loop, ran) at e) in
      record {
        known = t.known;
        sound = t.sound;
        goes_on = λ after. rw (stream_loop, ran) (t.goes_on after);
      }

  -- Behind the close of the hub, the loop returns.
  closed_then_returns :
      (a : ℕ) (before after : List Turn) (s s' : Streaming writer)
      → IsAt a before s s'
      → waiting a s' < receives after
      → HasReturned (stream_loop writer a (before ++ other closes ∷ after) s)
  unfolding stream_loop run_call
  closed_then_returns a before after s s' t few =
      let (h', e, sound', gone, queues, _) = close_hub_lem s'.hub t.sound in
      let left : HasLeft a h' = record {
        known = omega (arith, t.known, run_call-next closes s'.hub h' t.sound e);
        absent = rw gone refl;
      } in
      rw (t.goes_on (other closes ∷ after)) (
        rw (stream_loop, e)
          (stream_loop-HasReturned a after (record s' { hub = h' }) sound' left
            (omega (arith, ap length (queues a)))))

  looping_after :
      (a : ℕ) (before after : List Turn) (s s' : Streaming writer)
      → IsSound s.hub
      → a < s.hub.next
      → stream_loop writer a before s ≡ some (looping s')
      → waiting a s' < receives after
      → HasReturned (stream_loop writer a (before ++ other closes ∷ after) s)
  looping_after a before after s s' sound known e few =
      closed_then_returns a before after s s' (stream_loop-IsAt a before s s' sound known e) few

  subscribed_next : (h h' : Hub String) → subscribe String h ≡ some (h', h.next) → h.next < h'.next
  unfolding subscribe close_channel put
  subscribed_next h h' e = ground arith

  -- A stream that is in its loop when the hub is closed returns, whatever else happens and whether
  -- or not its writes succeed, once it has received more often than frames were waiting for it.
  pub handle_stream_returns :
      (snapshot : Carried String) (before after : List Turn) (s s' : Streaming writer)
      → IsSound s.hub
      → handle_stream writer snapshot before s ≡ some (looping s')
      → length (s'.hub.heap s.hub.next).queue < receives after
      → (s″ : Streaming writer) × (handle_stream writer snapshot (before ++ other closes ∷ after) s
          ≡ some (returned_ s″))
  unfolding handle_stream encode_frame
  handle_stream_returns (failed err) before after s s' sound e few =
      let (h', ran, sound', _) = subscribe-IsSound s.hub sound in
      let known : s.hub.next < h'.next = subscribed_next s.hub h' ran in
      rw (ran, handle_stream)
        (looping_after s.hub.next before after (record s { hub = h' }) s' sound' known
          (rw (ran, handle_stream) at e) few)
  handle_stream_returns (returned body) before after s s' sound e few =
      let (h', ran, sound', _) = subscribe-IsSound s.hub sound in
      let known : s.hub.next < h'.next = subscribed_next s.hub h' ran in
      elim (Bool-cases (send_out writer (event_text "stats" body) s.out).1) [
        | inl ok ↦
            rw (ran, handle_stream, ok)
              (looping_after s.hub.next before after _ s' sound' known
                (rw (ran, handle_stream, ok) at e) few)
        | inr lost ↦ absurd (
            leaves_for_good s.hub.next
              (record { hub = h'; out = (send_out writer (event_text "stats" body) s.out).0 }) s'
              (rw (ran, handle_stream, lost) at e))
      ]
