-- ===== src/Api/Stream/Broadcasting.antt =====
-- `StartBroadcaster` of internal/api/sse.go.
use rate_limiting_reverse_pr.Prelude.{
  ◌≡◌, refl, Bool, ◌⊎◌, inl, inr, true, false, some, List, [], ◌∷◌,
}
use rate_limiting_reverse_pr.Prelude.Int.{ℤ}
use rate_limiting_reverse_pr.Limiter.Redis.{returned, failed}
use rate_limiting_reverse_pr.Metrics.Collector.{Table, sweep}
use rate_limiting_reverse_pr.Metrics.Hub.Lifecycle.{IsSound}
use rate_limiting_reverse_pr.Metrics.Hub.Delivery.{broadcast_offers}
use rate_limiting_reverse_pr.Metrics.Hub.Closing.{close_hub_lem}
use rate_limiting_reverse_pr.Metrics.Hub.Calls.{run_call-IsSound, run_call-closed, close_hub-closed}
use rate_limiting_reverse_pr.Api.Stream.{
  Beat, cancelled, sweep_due, tick, meanwhile, Plane, beat, start_broadcaster, encode_frame,
  event_text,
}

-- Whether a history has the end of the context in it.
abbrev pub is_cancelled : List Beat → Bool
is_cancelled [] = false
is_cancelled (cancelled ∷ rest) = true
is_cancelled (sweep_due now ∷ rest) = is_cancelled rest
is_cancelled (tick snapshot ∷ rest) = is_cancelled rest
is_cancelled (meanwhile call ∷ rest) = is_cancelled rest

-- Once the broadcaster has returned, the hub stays closed.
pub record IsRunning (p : Plane) : Type 0 where
  pub sound : IsSound p.hub
  pub ended : p.stopped ≡ true → p.hub.closed ≡ true

-- The instants of the sweeps that come before the end of the context.
abbrev pub sweeps : List Beat → List ℤ
sweeps [] = []
sweeps (cancelled ∷ rest) = []
sweeps (sweep_due now ∷ rest) = now ∷ sweeps rest
sweeps (tick snapshot ∷ rest) = sweeps rest
sweeps (meanwhile call ∷ rest) = sweeps rest

abbrev pub sweep_each : List ℤ → Table → Table
sweep_each [] t = t
sweep_each (now ∷ rest) t = sweep_each rest (sweep now t).0

-- What a history of the broadcaster leaves behind: whether it is over, and the table of clients.
pub record IsServed (over : Bool) (swept : Table) (p : Plane) : Type 0 where
  pub sound : IsSound p.hub
  pub stopped : p.stopped ≡ over
  pub clients : p.clients ≡ swept
  pub ended : (over ≡ false) ⊎ ((p.hub.closed ≡ true) × (p.hub.subs ≡ []))

-- After the return of the broadcaster only the calls of the others count.
after_the_end :
    (beats : List Beat) (p : Plane)
    → IsRunning p
    → p.stopped ≡ true
    → (p' : Plane) × (start_broadcaster beats p ≡ some p')
      × IsRunning p'
      × (p'.stopped ≡ true)
      × (p'.clients ≡ p.clients)
unfolding start_broadcaster beat
after_the_end [] p r e = (p, refl, r, e, refl)
after_the_end (cancelled ∷ rest) p r e = rw (start_broadcaster, e) (after_the_end rest p r e)
after_the_end (sweep_due now ∷ rest) p r e = rw (start_broadcaster, e) (after_the_end rest p r e)
after_the_end (tick snapshot ∷ rest) p r e = rw (start_broadcaster, e) (after_the_end rest p r e)
after_the_end (meanwhile call ∷ rest) p r e =
    let (h', ran, sound') = run_call-IsSound call p.hub r.sound in
    let r' : IsRunning (record p { hub = h' }) = record {
      sound = sound';
      ended = λ x. run_call-closed call p.hub h' r.sound ran (r.ended x);
    } in
    rw (start_broadcaster, ran) (after_the_end rest (record p { hub = h' }) r' e)

-- From a sound hub, whatever it receives and whatever the other goroutines call meanwhile, the
-- broadcaster never panics and leaves the hub sound; the table of clients has been swept at the
-- instants that came before the end of the context, and nothing else; and it has returned exactly if
-- its context has ended, and then the hub is closed and has no subscribers.
pub start_broadcaster-IsServed :
    (beats : List Beat) (p : Plane)
    → IsSound p.hub
    → p.stopped ≡ false
    → (p' : Plane) × (start_broadcaster beats p ≡ some p')
      × IsServed (is_cancelled beats) (sweep_each (sweeps beats) p.clients) p'
unfolding start_broadcaster beat encode_frame
start_broadcaster-IsServed [] p s e =
    (p, refl, record { sound = s; stopped = e; clients = refl; ended = inl refl })
start_broadcaster-IsServed (cancelled ∷ rest) p s e =
    let (h', ran, sound', gone, _, _) = close_hub_lem p.hub s in
    let closed = close_hub-closed p.hub h' s ran in
    let r : IsRunning (record p { hub = h'; stopped = true }) = record {
      sound = sound';
      ended = λ x. closed;
    } in
    let (p', ran', r', stopped, same) =
      after_the_end rest (record p { hub = h'; stopped = true }) r refl in
    rw (start_broadcaster, e)
      (rw ran (
        p',
        ran',
        record {
          sound = r'.sound;
          stopped = stopped;
          clients = same;
          ended = inr (r'.ended stopped, r'.sound.ended (r'.ended stopped));
        },
      ))
start_broadcaster-IsServed (sweep_due now ∷ rest) p s e =
    let (p', ran', v) =
      start_broadcaster-IsServed rest (record p { clients = (sweep now p.clients).0 }) s e in
    (p', rw (start_broadcaster, e) ran', v)
start_broadcaster-IsServed (tick (failed err) ∷ rest) p s e =
    let (p', ran', v) = start_broadcaster-IsServed rest p s e in
    (p', rw (start_broadcaster, e) ran', v)
start_broadcaster-IsServed (tick (returned body) ∷ rest) p s e =
    let (h', ran, sound', _) = broadcast_offers (event_text "stats" body) p.hub s in
    let (p', ran', v) = start_broadcaster-IsServed rest (record p { hub = h' }) sound' e in
    (p', rw (start_broadcaster, e) (rw ran ran'), v)
start_broadcaster-IsServed (meanwhile call ∷ rest) p s e =
    let (h', ran, sound') = run_call-IsSound call p.hub s in
    let (p', ran', v) = start_broadcaster-IsServed rest (record p { hub = h' }) sound' e in
    (p', rw (start_broadcaster, ran) ran', v)
