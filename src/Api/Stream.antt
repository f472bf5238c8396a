-- ===== src/Api/Stream.antt =====
-- internal/api/sse.go: the live stream of the dashboard. A loop over a `select` is a run over what
-- it receives, in the order received, interleaved with the calls that other goroutines make on the
-- hub meanwhile. The writer of the response and the text of `json.Marshal(s.Snapshot())` are
-- parameters; headers, deadlines and the log are not modelled. `none` is a panic of the hub.
pub mod Wire
pub mod Lifetime
pub mod Shutdown
pub mod Broadcasting
mod Tests
use Prim.Native.String.{◌++◌ as join}
use rate_limiting_reverse_pr.Prelude.{
  ℕ, Bool, true, false, String, Option, none, some, List, [], ◌∷◌, if◌then◌else◌,
}
use rate_limiting_reverse_pr.Prelude.Int.{ℤ, pos, leb_ℤ}
use rate_limiting_reverse_pr.Limiter.Redis.{Carried, returned, failed}
use rate_limiting_reverse_pr.Metrics.Hub.{
  ◌>>=◌, Hub, put, take_frame, subscribe, unsubscribe, broadcast, close_hub,
}
use rate_limiting_reverse_pr.Metrics.Hub.Calls.{Call, run_call}
use rate_limiting_reverse_pr.Metrics.Collector.{Table, sweep}

-- `Write` and `Flush` of the response, with false for an error.
pub record Writer : Type 1 where
  pub State : Type 0
  pub write : String → State → State × Bool
  pub flush : State → State × Bool

abbrev pub event_text : String → String → String
event_text event body = join "event: " (join event (join "\ndata: " (join body "\n\n")))

-- `encodeFrame`, from the result of `json.Marshal`.
unfoldable pub encode_frame : String → Carried String → Carried String
encode_frame event (failed err) = failed err
encode_frame event (returned body) = returned (event_text event body)

abbrev pub keepalive : String
keepalive = ": keepalive\n\n"

-- What the `select` of a stream receives, or a call by another goroutine.
pub data Turn : Type 0 where
  request_done keepalive_due events_ready : Turn
  other : Call String → Turn

module _ (writer : Writer) where
  open writer use {State, write, flush}

  -- `Write`, and `Flush` unless it failed.
  unfoldable pub send_out : String → State → State × Bool
  send_out text w =
      let (written, ok) = write text w in
      let (flushed, done) = flush written in if ok then (flushed, done) else (written, false)

  -- The hub, and the response of one stream.
  pub record Streaming : Type 0 where
    pub hub : Hub String
    pub out : State

  -- Where a run of the handler is: in its loop, or returned.
  pub data Outcome : Type 0 where
    looping : Streaming → Outcome
    returned_ : Streaming → Outcome

  -- A receive from `sub.Events()`, if it is ready: a frame, or the end of a closed channel. The
  -- second result is false when the handler returns.
  unfoldable pub receive : ℕ → Streaming → Streaming × Bool
  unfolding send_out take_frame put
  receive a s = elim (take_frame String (s.hub.heap a)) [
    | some (frame, sub) ↦
        let (out, ok) = send_out frame s.out in
        (record { hub = put String a sub s.hub; out = out }, ok)
    | none ↦ if (s.hub.heap a).closed then (s, false) else (s, true)
  ]

  -- The deferred `Unsubscribe`.
  unfoldable pub leave : ℕ → Streaming → Option Outcome
  unfolding unsubscribe
  leave a s = do hub ← unsubscribe String (some a) s.hub; some (returned_ (record s { hub = hub }))

  -- The loop.
  unfoldable pub stream_loop : ℕ → List Turn → Streaming → Option Outcome
  unfolding receive send_out leave run_call
  stream_loop a [] s = some (looping s)
  stream_loop a (request_done ∷ rest) s = leave a s
  stream_loop a (keepalive_due ∷ rest) s =
      let (out, ok) = send_out keepalive s.out in
      let s' : Streaming = record s { out = out } in
      elim ok [ true ↦ stream_loop a rest s' | false ↦ leave a s' ]
  stream_loop a (events_ready ∷ rest) s =
      let (s', ok) = receive a s in elim ok [ true ↦ stream_loop a rest s' | false ↦ leave a s' ]
  stream_loop a (other call ∷ rest) s = do
    hub ← run_call call s.hub
    stream_loop a rest (record s { hub = hub })

  -- `handleStream`
  unfoldable pub handle_stream : Carried String → List Turn → Streaming → Option Outcome
  unfolding stream_loop subscribe encode_frame
  handle_stream snapshot turns s = do
    (hub, a) ← subscribe String s.hub
    elim (encode_frame "stats" snapshot) [
      | failed err ↦ stream_loop a turns (record s { hub = hub })
      | returned frame ↦
          let (out, ok) = send_out frame s.out in
          let s' : Streaming = record { hub = hub; out = out } in
          elim ok [ true ↦ stream_loop a turns s' | false ↦ leave a s' ]
    ]

-- What the `select` of the broadcaster receives, or a call by another goroutine: a tick brings the
-- snapshot of its instant, a sweep its instant.
pub data Beat : Type 0 where
  cancelled : Beat
  sweep_due : ℤ → Beat
  tick : Carried String → Beat
  meanwhile : Call String → Beat

-- The parts of the program that the broadcaster works on, and whether it has returned.
pub record Plane : Type 0 where
  pub hub : Hub String
  pub clients : Table
  pub stopped : Bool

-- One round of the loop.
unfoldable pub beat : Beat → Plane → Option Plane
unfolding run_call broadcast close_hub sweep encode_frame
beat cancelled p = do hub ← close_hub String p.hub; some (record p { hub = hub; stopped = true })
beat (sweep_due now) p = some (record p { clients = (sweep now p.clients).0 })
beat (tick snapshot) p = elim (encode_frame "stats" snapshot) [
  | failed err ↦ some p
  | returned frame ↦ do hub ← broadcast String frame p.hub; some (record p { hub = hub })
]
beat (meanwhile call) p = do hub ← run_call call p.hub; some (record p { hub = hub })

-- `StartBroadcaster`; after its return only the other goroutines go on.
unfoldable pub start_broadcaster : List Beat → Plane → Option Plane
unfolding beat run_call
start_broadcaster [] p = some p
start_broadcaster (meanwhile call ∷ rest) p = do
  p' ← beat (meanwhile call) p
  start_broadcaster rest p'
start_broadcaster (b ∷ rest) p = elim p.stopped [
  | true ↦ start_broadcaster rest p
  | false ↦ do p' ← beat b p; start_broadcaster rest p'
]

-- The time between two frames.
unfoldable pub broadcast_interval : ℤ → ℤ
broadcast_interval interval = if leb_ℤ interval (pos 0) then pos 1000000000 else interval
