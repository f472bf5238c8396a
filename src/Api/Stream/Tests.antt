-- ===== src/Api/Stream/Tests.antt =====
-- Concrete streams and a concrete broadcaster.
use Prim.Native.String.{◌++◌ as join}
use rate_limiting_reverse_pr.Prelude.{
  ◌≡◌, refl, ap, true, false, String, Option, none, some, List, [], ◌∷◌, ◌++◌, arith, length,
}
use rate_limiting_reverse_pr.Prelude.Int.{pos}
use rate_limiting_reverse_pr.Limiter.Redis.{returned, failed}
use rate_limiting_reverse_pr.Metrics.Collector.{new_collector}
use rate_limiting_reverse_pr.Metrics.Hub.{Hub, new_hub, put, subscribe, send, send_all, broadcast}
use rate_limiting_reverse_pr.Metrics.Hub.Lifecycle.{IsSound}
use rate_limiting_reverse_pr.Metrics.Hub.Calls.{subscribes, broadcasts, closes, run_call}
use rate_limiting_reverse_pr.Api.Stream.{
  Writer, Turn, keepalive_due, events_ready, other, Streaming, Outcome, looping, returned_,
  stream_loop, handle_stream, Beat, cancelled, sweep_due, tick, meanwhile, Plane, start_broadcaster,
}
use rate_limiting_reverse_pr.Api.Stream.Wire.{
  Piece, of_event, alive, wire, events, written, events-wire,
}
use rate_limiting_reverse_pr.Api.Stream.Lifetime.{hub_of, IsGone, handle_stream-IsSafe}
use rate_limiting_reverse_pr.Api.Stream.Shutdown.{handle_stream_returns}
use rate_limiting_reverse_pr.Api.Stream.Broadcasting.{
  IsServed, is_cancelled, sweeps, sweep_each, start_broadcaster-IsServed,
}

-- A connection that keeps what is written.
abbrev page : Writer
page = record { State = String; write = λ text w. (join w text, true); flush = λ w. (w, true) }

abbrev idle : Hub String
idle = new_hub String (pos 2)

idle-IsSound : IsSound idle
unfolding new_hub
idle-IsSound = record {
  registered = λ a m. cc;
  left = λ a m lt. absurd (omega arith);
  bounded = λ a. omega arith;
  distinct = tt;
  ended = λ e. refl;
}

abbrev opened : Streaming page
opened = record { hub = idle; out = "" }

-- Three frames for a channel of two, of which one is read.
abbrev busy : List Turn
busy =
    other (broadcasts "a")
    ∷ other (broadcasts "b")
    ∷ other (broadcasts "c")
    ∷ events_ready
    ∷ keepalive_due
    ∷ []

abbrev where_it_is : Option (Outcome page) → Streaming page
where_it_is (some (looping s)) = s
where_it_is (some (returned_ s)) = s
where_it_is none = opened

abbrev later : Streaming page
later = where_it_is (handle_stream page (returned "{}") busy opened)

busy_run : handle_stream page (returned "{}") busy opened ≡ some (looping later)
unfolding handle_stream stream_loop new_hub subscribe put broadcast send_all send run_call
busy_run = refl

busy_text : later.out ≡ "event: stats\ndata: {}\n\na: keepalive\n\n"
unfolding handle_stream stream_loop new_hub subscribe put broadcast send_all send run_call
busy_text = refl

busy_waits : (later.hub.heap 0).queue ≡ "b" ∷ []
unfolding handle_stream stream_loop new_hub subscribe put broadcast send_all send run_call
busy_waits = refl

handle_stream-IsSafe_example :
    (o : Outcome page) × (handle_stream page (returned "{}") busy opened ≡ some o)
    × IsSound (hub_of page o)
    × IsGone page opened.hub.next o
handle_stream-IsSafe_example = handle_stream-IsSafe page (returned "{}") busy opened idle-IsSound

abbrev leftover : List Turn
leftover = events_ready ∷ other subscribes ∷ events_ready ∷ []

handle_stream_returns_example :
    (s : Streaming page) × (handle_stream page
        (returned "{}")
        (busy ++ other closes ∷ leftover)
        opened
      ≡ some (returned_ s))
unfolding new_hub
handle_stream_returns_example =
    handle_stream_returns page (returned "{}") busy leftover opened later idle-IsSound busy_run
      (omega (arith, ap length busy_waits))

abbrev pieces : List Piece
pieces = of_event "stats" "{\"ts\":1}" ∷ alive ∷ of_event "stats" "{\"ts\":2}" ∷ []

pieces_text :
    wire pieces
    ≡ "event: stats\ndata: {\"ts\":1}\n\n: keepalive\n\nevent: stats\ndata: {\"ts\":2}\n\n"
unfolding written
pieces_text = refl

events-wire_example : events (wire pieces) ≡ ("stats", "{\"ts\":1}") ∷ ("stats", "{\"ts\":2}") ∷ []
events-wire_example = events-wire pieces ((refl, refl), (tt, ((refl, refl), tt)))

abbrev plane : Plane
plane = record {
  hub = idle;
  clients = (new_collector (pos 0) (pos 60) (pos 0)).clients;
  stopped = false;
}

abbrev day_at_work : List Beat
day_at_work =
    meanwhile subscribes
    ∷ tick (returned "{}")
    ∷ sweep_due (pos 30000000000)
    ∷ tick (failed "unsupported value")
    ∷ cancelled
    ∷ meanwhile subscribes
    ∷ []

start_broadcaster-IsServed_example :
    (p : Plane) × (start_broadcaster day_at_work plane ≡ some p)
    × IsServed (is_cancelled day_at_work) (sweep_each (sweeps day_at_work) plane.clients) p
start_broadcaster-IsServed_example = start_broadcaster-IsServed day_at_work plane idle-IsSound refl
