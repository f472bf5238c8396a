-- ===== src/Api/Documents.antt =====
-- internal/api/api.go: the documents that the control plane answers with. float64 is a parameter,
-- and the clock's reading an argument; how a document becomes JSON is not modelled.
use rate_limiting_reverse_pr.Prelude.{ℕ, Bool, String, Option, some, List, if◌then◌else◌}
use rate_limiting_reverse_pr.Prelude.Int.{ℤ, pos}
use rate_limiting_reverse_pr.Limiter.Policy.{Policy}
use rate_limiting_reverse_pr.Limiter.Memory.{◌>>=◌}
use rate_limiting_reverse_pr.Limiter.Manager.{Backend, Manager, Stats, stats}
use rate_limiting_reverse_pr.Limiter.Redis.{unix_milli}
use rate_limiting_reverse_pr.Metrics.Hub.{Hub, count_subs}
use rate_limiting_reverse_pr.Metrics.Collector.{Collector}
use rate_limiting_reverse_pr.Metrics.Views.{Floats, ClientView, Snapshot, snapshot}

pub record Health (Float : Type 0) : Type 0 where
  pub status : String
  pub version : String
  pub uptime_seconds : Float
  pub backend : String
  pub redis_enabled : Bool
  pub redis_healthy : Bool
  pub degraded : Bool

module _ (floats : Floats) where
  open floats use {Float, of_int, div, seconds, positive}

  pub record PolicyView : Type 0 where
    pub rps : ℤ
    pub window_seconds : Float
    pub limit : ℤ
    pub effective_rps : Float

  unfoldable pub policy_view : Policy → PolicyView
  policy_view p =
      let secs = seconds p.window in
      record {
        rps = p.limit;
        window_seconds = secs;
        limit = p.limit;
        effective_rps = if positive secs then div (of_int p.limit) secs else of_int p.limit;
      }

  pub record StatsPayload : Type 0 where
    pub timestamp : ℤ
    pub version : String
    pub policy : PolicyView
    pub traffic : Snapshot floats
    pub limiter : Stats
    pub upstream : String
    pub subscribers : ℕ

  module _ (primary : Backend) where
    -- `handleHealth`, which answers 200 also when Redis is down.
    unfoldable pub health : String → Float → Manager primary → Health Float
    unfolding stats
    health version uptime m =
        let st = stats primary m in
        record {
          status = "ok";
          version = version;
          uptime_seconds = uptime;
          backend = st.backend;
          redis_enabled = st.redis_enabled;
          redis_healthy = st.redis_healthy;
          degraded = st.degraded;
        }

    -- `Snapshot` of the server, from its parts at one instant; `target` is that of the upstream.
    unfoldable pub stats_payload :
        (List (ClientView floats) → List (ClientView floats))
        → ℤ
        → String
        → String
        → Manager primary
        → Collector
        → Hub String
        → Option StatsPayload
    unfolding policy_view snapshot stats count_subs unix_milli
    stats_payload sort_rows now version target m c hub = do
      traffic ← snapshot floats sort_rows (pos 50) now c
      some (record {
        timestamp = unix_milli now;
        version = version;
        policy = policy_view m.policy;
        traffic = traffic;
        limiter = stats primary m;
        upstream = target;
        subscribers = count_subs String hub;
      })
