-- ===== src/Api/Clients.antt =====
-- internal/api/api.go: the table of clients in the control plane, and its reset. The parts of the
-- program that the handlers use are arguments; a context's timeout is an error of the call to Redis,
-- and the log is not modelled.
pub mod Clearing
mod Tests
use Prim.Native.String.{◌++◌ as join}
use rate_limiting_reverse_pr.Prelude.{
  ℕ, Bool, true, false, not, ◌&&◌, String, Option, none, some, List, [], ◌∷◌, if◌then◌else◌,
}
use rate_limiting_reverse_pr.Prelude.Int.{ℤ, pos, leb_ℤ, ltb_ℤ}
use rate_limiting_reverse_pr.Prelude.Dict.{Dict, same_key}
use rate_limiting_reverse_pr.Prelude.Strconv.{atoi}
use rate_limiting_reverse_pr.Limiter.Policy.{Policy}
use rate_limiting_reverse_pr.Limiter.Memory.{◌>>=◌, Memory, reset}
use rate_limiting_reverse_pr.Limiter.Redis.{Carried, returned, failed}
use rate_limiting_reverse_pr.Limiter.Redis.Keys.{Keyspace, active_keys, reset_keys}
use rate_limiting_reverse_pr.Metrics.Collector.{Table, reset_clients}
use rate_limiting_reverse_pr.Metrics.Views.{Floats, ClientView, clients}

-- The query's `limit`: a number of rows from 1 to 500, else 50.
unfoldable pub clients_limit : String → ℤ
clients_limit v = if same_key v "" then pos 50 else elim (atoi v) [
  | none ↦ pos 50
  | some n ↦ if ltb_ℤ (pos 0) n && leb_ℤ n (pos 500) then n else pos 50
]

-- The usage over the fleet, or why there is none.
pub data FleetView : Type 0 where
  fleet : Dict ℕ → FleetView
  fleet_note : String → FleetView

module _ (keyspace : Keyspace) where
  -- The second half of `handleClients`; `redis` is none when Redis is not configured.
  unfoldable pub fleet_view : String → ℕ → Option (ℕ → keyspace.State) → Bool → Option FleetView
  unfolding active_keys
  fleet_view prefix fuel redis degraded =
      let absent : String = "fleet view unavailable: serving from the in-memory fallback" in
      elim redis [
        | none ↦ some (fleet_note absent)
        | some states ↦ elim degraded [
          | true ↦ some (fleet_note absent)
          | false ↦ do
            found ← active_keys keyspace prefix (pos 200) fuel states
            some (elim found [
              | failed err ↦ fleet_note (join "fleet view unavailable: " err)
              | returned usage ↦ fleet usage
            ])
        ]
      ]

  -- The state that the reset works on.
  pub record Tracking : Type 0 where
    pub clients : Table
    pub memory : Memory
    pub redis : Option keyspace.State

  -- `handleClientsReset`: how many keys Redis deleted, and the note.
  unfoldable pub handle_clients_reset : String → ℕ → Tracking → Option (Tracking × ℕ × String)
  unfolding reset_clients reset reset_keys
  handle_clients_reset prefix fuel t =
      let cleared : Tracking = record t {
        clients = reset_clients t.clients;
        memory = reset t.memory;
      } in
      elim t.redis [
        | none ↦ some (cleared, 0, "")
        | some s ↦ do
          (s', n, err) ← reset_keys keyspace prefix fuel s
          some (record cleared { redis = some s' }, n, elim err [ none ↦ "" | some e ↦ e ])
      ]

module _ (floats : Floats) (sort_rows : List (ClientView floats) → List (ClientView floats)) where
  pub record ClientsResponse : Type 0 where
    pub policy : Policy
    pub total : ℕ
    pub rows : List (ClientView floats)
    pub fleet : FleetView

  -- `handleClients`
  unfoldable pub handle_clients :
      (keyspace : Keyspace)
      → String
      → ℕ
      → String
      → ℤ
      → Policy
      → Table
      → Option (ℕ → keyspace.State)
      → Bool
      → Option ClientsResponse
  unfolding clients_limit clients fleet_view
  handle_clients keyspace prefix fuel query now policy t redis degraded = do
    (rows, total) ← clients floats sort_rows now (clients_limit query) t
    view ← fleet_view keyspace prefix fuel redis degraded
    some (record { policy = policy; total = total; rows = rows; fleet = view })
