-- ===== src/Api/Clients/Clearing.antt =====
-- What the reset of the clients (`handleClientsReset` of internal/api/api.go) leaves behind.
use Prim.Native.String.{◌++◌ as join}
use text.Mathlib.TextLemmas.{cons-append}
use rate_limiting_reverse_pr.Prelude.{
  ℕ, ◌<◌, ◌≡◌, refl, ◌⊎◌, Option-cases, inl, inr, false, String, Option, none, some, [],
}
use rate_limiting_reverse_pr.Prelude.Dict.{IsKeyed}
use rate_limiting_reverse_pr.Prelude.Text.{is_empty}
use rate_limiting_reverse_pr.Limiter.Memory.{reset}
use rate_limiting_reverse_pr.Limiter.Memory.Clearing.{reset_entries}
use rate_limiting_reverse_pr.Limiter.Stores.{unavailable_error}
use rate_limiting_reverse_pr.Limiter.Redis.Keys.{Keyspace}
use rate_limiting_reverse_pr.Limiter.Redis.Keys.Iteration.{KeyspaceLaws}
use rate_limiting_reverse_pr.Limiter.Redis.Keys.Resetting.{reset_keys_lem}
use rate_limiting_reverse_pr.Metrics.Collector.{reset_clients}
use rate_limiting_reverse_pr.Metrics.Collector.Rows.{delete_each_all}
use rate_limiting_reverse_pr.Api.Clients.{Tracking, handle_clients_reset}

module _ (keyspace : Keyspace) (prefix : String) (laws : KeyspaceLaws keyspace prefix) where
  -- What became of the counts in Redis: there is no Redis, the note says why some may be left, or
  -- none is left.
  abbrev pub IsReset : Option keyspace.State → Option keyspace.State → String → Type 0
  IsReset before after note =
      ((before ≡ none) × (after ≡ none))
      ⊎ (is_empty note ≡ false)
      ⊎ ((s : keyspace.State) × (after ≡ some s)
          × ((k : String) → laws.present (join prefix k) s ≡ false))

  -- For tables in which no key stands twice, and more rounds than an iteration over the keys takes
  -- that Redis holds at first, the reset comes to an end. No client
  -- is tracked any more, in the dashboard's table or by the limiter in memory; and with Redis,
  -- either no key of the prefix is left or the answer has a note.
  pub handle_clients_reset_lem :
      (fuel : ℕ) (t : Tracking keyspace)
      → IsKeyed t.clients.entries
      → IsKeyed t.memory.entries
      → ((s : keyspace.State) → t.redis ≡ some s → laws.rounds 200 (laws.size s) < fuel)
      → (t' : Tracking keyspace) × (n : ℕ) × (note : String) × (handle_clients_reset keyspace prefix
            fuel t
          ≡ some (t', n, note))
        × (t'.clients.entries ≡ [])
        × (t'.memory.entries ≡ [])
        × IsReset t.redis t'.redis note
  unfolding handle_clients_reset reset_clients
  handle_clients_reset_lem fuel t hc hm enough =
      let c = delete_each_all t.clients.entries hc in
      let m = reset_entries t.memory hm in
      let cleared : Tracking keyspace = record t {
        clients = reset_clients t.clients;
        memory = reset t.memory;
      } in
      elim (Option-cases t.redis) [
        | inl absent ↦
            (cleared, 0, "", simp (absent, handle_clients_reset), c, m, inl (absent, absent))
        | inr (s, present) ↦ elim (reset_keys_lem keyspace prefix laws fuel s (enough s present)) [
          | inl (s', n, err, run) ↦ (
            record cleared { redis = some s' },
            n,
            unavailable_error err,
            simp (present, run, handle_clients_reset),
            c,
            m,
            inr (inl (rw (cons-append "l" "imiter: backend unavailable: " err) refl)),
          )
          | inr (s', n, run, gone) ↦ (
            record cleared { redis = some s' },
            n,
            "",
            simp (present, run, handle_clients_reset),
            c,
            m,
            inr (inr (s', refl, gone)),
          )
        ]
      ]
