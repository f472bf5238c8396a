-- ===== src/Lib.antt =====
-- A rate-limiting reverse proxy in Go: requests are counted per client in a sliding window, by a
-- Redis script shared by the fleet or, when Redis cannot be used, by a limiter in the process.
--
-- The parts, the files that model them, and how they fit together:
--
--   Prelude            shared helpers: Boolean tests, lists, maps from texts (Dict), and the
--                      signed integers of Go (Int): `i64` is the wrap of int64, `sat64` the
--                      saturation of time.Time.Sub. Instants are nanoseconds since 1970. Text,
--                      Strconv and Radix are what the source uses of Go's strings, strconv and hex.
--   Config             config/config.go: the configuration, read from the environment (Load),
--                      validated and redacted. Loading says which ones are accepted, Windows what
--                      policy they stand for, Redaction what the log tells.
--   Limiter.Policy     internal/limiter/limiter.go: Policy, Normalize, Equal, Decision, deny.
--   Limiter.Window     the contract of a limiter: a log of admissions that forgets nothing.
--   Limiter.Memory     internal/limiter/memory.go: the entries on a heap, Allow with its retry
--                      loop, Peek, Keys, Reset and the cleanup of the janitor. Its children
--                      compare the code with the contract: Ordered (prune), Entry (the locked
--                      section), Tracks and Sweep (one entry), Store and Cleanup (the map),
--                      Allow (a call that is not disturbed), Decisions (a call under any
--                      interference), Trace and Limits (histories under one policy), Lowered (a
--                      limit that was lowered), Clearing and Peeks (Reset and Peek), Sessions (all
--                      of these calls in any order). Lifecycle is NewMemoryLimiter, the janitor and
--                      Close, and its child Refinement a whole life against the contract.
--   Limiter.Manager    internal/limiter/manager.go: the circuit breaker and AllowPolicy, over the
--                      interface `Backend` of the primary limiter. Circuit, Probing, Outage,
--                      Recovery and Flags treat the breaker under all interleavings, Attempts and
--                      Routing one call of AllowPolicy, Histories many calls with changes of the policy.
--                      Lifecycle is NewManager, probeLoop, Close and the accessors, and Ending what
--                      Close leaves.
--   Limiter.Redis      internal/limiter/redis.go: the Lua script as one step on a server of sorted
--                      sets, and Allow, which fills the interface `Backend`. Server states the
--                      laws of Redis' commands, Script compares one run of the script with the
--                      contract, Fleet whole histories of runs, Replies the decision
--                      that Allow makes of a reply, with the arithmetic in Delays, Peeking what Peek reports. Times in the script
--                      are milliseconds. Members and Instances treat the members that the instances
--                      make up, and NewRedisLimiter; Together joins these to histories of Allow
--                      on several instances; Serving and Closing treat the limiter inside a
--                      manager. Keys is Ping and the walks over the keys: Iteration states the laws of
--                      SCAN and DEL, Counting treats ActiveKeys, Resetting Reset. TwoKeys and
--                      InMemory are servers for the tests.
--   Limiter.Stores     internal/limiter/policystore.go and upstreamstore.go: Load, Save and Watch of
--                      what the instances share through Redis. RoundTrip states the laws of the
--                      client and of the JSON codec, and what one instance gets of another's save.
--   Metrics.Collector  internal/metrics/metrics.go: Record, with the totals, the ring of seconds and
--                      the table of clients, Series, Sweep and ResetClients. Series compares the
--                      ring with the counts of Tallies, Clients treats the cap on the table, and Rows
--                      whole histories of the table.
--   Metrics.Views      the rest of internal/metrics/metrics.go: Clients and Snapshot. Busiest says
--                      which rows are shown.
--   Metrics.Hub        internal/metrics/hub.go: subscribers as objects on a heap, channels as
--                      bounded queues. Lifecycle, Delivery, Closing and Stream prove its laws, and
--                      Calls treats its calls in any order.
--   Api                internal/api: Auth is the guard of the control plane (auth.go). From api.go,
--                      Requests decodes the bodies and runs the change of the policy, with its
--                      handler in Policies, where Overlapping treats two requests at once; its
--                      children Asking and Policies say what a body asks for and gets; Servers is New
--                      and the answers that only show something; Upstreams is the upstream as the control plane shows and
--                      changes it, and Changes what a change does; Clients the table of clients
--                      and its reset, with Clearing; Routes the table of routes; Documents the
--                      documents of the views.
--   Api.Stream         internal/api/sse.go: the handler of one live stream and the broadcaster, over
--                      the hub. Wire reads back what is written, Lifetime treats one stream, Shutdown
--                      how the streams end, Broadcasting the broadcaster.
--   Dashboard          internal/dashboard/dashboard.go: where the page is mounted. Patterns and Mounting
--                      compare its patterns with those of the control plane.
--
-- State is passed explicitly; a critical section is one step. Where a goroutine can be overtaken
-- between two steps of a call, the model takes the interference as an argument (`others`) or orders
-- the steps in a schedule. A panic is `none`. Readings of the clock are arguments.
--
-- Bounds: the retry loop of Allow is a recursion on the eight retries that the code allows, so it
-- needs no other fuel. Theorems about time assume instants from 1970 up to 2 ^ 62 ns (the year
-- 2116), where int64 nanoseconds do not wrap; theorems about counters say how many steps they cover.
--
-- The walks over the keys of Redis are recursions on fuel, a unit for each round; the laws of SCAN
-- say that an iteration comes round within some number of rounds while the server holds no more keys
-- than a bound, and a fuel above that number is enough.
--
-- Not modelled: logging, HTTP and JSON, tickers, the embedded page, the
-- capacity of slices, the arithmetic of floating point, the monotonic part of Go's clock readings, and
-- the package proxy, whose source is not in the repository.
pub mod Prelude
pub mod Api
pub mod Config
pub mod Dashboard
pub mod Limiter
pub mod Metrics
