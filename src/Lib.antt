-- ===== src/Lib.antt =====
-- tsserve: verification of the discovery watchers, the service manager and the reverse proxy.
--
-- tsserve finds backends (labelled containers of Docker and ECS, tagged Lambda functions) and serves each named
-- service on a Tailscale listener, over a pool of backends. A watcher drives a registrar; the registrar is the
-- manager, which opens a listener for a service's first backend and closes it after the last one; the listener's
-- reverse proxy sends each request to a member of the pool. Paths below are from the repository's root.
--
-- Parts:
--   Base: lists, maps, texts, decimal numerals, results and the gauge's integers. A Go map is an association
--     list with one entry for a key; its order stands for the order of iteration.
--   Labels: labels/labels.go. Parse, ValidateService, ParseCaps.
--   Proxy.Backend, Proxy.Pool: proxy/pool.go, with the round-robin position in 64 bits.
--   Proxy.Caps, Proxy.State, Proxy.Manager: proxy/manager.go. A pointer to a service record is its number in a
--     store; each function of Proxy.Manager is one critical section of Manager.mu, and `none` is a panic (a
--     channel closed twice).
--   Proxy.Goroutine: the calls of the manager as goroutines. `advance` moves one goroutine by one step: a
--     critical section, a wait, or a call inside the serve-config lock. Reach is every interleaving, from a
--     new manager, of calls that are disciplined: a backend carries its key, and no key is registered by two
--     goroutines at once. The Serve of a record may return at any step, and closes its listener. What the steps
--     keep is in Safety and below; Promises draws the properties from it.
--   Proxy.Calls: RegisterHostPort, RegisterFunction and Snapshot.
--   Proxy.Alone: the calls of the manager from start to end when no other call runs, and their specification as a
--     map of keys to the backend in service, with its service, scheme and capabilities.
--   Proxy.Transport, Proxy.Identity: proxy/reverseproxy.go. RoundTrip over the pool, and the headers that
--     Rewrite sets. What a backend answers is an argument, as is the resolver of peers.
--   Proxy.Invoker: proxy/invoker.go. The results of JSON, base64 and Invoke are arguments.
--   Discovery: the registrar's contract, the books that the three watchers keep alike, and the loop over the
--     pages of a listing.
--   Ecs: ecs/. The caches, the resolution of a container's address, the accounts, the readers' registry, and
--     the watcher's cycle. The AWS API is the record Api, which answers for one cycle.
--   Lambda: lambda/. A function's tags, the accounts, and the watcher's cycle.
--   Docker: docker/watcher.go. Events and sweeps.
--   Certs: certsync/certsync.go. The names of the mirrored files (Names, Keys), the restore (Hydrate), the sweep
--     (Sweep) and the event loop (Loop). The S3 client is the record S3Api, and Contract is what the code relies on.
--     A failing call of the file system is one that Faults names; the directory does not change during a restore
--     otherwise.
--   Startup: main.go. The checks of the configuration, and what the watchers' results become. Startup.Adapter is the
--     registrar adapter between a watcher and the manager, whose calls run alone, as a single watcher makes them.
--     Kind says what a registration asks the manager to serve; Contract and Leave show that the manager serves
--     what the adapter has registered, and Driven that the calls are main.go's.
--     Startup.Readers starts the readers of ECS (EcsMode) and Lambda (LambdaMode), and Startup.Modes the discovery
--     modes from the environment; what the SDK makes of a configuration, and the parser of durations, are arguments.
--     Startup.Daemon is what follows: the watchers end, the modes report and the coordinator reads, in any order of
--     these events.
--   Metrics: metrics/metrics.go. The middleware that counts one service's requests, over the calls that the wrapped
--     handler makes.
--   Local: local/. The rows of the status page, the traefik port, and the routes of the tailnet mux.
--   Tests: concrete runs.
--
-- Fuel: a loop over pages takes a number of passes. Listing and Passes show that as many passes as there are
-- pages are enough. Every other loop is by recursion on a list. itoa prints at most 20 digits, which 64 bits need.
--
-- Not modelled: log lines, timers and clocks; dialling, TLS and the HTTP servers; templates, the export of the
-- collectors, and what remains of main.go, which wires what is modelled here. The SDKs and the daemon are arguments.
pub mod Base
pub mod Certs
pub mod Metrics
pub mod Local
pub mod Labels
pub mod Proxy
pub mod Discovery
pub mod Ecs
pub mod Lambda
pub mod Docker
pub mod Startup
mod Tests
