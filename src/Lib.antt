-- ===== src/Lib.antt =====
-- The AI model gateway routes chat requests to upstream providers. This library models the parts of
-- it that decide which provider and which key a request is sent to, how often it is tried, what is
-- remembered of the providers, what is answered from the cache, which addresses may be reached, and
-- how a configuration gets to the gateway.
--
-- How the parts interact. A request for a model collects the candidates of the snapshot
-- (`collect_provider_candidates`), which the runtime state orders (`order_candidates`): it reads the
-- gates of the providers and the sticky binding of the session, and puts each class of candidates
-- into the weighted order (`order_provider_candidates`). The attempt loop (`attempt_loop`) forwards
-- the request to one candidate after another, and reports each outcome, from which the gates of the
-- next request follow. Where all candidates fail, the fallback models are tried
-- (`try_fallback_models`). Keys are handed out by the key rotator, answers are kept by the response
-- cache, and outgoing connections pass the SSRF checker. The control plane keeps a ledger of
-- configuration revisions (`Publisher`), compiles one to a snapshot and delivers it to the gateway
-- daemon, records the outcome, and saves the ledger to a state file. Its admin API is entered with
-- tokens and signed cookies (`Authenticator`). What happened to each request goes to the telemetry
-- daemon: the client buffers and sends events (`Client`), the daemon appends them to its event log
-- (`append`), and the projector brings the log's new events into the query store (`drain`).
--
--   Snapshot.antt     internal/gateway/snapshot/snapshot.go, the structures that the parts read
--   KeyRotation.antt  internal/gateway/api/key_rotation.go: `KeyRotator` and all its methods
--   Routing.antt      internal/gateway/api/routing.go, and `collectProviderCandidatesForRequest` of
--                     internal/gateway/api/compat.go; Routing/Retry.antt has the retry decision
--   Attempts.antt     the attempt loop of internal/gateway/api/handler.go
--   Fallback.antt     internal/gateway/api/fallback.go
--   Runtime.antt      internal/gateway/api/runtime_state.go: the state of the providers, its gates,
--                     and the sticky sessions; Runtime/Candidates.antt has `orderCandidates`,
--                     Runtime/Snapshots.antt `ApplySnapshot` and what hands out its rotators
--   Cache.antt        internal/gateway/cache/cache.go
--   Queue.antt        internal/gateway/queue/queue.go, as a step relation over its goroutines
--   Ssrf.antt         internal/proxy/ssrf.go
--   PathSecurity.antt internal/pathsecurity/pathsecurity.go
--   Limiter.antt      internal/gateway/ratelimit/limiter.go
--   Auth.antt         internal/infra/auth/cookie.go
--   TelemetryClient.antt  internal/gateway/telemetry/client.go, its goroutines as a step relation in
--                     TelemetryClient/Steps.antt
--   Telemetry.antt    internal/telemetry/eventlog/log.go; Telemetry/Store.antt has the transaction of
--                     internal/telemetry/query/store.go, Telemetry/Projector.antt has
--                     internal/telemetry/project/worker.go
--   Publish.antt      internal/control/publish/publisher.go and state_store.go. Publish/Ledger.antt,
--                     Edits.antt, Compiling.antt, Upstreams.antt, Releases.antt, Views.antt and
--                     FileStore.antt have the operations, the other children the proofs about them
--   Base.antt         shared names and lemmas; Tests.antt the theorems at concrete inputs
--
-- Every method that holds the mutex of its object is one function from the old state to the new one
-- and the result; a `nil` receiver is left out. Go's maps are association lists (Base/Maps.antt),
-- `int` fields that may be negative are integers, times are nanoseconds since the zero time. The
-- clock is an argument. What the code calls and is not modelled (the forwarding of a request, the
-- compatibility plan, the packages net, net/url, os and yaml, the letter cases) is a parameter, and so
-- are the compilers that the publisher calls (`Environment` of Publish.antt); what a compiler leaves of
-- the configuration that it is given is one of their operations (`leaves`). A database is its
-- tables, with an oracle for the statements that fail; floating-point numbers are a parameter of the
-- limiter (`Floats`), and elsewhere only passed on.
--
-- Fuel. The attempt loop runs each inner loop on fuel, of which 21 rounds are enough, since at most
-- 20 attempts are made; the loops of `Put` and `ensureSize` run on the length of the list, which
-- each round shortens. Drain runs on fuel, of which one pass more than the log has rows is enough.
-- All other loops are structural.
--
-- Not modelled: the translation between the protocols of the upstreams, streaming, the queries
-- of telemetry, pricing, the control plane's compiler and API, the updater, the command line and the
-- web console. Of runtime_state.go the rate limiter (floating point) and the health report, and of
-- cache.go the sweeping goroutine and the hash of `MakeKey`, are left out.
pub mod Base
pub mod Snapshot
pub mod KeyRotation
pub mod Limiter
pub mod Routing
pub mod Attempts
pub mod Auth
pub mod Cache
pub mod Runtime
pub mod Ssrf
pub mod Telemetry
pub mod TelemetryClient
pub mod Fallback
pub mod PathSecurity
pub mod Publish
pub mod Queue
pub mod Tests
