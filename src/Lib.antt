-- ===== src/Lib.antt =====
-- The prober: agents at several sites trace the path to a target, and a backend starts such jobs,
-- collects their events and shows them in a browser.
--
-- Parts and files:
--   * Prelude: numbers, lists, integers, maps, Boolean tests and picks from a list that the parts share.
--   * Netip: Go's net/netip addresses, as far as the code uses them.
--   * Trace/Spec: internal/trace/spec.go. `normalize` is `Spec.Normalize`; a failed
--     check is an `err` of its own constructor. Spec/Bounds has the proofs.
--   * Trace/Stats: internal/trace/stats.go with the `Hop` and `HopAddress` of event.go. Floating-point
--     numbers are terms over the Go operations, which no theorem evaluates.
--   * Trace/Parse: internal/trace/parse.go, `parseReply` and `innerKey`; Parse/Quotes has the datagrams that errors
--     quote. Trace/Engine: `register`, `owner`, `allocID` and the read loop of engine.go; Engine/Deliveries has
--     the proofs.
--   * Trace/Probe: the probe keys and replies of internal/trace/engine.go.
--   * Trace/Session: internal/trace/session.go, the run of one trace. State has the session, cycle and
--     probe records (`session`, `cycleState`, `probe`), `newSession`, `hop` and `settle`; Report has
--     `report`, `tryEmit`, `forceEmit` and `flush`; Sending has `ttlsForCycle`, `sendDue`, `endCycle` and
--     `send`; Receiving has `handleReply`, `expire` and `cleanup`; Loop has `run`. Ledger, Invariant,
--     Emits, Kept, Phases, Begin, Sends, Rounds, Runs, Events and Endings have the proofs, from the map of
--     open cycles up to whole runs.
--   * Backend/Run: internal/backend/run.go, the run of a target at several sites. Replay, UnderWay, Sends,
--     Completion and Sites have the proofs.
--   * Backend/Config: internal/backend/config.go, the configuration and `validate`. Config/Checks,
--     Config/Monitors, Config/Agents and Config/Validity say what it accepts.
--   * Backend/Registry: internal/backend/monitor.go, the monitors and the assignment of each site, with
--     `protoOf`, `familyOf` and `sipTransportOf` of http.go. Registry/Assignments has the proofs.
--   * Backend/Gateway: internal/backend/gateway.go, the connections, `authSite` and the dispatch of jobs and
--     events. Gateway/Authentication, Gateway/Connections, Gateway/Frames and Gateway/Routing have the
--     proofs.
--   * Agent/Jobs: the limits, `jobTable`, `sequence` and `startJob` of internal/agent/agent.go. Jobs/Table has
--     the proofs.
--   * Agent/Scheduler: internal/agent/scheduler.go; Scheduler/Schedule has the proofs.
--   * Api: the messages of the generated API that the agent sends and the backend reads.
--   * Backend/Sink: internal/backend/monitorsink.go, the results of monitors. State has `MonitorSink` with its
--     entries, `staleAfter`, `forgetAfterFor`, `keepLocked` and `forgetLocked`; Stream has the aggregates,
--     `refresh`, `Sweep`, `Subscribe` and `Retain`; Events has `OnMonitorEvent` with its handlers. Changes,
--     Handlers, Subscribers, Readers, Channels and Delivery lead to what a subscriber sees; Aggregates and
--     Windows say what the aggregates and the windows of time are.
--   * Auth: internal/auth. Config has `applyDefaults` and `validate` of config.go, Session the cookies of
--     session.go and `decodeFlow`, Claims `claimValues`, `userFrom` and `authorize`, Login the handlers
--     `login`, `callback`, `logout`, `me` and `Middleware`, and Start `New`. Cookies, Redirects, Admission,
--     Rounds, Groups and Settings have the proofs.
--   * Dns: internal/dns/dns.go. Names has `validName`, `Queries` and `ReverseName`, Reply has `parseAnswer` and
--     `exchange`, and Ask has `ask` with `result`, `outcome` and `worse`. Choice and Guard have the proofs.
--   * Vlog: internal/vlog/client.go, `Write` and the loop of `Run`; Vlog/Batches has the proofs.
--   * Sip: the `Spec` of internal/sip/sip.go with `normalize`, and `sipSpecFromProto` of
--     internal/agent/sipconvert.go as `startSip` of agent.go calls it; Sip/Defaults has the proofs.
--   * Trace/Tests, Trace/Engine/Tests, Sip/Tests, Vlog/Tests, Dns/Tests, Backend/Tests, Backend/Sink/Tests,
--     Auth/Tests and Agent/Tests run the definitions and the theorems on small inputs.
-- The backend's registry makes the assignments that the agent's scheduler applies, and its runs start the
-- jobs whose events an agent sends.
--
-- A trace session: a probe is an entry of a heap that the queue and the map of probes point into, since
-- the Go code shares it between both. Operations that index a map or a slice give `panic` where Go would
-- panic, and a failed send gives `fatal`. What a send came to is the `Outcome` of its number, an argument;
-- what the loop waits for is a list of `Turn`s, each the clock that it reads, the names resolved by then and
-- what woke it: a reply, the timer, or the cancellation, once `select` takes it. The turn that reads its clock before a send is due calls `sendDue` all the same, which
-- then does nothing. Durations count nanoseconds and are not bounded; the sequence number of ICMP probes
-- wraps at 2 ^ 16.
--
-- Loops: `try_emit` has one round for each open cycle, and a round closes one; `force_emit` has one for
-- each cycle number up to its argument; `send_due` has (cycles + 1) * (max TTL + 2), more than the
-- probes and cycles that remain.
--
-- A backend run: a subscriber's channel is the list of the events in it, of at most 256. Each operation is
-- one step, as it is under the lock of the run. The sends of `emit`, which the code makes after it has
-- unlocked, are steps of their own, in any order; one to a subscriber that has left gives `none`, since it
-- panics. `Start` is modelled as a whole, with what the gateway answers for each site.
--
-- An agent: a job's handle and a monitor's goroutine are numbers, used once. `startJob` is two steps, the test
-- of the limit in `begin_job` and the rest in `register_job`; an event is numbered in one step and sent, or not
-- taken by the stream, in another. The counters of events and versions, uint64s that go up by one, are
-- not bounded, in the backend as in the agent.
--
-- The sink: an entry of a monitor at a site is in a heap that both maps of the sink point into, as the Go code
-- shares it. A handler of an event, which takes the sink's lock several times, is one step, and so are a
-- sweep and a reload. A subscriber's channel holds at most 1024 events; one whose channel is full leaves.
-- Metrics and log records are kept as lists of what was done to them.
--
-- Signing in: the provider, the message authentication code, base64 and JSON are parameters, with the laws
-- of base64 as a hypothesis and what JSON reads back as one for the values at hand. A handler is a function
-- of what it reads of a request to its answer and the cookies that it sets.
--
-- A lookup: what the parser of golang.org/x/net gives for a reply is a `Message`, and what a nameserver does in
-- an attempt, with whether the context has ended before it, comes from a `Network`. A question that could not
-- be built asks nobody. The order of addresses is a parameter. Names are compared as `strings.EqualFold` does when
-- one of the two is ASCII, as the names that are asked for are.
--
-- The log client: a step is a record written, one received by the loop, or a tick; after the last step the
-- context is cancelled. A batch counts as posted when it is handed to `post`.
--
-- Not modelled: sockets, the parser of ICMP messages and the reverse DNS cache (internal/trace/engine.go,
-- rdns.go), since they are I/O; the interfaces of the backend (http.go, webui.go, server.go), the loops of
-- the gateway and the agent around their gRPC streams; the conversions of internal/agent/convert.go and
-- dnsconvert.go, and those of sipconvert.go but `sipSpecFromProto`; the exchanges of the SIP probe, which are
-- a library's; the reading of resolv.conf, the sockets of a lookup and the cache of SRV targets; the collector
-- of prober_monitor_info and the registration of metrics; the routes and the bodies of internal/auth; the
-- posting and the queries of internal/vlog; and generated code.
pub mod Agent
pub mod Api
pub mod Auth
pub mod Backend
pub mod Dns
pub mod Netip
pub mod Prelude
pub mod Sip
pub mod Trace
pub mod Vlog
