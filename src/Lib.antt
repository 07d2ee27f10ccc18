-- ===== src/Lib.antt =====
-- The core of maintenant, a monitor for containers and services: the alert engine, the heartbeat
-- monitors, the escalation of alerts, the crash-loop detector for Docker Swarm, the results of endpoint
-- checks, the results of certificate checks, the license manager, the posture score, the spool of an
-- agent, and five pure parts: the retry delays, the grace of an update window, the risk score of an
-- update, its tags and versions, and the expected HTTP statuses.
--
-- The monitors send events to the alert engine over a channel. The engine keeps one active alert for
-- each key (source, type, entity), stores it, tells the browser and the escalation hooks, and hands
-- notifications to a notifier. The escalation runner follows the alerts that are not acknowledged, level
-- by level of a policy, over its own deliveries. The heartbeat service, the crash-loop detector and the
-- endpoint service are such monitors.
--
-- - Alert: internal/alert/engine.go and internal/alert/model.go. Model has the records; Csv the list
--   filters (splitCSV, containsCSV); Routing matchesSilenceRule, matchesTrigger and severityRank; Deps
--   what the engine is given, as a record of operations on the state behind the stores; Dispatch
--   dispatchNotifications and enqueueDelivery; Engine processEvent, escalateAlert and processRecovery;
--   Operations Acknowledge, ResolveByEntity and reloadActiveAlerts. The engine is a record of the map of
--   active alerts, the state behind the stores and the list of the effects so far. Its goroutine takes
--   one event after another, so that a run is a list of events.
-- - Heartbeat: internal/heartbeat/service.go and model.go, with the statements of
--   internal/store/heartbeats.go that the service runs. Each call of the store may fail, as a function
--   from calls to failures says. Pings has what the pings share, Transitions ProcessPing,
--   ProcessStartPing and ProcessExitCodePing on the heartbeat that is read, Service the pings by token
--   and the deadline check, and Edits every operation by id. Safety runs lists of operations.
-- - Swarm: internal/swarm/crashloop.go, with IgnoredByLabels and IsCleanExit of internal/container.
-- - Escalation: internal/commercial/escalation. Runner is runner.go: the filters of a policy and the
--   reservation of a delivery, with Hooks for the hooks that the alert engine calls and Cycle for
--   EvaluateCycle. Policies is service.go, Overlap is overlap.go, Model the records of
--   internal/alert/escalation, and Store the statements of internal/store/escalation.go on lists of
--   rows. Each call meets a record of its clock, of the other stores and of the calls that fail. Steps
--   runs lists of such calls; a call is one step, and the end of a sending is a step of its own, so that
--   a hook in the middle of a cycle is not modelled. Rows, Frame, Kept, Exclusive, Once, Stopped and
--   Levels are about such runs.
-- - Retry: internal/retry/backoff.go. License: Window is
--   internal/commercial/license/window.go, and Manager is manager.go with ResolveEdition of verifier.go:
--   Checks has its calls, each with the answer of the server and the files that fail. Update:
--   internal/commercial/updates/risk.go (Risk), enrichRisk of enricher.go beside it with its floor
--   (Risk/Enrich), and splitVariant and ClassifyUpdate of internal/update/semver.go (Semver).
-- - Posture: internal/commercial/posture/scorer.go: the sub-scores, Sum the weighted total, Threshold
--   evaluateThreshold. The operations of floating-point
--   numbers are parameters.
-- - Endpoint: Status is internal/endpoint/status.go, the status codes that an HTTP check expects; Checks
--   is ProcessCheckResult of internal/endpoint/service.go, with the thresholds of
--   internal/alert/endpoint_alerts.go.
-- - Agent: the spool of internal/agent/spool.go over spool_store.go. Store has the statements on lists of
--   rows, Queue Send and flush, Control the acknowledgements, refusals and retention, and Drain
--   drainOnce as a function from one point between two locks or calls to the next, so that Steps can run
--   the calls of all threads in any order. Frame and Ledger carry invariants through such runs, which
--   Current and Acks instantiate; Flush and Memory are about the queue and a spool without a database.
-- - Certificate: processCheckResult of internal/certificate/service.go with the rules of model.go, on one
--   monitor: Alerts is evaluateAlerts, Checks the result, the row, and what is stored and read back as
--   in internal/store/certificates.go. That keeps whole seconds; which of two results of one second is
--   read is a parameter. Latest, Thresholds, Falling and Open are about the result that is read, the
--   thresholds of an expiry and the alerts that are open.
-- - Wiring: wireLicenseSubscriber of internal/app/wiring.go, between the license manager and the
--   escalation service.
-- - Base: what the parts share: Boolean tests, byte strings, lists, maps, and signed integers.
-- - Tests: the results below at concrete inputs.
--
-- Numbers are naturals; durations and instants are nanoseconds, and seconds in Escalation. The
-- shift of the backoff is taken modulo 2 ^ 64, as in an int64; other sums are far from a bound. A
-- Go map is an association list, and a loop over one goes through its entries in the order of the
-- list. Every loop is a structural recursion, so that no bound on its steps is needed. Clocks, new
-- identifiers and the random factor of the backoff are arguments. SQL, JSON, HTTP, logging and the
-- rest of the wiring are not modelled; nor are the other monitors and the update scanner.
pub mod Base
pub mod Agent
pub mod Alert
pub mod Swarm
pub mod Heartbeat
pub mod Posture
pub mod Retry
pub mod License
pub mod Update
pub mod Endpoint
pub mod Certificate
pub mod Escalation
pub mod Tests
pub mod Wiring
