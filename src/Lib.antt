-- ===== src/Lib.antt =====
-- A model of the saga engine: runs of workflow definitions, advanced step by step, paused, woken,
-- retried, compensated and cancelled, over the in-memory store.
--
-- The parts, and the files of the repository that they model:
-- - Prelude: what all modules share. Maps are association lists; a method that changes a state and
--   may fail is a function `S → Result A × S`, so what was written before an error stays written.
-- - Domain (domain/*.go): the records and constants. `any` values are the data type Value.
--   RunState, SagaRun, Step and WorkflowDefinition have the source's fields; a UUID and a time are
--   numbers, and UUIDs are compared by byte order as the numbers are.
-- - Store (store/memory/*.go): one function per method under the method's name, on the record of the
--   tables. A method holds the mutex from its first read to its last write, so it is one step; Cancel and
--   FailAction release it before they append their audit event, which is a step of its own.
--   Store.Listings has the filtered listings and statistics, Store.Rules and Store.Triggers those
--   tables, and Store.Sorting the sort by insertion that several methods do in place.
--   Store.Histories makes the methods that write runs into calls that may follow each other in any
--   order.
-- - Runtime: the store together with the messages sent so far, and the services that the engine
--   calls but does not implement (the clock, fresh ids, ctx.Err, the publisher and the dispatchers,
--   the license resolver, CEL, parsing and printing). They are arguments, the fields of Env, and may
--   answer anything; what they answer may change from call to call.
-- - Verbs (engine/verbs/*.go): one function per verb, and the join condition of join_shared.go that
--   the join verb and the hooks of the engine share. Verbs.Fan has parallel, Verbs.Foreach
--   foreach, Verbs.Collections merge, filter and map, Verbs.Inputs collect_input, and Verbs.Decision
--   the decision verb with the tables of internal/rules/rules.go that it asks.
-- - Engine (engine/advance.go, retry.go, compensation.go, coordinator.go): the retry loop around a
--   verb, the rollback, the hooks on a child's end, Cancel, and the advance loop that calls them.
--   Engine.Registry is the table of verbs that the program builds (engine/verbs/registry.go).
--   Advance is spread over Engine.Resume (a paused run), Engine.Failure (the ends of a run) and
--   Engine.Advance (a step, and the loop). Engine.Keeps, Engine.Place and Engine.Descent have
--   predicates on code: what it leaves as it is, and how far along its workflow it takes a run.
-- - Engine.Locks (engine/runlock.go): the table of the locks that serialise the advances of one run,
--   with the pointers that goroutines hold, and the interleavings of any number of goroutines.
-- - Engine.Dispatchers (engine/timer.go, event_subscriber.go, trigger_dispatcher.go,
--   cron_dispatcher.go, startup_variables.go): one tick, delivery or poll each.
-- - Engine.Validation (engine/validate.go): the checks on a definition before it is published.
-- - Examples: concrete services, an order workflow, and the theorems at work on them.
--
-- Verbs, engine and dispatchers reach the store through its methods only. The engine finds a verb in
-- the table of Coordinator, so a theorem on the engine holds for any verbs. Dispatchers and engine
-- meet in the outbox: an advance message is what makes the coordinator advance a run.
--
-- Bounds: the retry loop recurs on the attempts that are left, the number that executeStep starts
-- with, so it needs no fuel. The advance loop takes fuel, since a workflow may go round for ever. On a
-- workflow whose edges go down in some numbering, more fuel than the number of the run's step is
-- enough, since each turn that goes on takes a smaller one. Other results on the loop are on one turn,
-- or hold for every amount of fuel from one turn on. Signed integers are unbounded, and a float64 is
-- modelled where it is a whole number.
--
-- Not modelled: logging, tracing and telemetry; JSON encoding, whose payloads are data; the SQL
-- and Redis stores; the length of a wait between two attempts (Backoff, in float64); the HTTP and
-- gRPC interfaces and the clients; the loops of the dispatchers, which wait on channels, and the
-- parser of cron schedules; the verbs that call HTTP or message clients. Engine.Locks and
-- Engine.Advance are not put together: the advance loop is modelled as one advance of a run at a
-- time.
pub mod Prelude
pub mod Domain
pub mod Store
pub mod Runtime
pub mod Verbs
pub mod Engine
pub mod Examples
