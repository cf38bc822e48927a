-- ===== src/Lib.antt =====
-- A model of the core of gomind, a Go framework for agents and tools, with the properties
-- that make it correct. Paths below are from the repository's root.
--
-- The parts and the files that model them:
--
-- - core/errors.go: the sentinel errors, `FrameworkError` and the classes of errors, in Core/Errors.
--   An error is its chain of wrapped errors, which is what `errors.Is` sees.
-- - core/memory_store.go, `MemoryStore`: Core/MemoryStore, with MemoryStore/Refinement (a key holds its
--   last write) and MemoryStore/Reports (the reports to the registry of metrics).
-- - resilience/circuit_breaker.go, `SlidingWindow`: Resilience/Window has its state and operations
--   (`rotateBuckets` is `rotate_buckets`, and so on), Window/Shape and Window/Recording the
--   well-formedness of the ring, Window/Counting what `GetCounts` counts.
-- - resilience/circuit_breaker.go, `CircuitBreaker`: Resilience/Breaker. Breaker/Config has the
--   configuration and `Validate`, Breaker/State the record, the constructor and
--   `transitionToUnlocked`, Breaker/Evaluation has `evaluateState` and `completeExecution`,
--   Breaker/Execution `startExecution` and `ExecuteWithTimeout`, Breaker/Control the manual
--   controls, the metrics, the cleanup of orphans and the older interface. Breaker/History has the
--   steps of a breaker and their sequences. The proofs are in Breaker/Soundness and Breaker/Safety
--   (invariants), Breaker/Admission, Breaker/Opening, Breaker/Lockout with Breaker/Testing and
--   Breaker/Exhaustion, Breaker/Legacy and Breaker/Construction.
-- - resilience/retry.go, `RetryExecutor`: Resilience/Retry, with Retry/Rule (the rule of the loop),
--   Retry/Attempts (the outcome of a run), Retry/Delays (the waits) and Retry/Guarded (the retry of a
--   call behind a circuit breaker).
-- - telemetry/circuit.go, `TelemetryCircuitBreaker`: Telemetry/Circuit, with Circuit/Laws and
--   Circuit/Recovery.
-- - telemetry/cardinality.go, `CardinalityLimiter`: Telemetry/Cardinality, with Cardinality/Bound.
-- - telemetry/ratelimiter.go, `RateLimiter`: Telemetry/RateLimiter, with RateLimiter/Spacing.
-- - orchestration/workflow_dag.go, `WorkflowDAG`: Orchestration/Dag, with Dag/Names (names in lists),
--   Dag/Levels (the levels of execution), Dag/Ready (the nodes that may run), Dag/Marks (a change of
--   one status) and Dag/Skipping (the spread of a failure). Dag/Validation has `Validate` and
--   `hasCycleDFS`, with Validation/Walks (walks along the dependents), Validation/Searching and
--   Validation/Calls (the search), Validation/Deciding (the verdict), Validation/Links and
--   Validation/Building (the dependents that `AddNode` makes) and Validation/Adding. Dag/Reports has
--   the topological order, the statistics and the copy, and Dag/Topological the end of the former.
-- - orchestration/workflow_engine.go, `WorkflowEngine`: Orchestration/Engine, the execution of one
--   step, with Engine/Backoff (the waits) and Engine/Steps (what a completed step has done);
--   Engine/Workflow, the validation of a workflow and `buildDAG`, with Workflow/Building and
--   Workflow/Outcome; and Engine/Run, the moves of `executeDAG` and its workers. Run/Counting and
--   Run/Statuses have the vocabulary of the proofs, Run/Failing what a failure changes, Run/Looking
--   which nodes are ready, Run/Stuck that some node is ready or all have ended where none runs,
--   Run/Invariant what every state keeps,
--   Run/Placing, Run/Processing, Run/Submitting and Run/Choosing that each move keeps it, Run/Fresh
--   the graph at the start, Run/Returning how a run ends, and Run/Finishing the results.
-- - orchestration/executor.go, `SmartExecutor`: Orchestration/PlanExecutor, the loop of `Execute`, with
--   PlanExecutor/Missing (the steps that are left), PlanExecutor/Rounds (the rule of the loop),
--   PlanExecutor/Dependencies and PlanExecutor/Coverage.
-- - orchestration/orchestrator.go, `parsePlan` up to the JSON decoder: Orchestration/PlanText, with
--   PlanText/Scan (the search for the end of an object), PlanText/Cleaning and PlanText/Extraction.
-- - orchestration/hitl_*.go, the checkpoints that wait for a human: Orchestration/Hitl has the data of
--   hitl_interfaces.go and the statuses of hitl_helpers.go, Hitl/Store the checkpoint store,
--   Hitl/Controller `DefaultInterruptController`, Hitl/Expiry the expiry processor, Hitl/Policy
--   `RuleBasedPolicy` and Hitl/History the operations in sequence. The proofs are in Hitl/Lifecycle
--   (what a status may become), Hitl/StoreMoves, Hitl/Moves and Hitl/ExpiryMoves, in Hitl/Commands and
--   in Hitl/Guards.
--
-- How they interact: the workflow engine builds a graph from a workflow, validates it, and runs
-- its steps as the graph makes them ready; what a step answers changes the graph. The breaker owns
-- a window, which it rotates and fills when an execution completes, and reads when it evaluates
-- its state; it classifies errors by Core/Errors. The retry loop calls a function that may be
-- guarded by a breaker. The controller of humans' commands and the expiry processor share the
-- checkpoint store.
--
-- Conventions. A method that changes an object returns the new record. Each operation is a step at
-- one reading of the clock, which its argument `now` gives in nanoseconds since a fixed origin;
-- several readings within an operation are one. Concurrent executions are interleavings of such
-- steps: the two ends of an execution are steps of their own. A compare-and-swap loop succeeds at
-- once, as it does when nobody interferes. A panic of Go's runtime is `none` (Base/Panic). An
-- `int`, a `time.Duration` and a signed counter are integers (Base/Int), with the wrap-around of
-- `int32`, `int64` and `uint64` counters written out; other `int` and `time.Duration` values do not
-- wrap, but the waits of a workflow's step do. Floating point is an interface (Base/Float) whose
-- operations are unspecified parameters. `startExecution` calls itself after a transition: the
-- model gives it two calls, which are enough.
--
-- The recursion of `markDependentsSkipped` has as its fuel one more than the number of pending
-- nodes: each call but the first follows the skipping of one. `GetExecutionLevels` has one round
-- more than there are nodes: each round but the last processes one. `hasCycleDFS` may call itself to
-- a depth of one more than there are nodes: each call visits a new one. `GetTopologicalOrder` has as
-- many rounds as there are nodes: none is put into its queue twice. The loop of a plan's `Execute`
-- has one round more than there are steps: each round but the last executes or skips one. A Go map
-- is a list of entries.
--
-- What a plan's step or a workflow's service does, the discovery, the human approvals, timers and
-- contexts are parameters: functions of a state of any type. So are Redis, the regular expressions
-- and the trimming of texts, with what the code relies on as hypotheses.
--
-- A run of a workflow is a sequence of moves of its goroutines, in any order; the two channels hold
-- 100 entries each, and five workers start. A move calls at most one method of the graph, which holds
-- the graph's lock: the three questions of the submitting loop are three moves. A mark in the graph
-- and the status in `execution.Steps` that is set beside it are one move. A map to booleans is the
-- list of its true keys.
--
-- Not modelled: of a run of a workflow, what still happens after `executeDAG` has decided to return,
-- the outputs of the steps, the state store and the metrics; logging, the texts of error messages and
-- stack traces, the cache of error type names and the names in the collector's events, the collector's
-- and the listeners' own code (what they are told is the breaker's list of events), the goroutines
-- themselves, and two breakers that share one configuration object.
-- Nor are the agents and tools with their HTTP servers and configuration, the discovery over Redis,
-- the emission of telemetry, the task queue, the caches, the prompts and the AI clients, and of the
-- checkpoints their creation by the checks around a step and the HTTP interface.
pub mod Base
pub mod Core
pub mod Orchestration
pub mod Resilience
pub mod Telemetry
pub mod Tests
