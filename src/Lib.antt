-- ===== src/Lib.antt =====
-- The A2A broker (src/): the tasks, proposals and events that the broker keeps for its workers.
--
-- Parts, and how they interact. A requester puts a task into the broker (src/core/broker.ts,
-- InMemoryA2ABroker); its policy context (src/core/policy.ts) says whether it starts blocked, until a
-- hub or an operator approves it. The assigned worker claims, starts and fails the task and sends
-- heartbeats; hubs and operators reassign, reject and cancel it; a sweep gives the tasks of lost
-- workers back to the queue, or fails them. Each change is audited, copied to the task's exchange, and
-- sent to the task's subscribers. Proposals for a change have a manager of their own
-- (src/core/proposal-lifecycle.ts), whose events go to a buffer with cursors (src/core/event-buffer.ts).
-- A remote session that is to work
-- on a task has a run in a manager of executions (src/core/execution-lifecycle.ts), and its result goes
-- back to the session that asked for it by a manager of deliveries (src/core/delivery-lifecycle.ts),
-- each with a buffer of its own. The delivery of a terminal brief has a table
-- of moves (src/core/terminal-brief-state-machine.ts). Finished tasks have records in an outbox
-- (src/core/terminal-event-outbox.ts), which notifiers fetch by a cursor and acknowledge. The HTTP
-- server asks a limiter (src/core/request-security.ts, InMemoryRateLimiter) before it serves a request.
--
-- Files:
--   Prelude: shared names; Prelude.Dict is JavaScript's Map, Prelude.Exec a method that may throw (its
--     state comes back beside the error too), Prelude.Trim the trimming of texts.
--   Broker: Types has the records of src/core/types.ts; State the broker's fields and the private
--     methods (setTaskRecord, appendAuditEvent, syncExchangeStateFromTask, writeTombstone,
--     emitTaskUpdate); Guards assertTaskOwnership and assertTaskWorker; Tasks the operations on one
--     task; Cancel the walk over a task's children and rejectTaskApproval; Requeue the sweep
--     requeueStaleTasksDetailed; Subscriptions subscribeToTask; EventIds
--     the ids of a task's updates in a stream; Operations all of them as one type of calls, and sequences of calls.
--     The proofs: Frame (what the shared closing lines change), Lifecycle (the status diagram, the
--     invariant, turns), Turns, Progress, Decisions, Cancels and Sweeps (each operation makes turns),
--     History, Claims, Recovery, Rejections; Persistence is persistState, Survival what outlives it; Numbers and Replays (the numbers of the updates);
--     Children, Walks, Descent, Trees and Descendants (the walk).
--   Proposal: Types and Manager are src/core/proposal-types.ts and src/core/proposal-lifecycle.ts; Moves,
--     Steps, Invariant, Finality and Responses have the proofs.
--   EventBuffer: src/core/event-buffer.ts; Retention, Replay, Order and Latest have the proofs, Announce
--     what the managers share: a map of records and a buffer with an event for each change.
--   Execution: Types and Manager are src/core/execution-lifecycle-types.ts and
--     src/core/execution-lifecycle.ts, Queries its searches, closeouts and subscription; Moves, Steps,
--     Invariant, Finality and Payloads have the proofs.
--   Delivery: Types and Manager are src/core/delivery-lifecycle-types.ts and
--     src/core/delivery-lifecycle.ts, Queries its searches, closeouts and subscription; Moves, Steps,
--     Validity, Invariant, Sends, Runs and Deadlines have the proofs.
--   Retention: applyRetentionPolicy of src/core/broker.ts, which drops old records when the broker starts,
--     loads a snapshot or saves everything: Records has the fields that it reads, Selection the choice
--     among old records, Policy the whole; Keeps, Safety and Evidence have the proofs.
--   RateLimit: the limiter; Spec is a limiter that keeps the whole log; Window,
--     Snapshots and Bounds have the proofs.
--   TerminalOutbox: the outbox, whose payloads are arguments. Types, Outbox, Enqueue, Acks, Restore and
--     Cursor model it; Places, Replay and Evidence have the proofs.
--   TerminalBrief, with Paths, and Policy, with Gates.
--   Each Examples module has the theorems at concrete inputs.
--
-- How the code is read. A method is a function from the state to a result and a state. A time is a
-- number of milliseconds, a deadline the text that a caller gave (how Date reads it is a parameter); the clock and the random ids are sequences that the state carries. Texts that
-- the broker composes for people are kept as templates with their values. The broker is taken without
-- repositories. persistState, which an operation calls when it has changed its records, is a step of its own
-- between the operations (Broker.Persistence): its hot path changes nothing, its full path applies the
-- retention policy. cancelTask calls it after each task of its walk; the step stands after the walk. Of a task,
-- the fields that the modelled operations only carry along are left out. What a subscriber does with an
-- update is not part of the model. The payload of an outbox record, the cleaning of its notes and
-- encodeURIComponent are arguments of the operations. Tasks with the same creation time are sorted in one fixed way.
--
-- Fuel: the walk over the children of a canceled task (cancelTaskTree) has the number of tasks plus one
-- as its fuel, since each call of it visits a task that was not visited before.
--
-- Not modelled: createTask, completeTask, updateTaskPayload and the wake plan of a task; exchanges and
-- their messages, the broker's proposals and artifacts, worker registration; snapshots;
-- the task event stream, which follows the audit events; the payload of the outbox's records; conference
-- rooms, the HTTP server, the stores, the workers and the GitHub side,
-- which are around the parts above.
pub mod Prelude
pub mod EventBuffer
pub mod Proposal
pub mod Broker
pub mod TerminalBrief
pub mod Policy
pub mod Execution
pub mod Delivery
pub mod Retention
pub mod RateLimit
pub mod TerminalOutbox
