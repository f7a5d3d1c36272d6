-- ===== src/Lib.antt =====
-- Smart Form runs browser tasks for its users. A server plans a task and sends commands to a desktop
-- agent; the agent drives one browser page with an executor, a declarative program runner or a
-- browser-use sidecar, hands the page to a human when asked to, and reports back.
--
-- Contracts: packages/contracts/src, the types that both sides exchange. Json holds the untyped
-- payloads, Task, Artifact, Resource and Protocol the schemas of the files of those names.
-- Machine: apps/desktop/src/agent/fsm/taskMachine.ts. `advance` is the `switch` on the state,
-- `apply_global` the transitions after it, `send` both and the call of the listeners; `create`,
-- `subscribe` and `unsubscribe` are the rest of the class.
-- Lease: apps/desktop/src/agent/control-lease.ts, method by method, on the record `Authority`. A
-- token and a time are arguments, since the host makes them.
-- Database: apps/desktop/src/main/db.ts. A table is the list of its rows in the order of insertion;
-- Database.Table has the four SQL statements that the file uses. Writing the file is the caller's.
-- Orchestrator: apps/desktop/src/agent/task-orchestrator.ts. `Host` is everything outside the class:
-- page, executors, artifact loader, frames, reports, disk, clock, the parsing of URLs and dates; its
-- calls may change the host's state and may throw, and nothing is assumed of them. `State` holds the
-- fields of the class and of the lease and the database it owns. Start has startTask
-- and startExecution, Execution has controlTask, emitEvent and finishExecution, Process has
-- processCommand and the queue, Records the receipts, checkpoints and reports. Quiet, Ownership, Safety, Queue and Receipts are proofs.
-- Runner: packages/playwright-runner/src. `Page` is the page, the approval gate and the hooks, which
-- may change their state and may throw; `Run` holds the two lists that `execute` builds and `calls`,
-- a note of what was asked of page and gate. Runner.Steps has one function for each kind of step and
-- the loop; Runner.Keeps says what a call must keep for a whole program to keep it, and Approval and
-- Reads use it twice.
-- Capability: packages/capability-sdk/src/capability-bundle.ts, the checks of a bundle against its
-- reference and a task, after decoding. Capability.Checks.Scope joins them with the runner.
-- Explore: packages/explore-core/src, the normaliser of a recorded trace and the two compilers.
-- Server: apps/server/src. Server.Sessions is realtime/session-registry.ts, Server.Hub
-- realtime/realtime-hub.ts with an event for each thing that can happen to a socket; what is sent and
-- closed is noted. Server.Isolation proves that tenants are kept apart.
-- Server.Resources is resources/in-memory-resource.repository.ts with publish, activate and rollback
-- of resource.service.ts; Server.Tasks is tasks/in-memory-task.repository.ts with the listener,
-- register and dispatchControl of task-coordinator.ts. Server.Maps is the `Map` that both use.
-- Realtime: apps/desktop/src/agent/realtime-client.ts, whose outbox is that of Database. `Client` holds
-- the fields of the class, the sockets that are open and what was sent and emitted; in Realtime.Handlers
-- `Event` is all that can happen to a client, in any order, `handle` what it then does. Realtime.Quiet and
-- Realtime.Handled say what an event may change, Delivery, Commands, Flush, Left, Drain and
-- Backoff are proofs.
-- Artifacts: packages/capability-sdk/src/artifact-security.ts. `Tools` is the cryptography, the version
-- ranges and the printing that the file takes from libraries. Artifacts.Loader is
-- apps/desktop/src/agent/artifact-loader.ts, Artifacts.Trust artifact-trust.ts beside it; network, disk
-- and URLs are `Outside`. Verified, Payload and Loaded are proofs.
-- Executor: apps/desktop/src/agent/runner-executor.ts. `Phase` is what its execution awaits, `Move` what
-- the runner does next. Executor.Queue puts the queue of task-orchestrator.ts in front of it: `happen`
-- lets an operation arrive, the queue serve one, or the runner go on, in any order. Orchestrator treats
-- a call of an executor as one step; this model opens it. Invariant, Deadlock and Paused are proofs.
-- Frames: apps/desktop/src/agent/stream.ts and handleFrame of apps/web/src/App.vue. Frames has the header
-- and the page's tests, byte by byte, Frames.Streamer the streamer: a call, a timer or a screenshot is an
-- event, and they come in any order. Shown, Cut, Sent and Stopped are proofs.
-- Sidecar: apps/desktop/src/agent/sidecar-client.ts. Sidecar has its state and methods, Sidecar.Process
-- the handlers and the events, Sidecar.Environment what the process may read, Sidecar.Executor the
-- adapter of apps/desktop/src/agent/sidecar-executor.ts on top of them. The promises that were
-- settled are noted in the state. Settled, Promises, Over, Broken and ReadOnly are proofs.
-- Base has what these share: Boolean tests, lists over the native numbers, texts as code points, and
-- Exec, the methods that change an object and may throw, with rules for their invariants.
--
-- Numbers of the program that count things are natural numbers; numbers that only travel are the
-- texts they print as. No definition uses fuel: every loop of the code runs over a list. What the
-- code does between two awaited calls of one operation is one step, and the command queue serves one
-- operation at a time, as `enqueue` does.
--
-- Not modelled: the checks that the schema library makes of formats, the SQL engine and the disk,
-- Electron and Playwright themselves, the HTTP controllers, the Prisma repositories, the web
-- application but for its frames, and the Python sidecar, which are calls of libraries. Of the program's
-- own code also the planning of tasks, the scores of resources and capabilities, data profiles, the
-- policy engine, the scan of artifacts and the artifact service, and the export of records.
pub mod Base
pub mod Contracts
pub mod Machine
pub mod Lease
pub mod Database
pub mod Realtime
pub mod Orchestrator
pub mod Executor
pub mod Runner
pub mod Capability
pub mod Artifacts
pub mod Frames
pub mod Sidecar
pub mod Explore
pub mod Server
