-- ===== src/Lib.antt =====
-- Verification of the agent workspace: a control plane that runs language-model specialists for a
-- chat room and writes to GitHub, with a mobile client. The development models the parts that
-- decide what happens, and proves what they promise in the presence of crashes and concurrency.
--
-- The code awaits services: stores, the model provider, GitHub, the clock. Effects models such
-- code as a tree of service calls with exceptions; each call may be lost before or after it takes
-- effect, and `Promise.allSettled` interleaves calls in any order. A contract (Effects.Safety)
-- says which calls a program makes; Effects.Pool turns it into an invariant of the services under
-- any number of executions that start, stop at any call and interleave.
--
-- Workflow is apps/control-plane/src/workflows and the cancel route
-- (app/api/runs/[runId]/cancel/route.ts). Workflow.Types holds the data of run-workflow.ts;
-- Workflow.Checkpoints is checkpoint-service.ts; Workflow.World is the run store, the event sink
-- and the cancel transaction; Workflow.Calls are the calls and what serves them;
-- Workflow.Specialist is runSpecialist, Workflow.Schedule the two modes and the join,
-- Workflow.Finalize finalizeTerminal and resumeOutcome, Workflow.Execute executeRun.
-- Workflow.Protocol proves once which calls an execution makes, and Workflow.Guarantees what
-- follows for a run.
--
-- Agents.Config is apps/control-plane/src/agents/agent-config.ts, and Workflow.Registry is
-- resolveScheduledSpecialists, which makes the schedule of a run from its configuration. Security
-- is security/redaction.ts. Matrix is apps/control-plane/src/matrix: Matrix.Outbox are the tables
-- and the enqueueing of events/event-service.ts, Matrix.Renderer is message-renderer.ts,
-- Matrix.Worker is delivery-worker.ts, an attempt being one transaction; Matrix.Worker.Steps lets
-- attempts, undone attempts, enqueueings and changes of the other tables follow each other in any
-- order.
--
-- Agents.Injection is the detector and the policy of
-- apps/control-plane/src/agents/prompt-envelope.ts. The workflow asks it which spans a specialist
-- may see.
--
-- Github is apps/control-plane/src/github. Github.World holds the tables of
-- write-authorization.ts, approval-service.ts and mutation-command.ts as their in-memory stores
-- keep them; Github.World.GrantRows is the SQL store of the grants, which differs in the spelling
-- of repositories; Github.Gates is authorizeWriteScope, approve and checkApproval; Github.Worker
-- is mutation-worker.ts; Github.Enqueue is enqueueMutationCommand. Github.Protocol proves which
-- calls a worker makes, and Github.Guarantees what the path promises.
--
-- Events is apps/control-plane/src/events and the stream of app/api/runs/[runId]/events/route.ts:
-- Events.Service reads pages of stored events, Events.Wire writes frames and reads cursors,
-- Events.Stream is the loop, over the states in which each round finds the database. Texts holds
-- the texts that travel and the functions of JavaScript on them.
--
-- Mobile is apps/mobile/src: Mobile.RunStore is state/run-store.ts, Mobile.SseFrames and
-- Mobile.RunEvents are api/run-events.ts, the frames and the connection. A connection is a state
-- machine over what happens to it. JSON.stringify and JSON.parse are parameters. The loop over
-- the frames of a buffer runs on fuel, the length of the buffer, which is enough since each round
-- shortens it (Mobile.RunEvents.Chunks).
--
-- The retry loop runs on `maxAttempts - attempts` rounds, which is the exact number that its
-- condition leaves, so no fuel is chosen there. Regular expressions, zod schemas, SHA-256,
-- `randomUUID` and the other functions of the platform are parameters. Times are natural numbers
-- of milliseconds; a clock that runs backwards past the start of a run counts as no time passed.
--
-- Not modelled: HTTP, SQL text and row level security, encryption, sessions, the prompts of the
-- specialists, and the mobile client's screens and other requests.
pub mod Prelude
pub mod Effects
pub mod Json
pub mod Agents
pub mod Workflow
pub mod Github
pub mod Texts
pub mod Security
pub mod Events
pub mod Matrix
pub mod Mobile
