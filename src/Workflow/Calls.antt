-- ===== src/Workflow/Calls.antt =====
-- The service calls that `executeRun` awaits, their replies and its errors.
pub mod Rules
use matrix_agent_workspace.Prelude.{ℕ, String, Bool, Option, none, some, List, ◌∷◌, [], ◌++◌}
use matrix_agent_workspace.Effects.{Prog, ret, throw, op, Services}
use matrix_agent_workspace.Workflow.Types.{
  RunStatus, TerminalRunStatus, PersistedSpecialistResult, TerminalSummary, EventType, Payload,
  SpecialistProviderRequest, CheckpointKey, CheckpointState,
}
use matrix_agent_workspace.Workflow.Checkpoints
use matrix_agent_workspace.Workflow.Checkpoints.{
  CheckpointRecord, SaveResult, saved, lost, conflict,
}
use matrix_agent_workspace.Workflow.World
use matrix_agent_workspace.Workflow.World.{World}

-- What `provider.complete` settles with: a text, or one of the provider's typed errors.
pub data ProviderReply : Type 0 where
  text : String → ProviderReply
  transient timeout permanent : ProviderReply

pub data Call : Type 0 where
  get_status begin_run load_specialist_results get_summary is_cancelled : Call
  now random abort : Call
  finalize : TerminalRunStatus → TerminalSummary → EventType → Payload → Call
  save_specialist_result : PersistedSpecialistResult → Call
  save_checkpoint : CheckpointKey → CheckpointState → ℕ → Call
  load_checkpoint : CheckpointKey → Call
  append : EventType → Payload → Call
  sleep : ℕ → Call
  complete : SpecialistProviderRequest → Call

abbrev pub Reply : Call → Type 0
Reply get_status = Option RunStatus
Reply begin_run = Option RunStatus
Reply load_specialist_results = List PersistedSpecialistResult
Reply get_summary = Option TerminalSummary
Reply is_cancelled = Bool
Reply now = ℕ
Reply random = ℕ
Reply abort = Unit
Reply (finalize s t e p) = Option RunStatus
Reply (save_specialist_result r) = Unit
Reply (save_checkpoint k s v) = SaveResult
Reply (load_checkpoint k) = Option CheckpointRecord
Reply (append e p) = ℕ
Reply (sleep ms) = Unit
Reply (complete r) = ProviderReply

-- The errors that the code throws or catches; `crash` is any other, which ends the execution.
pub data Exn : Type 0 where
  workflow_cancelled run_not_found checkpoint_conflict crash : Exn
  run_timeout : ℕ → ℕ → Exn
  provider_transient provider_timeout provider_permanent output_invalid : Exn

abbrev pub W : Type 0 → Type 0
W A = Prog Call Reply Exn A

-- `await service.call(…)`.
unfoldable pub await : (c : Call) → W (Reply c)
await c = op c (λ r. elim r [ none ↦ throw crash | some a ↦ ret a ])

-- Where the outside comes in. A call may be lost before it reaches the service, or after.
pub data Fault : Type 0 where
  no_fault lost_before lost_after : Fault

pub record Input : Type 0 where
  pub clock : ℕ
  pub random_bits : ℕ
  pub model : ProviderReply
  pub fault : Fault

-- A call that reaches the service.
abbrev pub serve : Input → (c : Call) → World → Reply c × World
serve i get_status w = (w.status, w)
serve i begin_run w = World.begin_run w
serve i load_specialist_results w = (World.load_specialist_results w, w)
serve i get_summary w = (w.summary, w)
serve i is_cancelled w = (w.cancel_requested, w)
serve i now w = (i.clock, w)
serve i random w = (i.random_bits, w)
serve i abort w = (tt, w)
serve i (finalize s t e p) w = World.finalize s t e p w
serve i (save_specialist_result r) w = (tt, World.save_specialist_result r w)
serve i (save_checkpoint k s v) w =
    let (result, rs) = Checkpoints.save k s v w.checkpoints in
    (result, record w { checkpoints = rs })
serve i (load_checkpoint k) w = (Checkpoints.load k w.checkpoints, w)
serve i (append e p) w = let w' = World.append_event e p w in (w'.sequence, w')
serve i (sleep ms) w = (tt, w)
serve i (complete r) w = (i.model, record w { requests = w.requests ++ r ∷ [] })

abbrev pub deliver : {A : Type 0} → Fault → A × World → World → Option A × World
deliver no_fault done' before = (some done'.0, done'.1)
deliver lost_before done' before = (none, before)
deliver lost_after done' before = (none, done'.1)

unfoldable pub handle : Input → (c : Call) → World → Option (Reply c) × World
handle i c w = deliver i.fault (serve i c w) w

abbrev pub services : Services Call Reply
services = record { World = World; Input = Input; handle = handle }
