-- ===== src/Workflow/Protocol.antt =====
-- The protocol of `executeRun`: which calls an execution makes. It is proved once, part by part, in
-- the modules below; what the workflow promises of a run follows from it.
pub mod Parts
pub mod Attempts
pub mod Schedules
pub mod Run
use matrix_agent_workspace.Prelude.{
  ℕ, ◌≤◌, String, Bool, true, false, Option, none, some, List, [], ◌∷◌, map, length, ◌≡◌, ◌≢◌,
}
use mathlib.Core.List.{Perm}
use matrix_agent_workspace.Effects.{Contract}
use matrix_agent_workspace.Agents.Injection.{
  InjectionPattern, UntrustedSpan, AppliedInjectionPolicy, PolicyResult, applied,
  apply_prompt_injection_policy,
}
use matrix_agent_workspace.Workflow.Types.{
  TerminalRunStatus, RunMode, ScheduledSpecialist, SpecialistRuntimeInput,
  SpecialistProviderRequest, WorkflowOptions, TerminalSummary, EventType,
}
use matrix_agent_workspace.Workflow.Calls.{
  Call, Reply, append, finalize, save_checkpoint, save_specialist_result, complete,
}
use matrix_agent_workspace.Workflow.Schedule.{base_input, fails_run}

-- The event that a terminal transition emits, and the test for such an event.
abbrev pub terminal_event : TerminalRunStatus → EventType
terminal_event TerminalRunStatus.completed = EventType.run_completed
terminal_event TerminalRunStatus.partial = EventType.run_partial
terminal_event TerminalRunStatus.failed = EventType.run_failed
terminal_event TerminalRunStatus.cancelled = EventType.run_cancelled

abbrev pub is_terminal_event : EventType → Bool
is_terminal_event EventType.run_completed = true
is_terminal_event EventType.run_partial = true
is_terminal_event EventType.run_failed = true
is_terminal_event EventType.run_cancelled = true
is_terminal_event _ = false

abbrev pub scheduled_id : ScheduledSpecialist → String
scheduled_id spec = spec.specialist_id

-- What a terminal transition claims about the run.
pub record EndsWell (opts : WorkflowOptions) (status : TerminalRunStatus)
    (summary : TerminalSummary) (type' : EventType) : Type 0 where
  pub event : type' ≡ terminal_event status
  pub same_status : summary.status ≡ status
  pub all_completed :
      status ≡ TerminalRunStatus.completed
      → (summary.failed_specialists ≡ [])
        × Perm summary.completed_specialists (map scheduled_id opts.specialists)
  pub some_failed :
      status ≡ TerminalRunStatus.partial
      → (summary.failed_specialists ≢ []) × (fails_run opts.failure_policy ≡ false)

-- The input that a specialist may get: in the parallel mode the same for all, in the sequential
-- mode with one prior result at most.
abbrev pub InputFor : RunMode → WorkflowOptions → SpecialistRuntimeInput → Type 0
InputFor RunMode.parallel opts input = input ≡ base_input opts
InputFor RunMode.sequential opts input =
    (input.prompt ≡ opts.prompt) × (length input.prior_results ≤ 1)

module _ (test : InjectionPattern → String → Bool) (opts : WorkflowOptions)
    (May : ScheduledSpecialist → Type 0) where
  -- A request to the provider: it is composed for a specialist that may run, with that specialist's
  -- own tools, from an input of the mode and from the spans that the injection policy kept.
  pub record SentRequest (req : SpecialistProviderRequest) : Type 0 where
    pub spec : ScheduledSpecialist
    pub may : May spec
    pub input : SpecialistRuntimeInput
    pub policy : AppliedInjectionPolicy
    pub screened :
        apply_prompt_injection_policy test opts.untrusted opts.prompt_injection_mode
        ≡ applied policy
    pub for_mode : InputFor opts.mode opts input
    pub id : req.specialist_id ≡ spec.specialist_id
    pub system : req.system ≡ (spec.compose_prompt input policy.kept_untrusted).system
    pub prompt : req.prompt ≡ (spec.compose_prompt input policy.kept_untrusted).prompt
    pub tools : req.tools ≡ spec.tools_allowlist
    pub key : req.execution_key ≡ opts.execution_key

  abbrev pub Allowed : Call → Type 0
  Allowed (append type' payload) = is_terminal_event type' ≡ false
  Allowed (finalize status summary type' payload) = EndsWell opts status summary type'
  Allowed (save_checkpoint k state expected) = expected ≡ 0
  Allowed (complete req) = SentRequest req
  Allowed _ = Unit

  abbrev pub protocol : ((c : Call) → Option (Reply c) → Type 0) → Contract Call Reply
  protocol Answers = record { allowed = Allowed; answers = Answers }
