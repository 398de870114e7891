-- ===== src/Workflow/Types.antt =====
-- The data of the run workflow (workflows/run-workflow.ts): statuses, events, outcomes, options.
use matrix_agent_workspace.Prelude.{ℕ, String, Bool, Option, none, some, List}
use matrix_agent_workspace.Json.{Json, str, Fields, get}
use matrix_agent_workspace.Agents.Injection.{
  UntrustedSourceKind, UntrustedSpan, PromptInjectionMode, InjectionFinding,
}

pub data TerminalRunStatus : Type 0 where
  completed partial failed cancelled : TerminalRunStatus

-- The values of the column `runs.status`.
pub data RunStatus : Type 0 where
  queued running cancelling : RunStatus
  completed partial failed cancelled : RunStatus

-- A terminal status as the value of the column.
abbrev pub of_terminal : TerminalRunStatus → RunStatus
of_terminal TerminalRunStatus.completed = RunStatus.completed
of_terminal TerminalRunStatus.partial = RunStatus.partial
of_terminal TerminalRunStatus.failed = RunStatus.failed
of_terminal TerminalRunStatus.cancelled = RunStatus.cancelled

-- `isTerminalStatus(status)`, with the narrowed status.
abbrev pub terminal_status : Option RunStatus → Option TerminalRunStatus
terminal_status none = none
terminal_status (some RunStatus.queued) = none
terminal_status (some RunStatus.running) = none
terminal_status (some RunStatus.cancelling) = none
terminal_status (some RunStatus.completed) = some TerminalRunStatus.completed
terminal_status (some RunStatus.partial) = some TerminalRunStatus.partial
terminal_status (some RunStatus.failed) = some TerminalRunStatus.failed
terminal_status (some RunStatus.cancelled) = some TerminalRunStatus.cancelled

-- The status of one specialist's outcome.
pub data OutcomeStatus : Type 0 where
  completed failed : OutcomeStatus

pub data SpecialistRunStatus : Type 0 where
  queued running retrying completed failed : SpecialistRunStatus

pub data ErrorCode : Type 0 where
  provider_timeout provider_permanent provider_transient provider_unavailable : ErrorCode
  specialist_output_invalid : ErrorCode

abbrev pub Output : Type 0
Output = Fields

pub data RunMode : Type 0 where
  parallel sequential : RunMode

pub data SpecialistFailurePolicy : Type 0 where
  fail_run partial : SpecialistFailurePolicy

-- Milliseconds.
pub record RetryPolicy : Type 0 where
  pub max_attempts : ℕ
  pub base_delay_ms : ℕ
  pub max_delay_ms : ℕ
  pub jitter : Bool

pub record SpecialistOutcome : Type 0 where
  pub specialist_id : String
  pub ordinal : ℕ
  pub status : OutcomeStatus
  pub output : Option Output
  pub error_code : Option ErrorCode
  pub attempts : ℕ

pub record PersistedSpecialistResult : Type 0 where
  pub specialist_id : String
  pub ordinal : ℕ
  pub status : SpecialistRunStatus
  pub attempt_count : ℕ
  pub output : Option Output
  pub error_code : Option ErrorCode
  pub started_at : Option ℕ
  pub completed_at : Option ℕ

pub record PriorSpecialistResult : Type 0 where
  pub specialist_id : String
  pub status : OutcomeStatus
  pub output : Option Output
  pub error_code : Option ErrorCode

pub record GithubContext : Type 0 where
  pub repository : Option String

pub record SpecialistRuntimeInput : Type 0 where
  pub prompt : String
  pub github_context : Option GithubContext
  pub prior_results : List PriorSpecialistResult

pub record SpecialistPromptComposition : Type 0 where
  pub system : String
  pub prompt : String

-- A scheduled specialist; `parse_output` returns `none` where the code throws
-- `SpecialistOutputInvalidError`. The code carries the whole profile here, of which the workflow
-- reads the tool allowlist.
pub record ScheduledSpecialist : Type 0 where
  pub specialist_id : String
  pub ordinal : ℕ
  pub tools_allowlist : List String
  pub compose_prompt : SpecialistRuntimeInput → List UntrustedSpan → SpecialistPromptComposition
  pub parse_output : String → Option Output

pub record SpecialistProviderRequest : Type 0 where
  pub specialist_id : String
  pub system : String
  pub prompt : String
  pub tools : List String
  pub execution_key : String

-- The options of one execution, less the services.
pub record WorkflowOptions : Type 0 where
  pub execution_key : String
  pub mode : RunMode
  pub prompt : String
  pub prompt_hash : String
  pub untrusted : List UntrustedSpan
  pub prompt_injection_mode : PromptInjectionMode
  pub specialists : List ScheduledSpecialist
  pub failure_policy : SpecialistFailurePolicy
  pub run_timeout_ms : ℕ
  pub retry : RetryPolicy
  pub github_context : Option GithubContext

-- The object that `buildTerminalSummary` returns.
pub record TerminalSummary : Type 0 where
  pub mode : RunMode
  pub status : TerminalRunStatus
  pub completed_specialists : List String
  pub failed_specialists : List (String × Option ErrorCode)
  pub completed_at : ℕ

pub record WorkflowOutcome : Type 0 where
  pub status : TerminalRunStatus
  pub results : List SpecialistOutcome
  pub started_at : ℕ
  pub completed_at : ℕ
  pub terminal_summary : Option TerminalSummary

pub data EventType : Type 0 where
  run_started run_checkpointed run_retry_scheduled run_cancellation_requested : EventType
  specialist_started specialist_completed specialist_failed : EventType
  run_completed run_partial run_failed run_cancelled : EventType

-- The payloads that the workflow writes, one constructor for each object literal.
pub data Payload : Type 0 where
  empty : Payload
  started : RunMode → String → Payload
  checkpoint_saved : String → Payload
  injection_excluded : List (UntrustedSourceKind × String) → Payload
  attempt_started : String → ℕ → ℕ → Payload
  attempt_completed : String → ℕ → ℕ → String → Payload
  attempts_failed : String → ℕ → ErrorCode → ℕ → Payload
  retry_scheduled : String → ℕ → ℕ → ℕ → ℕ → Payload
  cancelled_at : ℕ → Payload
  key_mismatch : String → Option String → Payload
  injection_detected : List InjectionFinding → Payload
  timed_out : ℕ → ℕ → Payload
  specialists_failed : List (String × Option ErrorCode) → Payload
  partially_done : List String → List (String × Option ErrorCode) → Payload
  all_done : List String → Payload

pub record WorkflowEventRecord : Type 0 where
  pub event_type : EventType
  pub sequence : ℕ
  pub payload : Payload

-- The checkpoint keys: `workflow:init`, `workflow:injection`, `specialist:<id>`, `workflow:done`.
pub data CheckpointKey : Type 0 where
  init injection done : CheckpointKey
  specialist : String → CheckpointKey

-- The states that are stored under them.
pub data CheckpointState : Type 0 where
  init_state : String → String → ℕ → CheckpointState
  injection_state : ℕ → PromptInjectionMode → CheckpointState
  specialist_state : OutcomeStatus → Option Output → Option ErrorCode → ℕ → CheckpointState
  done_state : TerminalRunStatus → ℕ → CheckpointState

-- `init.state.executionKey` and `init.state.startedAt`.
abbrev pub state_key : CheckpointState → Option String
state_key (init_state key hash at) = some key
state_key _ = none

abbrev pub state_started : CheckpointState → Option ℕ
state_started (init_state key hash at) = some at
state_started _ = none

-- `summarizeOutput`.
abbrev summary_text : Option Json → String
summary_text (some (str s)) = s
summary_text _ = ""

unfoldable pub summarize_output : Option Output → String
summarize_output none = ""
summarize_output (some output) = summary_text (get "summary" output)
