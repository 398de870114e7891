-- ===== src/Workflow/Tests.antt =====
-- Runs of the workflow on concrete inputs.
use matrix_agent_workspace.Prelude.{
  arith, ℕ, Bool, String, true, false, none, some, [], ◌∷◌, map, ◌≡◌, refl,
}
use matrix_agent_workspace.Json.{str, end, field}
use matrix_agent_workspace.Effects.{run, run-Reach, Ends}
use matrix_agent_workspace.Agents.Injection
use matrix_agent_workspace.Workflow.Types.{
  RetryPolicy, TerminalRunStatus, OutcomeStatus, CheckpointKey, CheckpointState, specialist_state,
  ScheduledSpecialist, WorkflowOptions, RunMode, SpecialistFailurePolicy, RunStatus,
}
use matrix_agent_workspace.Workflow.World.{World}
use matrix_agent_workspace.Workflow.Calls.{Input, text, no_fault, services}
use matrix_agent_workspace.Workflow.Specialist.{compute_backoff}
use matrix_agent_workspace.Workflow.Specialist.Backoff.{Bounded, compute_backoff-le}
use matrix_agent_workspace.Workflow.Execute.{execute_run}
use matrix_agent_workspace.Workflow.Protocol.{scheduled_id}
use matrix_agent_workspace.Workflow.Guarantees.{Executes, executes, Cancels, Reaches}
use matrix_agent_workspace.Workflow.Guarantees.EventLog.{LogInOrder, run-LogInOrder}
use matrix_agent_workspace.Workflow.Guarantees.Resume.{Committed, requests_for, never_rerun}
use matrix_agent_workspace.Workflow.Guarantees.Outcome.{CompletedIsComplete, completed_is_complete}
use matrix_agent_workspace.Workflow.Guarantees.Requests.{AllSent, requests_as_scheduled}
use matrix_agent_workspace.Workflow.Guarantees.Ended.{
  ReadBack, ended_run_untouched, cancelled_never_calls,
}
use matrix_agent_workspace.Workflow.Checkpoints.{save, insert_checkpoint, load, saved}
use matrix_agent_workspace.Workflow.Checkpoints.Versions.{save_cas}
use matrix_agent_workspace.Agents.Injection.{InjectionPattern}

abbrev reader : String → ℕ → ScheduledSpecialist
reader id n = record {
  specialist_id = id;
  ordinal = n;
  tools_allowlist = "read_issue" ∷ [];
  compose_prompt = λ input spans. record { system = "policy"; prompt = input.prompt };
  parse_output = λ t. some (field "summary" (str t) end);
}

abbrev two_readers : RunMode → WorkflowOptions
two_readers mode = record {
  execution_key = "key";
  mode = mode;
  prompt = "task";
  prompt_hash = "hash";
  untrusted = [];
  prompt_injection_mode = Injection.fail_run;
  specialists = reader "repo" 0 ∷ reader "issue" 1 ∷ [];
  failure_policy = SpecialistFailurePolicy.fail_run;
  run_timeout_ms = 900000;
  retry = record { max_attempts = 3; base_delay_ms = 500; max_delay_ms = 8000; jitter = true };
  github_context = none;
}

abbrev new_run : World
new_run = record {
  status = some RunStatus.queued;
  cancel_requested = false;
  summary = none;
  results = [];
  checkpoints = [];
  events = [];
  sequence = 0;
  requests = [];
}

-- The clock advances by 10 ms a call, and the provider always answers.
abbrev healthy : ℕ → Input
healthy n = record { clock = n; random_bits = 5; model = text "fine"; fault = no_fault }

abbrev no_match : InjectionPattern → String → Bool
no_match p t = false

abbrev in_order : ℕ → ℕ → Bool
in_order i n = true

abbrev execution : RunMode → World → World
execution mode w = (run services healthy 0 (execute_run no_match in_order (two_readers mode)) w).1

-- The options that schedule both readers in one mode.
abbrev With : RunMode → WorkflowOptions → Type 0
With mode o = o ≡ two_readers mode

execution-Reaches :
    (mode : RunMode) (w : World)
    → Reaches no_match
        (With mode)
        (record { world = w; running = [] })
        (record { world = execution mode w; running = [] })
execution-Reaches mode w =
    run-Reach services (Executes no_match (With mode)) Cancels healthy
      (execute_run no_match in_order (two_readers mode)) w
      (executes in_order (two_readers mode) refl)

new_run-LogInOrder : LogInOrder new_run
new_run-LogInOrder = record { ended = refl; numbered = refl; fresh = λ e. refl }

run-LogInOrder_example : LogInOrder (execution RunMode.sequential new_run)
run-LogInOrder_example =
    run-LogInOrder no_match (With RunMode.sequential) new_run new_run-LogInOrder
      (execution-Reaches RunMode.sequential new_run)

-- A run that stopped after its first specialist.
abbrev repo_done : CheckpointState
repo_done = specialist_state OutcomeStatus.completed none none 1

abbrev stopped_run : World
stopped_run = record new_run {
  status = some RunStatus.running;
  checkpoints = (CheckpointKey.specialist "repo", record { version = 1; state = repo_done }) ∷ [];
}

stopped_run-Committed : Committed "repo" stopped_run.checkpoints
unfolding load
stopped_run-Committed = (0, repo_done, refl, refl)

never_rerun_example :
    (requests_for "repo" (execution RunMode.parallel stopped_run) ≡ requests_for "repo" stopped_run)
    × Committed "repo" (execution RunMode.parallel stopped_run).checkpoints
never_rerun_example =
    never_rerun no_match (With RunMode.parallel) stopped_run "repo" stopped_run-Committed
      (execution-Reaches RunMode.parallel stopped_run)

abbrev Both : WorkflowOptions → Type 0
Both o = map scheduled_id o.specialists ≡ "repo" ∷ "issue" ∷ []

completed_is_complete_example :
    CompletedIsComplete ("repo" ∷ "issue" ∷ []) (execution RunMode.sequential new_run)
completed_is_complete_example =
    completed_is_complete no_match ("repo" ∷ "issue" ∷ []) new_run (λ e. cc)
      (run-Reach services (Executes no_match Both) Cancels healthy
        (execute_run no_match in_order (two_readers RunMode.sequential)) new_run
        (executes in_order (two_readers RunMode.sequential) refl))

requests_as_scheduled_example :
    AllSent no_match (two_readers RunMode.parallel) (execution RunMode.parallel new_run)
requests_as_scheduled_example =
    requests_as_scheduled no_match (two_readers RunMode.parallel) new_run tt
      (execution-Reaches RunMode.parallel new_run)

abbrev failed_run : World
failed_run = record new_run { status = some RunStatus.failed }

ended_run_untouched_example :
    ReadBack TerminalRunStatus.failed failed_run healthy
      (run services healthy 0
        (execute_run no_match in_order (two_readers RunMode.parallel))
        failed_run).0
    × (execution RunMode.parallel failed_run ≡ failed_run)
ended_run_untouched_example =
    ended_run_untouched no_match in_order (two_readers RunMode.parallel) TerminalRunStatus.failed
      failed_run healthy refl

abbrev cancelled_run : World
cancelled_run = record new_run { status = some RunStatus.cancelling; cancel_requested = true }

cancelled_never_calls_example : (execution RunMode.parallel cancelled_run).requests ≡ []
cancelled_never_calls_example =
    cancelled_never_calls no_match in_order (two_readers RunMode.parallel) cancelled_run healthy
      refl

save_cas_example :
    ((save CheckpointKey.init repo_done 0 stopped_run.checkpoints).0 ≡ saved 1)
    × (load
          (CheckpointKey.specialist "repo")
          (save CheckpointKey.init repo_done 0 stopped_run.checkpoints).1
        ≡ some (record { version = 1; state = repo_done }))
    × (save CheckpointKey.init repo_done 0 stopped_run.checkpoints
        ≡ insert_checkpoint CheckpointKey.init repo_done stopped_run.checkpoints)
unfolding load
save_cas_example =
    save_cas CheckpointKey.init (CheckpointKey.specialist "repo") repo_done 0
      stopped_run.checkpoints refl

abbrev doubling : RetryPolicy
doubling = record { max_attempts = 3; base_delay_ms = 500; max_delay_ms = 8000; jitter = true }

compute_backoff-le_example :
    Ends (Bounded doubling) (run services healthy 0 (compute_backoff 2 doubling) new_run).0
compute_backoff-le_example = compute_backoff-le 2 doubling healthy new_run (λ n. omega arith)
