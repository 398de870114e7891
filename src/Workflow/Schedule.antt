-- ===== src/Workflow/Schedule.antt =====
-- run-workflow.ts, `executeRun`, from the pending specialists to the joined result.
use matrix_agent_workspace.Prelude.{
  ℕ, Bool, true, false, Option, none, some, List, [], ◌∷◌, ◌++◌, map, keep, last, ◌&&◌,
  if◌then◌else◌,
}
use matrix_agent_workspace.Effects.{throw, settle, Settled, fulfilled, rejected, all_settled, ◌>>=◌}
use matrix_agent_workspace.Agents.Injection.{UntrustedSpan}
use matrix_agent_workspace.Workflow.Types.{
  TerminalRunStatus, RunMode, SpecialistFailurePolicy, SpecialistOutcome, PriorSpecialistResult,
  ScheduledSpecialist, SpecialistRuntimeInput, WorkflowOptions, WorkflowOutcome, EventType,
  specialists_failed, partially_done, all_done, OutcomeStatus,
}
use matrix_agent_workspace.Workflow.Calls.{
  is_cancelled, Exn, workflow_cancelled, run_timeout, W, await,
}
use matrix_agent_workspace.Workflow.Specialist.{assert_deadline, run_specialist}
use matrix_agent_workspace.Workflow.Finalize.{
  is_failed, is_completed, outcome_id, failure, finalize_terminal, end_cancelled, end_timed_out,
}

abbrev pub fails_run : SpecialistFailurePolicy → Bool
fails_run SpecialistFailurePolicy.fail_run = true
fails_run SpecialistFailurePolicy.partial = false

-- Join results: the status of the run by the outcomes that failed.
abbrev pub join_failed :
    WorkflowOptions → ℕ → List SpecialistOutcome → List SpecialistOutcome → W WorkflowOutcome
join_failed opts started outcomes [] =
    finalize_terminal opts TerminalRunStatus.completed outcomes started EventType.run_completed
      (all_done (map outcome_id outcomes))
join_failed opts started outcomes (f ∷ fs) =
    if fails_run opts.failure_policy
    then finalize_terminal opts TerminalRunStatus.failed outcomes started EventType.run_failed
        (specialists_failed (map failure (f ∷ fs)))
    else finalize_terminal opts TerminalRunStatus.partial outcomes started EventType.run_partial
        (partially_done (map outcome_id (keep is_completed outcomes)) (map failure (f ∷ fs)))

unfoldable pub join_results : WorkflowOptions → ℕ → List SpecialistOutcome → W WorkflowOutcome
join_results opts started outcomes = join_failed opts started outcomes (keep is_failed outcomes)

-- The `catch` block round the schedule, and the rejections of the parallel mode.
unfoldable pub end_by : WorkflowOptions → ℕ → List SpecialistOutcome → Exn → W WorkflowOutcome
end_by opts started outcomes workflow_cancelled = end_cancelled opts outcomes started
end_by opts started outcomes (run_timeout deadline at) = end_timed_out opts outcomes started
end_by opts started outcomes e = throw e

-- `for (const item of settled)`.
unfoldable pub collect :
    WorkflowOptions
    → ℕ
    → List SpecialistOutcome
    → List (Settled Exn SpecialistOutcome)
    → W WorkflowOutcome
collect opts started outcomes [] = join_results opts started outcomes
collect opts started outcomes (fulfilled o ∷ items) =
    collect opts started (outcomes ++ o ∷ []) items
collect opts started outcomes (rejected e ∷ items) = end_by opts started outcomes e

-- The input of every specialist in the parallel mode.
abbrev pub base_input : WorkflowOptions → SpecialistRuntimeInput
base_input opts = record {
  prompt = opts.prompt;
  github_context = opts.github_context;
  prior_results = [];
}

-- `order` says how the event loop interleaves the specialists.
unfoldable pub run_parallel :
    (ℕ → ℕ → Bool)
    → WorkflowOptions
    → ℕ
    → List UntrustedSpan
    → List SpecialistOutcome
    → List ScheduledSpecialist
    → W WorkflowOutcome
run_parallel order opts started untrusted outcomes pending =
    all_settled order
      (map (λ spec. run_specialist opts started untrusted spec (base_input opts)) pending)
    >>= collect opts started outcomes

-- The typed result that is passed on.
abbrev prior_with : OutcomeStatus → SpecialistOutcome → PriorSpecialistResult
prior_with OutcomeStatus.completed o = record {
  specialist_id = o.specialist_id;
  status = OutcomeStatus.completed;
  output = o.output;
  error_code = none;
}
prior_with OutcomeStatus.failed o = record {
  specialist_id = o.specialist_id;
  status = OutcomeStatus.failed;
  output = none;
  error_code = o.error_code;
}

abbrev pub prior_result : SpecialistOutcome → PriorSpecialistResult
prior_result o = prior_with o.status o

abbrev pub prior_list : Option SpecialistOutcome → List PriorSpecialistResult
prior_list none = []
prior_list (some o) = prior_result o ∷ []

abbrev pub sequential_input : WorkflowOptions → Option SpecialistOutcome → SpecialistRuntimeInput
sequential_input opts prior = record {
  prompt = opts.prompt;
  github_context = opts.github_context;
  prior_results = prior_list prior;
}

abbrev pub specialist_turn :
    WorkflowOptions
    → ℕ
    → List UntrustedSpan
    → Option SpecialistOutcome
    → ScheduledSpecialist
    → W SpecialistOutcome
specialist_turn opts started untrusted prior spec =
    assert_deadline started opts.run_timeout_ms >>= λ _.
    run_specialist opts started untrusted spec (sequential_input opts prior)

-- What follows one specialist's turn; `next` is the rest of the loop.
abbrev pub after_turn :
    WorkflowOptions
    → ℕ
    → List SpecialistOutcome
    → (SpecialistOutcome → W WorkflowOutcome)
    → Settled Exn SpecialistOutcome
    → W WorkflowOutcome
after_turn opts started outcomes next (rejected e) = end_by opts started outcomes e
after_turn opts started outcomes next (fulfilled o) =
    if is_failed o && fails_run opts.failure_policy
    then finalize_terminal opts TerminalRunStatus.failed (outcomes ++ o ∷ []) started
        EventType.run_failed (specialists_failed (failure o ∷ []))
    else next o

-- `for (const spec of pending)`; the last outcome so far is the one that is passed on.
unfoldable pub run_sequential :
    WorkflowOptions
    → ℕ
    → List UntrustedSpan
    → List SpecialistOutcome
    → Option SpecialistOutcome
    → List ScheduledSpecialist
    → W WorkflowOutcome
run_sequential opts started untrusted outcomes prior [] = join_results opts started outcomes
run_sequential opts started untrusted outcomes prior (spec ∷ specs) = await is_cancelled >>= λ c.
    if c
    then end_cancelled opts outcomes started
    else (settle (specialist_turn opts started untrusted prior spec)
        >>= after_turn opts started outcomes
            (λ o. run_sequential opts started untrusted (outcomes ++ o ∷ []) (some o) specs))

unfoldable pub run_pending :
    (ℕ → ℕ → Bool)
    → WorkflowOptions
    → ℕ
    → List UntrustedSpan
    → List SpecialistOutcome
    → List ScheduledSpecialist
    → W WorkflowOutcome
run_pending order opts started untrusted outcomes pending = elim opts.mode [
  | RunMode.parallel ↦ run_parallel order opts started untrusted outcomes pending
  | RunMode.sequential ↦ run_sequential opts started untrusted outcomes (last outcomes) pending
]
