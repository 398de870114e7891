-- ===== src/Workflow/Finalize.antt =====
-- run-workflow.ts, `buildTerminalSummary`, `resumeOutcome` and `finalizeTerminal`: how an execution
-- ends the run, or finds it ended.
use matrix_agent_workspace.Prelude.{
  ℕ, String, Bool, true, false, Option, none, some, List, map, keep,
}
use matrix_agent_workspace.Effects.{ret, ◌>>=◌}
use matrix_agent_workspace.Workflow.Types.{
  RunStatus, TerminalRunStatus, terminal_status, OutcomeStatus, SpecialistRunStatus, ErrorCode,
  SpecialistOutcome, PersistedSpecialistResult, WorkflowOptions, TerminalSummary, WorkflowOutcome,
  EventType, Payload, cancelled_at, timed_out, CheckpointKey, done_state,
}
use matrix_agent_workspace.Workflow.Calls.{
  get_status, load_specialist_results, get_summary, now, abort, finalize, W, await,
}
use matrix_agent_workspace.Workflow.Specialist.{save_state}

abbrev pub is_failed : SpecialistOutcome → Bool
is_failed o = elim o.status [ OutcomeStatus.failed ↦ true | OutcomeStatus.completed ↦ false ]

abbrev pub is_completed : SpecialistOutcome → Bool
is_completed o = elim o.status [ OutcomeStatus.completed ↦ true | OutcomeStatus.failed ↦ false ]

abbrev pub outcome_id : SpecialistOutcome → String
outcome_id o = o.specialist_id

abbrev pub failure : SpecialistOutcome → String × Option ErrorCode
failure o = (o.specialist_id, o.error_code)

unfoldable pub build_terminal_summary :
    WorkflowOptions → List SpecialistOutcome → TerminalRunStatus → ℕ → TerminalSummary
build_terminal_summary opts results status completed_at = record {
  mode = opts.mode;
  status = status;
  completed_specialists = map outcome_id (keep is_completed results);
  failed_specialists = map failure (keep is_failed results);
  completed_at = completed_at;
}

-- `r.status === 'failed' ? 'failed' : 'completed'`.
abbrev pub resumed_status : SpecialistRunStatus → OutcomeStatus
resumed_status SpecialistRunStatus.failed = OutcomeStatus.failed
resumed_status _ = OutcomeStatus.completed

unfoldable pub resumed_result : PersistedSpecialistResult → SpecialistOutcome
resumed_result r = record {
  specialist_id = r.specialist_id;
  ordinal = r.ordinal;
  status = resumed_status r.status;
  output = r.output;
  error_code = r.error_code;
  attempts = r.attempt_count;
}

-- The summaries that the workflow writes have no `startedAt`, so the clock is read.
unfoldable pub resume_outcome : TerminalRunStatus → W WorkflowOutcome
unfolding resumed_result
resume_outcome status = do
  persisted ← await load_specialist_results
  summary ← await get_summary
  started ← await now
  completed ← await now
  ret (record {
    status = status;
    results = map resumed_result persisted;
    started_at = started;
    completed_at = completed;
    terminal_summary = summary;
  })

-- `isTerminalStatus(existing) ? existing : status`.
abbrev pub existing_or : Option TerminalRunStatus → TerminalRunStatus → TerminalRunStatus
existing_or (some t) status = t
existing_or none status = status

-- What follows the guarded transition: the run was ended here, or already.
abbrev pub after_finalize :
    Option RunStatus → TerminalRunStatus → WorkflowOutcome → W WorkflowOutcome
after_finalize none status outcome = do
  existing ← await get_status
  resume_outcome (existing_or (terminal_status existing) status)
after_finalize (some applied) status outcome = do
  _ ← save_state CheckpointKey.done (done_state status outcome.completed_at) 0
  ret outcome

abbrev pub ended_outcome :
    TerminalRunStatus → List SpecialistOutcome → ℕ → ℕ → TerminalSummary → WorkflowOutcome
ended_outcome status results started completed summary = record {
  status = status;
  results = results;
  started_at = started;
  completed_at = completed;
  terminal_summary = some summary;
}

unfoldable pub finalize_terminal :
    WorkflowOptions
    → TerminalRunStatus
    → List SpecialistOutcome
    → ℕ
    → EventType
    → Payload
    → W WorkflowOutcome
finalize_terminal opts status results started type' payload = do
  _ ← await abort
  completed ← await now
  let summary = build_terminal_summary opts results status completed
  applied ← await (finalize status summary type' payload)
  after_finalize applied status (ended_outcome status results started completed summary)

-- The endings that stand in several places of `executeRun`.
unfoldable pub end_cancelled : WorkflowOptions → List SpecialistOutcome → ℕ → W WorkflowOutcome
end_cancelled opts results started = do
  at ← await now
  finalize_terminal opts TerminalRunStatus.cancelled results started EventType.run_cancelled
      (cancelled_at at)

unfoldable pub end_timed_out : WorkflowOptions → List SpecialistOutcome → ℕ → W WorkflowOutcome
end_timed_out opts results started = do
  at ← await now
  finalize_terminal opts TerminalRunStatus.failed results started EventType.run_failed
      (timed_out started at)
