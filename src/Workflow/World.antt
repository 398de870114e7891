-- ===== src/Workflow/World.antt =====
-- What the services of one run keep: the row of `runs`, its specialist results, its checkpoints and
-- its events (run-workflow.ts, `createPostgresWorkflowRunStore`, `createPostgresWorkflowEventSink`
-- and their in-memory counterparts), and what the model provider has received.
pub mod Frames
use matrix_agent_workspace.Prelude.{
  ℕ, suc, Bool, true, false, Option, none, some, List, [], ◌∷◌, ◌++◌, ◌==◌, sort_by, if◌then◌else◌,
}
use matrix_agent_workspace.Workflow.Types.{
  RunStatus, TerminalRunStatus, of_terminal, terminal_status, PersistedSpecialistResult,
  TerminalSummary, EventType, Payload, empty, cancelled_at, WorkflowEventRecord,
  SpecialistProviderRequest,
}
use matrix_agent_workspace.Workflow.Checkpoints.{Records}

-- `status` is `none` where the run has no row that the tenant sees. `requests` are the calls of
-- `provider.complete` that were made, the last one last.
pub record World : Type 0 where
  pub status : Option RunStatus
  pub cancel_requested : Bool
  pub summary : Option TerminalSummary
  pub results : List PersistedSpecialistResult
  pub checkpoints : Records
  pub events : List WorkflowEventRecord
  pub sequence : ℕ
  pub requests : List SpecialistProviderRequest

-- `append`: the event gets the next sequence number of the run.
unfoldable pub append_event : EventType → Payload → World → World
append_event type' payload w = record w {
  sequence = suc w.sequence;
  events =
      w.events
      ++ (record { event_type = type'; sequence = suc w.sequence; payload = payload }) ∷ [];
}

-- `beginRun`: queued → running, or `null`.
abbrev pub begin_row : Option RunStatus → World → Option RunStatus × World
begin_row (some RunStatus.queued) w =
    (some RunStatus.running, record w { status = some RunStatus.running })
begin_row _ w = (none, w)

unfoldable pub begin_run : World → Option RunStatus × World
begin_run w = begin_row w.status w

-- `finalize`: the guarded transition, and in the same transaction the terminal event.
abbrev pub finalize_row :
    Option RunStatus
    → Option TerminalRunStatus
    → TerminalRunStatus
    → TerminalSummary
    → EventType
    → Payload
    → World
    → Option RunStatus × World
finalize_row none ended status summary type' payload w = (none, w)
finalize_row (some s) (some t) status summary type' payload w = (none, w)
finalize_row (some s) none status summary type' payload w = (
  some (of_terminal status),
  append_event type' payload
      (record w { status = some (of_terminal status); summary = some summary }),
)

unfoldable pub finalize :
    TerminalRunStatus → TerminalSummary → EventType → Payload → World → Option RunStatus × World
unfolding append_event
finalize status summary type' payload w =
    finalize_row w.status (terminal_status w.status) status summary type' payload w

abbrev pub coalesce {ℓ} : {A : Type ℓ} → Option A → Option A → Option A
coalesce (some a) old = some a
coalesce none old = old

-- `ON CONFLICT (run_id, specialist_id) DO UPDATE`: the ordinal and a timestamp that is not given
-- anew stay.
unfoldable pub upsert :
    PersistedSpecialistResult → List PersistedSpecialistResult → List PersistedSpecialistResult
upsert r [] = r ∷ []
upsert r (q ∷ qs) =
    let rest = upsert r qs in
    if q.specialist_id == r.specialist_id
    then (record r {
      ordinal = q.ordinal;
      started_at = coalesce r.started_at q.started_at;
      completed_at = coalesce r.completed_at q.completed_at;
    })
      ∷ qs
    else q ∷ rest

abbrev pub result_ordinal : PersistedSpecialistResult → ℕ
result_ordinal r = r.ordinal

unfoldable pub save_specialist_result : PersistedSpecialistResult → World → World
unfolding upsert
save_specialist_result r w = record w { results = upsert r w.results }

-- `ORDER BY ordinal`.
unfoldable pub load_specialist_results : World → List PersistedSpecialistResult
unfolding sort_by
load_specialist_results w = sort_by result_ordinal w.results

-- The route `POST /api/runs/[runId]/cancel` (app/api/runs/[runId]/cancel/route.ts), which runs
-- beside the workflow: one transaction that holds the run's row lock.
pub data CancelResult : Type 0 where
  not_found : CancelResult
  terminal : TerminalRunStatus → CancelResult
  updated : RunStatus → CancelResult

abbrev pub after_cancel : RunStatus → RunStatus
after_cancel RunStatus.queued = RunStatus.cancelled
after_cancel _ = RunStatus.cancelling

-- The event that the first request appends. `now` stamps a cancellation before the start.
abbrev pub cancel_event : RunStatus → ℕ → World → World
cancel_event RunStatus.cancelled now w = append_event EventType.run_cancelled (cancelled_at now) w
cancel_event _ now w = append_event EventType.run_cancellation_requested empty w

abbrev pub cancel_row :
    Option RunStatus → Option TerminalRunStatus → ℕ → World → CancelResult × World
cancel_row none ended now w = (not_found, w)
cancel_row (some s) (some t) now w = (terminal t, w)
cancel_row (some s) none now w =
    let w' = record w { status = some (after_cancel s); cancel_requested = true } in
    (
      updated (after_cancel s),
      if w.cancel_requested then w' else cancel_event (after_cancel s) now w',
    )

unfoldable pub cancel_run : ℕ → World → CancelResult × World
unfolding append_event
cancel_run now w = cancel_row w.status (terminal_status w.status) now w
