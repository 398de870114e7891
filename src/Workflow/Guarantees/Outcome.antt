-- ===== src/Workflow/Guarantees/Outcome.antt =====
-- What the status of an ended run says of its specialists.
use mathlib.Core.List.{Perm}
use matrix_agent_workspace.Prelude.{
  ℕ, String, Bool, Option, none, some, List, [], ◌≡◌, refl, arith, map,
}
use matrix_agent_workspace.Effects.{Any}
use matrix_agent_workspace.Agents.Injection.{InjectionPattern}
use matrix_agent_workspace.Workflow.Types.{
  RunStatus, TerminalRunStatus, of_terminal, terminal_status, TerminalSummary, WorkflowOptions,
  EventType, Payload,
}
use matrix_agent_workspace.Workflow.World
use matrix_agent_workspace.Workflow.World.{World, begin_row, finalize_row, cancel_row, cancel_run}
use matrix_agent_workspace.Workflow.Calls
use matrix_agent_workspace.Workflow.Calls.{Call, Input, serve, get_status, finalize, append}
use matrix_agent_workspace.Workflow.Protocol.{EndsWell, scheduled_id}
use matrix_agent_workspace.Workflow.Guarantees.{
  RunSystem, Reaches, RunAllowed, always, Unknown, Unknown-Runs,
}

module _ (ids : List String) where
  -- The options schedule these specialists.
  abbrev pub Schedules : WorkflowOptions → Type 0
  Schedules opts = map scheduled_id opts.specialists ≡ ids

  -- The stored summary lists every specialist as completed, once, and none as failed.
  abbrev pub AllCompleted : Option TerminalSummary → Type 0
  AllCompleted none = ⊥
  AllCompleted (some u) = (u.failed_specialists ≡ []) × Perm u.completed_specialists ids

  abbrev pub CompletedIsComplete : World → Type 0
  CompletedIsComplete w = w.status ≡ some RunStatus.completed → AllCompleted w.summary

  finalize-Complete :
      (opts : WorkflowOptions) (t : TerminalRunStatus) (u : TerminalSummary) (e : EventType)
      (p : Payload) (w : World)
      → Schedules opts
      → EndsWell opts t u e
      → CompletedIsComplete w
      → CompletedIsComplete (World.finalize t u e p w).1
  unfolding World.finalize World.append_event
  finalize-Complete opts t u e p w q a h = by_status w.status refl
    where
      ended :
          (t' : TerminalRunStatus)
          → t ≡ t'
          → some (of_terminal t) ≡ some RunStatus.completed
          → AllCompleted (some u)
      ended TerminalRunStatus.completed x y =
          let both = a.all_completed x in (both.0, rw q at both.1)
      ended TerminalRunStatus.partial x y = let y' = rw x at y in cc
      ended TerminalRunStatus.failed x y = let y' = rw x at y in cc
      ended TerminalRunStatus.cancelled x y = let y' = rw x at y in cc

      by_status :
          (s : Option RunStatus)
          → w.status ≡ s
          → CompletedIsComplete (finalize_row s (terminal_status s) t u e p w).1
      by_status none x = h
      by_status (some RunStatus.queued) x = ended t refl
      by_status (some RunStatus.running) x = ended t refl
      by_status (some RunStatus.cancelling) x = ended t refl
      by_status (some _) x = h

  begin_run-Complete :
      (w : World) → CompletedIsComplete w → CompletedIsComplete (World.begin_run w).1
  unfolding World.begin_run
  begin_run-Complete w h = by_status w.status
    where
      by_status : (s : Option RunStatus) → CompletedIsComplete (begin_row s w).1
      by_status none = h
      by_status (some RunStatus.queued) = λ x. cc
      by_status (some _) = h

  cancel_run-Complete :
      (now : ℕ) (w : World) → CompletedIsComplete w → CompletedIsComplete (cancel_run now w).1
  unfolding cancel_run World.append_event
  cancel_run-Complete now w h = ground arith

  serve-Complete :
      (test : InjectionPattern → String → Bool) (i : Input) (c : Call) (w : World)
      → CompletedIsComplete w
      → RunAllowed test Schedules Any c
      → CompletedIsComplete (serve i c w).1
  unfolding World.append_event World.save_specialist_result
  serve-Complete test i get_status w h a = h
  serve-Complete test i Calls.begin_run w h a = begin_run-Complete w h
  serve-Complete test i (finalize t u e p) w h a = finalize-Complete a.0 t u e p w a.1 a.2 h
  serve-Complete test i _ w h a = h

-- A run whose status is `completed` has a stored summary that lists every scheduled specialist as
-- completed, once, and none as failed. It holds at any moment of any executions that schedule these
-- specialists, if it held before them, as it does for a run that has not ended.
pub completed_is_complete :
    (test : InjectionPattern → String → Bool) (ids : List String) (w : World) {b : RunSystem}
    → CompletedIsComplete ids w
    → Reaches test (Schedules ids) (record { world = w; running = [] }) b
    → CompletedIsComplete ids b.world
completed_is_complete test ids w h r =
    always test (Schedules ids) Any Unknown (CompletedIsComplete ids) (λ opts o. Unknown-Runs opts)
      (λ i c w h. tt) (serve-Complete ids test) (cancel_run-Complete ids) w h r
