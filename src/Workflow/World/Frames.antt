-- ===== src/Workflow/World/Frames.antt =====
-- What the operations on the run's row and on its events leave alone.
use matrix_agent_workspace.Prelude.{ℕ, ◌≡◌, refl, arith}
use matrix_agent_workspace.Workflow.Types.{
  TerminalRunStatus, TerminalSummary, EventType, Payload, PersistedSpecialistResult,
}
use matrix_agent_workspace.Workflow.World.{
  World, append_event, begin_run, finalize, save_specialist_result, cancel_run,
}

-- The checkpoints and what the provider has received.
abbrev pub SameRest : World → World → Type 0
SameRest w w' = (w'.checkpoints ≡ w.checkpoints) × (w'.requests ≡ w.requests)

pub append_event-rest : (e : EventType) (p : Payload) (w : World) → SameRest w (append_event e p w)
unfolding append_event
append_event-rest e p w = (refl, refl)

pub begin_run-rest : (w : World) → SameRest w (begin_run w).1
unfolding begin_run
begin_run-rest w = ground arith

pub finalize-rest :
    (t : TerminalRunStatus) (u : TerminalSummary) (e : EventType) (p : Payload) (w : World)
    → SameRest w (finalize t u e p w).1
unfolding finalize
finalize-rest t u e p w = ground arith

pub save_specialist_result-rest :
    (r : PersistedSpecialistResult) (w : World) → SameRest w (save_specialist_result r w)
unfolding save_specialist_result
save_specialist_result-rest r w = (refl, refl)

pub cancel_run-rest : (now : ℕ) (w : World) → SameRest w (cancel_run now w).1
unfolding cancel_run
cancel_run-rest now w = ground arith
