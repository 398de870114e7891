-- ===== src/Workflow/Protocol/Parts.antt =====
-- The parts of an execution that every path shares keep the protocol.
use matrix_agent_workspace.Prelude.{ℕ, String, Bool, Option, none, some, List, refl, ltb, ◌-◌}
use matrix_agent_workspace.Effects.{
  Contract, Safe, safe_ret, safe_throw, Safe-then, Safe-if, Ends, Any,
}
use matrix_agent_workspace.Agents.Injection.{InjectionPattern}
use matrix_agent_workspace.Workflow.Types.{
  TerminalRunStatus, RunStatus, SpecialistOutcome, ScheduledSpecialist, WorkflowOptions,
  WorkflowOutcome, EventType, Payload, CheckpointKey, CheckpointState,
}
use matrix_agent_workspace.Workflow.Checkpoints.{SaveResult, saved, lost, conflict}
use matrix_agent_workspace.Workflow.Calls.{
  Call, Reply, get_status, load_specialist_results, get_summary, now, abort, finalize,
  save_checkpoint, is_cancelled,
}
use matrix_agent_workspace.Workflow.Calls.Rules.{await-Safe}
use matrix_agent_workspace.Workflow.Specialist.{
  save_answer, save_state, assert_deadline, check_cancelled,
}
use matrix_agent_workspace.Workflow.Finalize.{
  build_terminal_summary, resume_outcome, finalize_terminal, after_finalize, end_cancelled,
  end_timed_out,
}
use matrix_agent_workspace.Workflow.Protocol.{protocol, EndsWell}

module _ (test : InjectionPattern → String → Bool) (opts : WorkflowOptions)
    (May : ScheduledSpecialist → Type 0) (Answers : (c : Call) → Option (Reply c) → Type 0) where
  abbrev pub C : Contract Call Reply
  C = protocol test opts May Answers

  pub save_state-Safe :
      (k : CheckpointKey) (state : CheckpointState) → Safe C (Ends Any) (save_state k state 0)
  unfolding save_state
  save_state-Safe k state = await-Safe C (save_checkpoint k state 0) refl (λ r _. settled r)
    where
      settled : (r : SaveResult) → Safe C (Ends Any) (save_answer r)
      settled (saved v) = safe_ret _ tt
      settled lost = safe_ret _ tt
      settled conflict = safe_throw _ tt

  pub assert_deadline-Safe : (at limit : ℕ) → Safe C (Ends Any) (assert_deadline at limit)
  unfolding assert_deadline
  assert_deadline-Safe at limit =
      await-Safe C now tt
        (λ t _. Safe-if C (ltb limit (t - at)) (λ _. safe_throw _ tt) (λ _. safe_ret _ tt))

  pub check_cancelled-Safe : Safe C (Ends Any) check_cancelled
  unfolding check_cancelled
  check_cancelled-Safe =
      await-Safe C is_cancelled tt (λ c _. Safe-if C c (λ _. safe_throw _ tt) (λ _. safe_ret _ tt))

  pub resume_outcome-Safe : (s : TerminalRunStatus) → Safe C (Ends Any) (resume_outcome s)
  unfolding resume_outcome
  resume_outcome-Safe s = await-Safe C load_specialist_results tt (λ p _.
      await-Safe C get_summary tt
        (λ u _. await-Safe C now tt (λ a _. await-Safe C now tt (λ b _. safe_ret _ tt))))

  after_finalize-Safe :
      (applied : Option RunStatus) (s : TerminalRunStatus) (o : WorkflowOutcome)
      → Safe C (Ends Any) (after_finalize applied s o)
  after_finalize-Safe none s o = await-Safe C get_status tt (λ e _. resume_outcome-Safe _)
  after_finalize-Safe (some a) s o =
      Safe-then C (save_state-Safe CheckpointKey.done _) (λ v _. safe_ret o tt)

  pub finalize_terminal-Safe :
      (s : TerminalRunStatus) (results : List SpecialistOutcome) (at : ℕ) (type' : EventType)
      (payload : Payload)
      → ((t : ℕ) → EndsWell opts s (build_terminal_summary opts results s t) type')
      → Safe C (Ends Any) (finalize_terminal opts s results at type' payload)
  unfolding finalize_terminal
  finalize_terminal-Safe s results at type' payload h = await-Safe C abort tt (λ _ _.
      await-Safe C now tt (λ t _.
        await-Safe C (finalize s _ type' payload) (h t)
          (λ applied _. after_finalize-Safe applied s _)))

  pub failed_ends :
      (results : List SpecialistOutcome) (t : ℕ)
      → EndsWell opts TerminalRunStatus.failed
          (build_terminal_summary opts results TerminalRunStatus.failed t)
          EventType.run_failed
  unfolding build_terminal_summary
  failed_ends results t = record {
    event = refl;
    same_status = refl;
    all_completed = λ e. cc;
    some_failed = λ e. cc;
  }

  pub cancelled_ends :
      (results : List SpecialistOutcome) (t : ℕ)
      → EndsWell opts TerminalRunStatus.cancelled
          (build_terminal_summary opts results TerminalRunStatus.cancelled t)
          EventType.run_cancelled
  unfolding build_terminal_summary
  cancelled_ends results t = record {
    event = refl;
    same_status = refl;
    all_completed = λ e. cc;
    some_failed = λ e. cc;
  }

  pub end_cancelled-Safe :
      (results : List SpecialistOutcome) (at : ℕ)
      → Safe C (Ends Any) (end_cancelled opts results at)
  unfolding end_cancelled
  end_cancelled-Safe results at = await-Safe C now tt (λ t _.
      finalize_terminal-Safe TerminalRunStatus.cancelled results at EventType.run_cancelled _
        (cancelled_ends results))

  pub end_timed_out-Safe :
      (results : List SpecialistOutcome) (at : ℕ)
      → Safe C (Ends Any) (end_timed_out opts results at)
  unfolding end_timed_out
  end_timed_out-Safe results at = await-Safe C now tt (λ t _.
      finalize_terminal-Safe TerminalRunStatus.failed results at EventType.run_failed _
        (failed_ends results))
