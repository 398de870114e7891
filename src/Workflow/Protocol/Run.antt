-- ===== src/Workflow/Protocol/Run.antt =====
-- The whole execution keeps the protocol.
use mathlib.Core.List.{map-append, append_assoc, append-nil, perm_middle}
use mathlib.Core.List.Perm
use matrix_agent_workspace.Prelude.{
  ℕ, String, Bool, true, false, Option, none, some, List, [], ◌∷◌, ◌++◌, ◌≡◌, refl, arith, map, All,
  All-append, sort_by, sort_by-perm, Option-cases, inl, inr,
}
use matrix_agent_workspace.Effects.{
  Contract, Safe, safe_ret, safe_throw, Safe-then, Safe-if, Ends, Any,
}
use matrix_agent_workspace.Agents.Injection.{
  InjectionPattern, InjectionFinding, AppliedInjectionPolicy, PolicyResult, applied, detected,
  apply_prompt_injection_policy,
}
use matrix_agent_workspace.Workflow.Types.{
  TerminalRunStatus, terminal_status, RunStatus, SpecialistOutcome, ScheduledSpecialist,
  WorkflowOptions, EventType, CheckpointKey, state_key,
}
use matrix_agent_workspace.Workflow.Checkpoints.{CheckpointRecord}
use matrix_agent_workspace.Workflow.Calls.{
  Call, Reply, is_cancelled, now, load_checkpoint, begin_run, get_status, append,
}
use matrix_agent_workspace.Workflow.Calls.Rules.{await-Safe}
use matrix_agent_workspace.Workflow.Finalize.{outcome_id}
use matrix_agent_workspace.Workflow.Execute.{
  outcome_ordinal, recorded_outcome, Split, load_split, key_of, started_of, is_key, end_mismatched,
  end_cancelled_early, run_specialists, note_injection, mark_findings, mark_injection, start_from,
  reload, resume_or, apply_policy, with_policy, prepared, after_create, create_init, after_race,
  after_begin, after_load, unfinished, after_status, execute_run,
}
use matrix_agent_workspace.Workflow.Protocol.{scheduled_id}
use matrix_agent_workspace.Workflow.Protocol.Parts
use matrix_agent_workspace.Workflow.Protocol.Schedules
use matrix_agent_workspace.Workflow.Protocol.Schedules.{Accounted}

recorded_id :
    (spec : ScheduledSpecialist) (r : Option CheckpointRecord) {o : SpecialistOutcome}
    → recorded_outcome spec r ≡ some o
    → o.specialist_id ≡ spec.specialist_id
recorded_id spec r h = ground arith

-- A specialist with a recorded outcome moves to the outcomes.
Accounted-record :
    (opts : WorkflowOptions) (outcomes : List SpecialistOutcome)
    (pending : List ScheduledSpecialist) (spec : ScheduledSpecialist)
    (specs : List ScheduledSpecialist) (o : SpecialistOutcome)
    → o.specialist_id ≡ spec.specialist_id
    → Accounted opts outcomes (pending ++ spec ∷ specs)
    → Accounted opts (outcomes ++ o ∷ []) (pending ++ specs)
Accounted-record opts outcomes pending spec specs o id h =
    simp (map-append, append_assoc)
      (rw id (
        Perm.trans
          (Perm.append_left (map outcome_id outcomes)
            (Perm.symm (perm_middle (map scheduled_id pending) (map scheduled_id specs))))
          (simp map-append at h)))

Accounted-wait :
    (opts : WorkflowOptions) (outcomes : List SpecialistOutcome)
    (pending : List ScheduledSpecialist) (spec : ScheduledSpecialist)
    (specs : List ScheduledSpecialist)
    → Accounted opts outcomes (pending ++ spec ∷ specs)
    → Accounted opts outcomes ((pending ++ spec ∷ []) ++ specs)
Accounted-wait opts outcomes pending spec specs h = rw append_assoc h

Accounted-sort :
    (opts : WorkflowOptions) (outcomes : List SpecialistOutcome)
    (pending : List ScheduledSpecialist)
    → Accounted opts outcomes pending
    → Accounted opts (sort_by outcome_ordinal outcomes) pending
Accounted-sort opts outcomes pending h =
    Perm.trans
      (Perm.append_right (map scheduled_id pending)
        (Perm.map outcome_id (sort_by-perm outcome_ordinal outcomes)))
      h

-- The specialist may run unless its checkpoint records an outcome.
abbrev pub Runs :
    (ScheduledSpecialist → Type 0)
    → ((c : Call) → Option (Reply c) → Type 0)
    → ScheduledSpecialist
    → Type 0
Runs May Answers spec =
    (r : Option CheckpointRecord)
    → Answers (load_checkpoint (CheckpointKey.specialist spec.specialist_id)) (some r)
    → recorded_outcome spec r ≡ none
    → May spec

module _ (test : InjectionPattern → String → Bool) (order : ℕ → ℕ → Bool) (opts : WorkflowOptions)
    (May : ScheduledSpecialist → Type 0) (Answers : (c : Call) → Option (Reply c) → Type 0) where
  abbrev C : Contract Call Reply
  C = Parts.C test opts May Answers

  abbrev Sorted : Split → Type 0
  Sorted split = Accounted opts split.0 split.1 × All May split.1

  load_split-Safe :
      (outcomes : List SpecialistOutcome) (pending specs : List ScheduledSpecialist)
      → All (Runs May Answers) specs
      → Accounted opts outcomes (pending ++ specs)
      → All May pending
      → Safe C (Ends Sorted) (load_split (outcomes, pending) specs)
  unfolding load_split
  load_split-Safe outcomes pending [] runs h mays = safe_ret _ (rw append-nil at h, mays)
  load_split-Safe outcomes pending (spec ∷ specs) (runs, rest) h mays =
      await-Safe C (load_checkpoint (CheckpointKey.specialist spec.specialist_id)) tt (λ r a.
        elim (Option-cases (recorded_outcome spec r)) [
          | inl e ↦ rw e (
              load_split-Safe outcomes (pending ++ spec ∷ []) specs rest
                (Accounted-wait opts outcomes pending spec specs h)
                (All-append May pending (spec ∷ []) mays (runs r a e, tt)))
          | inr (o, e) ↦ rw e (
              load_split-Safe (outcomes ++ o ∷ []) pending specs rest
                (Accounted-record opts outcomes pending spec specs o (recorded_id spec r e) h) mays)
        ])

  end_mismatched-Safe :
      (recorded : Option String) → Safe C (Ends Any) (end_mismatched opts recorded)
  unfolding end_mismatched
  end_mismatched-Safe recorded = await-Safe C now tt (λ at _.
      Parts.finalize_terminal-Safe test opts May Answers TerminalRunStatus.failed [] at
        EventType.run_failed _ (Parts.failed_ends test opts May Answers []))

  pub end_cancelled_early-Safe : Safe C (Ends Any) (end_cancelled_early opts)
  unfolding end_cancelled_early
  end_cancelled_early-Safe =
      await-Safe C now tt (λ at _. Parts.end_cancelled-Safe test opts May Answers [] at)

  mark_injection-Safe :
      (policy : AppliedInjectionPolicy) → Safe C (Ends Any) (mark_injection test order opts policy)
  unfolding mark_injection
  mark_injection-Safe policy = by_findings policy.findings
    where
      by_marker : (m : Option ℕ) → Safe C (Ends Any) (note_injection test order policy m)
      by_marker none = safe_ret tt tt
      by_marker (some v) =
          await-Safe C (append EventType.run_checkpointed _) refl (λ _ _. safe_ret tt tt)

      by_findings :
          (fs : List InjectionFinding) → Safe C (Ends Any) (mark_findings test order opts policy fs)
      by_findings [] = safe_ret tt tt
      by_findings (f ∷ fs) =
          Safe-then C (Parts.save_state-Safe test opts May Answers CheckpointKey.injection _)
            (λ m _. by_marker m)

  module _ (runs : All (Runs May Answers) opts.specialists) where
    run_specialists-Safe :
        (at : ℕ) (policy : AppliedInjectionPolicy)
        → apply_prompt_injection_policy test opts.untrusted opts.prompt_injection_mode
          ≡ applied policy
        → Safe C (Ends Any) (run_specialists test order opts at policy.kept_untrusted)
    unfolding run_specialists
    run_specialists-Safe at policy screened =
        Safe-then C (load_split-Safe [] [] opts.specialists runs (Perm.refl _) tt) (λ split h.
          Schedules.run_pending-Safe test opts May Answers policy screened order at
            (sort_by outcome_ordinal split.0) split.1 h.1 (Accounted-sort opts split.0 split.1 h.0))

    with_policy-Safe : (at : ℕ) → Safe C (Ends Any) (with_policy test order opts at)
    unfolding with_policy
    with_policy-Safe at = by_result _ refl
      where
        by_result :
            (r : PolicyResult)
            → apply_prompt_injection_policy test opts.untrusted opts.prompt_injection_mode ≡ r
            → Safe C (Ends Any) (apply_policy test order opts at r)
        by_result (detected findings) e =
            Parts.finalize_terminal-Safe test opts May Answers TerminalRunStatus.failed [] at
              EventType.run_failed _ (Parts.failed_ends test opts May Answers [])
        by_result (applied policy) e =
            Safe-then C (mark_injection-Safe policy) (λ _ _. run_specialists-Safe at policy e)

    prepared-Safe :
        (init : Option CheckpointRecord) → Safe C (Ends Any) (prepared test order opts init)
    unfolding prepared
    prepared-Safe init = by_start (started_of init)
      where
        by_start : (s : Option ℕ) → Safe C (Ends Any) (start_from test order opts s)
        by_start none = await-Safe C now tt (λ at _. with_policy-Safe at)
        by_start (some at) = with_policy-Safe at

    reload-Safe : Safe C (Ends Any) (reload test order opts)
    reload-Safe =
        await-Safe C (load_checkpoint CheckpointKey.init) tt (λ init _. prepared-Safe init)

    after_create-Safe :
        (began : Bool) (created : Option ℕ)
        → Safe C (Ends Any) (after_create test order opts began created)
    after_create-Safe began none = await-Safe C (load_checkpoint CheckpointKey.init) tt (λ winner _.
        Safe-if C (is_key (key_of winner) opts.execution_key) (λ _. reload-Safe)
          (λ _. end_mismatched-Safe (key_of winner)))
    after_create-Safe true (some v) =
        await-Safe C (append EventType.run_started _) refl (λ _ _. reload-Safe)
    after_create-Safe false (some v) = reload-Safe

    create_init-Safe : (began : Bool) → Safe C (Ends Any) (create_init test order opts began)
    unfolding create_init
    create_init-Safe began = await-Safe C now tt (λ at _.
        Safe-then C (Parts.save_state-Safe test opts May Answers CheckpointKey.init _)
          (λ created _. after_create-Safe began created))

    after_race-Safe :
        (raced : Option TerminalRunStatus) → Safe C (Ends Any) (after_race test order opts raced)
    after_race-Safe (some t) = Parts.resume_outcome-Safe test opts May Answers t
    after_race-Safe none =
        await-Safe C is_cancelled tt
          (λ c _. Safe-if C c (λ _. end_cancelled_early-Safe) (λ _. create_init-Safe false))

    after_begin-Safe :
        (began : Option RunStatus) → Safe C (Ends Any) (after_begin test order opts began)
    after_begin-Safe (some s) = create_init-Safe true
    after_begin-Safe none = await-Safe C get_status tt (λ raced _. after_race-Safe _)

    after_load-Safe :
        (init : Option CheckpointRecord) → Safe C (Ends Any) (after_load test order opts init)
    after_load-Safe none = await-Safe C begin_run tt (λ began _. after_begin-Safe began)
    after_load-Safe (some r) =
        Safe-if C (is_key (state_key r.state) opts.execution_key) (λ _. prepared-Safe (some r))
          (λ _. end_mismatched-Safe (state_key r.state))

    unfinished-Safe : Safe C (Ends Any) (unfinished test order opts)
    unfolding unfinished
    unfinished-Safe = await-Safe C is_cancelled tt (λ c _.
        Safe-if C c (λ _. end_cancelled_early-Safe)
          (λ _.
            await-Safe C (load_checkpoint CheckpointKey.init) tt (λ init _. after_load-Safe init)))

    after_status-Safe : (s : Option RunStatus) → Safe C (Ends Any) (after_status test order opts s)
    after_status-Safe none = safe_throw _ tt
    after_status-Safe (some s) = by_end (terminal_status (some s))
      where
        by_end : (t : Option TerminalRunStatus) → Safe C (Ends Any) (resume_or test order opts t)
        by_end none = unfinished-Safe
        by_end (some t) = Parts.resume_outcome-Safe test opts May Answers t

    -- An execution keeps the protocol, where only specialists may run whose checkpoint, as it is
    -- answered, records no outcome.
    pub execute_run-Safe : Safe C (Ends Any) (execute_run test order opts)
    unfolding execute_run
    execute_run-Safe = await-Safe C get_status tt (λ s _. after_status-Safe s)
