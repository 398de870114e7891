-- ===== src/Workflow/Protocol/Schedules.antt =====
-- Both schedules keep the protocol, and account for every specialist before they join the results.
use mathlib.Core.List.{Perm, map-append, append_assoc, append-nil}
use matrix_agent_workspace.Prelude.{
  ℕ, ◌≤◌, String, Bool, false, Option, none, some, List, [], ◌∷◌, ◌++◌, ◌≡◌, refl, ap, arith, map,
  keep, All, last, length, ◌&&◌,
}
use matrix_agent_workspace.Effects.{
  Contract, Safe, safe_throw, Safe-then, Safe-settle_then, Safe-bind, Safe-if, Ends, Any, Settled,
  fulfilled, rejected, all_settled-Safe, Zip, AllSafe,
}
use matrix_agent_workspace.Agents.Injection.{
  InjectionPattern, AppliedInjectionPolicy, applied, apply_prompt_injection_policy,
}
use matrix_agent_workspace.Workflow.Types.{
  TerminalRunStatus, RunMode, SpecialistOutcome, ScheduledSpecialist, WorkflowOptions,
  WorkflowOutcome, EventType,
}
use matrix_agent_workspace.Workflow.Calls.{
  Call, Reply, Exn, W, is_cancelled, workflow_cancelled, run_timeout,
}
use matrix_agent_workspace.Workflow.Calls.Rules.{await-Safe}
use matrix_agent_workspace.Workflow.Specialist.{run_specialist}
use matrix_agent_workspace.Workflow.Finalize.{
  is_failed, is_completed, outcome_id, failure, build_terminal_summary,
}
use matrix_agent_workspace.Workflow.Schedule.{
  fails_run, join_failed, join_results, end_by, collect, base_input, run_parallel, prior_list,
  sequential_input, after_turn, run_sequential, run_pending,
}
use matrix_agent_workspace.Workflow.Protocol.{EndsWell, scheduled_id, InputFor}
use matrix_agent_workspace.Workflow.Protocol.Parts
use matrix_agent_workspace.Workflow.Protocol.Attempts
use matrix_agent_workspace.Workflow.Protocol.Attempts.{OutcomeOf}

-- Where no outcome failed, every outcome is completed.
none_failed : (os : List SpecialistOutcome) → keep is_failed os ≡ [] → keep is_completed os ≡ os
none_failed [] h = refl
none_failed (o ∷ os) h = ground (arith, none_failed os)

-- Every scheduled specialist has an outcome or is pending, and none has two.
abbrev pub Accounted : WorkflowOptions → List SpecialistOutcome → List ScheduledSpecialist → Type 0
Accounted opts outcomes pending =
    Perm (map outcome_id outcomes ++ map scheduled_id pending) (map scheduled_id opts.specialists)

pub Accounted-turn :
    (opts : WorkflowOptions) (outcomes : List SpecialistOutcome) (spec : ScheduledSpecialist)
    (specs : List ScheduledSpecialist) (o : SpecialistOutcome)
    → o.specialist_id ≡ spec.specialist_id
    → Accounted opts outcomes (spec ∷ specs)
    → Accounted opts (outcomes ++ o ∷ []) specs
Accounted-turn opts outcomes spec specs o id h = simp (map-append, append_assoc) (rw id h)

module _ (test : InjectionPattern → String → Bool) (opts : WorkflowOptions)
    (May : ScheduledSpecialist → Type 0) (Answers : (c : Call) → Option (Reply c) → Type 0) where
  abbrev C : Contract Call Reply
  C = Parts.C test opts May Answers

  completed_ends :
      (outcomes : List SpecialistOutcome)
      → keep is_failed outcomes ≡ []
      → Accounted opts outcomes []
      → (t : ℕ)
      → EndsWell opts TerminalRunStatus.completed
          (build_terminal_summary opts outcomes TerminalRunStatus.completed t)
          EventType.run_completed
  unfolding build_terminal_summary
  completed_ends outcomes e h t = record {
    event = refl;
    same_status = refl;
    all_completed = λ _. (ap (map failure) e, rw (none_failed outcomes e) (rw append-nil at h));
    some_failed = λ q. cc;
  }

  partial_ends :
      (outcomes : List SpecialistOutcome) (f : SpecialistOutcome) (fs : List SpecialistOutcome)
      → keep is_failed outcomes ≡ f ∷ fs
      → fails_run opts.failure_policy ≡ false
      → (t : ℕ)
      → EndsWell opts TerminalRunStatus.partial
          (build_terminal_summary opts outcomes TerminalRunStatus.partial t)
          EventType.run_partial
  unfolding build_terminal_summary
  partial_ends outcomes f fs e policy t = record {
    event = refl;
    same_status = refl;
    all_completed = λ q. cc;
    some_failed = λ _. (rw e (λ q. cc), policy);
  }

  join_failed-Safe :
      (at : ℕ) (outcomes fs : List SpecialistOutcome)
      → keep is_failed outcomes ≡ fs
      → Accounted opts outcomes []
      → Safe C (Ends Any) (join_failed opts at outcomes fs)
  join_failed-Safe at outcomes [] e h =
      Parts.finalize_terminal-Safe test opts May Answers TerminalRunStatus.completed outcomes at
        EventType.run_completed _ (completed_ends outcomes e h)
  join_failed-Safe at outcomes (f ∷ fs) e h =
      Safe-if C (fails_run opts.failure_policy)
        (λ _.
          Parts.finalize_terminal-Safe test opts May Answers TerminalRunStatus.failed outcomes at
            EventType.run_failed _ (Parts.failed_ends test opts May Answers outcomes))
        (λ p.
          Parts.finalize_terminal-Safe test opts May Answers TerminalRunStatus.partial outcomes at
            EventType.run_partial _ (partial_ends outcomes f fs e p))

  join_results-Safe :
      (at : ℕ) (outcomes : List SpecialistOutcome)
      → Accounted opts outcomes []
      → Safe C (Ends Any) (join_results opts at outcomes)
  unfolding join_results
  join_results-Safe at outcomes h = join_failed-Safe at outcomes _ refl h

  end_by-Safe :
      (at : ℕ) (outcomes : List SpecialistOutcome) (e : Exn)
      → Safe C (Ends Any) (end_by opts at outcomes e)
  unfolding end_by
  end_by-Safe at outcomes workflow_cancelled =
      Parts.end_cancelled-Safe test opts May Answers outcomes at
  end_by-Safe at outcomes (run_timeout d t) =
      Parts.end_timed_out-Safe test opts May Answers outcomes at
  end_by-Safe at outcomes _ = safe_throw _ tt

  abbrev PostOf : ScheduledSpecialist → Settled Exn SpecialistOutcome → Type 0
  PostOf spec = Ends (OutcomeOf test opts May Answers spec)

  collect-Safe :
      (at : ℕ) (outcomes : List SpecialistOutcome) (pending : List ScheduledSpecialist)
      (items : List (Settled Exn SpecialistOutcome))
      → Accounted opts outcomes pending
      → Zip C (map PostOf pending) items
      → Safe C (Ends Any) (collect opts at outcomes items)
  unfolding collect
  collect-Safe at outcomes [] [] h z = join_results-Safe at outcomes h
  collect-Safe at outcomes [] (r ∷ items) h z = absurd z
  collect-Safe at outcomes (spec ∷ specs) [] h z = absurd z
  collect-Safe at outcomes (spec ∷ specs) (fulfilled o ∷ items) h (id, z) =
      collect-Safe at (outcomes ++ o ∷ []) specs items
        (Accounted-turn opts outcomes spec specs o id h) z
  collect-Safe at outcomes (spec ∷ specs) (rejected e ∷ items) h z = end_by-Safe at outcomes e

  -- With the spans that the injection policy kept.
  module _ (policy : AppliedInjectionPolicy)
      (screened : apply_prompt_injection_policy test opts.untrusted opts.prompt_injection_mode
        ≡ applied policy) where
    tasks-Safe :
        (at : ℕ) (pending : List ScheduledSpecialist)
        → opts.mode ≡ RunMode.parallel
        → All May pending
        → AllSafe C (map PostOf pending) (
            map
              (λ spec. run_specialist opts at policy.kept_untrusted spec (base_input opts))
              pending)
    tasks-Safe at [] m may = tt
    tasks-Safe at (spec ∷ specs) m (may, mays) = (
      Attempts.run_specialist-Safe test opts May Answers spec may (base_input opts) (rw m refl)
          policy screened at,
      tasks-Safe at specs m mays,
    )

    run_parallel-Safe :
        (order : ℕ → ℕ → Bool) (at : ℕ) (outcomes : List SpecialistOutcome)
        (pending : List ScheduledSpecialist)
        → opts.mode ≡ RunMode.parallel
        → All May pending
        → Accounted opts outcomes pending
        → Safe C (Ends Any) (run_parallel order opts at policy.kept_untrusted outcomes pending)
    unfolding run_parallel
    run_parallel-Safe order at outcomes pending m mays h =
        Safe-bind C _ (all_settled-Safe C order _ _ (tasks-Safe at pending m mays))
          (λ items z. collect-Safe at outcomes pending items h z) (λ e x. absurd x)

    prior_list-le : (o : Option SpecialistOutcome) → length (prior_list o) ≤ 1
    prior_list-le none = omega arith
    prior_list-le (some o) = omega arith

    sequential_input-For :
        (prior : Option SpecialistOutcome)
        → opts.mode ≡ RunMode.sequential
        → InputFor opts.mode opts (sequential_input opts prior)
    sequential_input-For prior m = rw m (refl, prior_list-le prior)

    after_turn-Safe :
        (at : ℕ) (outcomes : List SpecialistOutcome) (spec : ScheduledSpecialist)
        {next : SpecialistOutcome → W WorkflowOutcome}
        → ((o : SpecialistOutcome)
            → OutcomeOf test opts May Answers spec o
            → Safe C (Ends Any) (next o))
        → (r : Settled Exn SpecialistOutcome) → PostOf spec r
        → Safe C (Ends Any) (after_turn opts at outcomes next r)
    after_turn-Safe at outcomes spec go (rejected e) h = end_by-Safe at outcomes e
    after_turn-Safe at outcomes spec go (fulfilled o) h =
        Safe-if C (is_failed o && fails_run opts.failure_policy)
          (λ _.
            Parts.finalize_terminal-Safe test opts May Answers TerminalRunStatus.failed
              (outcomes ++ o ∷ []) at EventType.run_failed _
              (Parts.failed_ends test opts May Answers (outcomes ++ o ∷ [])))
          (λ _. go o h)

    run_sequential-Safe :
        (at : ℕ) (outcomes : List SpecialistOutcome) (prior : Option SpecialistOutcome)
        (pending : List ScheduledSpecialist)
        → opts.mode ≡ RunMode.sequential
        → All May pending
        → Accounted opts outcomes pending
        → Safe C (Ends Any) (run_sequential opts at policy.kept_untrusted outcomes prior pending)
    unfolding run_sequential
    run_sequential-Safe at outcomes prior [] m mays h = join_results-Safe at outcomes h
    run_sequential-Safe at outcomes prior (spec ∷ specs) m (may, mays) h =
        await-Safe C is_cancelled tt (λ c _.
          Safe-if C c (λ _. Parts.end_cancelled-Safe test opts May Answers outcomes at)
            (λ _.
              Safe-settle_then C
                (Safe-then C
                  (Parts.assert_deadline-Safe test opts May Answers at opts.run_timeout_ms)
                  (λ _ _.
                    Attempts.run_specialist-Safe test opts May Answers spec may
                      (sequential_input opts prior) (sequential_input-For prior m) policy screened
                      at))
                (after_turn-Safe at outcomes spec (λ o id.
                  run_sequential-Safe at (outcomes ++ o ∷ []) (some o) specs m mays
                    (Accounted-turn opts outcomes spec specs o id h)))))

    pub run_pending-Safe :
        (order : ℕ → ℕ → Bool) (at : ℕ) (outcomes : List SpecialistOutcome)
        (pending : List ScheduledSpecialist)
        → All May pending
        → Accounted opts outcomes pending
        → Safe C (Ends Any) (run_pending order opts at policy.kept_untrusted outcomes pending)
    unfolding run_pending
    run_pending-Safe order at outcomes pending mays h = by_mode opts.mode refl
      where
        by_mode :
            (m : RunMode)
            → opts.mode ≡ m
            → Safe C (Ends Any) (elim m as (λ x. W WorkflowOutcome) [
              | RunMode.parallel ↦ run_parallel order opts at policy.kept_untrusted outcomes pending
              | RunMode.sequential ↦
                  run_sequential opts at policy.kept_untrusted outcomes (last outcomes) pending
            ])
        by_mode RunMode.parallel e = run_parallel-Safe order at outcomes pending e mays h
        by_mode RunMode.sequential e =
            run_sequential-Safe at outcomes (last outcomes) pending e mays h
