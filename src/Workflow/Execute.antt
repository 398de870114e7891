-- ===== src/Workflow/Execute.antt =====
-- run-workflow.ts, `executeRun`: the way to the pending specialists. `test` is the regular
-- expression test of the injection detector, `order` the event loop's interleaving.
use matrix_agent_workspace.Prelude.{
  ℕ, String, Bool, true, false, Option, none, some, List, [], ◌∷◌, ◌++◌, length, sort_by, ◌==◌,
  if◌then◌else◌,
}
use matrix_agent_workspace.Effects.{ret, throw, ◌>>=◌}
use matrix_agent_workspace.Agents.Injection.{
  UntrustedSpan, InjectionPattern, InjectionFinding, AppliedInjectionPolicy, PolicyResult, applied,
  detected, apply_prompt_injection_policy,
}
use matrix_agent_workspace.Workflow.Types.{
  RunStatus, TerminalRunStatus, terminal_status, SpecialistOutcome, ScheduledSpecialist,
  WorkflowOptions, WorkflowOutcome, EventType, started, key_mismatch, injection_detected,
  injection_excluded, CheckpointKey, init_state, injection_state, specialist_state, state_key,
  state_started,
}
use matrix_agent_workspace.Workflow.Checkpoints.{CheckpointRecord}
use matrix_agent_workspace.Workflow.Calls.{
  get_status, begin_run, is_cancelled, now, load_checkpoint, append, run_not_found, W, await,
}
use matrix_agent_workspace.Workflow.Specialist.{save_state}
use matrix_agent_workspace.Workflow.Finalize.{resume_outcome, finalize_terminal, end_cancelled}
use matrix_agent_workspace.Workflow.Schedule.{run_pending}

abbrev pub outcome_ordinal : SpecialistOutcome → ℕ
outcome_ordinal o = o.ordinal

-- The outcome that a specialist's checkpoint records, if it does.
abbrev pub recorded_outcome :
    ScheduledSpecialist → Option CheckpointRecord → Option SpecialistOutcome
recorded_outcome spec none = none
recorded_outcome spec (some r) = elim r.state [
  | specialist_state status output code attempts ↦ some (record {
    specialist_id = spec.specialist_id;
    ordinal = spec.ordinal;
    status = status;
    output = output;
    error_code = code;
    attempts = attempts;
  })
  | _ ↦ none
]

abbrev pub Split : Type 0
Split = List SpecialistOutcome × List ScheduledSpecialist

-- Where the loop over the specialists puts one of them.
abbrev pub sort_out : ScheduledSpecialist → Option SpecialistOutcome → Split → Split
sort_out spec (some o) (outcomes, pending) = (outcomes ++ o ∷ [], pending)
sort_out spec none (outcomes, pending) = (outcomes, pending ++ spec ∷ [])

-- `for (const spec of opts.specialists)`: load the completed specialists from their checkpoints.
unfoldable pub load_split : Split → List ScheduledSpecialist → W Split
load_split split [] = ret split
load_split split (spec ∷ specs) =
    await (load_checkpoint (CheckpointKey.specialist spec.specialist_id)) >>= λ cp.
    load_split (sort_out spec (recorded_outcome spec cp) split) specs

abbrev pub key_of : Option CheckpointRecord → Option String
key_of none = none
key_of (some r) = state_key r.state

abbrev pub started_of : Option CheckpointRecord → Option ℕ
started_of none = none
started_of (some r) = state_started r.state

abbrev pub is_key : Option String → String → Bool
is_key none key = false
is_key (some k) key = k == key

-- An execution key that is not the recorded one fails the run.
unfoldable pub end_mismatched : WorkflowOptions → Option String → W WorkflowOutcome
end_mismatched opts recorded = do
  at ← await now
  finalize_terminal opts TerminalRunStatus.failed [] at EventType.run_failed
      (key_mismatch opts.execution_key recorded)

unfoldable pub end_cancelled_early : WorkflowOptions → W WorkflowOutcome
end_cancelled_early opts = do at ← await now; end_cancelled opts [] at

module _ (test : InjectionPattern → String → Bool) (order : ℕ → ℕ → Bool) where
  unfoldable pub run_specialists : WorkflowOptions → ℕ → List UntrustedSpan → W WorkflowOutcome
  run_specialists opts started_at untrusted = do
    split ← load_split ([], []) opts.specialists
    run_pending order opts started_at untrusted (sort_by outcome_ordinal split.0) split.1

  abbrev pub note_injection : AppliedInjectionPolicy → Option ℕ → W (Unit {0})
  note_injection policy none = ret tt
  note_injection policy (some marker) = do
    _ ← await (append EventType.run_checkpointed (injection_excluded policy.excluded_span_sources))
    ret tt

  abbrev pub mark_findings :
      WorkflowOptions → AppliedInjectionPolicy → List InjectionFinding → W (Unit {0})
  mark_findings opts policy [] = ret tt
  mark_findings opts policy (f ∷ fs) = do
    marker ←
        save_state CheckpointKey.injection
          (injection_state (length policy.findings) opts.prompt_injection_mode) 0
    note_injection policy marker

  -- The safety event, once per run: only the execution that creates the marker emits it.
  unfoldable pub mark_injection : WorkflowOptions → AppliedInjectionPolicy → W (Unit {0})
  mark_injection opts policy = mark_findings opts policy policy.findings

  abbrev pub apply_policy : WorkflowOptions → ℕ → PolicyResult → W WorkflowOutcome
  apply_policy opts started_at (detected findings) =
      finalize_terminal opts TerminalRunStatus.failed [] started_at EventType.run_failed
        (injection_detected findings)
  apply_policy opts started_at (applied policy) =
      mark_injection opts policy >>= λ _. run_specialists opts started_at policy.kept_untrusted

  unfoldable pub with_policy : WorkflowOptions → ℕ → W WorkflowOutcome
  with_policy opts started_at =
      apply_policy opts started_at
        (apply_prompt_injection_policy test opts.untrusted opts.prompt_injection_mode)

  abbrev pub start_from : WorkflowOptions → Option ℕ → W WorkflowOutcome
  start_from opts (some at) = with_policy opts at
  start_from opts none = await now >>= with_policy opts

  -- With the init checkpoint in place; `startedAt` is the recorded one.
  unfoldable pub prepared : WorkflowOptions → Option CheckpointRecord → W WorkflowOutcome
  prepared opts init = start_from opts (started_of init)

  abbrev pub reload : WorkflowOptions → W WorkflowOutcome
  reload opts = await (load_checkpoint CheckpointKey.init) >>= prepared opts

  -- The outcome of the race to create the init checkpoint.
  abbrev pub after_create : WorkflowOptions → Bool → Option ℕ → W WorkflowOutcome
  after_create opts began none = do
    winner ← await (load_checkpoint CheckpointKey.init)
    if is_key (key_of winner) opts.execution_key
        then reload opts
        else end_mismatched opts (key_of winner)
  after_create opts true (some v) = do
    _ ← await (append EventType.run_started (started opts.mode opts.execution_key))
    reload opts
  after_create opts false (some v) = reload opts

  -- `began` tells whether this execution made the run `running`.
  unfoldable pub create_init : WorkflowOptions → Bool → W WorkflowOutcome
  create_init opts began = do
    at ← await now
    created ← save_state CheckpointKey.init (init_state opts.execution_key opts.prompt_hash at) 0
    after_create opts began created

  -- The run was not `queued`: it was ended, cancelled, or begun by another execution.
  abbrev pub after_race : WorkflowOptions → Option TerminalRunStatus → W WorkflowOutcome
  after_race opts (some t) = resume_outcome t
  after_race opts none = do
    c ← await is_cancelled
    if c then end_cancelled_early opts else create_init opts false

  abbrev pub after_begin : WorkflowOptions → Option RunStatus → W WorkflowOutcome
  after_begin opts (some s) = create_init opts true
  after_begin opts none = do raced ← await get_status; after_race opts (terminal_status raced)

  abbrev pub after_load : WorkflowOptions → Option CheckpointRecord → W WorkflowOutcome
  after_load opts none = do began ← await begin_run; after_begin opts began
  after_load opts (some r) =
      if is_key (state_key r.state) opts.execution_key
      then prepared opts (some r)
      else end_mismatched opts (state_key r.state)

  unfoldable pub unfinished : WorkflowOptions → W WorkflowOutcome
  unfinished opts = do
    c ← await is_cancelled
    if c
        then end_cancelled_early opts
        else (await (load_checkpoint CheckpointKey.init) >>= after_load opts)

  -- The terminal fast path, or the execution proper.
  abbrev pub resume_or : WorkflowOptions → Option TerminalRunStatus → W WorkflowOutcome
  resume_or opts (some t) = resume_outcome t
  resume_or opts none = unfinished opts

  abbrev pub after_status : WorkflowOptions → Option RunStatus → W WorkflowOutcome
  after_status opts none = throw run_not_found
  after_status opts (some s) = resume_or opts (terminal_status (some s))

  unfoldable pub execute_run : WorkflowOptions → W WorkflowOutcome
  execute_run opts = await get_status >>= after_status opts
