-- ===== src/Workflow/Protocol/Attempts.antt =====
-- The attempts of one specialist keep the protocol, and what they return is its outcome.
use matrix_agent_workspace.Prelude.{
  ℕ, zero, suc, ◌+◌, String, Bool, Option, none, some, ◌≡◌, refl, ltb,
}
use matrix_agent_workspace.Effects.{
  Contract, Safe, safe_ret, safe_throw, Safe-then, Safe-settle_then, Safe-if, Ends, Any, Settled,
  fulfilled, rejected,
}
use matrix_agent_workspace.Agents.Injection.{
  InjectionPattern, AppliedInjectionPolicy, applied, apply_prompt_injection_policy,
}
use matrix_agent_workspace.Workflow.Types.{
  ErrorCode, Output, RetryPolicy, SpecialistOutcome, ScheduledSpecialist, WorkflowOptions,
  SpecialistRuntimeInput, SpecialistPromptComposition, EventType, CheckpointKey,
}
use matrix_agent_workspace.Workflow.Calls.{
  Call, Reply, Exn, W, now, random, save_specialist_result, append, sleep, complete, ProviderReply,
  text, transient, timeout, permanent, provider_transient, provider_timeout, provider_permanent,
  output_invalid,
}
use matrix_agent_workspace.Workflow.Calls.Rules.{await-Safe}
use matrix_agent_workspace.Workflow.Specialist.{
  parse_answer, parsed, persist_specialist_result, attempt_once, before_retry, give_up,
  after_failure, after_attempt, attempt_loop, run_specialist, compute_backoff, completed_outcome,
  failed_outcome,
}
use matrix_agent_workspace.Workflow.Protocol.{InputFor, SentRequest}
use matrix_agent_workspace.Workflow.Protocol.Parts

module _ (test : InjectionPattern → String → Bool) (opts : WorkflowOptions)
    (May : ScheduledSpecialist → Type 0) (Answers : (c : Call) → Option (Reply c) → Type 0) where
  abbrev C : Contract Call Reply
  C = Parts.C test opts May Answers

  parsed-Safe : (spec : ScheduledSpecialist) (r : ProviderReply) → Safe C (Ends Any) (parsed spec r)
  unfolding parsed
  parsed-Safe spec (text t) = answered (spec.parse_output t)
    where
      answered : (o : Option Output) → Safe C (Ends Any) (parse_answer o)
      answered (some output) = safe_ret _ tt
      answered none = safe_throw _ tt
  parsed-Safe spec transient = safe_throw _ tt
  parsed-Safe spec timeout = safe_throw _ tt
  parsed-Safe spec permanent = safe_throw _ tt

  persist-Safe :
      (spec : ScheduledSpecialist) (o : SpecialistOutcome)
      → Safe C (Ends Any) (persist_specialist_result spec o)
  unfolding persist_specialist_result
  persist-Safe spec o = await-Safe C now tt (λ a _. await-Safe C now tt (λ b _.
      await-Safe C (save_specialist_result _) tt (λ _ _.
        Safe-then C
          (Parts.save_state-Safe test opts May Answers (CheckpointKey.specialist spec.specialist_id)
            _)
          (λ _ _.
            await-Safe C (append EventType.run_checkpointed _) refl (λ _ _. safe_ret tt tt)))))

  backoff-Safe : (n : ℕ) (policy : RetryPolicy) → Safe C (Ends Any) (compute_backoff n policy)
  unfolding compute_backoff
  backoff-Safe n policy =
      Safe-if C policy.jitter (λ _. await-Safe C random tt (λ b _. safe_ret _ tt))
        (λ _. safe_ret _ tt)

  before_retry-Safe :
      (spec : ScheduledSpecialist) (n : ℕ) → Safe C (Ends Any) (before_retry opts spec n)
  unfolding before_retry
  before_retry-Safe spec n = Safe-then C (backoff-Safe n opts.retry) (λ delay _.
      await-Safe C now tt (λ at _. await-Safe C (save_specialist_result _) tt (λ _ _.
        await-Safe C (append EventType.run_retry_scheduled _) refl
          (λ _ _. await-Safe C (sleep delay) tt (λ _ _. safe_ret tt tt)))))

  -- The outcome names the specialist.
  abbrev pub OutcomeOf : ScheduledSpecialist → SpecialistOutcome → Type 0
  OutcomeOf spec o = o.specialist_id ≡ spec.specialist_id

  give_up-Safe :
      (spec : ScheduledSpecialist) (n : ℕ) (code : ErrorCode)
      → Safe C (Ends (OutcomeOf spec)) (give_up spec n code)
  unfolding give_up
  give_up-Safe spec n code = Safe-then C (persist-Safe spec (failed_outcome spec code n)) (λ _ _.
      await-Safe C (append EventType.specialist_failed _) refl
        (λ _ _. safe_ret (failed_outcome spec code n) refl))

  after_failure-Safe :
      (spec : ScheduledSpecialist) (n : ℕ) {again : W SpecialistOutcome}
      → Safe C (Ends (OutcomeOf spec)) again
      → (e : Exn) → Safe C (Ends (OutcomeOf spec)) (after_failure opts spec n again e)
  unfolding after_failure
  after_failure-Safe spec n h provider_transient =
      Safe-if C (ltb n opts.retry.max_attempts)
        (λ _. Safe-then C (before_retry-Safe spec n) (λ _ _. h)) (λ _. give_up-Safe spec n _)
  after_failure-Safe spec n h provider_timeout = give_up-Safe spec n _
  after_failure-Safe spec n h provider_permanent = give_up-Safe spec n _
  after_failure-Safe spec n h output_invalid = give_up-Safe spec n _
  after_failure-Safe spec n h _ = safe_throw _ tt

  after_attempt-Safe :
      (spec : ScheduledSpecialist) (n : ℕ) {again : W SpecialistOutcome}
      → Safe C (Ends (OutcomeOf spec)) again
      → (r : Settled Exn SpecialistOutcome) → Ends (OutcomeOf spec) r
      → Safe C (Ends (OutcomeOf spec)) (after_attempt opts spec n again r)
  after_attempt-Safe spec n h (fulfilled o) id = safe_ret o id
  after_attempt-Safe spec n h (rejected e) id = after_failure-Safe spec n h e

  -- One specialist that may run, with an input of the mode and the spans that the policy kept.
  module _ (spec : ScheduledSpecialist) (may : May spec) (input : SpecialistRuntimeInput)
      (for_mode : InputFor opts.mode opts input) (policy : AppliedInjectionPolicy)
      (screened : apply_prompt_injection_policy test opts.untrusted opts.prompt_injection_mode
        ≡ applied policy) where
    abbrev composition : SpecialistPromptComposition
    composition = spec.compose_prompt input policy.kept_untrusted

    attempt_once-Safe :
        (n : ℕ) → Safe C (Ends (OutcomeOf spec)) (attempt_once opts spec composition n)
    unfolding attempt_once
    attempt_once-Safe n = await-Safe C (complete _) request (λ raw _.
        Safe-then C (parsed-Safe spec raw) (λ output _.
          Safe-then C (persist-Safe spec (completed_outcome spec output n)) (λ _ _.
            await-Safe C (append EventType.specialist_completed _) refl
              (λ _ _. safe_ret (completed_outcome spec output n) refl))))
      where
        request : SentRequest test opts May (record {
          specialist_id = spec.specialist_id;
          system = composition.system;
          prompt = composition.prompt;
          tools = spec.tools_allowlist;
          execution_key = opts.execution_key;
        })
        request = record {
          spec = spec;
          may = may;
          input = input;
          policy = policy;
          screened = screened;
          for_mode = for_mode;
          id = refl;
          system = refl;
          prompt = refl;
          tools = refl;
          key = refl;
        }

    attempt_loop-Safe :
        (at rounds n : ℕ)
        → Safe C (Ends (OutcomeOf spec)) (attempt_loop opts spec composition at rounds n)
    unfolding attempt_loop
    attempt_loop-Safe at zero n = give_up-Safe spec n _
    attempt_loop-Safe at (suc rounds) n =
        Safe-then C (Parts.check_cancelled-Safe test opts May Answers) (λ _ _.
          Safe-then C (Parts.assert_deadline-Safe test opts May Answers at opts.run_timeout_ms)
            (λ _ _.
              Safe-settle_then C (attempt_once-Safe (n + 1))
                (λ r h. after_attempt-Safe spec (n + 1) (attempt_loop-Safe at rounds (n + 1)) r h)))

    pub run_specialist-Safe :
        (at : ℕ)
        → Safe C (Ends (OutcomeOf spec)) (run_specialist opts at policy.kept_untrusted spec input)
    unfolding run_specialist
    run_specialist-Safe at = Safe-then C (Parts.check_cancelled-Safe test opts May Answers) (λ _ _.
        Safe-then C (Parts.assert_deadline-Safe test opts May Answers at opts.run_timeout_ms)
          (λ _ _.
            await-Safe C (append EventType.specialist_started _) refl
              (λ _ _. attempt_loop-Safe at opts.retry.max_attempts 0)))
