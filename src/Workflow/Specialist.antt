-- ===== src/Workflow/Specialist.antt =====
-- run-workflow.ts, `runSpecialist` and what it calls: the attempts of one specialist.
pub mod Backoff
use matrix_agent_workspace.Prelude.{
  List, ℕ, zero, suc, ◌+◌, ◌-◌, ◌*◌, ◌/◌, ◌^◌, min, String, Option, none, some, ltb, if◌then◌else◌,
}
use Prim.Native.String
use matrix_agent_workspace.Effects.{ret, throw, settle, Settled, fulfilled, rejected, ◌>>=◌, ◌>>◌}
use matrix_agent_workspace.Agents.Injection.{UntrustedSpan}
use matrix_agent_workspace.Workflow.Types.{
  OutcomeStatus, SpecialistRunStatus, ErrorCode, Output, RetryPolicy, SpecialistOutcome,
  ScheduledSpecialist, SpecialistRuntimeInput, SpecialistPromptComposition, WorkflowOptions,
  EventType, checkpoint_saved, attempt_started, attempt_completed, attempts_failed, retry_scheduled,
  CheckpointKey, CheckpointState, specialist_state, summarize_output,
}
use matrix_agent_workspace.Workflow.Checkpoints.{SaveResult, saved, lost, conflict}
use matrix_agent_workspace.Workflow.Calls.{
  is_cancelled, now, random, save_specialist_result, save_checkpoint, append, sleep, complete, Exn,
  workflow_cancelled, run_timeout, checkpoint_conflict, provider_transient, provider_timeout,
  provider_permanent, output_invalid, ProviderReply, text, transient, timeout, permanent, W, await,
}

-- `checkpoints.save`, whose conflict is an exception: the new version, or `null`.
abbrev pub save_answer : SaveResult → W (Option ℕ)
save_answer (saved v) = ret (some v)
save_answer lost = ret none
save_answer conflict = throw checkpoint_conflict

unfoldable pub save_state : CheckpointKey → CheckpointState → ℕ → W (Option ℕ)
save_state key state expected = do r ← await (save_checkpoint key state expected); save_answer r

-- `assertDeadline(startedAt, timeoutMs, services.now())`. The clock does not run backwards past
-- `startedAt`; where it did, the difference here is 0, and negative in the code.
unfoldable pub assert_deadline : ℕ → ℕ → W (Unit {0})
assert_deadline started_at timeout_ms = do
  at ← await now
  if ltb timeout_ms (at - started_at)
      then throw (run_timeout (started_at + timeout_ms) at)
      else ret tt

-- `if (await cancellation.isCancelled(runId)) throw new WorkflowCancelledSignal()`.
unfoldable pub check_cancelled : W (Unit {0})
check_cancelled = do c ← await is_cancelled; if c then throw workflow_cancelled else ret tt

-- `Math.floor(Math.random() * capped * 0.25)`; the random number is `bits / 2 ^ 53`.
unfoldable pub jitter_of : ℕ → ℕ → ℕ
jitter_of bits capped = (bits * capped) / (4 * 2 ^ 53)

unfoldable pub capped_delay : ℕ → RetryPolicy → ℕ
capped_delay attempt policy = min (policy.base_delay_ms * 2 ^ (attempt - 1)) policy.max_delay_ms

-- `computeBackoff(attempt, policy)`.
unfoldable pub compute_backoff : ℕ → RetryPolicy → W ℕ
compute_backoff attempt policy =
    let capped = capped_delay attempt policy in
    let jittered = await random >>= λ bits. ret (capped + jitter_of bits capped) in
    if policy.jitter then jittered else ret capped

unfoldable pub error_code_of : Exn → ErrorCode
error_code_of provider_timeout = ErrorCode.provider_timeout
error_code_of provider_permanent = ErrorCode.provider_permanent
error_code_of output_invalid = ErrorCode.specialist_output_invalid
error_code_of _ = ErrorCode.provider_permanent

abbrev persisted_status : OutcomeStatus → SpecialistRunStatus
persisted_status OutcomeStatus.completed = SpecialistRunStatus.completed
persisted_status OutcomeStatus.failed = SpecialistRunStatus.failed

-- `specialist:${id}`, as the text of an event.
abbrev pub checkpoint_name : String → String
checkpoint_name id = String.◌++◌ "specialist:" id

unfoldable pub persist_specialist_result : ScheduledSpecialist → SpecialistOutcome → W (Unit {0})
persist_specialist_result spec outcome = do
  started ← await now
  completed ← await now
  _ ← await (
      save_specialist_result (record {
        specialist_id = spec.specialist_id;
        ordinal = spec.ordinal;
        status = persisted_status outcome.status;
        attempt_count = outcome.attempts;
        output = outcome.output;
        error_code = outcome.error_code;
        started_at = some started;
        completed_at = some completed;
      }))
  _ ←
      save_state (CheckpointKey.specialist spec.specialist_id)
        (specialist_state outcome.status outcome.output outcome.error_code outcome.attempts) 0
  _ ←
      await
        (append EventType.run_checkpointed (checkpoint_saved (checkpoint_name spec.specialist_id)))
  ret tt

-- `spec.parseOutput(raw.text)`, where the provider returned a text.
abbrev pub parse_answer : Option Output → W Output
parse_answer (some output) = ret output
parse_answer none = throw output_invalid

unfoldable pub parsed : ScheduledSpecialist → ProviderReply → W Output
parsed spec (text t) = parse_answer (spec.parse_output t)
parsed spec transient = throw provider_transient
parsed spec timeout = throw provider_timeout
parsed spec permanent = throw provider_permanent

abbrev pub completed_outcome : ScheduledSpecialist → Output → ℕ → SpecialistOutcome
completed_outcome spec output attempts = record {
  specialist_id = spec.specialist_id;
  ordinal = spec.ordinal;
  status = OutcomeStatus.completed;
  output = some output;
  error_code = none;
  attempts = attempts;
}

abbrev pub failed_outcome : ScheduledSpecialist → ErrorCode → ℕ → SpecialistOutcome
failed_outcome spec code attempts = record {
  specialist_id = spec.specialist_id;
  ordinal = spec.ordinal;
  status = OutcomeStatus.failed;
  output = none;
  error_code = some code;
  attempts = attempts;
}

-- One attempt: the body of the `try` block, less what it returns.
unfoldable pub attempt_once :
    WorkflowOptions → ScheduledSpecialist → SpecialistPromptComposition → ℕ → W SpecialistOutcome
attempt_once opts spec composition attempts = do
  raw ← await (
      complete (record {
        specialist_id = spec.specialist_id;
        system = composition.system;
        prompt = composition.prompt;
        tools = spec.tools_allowlist;
        execution_key = opts.execution_key;
      }))
  output ← parsed spec raw
  let outcome = completed_outcome spec output attempts
  _ ← persist_specialist_result spec outcome
  _ ← await (
      append EventType.specialist_completed (
        attempt_completed spec.specialist_id spec.ordinal attempts
          (summarize_output (some output))))
  ret outcome

-- What the loop does after a transient failure: it records the attempt and the delay, and sleeps.
unfoldable pub before_retry : WorkflowOptions → ScheduledSpecialist → ℕ → W (Unit {0})
before_retry opts spec attempts = do
  delay ← compute_backoff attempts opts.retry
  at ← await now
  _ ← await (
      save_specialist_result (record {
        specialist_id = spec.specialist_id;
        ordinal = spec.ordinal;
        status = SpecialistRunStatus.retrying;
        attempt_count = attempts;
        output = none;
        error_code = some ErrorCode.provider_transient;
        started_at = some at;
        completed_at = none;
      }))
  _ ← await (
      append EventType.run_retry_scheduled
        (retry_scheduled spec.specialist_id spec.ordinal attempts (attempts + 1) delay))
  _ ← await (sleep delay)
  ret tt

-- What stands below the loop: the specialist failed, and that is persisted.
unfoldable pub give_up : ScheduledSpecialist → ℕ → ErrorCode → W SpecialistOutcome
give_up spec attempts code = do
  let failed = failed_outcome spec code attempts
  _ ← persist_specialist_result spec failed
  _ ← await (
      append EventType.specialist_failed
        (attempts_failed spec.specialist_id spec.ordinal code attempts))
  ret failed

-- The `catch` block. `again` is the rest of the loop.
unfoldable pub after_failure :
    WorkflowOptions → ScheduledSpecialist → ℕ → W SpecialistOutcome → Exn → W SpecialistOutcome
after_failure opts spec attempts again provider_transient =
    if ltb attempts opts.retry.max_attempts
    then (before_retry opts spec attempts >>= λ _. again)
    else give_up spec attempts ErrorCode.provider_unavailable
after_failure opts spec attempts again provider_timeout =
    give_up spec attempts (error_code_of provider_timeout)
after_failure opts spec attempts again provider_permanent =
    give_up spec attempts (error_code_of provider_permanent)
after_failure opts spec attempts again output_invalid =
    give_up spec attempts (error_code_of output_invalid)
after_failure opts spec attempts again e = throw e

abbrev pub after_attempt :
    WorkflowOptions
    → ScheduledSpecialist
    → ℕ
    → W SpecialistOutcome
    → Settled Exn SpecialistOutcome
    → W SpecialistOutcome
after_attempt opts spec attempts again (fulfilled outcome) = ret outcome
after_attempt opts spec attempts again (rejected e) = after_failure opts spec attempts again e

-- `while (attempts < maxAttempts)`, with `maxAttempts - attempts` rounds left. The loop is left by
-- its condition only where no attempt is allowed at all; then no error was recorded.
unfoldable pub attempt_loop :
    WorkflowOptions
    → ScheduledSpecialist
    → SpecialistPromptComposition
    → ℕ
    → ℕ
    → ℕ
    → W SpecialistOutcome
attempt_loop opts spec composition started_at zero attempts =
    give_up spec attempts ErrorCode.provider_permanent
attempt_loop opts spec composition started_at (suc rounds) attempts = check_cancelled >>= λ _.
    assert_deadline started_at opts.run_timeout_ms >>= λ _.
    settle (attempt_once opts spec composition (attempts + 1))
    >>= after_attempt opts spec (attempts + 1)
        (attempt_loop opts spec composition started_at rounds (attempts + 1))

unfoldable pub run_specialist :
    WorkflowOptions
    → ℕ
    → List UntrustedSpan
    → ScheduledSpecialist
    → SpecialistRuntimeInput
    → W SpecialistOutcome
run_specialist opts started_at untrusted spec input = do
  check_cancelled
  assert_deadline started_at opts.run_timeout_ms
  let composition = spec.compose_prompt input untrusted
  _ ←
      await
        (append EventType.specialist_started (attempt_started spec.specialist_id spec.ordinal 1))
  attempt_loop opts spec composition started_at opts.retry.max_attempts 0
