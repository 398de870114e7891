-- ===== src/Github/Enqueue.antt =====
-- mutation-command.ts: `enqueueMutationCommand`, with the checks of a request.
use Prim.Native.String
use matrix_agent_workspace.Prelude.{String, Bool, true, false, Option, none, some, if◌then◌else◌}
use matrix_agent_workspace.Json.{Json, Fields}
use matrix_agent_workspace.Effects.{ret, throw, settle, Settled, fulfilled, rejected, ◌>>=◌}
use matrix_agent_workspace.Github.Types.{
  MutationOperation, operation_of, scope_for_operation, MutationCommand, MutationCommandStatus,
  AuditOutcome, AuditDetails, arguments_redacted, error_details, AuditRecordInput, MutationError,
  command_not_allowed, error_code, or_else, Platform,
}
use matrix_agent_workspace.Github.Calls.{
  find_command_by_key, insert_command, get_command, record_audit, random_id, G, await,
}
use matrix_agent_workspace.Github.Gates.{authorize_write_scope, check_approval}
use matrix_agent_workspace.Github.Worker.{process, try_audit}

pub record EnqueueMutationInput : Type 0 where
  pub user_id : String
  pub workspace_id : String
  pub run_id : Option String
  pub idempotency_key : String
  pub approval_id : String
  pub repository : String
  pub operation : String
  pub arguments : Json
  pub actor_matrix_id : Option String

pub record EnqueueMutationResult : Type 0 where
  pub command : MutationCommand
  pub replayed : Bool

-- A request that passed `parseRepository` and `validateMutationCommand`.
pub record ValidatedCommand : Type 0 where
  pub operation : MutationOperation
  pub arguments : Fields

abbrev pub validated_arguments : MutationOperation → Option Fields → G ValidatedCommand
validated_arguments operation none = throw command_not_allowed
validated_arguments operation (some arguments) =
    ret (record { operation = operation; arguments = arguments })

abbrev pub validated_operation : Platform → Json → Option MutationOperation → G ValidatedCommand
validated_operation platform arguments none = throw command_not_allowed
validated_operation platform arguments (some operation) =
    validated_arguments operation (platform.safe_parse operation arguments)

-- `validateMutationCommand({ operation, arguments })`.
unfoldable pub validate_mutation_command : Platform → String → Json → G ValidatedCommand
validate_mutation_command platform operation arguments =
    validated_operation platform arguments (operation_of operation)

unfoldable pub parse_repository : Platform → String → G (Unit {0})
parse_repository platform repository =
    if platform.is_repository repository then ret tt else throw command_not_allowed

-- `worker` tells whether the deployment has a worker; `input` is the request, `command` what passed.
module _ (platform : Platform) (worker : Bool) (input : EnqueueMutationInput)
    (command : ValidatedCommand) where
  abbrev pub hash : String
  hash = platform.command_hash command.operation command.arguments

  abbrev pub request_audit : Option String → AuditOutcome → AuditDetails → AuditRecordInput
  request_audit command_id outcome details = record {
    workspace_id = input.workspace_id;
    actor_user_id = input.user_id;
    actor_matrix_id = input.actor_matrix_id;
    scope = scope_for_operation command.operation;
    repository = input.repository;
    operation = command.operation;
    arguments_hash = hash;
    approval_id = some input.approval_id;
    command_id = command_id;
    outcome = outcome;
    details = details;
  }

  -- The two gates of a new command.
  unfoldable pub pass_gates : G (Unit {0})
  pass_gates =
      authorize_write_scope input.workspace_id input.repository
        (scope_for_operation command.operation)
      >>= λ _.
          check_approval (record {
            approval_id = input.approval_id;
            workspace_id = input.workspace_id;
            run_id = input.run_id;
            user_id = input.user_id;
            scope = scope_for_operation command.operation;
            command_hash = hash;
          })
          >>= λ _. ret tt

  -- `newCommand` of the request.
  abbrev pub new_command : String → MutationCommand
  new_command id = record {
    id = id;
    workspace_id = input.workspace_id;
    run_id = input.run_id;
    user_id = input.user_id;
    idempotency_key = input.idempotency_key;
    approval_id = some input.approval_id;
    repository = input.repository;
    operation = command.operation;
    arguments_hash = hash;
    arguments = command.arguments;
    status = MutationCommandStatus.queued;
    provider_result = none;
    attempts = 0;
    error_code = none;
  }

  abbrev pub run_worker : MutationCommand → G (Unit {0})
  run_worker inserted = if worker then (process platform inserted.id >>= λ _. ret tt) else ret tt

  abbrev pub after_insert : MutationCommand × Bool → G EnqueueMutationResult
  after_insert (inserted, true) = ret (record { command = inserted; replayed = true })
  after_insert (inserted, false) =
      await (record_audit (request_audit (some inserted.id) AuditOutcome.queued arguments_redacted))
      >>= λ _. run_worker inserted >>= λ _. await (get_command inserted.id) >>= λ current.
          ret (record { command = or_else current inserted; replayed = false })

  abbrev pub after_gates : Settled MutationError (Unit {0}) → G EnqueueMutationResult
  after_gates (rejected error) =
      try_audit (
        request_audit none AuditOutcome.denied
          (error_details (or_else (error_code error) "MUTATION_DENIED")))
      >>= λ _. throw error
  after_gates (fulfilled ok) = await random_id >>= λ uuid.
      await (insert_command (new_command (String.◌++◌ "gcmd_" uuid))) >>= after_insert

  -- Queued, with a provider result: the worker stopped after the result was stored.
  abbrev pub is_interrupted : MutationCommandStatus → Option Fields → Bool
  is_interrupted MutationCommandStatus.queued (some result) = true
  is_interrupted _ _ = false

  abbrev pub replay : MutationCommand → G EnqueueMutationResult
  replay existing =
      let resume = process platform existing.id >>= λ resumed.
      ret (record { command = or_else resumed existing; replayed = true }) in
      if is_interrupted existing.status existing.provider_result
      then (if worker then resume else ret (record { command = existing; replayed = true }))
      else ret (record { command = existing; replayed = true })

  abbrev pub after_find : Option MutationCommand → G EnqueueMutationResult
  after_find (some existing) = replay existing
  after_find none = settle pass_gates >>= after_gates

  unfoldable pub enqueue_validated : G EnqueueMutationResult
  enqueue_validated =
      await (find_command_by_key input.workspace_id input.idempotency_key) >>= after_find

unfoldable pub enqueue_mutation_command :
    Platform → Bool → EnqueueMutationInput → G EnqueueMutationResult
enqueue_mutation_command platform worker input = parse_repository platform input.repository >>= λ _.
    validate_mutation_command platform input.operation input.arguments
    >>= enqueue_validated platform worker input
