-- ===== src/Github/Worker.antt =====
-- mutation-worker.ts: `process`, which executes one mutation command.
use matrix_agent_workspace.Prelude.{
  String, Bool, true, false, Option, none, some, ◌==◌, if◌then◌else◌,
}
use matrix_agent_workspace.Json.{Json, str, Fields, end, field, get}
use matrix_agent_workspace.Effects.{ret, throw, settle, Settled, fulfilled, rejected, ◌>>=◌, ◌>>◌}
use matrix_agent_workspace.Github.Types.{
  create_issue, update_issue, comment_issue, create_pr_comment, operation_name, scope_for_operation,
  MutationCommand, MutationCommandStatus, AuditOutcome, AuditDetails, all_redacted, error_details,
  AuditRecordInput, ClientRequest, create_issue_request, update_issue_request,
  comment_issue_request, create_pr_comment_request, MutationError, approval_not_found,
  mutation_command_not_found, github_mutation_failed, error_code, or_else, Platform,
}
use matrix_agent_workspace.Github.Calls.{
  get_command, persist_provider_result, mark_completed, mark_failed, record_audit, mutate, G, await,
}
use matrix_agent_workspace.Github.Gates.{authorize_write_scope, check_approval}

-- `{ ...result, operation }`.
pub with_field : String → Json → Fields → Fields
with_field key value end = field key value end
with_field key value (field k v fs) =
    let rest = with_field key value fs in if k == key then field k value fs else field k v rest

abbrev optional_text : Platform → Option Json → Option String
optional_text platform none = none
optional_text platform (some v) = some (platform.to_string (some v))

-- The call of the client that `executeWithClient` makes.
unfoldable pub client_request : Platform → MutationCommand → ClientRequest
client_request platform command = elim command.operation [
  | create_issue ↦
      create_issue_request command.repository
        (platform.to_string (some (or_else (get "title" command.arguments) (str ""))))
        (optional_text platform (get "body" command.arguments))
  | update_issue ↦
      update_issue_request command.repository
        (platform.to_number (get "issueNumber" command.arguments))
        (optional_text platform (get "title" command.arguments))
        (optional_text platform (get "body" command.arguments)) (get "state" command.arguments)
  | comment_issue ↦
      comment_issue_request command.repository
        (platform.to_number (get "issueNumber" command.arguments))
        (platform.to_string (get "body" command.arguments))
  | create_pr_comment ↦
      create_pr_comment_request command.repository
        (platform.to_number (get "pullNumber" command.arguments))
        (platform.to_string (get "body" command.arguments))
]

-- `executeWithClient`.
abbrev pub client_answer : MutationCommand → Option Fields → G Fields
client_answer command none = throw github_mutation_failed
client_answer command (some result) =
    ret (with_field "operation" (str (operation_name command.operation)) result)

unfoldable pub execute_with_client : Platform → String → MutationCommand → G Fields
execute_with_client platform id command = do
  answer ← await (mutate id (client_request platform command))
  client_answer command answer

abbrev pub worker_audit : String → MutationCommand → AuditOutcome → AuditDetails → AuditRecordInput
worker_audit id command outcome details = record {
  workspace_id = command.workspace_id;
  actor_user_id = command.user_id;
  actor_matrix_id = none;
  scope = scope_for_operation command.operation;
  repository = command.repository;
  operation = command.operation;
  arguments_hash = command.arguments_hash;
  approval_id = command.approval_id;
  command_id = some id;
  outcome = outcome;
  details = details;
}

-- `auditStore.record(…).catch(() => undefined)`.
unfoldable pub try_audit : AuditRecordInput → G (Unit {0})
try_audit input = settle (await (record_audit input)) >>= λ _. ret tt

abbrev pub after_completed :
    String → MutationCommand → Option MutationCommand → G (Option MutationCommand)
after_completed id command none = await (get_command id)
after_completed id command (some completed) = do
  try_audit (worker_audit id command AuditOutcome.completed all_redacted)
  ret (some completed)

-- Mark the command complete with a result, and record that.
unfoldable pub complete_command : String → MutationCommand → Fields → G (Option MutationCommand)
complete_command id command result = do
  completed ← await (mark_completed id result)
  after_completed id command completed

-- What both `catch` blocks do: mark the command failed, record that, and throw again.
unfoldable pub fail_command :
    String → MutationCommand → AuditOutcome → MutationError → G (Option MutationCommand)
fail_command id command outcome error =
    let code = or_else (error_code error) "MUTATION_FAILED" in
    await (mark_failed id code) >>= λ _.
    try_audit (worker_audit id command outcome (error_details code)) >>= λ _. throw error

abbrev pub checked_approval : MutationCommand → Option String → G (Unit {0})
checked_approval command none = throw approval_not_found
checked_approval command (some id) =
    if id == ""
    then throw approval_not_found
    else (check_approval (record {
      approval_id = id;
      workspace_id = command.workspace_id;
      run_id = command.run_id;
      user_id = command.user_id;
      scope = scope_for_operation command.operation;
      command_hash = command.arguments_hash;
    })
        >>= λ _. ret tt)

-- The re-authorization, immediately before the mutation.
unfoldable pub reauthorize : MutationCommand → G (Unit {0})
reauthorize command =
    authorize_write_scope command.workspace_id command.repository
      (scope_for_operation command.operation)
    >>= λ _. checked_approval command command.approval_id

-- The provider result is persisted before the command is marked complete.
abbrev pub after_client :
    String → MutationCommand → Settled MutationError Fields → G (Option MutationCommand)
after_client id command (rejected error) = fail_command id command AuditOutcome.failed error
after_client id command (fulfilled result) =
    await (persist_provider_result id result) >>= λ _. complete_command id command result

abbrev pub after_reauthorize :
    Platform
    → String
    → MutationCommand
    → Settled MutationError (Unit {0})
    → G (Option MutationCommand)
after_reauthorize platform id command (rejected error) =
    fail_command id command AuditOutcome.denied error
after_reauthorize platform id command (fulfilled ok) =
    settle (execute_with_client platform id command) >>= after_client id command

abbrev pub process_open :
    Platform → String → MutationCommand → Option Fields → G (Option MutationCommand)
process_open platform id command (some stored) = complete_command id command stored
process_open platform id command none =
    settle (reauthorize command) >>= after_reauthorize platform id command

abbrev pub is_completed : MutationCommandStatus → Bool
is_completed MutationCommandStatus.completed = true
is_completed _ = false

abbrev pub process_found : Platform → String → Option MutationCommand → G (Option MutationCommand)
process_found platform id none = throw mutation_command_not_found
process_found platform id (some command) =
    if is_completed command.status
    then ret (some command)
    else process_open platform id command command.provider_result

unfoldable pub process : Platform → String → G (Option MutationCommand)
process platform id = do command ← await (get_command id); process_found platform id command
