-- ===== src/Github/Types.antt =====
-- The data of the mutation path: write-authorization.ts, approval-service.ts, mutation-command.ts.
-- Times are milliseconds; the code stores them as ISO texts and parses them back. `createdAt` and
-- `updatedAt` are left out: nothing on this path reads them.
use matrix_agent_workspace.Prelude.{
  ℕ, String, Bool, true, false, Option, none, some, ◌==◌, if◌then◌else◌,
}
use matrix_agent_workspace.Json.{Json, Fields}

pub data WriteScope : Type 0 where
  issues_write pull_requests_write : WriteScope

-- `'issues:write'` and `'pull_requests:write'`.
abbrev pub scope_name : WriteScope → String
scope_name issues_write = "issues:write"
scope_name pull_requests_write = "pull_requests:write"

abbrev pub scope_eq : WriteScope → WriteScope → Bool
scope_eq issues_write issues_write = true
scope_eq pull_requests_write pull_requests_write = true
scope_eq _ _ = false

pub data WriteGrantStatus : Type 0 where
  pending approved revoked : WriteGrantStatus

pub record GithubWriteGrant : Type 0 where
  pub id : String
  pub workspace_id : String
  pub granted_by : String
  pub repository : String
  pub scope : WriteScope
  pub status : WriteGrantStatus
  pub approved_at : Option ℕ
  pub expires_at : Option ℕ

pub data ApprovalDecision : Type 0 where
  approved denied : ApprovalDecision

pub record MutationApproval : Type 0 where
  pub id : String
  pub workspace_id : String
  pub run_id : Option String
  pub user_id : String
  pub scope : WriteScope
  pub command_hash : String
  pub decision : ApprovalDecision
  pub confirmation_text : String
  pub expires_at : ℕ

pub data MutationOperation : Type 0 where
  create_issue update_issue comment_issue create_pr_comment : MutationOperation

abbrev pub operation_name : MutationOperation → String
operation_name create_issue = "create_issue"
operation_name update_issue = "update_issue"
operation_name comment_issue = "comment_issue"
operation_name create_pr_comment = "create_pr_comment"

-- `isMutationOperation(value)`, with the narrowed value.
unfoldable pub operation_of : String → Option MutationOperation
operation_of s =
    if s == "create_issue"
    then some create_issue
    else if s == "update_issue"
    then some update_issue
    else if s == "comment_issue"
    then some comment_issue
    else if s == "create_pr_comment"
    then some create_pr_comment
    else none

unfoldable pub scope_for_operation : MutationOperation → WriteScope
scope_for_operation create_pr_comment = pull_requests_write
scope_for_operation _ = issues_write

pub data MutationCommandStatus : Type 0 where
  queued completed failed : MutationCommandStatus

pub record MutationCommand : Type 0 where
  pub id : String
  pub workspace_id : String
  pub run_id : Option String
  pub user_id : String
  pub idempotency_key : String
  pub approval_id : Option String
  pub repository : String
  pub operation : MutationOperation
  pub arguments_hash : String
  pub arguments : Fields
  pub status : MutationCommandStatus
  pub provider_result : Option Fields
  pub attempts : ℕ
  pub error_code : Option String

pub data AuditOutcome : Type 0 where
  queued denied failed completed : AuditOutcome

-- The details that the path records: redacted texts, or an error code.
pub data AuditDetails : Type 0 where
  arguments_redacted all_redacted : AuditDetails
  error_details : String → AuditDetails

pub record AuditRecordInput : Type 0 where
  pub workspace_id : String
  pub actor_user_id : String
  pub actor_matrix_id : Option String
  pub scope : WriteScope
  pub repository : String
  pub operation : MutationOperation
  pub arguments_hash : String
  pub approval_id : Option String
  pub command_id : Option String
  pub outcome : AuditOutcome
  pub details : AuditDetails

-- A call of the mutation client, one constructor for each method.
pub data ClientRequest : Type 0 where
  create_issue_request : String → String → Option String → ClientRequest
  update_issue_request : String → ℕ → Option String → Option String → Option Json → ClientRequest
  comment_issue_request : String → ℕ → String → ClientRequest
  create_pr_comment_request : String → ℕ → String → ClientRequest

pub data MutationError : Type 0 where
  write_scope_required approval_not_found approval_denied approval_expired : MutationError
  approval_mismatch approval_confirmation_required : MutationError
  command_not_allowed mutation_command_not_found github_mutation_failed : MutationError
  other_error : MutationError

-- `error.code`, where the error has one.
unfoldable pub error_code : MutationError → Option String
error_code write_scope_required = some "WRITE_SCOPE_REQUIRED"
error_code approval_not_found = some "APPROVAL_NOT_FOUND"
error_code approval_denied = some "APPROVAL_DENIED"
error_code approval_expired = some "APPROVAL_EXPIRED"
error_code approval_mismatch = some "APPROVAL_MISMATCH"
error_code approval_confirmation_required = some "APPROVAL_CONFIRMATION_REQUIRED"
error_code command_not_allowed = some "COMMAND_NOT_ALLOWED"
error_code mutation_command_not_found = some "MUTATION_COMMAND_NOT_FOUND"
error_code github_mutation_failed = some "GITHUB_MUTATION_FAILED"
error_code other_error = none

abbrev pub or_else {ℓ} : {A : Type ℓ} → Option A → A → A
or_else (some a) b = a
or_else none b = b

-- What the JavaScript platform and its packages contribute: the repository pattern's regular
-- expression, the zod schemas, SHA-256 with `JSON.stringify` of the canonical command, `toLowerCase`,
-- the test for blank text (`trim().length === 0`), `String(…)` and `Number(…)`.
pub record Platform : Type 0 where
  pub is_repository : String → Bool
  pub safe_parse : MutationOperation → Json → Option Fields
  pub command_hash : MutationOperation → Fields → String
  pub to_lower_case : String → String
  pub is_blank : String → Bool
  pub to_string : Option Json → String
  pub to_number : Option Json → ℕ
