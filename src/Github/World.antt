-- ===== src/Github/World.antt =====
-- The tables of the mutation path, as the in-memory stores keep them: write grants
-- (write-authorization.ts, `InMemoryWriteGrantStore`), approvals (approval-service.ts,
-- `InMemoryApprovalStore`), commands and audit records (mutation-command.ts,
-- `InMemoryMutationCommandStore`, `InMemoryAuditStore`), and what GitHub has received.
pub mod Tables
pub mod GrantRows
pub mod Keys
use Prim.Native.String
unfoldable pub use matrix_agent_workspace.Prelude.{map_get, map_set}
use matrix_agent_workspace.Prelude.{
  ℕ, ◌+◌, ◌*◌, String, Bool, true, false, Option, none, some, List, [], ◌∷◌, ◌++◌, find, ◌==◌, ◌&&◌,
  if◌then◌else◌,
}
use matrix_agent_workspace.Json.{Fields}
use matrix_agent_workspace.Github.Types.{
  WriteScope, scope_name, WriteGrantStatus, GithubWriteGrant, MutationApproval, ApprovalDecision,
  MutationCommand, MutationCommandStatus, AuditRecordInput, ClientRequest, Platform,
}

-- `mutations` are the client's calls, each with its command's id, the last one last.
pub record World : Type 0 where
  pub grants : List (String × GithubWriteGrant)
  pub approvals : List (String × MutationApproval)
  pub commands : List (String × MutationCommand)
  pub audit : List AuditRecordInput
  pub mutations : List (String × ClientRequest)

-- `GRANT_DEFAULT_TTL_MS`.
abbrev pub grant_default_ttl_ms : ℕ
grant_default_ttl_ms = 2592000000

module _ (platform : Platform) where
  -- `${workspaceId}|${repository.toLowerCase()}|${scope}`.
  unfoldable pub grant_key : String → String → WriteScope → String
  grant_key workspace repository scope = String.◌++◌ workspace (
      String.◌++◌ "|"
        (String.◌++◌ (platform.to_lower_case repository) (String.◌++◌ "|" (scope_name scope))))

  unfoldable pub find_grant : String → String → WriteScope → World → Option GithubWriteGrant
  find_grant workspace repository scope w = map_get (grant_key workspace repository scope) w.grants

  -- An existing grant is returned as it is; a new one is pending.
  unfoldable pub create_grant :
      String → String → String → String → WriteScope → World → GithubWriteGrant × World
  create_grant id workspace granted_by repository scope w =
      elim (find_grant workspace repository scope w) [
        | some existing ↦ (existing, w)
        | none ↦
            let grant : GithubWriteGrant = record {
              id = id;
              workspace_id = workspace;
              granted_by = granted_by;
              repository = repository;
              scope = scope;
              status = WriteGrantStatus.pending;
              approved_at = none;
              expires_at = none;
            } in
            (
              grant,
              record w { grants = map_set (grant_key workspace repository scope) grant w.grants },
            )
      ]

-- The grant with its new status; an approval starts a new lifetime.
abbrev pub with_status : WriteGrantStatus → ℕ → GithubWriteGrant → GithubWriteGrant
with_status WriteGrantStatus.approved now grant = record grant {
  status = WriteGrantStatus.approved;
  approved_at = some now;
  expires_at = some (now + grant_default_ttl_ms);
}
with_status status now grant = record grant { status = status }

abbrev pub is_grant : String → String → GithubWriteGrant → Bool
is_grant id workspace grant = grant.id == id && grant.workspace_id == workspace

-- The loop of `setGrantStatus`: the first row with the id in the workspace.
unfoldable pub set_status_in :
    String
    → String
    → WriteGrantStatus
    → ℕ
    → List (String × GithubWriteGrant)
    → Option GithubWriteGrant × List (String × GithubWriteGrant)
set_status_in id workspace status now [] = (none, [])
set_status_in id workspace status now ((key, grant) ∷ rows) =
    let rest = set_status_in id workspace status now rows in
    if is_grant id workspace grant
    then (some (with_status status now grant), (key, with_status status now grant) ∷ rows)
    else (rest.0, (key, grant) ∷ rest.1)

unfoldable pub set_grant_status :
    String → String → WriteGrantStatus → ℕ → World → Option GithubWriteGrant × World
set_grant_status id workspace status now w =
    let (updated, grants) = set_status_in id workspace status now w.grants in
    (updated, record w { grants = grants })

unfoldable pub create_approval : MutationApproval → World → MutationApproval × World
create_approval approval w =
    (approval, record w { approvals = map_set approval.id approval w.approvals })

unfoldable pub find_approval : String → World → Option MutationApproval
find_approval id w = map_get id w.approvals

unfoldable pub get_command : String → World → Option MutationCommand
get_command id w = map_get id w.commands

-- The loop of `findByKey`.
unfoldable pub find_by_key :
    String → String → List (String × MutationCommand) → Option MutationCommand
find_by_key workspace key [] = none
find_by_key workspace key ((id, row) ∷ rows) =
    let rest = find_by_key workspace key rows in
    if row.workspace_id == workspace && row.idempotency_key == key then some row else rest

-- A command as it is inserted, or the existing one with the same key.
unfoldable pub insert_command : MutationCommand → World → (MutationCommand × Bool) × World
insert_command command w =
    elim (find_by_key command.workspace_id command.idempotency_key w.commands) [
      | some existing ↦ ((existing, true), w)
      | none ↦ ((command, false), record w { commands = map_set command.id command w.commands })
    ]

-- An update of one row, or `null` where there is none or the guard refuses it.
abbrev pub update_row :
    Option MutationCommand
    → (MutationCommand → Option MutationCommand)
    → String
    → World
    → Option MutationCommand × World
update_row none change id w = (none, w)
update_row (some row) change id w = elim (change row) [
  | none ↦ (none, w)
  | some updated ↦ (some updated, record w { commands = map_set id updated w.commands })
]

unfoldable pub persist_provider_result : String → Fields → World → Option MutationCommand × World
persist_provider_result id result w =
    update_row (get_command id w) (λ row. some (record row { provider_result = some result })) id w

-- Only a queued command is completed.
abbrev pub completed_row : Fields → MutationCommand → Option MutationCommand
completed_row result row = elim row.status [
  | MutationCommandStatus.queued ↦ some (record row {
    status = MutationCommandStatus.completed;
    provider_result = some result;
    attempts = row.attempts + 1;
  })
  | _ ↦ none
]

unfoldable pub mark_completed : String → Fields → World → Option MutationCommand × World
mark_completed id result w = update_row (get_command id w) (completed_row result) id w

unfoldable pub mark_failed : String → String → World → Option MutationCommand × World
mark_failed id code w =
    update_row (get_command id w)
      (λ row. some (record row {
        status = MutationCommandStatus.failed;
        error_code = some code;
        attempts = row.attempts + 1;
      }))
      id w

unfoldable pub record_audit : AuditRecordInput → World → World
record_audit input w = record w { audit = w.audit ++ input ∷ [] }
