-- ===== src/Github/Gates.antt =====
-- The two gates of a mutation: `authorizeWriteScope` (write-authorization.ts) and `checkApproval`
-- (approval-service.ts), with `approve`, which makes an approval.
use Prim.Native.String
use matrix_agent_workspace.Prelude.{
  ℕ, ◌+◌, String, Bool, true, false, Option, none, some, ltb, ◌==◌, ◌&&◌, if◌then◌else◌,
}
use matrix_agent_workspace.Effects.{ret, throw, ◌>>=◌}
use matrix_agent_workspace.Github.Types.{
  WriteScope, scope_eq, GithubWriteGrant, WriteGrantStatus, MutationApproval, ApprovalDecision,
  write_scope_required, approval_not_found, approval_denied, approval_expired, approval_mismatch,
  approval_confirmation_required, Platform,
}
use matrix_agent_workspace.Github.Calls.{
  find_grant, find_approval, create_approval, now, random_id, G, await,
}

abbrev pub is_approved_grant : GithubWriteGrant → Bool
is_approved_grant g = elim g.status [ WriteGrantStatus.approved ↦ true | _ ↦ false ]

abbrev pub check_expiry : GithubWriteGrant → Option ℕ → G GithubWriteGrant
check_expiry grant none = ret grant
check_expiry grant (some expires) = do
  at ← await now
  if ltb expires at then throw write_scope_required else ret grant

abbrev pub check_grant : Option GithubWriteGrant → G GithubWriteGrant
check_grant none = throw write_scope_required
check_grant (some grant) =
    if is_approved_grant grant
    then check_expiry grant grant.expires_at
    else throw write_scope_required

unfoldable pub authorize_write_scope : String → String → WriteScope → G GithubWriteGrant
authorize_write_scope workspace repository scope = do
  grant ← await (find_grant workspace repository scope)
  check_grant grant

pub record CheckApprovalInput : Type 0 where
  pub approval_id : String
  pub workspace_id : String
  pub run_id : Option String
  pub user_id : String
  pub scope : WriteScope
  pub command_hash : String

abbrev pub same_run : Option String → Option String → Bool
same_run none none = true
same_run (some a) (some b) = a == b
same_run _ _ = false

-- The conjunction `exact`.
abbrev pub is_exact : MutationApproval → CheckApprovalInput → Bool
is_exact approval input =
    approval.workspace_id == input.workspace_id
    && (same_run approval.run_id input.run_id
        && (approval.user_id == input.user_id
            && (scope_eq approval.scope input.scope
                && approval.command_hash == input.command_hash)))

abbrev pub is_approved : MutationApproval → Bool
is_approved a = elim a.decision [
  | ApprovalDecision.approved ↦ true
  | ApprovalDecision.denied ↦ false
]

abbrev pub judge : CheckApprovalInput → ℕ → Option MutationApproval → G MutationApproval
judge input at none = throw approval_not_found
judge input at (some approval) =
    if is_approved approval
    then (if ltb approval.expires_at at
        then throw approval_expired
        else if is_exact approval input
        then ret approval
        else throw approval_mismatch)
    else throw approval_denied

unfoldable pub check_approval : CheckApprovalInput → G MutationApproval
check_approval input = do
  at ← await now
  approval ← await (find_approval input.approval_id)
  judge input at approval

-- `APPROVAL_DEFAULT_TTL_MS`, which a service may be given another value for.
abbrev pub approval_default_ttl_ms : ℕ
approval_default_ttl_ms = 900000

pub record ApproveInput : Type 0 where
  pub workspace_id : String
  pub run_id : Option String
  pub user_id : String
  pub scope : WriteScope
  pub command_hash : String
  pub decision : ApprovalDecision
  pub confirmation_text : String

abbrev pub is_approval : ApprovalDecision → Bool
is_approval ApprovalDecision.approved = true
is_approval ApprovalDecision.denied = false

unfoldable pub approve : Platform → ℕ → ApproveInput → G MutationApproval
approve platform ttl_ms input =
    if is_approval input.decision && platform.is_blank input.confirmation_text
    then throw approval_confirmation_required
    else (await now >>= λ at. await random_id >>= λ id. await (
        create_approval (record {
          id = String.◌++◌ "apr_" id;
          workspace_id = input.workspace_id;
          run_id = input.run_id;
          user_id = input.user_id;
          scope = input.scope;
          command_hash = input.command_hash;
          decision = input.decision;
          confirmation_text = input.confirmation_text;
          expires_at = at + ttl_ms;
        })))
