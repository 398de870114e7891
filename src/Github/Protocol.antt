-- ===== src/Github/Protocol.antt =====
-- The protocol of the mutation path: which calls a worker makes, whatever the services answer.
use matrix_agent_workspace.Prelude.{ℕ, String, Option, none, some, ◌==◌, ltb}
use matrix_agent_workspace.Json.{Fields}
use matrix_agent_workspace.Effects.{
  Contract, Safe, safe_ret, safe_throw, safe_op, Safe-then, Safe-settle_then, Safe-if, Ends, Any,
  Settled, fulfilled, rejected, ret, throw,
}
use matrix_agent_workspace.Github.Types.{
  error_code, or_else, other_error, Platform, MutationCommand, MutationError, WriteScope,
  GithubWriteGrant, MutationApproval, AuditRecordInput, AuditOutcome,
}
use matrix_agent_workspace.Github.Calls.{
  Call, Reply, G, await, get_command, insert_command, mutate, find_grant, now,
  persist_provider_result, mark_completed, mark_failed, record_audit, find_approval,
  create_approval,
}
use matrix_agent_workspace.Github.Calls.Rules.{await-Safe}
use matrix_agent_workspace.Github.Gates.{
  authorize_write_scope, check_grant, check_expiry, check_approval, judge, CheckApprovalInput,
  is_approved_grant, is_approved, is_exact,
}
use matrix_agent_workspace.Github.Worker.{
  try_audit, after_completed, complete_command, fail_command, reauthorize, checked_approval,
  execute_with_client, client_answer, client_request, after_client, after_reauthorize, process_open,
}

-- What a contract says of the calls that change something outside, and of the answers.
pub record Terms : Type 1 where
  pub Mutates : String → Type 0
  pub Inserts : MutationCommand → Type 0
  pub Approves : Type 0
  pub Answers : (c : Call) → Option (Reply c) → Type 0

module _ (t : Terms) where
  abbrev pub Allowed : Call → Type 0
  Allowed (mutate j r) = t.Mutates j
  Allowed (insert_command c) = t.Inserts c
  Allowed (create_approval a) = t.Approves
  Allowed _ = Unit

  abbrev pub C : Contract Call Reply
  C = record { allowed = Allowed; answers = t.Answers }

  pub last-Safe : (c : Call) → Allowed c → Safe C (Ends Any) (await c)
  unfolding await
  last-Safe c ok = safe_op c _ ok by_reply
    where
      by_reply :
          (r : Option (Reply c))
          → t.Answers c r
          → Safe C
              (Ends Any)
              (elim r as (λ y. G (Reply c)) [ none ↦ throw other_error | some a ↦ ret a ])
      by_reply none a = safe_throw _ tt
      by_reply (some r) a = safe_ret r tt

  pub try_audit-Safe : (i : AuditRecordInput) → Safe C (Ends Any) (try_audit i)
  unfolding try_audit
  try_audit-Safe i = Safe-settle_then C (last-Safe (record_audit i) tt) (λ _ _. safe_ret tt tt)

  pub complete-Safe :
      (id : String) (c : MutationCommand) (r : Fields) → Safe C (Ends Any) (complete_command id c r)
  unfolding complete_command
  complete-Safe id c r = await-Safe C (mark_completed id r) tt (λ m _. after m)
    where
      after : (m : Option MutationCommand) → Safe C (Ends Any) (after_completed id c m)
      after none = last-Safe (get_command id) tt
      after (some done) = Safe-then C (try_audit-Safe _) (λ _ _. safe_ret _ tt)

  pub fail-Safe :
      (id : String) (c : MutationCommand) (o : AuditOutcome) (e : MutationError)
      → Safe C (Ends Any) (fail_command id c o e)
  unfolding fail_command
  fail-Safe id c o e =
      await-Safe C (mark_failed id (or_else (error_code e) "MUTATION_FAILED")) tt
        (λ _ _. Safe-then C (try_audit-Safe _) (λ _ _. safe_throw e tt))

  pub authorize-Safe :
      (ws repo : String) (scope : WriteScope)
      → Safe C (Ends Any) (authorize_write_scope ws repo scope)
  unfolding authorize_write_scope
  authorize-Safe ws repo scope = await-Safe C (find_grant ws repo scope) tt (λ g _. checked g)
    where
      expiry : (g : GithubWriteGrant) (e : Option ℕ) → Safe C (Ends Any) (check_expiry g e)
      expiry g none = safe_ret g tt
      expiry g (some until) =
          await-Safe C now tt
            (λ at _. Safe-if C (ltb until at) (λ _. safe_throw _ tt) (λ _. safe_ret g tt))

      checked : (g : Option GithubWriteGrant) → Safe C (Ends Any) (check_grant g)
      checked none = safe_throw _ tt
      checked (some g) =
          Safe-if C (is_approved_grant g) (λ _. expiry g g.expires_at) (λ _. safe_throw _ tt)

  pub check_approval-Safe : (i : CheckApprovalInput) → Safe C (Ends Any) (check_approval i)
  unfolding check_approval
  check_approval-Safe i =
      await-Safe C now tt
        (λ at _. await-Safe C (find_approval i.approval_id) tt (λ a _. judged at a))
    where
      judged : (at : ℕ) (a : Option MutationApproval) → Safe C (Ends Any) (judge i at a)
      judged at none = safe_throw _ tt
      judged at (some a) =
          Safe-if C (is_approved a)
            (λ _.
              Safe-if C (ltb a.expires_at at) (λ _. safe_throw _ tt)
                (λ _. Safe-if C (is_exact a i) (λ _. safe_ret a tt) (λ _. safe_throw _ tt)))
            (λ _. safe_throw _ tt)

  pub reauthorize-Safe : (c : MutationCommand) → Safe C (Ends Any) (reauthorize c)
  unfolding reauthorize
  reauthorize-Safe c = Safe-then C (authorize-Safe _ _ _) (λ _ _. checked c.approval_id)
    where
      checked : (a : Option String) → Safe C (Ends Any) (checked_approval c a)
      checked none = safe_throw _ tt
      checked (some id) =
          Safe-if C (id == "") (λ _. safe_throw _ tt)
            (λ _. Safe-then C (check_approval-Safe _) (λ _ _. safe_ret tt tt))

  module _ (platform : Platform) where
    pub client-Safe :
        (id : String) (c : MutationCommand)
        → t.Mutates id
        → Safe C (Ends Any) (execute_with_client platform id c)
    unfolding execute_with_client
    client-Safe id c other =
        await-Safe C (mutate id (client_request platform c)) other (λ r _. by_reply r)
      where
        by_reply : (r : Option Fields) → Safe C (Ends Any) (client_answer c r)
        by_reply none = safe_throw _ tt
        by_reply (some r) = safe_ret _ tt

    pub call-Safe :
        (id : String) (c : MutationCommand)
        → t.Mutates id
        → Safe C (Ends Any) (process_open platform id c none)
    call-Safe id c other = Safe-settle_then C (reauthorize-Safe c) (λ r _. authorized r)
      where
        called : (r : Settled MutationError Fields) → Safe C (Ends Any) (after_client id c r)
        called (rejected e) = fail-Safe id c _ e
        called (fulfilled r) =
            await-Safe C (persist_provider_result id r) tt (λ _ _. complete-Safe id c r)

        authorized :
            (r : Settled MutationError (Unit {0}))
            → Safe C (Ends Any) (after_reauthorize platform id c r)
        authorized (rejected e) = fail-Safe id c _ e
        authorized (fulfilled ok) = Safe-settle_then C (client-Safe id c other) (λ r _. called r)
