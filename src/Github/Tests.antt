-- ===== src/Github/Tests.antt =====
-- Runs of the mutation path on concrete tables.
use matrix_agent_workspace.Prelude.{
  ℕ, true, false, arith, none, some, [], ◌∷◌, length, ◌≡◌, refl, ◌==◌, if◌then◌else◌,
}
use matrix_agent_workspace.Json.{obj, end}
use matrix_agent_workspace.Effects.{run, run-Reach, ret, ◌>>=◌}
use matrix_agent_workspace.Github.Types.{
  MutationCommand, MutationCommandStatus, create_issue, GithubWriteGrant, WriteGrantStatus,
  issues_write, MutationApproval, ApprovalDecision, Platform,
}
use matrix_agent_workspace.Github.World.{World, map_get, find_by_key, find_grant}
use matrix_agent_workspace.Github.World.GrantRows.{
  is_row_of, new_row, find_row, create_row, find_row-create_row,
}
use matrix_agent_workspace.Github.Guarantees.Gated.{unauthorized_never_mutates}
use matrix_agent_workspace.Github.Guarantees.Gated.Gates.{is_authorized, Since}
use matrix_agent_workspace.Github.World.Keys.{DistinctKeys}
use matrix_agent_workspace.Github.Enqueue.{EnqueueMutationInput, enqueue_mutation_command}
use matrix_agent_workspace.Github.Guarantees.Unique.{commands-DistinctKeys}
use matrix_agent_workspace.Github.Calls.{Input, no_fault, services}
use matrix_agent_workspace.Github.Worker.{process}
use matrix_agent_workspace.Github.Guarantees.{Works, processes, enqueues, Manages}
use matrix_agent_workspace.Github.Guarantees.Once.{mutated_once}
use matrix_agent_workspace.Github.Guarantees.Once.Worker.{mutations_for, Fresh, Stored}

abbrev platform : Platform
platform = record {
  is_repository = λ s. true;
  safe_parse = λ op j. some end;
  command_hash = λ op fs. "hash";
  to_lower_case = λ s. if s == "Owner/Repo" then "owner/repo" else s;
  is_blank = λ s. s == "";
  to_string = λ v. "";
  to_number = λ v. 0;
}

-- A worker stopped after it had stored GitHub's answer.
abbrev interrupted : MutationCommand
interrupted = record {
  id = "gcmd_1";
  workspace_id = "workspace";
  run_id = none;
  user_id = "user";
  idempotency_key = "key";
  approval_id = some "apr_1";
  repository = "owner/repo";
  operation = create_issue;
  arguments_hash = "hash";
  arguments = end;
  status = MutationCommandStatus.queued;
  provider_result = some end;
  attempts = 0;
  error_code = none;
}

abbrev tables : World
tables = record {
  grants = [];
  approvals = [];
  commands = ("gcmd_1", interrupted) ∷ [];
  audit = [];
  mutations = [];
}

abbrev healthy : (n : ℕ) → (i : Input) × Fresh "gcmd_1" i
healthy n = (record { clock = n; fresh = "2"; github = some end; fault = no_fault }, refl)

abbrev processed : World
processed =
    (run (services platform (Fresh "gcmd_1")) healthy 0 (process platform "gcmd_1" >>= λ _. ret tt)
      tables).1

tables-Stored : Stored "gcmd_1" tables
unfolding map_get
tables-Stored = refl

mutated_once_example : (mutations_for "gcmd_1" processed ≡ []) × Stored "gcmd_1" processed
mutated_once_example = mutated_once platform "gcmd_1" tables tables-Stored (
    run-Reach (services platform (Fresh "gcmd_1")) (Works platform) (Manages platform) healthy
      (process platform "gcmd_1" >>= λ _. ret tt) tables (processes "gcmd_1"))

-- A request with a new key, its grant and its approval.
abbrev request : EnqueueMutationInput
request = record {
  user_id = "user";
  workspace_id = "workspace";
  run_id = none;
  idempotency_key = "other";
  approval_id = "apr_1";
  repository = "owner/repo";
  operation = "create_issue";
  arguments = obj end;
  actor_matrix_id = none;
}

abbrev grant : GithubWriteGrant
grant = record {
  id = "grant";
  workspace_id = "workspace";
  granted_by = "user";
  repository = "owner/repo";
  scope = issues_write;
  status = WriteGrantStatus.approved;
  approved_at = some 0;
  expires_at = none;
}

abbrev approval : MutationApproval
approval = record {
  id = "apr_1";
  workspace_id = "workspace";
  run_id = none;
  user_id = "user";
  scope = issues_write;
  command_hash = "hash";
  decision = ApprovalDecision.approved;
  confirmation_text = "yes";
  expires_at = 1000;
}

abbrev ready : World
ready = record tables {
  grants = ("workspace|owner/repo|issues:write", grant) ∷ [];
  approvals = ("apr_1", approval) ∷ [];
}

ready-DistinctKeys : DistinctKeys ready.commands
unfolding find_by_key
ready-DistinctKeys = (refl, tt)

abbrev enqueued : World
enqueued =
    (run (services platform (Fresh "gcmd_1")) healthy 0
      (enqueue_mutation_command platform true request >>= λ _. ret tt) ready).1

commands-DistinctKeys_example : DistinctKeys enqueued.commands
commands-DistinctKeys_example =
    commands-DistinctKeys platform (Fresh "gcmd_1") ready ready-DistinctKeys (
      run-Reach (services platform (Fresh "gcmd_1")) (Works platform) (Manages platform) healthy
        (enqueue_mutation_command platform true request >>= λ _. ret tt) ready
        (enqueues true request))

-- Without a grant.
abbrev waiting : MutationCommand
waiting = record interrupted { provider_result = none }

abbrev without_grant : World
without_grant = record tables { commands = ("gcmd_1", waiting) ∷ [] }

abbrev ticking : (n : ℕ) → (i : Input) × Since 0 i
ticking n = (record { clock = n; fresh = "2"; github = some end; fault = no_fault }, omega arith)

waiting-found : map_get "gcmd_1" without_grant.commands ≡ some waiting
unfolding map_get
waiting-found = refl

waiting-is_authorized : is_authorized platform 0 waiting without_grant ≡ false
unfolding find_grant map_get
waiting-is_authorized = refl

unauthorized_never_mutates_example :
    (run
      (services platform (Since 0))
      ticking
      0
      (process platform "gcmd_1")
      without_grant).1.mutations
    ≡ []
unauthorized_never_mutates_example =
    unauthorized_never_mutates platform 0 "gcmd_1" waiting without_grant ticking waiting-found
      waiting-is_authorized

find_row-create_row_example :
    let rows = (create_row platform "g1" "workspace" "user" "owner/repo" issues_write []).1 in
    ((g : GithubWriteGrant) × (find_row platform "workspace" "Owner/Repo" issues_write rows
        ≡ some g)
      × (is_row_of platform "workspace" "owner/repo" issues_write g ≡ true))
    × (create_row platform "g2" "workspace" "friend" "owner/repo" issues_write rows
        ≡ (find_row platform "workspace" "owner/repo" issues_write rows, rows))
find_row-create_row_example =
    find_row-create_row platform "g1" "user" "g2" "friend" "workspace" "owner/repo" "Owner/Repo"
      issues_write [] refl

-- In another spelling a second row is made, which the store does not find.
two_rows :
    let rows = (create_row platform "g1" "workspace" "user" "owner/repo" issues_write []).1 in
    let again = create_row platform "g2" "workspace" "user" "Owner/Repo" issues_write rows in
    (length again.1 ≡ 2)
    × (find_row platform "workspace" "Owner/Repo" issues_write again.1
        ≡ some (new_row "g1" "workspace" "user" "owner/repo" issues_write))
unfolding create_row
two_rows = (refl, refl)
