-- ===== src/Github/Guarantees/Once/Requests.antt =====
-- The calls of the other executions, where the command `x` has a stored result.
use Prim.Native.String
use matrix_agent_workspace.Prelude.{ℕ, String, Bool, true, false, Option, none, some, ◌&&◌}
use matrix_agent_workspace.Json.{Fields}
use matrix_agent_workspace.Effects.{
  Contract, Safe, safe_ret, safe_throw, Safe-then, Safe-settle_then, Safe-if, Ends, Any, Settled,
  fulfilled, rejected,
}
use matrix_agent_workspace.Github.Types.{
  operation_of, Platform, MutationCommand, MutationError, MutationOperation,
}
use matrix_agent_workspace.Github.Calls.{
  Call, Reply, G, get_command, insert_command, random_id, now, record_audit, create_approval,
  find_command_by_key,
}
use matrix_agent_workspace.Github.Calls.Rules.{await-Safe}
use matrix_agent_workspace.Github.Gates.{approve, ApproveInput, is_approval}
use matrix_agent_workspace.Github.Enqueue.{
  EnqueueMutationInput, ValidatedCommand, enqueue_mutation_command, enqueue_validated, after_find,
  replay, after_gates, after_insert, run_worker, pass_gates, parse_repository, new_command,
  is_interrupted, validate_mutation_command, validated_operation, validated_arguments,
}
use matrix_agent_workspace.Github.Protocol
use matrix_agent_workspace.Github.Guarantees.Once.Worker
use matrix_agent_workspace.Github.Guarantees.{Works, processes, enqueues, approves}

module _ (x : String) (platform : Platform) where
  abbrev C : Contract Call Reply
  C = Worker.C x

  -- A request to enqueue a command.
  module _ (worker : Bool) (input : EnqueueMutationInput) (v : ValidatedCommand) where
    gates-Safe : Safe C (Ends Any) (pass_gates platform worker input v)
    unfolding pass_gates
    gates-Safe = Safe-then C (Protocol.authorize-Safe (Worker.terms x) _ _ _) (λ _ _.
        Safe-then C (Protocol.check_approval-Safe (Worker.terms x) _) (λ _ _. safe_ret tt tt))

    insert-Safe :
        (r : MutationCommand × Bool) → Safe C (Ends Any) (after_insert platform worker input v r)
    insert-Safe (c, true) = safe_ret _ tt
    insert-Safe (c, false) = await-Safe C (record_audit _) tt (λ _ _.
        Safe-then C works (λ _ _. await-Safe C (get_command c.id) tt (λ _ _. safe_ret _ tt)))
      where
        works : Safe C (Ends Any) (run_worker platform worker input v c)
        works =
            Safe-if C worker
              (λ _. Safe-then C (Worker.process-Safe x platform c.id) (λ _ _. safe_ret tt tt))
              (λ _. safe_ret tt tt)

    passed-Safe :
        (r : Settled MutationError (Unit {0}))
        → Safe C (Ends Any) (after_gates platform worker input v r)
    passed-Safe (rejected e) =
        Safe-then C (Protocol.try_audit-Safe (Worker.terms x) _) (λ _ _. safe_throw e tt)
    passed-Safe (fulfilled ok) = await-Safe C random_id tt (λ f fresh.
        await-Safe C (insert_command (new_command platform worker input v (String.◌++◌ "gcmd_" f)))
          fresh (λ r _. insert-Safe r))

    replay-Safe : (c : MutationCommand) → Safe C (Ends Any) (replay platform worker input v c)
    replay-Safe c =
        Safe-if C (is_interrupted platform worker input v c.status c.provider_result)
          (λ _.
            Safe-if C worker
              (λ _. Safe-then C (Worker.process-Safe x platform c.id) (λ _ _. safe_ret _ tt))
              (λ _. safe_ret _ tt))
          (λ _. safe_ret _ tt)

    validated-Safe : Safe C (Ends Any) (enqueue_validated platform worker input v)
    unfolding enqueue_validated
    validated-Safe =
        await-Safe C (find_command_by_key input.workspace_id input.idempotency_key) tt
          (λ r _. found r)
      where
        found :
            (r : Option MutationCommand) → Safe C (Ends Any) (after_find platform worker input v r)
        found (some c) = replay-Safe c
        found none = Safe-settle_then C gates-Safe (λ r _. passed-Safe r)

  enqueue-Safe :
      (worker : Bool) (input : EnqueueMutationInput)
      → Safe C (Ends Any) (enqueue_mutation_command platform worker input)
  unfolding enqueue_mutation_command parse_repository validate_mutation_command
  enqueue-Safe worker input =
      Safe-then C {Q = Any}
        (Safe-if C (platform.is_repository input.repository) (λ _. safe_ret tt tt)
          (λ _. safe_throw _ tt))
        (λ _ _.
          Safe-then C (by_operation (operation_of input.operation))
            (λ v _. validated-Safe worker input v))
    where
      by_arguments :
          (op : MutationOperation) (a : Option Fields)
          → Safe C (Ends Any) (validated_arguments op a)
      by_arguments op none = safe_throw _ tt
      by_arguments op (some a) = safe_ret _ tt

      by_operation :
          (op : Option MutationOperation)
          → Safe C (Ends Any) (validated_operation platform input.arguments op)
      by_operation none = safe_throw _ tt
      by_operation (some op) = by_arguments op (platform.safe_parse op input.arguments)

  approve-Safe : (ttl_ms : ℕ) (i : ApproveInput) → Safe C (Ends Any) (approve platform ttl_ms i)
  unfolding approve
  approve-Safe ttl_ms i =
      Safe-if C (is_approval i.decision && platform.is_blank i.confirmation_text)
        (λ _. safe_throw _ tt)
        (λ _. await-Safe C now tt (λ at _.
          await-Safe C random_id tt
            (λ id _. Protocol.last-Safe (Worker.terms x) (create_approval _) tt)))

  pub Works-Safe : (p : G (Unit {0})) → Works platform p → Safe C (Ends Any) p
  Works-Safe p (processes id) =
      Safe-then C (Worker.process-Safe x platform id) (λ _ _. safe_ret tt tt)
  Works-Safe p (enqueues worker input) =
      Safe-then C (enqueue-Safe worker input) (λ _ _. safe_ret tt tt)
  Works-Safe p (approves ttl_ms input) =
      Safe-then C (approve-Safe ttl_ms input) (λ _ _. safe_ret tt tt)
