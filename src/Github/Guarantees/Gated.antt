-- ===== src/Github/Guarantees/Gated.antt =====
-- mutation-worker.ts, for a command whose gates are closed.
pub mod Gates
use mathlib.Core.Bool.{not}
use matrix_agent_workspace.Prelude.{
  ℕ, ◌+◌, suc, ◌≤◌, String, Bool, true, false, Option, none, some, List, ◌≡◌, refl, sym, ap, ◌∙◌,
  arith, ltb, ltb→lt, ◌&&◌, ◌==◌, Bool-cases, Option-cases, inl, inr, if◌then◌else◌,
}
use matrix_agent_workspace.Json.{Fields}
use matrix_agent_workspace.Effects.{
  Contract, Safe, safe_ret, safe_throw, ret, throw, ◌>>=◌, Safe-then, Safe-settle_then, Safe-if,
  Ends, Any, Fulfils, run-Inv, run, Settled, fulfilled, rejected,
}
use matrix_agent_workspace.Github.Types.{
  other_error, Platform, scope_for_operation, GithubWriteGrant, MutationApproval, MutationCommand,
  MutationCommandStatus, ClientRequest, MutationError,
}
use matrix_agent_workspace.Github.World
use matrix_agent_workspace.Github.World.{World, map_get, map_set, update_row}
use matrix_agent_workspace.Github.Calls.{
  G, mutate, insert_command, create_approval, persist_provider_result, mark_completed, mark_failed,
  record_audit, Call, Reply, Input, Fault, no_fault, lost_before, lost_after, serve, deliver,
  handle, services, await, find_grant, find_approval, now, get_command,
}
use matrix_agent_workspace.Github.Calls.Rules.{await-Safe}
use matrix_agent_workspace.Github.Gates.{
  authorize_write_scope, check_grant, check_expiry, check_approval, judge, CheckApprovalInput,
  is_approved_grant, is_approved, is_exact,
}
use matrix_agent_workspace.Github.Worker.{
  reauthorize, checked_approval, process, process_found, process_open, after_reauthorize,
  is_completed,
}
use matrix_agent_workspace.Github.Protocol
use matrix_agent_workspace.Github.Protocol.{
  Terms, Allowed, complete-Safe, fail-Safe, check_approval-Safe,
}
use matrix_agent_workspace.Github.Guarantees.{handle_keeps}
use matrix_agent_workspace.Github.Guarantees.Gated.Gates.{
  is_authorized, Since, AnswersTable, terms, C, found-Safe,
}

module _ (platform : Platform) (at : ℕ) (w : World) (c : MutationCommand)
    (closed : is_authorized platform at c w ≡ false) where
  -- The grants, the approvals and GitHub are as they were.
  record Unchanged (w' : World) : Type 0 where
    grants : w'.grants ≡ w.grants
    approvals : w'.approvals ≡ w.approvals
    mutations : w'.mutations ≡ w.mutations

  update_row-Unchanged :
      (r : Option MutationCommand) (change : MutationCommand → Option MutationCommand) (id : String)
      (w' : World)
      → Unchanged w'
      → Unchanged (update_row r change id w').1
  update_row-Unchanged none change id w' h = h
  update_row-Unchanged (some row) change id w' h = by_change (change row)
    where
      by_change :
          (u : Option MutationCommand)
          → Unchanged
              (elim u as (λ x. Option MutationCommand × World) [
                | none ↦ (none, w')
                | some updated ↦
                    (some updated, record w' { commands = map_set id updated w'.commands })
              ]).1
      by_change none = h
      by_change (some updated) = record {
        grants = h.grants;
        approvals = h.approvals;
        mutations = h.mutations;
      }

  serve-Unchanged :
      (i : Input) (d : Call) (w' : World)
      → Unchanged w'
      → Allowed (terms platform at w c closed) d
      → Unchanged (serve platform i d w').1
  unfolding World.persist_provider_result World.mark_completed World.mark_failed World.get_command
      World.record_audit
  serve-Unchanged i (insert_command d) w' h a = absurd a
  serve-Unchanged i (create_approval d) w' h a = absurd a
  serve-Unchanged i (mutate j r) w' h a = absurd a
  serve-Unchanged i (persist_provider_result j r) w' h a =
      update_row-Unchanged (map_get j w'.commands)
        (λ row. some (record row { provider_result = some r })) j w' h
  serve-Unchanged i (mark_completed j r) w' h a =
      update_row-Unchanged (map_get j w'.commands) (World.completed_row r) j w' h
  serve-Unchanged i (mark_failed j code) w' h a =
      update_row-Unchanged (map_get j w'.commands)
        (λ row. some (record row {
          status = MutationCommandStatus.failed;
          error_code = some code;
          attempts = row.attempts + 1;
        }))
        j w' h
  serve-Unchanged i (record_audit r) w' h a = record {
    grants = h.grants;
    approvals = h.approvals;
    mutations = h.mutations;
  }
  serve-Unchanged i _ w' h a = h

  handle-AnswersTable :
      (i : Input) (d : Call) (w' : World)
      → Since at i
      → Unchanged w'
      → AnswersTable platform at w c closed d (handle platform i d w').0
  unfolding handle World.find_grant World.find_approval
  handle-AnswersTable i (find_grant ws repo scope) w' s h = go i.fault
    where
      go :
          (f : Fault)
          → AnswersTable platform at w c closed
              (find_grant ws repo scope)
              (deliver f (serve platform i (find_grant ws repo scope) w') w').0
      go no_fault = rw h.grants refl
      go lost_before = tt
      go lost_after = tt
  handle-AnswersTable i (find_approval id) w' s h = go i.fault
    where
      go :
          (f : Fault)
          → AnswersTable platform at w c closed
              (find_approval id)
              (deliver f (serve platform i (find_approval id) w') w').0
      go no_fault = rw h.approvals refl
      go lost_before = tt
      go lost_after = tt
  handle-AnswersTable i now w' s h = go i.fault
    where
      go :
          (f : Fault)
          → AnswersTable platform at w c closed now (deliver f (serve platform i now w') w').0
      go no_fault = s
      go lost_before = tt
      go lost_after = tt
  handle-AnswersTable i _ w' s h = tt

  closed-Fulfils : Fulfils (services platform (Since at)) (C platform at w c closed) Unchanged
  closed-Fulfils = record {
    answer = λ i d w' h a. handle-AnswersTable i.0 d w' i.1 h;
    keep = λ i d w' h a. handle_keeps platform Unchanged i.0 d w' h (serve-Unchanged i.0 d w' h a);
  }

-- A worker does not call GitHub for a command that is not authorized: the stored grant for its
-- workspace, repository and scope is missing, not approved or expired at the time `at`, or the
-- approval that it names is missing, denied, expired at that time, or for another command. The
-- clock does not run behind `at`, and any call may be lost.
pub unauthorized_never_mutates :
    (platform : Platform) (at : ℕ) (id : String) (c : MutationCommand) (w : World)
    (input : ℕ → (i : Input) × Since at i)
    → map_get id w.commands ≡ some c
    → is_authorized platform at c w ≡ false
    → (run (services platform (Since at)) input 0 (process platform id) w).1.mutations ≡ w.mutations
unfolding process run await handle World.get_command
unauthorized_never_mutates platform at id c w input found closed = go (input 0).0.fault
  where
    go :
        (f : Fault)
        → (run
            (services platform (Since at))
            input
            1
            ((elim (deliver f (map_get id w.commands, w) w).0 as (λ x. G (Option MutationCommand)) [
              | none ↦ throw other_error
              | some a ↦ ret a
            ])
              >>= process_found platform id)
            (deliver f (map_get id w.commands, w) w).1).1.mutations
          ≡ w.mutations
    go no_fault =
        rw found
          (run-Inv (services platform (Since at)) (closed-Fulfils platform at w c closed)
            (found-Safe platform at w c closed id) input 1 w
            (record { grants = refl; approvals = refl; mutations = refl })).1.mutations
    go lost_before = refl
    go lost_after = refl
