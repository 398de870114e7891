-- ===== src/Github/Guarantees/Once.antt =====
-- mutation-worker.ts and enqueueMutationCommand, for a command whose provider result is stored.
pub mod Worker
pub mod Requests
use Prim.Native.String
use matrix_agent_workspace.Prelude.{
  ℕ, String, Bool, true, false, Option, none, some, List, [], ◌∷◌, ◌++◌, ◌≡◌, refl, arith, ◌∙◌,
  keep, keep-append, ◌==◌, if◌then◌else◌, Bool-cases, Option-cases, inl, inr, sym, ltb, ◌&&◌,
  eq_iff,
}
use mathlib.Core.List.{append-nil}
use matrix_agent_workspace.Json.{Fields}
use matrix_agent_workspace.Effects.{
  Contract, Safe, safe_ret, safe_throw, safe_op, Safe-then, Safe-settle_then, Safe-settle, Safe-if,
  Ends, Any, Fulfils, Reach-Inv, Settled, fulfilled, rejected, ret, throw, settle, ◌>>=◌,
}
use matrix_agent_workspace.Github.Types.{
  operation_of, error_code, or_else, error_details, other_error, Platform, MutationCommand,
  MutationCommandStatus, MutationError, MutationOperation, WriteScope, WriteGrantStatus,
  GithubWriteGrant, MutationApproval, AuditRecordInput, AuditOutcome, ClientRequest,
}
use matrix_agent_workspace.Github.World
use matrix_agent_workspace.Github.World.{
  World, completed_row, create_grant, set_grant_status, map_get, map_set, update_row, find_by_key,
}
use matrix_agent_workspace.Github.World.Tables.{map_get-map_set, create_grant-rest}
use matrix_agent_workspace.Github.Calls
use matrix_agent_workspace.Github.Calls.{
  Call, Reply, Input, Fault, no_fault, lost_before, lost_after, G, await, serve, handle, services,
  deliver, get_command, insert_command, mutate, random_id, find_grant, now, persist_provider_result,
  mark_completed, mark_failed, record_audit, create_approval, find_approval, find_command_by_key,
}
use matrix_agent_workspace.Github.Calls.Rules.{await-Safe}
use matrix_agent_workspace.Github.Gates.{
  authorize_write_scope, check_grant, check_expiry, check_approval, judge, CheckApprovalInput,
  approve, ApproveInput, is_approval, is_approved_grant, is_approved, is_exact,
}
use matrix_agent_workspace.Github.Worker.{
  worker_audit, try_audit, after_completed, complete_command, fail_command, reauthorize,
  checked_approval, execute_with_client, client_answer, client_request, after_client,
  after_reauthorize, process_open, process_found, process, is_completed,
}
use matrix_agent_workspace.Github.Enqueue.{
  EnqueueMutationInput, ValidatedCommand, enqueue_mutation_command, enqueue_validated, after_find,
  replay, after_gates, after_insert, run_worker, pass_gates, parse_repository, new_command,
  is_interrupted, validate_mutation_command, validated_operation, validated_arguments,
  request_audit,
}
use matrix_agent_workspace.Github.Guarantees.Once.Worker.{
  has_result, has_row, mutations_for, is_id, Fresh, Stored, terms, Answers, C,
}
use matrix_agent_workspace.Github.Protocol.{Allowed}
use matrix_agent_workspace.Github.Guarantees.Once.Requests.{Works-Safe}
use matrix_agent_workspace.Github.Guarantees.{
  Works, processes, enqueues, approves, Manages, creates, sets, MutationSystem, Reaches,
  handle_keeps,
}

module _ (platform : Platform) (x : String) (calls : List (String × ClientRequest)) where
  record Spared (w : World) : Type 0 where
    stored : Stored x w
    same : mutations_for x w ≡ calls

  serve-Answers :
      (i : Input) (c : Call) (w : World)
      → Fresh x i
      → Spared w
      → Answers x c (handle platform i c w).0
  unfolding handle World.get_command
  serve-Answers i (get_command j) w f h = go i.fault
    where
      found : (j == x) ≡ true → has_row (map_get j w.commands) ≡ true
      found e = rw ((eq_iff j x).0 e) h.stored

      go :
          (f : Fault)
          → Answers x (get_command j) (deliver f (serve platform i (get_command j) w) w).0
      go no_fault = found
      go lost_before = tt
      go lost_after = tt
  serve-Answers i random_id w f h = go i.fault
    where
      go : (f : Fault) → Answers x random_id (deliver f (serve platform i random_id w) w).0
      go no_fault = f
      go lost_before = tt
      go lost_after = tt
  serve-Answers i _ w f h = tt

  -- An update that keeps the provider result of a row.
  abbrev KeepsResult : (MutationCommand → Option MutationCommand) → Type 0
  KeepsResult change =
      (row updated : MutationCommand)
      → change row ≡ some updated
      → has_result row.provider_result ≡ true
      → has_result updated.provider_result ≡ true

  update-Spared :
      (change : MutationCommand → Option MutationCommand) (j : String) (w : World)
      → KeepsResult change
      → Spared w
      → Spared (update_row (map_get j w.commands) change j w).1
  update-Spared change j w keeps h = by_row (map_get j w.commands) refl
    where
      written :
          (row updated : MutationCommand)
          → map_get j w.commands ≡ some row
          → change row ≡ some updated
          → Spared (record w { commands = map_set j updated w.commands })
      written row updated e u = record {
        stored = rw (map_get-map_set x j updated w.commands) (elim (Bool-cases (j == x)) [
          | inl same ↦
              let found : has_row (map_get j w.commands) ≡ true =
                rw ((eq_iff j x).0 same) h.stored in
              let found' : has_row (some row) ≡ true = rw e at found in
              rw same (keeps row updated u found')
          | inr other ↦ rw other h.stored
        ]);
        same = h.same;
      }

      by_change :
          (row : MutationCommand)
          → map_get j w.commands ≡ some row
          → (u : Option MutationCommand) → change row ≡ u
          → Spared
              (elim u as (λ x. Option MutationCommand × World) [
                | none ↦ (none, w)
                | some updated ↦
                    (some updated, record w { commands = map_set j updated w.commands })
              ]).1
      by_change row e none q = h
      by_change row e (some updated) q = written row updated e q

      by_row :
          (r : Option MutationCommand)
          → map_get j w.commands ≡ r
          → Spared (update_row r change j w).1
      by_row none e = h
      by_row (some row) e = by_change row e (change row) refl

  insert-Spared :
      (c : MutationCommand) (w : World)
      → (c.id == x) ≡ false
      → Spared w
      → Spared (World.insert_command c w).1
  unfolding World.insert_command
  insert-Spared c w other h = by_key (find_by_key c.workspace_id c.idempotency_key w.commands)
    where
      by_key :
          (r : Option MutationCommand)
          → Spared
              (elim r as (λ y. (MutationCommand × Bool) × World) [
                | some existing ↦ ((existing, true), w)
                | none ↦ ((c, false), record w { commands = map_set c.id c w.commands })
              ]).1
      by_key (some existing) = h
      by_key none = record {
        stored = rw (map_get-map_set x c.id c w.commands) (rw other h.stored);
        same = h.same;
      }

  completed_row-keeps : (r : Fields) → KeepsResult (completed_row r)
  completed_row-keeps r row updated e h = ground arith

  serve-Spared :
      (i : Input) (c : Call) (w : World)
      → Spared w
      → Allowed (terms x) c
      → Spared (serve platform i c w).1
  unfolding World.persist_provider_result World.mark_completed World.mark_failed World.get_command
      World.create_approval World.record_audit
  serve-Spared i (insert_command c) w h a = insert-Spared c w a h
  serve-Spared i (persist_provider_result j r) w h a =
      update-Spared _ j w (λ row updated e s. ground arith) h
  serve-Spared i (mark_completed j r) w h a =
      update-Spared (completed_row r) j w (completed_row-keeps r) h
  serve-Spared i (mark_failed j code) w h a =
      update-Spared _ j w (λ row updated e s. ground arith) h
  serve-Spared i (mutate j r) w h a = record {
    stored = h.stored;
    same = rw keep-append (rw a (append-nil _ ∙ h.same));
  }
  serve-Spared i (create_approval ap) w h a = record { stored = h.stored; same = h.same }
  serve-Spared i (record_audit r) w h a = record { stored = h.stored; same = h.same }
  serve-Spared i _ w h a = h

  manage-Spared : (w w' : World) → Manages platform w w' → Spared w → Spared w'
  unfolding set_grant_status
  manage-Spared w w' (creates id ws by repo scope w0) h =
      let same = create_grant-rest platform id ws by repo scope w0 in
      record { stored = rw same.0 h.stored; same = rw same.1 h.same }
  manage-Spared w w' (sets id ws status at w0) h = record { stored = h.stored; same = h.same }

  once-Fulfils : Fulfils (services platform (Fresh x)) (C x) Spared
  once-Fulfils = record {
    answer = λ i c w h a. serve-Answers i.0 c w i.1 h;
    keep = λ i c w h a. handle_keeps platform Spared i.0 c w h (serve-Spared i.0 c w h a);
  }

-- Where a provider result is stored for a command at a moment when no worker or request is under
-- way, GitHub gets no further call for that command, and the command keeps a stored result: whatever
-- workers and requests start from then on, overlap, crash or are repeated, whatever is approved and
-- whatever grants change, as long as `randomUUID` does not return the command's own id.
pub mutated_once :
    (platform : Platform) (x : String) (w : World) {b : MutationSystem}
    → Stored x w
    → Reaches platform (Fresh x) (record { world = w; running = [] }) b
    → (mutations_for x b.world ≡ mutations_for x w) × Stored x b.world
mutated_once platform x w {b} h r =
    let calls = mutations_for x w in
    let spared : Spared platform x calls b.world =
      Reach-Inv (services platform (Fresh x)) (once-Fulfils platform x calls) (Works platform)
        (Manages platform) (Ends Any) (Works-Safe x platform) (manage-Spared platform x calls) w
        (record { stored = h; same = refl }) r in
    (spared.same, spared.stored)
