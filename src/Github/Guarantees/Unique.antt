-- ===== src/Github/Guarantees/Unique.antt =====
-- mutation-command.ts, `insertCommand`: the idempotency keys of the stored commands.
use matrix_agent_workspace.Prelude.{
  String, Bool, true, false, Option, none, some, [], ◌≡◌, refl, subst, sym, arith,
}
use matrix_agent_workspace.Json.{Fields}
use matrix_agent_workspace.Effects.{
  ret, throw, op, Contract, Safe, safe_ret, safe_throw, safe_op, Ends, Any, Fulfils, Reach-Inv,
}
use matrix_agent_workspace.Github.Types.{Platform, MutationCommand}
use matrix_agent_workspace.Github.World
use matrix_agent_workspace.Github.World.{
  World, map_get, map_set, update_row, completed_row, find_by_key, create_grant, set_grant_status,
}
use matrix_agent_workspace.Github.World.Tables.{create_grant-rest}
use matrix_agent_workspace.Github.World.Keys.{
  DistinctKeys, SameKey, insert-DistinctKeys, update-DistinctKeys,
}
use matrix_agent_workspace.Github.Calls.{
  Call, Reply, Input, G, serve, services, insert_command, persist_provider_result, mark_completed,
  mark_failed,
}
use matrix_agent_workspace.Github.Guarantees.{
  Works, Manages, creates, sets, MutationSystem, Reaches, handle_keeps,
}

-- Every call is allowed.
abbrev free : Contract Call Reply
free = record { allowed = λ c. Unit; answers = λ c r. Unit }

free-Safe : {A : Type 0} (p : G A) → Safe free (Ends Any) p
free-Safe (ret a) = safe_ret a tt
free-Safe (throw e) = safe_throw e tt
free-Safe (op c k) = safe_op c k tt (λ r a. free-Safe (k r))

abbrev KeepsKey : (MutationCommand → Option MutationCommand) → Type 0
KeepsKey change = (row updated : MutationCommand) → change row ≡ some updated → SameKey row updated

abbrev Keyed : World → Type 0
Keyed w = DistinctKeys w.commands

update_row-Keyed :
    (change : MutationCommand → Option MutationCommand) (id : String) (w : World)
    → KeepsKey change
    → Keyed w
    → Keyed (update_row (map_get id w.commands) change id w).1
update_row-Keyed change id w keeps h = by_row (map_get id w.commands) refl
  where
    by_change :
        (row : MutationCommand)
        → map_get id w.commands ≡ some row
        → (u : Option MutationCommand) → change row ≡ u
        → Keyed
            (elim u as (λ x. Option MutationCommand × World) [
              | none ↦ (none, w)
              | some updated ↦ (some updated, record w { commands = map_set id updated w.commands })
            ]).1
    by_change row e none q = h
    by_change row e (some updated) q =
        update-DistinctKeys id row updated w.commands (keeps row updated q) e h

    by_row :
        (r : Option MutationCommand)
        → map_get id w.commands ≡ r
        → Keyed (update_row r change id w).1
    by_row none e = h
    by_row (some row) e = by_change row e (change row) refl

insert_command-Keyed :
    (c : MutationCommand) (w : World) → Keyed w → Keyed (World.insert_command c w).1
unfolding World.insert_command
insert_command-Keyed c w h = by_key (find_by_key c.workspace_id c.idempotency_key w.commands) refl
  where
    by_key :
        (r : Option MutationCommand)
        → find_by_key c.workspace_id c.idempotency_key w.commands ≡ r
        → Keyed
            (elim r as (λ y. (MutationCommand × Bool) × World) [
              | some existing ↦ ((existing, true), w)
              | none ↦ ((c, false), record w { commands = map_set c.id c w.commands })
            ]).1
    by_key (some existing) e = h
    by_key none e = insert-DistinctKeys c.id c w.commands e h

completed_row-KeepsKey : (r : Fields) → KeepsKey (completed_row r)
completed_row-KeepsKey r row updated e = ground arith

serve-Keyed :
    (platform : Platform) (i : Input) (c : Call) (w : World)
    → Keyed w
    → Keyed (serve platform i c w).1
unfolding World.persist_provider_result World.mark_completed World.mark_failed World.get_command
    World.create_approval World.record_audit
serve-Keyed platform i (insert_command c) w h = insert_command-Keyed c w h
serve-Keyed platform i (persist_provider_result j r) w h =
    update_row-Keyed _ j w (λ row updated e. ground arith) h
serve-Keyed platform i (mark_completed j r) w h =
    update_row-Keyed (completed_row r) j w (completed_row-KeepsKey r) h
serve-Keyed platform i (mark_failed j code) w h =
    update_row-Keyed _ j w (λ row updated e. ground arith) h
serve-Keyed platform i _ w h = h

manage-Keyed : (platform : Platform) (w w' : World) → Manages platform w w' → Keyed w → Keyed w'
unfolding set_grant_status
manage-Keyed platform w w' (creates id ws by repo scope w0) h =
    subst DistinctKeys (sym (create_grant-rest platform id ws by repo scope w0).0) h
manage-Keyed platform w w' (sets id ws status at w0) h = h

-- No two commands have the same workspace and idempotency key: it holds at any moment if it held
-- before, whatever requests and workers overlap, crash or are repeated, and whatever the outside
-- contributes, as long as it is in `May`.
pub commands-DistinctKeys :
    (platform : Platform) (May : Input → Type 0) (w : World) {b : MutationSystem}
    → DistinctKeys w.commands
    → Reaches platform May (record { world = w; running = [] }) b
    → DistinctKeys b.world.commands
commands-DistinctKeys platform May w h r =
    Reach-Inv (services platform May) fulfils (Works platform) (Manages platform) (Ends Any)
      (λ p s. free-Safe p) (manage-Keyed platform) w h r
  where
    fulfils : Fulfils (services platform May) free Keyed
    fulfils = record {
      answer = λ i c w h a. tt;
      keep = λ i c w h a. handle_keeps platform Keyed i.0 c w h (serve-Keyed platform i.0 c w h);
    }
