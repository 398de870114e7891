-- ===== src/Github/Guarantees.antt =====
-- What the mutation path promises, whatever requests and workers overlap, stop at any call and are
-- repeated.
pub mod Once
pub mod Unique
pub mod Gated
use matrix_agent_workspace.Prelude.{ℕ, String, Bool, List, []}
use matrix_agent_workspace.Effects.{System, Reach, ret, ◌>>=◌}
use matrix_agent_workspace.Github.Types.{WriteScope, WriteGrantStatus, MutationError, Platform}
use matrix_agent_workspace.Github.World.{World, create_grant, set_grant_status}
use matrix_agent_workspace.Github.Calls.{
  Call, Reply, Input, Fault, no_fault, lost_before, lost_after, serve, deliver, handle, services, G,
}
use matrix_agent_workspace.Github.Gates.{ApproveInput, approve}
use matrix_agent_workspace.Github.Worker.{process}
use matrix_agent_workspace.Github.Enqueue.{EnqueueMutationInput, enqueue_mutation_command}

-- An execution: a worker processes a command, a request enqueues one, or a user approves one. The
-- result is of no account here.
pub data Works (platform : Platform) : G (Unit {0}) → Type 0 where
  processes : (id : String) → Works platform (process platform id >>= λ _. ret tt)
  enqueues :
      (worker : Bool) (input : EnqueueMutationInput)
      → Works platform (enqueue_mutation_command platform worker input >>= λ _. ret tt)
  approves :
      (ttl_ms : ℕ) (input : ApproveInput)
      → Works platform (approve platform ttl_ms input >>= λ _. ret tt)

-- A user creates a write grant, or sets its status.
pub data Manages (platform : Platform) : World → World → Type 0 where
  creates :
      (id workspace by repository : String) (scope : WriteScope) (w : World)
      → Manages platform w (create_grant platform id workspace by repository scope w).1
  sets :
      (id workspace : String) (status : WriteGrantStatus) (now : ℕ) (w : World)
      → Manages platform w (set_grant_status id workspace status now w).1

abbrev pub MutationSystem : Type 0
MutationSystem = System Reply MutationError (Unit {0}) World

-- The states that can follow, where the outside contributes what `May` allows.
abbrev pub Reaches : Platform → (Input → Type 0) → MutationSystem → MutationSystem → Type 0
Reaches platform May a b = Reach (services platform May) (Works platform) (Manages platform) a b

-- It is enough that calls that reach the services keep an invariant.
pub handle_keeps :
    (platform : Platform) (Inv : World → Type 0) (i : Input) (c : Call) (w : World)
    → Inv w
    → Inv (serve platform i c w).1
    → Inv (handle platform i c w).1
unfolding handle
handle_keeps platform Inv i c w before after = go i.fault
  where
    go : (f : Fault) → Inv (deliver f (serve platform i c w) w).1
    go no_fault = after
    go lost_before = before
    go lost_after = after
