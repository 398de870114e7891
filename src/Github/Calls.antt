-- ===== src/Github/Calls.antt =====
-- The service calls of the mutation path, and the services that answer them.
pub mod Rules
use matrix_agent_workspace.Prelude.{ℕ, String, Bool, Option, none, some, List, [], ◌∷◌, ◌++◌}
use matrix_agent_workspace.Json.{Fields}
use matrix_agent_workspace.Effects.{Prog, ret, throw, op, Services}
use matrix_agent_workspace.Github.Types.{
  WriteScope, GithubWriteGrant, MutationApproval, MutationCommand, AuditRecordInput, ClientRequest,
  MutationError, other_error, Platform,
}
use matrix_agent_workspace.Github.World
use matrix_agent_workspace.Github.World.{World}

-- `mutate` is a call of the GitHub client for a command; `none` is `GithubMutationError`.
pub data Call : Type 0 where
  find_grant : String → String → WriteScope → Call
  create_approval : MutationApproval → Call
  find_approval get_command : String → Call
  find_command_by_key : String → String → Call
  insert_command : MutationCommand → Call
  persist_provider_result mark_completed : String → Fields → Call
  mark_failed : String → String → Call
  record_audit : AuditRecordInput → Call
  mutate : String → ClientRequest → Call
  now random_id : Call

abbrev pub Reply : Call → Type 0
Reply (find_grant w r s) = Option GithubWriteGrant
Reply (create_approval a) = MutationApproval
Reply (find_approval id) = Option MutationApproval
Reply (get_command id) = Option MutationCommand
Reply (find_command_by_key w k) = Option MutationCommand
Reply (insert_command c) = MutationCommand × Bool
Reply (persist_provider_result id r) = Option MutationCommand
Reply (mark_completed id r) = Option MutationCommand
Reply (mark_failed id c) = Option MutationCommand
Reply (record_audit i) = Unit
Reply (mutate id r) = Option Fields
Reply now = ℕ
Reply random_id = String

abbrev pub G : Type 0 → Type 0
G A = Prog Call Reply MutationError A

-- `await service.call(…)`; a lost call is an error without a code.
unfoldable pub await : (c : Call) → G (Reply c)
await c = op c (λ r. elim r [ none ↦ throw other_error | some a ↦ ret a ])

pub data Fault : Type 0 where
  no_fault lost_before lost_after : Fault

-- What the outside contributes to one call.
pub record Input : Type 0 where
  pub clock : ℕ
  pub fresh : String
  pub github : Option Fields
  pub fault : Fault

abbrev pub deliver : {A : Type 0} → Fault → A × World → World → Option A × World
deliver no_fault done before = (some done.0, done.1)
deliver lost_before done before = (none, before)
deliver lost_after done before = (none, done.1)

module _ (platform : Platform) where
  abbrev pub serve : Input → (c : Call) → World → Reply c × World
  serve i (find_grant w r s) world = (World.find_grant platform w r s world, world)
  serve i (create_approval a) world = World.create_approval a world
  serve i (find_approval id) world = (World.find_approval id world, world)
  serve i (get_command id) world = (World.get_command id world, world)
  serve i (find_command_by_key w k) world = (World.find_by_key w k world.commands, world)
  serve i (insert_command c) world = World.insert_command c world
  serve i (persist_provider_result id r) world = World.persist_provider_result id r world
  serve i (mark_completed id r) world = World.mark_completed id r world
  serve i (mark_failed id c) world = World.mark_failed id c world
  serve i (record_audit a) world = (tt, World.record_audit a world)
  serve i (mutate id r) world =
      (i.github, record world { mutations = world.mutations ++ (id, r) ∷ [] })
  serve i now world = (i.clock, world)
  serve i random_id world = (i.fresh, world)

  unfoldable pub handle : Input → (c : Call) → World → Option (Reply c) × World
  handle i c w = deliver i.fault (serve i c w) w

  -- The services, where the outside contributes what `May` allows.
  abbrev pub services : (Input → Type 0) → Services Call Reply
  services May = record {
    World = World;
    Input = (i : Input) × May i;
    handle = λ i c w. handle i.0 c w;
  }
