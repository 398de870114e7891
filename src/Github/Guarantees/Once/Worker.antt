-- ===== src/Github/Guarantees/Once/Worker.antt =====
-- The calls of a worker, where the command `x` has a stored result.
use Prim.Native.String
use matrix_agent_workspace.Prelude.{
  String, Bool, true, false, Option, none, some, List, ◌≡◌, keep, ◌==◌, Bool-cases, inl, inr,
}
use matrix_agent_workspace.Json.{Fields}
use matrix_agent_workspace.Effects.{Contract, Safe, safe_ret, safe_throw, Safe-if, Ends, Any}
use matrix_agent_workspace.Github.Types.{Platform, MutationCommand, ClientRequest}
use matrix_agent_workspace.Github.World.{World, map_get}
use matrix_agent_workspace.Github.Calls.{Call, Reply, Input, get_command, random_id}
use matrix_agent_workspace.Github.Calls.Rules.{await-Safe}
use matrix_agent_workspace.Github.Worker.{process_open, process_found, process, is_completed}
use matrix_agent_workspace.Github.Protocol
use matrix_agent_workspace.Github.Protocol.{Terms}

abbrev pub has_result : Option Fields → Bool
has_result none = false
has_result (some r) = true

abbrev pub has_row : Option MutationCommand → Bool
has_row none = false
has_row (some c) = has_result c.provider_result

abbrev pub is_id : String → String × ClientRequest → Bool
is_id x m = m.0 == x

-- The client's calls for the command `x`.
abbrev pub mutations_for : String → World → List (String × ClientRequest)
mutations_for x w = keep (is_id x) w.mutations

module _ (x : String) where
  -- `randomUUID` does not return the id of the command.
  abbrev pub Fresh : Input → Type 0
  Fresh i = (String.◌++◌ "gcmd_" i.fresh == x) ≡ false

  -- A command with the id `x` is stored, with a provider result.
  abbrev pub Stored : World → Type 0
  Stored w = has_row (map_get x w.commands) ≡ true

  abbrev pub Answers : (c : Call) → Option (Reply c) → Type 0
  Answers (get_command j) (some r) = (j == x) ≡ true → has_row r ≡ true
  Answers random_id (some f) = (String.◌++◌ "gcmd_" f == x) ≡ false
  Answers _ _ = Unit

  abbrev pub terms : Terms
  terms = record {
    Mutates = λ j. (j == x) ≡ false;
    Inserts = λ c. (c.id == x) ≡ false;
    Approves = Unit;
    Answers = Answers;
  }

  abbrev pub C : Contract Call Reply
  C = Protocol.C terms

  module _ (platform : Platform) where
    open-Safe :
        (id : String) (c : MutationCommand) (stored : Option Fields)
        → ((id == x) ≡ true → has_result stored ≡ true)
        → Safe C (Ends Any) (process_open platform id c stored)
    open-Safe id c (some r) a = Protocol.complete-Safe terms id c r
    open-Safe id c none a = elim (Bool-cases (id == x)) [
      | inl same ↦ (let found : false ≡ true = a same in cc)
      | inr other ↦ Protocol.call-Safe terms platform id c other
    ]

    pub process-Safe : (id : String) → Safe C (Ends Any) (process platform id)
    unfolding process
    process-Safe id = await-Safe C (get_command id) tt (λ r a. found r a)
      where
        found :
            (r : Option MutationCommand)
            → ((id == x) ≡ true → has_row r ≡ true)
            → Safe C (Ends Any) (process_found platform id r)
        found none a = safe_throw _ tt
        found (some c) a =
            Safe-if C (is_completed c.status) (λ _. safe_ret _ tt)
              (λ _. open-Safe id c c.provider_result a)
