-- ===== src/Github/Calls/Rules.antt =====
-- The contract rules for an awaited call.
use matrix_agent_workspace.Prelude.{Option, none, some}
use matrix_agent_workspace.Effects.{throw, ret, Contract, Safe, safe_throw, safe_op, Ends, ◌>>=◌}
use matrix_agent_workspace.Github.Calls.{Call, Reply, G, await}
use matrix_agent_workspace.Github.Types.{other_error}

module _ (C : Contract Call Reply) {B : Type 0} {P : B → Type 0} where
  answer-Safe :
      (c : Call) (f : Reply c → G B)
      → ((r : Reply c) → C.answers c (some r) → Safe C (Ends P) (f r))
      → (r : Option (Reply c)) → C.answers c r
      → Safe C
          (Ends P)
          ((elim r as (λ x. G (Reply c)) [ none ↦ throw other_error | some a ↦ ret a ]) >>= f)
  answer-Safe c f go none h = safe_throw other_error tt
  answer-Safe c f go (some r) h = go r h

  pub await-Safe :
      (c : Call) {f : Reply c → G B}
      → C.allowed c
      → ((r : Reply c) → C.answers c (some r) → Safe C (Ends P) (f r))
      → Safe C (Ends P) (await c >>= f)
  unfolding await
  await-Safe c {f} h go = safe_op c _ h (answer-Safe c f go)
