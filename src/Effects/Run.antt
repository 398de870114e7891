-- ===== src/Effects/Run.antt =====
-- One execution of a program against services with a state.
use matrix_agent_workspace.Prelude.{ℕ, suc, Option}
use matrix_agent_workspace.Effects.Syntax.{Prog, ret, throw, op, Settled, fulfilled, rejected}

-- The services: `handle i c w` is the reply to the call `c` in the state `w`, and the state after
-- it. `i` is what the outside contributes: a clock reading, a model's answer, a lost connection.
pub record Services (Call : Type 0) (Reply : Call → Type 0) : Type 1 where
  pub World : Type 0
  pub Input : Type 0
  pub handle : Input → (c : Call) → World → Option (Reply c) × World

module _ {Call : Type 0} {Reply : Call → Type 0} {Exn : Type 0} {A : Type 0}
    (s : Services Call Reply) where
  open s use {World, Input, handle}

  -- The execution from call `n` on, where the outside contributes `input n` to call `n`.
  unfoldable pub run : (ℕ → Input) → ℕ → Prog Call Reply Exn A → World → Settled Exn A × World
  run input n (ret a) w = (fulfilled a, w)
  run input n (throw e) w = (rejected e, w)
  run input n (op c k) w =
      let answer = handle (input n) c w in run input (suc n) (k answer.0) answer.1
