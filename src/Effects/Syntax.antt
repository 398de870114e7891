-- ===== src/Effects/Syntax.antt =====
-- Programs over a set of service calls, with exceptions, `try` and concurrent composition.
use matrix_agent_workspace.Prelude.{Option}

-- `Call` are the calls that the code makes, `Reply c` what the service answers to `c`, and `Exn`
-- the errors that the code throws.
pub data Prog (Call : Type 0) (Reply : Call → Type 0) (Exn : Type 0) (A : Type 0) : Type 0 where
  ret : A → Prog Call Reply Exn A
  throw : Exn → Prog Call Reply Exn A
  op : (c : Call) → (Option (Reply c) → Prog Call Reply Exn A) → Prog Call Reply Exn A

-- How a promise settled.
pub data Settled (Exn A : Type 0) : Type 0 where
  fulfilled : A → Settled Exn A
  rejected : Exn → Settled Exn A

module _ {Call : Type 0} {Reply : Call → Type 0} {Exn : Type 0} where
  infixl 5 ◌>>=◌ ◌>>◌
  abbrev pub ◌>>=◌ :
      {A B : Type 0} → Prog Call Reply Exn A → (A → Prog Call Reply Exn B) → Prog Call Reply Exn B
  ret a >>= f = f a
  throw e >>= f = throw e
  op c k >>= f = op c (λ r. k r >>= f)

  abbrev pub ◌>>◌ :
      {B : Type 0} → Prog Call Reply Exn (Unit {0}) → Prog Call Reply Exn B → Prog Call Reply Exn B
  m >> k = m >>= λ _. k

  -- `try { a } catch (e) { … }`, with the outcome as a value.
  abbrev pub settle : {A : Type 0} → Prog Call Reply Exn A → Prog Call Reply Exn (Settled Exn A)
  settle (ret a) = ret (fulfilled a)
  settle (throw e) = ret (rejected e)
  settle (op c k) = op c (λ r. settle (k r))
