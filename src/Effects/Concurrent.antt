-- ===== src/Effects/Concurrent.antt =====
-- `Promise.allSettled`: several programs whose calls interleave. The event loop decides which one
-- goes on, so the order is a parameter: `first n` tells whether the first program makes call `n`.
pub mod Keeps
use matrix_agent_workspace.Prelude.{ℕ, zero, suc, Bool, Option, List, [], ◌∷◌, if◌then◌else◌}
use matrix_agent_workspace.Effects.Syntax.{Prog, ret, throw, op, Settled, ◌>>=◌, settle}

module _ {Call : Type 0} {Reply : Call → Type 0} {Exn : Type 0} {A B : Type 0} where
  -- The rest of a program that waits for the call `c`, beside another program.
  pub beside :
      (ℕ → Bool)
      → (c : Call) → (Option (Reply c) → ℕ → Prog Call Reply Exn B → Prog Call Reply Exn (A × B))
      → ℕ
      → Prog Call Reply Exn B
      → Prog Call Reply Exn (A × B)
  beside first c go n (ret b) = op c (λ r. go r (suc n) (ret b))
  beside first c go n (throw e) = throw e
  beside first c go n (op d k) =
      let mine = op c (λ r. go r (suc n) (op d k)) in
      let other = op d (λ r. beside first c go (suc n) (k r)) in if first n then mine else other

  -- Two programs whose calls interleave as `first` says, from call `n` on.
  pub merge :
      (ℕ → Bool) → ℕ → Prog Call Reply Exn A → Prog Call Reply Exn B → Prog Call Reply Exn (A × B)
  unfolding beside
  merge first n (ret a) q = q >>= λ b. ret (a, b)
  merge first n (throw e) q = throw e
  merge first n (op c k) q = beside first c (λ r m q'. merge first m (k r) q') n q

module _ {Call : Type 0} {Reply : Call → Type 0} {Exn : Type 0} {A : Type 0} where
  -- `Promise.allSettled(programs)`; `first i` interleaves program `i` with the later ones.
  unfoldable pub all_settled :
      (ℕ → ℕ → Bool) → List (Prog Call Reply Exn A) → Prog Call Reply Exn (List (Settled Exn A))
  unfolding merge
  all_settled first [] = ret []
  all_settled first (p ∷ ps) =
      merge (first 0) 0 (settle p) (all_settled (λ i. first (suc i)) ps) >>= λ both.
      ret (both.0 ∷ both.1)
