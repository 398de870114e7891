-- ===== src/Effects/Concurrent/Keeps.antt =====
-- An interleaving of programs that keep a contract keeps it, whatever the order of the calls.
use matrix_agent_workspace.Prelude.{ℕ, suc, Bool, Option, List, [], ◌∷◌, ◌⊎◌, inl, inr}
use matrix_agent_workspace.Effects.Syntax.{Prog, Settled, fulfilled, rejected}
use matrix_agent_workspace.Effects.Safety.{
  Contract, Safe, safe_ret, safe_throw, safe_op, Safe-bind, Safe-if, Safe-settle, Returns,
}
use matrix_agent_workspace.Effects.Concurrent.{beside, merge, all_settled}

-- How two programs end together: both with a value, or one of them throws.
abbrev pub Both :
    {Exn A B : Type 0}
    → (Settled Exn A → Type 0)
    → (Settled Exn B → Type 0)
    → Settled Exn (A × B)
    → Type 0
Both Post Post' (fulfilled (a, b)) = Post (fulfilled a) × Post' (fulfilled b)
Both Post Post' (rejected e) = Post (rejected e) ⊎ Post' (rejected e)

module _ {Call : Type 0} {Reply : Call → Type 0} {Exn : Type 0} (C : Contract Call Reply)
    {A B : Type 0} (Post : Settled Exn A → Type 0) (Post' : Settled Exn B → Type 0) where
  beside-Safe :
      (first : ℕ → Bool) (c : Call)
      (go : Option (Reply c) → ℕ → Prog Call Reply Exn B → Prog Call Reply Exn (A × B))
      → C.allowed c
      → ((r : Option (Reply c))
          → C.answers c r
          → (n : ℕ) (q : Prog Call Reply Exn B) → Safe C Post' q
          → Safe C (Both Post Post') (go r n q))
      → (n : ℕ) {q : Prog Call Reply Exn B} → Safe C Post' q
      → Safe C (Both Post Post') (beside first c go n q)
  unfolding beside
  beside-Safe first c go h hgo n (safe_ret b hb) =
      safe_op c _ h (λ r a. hgo r a (suc n) _ (safe_ret b hb))
  beside-Safe first c go h hgo n (safe_throw e he) = safe_throw e (inr he)
  beside-Safe first c go h hgo n (safe_op d k hd ih) =
      Safe-if C (first n) (λ _. safe_op c _ h (λ r a. hgo r a (suc n) _ (safe_op d k hd ih)))
        (λ _. safe_op d _ hd (λ r a. beside-Safe first c go h hgo (suc n) (ih r a)))

  merge-Safe :
      (first : ℕ → Bool) (n : ℕ) {p : Prog Call Reply Exn A} {q : Prog Call Reply Exn B}
      → Safe C Post p
      → Safe C Post' q
      → Safe C (Both Post Post') (merge first n p q)
  unfolding merge
  merge-Safe first n (safe_ret a ha) hq =
      Safe-bind C _ hq (λ b hb. safe_ret _ (ha, hb)) (λ e he. inr he)
  merge-Safe first n (safe_throw e he) hq = safe_throw e (inl he)
  merge-Safe first n (safe_op c k h ih) hq =
      beside-Safe first c (λ r m q'. merge first m (k r) q') h
        (λ r a m q' hq'. merge-Safe first m (ih r a) hq') n hq

module _ {Call : Type 0} {Reply : Call → Type 0} {Exn : Type 0} (C : Contract Call Reply)
    {A : Type 0} where
  -- The programs end as the corresponding entries of a list of postconditions say.
  abbrev pub Zip : List (Settled Exn A → Type 0) → List (Settled Exn A) → Type 0
  Zip [] [] = Unit
  Zip [] (r ∷ rs) = ⊥
  Zip (P ∷ Ps) [] = ⊥
  Zip (P ∷ Ps) (r ∷ rs) = P r × Zip Ps rs

  abbrev pub AllSafe : List (Settled Exn A → Type 0) → List (Prog Call Reply Exn A) → Type 0
  AllSafe [] [] = Unit
  AllSafe [] (p ∷ ps) = ⊥
  AllSafe (P ∷ Ps) [] = ⊥
  AllSafe (P ∷ Ps) (p ∷ ps) = Safe C P p × AllSafe Ps ps

  -- `allSettled` never throws, and every program ends as its own contract says.
  pub all_settled-Safe :
      (first : ℕ → ℕ → Bool) (Posts : List (Settled Exn A → Type 0))
      (ps : List (Prog Call Reply Exn A))
      → AllSafe Posts ps
      → Safe C (Returns (Zip Posts)) (all_settled first ps)
  unfolding all_settled
  all_settled-Safe first [] [] h = safe_ret _ tt
  all_settled-Safe first [] (p ∷ ps) h = absurd h
  all_settled-Safe first (P ∷ Ps) [] h = absurd h
  all_settled-Safe first (P ∷ Ps) (p ∷ ps) (h, hs) =
      Safe-bind C _
        (merge-Safe C _ _ (first 0) 0 (Safe-settle C h)
          (all_settled-Safe (λ i. first (suc i)) Ps ps hs))
        (λ both hb. safe_ret _ hb) (λ e he. elim he [ inl x ↦ x | inr x ↦ x ])
