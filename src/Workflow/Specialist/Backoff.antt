-- ===== src/Workflow/Specialist/Backoff.antt =====
-- How long the workflow waits between two attempts.
use matrix_agent_workspace.Prelude.{
  ℕ, ◌≤◌, ◌<◌, ◌+◌, ◌*◌, ◌/◌, ◌^◌, true, false, Bool, none, some, arith, if◌then◌else◌, ◌≡◌, refl,
}
use native.Mathlib.Nat.{
  div-mul-le_self, mul-le-mul_right, le_of_mul-le-mul_left, min-le_right, le_trans,
}
use matrix_agent_workspace.Effects.{Ends, run, ret, throw, ◌>>=◌}
use matrix_agent_workspace.Workflow.Types.{RetryPolicy}
use matrix_agent_workspace.Workflow.World.{World}
use matrix_agent_workspace.Workflow.Calls.{
  Input, Fault, no_fault, lost_before, lost_after, services, handle, await, deliver, W, crash,
  random,
}
use matrix_agent_workspace.Workflow.Specialist.{jitter_of, capped_delay, compute_backoff}

capped_delay-le :
    (attempt : ℕ) (policy : RetryPolicy) → capped_delay attempt policy ≤ policy.max_delay_ms
unfolding capped_delay
capped_delay-le attempt policy = min-le_right _ _

quarter : (p bits c : ℕ) → bits < p → 4 * ((bits * c) / (4 * p)) ≤ c
quarter p bits c h =
    le_of_mul-le-mul_left {k = p}
      (le_trans (omega arith) (
        le_trans (div-mul-le_self (bits * c) (4 * p))
          (mul-le-mul_right {m = bits} {n = p} c (omega arith))))
      (omega arith)

jitter_of-le : (bits capped : ℕ) → bits < 2 ^ 53 → 4 * jitter_of bits capped ≤ capped
unfolding jitter_of
jitter_of-le bits capped h = quarter (2 ^ 53) bits capped h

abbrev pub Bounded : RetryPolicy → ℕ → Type 0
Bounded policy delay =
    (4 * delay ≤ 5 * policy.max_delay_ms) × (policy.jitter ≡ false → delay ≤ policy.max_delay_ms)

-- If the random numbers are fractions of 2 ^ 53, the delay before the next attempt is at most a
-- quarter longer than the policy's largest delay, and without jitter not longer than it.
pub compute_backoff-le :
    (attempt : ℕ) (policy : RetryPolicy) (input : ℕ → Input) (w : World)
    → ((n : ℕ) → (input n).random_bits < 2 ^ 53)
    → Ends (Bounded policy) (run services input 0 (compute_backoff attempt policy) w).0
unfolding compute_backoff run await handle
compute_backoff-le attempt policy input w h = by_jitter policy.jitter refl
  where
    capped : ℕ
    capped = capped_delay attempt policy

    jittered : W ℕ
    jittered = await random >>= λ bits. ret (capped + jitter_of bits capped)

    by_fault :
        policy.jitter ≡ true
        → (f : Fault) (bits : ℕ) → bits < 2 ^ 53
        → Ends
            (Bounded policy)
            (run services input 1
              ((elim (deliver f (bits, w) w).0 as (λ x. W ℕ) [
                | none ↦ throw crash
                | some a ↦ ret a
              ])
                >>= λ bits. ret (capped + jitter_of bits capped))
              (deliver f (bits, w) w).1).0
    by_fault q no_fault bits lt =
        let within = capped_delay-le attempt policy in
        let small = jitter_of-le bits capped lt in (omega arith, λ n. cc)
    by_fault q lost_before bits lt = tt
    by_fault q lost_after bits lt = tt

    by_jitter :
        (j : Bool)
        → policy.jitter ≡ j
        → Ends (Bounded policy) (run services input 0 (if j then jittered else ret capped) w).0
    by_jitter true q = by_fault q (input 0).fault (input 0).random_bits (h 0)
    by_jitter false q = let within = capped_delay-le attempt policy in (omega arith, λ n. within)
