-- ===== src/Github/Guarantees/Gated/Gates.antt =====
-- A worker whose command the gates do not let through.
use mathlib.Core.Bool.{not}
use matrix_agent_workspace.Prelude.{
  ℕ, ◌≤◌, String, Bool, true, false, Option, none, some, ◌≡◌, refl, sym, arith, ltb, ◌&&◌, ◌==◌,
}
use matrix_agent_workspace.Json.{Fields}
use matrix_agent_workspace.Effects.{
  Contract, Safe, safe_ret, safe_throw, Safe-then, Safe-settle_then, Safe-if, Ends, Any, Settled,
  fulfilled, rejected,
}
use matrix_agent_workspace.Github.Types.{
  Platform, scope_for_operation, GithubWriteGrant, MutationApproval, MutationCommand, MutationError,
}
use matrix_agent_workspace.Github.World
use matrix_agent_workspace.Github.World.{World, map_get, map_set, update_row}
use matrix_agent_workspace.Github.Calls.{Call, Reply, Input, find_grant, find_approval, now}
use matrix_agent_workspace.Github.Calls.Rules.{await-Safe}
use matrix_agent_workspace.Github.Gates.{
  authorize_write_scope, check_grant, check_expiry, check_approval, judge, CheckApprovalInput,
  is_approved_grant, is_approved, is_exact,
}
use matrix_agent_workspace.Github.Worker.{
  reauthorize, checked_approval, process_found, process_open, after_reauthorize, is_completed,
}
use matrix_agent_workspace.Github.Protocol
use matrix_agent_workspace.Github.Protocol.{
  Terms, Allowed, complete-Safe, fail-Safe, check_approval-Safe,
}

abbrev pub has_expired : Option ℕ → ℕ → Bool
has_expired none at = false
has_expired (some until) at = ltb until at

-- An approved grant that has not expired at the time `at`.
abbrev pub grant_holds : ℕ → Option GithubWriteGrant → Bool
grant_holds at none = false
grant_holds at (some g) = is_approved_grant g && not (has_expired g.expires_at at)

-- The approval that the worker asks for.
abbrev pub approval_input : MutationCommand → String → CheckApprovalInput
approval_input c id = record {
  approval_id = id;
  workspace_id = c.workspace_id;
  run_id = c.run_id;
  user_id = c.user_id;
  scope = scope_for_operation c.operation;
  command_hash = c.arguments_hash;
}

-- An approval of exactly this command that has not expired at the time `at`.
abbrev pub approval_holds : ℕ → CheckApprovalInput → Option MutationApproval → Bool
approval_holds at input none = false
approval_holds at input (some a) = is_approved a && (not (ltb a.expires_at at) && is_exact a input)

abbrev pub named_holds : ℕ → MutationCommand → Option String → World → Bool
named_holds at c none w = false
named_holds at c (some id) w = approval_holds at (approval_input c id) (World.find_approval id w)

-- Both gates of the command are open in these tables.
abbrev pub is_authorized : Platform → ℕ → MutationCommand → World → Bool
is_authorized platform at c w =
    grant_holds at
      (World.find_grant platform c.workspace_id c.repository (scope_for_operation c.operation) w)
    && named_holds at c c.approval_id w

-- The clock does not run behind `at`.
abbrev pub Since : ℕ → Input → Type 0
Since at i = at ≤ i.clock

module _ (platform : Platform) (at : ℕ) (w : World) (c : MutationCommand)
    (closed : is_authorized platform at c w ≡ false) where
  abbrev pub AnswersTable : (d : Call) → Option (Reply d) → Type 0
  AnswersTable (find_grant ws repo scope) (some g) = g ≡ World.find_grant platform ws repo scope w
  AnswersTable (find_approval id) (some a) = a ≡ World.find_approval id w
  AnswersTable now (some t) = at ≤ t
  AnswersTable _ _ = Unit

  abbrev pub terms : Terms
  terms = record { Mutates = λ j. ⊥; Inserts = λ d. ⊥; Approves = ⊥; Answers = AnswersTable }

  abbrev pub C : Contract Call Reply
  C = Protocol.C terms

  GrantHolds : Type 0
  GrantHolds =
      grant_holds at
        (World.find_grant platform c.workspace_id c.repository (scope_for_operation c.operation) w)
      ≡ true

  authorize-holds :
      Safe C
        (Ends (λ (g : GithubWriteGrant). GrantHolds))
        (authorize_write_scope c.workspace_id c.repository (scope_for_operation c.operation))
  unfolding authorize_write_scope GrantHolds
  authorize-holds = await-Safe C (find_grant _ _ _) tt (λ g e. checked g e)
    where
      expiry :
          (g : GithubWriteGrant) (until : Option ℕ)
          → (has_expired until at ≡ false → GrantHolds)
          → Safe C (Ends (λ (g : GithubWriteGrant). GrantHolds)) (check_expiry g until)
      expiry g none h = safe_ret g (h refl)
      expiry g (some until) h = await-Safe C now tt (λ t le.
          Safe-if C (ltb until t) (λ _. safe_throw _ tt) (λ fresh. safe_ret g (h (ground arith))))

      checked :
          (g : Option GithubWriteGrant)
          → g
            ≡ World.find_grant platform c.workspace_id c.repository
                (scope_for_operation c.operation)
                w
          → Safe C (Ends (λ (g : GithubWriteGrant). GrantHolds)) (check_grant g)
      checked none e = safe_throw _ tt
      checked (some g) e =
          Safe-if C (is_approved_grant g)
            (λ yes. expiry g g.expires_at (λ fresh. rw (sym e) (rw (yes, fresh) refl)))
            (λ _. safe_throw _ tt)

  approval-holds :
      (i : CheckApprovalInput)
      → Safe C
          (Ends (λ (a : MutationApproval).
            approval_holds at i (World.find_approval i.approval_id w) ≡ true))
          (check_approval i)
  unfolding check_approval
  approval-holds i =
      await-Safe C now tt
        (λ t le. await-Safe C (find_approval i.approval_id) tt (λ a e. judged t le a e))
    where
      judged :
          (t : ℕ)
          → at ≤ t
          → (a : Option MutationApproval) → a ≡ World.find_approval i.approval_id w
          → Safe C
              (Ends (λ (a : MutationApproval).
                approval_holds at i (World.find_approval i.approval_id w) ≡ true))
              (judge i t a)
      judged t le none e = safe_throw _ tt
      judged t le (some a) e =
          Safe-if C (is_approved a)
            (λ yes.
              Safe-if C (ltb a.expires_at t) (λ _. safe_throw _ tt)
                (λ fresh.
                  Safe-if C (is_exact a i)
                    (λ exact.
                      let fresh' : ltb a.expires_at at ≡ false = ground arith in
                      safe_ret a (rw (sym e) (rw (yes, fresh', exact) refl)))
                    (λ _. safe_throw _ tt)))
            (λ _. safe_throw _ tt)

  -- The gates do not let the command through.
  reauthorize-closed : Safe C (Ends (λ (u : Unit {0}). ⊥)) (reauthorize c)
  unfolding reauthorize GrantHolds
  reauthorize-closed = Safe-then C authorize-holds (λ g h. checked c.approval_id refl h)
    where
      checked :
          (a : Option String)
          → c.approval_id ≡ a
          → GrantHolds
          → Safe C (Ends (λ (u : Unit {0}). ⊥)) (checked_approval c a)
      checked none q h = safe_throw _ tt
      checked (some id) q h =
          Safe-if C (id == "") (λ _. safe_throw _ tt)
            (λ _.
              Safe-then C (approval-holds (approval_input c id))
                (λ a held. let open' : is_authorized platform at c w ≡ true = rw (h, q) held in cc))

  pub found-Safe : (id : String) → Safe C (Ends Any) (process_found platform id (some c))
  found-Safe id =
      Safe-if C (is_completed c.status) (λ _. safe_ret _ tt) (λ _. opened c.provider_result)
    where
      refused :
          (r : Settled MutationError (Unit {0}))
          → Ends (λ (u : Unit {0}). ⊥) r
          → Safe C (Ends Any) (after_reauthorize platform id c r)
      refused (rejected e) h = fail-Safe terms id c _ e
      refused (fulfilled u) h = absurd h

      opened : (r : Option Fields) → Safe C (Ends Any) (process_open platform id c r)
      opened (some r) = complete-Safe terms id c r
      opened none = Safe-settle_then C reauthorize-closed (λ r h. refused r h)
