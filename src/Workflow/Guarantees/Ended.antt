-- ===== src/Workflow/Guarantees/Ended.antt =====
-- One execution that finds the run ended, or its cancellation requested.
use matrix_agent_workspace.Prelude.{
  ℕ, String, Bool, true, false, Option, none, some, List, ◌≡◌, refl, sym, ap, arith, map, subst,
}
use matrix_agent_workspace.Effects.{
  Contract, Safe, safe_throw, safe_ret, Ends, Any, Fulfils, run-Inv, run-Keeps, run, Settled,
  fulfilled, rejected, throw, ret, safe_op, ◌>>=◌,
}
use matrix_agent_workspace.Agents.Injection.{InjectionPattern}
use matrix_agent_workspace.Workflow.Types.{
  RunStatus, TerminalRunStatus, terminal_status, ScheduledSpecialist, WorkflowOptions,
  WorkflowOutcome, SpecialistProviderRequest,
}
use matrix_agent_workspace.Workflow.World
use matrix_agent_workspace.Workflow.World.{World}
use matrix_agent_workspace.Workflow.Calls
use matrix_agent_workspace.Workflow.Calls.{
  W, await, crash, Call, Reply, Exn, Input, Fault, no_fault, lost_before, lost_after, services,
  handle, serve, deliver, get_status, load_specialist_results, get_summary, now, is_cancelled,
  complete, finalize, append,
}
use matrix_agent_workspace.Workflow.Calls.Rules.{await-Safe}
use matrix_agent_workspace.Workflow.Finalize.{resume_outcome, resumed_result}
use matrix_agent_workspace.Workflow.Protocol.{Allowed}
use matrix_agent_workspace.Workflow.Protocol.Parts
use matrix_agent_workspace.Workflow.Protocol.Run.{end_cancelled_early-Safe}
use matrix_agent_workspace.Workflow.Guarantees.{handle_keeps}
use matrix_agent_workspace.Workflow.Guarantees.ReadBack.{AreReadAs, resumed-AreReadAs}
use matrix_agent_workspace.Workflow.Execute.{execute_run, after_status, resume_or, unfinished}

abbrev pub is_lost : Fault → Bool
is_lost no_fault = false
is_lost lost_before = true
is_lost lost_after = true

module _ (t : TerminalRunStatus) (w : World) (input : ℕ → Input) where
  -- The outside loses a call.
  abbrev pub Lost : Type 0
  Lost = (n : ℕ) × (is_lost (input n).fault ≡ true)

  abbrev is_read : Call → Bool
  is_read get_status = true
  is_read load_specialist_results = true
  is_read get_summary = true
  is_read now = true
  is_read _ = false

  abbrev StoredReply : (c : Call) → Reply c → Type 0
  StoredReply get_status s = terminal_status s ≡ some t
  StoredReply load_specialist_results rs = rs ≡ World.load_specialist_results w
  StoredReply get_summary u = u ≡ w.summary
  StoredReply _ _ = Unit

  abbrev Stored : (c : Call) → Option (Reply c) → Type 0
  Stored c none = Lost
  Stored c (some r) = StoredReply c r

  abbrev reads : Contract Call Reply
  reads = record { allowed = λ c. is_read c ≡ true; answers = Stored }

  -- The outcome that is read back, or an error for a lost call.
  abbrev pub ReadBack : Settled Exn WorkflowOutcome → Type 0
  ReadBack (fulfilled o) =
      (o.status ≡ t)
      × AreReadAs (World.load_specialist_results w) o.results
      × (o.terminal_summary ≡ w.summary)
  ReadBack (rejected e) = Lost

  read-Safe :
      (c : Call) {f : Reply c → W WorkflowOutcome}
      → is_read c ≡ true
      → ((r : Reply c) → StoredReply c r → Safe reads ReadBack (f r))
      → Safe reads ReadBack (await c >>= f)
  unfolding await
  read-Safe c {f} h go = safe_op c _ h answer
    where
      answer :
          (r : Option (Reply c))
          → Stored c r
          → Safe reads ReadBack
              ((elim r as (λ x. W (Reply c)) [ none ↦ throw crash | some a ↦ ret a ]) >>= f)
      answer none lost = safe_throw crash lost
      answer (some r) stored = go r stored

  resume_outcome-reads : Safe reads ReadBack (resume_outcome t)
  unfolding resume_outcome
  resume_outcome-reads = read-Safe load_specialist_results refl (λ rs e.
      read-Safe get_summary refl (λ u s. read-Safe now refl (λ a _. read-Safe now refl (λ b _.
        safe_ret _ (
          refl,
          subst (λ rows. AreReadAs rows (map resumed_result rs)) e (resumed-AreReadAs rs),
          s,
        )))))

  execute_run-reads :
      (test : InjectionPattern → String → Bool) (order : ℕ → ℕ → Bool) (opts : WorkflowOptions)
      → Safe reads ReadBack (execute_run test order opts)
  unfolding execute_run
  execute_run-reads test order opts = read-Safe get_status refl go
    where
      go :
          (s : Option RunStatus)
          → terminal_status s ≡ some t
          → Safe reads ReadBack (after_status test order opts s)
      go none e = cc
      go (some s) e = rw e resume_outcome-reads

  serve-StoredReply :
      terminal_status w.status ≡ some t → (i : Input) (c : Call) → StoredReply c (serve i c w).0
  serve-StoredReply ended i get_status = ended
  serve-StoredReply ended i load_specialist_results = refl
  serve-StoredReply ended i get_summary = refl
  serve-StoredReply ended i _ = tt

  serve-same : (i : Input) (c : Call) → is_read c ≡ true → (serve i c w).1 ≡ w
  serve-same i get_status h = refl
  serve-same i load_specialist_results h = refl
  serve-same i get_summary h = refl
  serve-same i now h = refl
  serve-same i _ h = cc

  handle-Stored :
      terminal_status w.status ≡ some t → (n : ℕ) (c : Call) → Stored c (handle (input n) c w).0
  unfolding handle
  handle-Stored ended n c = go (input n).fault refl
    where
      go : (f : Fault) → (input n).fault ≡ f → Stored c (deliver f (serve (input n) c w) w).0
      go no_fault e = serve-StoredReply ended (input n) c
      go lost_before e = (n, ap is_lost e)
      go lost_after e = (n, ap is_lost e)

  handle-same :
      terminal_status w.status ≡ some t
      → (n : ℕ) (c : Call) (w' : World) → w' ≡ w
      → is_read c ≡ true
      → Stored c (handle (input n) c w').0 × ((handle (input n) c w').1 ≡ w)
  handle-same ended n c w' same ok = (
    subst (λ v. Stored c (handle (input n) c v).0) (sym same) (handle-Stored ended n c),
    subst (λ v. (handle (input n) c v).1 ≡ w) (sym same)
        (handle_keeps (λ v. v ≡ w) (input n) c w refl (serve-same (input n) c ok)),
  )

-- An execution that finds the run ended changes nothing in the services and calls no provider. It
-- returns the stored status, the stored summary and the stored results, each failed exactly if its
-- row has failed; or it throws, which it does only if the outside loses a call.
pub ended_run_untouched :
    (test : InjectionPattern → String → Bool) (order : ℕ → ℕ → Bool) (opts : WorkflowOptions)
    (t : TerminalRunStatus) (w : World) (input : ℕ → Input)
    → terminal_status w.status ≡ some t
    → ReadBack t w input (run services input 0 (execute_run test order opts) w).0
      × ((run services input 0 (execute_run test order opts) w).1 ≡ w)
ended_run_untouched test order opts t w input ended =
    run-Keeps services (λ w'. w' ≡ w) input (handle-same t w input ended)
      (execute_run-reads t w input test order opts) 0 w refl

-- The provider's calls, in a run whose cancellation is requested.
module _ (reqs : List SpecialistProviderRequest) where
  abbrev Cancelled : World → Type 0
  Cancelled w = (w.cancel_requested ≡ true) × (w.requests ≡ reqs)

  abbrev YesReply : (c : Call) → Reply c → Type 0
  YesReply is_cancelled b = b ≡ true
  YesReply _ _ = Unit

  abbrev Yes : (c : Call) → Option (Reply c) → Type 0
  Yes c none = Unit
  Yes c (some r) = YesReply c r

  abbrev Nobody : ScheduledSpecialist → Type 0
  Nobody spec = ⊥

  abbrev quiet : (InjectionPattern → String → Bool) → WorkflowOptions → Contract Call Reply
  quiet test opts = Parts.C test opts Nobody Yes

  execute_run-quiet :
      (test : InjectionPattern → String → Bool) (order : ℕ → ℕ → Bool) (opts : WorkflowOptions)
      → Safe (quiet test opts) (Ends Any) (execute_run test order opts)
  unfolding execute_run unfinished
  execute_run-quiet test order opts = await-Safe (quiet test opts) get_status tt (λ s _. go s)
    where
      go_on :
          (t : Option TerminalRunStatus)
          → Safe (quiet test opts) (Ends Any) (resume_or test order opts t)
      go_on (some t) = Parts.resume_outcome-Safe test opts Nobody Yes t
      go_on none =
          await-Safe (quiet test opts) is_cancelled tt
            (λ c e. rw e (end_cancelled_early-Safe test order opts Nobody Yes))

      go :
          (s : Option RunStatus)
          → Safe (quiet test opts) (Ends Any) (after_status test order opts s)
      go none = safe_throw _ tt
      go (some s) = go_on (terminal_status (some s))

  handle-Yes : (i : Input) (c : Call) (w : World) → Cancelled w → Yes c (handle i c w).0
  unfolding handle
  handle-Yes i c w h = go i.fault
    where
      reply : (c : Call) → YesReply c (serve i c w).0
      reply is_cancelled = h.0
      reply _ = tt

      go : (f : Fault) → Yes c (deliver f (serve i c w) w).0
      go no_fault = reply c
      go lost_before = tt
      go lost_after = tt

  serve-Cancelled :
      (test : InjectionPattern → String → Bool) (opts : WorkflowOptions) (i : Input) (c : Call)
      (w : World)
      → Cancelled w
      → Allowed test opts Nobody c
      → Cancelled (serve i c w).1
  unfolding World.append_event World.save_specialist_result World.begin_run World.finalize
  serve-Cancelled test opts i get_status w h a = h
  serve-Cancelled test opts i Calls.begin_run w h a = ground arith
  serve-Cancelled test opts i (finalize t u e p) w h a = ground arith
  serve-Cancelled test opts i (complete r) w h a = absurd a.may
  serve-Cancelled test opts i _ w h a = h

  quiet-Fulfils :
      (test : InjectionPattern → String → Bool) (opts : WorkflowOptions)
      → Fulfils services (quiet test opts) Cancelled
  quiet-Fulfils test opts = record {
    answer = λ i c w h a. handle-Yes i c w h;
    keep = λ i c w h a. handle_keeps Cancelled i c w h (serve-Cancelled test opts i c w h a);
  }

-- An execution that starts after the cancellation was requested never calls the provider.
pub cancelled_never_calls :
    (test : InjectionPattern → String → Bool) (order : ℕ → ℕ → Bool) (opts : WorkflowOptions)
    (w : World) (input : ℕ → Input)
    → w.cancel_requested ≡ true
    → (run services input 0 (execute_run test order opts) w).1.requests ≡ w.requests
cancelled_never_calls test order opts w input h =
    (run-Inv services (quiet-Fulfils w.requests test opts)
      (execute_run-quiet w.requests test order opts) input 0 w (h, refl)).1.1
