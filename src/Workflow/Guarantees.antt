-- ===== src/Workflow/Guarantees.antt =====
-- What the workflow promises of a run, at any moment: executions of `executeRun` may overlap, stop
-- at any call and be started again, and cancel requests come in between.
pub mod EventLog
pub mod Resume
pub mod Outcome
pub mod Requests
pub mod ReadBack
pub mod Ended
use matrix_agent_workspace.Prelude.{ℕ, String, Bool, Option, List, [], ◌≡◌, All, All-intro}
use matrix_agent_workspace.Effects.{
  Contract, Fulfils, Reach, Reach-Inv, System, Safe, Safe-relax, Ends, Any,
}
use matrix_agent_workspace.Agents.Injection.{InjectionPattern}
use matrix_agent_workspace.Workflow.Types.{WorkflowOptions, WorkflowOutcome, ScheduledSpecialist}
use matrix_agent_workspace.Workflow.World.{World, cancel_run}
use matrix_agent_workspace.Workflow.Calls.{
  Call, Reply, Exn, W, Input, Fault, no_fault, lost_before, lost_after, serve, deliver, handle,
  services,
}
use matrix_agent_workspace.Workflow.Execute.{execute_run}
use matrix_agent_workspace.Workflow.Protocol.{Allowed}
use matrix_agent_workspace.Workflow.Protocol.Parts
use matrix_agent_workspace.Workflow.Protocol.Run.{Runs, execute_run-Safe}

-- An execution of the run with some options of `Opts`.
-- `test` runs the detector's regular expressions, and the event loop orders the calls as it likes.
pub data Executes (test : InjectionPattern → String → Bool) (Opts : WorkflowOptions → Type 0)
    : W WorkflowOutcome → Type 0 where
  executes :
      (order : ℕ → ℕ → Bool) (opts : WorkflowOptions)
      → Opts opts
      → Executes test Opts (execute_run test order opts)

-- A cancel request that is served beside the executions.
pub data Cancels : World → World → Type 0 where
  cancels : (now : ℕ) (w : World) → Cancels w (cancel_run now w).1

abbrev pub RunSystem : Type 0
RunSystem = System Reply Exn WorkflowOutcome World

-- The states that can follow.
abbrev pub Reaches :
    (InjectionPattern → String → Bool) → (WorkflowOptions → Type 0) → RunSystem → RunSystem → Type 0
Reaches test Opts a b = Reach services (Executes test Opts) Cancels a b

-- It is enough that calls that reach the services keep an invariant.
pub handle_keeps :
    (Inv : World → Type 0) (i : Input) (c : Call) (w : World)
    → Inv w
    → Inv (serve i c w).1
    → Inv (handle i c w).1
unfolding handle
handle_keeps Inv i c w before after = go i.fault
  where
    go : (f : Fault) → Inv (deliver f (serve i c w) w).1
    go no_fault = after
    go lost_before = before
    go lost_after = after

module _ (test : InjectionPattern → String → Bool) (Opts : WorkflowOptions → Type 0) where
  -- The calls that executions with options of `Opts` make.
  abbrev pub RunAllowed : (ScheduledSpecialist → Type 0) → Call → Type 0
  RunAllowed May c = (opts : WorkflowOptions) × Opts opts × Allowed test opts May c

  abbrev pub run_contract :
      (ScheduledSpecialist → Type 0)
      → ((c : Call) → Option (Reply c) → Type 0)
      → Contract Call Reply
  run_contract May Answers = record { allowed = RunAllowed May; answers = Answers }

  pub Executes-Safe :
      (May : ScheduledSpecialist → Type 0) (Answers : (c : Call) → Option (Reply c) → Type 0)
      → ((opts : WorkflowOptions) → Opts opts → All (Runs May Answers) opts.specialists)
      → (p : W WorkflowOutcome) → Executes test Opts p
      → Safe (run_contract May Answers) (Ends Any) p
  Executes-Safe May Answers runs p (executes order opts o) =
      Safe-relax (Parts.C test opts May Answers) (run_contract May Answers) (λ c a. (opts, o, a))
        (λ c r a. a) (execute_run-Safe test order opts May Answers (runs opts o))

  -- What holds of the services for ever, from a state with no execution under way.
  pub always :
      (May : ScheduledSpecialist → Type 0) (Answers : (c : Call) → Option (Reply c) → Type 0)
      (Inv : World → Type 0)
      → ((opts : WorkflowOptions) → Opts opts → All (Runs May Answers) opts.specialists)
      → ((i : Input) (c : Call) (w : World) → Inv w → Answers c (handle i c w).0)
      → ((i : Input) (c : Call) (w : World) → Inv w → RunAllowed May c → Inv (serve i c w).1)
      → ((now : ℕ) (w : World) → Inv w → Inv (cancel_run now w).1)
      → (w : World) {b : RunSystem} → Inv w
      → Reaches test Opts (record { world = w; running = [] }) b
      → Inv b.world
  always May Answers Inv runs answer keep cancel w h r =
      Reach-Inv services fulfils (Executes test Opts) Cancels (Ends Any)
        (Executes-Safe May Answers runs) others w h r
    where
      fulfils : Fulfils services (run_contract May Answers) Inv
      fulfils = record {
        answer = λ i c w h a. answer i c w h;
        keep = λ i c w h a. handle_keeps Inv i c w h (keep i c w h a);
      }

      others : (w w' : World) → Cancels w w' → Inv w → Inv w'
      others w w' (cancels now _) h = cancel now w h

-- Nothing is known of the answers.
abbrev pub Unknown : (c : Call) → Option (Reply c) → Type 0
Unknown c r = Unit

pub Unknown-Runs : (opts : WorkflowOptions) → All (Runs Any Unknown) opts.specialists
Unknown-Runs opts = All-intro (Runs Any Unknown) opts.specialists (λ spec t a e. tt)
