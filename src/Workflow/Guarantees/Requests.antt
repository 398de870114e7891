-- ===== src/Workflow/Guarantees/Requests.antt =====
-- What the model provider receives.
use mathlib.Core.List.{Mem}
use matrix_agent_workspace.Prelude.{
  String, Bool, List, [], ◌∷◌, ◌≡◌, sym, subst, All, All-append, All-mem,
}
use matrix_agent_workspace.Agents.Injection.{InjectionPattern}
use matrix_agent_workspace.Workflow.Types.{ScheduledSpecialist, WorkflowOptions}
use matrix_agent_workspace.Workflow.World.{World, cancel_run}
use matrix_agent_workspace.Workflow.World.Frames.{
  SameRest, append_event-rest, begin_run-rest, finalize-rest, save_specialist_result-rest,
  cancel_run-rest,
}
use matrix_agent_workspace.Workflow.Calls
use matrix_agent_workspace.Workflow.Calls.{
  Call, Input, serve, get_status, finalize, append, complete, save_checkpoint,
}
use matrix_agent_workspace.Workflow.Protocol.{SentRequest}
use matrix_agent_workspace.Workflow.Protocol.Run.{Runs}
use matrix_agent_workspace.Workflow.Guarantees.{RunSystem, Reaches, RunAllowed, always, Unknown}

module _ (test : InjectionPattern → String → Bool) (opts : WorkflowOptions) where
  -- One of the scheduled specialists.
  abbrev pub Scheduled : ScheduledSpecialist → Type 0
  Scheduled spec = Mem spec opts.specialists

  -- Every request was composed for a scheduled specialist.
  abbrev pub AllSent : World → Type 0
  AllSent w = All (SentRequest test opts Scheduled) w.requests

  abbrev Same : WorkflowOptions → Type 0
  Same o = o ≡ opts

  rest-AllSent : (w w' : World) → SameRest w w' → AllSent w → AllSent w'
  rest-AllSent w w' same h = subst (All (SentRequest test opts Scheduled)) (sym same.1) h

  serve-AllSent :
      (i : Input) (c : Call) (w : World)
      → AllSent w
      → RunAllowed test Same Scheduled c
      → AllSent (serve i c w).1
  serve-AllSent i get_status w h a = h
  serve-AllSent i (complete r) w h (o, e, a) =
      All-append (SentRequest test opts Scheduled) w.requests (r ∷ []) h
        (subst (λ o. SentRequest test o Scheduled r) e a, tt)
  serve-AllSent i (save_checkpoint k s v) w h a = h
  serve-AllSent i (finalize t u e p) w h a =
      rest-AllSent w (serve i (finalize t u e p) w).1 (finalize-rest t u e p w) h
  serve-AllSent i Calls.begin_run w h a =
      rest-AllSent w (serve i Calls.begin_run w).1 (begin_run-rest w) h
  serve-AllSent i (append e p) w h a =
      rest-AllSent w (serve i (append e p) w).1 (append_event-rest e p w) h
  serve-AllSent i (Calls.save_specialist_result r) w h a =
      rest-AllSent w (serve i (Calls.save_specialist_result r) w).1
        (save_specialist_result-rest r w) h
  serve-AllSent i _ w h a = h

  Scheduled-Runs :
      (specs : List ScheduledSpecialist) → All Scheduled specs → All (Runs Scheduled Unknown) specs
  Scheduled-Runs [] h = tt
  Scheduled-Runs (spec ∷ specs) (m, h) = (λ r a e. m, Scheduled-Runs specs h)

-- Every request that the provider gets from executions with these options is composed for one of
-- the scheduled specialists, from the spans that the injection policy kept, with exactly that
-- specialist's tools and the execution key. In the parallel mode its input is the same for all
-- specialists, without prior results; in the sequential mode it has one prior result at most.
pub requests_as_scheduled :
    (test : InjectionPattern → String → Bool) (opts : WorkflowOptions) (w : World) {b : RunSystem}
    → AllSent test opts w
    → Reaches test (λ o. o ≡ opts) (record { world = w; running = [] }) b
    → AllSent test opts b.world
requests_as_scheduled test opts w h r =
    always test (λ o. o ≡ opts) (Scheduled test opts) Unknown (AllSent test opts) runs
      (λ i c w h. tt) (serve-AllSent test opts)
      (λ now w h. rest-AllSent test opts w (cancel_run now w).1 (cancel_run-rest now w) h) w h r
  where
    runs : (o : WorkflowOptions) → o ≡ opts → All (Runs (Scheduled test opts) Unknown) o.specialists
    runs o e =
        subst (λ o. All (Runs (Scheduled test opts) Unknown) o.specialists) (sym e)
          (Scheduled-Runs test opts opts.specialists (All-mem opts.specialists))
