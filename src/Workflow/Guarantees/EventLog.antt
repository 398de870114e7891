-- ===== src/Workflow/Guarantees/EventLog.antt =====
-- The event log of a run (run-workflow.ts and the cancel route).
use mathlib.Core.Bool.{true≢false}
use mathlib.Core.List.{map-append, append-nil}
use matrix_agent_workspace.Prelude.{
  ℕ, zero, suc, String, Bool, true, false, Option, none, some, List, [], ◌∷◌, ◌++◌, ◌≡◌, refl, ap,
  arith, ◌∙◌, sym, map, keep, keep-append, if◌then◌else◌,
}
use matrix_agent_workspace.Effects.{Any}
use matrix_agent_workspace.Workflow.Types.{
  ScheduledSpecialist, empty, cancelled_at, RunStatus, TerminalRunStatus, of_terminal,
  terminal_status, TerminalSummary, EventType, Payload, WorkflowEventRecord, WorkflowOptions,
}
use matrix_agent_workspace.Workflow.World
use matrix_agent_workspace.Workflow.World.{
  World, append_event, finalize_row, cancel_row, cancel_event, cancel_run, begin_row, begin_run,
}
use matrix_agent_workspace.Agents.Injection.{InjectionPattern}
use matrix_agent_workspace.Workflow.Calls.{
  Call, Reply, Input, services, handle, serve, get_status, finalize, save_specialist_result,
  save_checkpoint, append, complete,
}
use matrix_agent_workspace.Workflow.Calls
use matrix_agent_workspace.Workflow.Protocol.{terminal_event, is_terminal_event, Allowed}
use matrix_agent_workspace.Workflow.Guarantees.{RunSystem, Reaches, always, Unknown, Unknown-Runs}

abbrev pub type_of : WorkflowEventRecord → EventType
type_of e = e.event_type

abbrev pub sequence_of : WorkflowEventRecord → ℕ
sequence_of e = e.sequence

-- The terminal events of a log.
abbrev pub terminal_events : World → List EventType
terminal_events w = keep is_terminal_event (map type_of w.events)

-- Those that a run with this status has: none before its end, and then the one of its status.
abbrev pub expected_events : Option TerminalRunStatus → List EventType
expected_events none = []
expected_events (some t) = terminal_event t ∷ []

-- 1, 2, …, n.
abbrev pub count_up : ℕ → List ℕ
count_up zero = []
count_up (suc n) = count_up n ++ suc n ∷ []

abbrev pub is_queued : Option RunStatus → Bool
is_queued (some RunStatus.queued) = true
is_queued _ = false

pub record LogInOrder (w : World) : Type 0 where
  pub ended : terminal_events w ≡ expected_events (terminal_status w.status)
  pub numbered : map sequence_of w.events ≡ count_up w.sequence
  pub fresh : is_queued w.status ≡ true → w.cancel_requested ≡ false

append_event-terminal :
    (e : EventType) (p : Payload) (w : World)
    → terminal_events (append_event e p w)
      ≡ terminal_events w ++ (if is_terminal_event e then e ∷ [] else [])
unfolding append_event
append_event-terminal e p w = simp (map-append, keep-append) (ground arith)

append_event-numbered :
    (e : EventType) (p : Payload) (w : World)
    → map sequence_of w.events ≡ count_up w.sequence
    → map sequence_of (append_event e p w).events ≡ count_up (append_event e p w).sequence
unfolding append_event
append_event-numbered e p w h = rw map-append (ap (λ l. l ++ suc w.sequence ∷ []) h)

-- An event that ends nothing.
append_event-LogInOrder :
    (e : EventType) (p : Payload) (w : World)
    → is_terminal_event e ≡ false
    → LogInOrder w
    → LogInOrder (append_event e p w)
unfolding append_event
append_event-LogInOrder e p w plain h = record {
  ended = append_event-terminal e p w ∙ (rw plain (append-nil _ ∙ h.ended));
  numbered = append_event-numbered e p w h.numbered;
  fresh = h.fresh;
}

begin_run-LogInOrder : (w : World) → LogInOrder w → LogInOrder (begin_run w).1
unfolding begin_run
begin_run-LogInOrder w h = by_status w.status refl
  where
    by_status : (s : Option RunStatus) → w.status ≡ s → LogInOrder (begin_row s w).1
    by_status none q = h
    by_status (some RunStatus.queued) q = record {
      ended = h.ended ∙ rw q;
      numbered = h.numbered;
      fresh = λ x. cc;
    }
    by_status (some _) q = h

of_terminal-status : (t : TerminalRunStatus) → terminal_status (some (of_terminal t)) ≡ some t
of_terminal-status TerminalRunStatus.completed = refl
of_terminal-status _ = refl

of_terminal-queued : (t : TerminalRunStatus) → is_queued (some (of_terminal t)) ≡ false
of_terminal-queued TerminalRunStatus.completed = refl
of_terminal-queued _ = refl

terminal_event-terminal : (t : TerminalRunStatus) → is_terminal_event (terminal_event t) ≡ true
terminal_event-terminal TerminalRunStatus.completed = refl
terminal_event-terminal _ = refl

-- A run that had not ended gets a terminal status and that status' event.
end-LogInOrder :
    (t : TerminalRunStatus) (p : Payload) (w w' : World)
    → terminal_status w.status ≡ none
    → LogInOrder w
    → w'.status ≡ some (of_terminal t)
    → w'.events ≡ w.events
    → w'.sequence ≡ w.sequence
    → LogInOrder (append_event (terminal_event t) p w')
unfolding append_event
end-LogInOrder t p w w' open' h status events sequence = record {
  ended =
      append_event-terminal (terminal_event t) p w'
      ∙ (rw (terminal_event-terminal t)
          (rw events (rw h.ended (rw open' (rw status (rw (of_terminal-status t)))))));
  numbered = append_event-numbered (terminal_event t) p w' (rw (events, sequence) h.numbered);
  fresh = λ x.
      let x' : is_queued (some (of_terminal t)) ≡ true = rw status at x in
      absurd (true≢false (sym x' ∙ of_terminal-queued t));
}

-- The guarded transition, with the event of the new status.
finalize-LogInOrder :
    (t : TerminalRunStatus) (u : TerminalSummary) (e : EventType) (p : Payload) (w : World)
    → e ≡ terminal_event t
    → LogInOrder w
    → LogInOrder (World.finalize t u e p w).1
unfolding World.finalize
finalize-LogInOrder t u e p w q h = rw q (by_status w.status refl)
  where
    open_row :
        terminal_status w.status ≡ none
        → LogInOrder (
            append_event
              (terminal_event t)
              p
              (record w { status = some (of_terminal t); summary = some u }))
    open_row none' =
        end-LogInOrder t p w (record w { status = some (of_terminal t); summary = some u }) none' h
          refl refl refl

    by_status :
        (s : Option RunStatus)
        → w.status ≡ s
        → LogInOrder (finalize_row s (terminal_status s) t u (terminal_event t) p w).1
    by_status none q' = h
    by_status (some RunStatus.queued) q' = open_row (rw q')
    by_status (some RunStatus.running) q' = open_row (rw q')
    by_status (some RunStatus.cancelling) q' = open_row (rw q')
    by_status (some _) q' = h

-- A cancel request, which may meet a run at any point.
cancel_run-LogInOrder : (now : ℕ) (w : World) → LogInOrder w → LogInOrder (cancel_run now w).1
unfolding cancel_run
cancel_run-LogInOrder now w h = by_status w.status refl
  where
    -- A run that has begun is cancelling now.
    cancelling' :
        terminal_status w.status ≡ none
        → (b : Bool)
        → LogInOrder (
            if b
            then record w { status = some RunStatus.cancelling; cancel_requested = true }
            else cancel_event RunStatus.cancelling now
                (record w { status = some RunStatus.cancelling; cancel_requested = true }))
    cancelling' open' true = record {
      ended = h.ended ∙ rw open';
      numbered = h.numbered;
      fresh = λ x. cc;
    }
    cancelling' open' false =
        append_event-LogInOrder EventType.run_cancellation_requested empty
          (record w { status = some RunStatus.cancelling; cancel_requested = true }) refl
          (record { ended = h.ended ∙ rw open'; numbered = h.numbered; fresh = λ x. cc })

    -- A run that has not begun ends here; no request was recorded before.
    cancelled' :
        terminal_status w.status ≡ none
        → (b : Bool) → b ≡ false
        → LogInOrder (
            if b
            then record w { status = some RunStatus.cancelled; cancel_requested = true }
            else cancel_event RunStatus.cancelled now
                (record w { status = some RunStatus.cancelled; cancel_requested = true }))
    cancelled' open' true e = absurd (true≢false e)
    cancelled' open' false e =
        end-LogInOrder TerminalRunStatus.cancelled (cancelled_at now) w
          (record w { status = some RunStatus.cancelled; cancel_requested = true }) open' h refl
          refl refl

    by_status :
        (s : Option RunStatus)
        → w.status ≡ s
        → LogInOrder (cancel_row s (terminal_status s) now w).1
    by_status none q = h
    by_status (some RunStatus.queued) q = cancelled' (rw q) w.cancel_requested (h.fresh (rw q))
    by_status (some RunStatus.running) q = cancelling' (rw q) w.cancel_requested
    by_status (some RunStatus.cancelling) q = cancelling' (rw q) w.cancel_requested
    by_status (some _) q = h

-- Every call of the protocol keeps the log in order.
serve-LogInOrder :
    (test : InjectionPattern → String → Bool) (opts : WorkflowOptions)
    (May : ScheduledSpecialist → Type 0) (i : Input) (c : Call) (w : World)
    → LogInOrder w
    → Allowed test opts May c
    → LogInOrder (serve i c w).1
unfolding World.save_specialist_result
serve-LogInOrder test opts May i get_status w h a = h
serve-LogInOrder test opts May i Calls.begin_run w h a = begin_run-LogInOrder w h
serve-LogInOrder test opts May i (finalize t u e p) w h a = finalize-LogInOrder t u e p w a.event h
serve-LogInOrder test opts May i (save_specialist_result r) w h a = record {
  ended = h.ended;
  numbered = h.numbered;
  fresh = h.fresh;
}
serve-LogInOrder test opts May i (save_checkpoint k s v) w h a = record {
  ended = h.ended;
  numbered = h.numbered;
  fresh = h.fresh;
}
serve-LogInOrder test opts May i (append e p) w h a = append_event-LogInOrder e p w a h
serve-LogInOrder test opts May i (complete r) w h a = record {
  ended = h.ended;
  numbered = h.numbered;
  fresh = h.fresh;
}
serve-LogInOrder test opts May i _ w h a = h

-- Whatever executions of the run overlap, stop or are repeated, and whatever cancel requests come
-- in: if the log was in order when no execution was under way, then at any later moment its events
-- are numbered 1, 2, … without gaps, it holds no terminal event while the run has not ended, and
-- after its end exactly one, the event of the run's status; and no cancellation is recorded while
-- the run is queued.
pub run-LogInOrder :
    (test : InjectionPattern → String → Bool) (Opts : WorkflowOptions → Type 0) (w : World)
    {b : RunSystem}
    → LogInOrder w
    → Reaches test Opts (record { world = w; running = [] }) b
    → LogInOrder b.world
run-LogInOrder test Opts w h r =
    always test Opts Any Unknown LogInOrder (λ opts o. Unknown-Runs opts) (λ i c w h. tt)
      (λ i c w h a. serve-LogInOrder test a.0 Any i c w h a.2) cancel_run-LogInOrder w h r
