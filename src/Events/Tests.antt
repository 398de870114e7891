-- ===== src/Events/Tests.antt =====
-- Streams of a run with two events, a page for each.
use matrix_agent_workspace.Prelude.{
  ℕ, String, true, false, Option, none, some, sort_by, List, [], ◌∷◌, ◌++◌, map, ◌≡◌, refl, sym,
  arith,
}
use mathlib.Core.Bool.{true≢false}
use matrix_agent_workspace.Workflow.Types.{RunStatus}
use matrix_agent_workspace.Events.Service.{StoredEvent, date}
use matrix_agent_workspace.Events.Stream.{StreamRunEventsOptions, Round, stream_run_events}
use matrix_agent_workspace.Events.Stream.Pages.{above, Climbs}
use matrix_agent_workspace.Events.Stream.Guarantees.{events_of, run_event, sent_in_order}
use matrix_agent_workspace.Events.Stream.Endings.{closes_complete}

abbrev stored : ℕ → String → StoredEvent
stored n type' = record {
  id = "e";
  run_id = "r";
  sequence = n;
  event_type = type';
  event_version = 1;
  payload = none;
  visibility = "room_and_owner";
  created_at = date "2026-01-01T00:00:00.000Z";
}

abbrev two_events : List StoredEvent
two_events = stored 1 "run.started" ∷ stored 2 "run.completed" ∷ []

two_events-Climbs : Climbs 0 two_events
two_events-Climbs = (omega arith, (omega arith, tt))

abbrev options : StreamRunEventsOptions
options = record { heartbeat_interval_ms = 15000; replay_limit = 1 }

abbrev no_iso : String → Option String
no_iso s = none

-- A round while the run is under way, and one after its end, with the rows in another order.
abbrev started : Round
started = record {
  status = some RunStatus.running;
  table = stored 1 "run.started" ∷ [];
  now = 20000;
}

abbrev over : Round
over = record {
  status = some RunStatus.completed;
  table = stored 2 "run.completed" ∷ stored 1 "run.started" ∷ [];
  now = 30000;
}

sent_in_order_example :
    events_of (stream_run_events options no_iso "now" "r" 0 0 (started ∷ over ∷ [])).sent
      ++ map (run_event no_iso "now") (
          above
            (stream_run_events options no_iso "now" "r" 0 0 (started ∷ over ∷ [])).cursor
            two_events)
    ≡ map (run_event no_iso "now") (above 0 two_events)
unfolding sort_by
sent_in_order_example =
    sent_in_order options no_iso "now" "r" two_events two_events-Climbs (started ∷ over ∷ []) 0 0
      ((stored 2 "run.completed" ∷ [], refl), (([], refl), tt))

closes_complete_example :
    ((stream_run_events options no_iso "now" "r" 0 0 (started ∷ over ∷ over ∷ over ∷ [])).closed
      ≡ true)
    × (events_of
          (stream_run_events options no_iso "now" "r" 0 0 (started ∷ over ∷ over ∷ over ∷ [])).sent
        ≡ map (run_event no_iso "now") (above 0 two_events))
unfolding sort_by
closes_complete_example =
    closes_complete options no_iso "now" "r" two_events two_events-Climbs (started ∷ [])
      (over ∷ over ∷ over ∷ []) 0 0 (omega arith) ((stored 2 "run.completed" ∷ [], refl), tt)
      ((λ running. absurd (true≢false (sym running))), tt)
      ((refl, refl), ((refl, refl), ((refl, refl), tt))) (omega arith)

-- With a limit of 0 no page has an event, and the stream never closes.
limit_zero :
    (stream_run_events
      (record options { replay_limit = 0 })
      no_iso
      "now"
      "r"
      0
      0
      (over ∷ over ∷ over ∷ over ∷ [])).closed
    ≡ false
unfolding stream_run_events
limit_zero = refl
