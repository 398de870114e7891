-- ===== src/Events/Stream.antt =====
-- apps/control-plane/src/app/api/runs/[runId]/events/route.ts: the stream of a run's events.
pub mod Pages
pub mod Guarantees
pub mod Endings
use matrix_agent_workspace.Prelude.{
  ℕ, ◌+◌, String, Bool, true, false, not, Option, none, some, List, [], ◌∷◌, ◌++◌, map, leb, ◌&&◌,
  if◌then◌else◌,
}
use matrix_agent_workspace.Texts.{Chars}
use matrix_agent_workspace.Workflow.Types.{RunStatus}
use matrix_agent_workspace.Events.Service.{
  RunEventJson, StoredEvent, map_event_row, to_run_event, list_events_page, last_sequence,
}
use matrix_agent_workspace.Events.Wire.{encode_event_frame, heartbeat_frame, parse_after_value}

-- `pollIntervalMs` and `sleep` only delay the next round.
pub record StreamRunEventsOptions : Type 0 where
  pub heartbeat_interval_ms : ℕ
  pub replay_limit : ℕ

-- What one round of the loop meets: the run's status when it is read (none when the run is not
-- found), the table of events when its page is read, and the time. The database may change in
-- between.
pub record Round : Type 0 where
  pub status : Option RunStatus
  pub table : List StoredEvent
  pub now : ℕ

-- The frames that are yielded.
pub data Sent : Type 0 where
  event : RunEventJson → Sent
  heartbeat : Sent

abbrev pub frame : (RunEventJson → Chars) → Sent → Chars
frame stringify (event e) = encode_event_frame stringify e
frame stringify heartbeat = heartbeat_frame

pub record Streamed : Type 0 where
  pub sent : List Sent
  pub closed : Bool
  pub cursor : ℕ

-- `run === null || TERMINAL_STATUSES.has(run.status)`.
abbrev pub is_over : Option RunStatus → Bool
is_over none = true
is_over (some RunStatus.queued) = false
is_over (some RunStatus.running) = false
is_over (some RunStatus.cancelling) = false
is_over (some RunStatus.completed) = true
is_over (some RunStatus.partial) = true
is_over (some RunStatus.failed) = true
is_over (some RunStatus.cancelled) = true

abbrev after_sending : List Sent → Streamed → Streamed
after_sending sent later = record later { sent = sent ++ later.sent }

-- The rest of a round after its page: the close, or a heartbeat that is due.
abbrev pub next_round : Bool → Bool → List Sent → ℕ → Streamed → Streamed
next_round true beats sent cursor later = record { sent = sent; closed = true; cursor = cursor }
next_round false true sent cursor later = after_sending (sent ++ heartbeat ∷ []) later
next_round false false sent cursor later = after_sending sent later

-- The loop over the rounds, as far as they go. `to_iso` and `present` are the dates of
-- `normalize_occurred_at`.
module _ (opts : StreamRunEventsOptions) (to_iso : String → Option String)
    (present run_id : String) where
  abbrev pub event_frame : StoredEvent → Sent
  event_frame row = event (to_run_event to_iso present (map_event_row row))

  unfoldable pub stream_run_events : ℕ → ℕ → List Round → Streamed
  unfolding list_events_page
  stream_run_events cursor last_heartbeat_at [] = record {
    sent = [];
    closed = false;
    cursor = cursor;
  }
  stream_run_events cursor last_heartbeat_at (round ∷ rounds) =
      let page = list_events_page run_id cursor opts.replay_limit round.table in
      let cursor' = last_sequence cursor page.events in
      let sent = map event_frame page.events in
      let terminal = not page.has_more && is_over round.status in
      let beats =
        not page.has_more && leb (last_heartbeat_at + opts.heartbeat_interval_ms) round.now in
      let last_heartbeat_at' = if beats then round.now else last_heartbeat_at in
      let later = stream_run_events cursor' last_heartbeat_at' rounds in
      next_round terminal beats sent cursor' later

-- The cursor of the request: its `after` parameter, and else its `Last-Event-ID` header.
abbrev pub request_after : Option Chars → Option Chars → ℕ
request_after none header = parse_after_value header
request_after (some param) header = parse_after_value (some param)
