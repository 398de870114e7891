-- ===== src/Matrix/Outbox.antt =====
-- apps/control-plane/src/db/schema/outbox.ts and src/events/event-service.ts: the outbox of messages.
use Prim.Native.String.{◌++◌}
use matrix_agent_workspace.Prelude.{
  ℕ, String, Bool, true, false, Option, none, some, List, [], ◌∷◌, find, any, ◌==◌, ◌&&◌, leb, ltb,
  if◌then◌else◌,
}
use mathlib.Core.List.{◌++◌ as ◌+++◌}
use matrix_agent_workspace.Json.{Fields}

pub data OutboxStatus : Type 0 where
  pending delivered failed dead : OutboxStatus

pub record OutboxMessage : Type 0 where
  pub id : String
  pub workspace_id : String
  pub aggregate_key : String
  pub destination : String
  pub event_sequence : ℕ
  pub delivery_key : String
  pub status : OutboxStatus
  pub attempts : ℕ
  pub next_attempt_at : Option ℕ
  pub provider_event_id : Option String

pub record RunRow : Type 0 where
  pub id : String
  pub owner_id : String
  pub workspace_id : String
  pub room_id : Option String

pub record RoomBinding : Type 0 where
  pub room_id : String
  pub workspace_id : String
  pub user_id : String
  pub homeserver_url : String

pub record EventRow : Type 0 where
  pub run_id : String
  pub sequence : ℕ
  pub event_type : String
  pub payload : Option Fields

pub record Tables : Type 0 where
  pub messages : List OutboxMessage
  pub runs : List RunRow
  pub room_bindings : List RoomBinding
  pub run_events : List EventRow

abbrev pub is_pending : OutboxStatus → Bool
is_pending pending = true
is_pending delivered = false
is_pending failed = false
is_pending dead = false

-- `WHERE id = …`, of an update.
unfoldable pub update_message :
    String → (OutboxMessage → OutboxMessage) → List OutboxMessage → List OutboxMessage
update_message id change [] = []
update_message id change (m ∷ ms) =
    let rest = update_message id change ms in if m.id == id then change m ∷ rest else m ∷ rest

-- A pending message of the same run and room with a smaller sequence.
abbrev pub is_earlier : OutboxMessage → OutboxMessage → Bool
is_earlier candidate earlier =
    earlier.aggregate_key == candidate.aggregate_key
    && (earlier.destination == candidate.destination
        && (is_pending earlier.status && ltb earlier.event_sequence candidate.event_sequence))

-- `next_attempt_at IS NULL OR next_attempt_at <= now()`.
abbrev pub is_due : ℕ → Option ℕ → Bool
is_due now none = true
is_due now (some at) = leb at now

abbrev pub new_message : String → String → String → ℕ → String → String → OutboxMessage
new_message id workspace_id run_id sequence room_id delivery_key = record {
  id = id;
  workspace_id = workspace_id;
  aggregate_key = run_id;
  destination = room_id;
  event_sequence = sequence;
  delivery_key = delivery_key;
  status = pending;
  attempts = 0;
  next_attempt_at = none;
  provider_event_id = none;
}

abbrev pub room_of : Option RunRow → Option String
room_of none = none
room_of (some run) = run.room_id

abbrev pub insert_message : OutboxMessage → Tables → Bool × Tables
insert_message m tables =
    if any (λ (o : OutboxMessage). o.delivery_key == m.delivery_key) tables.messages
    then (false, tables)
    else (true, record tables { messages = tables.messages +++ m ∷ [] })

-- `if (!roomId) return false`, then the insertion, on conflict of the delivery key nothing. `show` is
-- the decimal text of a number, and `uuid` is `randomUUID()`.
abbrev pub enqueue_for :
    (ℕ → String) → String → String → String → ℕ → Option String → Tables → Bool × Tables
enqueue_for show uuid workspace_id run_id sequence none tables = (false, tables)
enqueue_for show uuid workspace_id run_id sequence (some room_id) tables =
    if room_id == ""
    then (false, tables)
    else insert_message
        (new_message ("om_" ++ uuid) workspace_id run_id sequence room_id
          (run_id ++ (":" ++ (show sequence ++ (":" ++ room_id)))))
        tables

unfoldable pub enqueue_matrix_delivery_with_client :
    (ℕ → String) → String → String → String → ℕ → Tables → Bool × Tables
enqueue_matrix_delivery_with_client show uuid workspace_id run_id sequence tables =
    enqueue_for show uuid workspace_id run_id sequence
      (room_of
        (find (λ (r : RunRow). r.id == run_id && r.workspace_id == workspace_id) tables.runs))
      tables
