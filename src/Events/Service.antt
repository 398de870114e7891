-- ===== src/Events/Service.antt =====
-- apps/control-plane/src/events/event-service.ts: reading the stored events of a run.
use matrix_agent_workspace.Prelude.{
  ℕ, ◌+◌, String, Bool, Option, none, some, List, [], ◌∷◌, length, keep, take, sort_by, ltb, ◌==◌,
  ◌&&◌, if◌then◌else◌,
}
use matrix_agent_workspace.Json.{Json, num, str, obj, Fields, end, field}

-- `row.createdAt`: a date, by its ISO text, another text, or anything else.
pub data CreatedAt : Type 0 where
  date : String → CreatedAt
  text : String → CreatedAt
  other : CreatedAt

-- A row of `run_events`. The numbers come as texts from the database and are read by `Number`;
-- a missing payload is read as the empty object.
pub record RunEventRow : Type 0 where
  pub id : String
  pub run_id : String
  pub sequence : ℕ
  pub event_type : String
  pub event_version : ℕ
  pub payload : Fields
  pub visibility : String
  pub created_at : CreatedAt

pub record RunEventJson : Type 0 where
  pub id : String
  pub run_id : String
  pub sequence : ℕ
  pub type' : String
  pub version : ℕ
  pub occurred_at : String
  pub visibility : String
  pub payload : Fields

-- The fields of the database's answer.
pub record StoredEvent : Type 0 where
  pub id : String
  pub run_id : String
  pub sequence : ℕ
  pub event_type : String
  pub event_version : ℕ
  pub payload : Option Fields
  pub visibility : String
  pub created_at : CreatedAt

abbrev payload_or_empty : Option Fields → Fields
payload_or_empty none = end
payload_or_empty (some payload) = payload

abbrev pub map_event_row : StoredEvent → RunEventRow
map_event_row row = record {
  id = row.id;
  run_id = row.run_id;
  sequence = row.sequence;
  event_type = row.event_type;
  event_version = row.event_version;
  payload = payload_or_empty row.payload;
  visibility = row.visibility;
  created_at = row.created_at;
}

-- `to_iso` is `new Date(text).toISOString()`, none for an invalid date, and `now` the present time.
abbrev iso_or : String → Option String → String
iso_or value none = value
iso_or value (some iso) = iso

abbrev pub normalize_occurred_at : (String → Option String) → String → CreatedAt → String
normalize_occurred_at to_iso now (date iso) = iso
normalize_occurred_at to_iso now (text value) = iso_or value (to_iso value)
normalize_occurred_at to_iso now other = now

abbrev pub to_run_event : (String → Option String) → String → RunEventRow → RunEventJson
to_run_event to_iso now row = record {
  id = row.id;
  run_id = row.run_id;
  sequence = row.sequence;
  type' = row.event_type;
  version = row.event_version;
  occurred_at = normalize_occurred_at to_iso now row.created_at;
  visibility = row.visibility;
  payload = row.payload;
}

pub record EventPage : Type 0 where
  pub events : List StoredEvent
  pub has_more : Bool
  pub last_sequence : ℕ

-- The last one's sequence, or `after`.
abbrev pub last_sequence : ℕ → List StoredEvent → ℕ
last_sequence after [] = after
last_sequence after (row ∷ rows) = last_sequence row.sequence rows

-- `SELECT * FROM run_events WHERE run_id = … AND sequence > … ORDER BY sequence ASC LIMIT …`.
abbrev pub select_events : String → ℕ → ℕ → List StoredEvent → List StoredEvent
select_events run_id after limit table = take limit (
    sort_by (λ (r : StoredEvent). r.sequence)
      (keep (λ (r : StoredEvent). r.run_id == run_id && ltb after r.sequence) table))

unfoldable pub list_events_page : String → ℕ → ℕ → List StoredEvent → EventPage
unfolding sort_by
list_events_page run_id after limit table =
    let rows = select_events run_id after (limit + 1) table in
    let has_more = ltb limit (length rows) in
    let events = if has_more then take limit rows else rows in
    record { events = events; has_more = has_more; last_sequence = last_sequence after events }

-- The object that `JSON.stringify` prints.
abbrev pub json_of : RunEventJson → Json
json_of e = obj (
    field "id" (str e.id) (
      field "runId" (str e.run_id) (
        field "sequence" (num e.sequence) (
          field "type" (str e.type') (
            field "version" (num e.version) (
              field "occurredAt" (str e.occurred_at)
                (field "visibility" (str e.visibility) (field "payload" (obj e.payload) end))))))))
