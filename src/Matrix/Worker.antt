-- ===== src/Matrix/Worker.antt =====
-- apps/control-plane/src/matrix/delivery-worker.ts: the delivery of the outbox.
pub mod Claims
pub mod Steps
pub mod Order
pub mod Settled
use matrix_agent_workspace.Prelude.{
  ℕ, ◌+◌, ◌*◌, ◌^◌, min, String, Bool, true, false, Option, none, some, List, [], ◌∷◌, ◌++◌, map,
  keep, take, sort_by, find, any, ◌==◌, ◌&&◌, leb, ltb, nat_eq, not, if◌then◌else◌,
}
use matrix_agent_workspace.Json.{Fields, end}
use matrix_agent_workspace.Matrix.Renderer.{RenderableEvent}
use matrix_agent_workspace.Matrix.Outbox.{
  OutboxStatus, pending, OutboxMessage, RunRow, RoomBinding, EventRow, Tables, is_pending,
  update_message, is_earlier, is_due,
}

pub record Tenant : Type 0 where
  pub user_id : String
  pub workspace_id : String

pub record MatrixSendParams : Type 0 where
  pub access_token : String
  pub homeserver_url : String
  pub room_id : String
  pub body : String
  pub delivery_key : String

-- A call of the Matrix client, with the row that was claimed for it.
pub record Send : Type 0 where
  pub claimed : OutboxMessage
  pub params : MatrixSendParams

pub data TokenAnswer : Type 0 where
  token : String → TokenAnswer
  token_unavailable token_error : TokenAnswer

pub data SendAnswer : Type 0 where
  sent_as : String → SendAnswer
  retryable refused : SendAnswer

-- What a delivery meets: the time, the stored tokens, and the answers of the Matrix server.
pub record Surroundings : Type 0 where
  pub now : ℕ
  pub resolve_matrix_access_token : String → TokenAnswer
  pub send_message : MatrixSendParams → SendAnswer

-- The last one is any other error, which ends the transaction without effect.
pub data DeliveryAttemptResult : Type 0 where
  delivered failed skipped retryable_error other_error : DeliveryAttemptResult

-- The result of an attempt, the tables after it, and what it sent.
abbrev pub Attempt : Type 0
Attempt = DeliveryAttemptResult × (Tables × List Send)

unfoldable pub retry_delay_seconds : ℕ → ℕ
retry_delay_seconds attempts = min 300 (5 * 2 ^ min attempts 6)

abbrev pub change_message : String → (OutboxMessage → OutboxMessage) → Tables → Tables
change_message id change tables = record tables {
  messages = update_message id change tables.messages;
}

abbrev pub mark_terminal : String → OutboxStatus → ℕ → Tables → Tables
mark_terminal id status attempts tables =
    change_message id
      (λ m. record m { status = status; attempts = attempts; next_attempt_at = none }) tables

abbrev pub mark_delivered : String → String → Tables → Tables
mark_delivered id event_id tables =
    change_message id
      (λ m. record m {
        status = OutboxStatus.delivered;
        provider_event_id = some event_id;
        attempts = m.attempts + 1;
        next_attempt_at = none;
      })
      tables

abbrev pub mark_retry : OutboxMessage → ℕ → Tables → Tables
mark_retry msg now tables =
    change_message msg.id
      (λ m. record m {
        attempts = msg.attempts + 1;
        next_attempt_at = some (now + 1000 * retry_delay_seconds msg.attempts);
      })
      tables

abbrev pub skip : Tables → Attempt
skip tables = (skipped, (tables, []))

abbrev pub fail_as : OutboxMessage → OutboxStatus → Tables → Attempt
fail_as msg status tables = (failed, (mark_terminal msg.id status msg.attempts tables, []))

-- The claim: a pending message that is due, without an earlier pending one of its run and room.
abbrev pub is_claimable : ℕ → String → List OutboxMessage → OutboxMessage → Bool
is_claimable now id messages m =
    m.id == id
    && (is_pending m.status && (is_due now m.next_attempt_at && not (any (is_earlier m) messages)))

abbrev pub payload_or_empty : Option Fields → Fields
payload_or_empty none = end
payload_or_empty (some payload) = payload

-- `render` is `renderMessage`.
module _ (render : RenderableEvent → String) (tenant : Tenant) (around : Surroundings) where
  abbrev pub send_params : OutboxMessage → RoomBinding → EventRow → String → MatrixSendParams
  send_params msg binding event access_token = record {
    access_token = access_token;
    homeserver_url = binding.homeserver_url;
    room_id = msg.destination;
    body = render (record {
      run_id = msg.aggregate_key;
      sequence = msg.event_sequence;
      type' = event.event_type;
      payload = payload_or_empty event.payload;
    });
    delivery_key = msg.delivery_key;
  }

  abbrev pub after_send : OutboxMessage → MatrixSendParams → SendAnswer → Tables → Attempt
  after_send msg params (sent_as event_id) tables = (
    delivered,
    (mark_delivered msg.id event_id tables, record { claimed = msg; params = params } ∷ []),
  )
  after_send msg params retryable tables = (
    retryable_error,
    (mark_retry msg around.now tables, record { claimed = msg; params = params } ∷ []),
  )
  after_send msg params refused tables = (
    failed,
    (
      mark_terminal msg.id OutboxStatus.failed (msg.attempts + 1) tables,
      record { claimed = msg; params = params } ∷ [],
    ),
  )

  abbrev pub with_token : OutboxMessage → RoomBinding → EventRow → TokenAnswer → Tables → Attempt
  with_token msg binding event (token access_token) tables =
      let params = send_params msg binding event access_token in
      after_send msg params (around.send_message params) tables
  with_token msg binding event token_unavailable tables = fail_as msg OutboxStatus.failed tables
  with_token msg binding event token_error tables = (other_error, (tables, []))

  abbrev pub with_event : OutboxMessage → RunRow → RoomBinding → Option EventRow → Tables → Attempt
  with_event msg run binding none tables = fail_as msg OutboxStatus.dead tables
  with_event msg run binding (some event) tables =
      with_token msg binding event (around.resolve_matrix_access_token run.owner_id) tables

  abbrev pub with_binding : OutboxMessage → RunRow → Option RoomBinding → Tables → Attempt
  with_binding msg run none tables = fail_as msg OutboxStatus.dead tables
  with_binding msg run (some binding) tables =
      with_event msg run binding
        (find
          (λ (e : EventRow). e.run_id == msg.aggregate_key && nat_eq e.sequence msg.event_sequence)
          tables.run_events)
        tables

  abbrev pub with_run : OutboxMessage → Option RunRow → Tables → Attempt
  with_run msg none tables = fail_as msg OutboxStatus.dead tables
  with_run msg (some run) tables =
      if run.owner_id == tenant.user_id
      then with_binding msg run
          (find
            (λ (b : RoomBinding).
              b.room_id == msg.destination
              && (b.workspace_id == tenant.workspace_id && b.user_id == run.owner_id))
            tables.room_bindings)
          tables
      else skip tables

  abbrev pub with_claim : Option OutboxMessage → Tables → Attempt
  with_claim none tables = skip tables
  with_claim (some msg) tables =
      with_run msg
        (find (λ (r : RunRow). r.id == msg.aggregate_key && r.workspace_id == tenant.workspace_id)
          tables.runs)
        tables

  -- One transaction.
  unfoldable pub deliver_one : String → Tables → Attempt
  unfolding retry_delay_seconds update_message
  deliver_one message_id tables =
      with_claim (find (is_claimable around.now message_id tables.messages) tables.messages) tables

pub record DeliveryReport : Type 0 where
  pub delivered : ℕ
  pub failed : ℕ
  pub skipped : ℕ

abbrev pub empty_report : DeliveryReport
empty_report = record { delivered = 0; failed = 0; skipped = 0 }

-- `report[result.outcome] += 1`; none where the result is an error, which is thrown.
abbrev pub counted : DeliveryAttemptResult → DeliveryReport → Option DeliveryReport
counted DeliveryAttemptResult.delivered r = some (record r { delivered = r.delivered + 1 })
counted DeliveryAttemptResult.failed r = some (record r { failed = r.failed + 1 })
counted DeliveryAttemptResult.skipped r = some (record r { skipped = r.skipped + 1 })
counted DeliveryAttemptResult.retryable_error r = none
counted DeliveryAttemptResult.other_error r = none

-- A pending message that waits for its next attempt and holds up those after it.
abbrev pub holds_up : ℕ → OutboxMessage → OutboxMessage → Bool
holds_up now candidate earlier =
    is_earlier candidate earlier && not (is_due now earlier.next_attempt_at)

abbrev pub is_candidate : Tenant → ℕ → Tables → OutboxMessage → Bool
is_candidate tenant now tables m =
    m.workspace_id == tenant.workspace_id
    && (any (λ (r : RunRow). r.id == m.aggregate_key && r.owner_id == tenant.user_id) tables.runs
        && (is_pending m.status
            && (is_due now m.next_attempt_at && not (any (holds_up now m) tables.messages))))

-- The table keeps its rows in the order of their creation.
abbrev pub candidates : Tenant → ℕ → ℕ → Tables → List String
candidates tenant now batch_size tables =
    map (λ (m : OutboxMessage). m.id)
      (take batch_size (
        sort_by (λ (m : OutboxMessage). m.event_sequence)
          (keep (is_candidate tenant now tables) tables.messages)))

-- The report, none where an error was thrown; the tables; what was sent.
abbrev pub Drained : Type 0
Drained = Option DeliveryReport × (Tables × List Send)

abbrev pub after_attempt :
    (DeliveryReport → Tables → Drained) → Option DeliveryReport → Tables → List Send → Drained
after_attempt continue none tables sent = (none, (tables, sent))
after_attempt continue (some report) tables sent =
    let (result, (tables', later)) = continue report tables in (result, (tables', sent ++ later))

-- `around` is what the attempt on each message meets.
module _ (render : RenderableEvent → String) (tenant : Tenant)
    (around : String → Surroundings) where
  abbrev pub deliver_candidates : List String → DeliveryReport → Tables → Drained
  deliver_candidates [] report tables = (some report, (tables, []))
  deliver_candidates (id ∷ ids) report tables =
      let (result, (tables', sent)) = deliver_one render tenant (around id) id tables in
      after_attempt (deliver_candidates ids) (counted result report) tables' sent

  unfoldable pub deliver_pending : ℕ → ℕ → Tables → Drained
  unfolding deliver_one
  deliver_pending now batch_size tables =
      deliver_candidates (candidates tenant now batch_size tables) empty_report tables
