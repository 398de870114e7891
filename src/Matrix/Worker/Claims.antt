-- ===== src/Matrix/Worker/Claims.antt =====
-- apps/control-plane/src/matrix/delivery-worker.ts: what one delivery may do.
use matrix_agent_workspace.Prelude.{
  ℕ, ◌+◌, String, Bool, true, false, Option, none, some, List, [], ◌∷◌, find, any, ◌==◌, ◌≡◌, refl,
  arith, Bool-cases, inl, inr,
}
use matrix_agent_workspace.Matrix.Renderer.{RenderableEvent}
use matrix_agent_workspace.Matrix.Outbox.{
  OutboxStatus, OutboxMessage, RunRow, RoomBinding, EventRow, Tables, is_pending, is_earlier,
}
use matrix_agent_workspace.Matrix.Worker.{
  Tenant, MatrixSendParams, TokenAnswer, token, token_unavailable, token_error, SendAnswer, sent_as,
  retryable, refused, Surroundings, DeliveryAttemptResult, Attempt, change_message, is_claimable,
  after_send, with_token, with_event, with_binding, with_run, with_claim, deliver_one, send_params,
}

-- A change of a row that keeps what it is about, and makes no row pending again.
pub record Settles (change : OutboxMessage → OutboxMessage) : Type 0 where
  pub same_id : (m : OutboxMessage) → (change m).id ≡ m.id
  pub same_run : (m : OutboxMessage) → (change m).aggregate_key ≡ m.aggregate_key
  pub same_room : (m : OutboxMessage) → (change m).destination ≡ m.destination
  pub same_sequence : (m : OutboxMessage) → (change m).event_sequence ≡ m.event_sequence
  pub same_key : (m : OutboxMessage) → (change m).delivery_key ≡ m.delivery_key
  pub still_pending :
      (m : OutboxMessage) → is_pending (change m).status ≡ true → is_pending m.status ≡ true

-- The call carries the row's delivery key and goes to its room.
abbrev pub Addressed : MatrixSendParams → OutboxMessage → Type 0
Addressed params m = (params.delivery_key ≡ m.delivery_key) × (params.room_id ≡ m.destination)

-- The message is done with: it was delivered or has failed for good.
abbrev pub is_final : DeliveryAttemptResult → Bool
is_final DeliveryAttemptResult.delivered = true
is_final DeliveryAttemptResult.failed = true
is_final _ = false

-- A change that goes with a result: where the result is final, the row is pending no more.
abbrev pub EndsRow : DeliveryAttemptResult → (OutboxMessage → OutboxMessage) → Type 0
EndsRow r change = is_final r ≡ true → (m : OutboxMessage) → is_pending (change m).status ≡ false

-- An attempt leaves the tables as they are and sends nothing, or it changes the row that it has
-- claimed, and sends that row's message at most.
pub data Outcome (claims : OutboxMessage → Type 0) (tables : Tables) : Attempt → Type 0 where
  untouched :
      (r : DeliveryAttemptResult) → is_final r ≡ false → Outcome claims tables (r, (tables, []))
  settled :
      (r : DeliveryAttemptResult) (msg : OutboxMessage) (change : OutboxMessage → OutboxMessage)
      → claims msg
      → Settles change
      → EndsRow r change
      → Outcome claims tables (r, (change_message msg.id change tables, []))
  sent :
      (r : DeliveryAttemptResult) (msg : OutboxMessage) (change : OutboxMessage → OutboxMessage)
      (params : MatrixSendParams)
      → claims msg
      → Settles change
      → EndsRow r change
      → Addressed params msg
      → Outcome claims tables
          (r, (change_message msg.id change tables, record { claimed = msg; params = params } ∷ []))

marks-Settles :
    (status : OutboxStatus) (attempts : ℕ)
    → is_pending status ≡ false
    → Settles (λ m. record m { status = status; attempts = attempts; next_attempt_at = none })
marks-Settles status attempts h = record {
  same_id = λ m. refl;
  same_run = λ m. refl;
  same_room = λ m. refl;
  same_sequence = λ m. refl;
  same_key = λ m. refl;
  still_pending = λ m e. ground (arith, h, e);
}

module _ (render : RenderableEvent → String) (tenant : Tenant) (around : Surroundings)
    (claims : OutboxMessage → Type 0) (tables : Tables) (msg : OutboxMessage)
    (claim : claims msg) where
  after_send-Outcome :
      (params : MatrixSendParams) (answer : SendAnswer)
      → Addressed params msg
      → Outcome claims tables (after_send render tenant around msg params answer tables)
  after_send-Outcome params (sent_as event_id) addressed =
      sent _ msg _ params claim
        (record {
          same_id = λ m. refl;
          same_run = λ m. refl;
          same_room = λ m. refl;
          same_sequence = λ m. refl;
          same_key = λ m. refl;
          still_pending = λ m e. ground (arith, e);
        })
        (λ e m. refl) addressed
  after_send-Outcome params retryable addressed =
      sent _ msg _ params claim
        (record {
          same_id = λ m. refl;
          same_run = λ m. refl;
          same_room = λ m. refl;
          same_sequence = λ m. refl;
          same_key = λ m. refl;
          still_pending = λ m e. e;
        })
        (λ e. cc) addressed
  after_send-Outcome params refused addressed =
      sent _ msg _ params claim (marks-Settles OutboxStatus.failed (msg.attempts + 1) refl)
        (λ e m. refl) addressed

  dead-Outcome :
      (status : OutboxStatus)
      → is_pending status ≡ false
      → Outcome claims tables (
        DeliveryAttemptResult.failed,
        (
          change_message msg.id
              (λ m. record m { status = status; attempts = msg.attempts; next_attempt_at = none })
              tables,
          [],
        ),
      )
  dead-Outcome status h = settled _ msg _ claim (marks-Settles status msg.attempts h) (λ e m. h)

  with_token-Outcome :
      (binding : RoomBinding) (event : EventRow) (answer : TokenAnswer)
      → Outcome claims tables (with_token render tenant around msg binding event answer tables)
  with_token-Outcome binding event (token t) =
      let params = send_params render tenant around msg binding event t in
      after_send-Outcome params (around.send_message params) (refl, refl)
  with_token-Outcome binding event token_unavailable = dead-Outcome OutboxStatus.failed refl
  with_token-Outcome binding event token_error = untouched _ refl

  with_event-Outcome :
      (run : RunRow) (binding : RoomBinding) (event : Option EventRow)
      → Outcome claims tables (with_event render tenant around msg run binding event tables)
  with_event-Outcome run binding none = dead-Outcome OutboxStatus.dead refl
  with_event-Outcome run binding (some event) = with_token-Outcome binding event _

  with_binding-Outcome :
      (run : RunRow) (binding : Option RoomBinding)
      → Outcome claims tables (with_binding render tenant around msg run binding tables)
  with_binding-Outcome run none = dead-Outcome OutboxStatus.dead refl
  with_binding-Outcome run (some binding) = with_event-Outcome run binding _

  with_run-Outcome :
      (run : Option RunRow) → Outcome claims tables (with_run render tenant around msg run tables)
  with_run-Outcome none = dead-Outcome OutboxStatus.dead refl
  with_run-Outcome (some run) = elim (Bool-cases (run.owner_id == tenant.user_id)) [
    | inl own ↦ rw own (with_binding-Outcome run _)
    | inr other ↦ rw other (untouched _ refl)
  ]

pub find-some :
    {A : Type 0} (p : A → Bool) (xs : List A) {x : A}
    → find p xs ≡ some x
    → (p x ≡ true) × ((q : A → Bool) → any q xs ≡ false → q x ≡ false)
find-some p [] h = cc
find-some p (y ∷ ys) {x} h = elim (Bool-cases (p y)) [
  | inl here ↦
      let h' : some y ≡ some x = rw here at h in
      let same : y ≡ x = cc in rw (← same) (here, λ q none'. ground (arith, none'))
  | inr there ↦
      let (ok, others) = find-some p ys (rw there at h) in
      (ok, λ q none'. others q (ground (arith, none')))
]

-- A row that may be claimed: it stands in the table, is pending, and no earlier one is.
pub record Claimed (tables : Tables) (m : OutboxMessage) : Type 0 where
  pub is_in : (q : OutboxMessage → Bool) → any q tables.messages ≡ false → q m ≡ false
  pub pending : is_pending m.status ≡ true
  pub first : any (is_earlier m) tables.messages ≡ false

pub deliver_one-Outcome :
    (render : RenderableEvent → String) (tenant : Tenant) (around : Surroundings) (id : String)
    (tables : Tables)
    → Outcome (Claimed tables) tables (deliver_one render tenant around id tables)
unfolding deliver_one
deliver_one-Outcome render tenant around id tables =
    go (find (is_claimable around.now id tables.messages) tables.messages) refl
  where
    go :
        (o : Option OutboxMessage)
        → find (is_claimable around.now id tables.messages) tables.messages ≡ o
        → Outcome (Claimed tables) tables (with_claim render tenant around o tables)
    go none e = untouched _ refl
    go (some msg) e =
        let (ok, there) =
          find-some (is_claimable around.now id tables.messages) tables.messages e in
        with_run-Outcome render tenant around (Claimed tables) tables msg
          (record { is_in = there; pending = ground (arith, ok); first = ground (arith, ok) }) _

-- An attempt on a row that it has claimed.
pub deliver_one-claims :
    (render : RenderableEvent → String) (tenant : Tenant) (around : Surroundings) (id : String)
    (tables : Tables) (msg : OutboxMessage)
    → find (is_claimable around.now id tables.messages) tables.messages ≡ some msg
    → Outcome (λ m. m ≡ msg) tables (deliver_one render tenant around id tables)
unfolding deliver_one
deliver_one-claims render tenant around id tables msg e =
    rw e (with_run-Outcome render tenant around (λ m. m ≡ msg) tables msg refl _)
