-- ===== src/Matrix/Worker/Steps.antt =====
-- apps/control-plane/src/matrix/delivery-worker.ts and src/events/event-service.ts: what happens to the
-- outbox, and what it sends.
use matrix_agent_workspace.Prelude.{
  ℕ, String, Bool, true, false, Option, none, some, List, [], ◌∷◌, ◌++◌, any, find, ◌==◌, ◌&&◌, ◌≡◌,
  refl, arith, Bool-cases, inl, inr, All,
}
use matrix_agent_workspace.Matrix.Renderer.{RenderableEvent}
use matrix_agent_workspace.Matrix.Outbox.{
  OutboxMessage, RunRow, Tables, is_pending, update_message, room_of, insert_message, enqueue_for,
  enqueue_matrix_delivery_with_client,
}
use matrix_agent_workspace.Matrix.Worker.{Tenant, Send, Surroundings, Attempt, deliver_one}
use matrix_agent_workspace.Matrix.Worker.Claims.{
  Settles, Outcome, untouched, settled, sent, Claimed, deliver_one-Outcome, Addressed,
}

-- An attempt of some worker, for some tenant.
pub record Delivery : Type 0 where
  pub tenant : Tenant
  pub around : Surroundings
  pub message_id : String

-- An attempt commits, or its transaction is undone after what it sent; an event of a run is
-- enqueued, with an id, a workspace, the run and the sequence; or the other tables change.
pub data Step : Type 0 where
  delivers rolls_back : Delivery → Step
  enqueues : String → String → String → ℕ → Step
  changes : Tables → Step

module _ (render : RenderableEvent → String) (show : ℕ → String) where
  abbrev pub attempt : Delivery → Tables → Attempt
  attempt d tables = deliver_one render d.tenant d.around d.message_id tables

  abbrev pub step : Step → Tables → Tables × List Send
  step (delivers d) tables = (attempt d tables).1
  step (rolls_back d) tables = (tables, (attempt d tables).1.1)
  step (enqueues uuid workspace_id run_id sequence) tables =
      ((enqueue_matrix_delivery_with_client show uuid workspace_id run_id sequence tables).1, [])
  step (changes others) tables = (record others { messages = tables.messages }, [])

  -- What the steps send, one after the other.
  abbrev pub sends : List Step → Tables → List Send
  sends [] tables = []
  sends (s ∷ ss) tables = let after = step s tables in after.1 ++ sends ss after.0

  -- A condition on the messages that are enqueued, where they come in.
  module _ (Allows : List OutboxMessage → String → ℕ → Type 0) where
    abbrev pub Admits : Step → Tables → Type 0
    Admits (enqueues uuid workspace_id run_id sequence) tables =
        Allows tables.messages run_id sequence
    Admits _ tables = Unit

    abbrev pub AllAdmit : List Step → Tables → Type 0
    AllAdmit [] tables = Unit
    AllAdmit (s ∷ ss) tables = Admits s tables × AllAdmit ss (step s tables).0

-- What was claimed for a call: a pending row, to which the call is addressed.
abbrev pub Proper : Send → Type 0
Proper s = (is_pending s.claimed.status ≡ true) × Addressed s.params s.claimed

-- The table after an enqueueing: a new row has a new delivery key.
pub data Enqueued (run_id : String) (sequence : ℕ) (ms : List OutboxMessage)
    : List OutboxMessage → Type 0 where
  as_before : Enqueued run_id sequence ms ms
  added :
      (m : OutboxMessage)
      → m.aggregate_key ≡ run_id
      → m.event_sequence ≡ sequence
      → any (λ (o : OutboxMessage). o.delivery_key == m.delivery_key) ms ≡ false
      → Enqueued run_id sequence ms (ms ++ m ∷ [])

enqueue-Enqueued :
    (show : ℕ → String) (uuid workspace_id run_id : String) (sequence : ℕ) (tables : Tables)
    → Enqueued run_id sequence tables.messages
        (enqueue_matrix_delivery_with_client show uuid workspace_id run_id sequence
          tables).1.messages
unfolding enqueue_matrix_delivery_with_client
enqueue-Enqueued show uuid workspace_id run_id sequence tables =
    by_room (
      room_of (find (λ (r : RunRow). r.id == run_id && r.workspace_id == workspace_id) tables.runs))
  where
    inserted :
        (m : OutboxMessage)
        → m.aggregate_key ≡ run_id
        → m.event_sequence ≡ sequence
        → Enqueued run_id sequence tables.messages (insert_message m tables).1.messages
    inserted m run seq =
        elim (Bool-cases
          (any (λ (o : OutboxMessage). o.delivery_key == m.delivery_key) tables.messages)) [
            | inl there ↦ rw there as_before
            | inr new ↦ rw new (added m run seq new)
          ]

    by_room :
        (room : Option String)
        → Enqueued run_id sequence tables.messages
            (enqueue_for show uuid workspace_id run_id sequence room tables).1.messages
    by_room none = as_before
    by_room (some room) = elim (Bool-cases (room == "")) [
      | inl no_room ↦ rw no_room as_before
      | inr in_room ↦ rw in_room (inserted _ refl refl)
    ]

-- An invariant of the outbox's rows: deliveries and enqueueings keep it.
pub record Stays (Allows : List OutboxMessage → String → ℕ → Type 0)
    (Inv : List OutboxMessage → Type 0) : Type 0 where
  pub update :
      (id : String) (change : OutboxMessage → OutboxMessage) (ms : List OutboxMessage)
      → Settles change
      → Inv ms
      → Inv (update_message id change ms)
  pub insert :
      (m : OutboxMessage) (ms : List OutboxMessage)
      → Allows ms m.aggregate_key m.event_sequence
      → any (λ (o : OutboxMessage). o.delivery_key == m.delivery_key) ms ≡ false
      → Inv ms
      → Inv (ms ++ m ∷ [])

module _ (render : RenderableEvent → String) (show : ℕ → String)
    (Allows : List OutboxMessage → String → ℕ → Type 0) (Inv : List OutboxMessage → Type 0)
    (stays : Stays Allows Inv) where
  -- What is sent from a table with the invariant was claimed in a table with the invariant.
  abbrev pub InvSend : Send → Type 0
  InvSend s = Proper s × ((tables : Tables) × Inv tables.messages × Claimed tables s.claimed)

  pub sends-InvSend :
      (ss : List Step) (tables : Tables)
      → AllAdmit render show Allows ss tables
      → Inv tables.messages
      → All InvSend (sends render show ss tables)
  sends-InvSend [] tables ok h = tt
  sends-InvSend (delivers d ∷ ss) tables ok h =
      go (attempt render show d tables)
        (deliver_one-Outcome render d.tenant d.around d.message_id tables) ok.1
        (λ after. sends-InvSend ss after)
    where
      go :
          (a : Attempt)
          → Outcome (Claimed tables) tables a
          → AllAdmit render show Allows ss a.1.0
          → ((after : Tables)
              → AllAdmit render show Allows ss after
              → Inv after.messages
              → All InvSend (sends render show ss after))
          → All InvSend (a.1.1 ++ sends render show ss a.1.0)
      go _ (untouched r _) ok' ih = ih tables ok' h
      go _ (settled r msg change claim s _) ok' ih =
          ih _ ok' (stays.update msg.id change tables.messages s h)
      go _ (sent r msg change params claim s _ addressed) ok' ih = (
        ((claim.pending, addressed), (tables, h, claim)),
        ih _ ok' (stays.update msg.id change tables.messages s h),
      )
  sends-InvSend (rolls_back d ∷ ss) tables ok h =
      go (attempt render show d tables)
        (deliver_one-Outcome render d.tenant d.around d.message_id tables)
        (sends-InvSend ss tables ok.1 h)
    where
      go :
          (a : Attempt)
          → Outcome (Claimed tables) tables a
          → All InvSend (sends render show ss tables)
          → All InvSend (a.1.1 ++ sends render show ss tables)
      go _ (untouched r _) ih = ih
      go _ (settled r msg change claim s _) ih = ih
      go _ (sent r msg change params claim s _ addressed) ih =
          (((claim.pending, addressed), (tables, h, claim)), ih)
  sends-InvSend (enqueues uuid workspace_id run_id sequence ∷ ss) tables ok h =
      sends-InvSend ss _ ok.1
        (go _ (enqueue-Enqueued show uuid workspace_id run_id sequence tables))
    where
      go : (ms : List OutboxMessage) → Enqueued run_id sequence tables.messages ms → Inv ms
      go _ as_before = h
      go _ (added m run seq new) = stays.insert m tables.messages (rw (run, seq) ok.0) new h
  sends-InvSend (changes others ∷ ss) tables ok h = sends-InvSend ss _ ok.1 h

-- A test that stays false of a row when the row is settled.
abbrev pub Lasting : (OutboxMessage → Bool) → Type 0
Lasting q =
    (change : OutboxMessage → OutboxMessage) (m : OutboxMessage)
    → Settles change
    → q (change m) ≡ true
    → q m ≡ true

pub any-update_message :
    (q : OutboxMessage → Bool) (id : String) (change : OutboxMessage → OutboxMessage)
    (ms : List OutboxMessage)
    → Lasting q
    → Settles change
    → any q ms ≡ false
    → any q (update_message id change ms) ≡ false
unfolding update_message
any-update_message q id change [] l s h = refl
any-update_message q id change (m ∷ ms) l s h =
    let rest = any-update_message q id change ms l s (ground (arith, h)) in
    let now : q m ≡ false = ground (arith, h) in
    elim (Bool-cases (m.id == id)) [
      | inl here ↦ rw here (ground (arith, rest, changed (q (change m)) now (l change m s)))
      | inr other ↦ rw other (ground (arith, rest, now))
    ]
  where
    changed : (b : Bool) → q m ≡ false → (b ≡ true → q m ≡ true) → b ≡ false
    changed true h k = let e = k refl in cc
    changed false h k = refl

-- A test that a settled row passes as before.
pub any-same :
    (q : OutboxMessage → Bool) (id : String) (change : OutboxMessage → OutboxMessage)
    (ms : List OutboxMessage)
    → ((m : OutboxMessage) → q (change m) ≡ q m)
    → any q (update_message id change ms) ≡ any q ms
unfolding update_message
any-same q id change [] h = refl
any-same q id change (m ∷ ms) h = elim (Bool-cases (m.id == id)) [
  | inl here ↦ rw (here, h m, any-same q id change ms h) refl
  | inr other ↦ rw (other, any-same q id change ms h) refl
]

module _ {A : Type 0} (P Q : A → Type 0) where
  pub All-map : (xs : List A) → ((x : A) → P x → Q x) → All P xs → All Q xs
  All-map [] f h = tt
  All-map (x ∷ xs) f h = (f x h.0, All-map xs f h.1)
