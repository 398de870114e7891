-- ===== src/Matrix/Worker/Settled.antt =====
-- apps/control-plane/src/matrix/delivery-worker.ts and src/events/event-service.ts: a message that is
-- done with is not sent again.
use matrix_agent_workspace.Prelude.{
  ℕ, String, Bool, true, false, some, List, [], ◌∷◌, any, find, ◌==◌, ◌&&◌, ◌≡◌, refl, ap, sym, ◌∙◌,
  arith, Bool-cases, inl, inr, All, any-snoc, eq_iff, eq_self,
}
use matrix_agent_workspace.Matrix.Renderer.{RenderableEvent}
use matrix_agent_workspace.Matrix.Outbox.{OutboxMessage, Tables, is_pending, update_message}
use matrix_agent_workspace.Matrix.Worker.{Send, Attempt, is_claimable}
use matrix_agent_workspace.Matrix.Worker.Claims.{
  Settles, Outcome, untouched, settled, sent, deliver_one-claims, is_final, find-some,
}
use matrix_agent_workspace.Matrix.Worker.Steps.{
  Delivery, Step, delivers, rolls_back, enqueues, changes, attempt, sends, AllAdmit, Stays, InvSend,
  sends-InvSend, Lasting, any-update_message, any-same, All-map,
}

abbrev has_key : String → OutboxMessage → Bool
has_key key m = m.delivery_key == key

-- A pending row with a delivery key.
abbrev waits_with : String → OutboxMessage → Bool
waits_with key m = m.delivery_key == key && is_pending m.status

-- No delivery key stands in two rows, as the table's constraint has it.
abbrev pub DistinctDeliveryKeys : List OutboxMessage → Type 0
DistinctDeliveryKeys [] = Unit
DistinctDeliveryKeys (m ∷ ms) = (any (has_key m.delivery_key) ms ≡ false) × DistinctDeliveryKeys ms

waits_with-Lasting : (key : String) → Lasting (waits_with key)
waits_with-Lasting key change o s h = ground (arith, h, s.still_pending o, rw (s.same_key o) at h)

none_waits :
    (key : String) (ms : List OutboxMessage)
    → any (has_key key) ms ≡ false
    → any (waits_with key) ms ≡ false
none_waits key [] h = refl
none_waits key (m ∷ ms) h =
    let rest = none_waits key ms (ground (arith, h)) in ground (arith, h, rest)

-- The rows with the key are done with, and there is one.
record Done (key : String) (ms : List OutboxMessage) : Type 0 where
  over : any (waits_with key) ms ≡ false
  known : any (has_key key) ms ≡ true

-- A new row has another key than one that the table knows.
other_key :
    (key : String) (new : OutboxMessage) (ms : List OutboxMessage)
    → any (λ (o : OutboxMessage). o.delivery_key == new.delivery_key) ms ≡ false
    → any (has_key key) ms ≡ true
    → (new.delivery_key == key) ≡ false
other_key key new ms fresh known = elim (Bool-cases (new.delivery_key == key)) [
  | inl same ↦
      let fresh' : any (has_key key) ms ≡ false =
        rw ((eq_iff new.delivery_key key).0 same) at fresh in
      cc
  | inr other ↦ other
]

abbrev Anything : List OutboxMessage → String → ℕ → Type 0
Anything ms run_id sequence = Unit

Done-Stays : (key : String) → Stays Anything (Done key)
Done-Stays key = record {
  update = λ id change ms s h. record {
    over = any-update_message (waits_with key) id change ms (waits_with-Lasting key) s h.over;
    known = any-same (has_key key) id change ms (λ o. rw (s.same_key o) refl) ∙ h.known;
  };
  insert = λ new ms _ fresh h. record {
    over =
        let other = other_key key new ms fresh h.known in
        ground (arith, any-snoc (waits_with key) ms new, h.over, other);
    known = ground (arith, any-snoc (has_key key) ms new, h.known);
  };
}

-- The change of a claimed row is that of all rows with its key.
all_over :
    (p : OutboxMessage → Bool) (change : OutboxMessage → OutboxMessage) (msg : OutboxMessage)
    (ms : List OutboxMessage)
    → find p ms ≡ some msg
    → DistinctDeliveryKeys ms
    → Settles change
    → ((m : OutboxMessage) → is_pending (change m).status ≡ false)
    → any (waits_with msg.delivery_key) (update_message msg.id change ms) ≡ false
unfolding update_message
all_over p change msg [] e distinct s over = refl
all_over p change msg (m ∷ ms) e distinct s over = elim (Bool-cases (p m)) [
  | inl here ↦
      let here_e : some m ≡ some msg = rw here at e in
      let same : m ≡ msg = cc in
      let others : any (has_key msg.delivery_key) ms ≡ false = rw same at distinct.0 in
      let rest =
        any-update_message (waits_with msg.delivery_key) msg.id change ms
          (waits_with-Lasting msg.delivery_key) s (none_waits msg.delivery_key ms others) in
      let hit : (m.id == msg.id) ≡ true = (eq_iff m.id msg.id).1 (ap (λ o. o.id) same) in
      rw hit (ground (arith, over m, rest))
  | inr there ↦
      let there_e : find p ms ≡ some msg = rw there at e in
      let rest = all_over p change msg ms there_e distinct.1 s over in
      let apart : (msg.delivery_key == m.delivery_key) ≡ false =
        (find-some p ms there_e).1 (has_key m.delivery_key) distinct.0 in
      elim (Bool-cases (m.id == msg.id)) [
        | inl hit ↦ rw hit (ground (arith, over m, rest))
        | inr miss ↦ rw miss (ground (arith, rest, key_sym msg m apart))
      ]
]
  where
    key_sym :
        (a b : OutboxMessage)
        → (a.delivery_key == b.delivery_key) ≡ false
        → (b.delivery_key == a.delivery_key) ≡ false
    key_sym a b h = elim (Bool-cases (b.delivery_key == a.delivery_key)) [
      | inl same ↦
          let e = (eq_iff b.delivery_key a.delivery_key).0 same in
          let yes = (eq_iff a.delivery_key b.delivery_key).1 (sym e) in cc
      | inr other ↦ other
    ]

found-known :
    (p : OutboxMessage → Bool) (msg : OutboxMessage) (ms : List OutboxMessage)
    → find p ms ≡ some msg
    → any (has_key msg.delivery_key) ms ≡ true
found-known p msg ms e = elim (Bool-cases (any (has_key msg.delivery_key) ms)) [
  | inl found ↦ found
  | inr never ↦
      let not_itself = (find-some p ms e).1 (has_key msg.delivery_key) never in
      let itself = eq_self msg.delivery_key in cc
]

module _ (render : RenderableEvent → String) (show : ℕ → String) where
  anything : (ss : List Step) (tables : Tables) → AllAdmit render show Anything ss tables
  anything [] tables = tt
  anything (delivers d ∷ ss) tables = (tt, anything ss _)
  anything (rolls_back d ∷ ss) tables = (tt, anything ss _)
  anything (enqueues uuid workspace_id run_id sequence ∷ ss) tables = (tt, anything ss _)
  anything (changes others ∷ ss) tables = (tt, anything ss _)

  Done-sends :
      (key : String) (ss : List Step) (tables : Tables)
      → Done key tables.messages
      → All (λ (s : Send). (s.params.delivery_key == key) ≡ false) (sends render show ss tables)
  Done-sends key ss tables h =
      All-map (InvSend render show Anything (Done key) (Done-Stays key))
        (λ (s : Send). (s.params.delivery_key == key) ≡ false) (sends render show ss tables) other
        (sends-InvSend render show Anything (Done key) (Done-Stays key) ss tables
          (anything ss tables) h)
    where
      other :
          (s : Send)
          → InvSend render show Anything (Done key) (Done-Stays key) s
          → (s.params.delivery_key == key) ≡ false
      other s ((pending, (addressed, _)), (at, inv, claim)) =
          let never = claim.is_in (waits_with key) inv.over in
          rw addressed (ground (arith, pending, never))

  -- After an attempt has delivered the message that it claimed, or has failed it for good, no message
  -- with its delivery key is ever sent again: whoever delivers, whatever the server answers, whatever
  -- is enqueued, under that key too, and wherever a transaction is undone. The delivery keys of the
  -- outbox are distinct at the attempt.
  pub settled_never_sent :
      (d : Delivery) (ss : List Step) (tables : Tables) (msg : OutboxMessage)
      → DistinctDeliveryKeys tables.messages
      → find (is_claimable d.around.now d.message_id tables.messages) tables.messages ≡ some msg
      → is_final (attempt render show d tables).0 ≡ true
      → All
          (λ (s : Send). (s.params.delivery_key == msg.delivery_key) ≡ false)
          (sends render show ss (attempt render show d tables).1.0)
  settled_never_sent d ss tables msg distinct e final = Done-sends msg.delivery_key ss _ (
      go (attempt render show d tables)
        (deliver_one-claims render d.tenant d.around d.message_id tables msg e) final)
    where
      done :
          (change : OutboxMessage → OutboxMessage)
          → Settles change
          → ((m : OutboxMessage) → is_pending (change m).status ≡ false)
          → Done msg.delivery_key (update_message msg.id change tables.messages)
      done change s over = record {
        over = all_over _ change msg tables.messages e distinct s over;
        known =
            any-same (has_key msg.delivery_key) msg.id change tables.messages
              (λ o. rw (s.same_key o) refl)
            ∙ found-known _ msg tables.messages e;
      }

      go :
          (a : Attempt)
          → Outcome (λ m. m ≡ msg) tables a
          → is_final a.0 ≡ true
          → Done msg.delivery_key a.1.0.messages
      go _ (untouched r not_final) final' = cc
      go _ (settled r m change same s over) final' = rw same (done change s (over final'))
      go _ (sent r m change params same s over addressed) final' =
          rw same (done change s (over final'))
