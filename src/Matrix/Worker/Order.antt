-- ===== src/Matrix/Worker/Order.antt =====
-- apps/control-plane/src/matrix/delivery-worker.ts: the order of what any deliveries send, while events
-- are enqueued.
use matrix_agent_workspace.Prelude.{
  ℕ, ◌≤◌, String, Bool, true, false, List, [], ◌∷◌, ◌++◌, any, leb, ltb, ◌==◌, ◌&&◌, ◌≡◌, refl, sym,
  ◌∙◌, arith, Bool-cases, inl, inr, All, any-snoc, eq_iff, eq_self,
}
use matrix_agent_workspace.Matrix.Renderer.{RenderableEvent}
use matrix_agent_workspace.Matrix.Outbox.{OutboxMessage, Tables, is_earlier}
use matrix_agent_workspace.Matrix.Worker.{Send, Attempt}
use matrix_agent_workspace.Matrix.Worker.Claims.{
  Outcome, untouched, settled, sent, Claimed, deliver_one-Outcome,
}
use matrix_agent_workspace.Matrix.Worker.Steps.{
  Step, delivers, rolls_back, enqueues, changes, attempt, sends, AllAdmit, Stays, InvSend,
  sends-InvSend, Lasting, any-update_message, any-same, All-map,
}

-- A row of the run with a greater sequence.
abbrev is_beyond : String → ℕ → OutboxMessage → Bool
is_beyond run_id sequence o = o.aggregate_key == run_id && ltb sequence o.event_sequence

-- An event is enqueued after those of its run with smaller sequences, as `append_run_event` numbers
-- them: no row of its run has a greater one.
abbrev pub Rises : List OutboxMessage → String → ℕ → Type 0
Rises ms run_id sequence = any (is_beyond run_id sequence) ms ≡ false

-- A row of the same run that is not before it.
abbrev is_mate : OutboxMessage → OutboxMessage → Bool
is_mate m o = o.aggregate_key == m.aggregate_key && leb m.event_sequence o.event_sequence

is_earlier-Lasting : (m : OutboxMessage) → Lasting (is_earlier m)
is_earlier-Lasting m change o s h =
    ground (arith, h, s.still_pending o, rw (s.same_run o, s.same_room o, s.same_sequence o) at h)

-- A new message is not before one that the table knows.
not_earlier :
    (m new : OutboxMessage) (ms : List OutboxMessage)
    → any (is_mate m) ms ≡ true
    → Rises ms new.aggregate_key new.event_sequence
    → is_earlier m new ≡ false
not_earlier m new [] mate rises = cc
not_earlier m new (o ∷ ms) mate rises = elim (Bool-cases (is_mate m o)) [
  | inl here ↦ elim (Bool-cases (new.aggregate_key == m.aggregate_key)) [
    | inl same ↦
        let run : o.aggregate_key ≡ m.aggregate_key =
          (eq_iff o.aggregate_key m.aggregate_key).0 (ground (arith, here)) in
        let own : (o.aggregate_key == new.aggregate_key) ≡ true =
          (eq_iff o.aggregate_key new.aggregate_key).1
            (run ∙ sym ((eq_iff new.aggregate_key m.aggregate_key).0 same)) in
        let never : is_beyond new.aggregate_key new.event_sequence o ≡ false =
          ground (arith, rises) in
        ground (arith, here, own, never)
    | inr other ↦ ground (arith, other)
  ]
  | inr there ↦ not_earlier m new ms (ground (arith, mate, there)) (ground (arith, rises))
]

-- Nothing of the message's run and room waits before it.
record Passed (m : OutboxMessage) (ms : List OutboxMessage) : Type 0 where
  first : any (is_earlier m) ms ≡ false
  known : any (is_mate m) ms ≡ true

Passed-Stays : (m : OutboxMessage) → Stays Rises (Passed m)
Passed-Stays m = record {
  update = λ id change ms s h. record {
    first = any-update_message (is_earlier m) id change ms (is_earlier-Lasting m) s h.first;
    known =
        any-same (is_mate m) id change ms (λ o. rw (s.same_run o, s.same_sequence o) refl)
        ∙ h.known;
  };
  insert = λ new ms rises fresh h. record {
    first =
        let never = not_earlier m new ms h.known rises in
        ground (arith, any-snoc (is_earlier m) ms new, h.first, never);
    known = ground (arith, any-snoc (is_mate m) ms new, h.known);
  };
}

Claimed-Passed : (tables : Tables) (m : OutboxMessage) → Claimed tables m → Passed m tables.messages
Claimed-Passed tables m claim = record {
  first = claim.first;
  known = elim (Bool-cases (any (is_mate m) tables.messages)) [
    | inl found ↦ found
    | inr never ↦
        let not_itself : is_mate m m ≡ false = claim.is_in (is_mate m) never in
        let itself : is_mate m m ≡ true = ground (arith, eq_self m.aggregate_key) in cc
  ];
}

-- Two calls of which the first is not for a later event of the same run and room.
abbrev NotAfter : OutboxMessage → Send → Type 0
NotAfter m s =
    m.aggregate_key ≡ s.claimed.aggregate_key
    → m.destination ≡ s.claimed.destination
    → m.event_sequence ≤ s.claimed.event_sequence

abbrev pub InOrder : List Send → Type 0
InOrder [] = Unit
InOrder (s ∷ ss) = All (NotAfter s.claimed) ss × InOrder ss

module _ (render : RenderableEvent → String) (show : ℕ → String) where
  later_ones :
      (m : OutboxMessage) (ss : List Step) (tables : Tables)
      → AllAdmit render show Rises ss tables
      → Passed m tables.messages
      → All (NotAfter m) (sends render show ss tables)
  later_ones m ss tables ok h =
      All-map (InvSend render show Rises (Passed m) (Passed-Stays m)) (NotAfter m)
        (sends render show ss tables) after_it
        (sends-InvSend render show Rises (Passed m) (Passed-Stays m) ss tables ok h)
    where
      after_it : (s : Send) → InvSend render show Rises (Passed m) (Passed-Stays m) s → NotAfter m s
      after_it s ((pending, _), (at, inv, claim)) run room =
          let never = claim.is_in (is_earlier m) inv.first in
          ground (
            arith,
            pending,
            never,
            (eq_iff s.claimed.aggregate_key m.aggregate_key).1 (sym run),
            (eq_iff s.claimed.destination m.destination).1 (sym room),
          )

  -- Whatever is delivered by whom and enqueued meanwhile, whatever the server answers, and wherever a
  -- transaction is undone after its call: the messages of one run to one room are sent in the order
  -- of the run's events. Only the same event may be sent again. The events of a run are enqueued in
  -- the order of their sequences.
  pub sends-InOrder :
      (ss : List Step) (tables : Tables)
      → AllAdmit render show Rises ss tables
      → InOrder (sends render show ss tables)
  sends-InOrder [] tables ok = tt
  sends-InOrder (delivers d ∷ ss) tables ok =
      go (attempt render show d tables)
        (deliver_one-Outcome render d.tenant d.around d.message_id tables) ok.1
        (λ after. sends-InOrder ss after)
    where
      go :
          (a : Attempt)
          → Outcome (Claimed tables) tables a
          → AllAdmit render show Rises ss a.1.0
          → ((after : Tables)
              → AllAdmit render show Rises ss after
              → InOrder (sends render show ss after))
          → InOrder (a.1.1 ++ sends render show ss a.1.0)
      go _ (untouched r _) ok' ih = ih tables ok'
      go _ (settled r msg change claim s _) ok' ih = ih _ ok'
      go _ (sent r msg change params claim s _ addressed) ok' ih = (
        later_ones msg ss _ ok' (
            (Passed-Stays msg).update msg.id change tables.messages s
              (Claimed-Passed tables msg claim)),
        ih _ ok',
      )
  sends-InOrder (rolls_back d ∷ ss) tables ok =
      go (attempt render show d tables)
        (deliver_one-Outcome render d.tenant d.around d.message_id tables)
        (sends-InOrder ss tables ok.1)
    where
      go :
          (a : Attempt)
          → Outcome (Claimed tables) tables a
          → InOrder (sends render show ss tables)
          → InOrder (a.1.1 ++ sends render show ss tables)
      go _ (untouched r _) ih = ih
      go _ (settled r msg change claim s _) ih = ih
      go _ (sent r msg change params claim s _ addressed) ih =
          (later_ones msg ss tables ok.1 (Claimed-Passed tables msg claim), ih)
  sends-InOrder (enqueues uuid workspace_id run_id sequence ∷ ss) tables ok =
      sends-InOrder ss _ ok.1
  sends-InOrder (changes others ∷ ss) tables ok = sends-InOrder ss _ ok.1
