-- ===== src/Mobile/RunStore/Guarantees.antt =====
-- apps/mobile/src/state/run-store.ts: what the store guarantees.
use matrix_agent_workspace.Prelude.{
  ℕ, String, Bool, true, false, Option, none, some, List, [], ◌∷◌, ◌++◌, ◌≡◌, refl, sym, ap, ◌∙◌,
  inl, inr, ltb, ◌&&◌, ◌==◌, Bool-cases, if◌then◌else◌,
}
use mathlib.Core.List.{append-nil, append_assoc}
use matrix_agent_workspace.Mobile.RunStore.{
  NormalizedRunEvent, MatrixDeliveryMarker, RunSnapshot, MutableRun, RunStore, with_event,
  add_event, with_marker, mark_matrix_delivered, normalize_event, Use, read, received, delivered,
  subscribed, unsubscribed, use_store, uses_store,
}
use matrix_agent_workspace.Mobile.RunStore.Order.{StoreInOrder, use_store-InOrder}
use matrix_agent_workspace.Mobile.RunStore.Views.{
  run_of, has_run, take_event, run_of-add_normalized, run_of-mark_matrix_delivered,
  snapshot-get_run, snapshot-subscribe, snapshot-unsubscribe, with_marker_keeps,
}

-- In every run of the store, at any moment, the events are the run's own, their sequences rise
-- strictly up to the highest sequence, every delivered sequence is that of an event, and no waiting
-- one is. It holds after any use of the store if it held before, as it does of an empty store.
pub uses_store-StoreInOrder :
    (is_date : String → Bool) (persistent : Bool) (us : List Use) (store : RunStore)
    → StoreInOrder store
    → StoreInOrder (uses_store is_date persistent us store)
unfolding uses_store
uses_store-StoreInOrder is_date persistent [] store h = h
uses_store-StoreInOrder is_date persistent (u ∷ us) store h =
    uses_store-StoreInOrder is_date persistent us _ (use_store-InOrder is_date persistent u store h)

-- The specification: the candidates of a run, and of these each that is above all before it.
abbrev pub event_of : String → Option NormalizedRunEvent → List NormalizedRunEvent
event_of r none = []
event_of r (some e) = if e.run_id == r then e ∷ [] else []

abbrev pub received_by : (String → Bool) → String → Use → List NormalizedRunEvent
received_by is_date r (received c) = event_of r (normalize_event is_date c)
received_by is_date r _ = []

abbrev pub received_events : (String → Bool) → String → List Use → List NormalizedRunEvent
received_events is_date r [] = []
received_events is_date r (u ∷ us) = received_by is_date r u ++ received_events is_date r us

abbrev pub rising : ℕ → List NormalizedRunEvent → List NormalizedRunEvent
rising high [] = []
rising high (e ∷ es) =
    let above = rising e.sequence es in
    let rest = rising high es in if ltb high e.sequence then e ∷ above else rest

abbrev top : ℕ → List NormalizedRunEvent → ℕ
top high [] = high
top high (e ∷ es) = top (if ltb high e.sequence then e.sequence else high) es

rising-append :
    (h : ℕ) (xs ys : List NormalizedRunEvent)
    → rising h (xs ++ ys) ≡ rising h xs ++ rising (top h xs) ys
rising-append h [] ys = refl
rising-append h (x ∷ xs) ys = elim (Bool-cases (ltb h x.sequence)) [
  | inl above ↦ rw above (ap (λ zs. x ∷ zs) (rising-append x.sequence xs ys))
  | inr below ↦ rw below (rising-append h xs ys)
]

module _ (is_date : String → Bool) (persistent : Bool) (r : String) where
  -- What a use does to the run's snapshot.
  record Grows (es : List NormalizedRunEvent) (s t : RunSnapshot) : Type 0 where
    events : t.events ≡ s.events ++ rising s.highest_sequence es
    highest : t.highest_sequence ≡ top s.highest_sequence es

  same-Grows : (s t : RunSnapshot) → t ≡ s → Grows [] s t
  same-Grows s t e = record {
    events = ap (λ (u : RunSnapshot). u.events) e ∙ sym (append-nil s.events);
    highest = ap (λ (u : RunSnapshot). u.highest_sequence) e;
  }

  take_event-Grows :
      (o : Option NormalizedRunEvent) (run : MutableRun)
      → Grows (event_of r o) run.snapshot (take_event r o run).snapshot
  unfolding with_event
  take_event-Grows none run = same-Grows _ _ refl
  take_event-Grows (some e) run = elim (Bool-cases (e.run_id == r)) [
    | inl own ↦ elim (Bool-cases (ltb run.snapshot.highest_sequence e.sequence)) [
      | inl above ↦ rw (own, above) (record { events = rw above refl; highest = rw above refl })
      | inr below ↦
          rw (own, below)
            (record { events = rw below (sym (append-nil _)); highest = rw below refl })
    ]
    | inr other ↦ rw other (same-Grows _ _ refl)
  ]

  with_marker-Grows :
      (n : ℕ) (run : MutableRun) → Grows [] run.snapshot (with_marker n run).1.snapshot
  with_marker-Grows n run =
      let (events, highest) = with_marker_keeps n run in
      record { events = events ∙ sym (append-nil _); highest = highest }

  mark-Grows :
      (m : MatrixDeliveryMarker) (store : RunStore)
      → Grows []
          (run_of r store).snapshot
          (run_of r (mark_matrix_delivered persistent m store).1).snapshot
  mark-Grows m store =
      rw (run_of-mark_matrix_delivered persistent r m store) (go (m.run_id == r && has_run r store))
    where
      go :
          (mine : Bool)
          → Grows []
              (run_of r store).snapshot
              (if mine
                then (with_marker m.sequence (run_of r store)).1
                else run_of r store).snapshot
      go true = with_marker-Grows m.sequence (run_of r store)
      go false = same-Grows _ _ refl

  use_store-Grows :
      (u : Use) (store : RunStore)
      → Grows
          (received_by is_date r u)
          (run_of r store).snapshot
          (run_of r (use_store is_date persistent u store)).snapshot
  unfolding use_store add_event
  use_store-Grows (read id) store = same-Grows _ _ (snapshot-get_run r id store)
  use_store-Grows (received c) store =
      rw (run_of-add_normalized persistent r (normalize_event is_date c) store)
        (take_event-Grows (normalize_event is_date c) (run_of r store))
  use_store-Grows (delivered m) store = mark-Grows m store
  use_store-Grows (subscribed id l) store = same-Grows _ _ (snapshot-subscribe r id l store)
  use_store-Grows (unsubscribed id l) store = same-Grows _ _ (snapshot-unsubscribe r id l store)

  -- Whatever is done with the store, in whatever order: the events of a run are those it had before,
  -- followed by the received ones of that run whose sequence is above every earlier one. So a
  -- replayed or late event changes nothing, and nothing but receiving adds one.
  pub uses_store-received :
      (us : List Use) (store : RunStore)
      → (run_of r (uses_store is_date persistent us store)).snapshot.events
        ≡ (run_of r store).snapshot.events
          ++ rising (run_of r store).snapshot.highest_sequence (received_events is_date r us)
  unfolding uses_store
  uses_store-received [] store = sym (append-nil _)
  uses_store-received (u ∷ us) store =
      let first = use_store-Grows u store in
      let high = (run_of r store).snapshot.highest_sequence in
      uses_store-received us (use_store is_date persistent u store)
      ∙ rw (first.events, first.highest)
          (append_assoc _ (rising high (received_by is_date r u)) _
            ∙ ap (λ es. (run_of r store).snapshot.events ++ es)
                (sym (rising-append high (received_by is_date r u) (received_events is_date r us))))
