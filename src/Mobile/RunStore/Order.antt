-- ===== src/Mobile/RunStore/Order.antt =====
-- apps/mobile/src/state/run-store.ts: what holds of the store at any moment.
use matrix_agent_workspace.Prelude.{
  ℕ, ◌<◌, String, Bool, true, false, Option, none, some, List, [], ◌∷◌, ◌++◌, ◌≡◌, refl, inl, inr,
  arith, map_get, leb, ltb, nat_eq, ◌&&◌, ◌||◌, Bool-cases, All, All-map_get, All-map_set,
  All-append, if◌then◌else◌,
}
use matrix_agent_workspace.Json.{Json}
use matrix_agent_workspace.Mobile.RunStore.{
  NormalizedRunEvent, MatrixDeliveryMarker, MutableRun, RunStore, empty_run, mutable, run_or_empty,
  get_run, has, remove, add, with_event, add_normalized, add_event, has_sequence, with_marker,
  put_marked, mark_found, mark_matrix_delivered, subscribe, normalize_event, max_safe_integer,
  unsubscribe, unsubscribe_found, Use, read, received, delivered, subscribed, unsubscribed,
  use_store,
}

-- The sequences rise strictly from `low` to `high`, the last one (`low` where there is none).
abbrev pub Rises : ℕ → List NormalizedRunEvent → ℕ → Type 0
Rises low [] high = low ≡ high
Rises low (e ∷ es) high = (low < e.sequence) × Rises e.sequence es high

abbrev pub Delivered : List NormalizedRunEvent → List ℕ → Type 0
Delivered events ns = All (λ n. has_sequence n events ≡ true) ns

abbrev pub Waiting : List NormalizedRunEvent → List ℕ → Type 0
Waiting events ns = All (λ n. has_sequence n events ≡ false) ns

-- A run's events are its own and rise to the highest sequence, the delivered sequences are those
-- of events, and the pending ones are not.
pub record RunInOrder (id : String) (run : MutableRun) : Type 0 where
  pub named : run.snapshot.run_id ≡ id
  pub own : All (λ (e : NormalizedRunEvent). e.run_id ≡ id) run.snapshot.events
  pub rises : Rises 0 run.snapshot.events run.snapshot.highest_sequence
  pub delivered : Delivered run.snapshot.events run.snapshot.matrix_delivered_sequences
  pub waiting : Waiting run.snapshot.events run.pending_deliveries

abbrev pub StoreInOrder : RunStore → Type 0
StoreInOrder store = All (λ (r : String × MutableRun). RunInOrder r.0 r.1) store.runs

pub Rises-append :
    (low : ℕ) (es : List NormalizedRunEvent) (high : ℕ) (e : NormalizedRunEvent)
    → Rises low es high
    → high < e.sequence
    → Rises low (es ++ e ∷ []) e.sequence
Rises-append low [] high e h l = (omega (arith, h, l), refl)
Rises-append low (d ∷ es) high e h l = (h.0, Rises-append d.sequence es high e h.1 l)

pub has_sequence-append :
    (n : ℕ) (es : List NormalizedRunEvent) (e : NormalizedRunEvent)
    → has_sequence n (es ++ e ∷ []) ≡ (has_sequence n es || nat_eq e.sequence n)
has_sequence-append n [] e = ground arith
has_sequence-append n (d ∷ es) e = ground (arith, has_sequence-append n es e)

Delivered-append :
    (es : List NormalizedRunEvent) (e : NormalizedRunEvent) (ns : List ℕ)
    → Delivered es ns
    → Delivered (es ++ e ∷ []) ns
Delivered-append es e [] h = tt
Delivered-append es e (n ∷ ns) h =
    (ground (arith, has_sequence-append n es e, h.0), Delivered-append es e ns h.1)

Waiting-append :
    (es : List NormalizedRunEvent) (e : NormalizedRunEvent) (ns : List ℕ)
    → Waiting es ns
    → Waiting (es ++ e ∷ []) (remove e.sequence ns)
Waiting-append es e [] h = tt
Waiting-append es e (n ∷ ns) h = elim (Bool-cases (nat_eq e.sequence n)) [
  | inl same ↦ rw same (Waiting-append es e ns h.1)
  | inr other ↦
      rw other (ground (arith, has_sequence-append n es e, h.0, other), Waiting-append es e ns h.1)
]

module _ (P : ℕ → Type 0) where
  All-add : (n : ℕ) (ns : List ℕ) → P n → All P ns → All P (add n ns)
  All-add n ns p h = elim (Bool-cases (has n ns)) [
    | inl there ↦ rw there h
    | inr new ↦ rw new (All-append P ns (n ∷ []) h (p, tt))
  ]

empty_run-InOrder : (id : String) → RunInOrder id (empty_run id)
empty_run-InOrder id = record { named = refl; own = tt; rises = refl; delivered = tt; waiting = tt }

pub run_or_empty-InOrder :
    (id : String) (store : RunStore)
    → StoreInOrder store
    → RunInOrder id (run_or_empty id (map_get id store.runs))
run_or_empty-InOrder id store h = go (map_get id store.runs) refl
  where
    go : (o : Option MutableRun) → map_get id store.runs ≡ o → RunInOrder id (run_or_empty id o)
    go none e = empty_run-InOrder id
    go (some run) e = All-map_get RunInOrder id store.runs h e

mutable-InOrder :
    (id : String) (store : RunStore) → StoreInOrder store → StoreInOrder (mutable id store).1
unfolding mutable
mutable-InOrder id store h =
    All-map_set RunInOrder id _ store.runs (run_or_empty-InOrder id store h) h

with_event-InOrder :
    (id : String) (e : NormalizedRunEvent) (run : MutableRun)
    → RunInOrder id run
    → e.run_id ≡ id
    → run.snapshot.highest_sequence < e.sequence
    → RunInOrder id (with_event e run)
unfolding with_event
with_event-InOrder id e run h own above = record {
  named = h.named;
  own = All-append _ run.snapshot.events (e ∷ []) h.own (own, tt);
  rises = Rises-append 0 run.snapshot.events _ e h.rises above;
  delivered = marked (has e.sequence run.pending_deliveries);
  waiting = Waiting-append run.snapshot.events e run.pending_deliveries h.waiting;
}
  where
    events : List NormalizedRunEvent
    events = run.snapshot.events ++ e ∷ []

    before : Delivered events run.snapshot.matrix_delivered_sequences
    before = Delivered-append run.snapshot.events e _ h.delivered

    here : has_sequence e.sequence events ≡ true
    here = ground (arith, has_sequence-append e.sequence run.snapshot.events e)

    marked :
        (b : Bool)
        → Delivered events (
            if b
            then add e.sequence run.snapshot.matrix_delivered_sequences
            else run.snapshot.matrix_delivered_sequences)
    marked true = All-add _ e.sequence _ here before
    marked false = before

with_marker-InOrder :
    (id : String) (n : ℕ) (run : MutableRun)
    → RunInOrder id run
    → RunInOrder id (with_marker n run).1
unfolding with_marker
with_marker-InOrder id n run h = elim (Bool-cases (has_sequence n run.snapshot.events)) [
  | inl there ↦ elim (Bool-cases (has n run.snapshot.matrix_delivered_sequences)) [
    | inl old ↦ rw (there, old) h
    | inr new ↦
        rw (there, new)
          (record {
            named = h.named;
            own = h.own;
            rises = h.rises;
            delivered = All-append _ _ (n ∷ []) h.delivered (there, tt);
            waiting = h.waiting;
          })
  ]
  | inr missing ↦
      elim (Bool-cases (leb n max_safe_integer && ltb run.snapshot.highest_sequence n)) [
        | inl later ↦
            rw (missing, later)
              (record {
                named = h.named;
                own = h.own;
                rises = h.rises;
                delivered = h.delivered;
                waiting = All-add _ n _ missing h.waiting;
              })
        | inr refused ↦ rw (missing, refused) h
      ]
]

module _ (is_date : String → Bool) (persistent : Bool) where
  add_normalized-InOrder :
      (o : Option NormalizedRunEvent) (store : RunStore)
      → StoreInOrder store
      → StoreInOrder (add_normalized persistent o store).1
  unfolding mutable
  add_normalized-InOrder none store h = h
  add_normalized-InOrder (some e) store h =
      elim (Bool-cases (leb e.sequence (mutable e.run_id store).0.snapshot.highest_sequence)) [
        | inl old ↦ rw old (mutable-InOrder e.run_id store h)
        | inr new ↦ rw new (
            All-map_set RunInOrder e.run_id _ _
              (with_event-InOrder e.run_id e _ (run_or_empty-InOrder e.run_id store h) refl
                (ground (arith, new)))
              (mutable-InOrder e.run_id store h))
      ]

  add_event-InOrder :
      (candidate : Json) (store : RunStore)
      → StoreInOrder store
      → StoreInOrder (add_event is_date persistent candidate store).1
  unfolding add_event
  add_event-InOrder candidate store h =
      add_normalized-InOrder (normalize_event is_date candidate) store h

  put_marked-InOrder :
      (id : String) (m : Bool × MutableRun) (store : RunStore)
      → RunInOrder id m.1
      → StoreInOrder store
      → StoreInOrder (put_marked persistent id m store).1
  put_marked-InOrder id (true, run) store h k = All-map_set RunInOrder id run store.runs h k
  put_marked-InOrder id (false, run) store h k = All-map_set RunInOrder id run store.runs h k

  mark_matrix_delivered-InOrder :
      (marker : MatrixDeliveryMarker) (store : RunStore)
      → StoreInOrder store
      → StoreInOrder (mark_matrix_delivered persistent marker store).1
  unfolding mark_matrix_delivered
  mark_matrix_delivered-InOrder marker store h = go (map_get marker.run_id store.runs) refl
    where
      go :
          (o : Option MutableRun)
          → map_get marker.run_id store.runs ≡ o
          → StoreInOrder (mark_found persistent marker o store).1
      go none e = h
      go (some run) e =
          put_marked-InOrder marker.run_id _ store
            (with_marker-InOrder marker.run_id marker.sequence run
              (All-map_get RunInOrder marker.run_id store.runs h e))
            h

  get_run-InOrder :
      (id : String) (store : RunStore) → StoreInOrder store → StoreInOrder (get_run id store).1
  unfolding get_run
  get_run-InOrder id store h = mutable-InOrder id store h

  subscribe-InOrder :
      (id listener : String) (store : RunStore)
      → StoreInOrder store
      → StoreInOrder (subscribe id listener store)
  unfolding subscribe mutable
  subscribe-InOrder id listener store h =
      let ok = run_or_empty-InOrder id store h in
      All-map_set RunInOrder id _ _
        (record {
          named = ok.named;
          own = ok.own;
          rises = ok.rises;
          delivered = ok.delivered;
          waiting = ok.waiting;
        })
        (mutable-InOrder id store h)

unsubscribe-InOrder :
    (id listener : String) (store : RunStore)
    → StoreInOrder store
    → StoreInOrder (unsubscribe id listener store)
unfolding unsubscribe
unsubscribe-InOrder id listener store h = go (map_get id store.runs) refl
  where
    go :
        (o : Option MutableRun)
        → map_get id store.runs ≡ o
        → StoreInOrder (unsubscribe_found id listener o store)
    go none e = h
    go (some run) e =
        let ok = All-map_get RunInOrder id store.runs h e in
        All-map_set RunInOrder id _ _
          (record {
            named = ok.named;
            own = ok.own;
            rises = ok.rises;
            delivered = ok.delivered;
            waiting = ok.waiting;
          })
          h

pub use_store-InOrder :
    (is_date : String → Bool) (persistent : Bool) (u : Use) (store : RunStore)
    → StoreInOrder store
    → StoreInOrder (use_store is_date persistent u store)
unfolding use_store
use_store-InOrder is_date persistent (read id) store h =
    get_run-InOrder is_date persistent id store h
use_store-InOrder is_date persistent (received c) store h =
    add_event-InOrder is_date persistent c store h
use_store-InOrder is_date persistent (delivered m) store h =
    mark_matrix_delivered-InOrder is_date persistent m store h
use_store-InOrder is_date persistent (subscribed id l) store h =
    subscribe-InOrder is_date persistent id l store h
use_store-InOrder is_date persistent (unsubscribed id l) store h = unsubscribe-InOrder id l store h
