-- ===== src/Mobile/RunStore/Views.antt =====
-- apps/mobile/src/state/run-store.ts: each use of the store, as what it does to one run.
use matrix_agent_workspace.Prelude.{
  ℕ, String, Bool, true, false, Option, none, some, List, ◌≡◌, refl, sym, ap, ◌∙◌, subst, inl, inr,
  arith, map_get, map_set, leb, ltb, ◌&&◌, ◌==◌, Bool-cases, eq_iff, eq_self, if◌then◌else◌,
  map_get-map_set,
}
use matrix_agent_workspace.Mobile.RunStore.{
  NormalizedRunEvent, MatrixDeliveryMarker, MutableRun, RunStore, mutable, run_or_empty, with_event,
  add_normalized, with_marker, put_marked, mark_found, mark_matrix_delivered, max_safe_integer,
  subscribe, unsubscribe, unsubscribe_found, get_run, has, has_sequence,
}

-- What `mutable` finds.
abbrev pub run_of : String → RunStore → MutableRun
run_of r store = run_or_empty r (map_get r store.runs)

abbrev pub exists : Option MutableRun → Bool
exists none = false
exists (some run) = true

abbrev pub has_run : String → RunStore → Bool
has_run r store = exists (map_get r store.runs)

-- The run after an event was received: the event is taken if it is the run's and is above what the
-- run has.
abbrev pub take_event : String → Option NormalizedRunEvent → MutableRun → MutableRun
take_event r none run = run
take_event r (some e) run =
    if e.run_id == r && ltb run.snapshot.highest_sequence e.sequence then with_event e run else run

abbrev pub take_marker : String → Bool → MatrixDeliveryMarker → MutableRun → MutableRun
take_marker r known marker run =
    if marker.run_id == r && known then (with_marker marker.sequence run).1 else run

pub run_of-set :
    (r k : String) (run : MutableRun) (rows : List (String × MutableRun))
    → run_or_empty r (map_get r (map_set k run rows))
      ≡ (if k == r then run else run_or_empty r (map_get r rows))
run_of-set r k run rows = elim (Bool-cases (k == r)) [
  | inl same ↦ rw (map_get-map_set r k run rows, same) refl
  | inr other ↦ rw (map_get-map_set r k run rows, other) refl
]

pub run_of-mutable :
    (r k : String) (store : RunStore) → run_of r (mutable k store).1 ≡ run_of r store
unfolding mutable
run_of-mutable r k store = elim (Bool-cases (k == r)) [
  | inl same ↦
      run_of-set r k _ store.runs
      ∙ rw same (ap (λ i. run_or_empty i (map_get i store.runs)) ((eq_iff k r).0 same))
  | inr other ↦ run_of-set r k _ store.runs ∙ rw other refl
]

own_event :
    (persistent : Bool) (e : NormalizedRunEvent) (store : RunStore)
    → run_of e.run_id (add_normalized persistent (some e) store).1
      ≡ take_event e.run_id (some e) (run_of e.run_id store)
unfolding mutable
own_event persistent e store = elim (Bool-cases (leb e.sequence high)) [
  | inl old ↦
      let below : ltb high e.sequence ≡ false = ground (arith, old) in
      rw (old, eq_self e.run_id, below) (run_of-mutable e.run_id e.run_id store)
  | inr new ↦
      let above : ltb high e.sequence ≡ true = ground (arith, new) in
      rw (new, eq_self e.run_id, above)
        (run_of-set e.run_id e.run_id _ _ ∙ rw (eq_self e.run_id) refl)
]
  where
    high : ℕ
    high = (run_of e.run_id store).snapshot.highest_sequence

pub run_of-add_normalized :
    (persistent : Bool) (r : String) (o : Option NormalizedRunEvent) (store : RunStore)
    → run_of r (add_normalized persistent o store).1 ≡ take_event r o (run_of r store)
unfolding mutable
run_of-add_normalized persistent r none store = refl
run_of-add_normalized persistent r (some e) store = elim (Bool-cases (e.run_id == r)) [
  | inl same ↦
      subst
        (λ k.
          run_of k (add_normalized persistent (some e) store).1
          ≡ take_event k (some e) (run_of k store))
        ((eq_iff e.run_id r).0 same) (own_event persistent e store)
  | inr other ↦ elim (Bool-cases (leb e.sequence high)) [
    | inl old ↦ rw (old, other) (run_of-mutable r e.run_id store)
    | inr new ↦
        rw (new, other) (run_of-set r e.run_id _ _ ∙ rw other (run_of-mutable r e.run_id store))
  ]
]
  where
    high : ℕ
    high = (run_of e.run_id store).snapshot.highest_sequence

pub run_of-mark_matrix_delivered :
    (persistent : Bool) (r : String) (marker : MatrixDeliveryMarker) (store : RunStore)
    → run_of r (mark_matrix_delivered persistent marker store).1
      ≡ take_marker r (has_run r store) marker (run_of r store)
unfolding mark_matrix_delivered
run_of-mark_matrix_delivered persistent r marker store = elim (Bool-cases (marker.run_id == r)) [
  | inl same ↦
      subst
        (λ k.
          run_of k (mark_matrix_delivered persistent marker store).1
          ≡ take_marker k (has_run k store) marker (run_of k store))
        ((eq_iff marker.run_id r).0 same) (own (map_get marker.run_id store.runs) refl)
  | inr other ↦ rw other (others (map_get marker.run_id store.runs) other)
]
  where
    put :
        (k : String) (m : Bool × MutableRun)
        → run_of k (put_marked persistent marker.run_id m store).1
          ≡ (if marker.run_id == k then m.1 else run_of k store)
    put k (true, run) = run_of-set k marker.run_id run store.runs
    put k (false, run) = run_of-set k marker.run_id run store.runs

    own :
        (o : Option MutableRun)
        → map_get marker.run_id store.runs ≡ o
        → run_of marker.run_id (mark_found persistent marker o store).1
          ≡ take_marker marker.run_id (exists o) marker (run_or_empty marker.run_id o)
    own none e = rw (eq_self marker.run_id, e) refl
    own (some run) e =
        put marker.run_id (with_marker marker.sequence run) ∙ rw (eq_self marker.run_id) refl

    others :
        (o : Option MutableRun)
        → (marker.run_id == r) ≡ false
        → run_of r (mark_found persistent marker o store).1 ≡ run_of r store
    others none h = refl
    others (some run) h = put r (with_marker marker.sequence run) ∙ rw h refl

-- The other uses keep every snapshot.
pub snapshot-get_run :
    (r id : String) (store : RunStore)
    → (run_of r (get_run id store).1).snapshot ≡ (run_of r store).snapshot
unfolding get_run
snapshot-get_run r id store = ap (λ (m : MutableRun). m.snapshot) (run_of-mutable r id store)

snapshot-set :
    (r k : String) (run : MutableRun) (store : RunStore)
    → run.snapshot ≡ (run_of k store).snapshot
    → (run_or_empty r (map_get r (map_set k run store.runs))).snapshot ≡ (run_of r store).snapshot
snapshot-set r k run store h = elim (Bool-cases (k == r)) [
  | inl same ↦
      rw (run_of-set r k run store.runs, same)
        (h ∙ ap (λ i. (run_of i store).snapshot) ((eq_iff k r).0 same))
  | inr other ↦ rw (run_of-set r k run store.runs, other) refl
]

pub snapshot-subscribe :
    (r id l : String) (store : RunStore)
    → (run_of r (subscribe id l store)).snapshot ≡ (run_of r store).snapshot
unfolding subscribe mutable
snapshot-subscribe r id l store =
    let there = (mutable id store).1 in
    snapshot-set r id _ there
      (sym (ap (λ (m : MutableRun). m.snapshot) (run_of-mutable id id store)))
    ∙ ap (λ (m : MutableRun). m.snapshot) (run_of-mutable r id store)

pub snapshot-unsubscribe :
    (r id l : String) (store : RunStore)
    → (run_of r (unsubscribe id l store)).snapshot ≡ (run_of r store).snapshot
unfolding unsubscribe
snapshot-unsubscribe r id l store = go (map_get id store.runs) refl
  where
    go :
        (o : Option MutableRun)
        → map_get id store.runs ≡ o
        → (run_of r (unsubscribe_found id l o store)).snapshot ≡ (run_of r store).snapshot
    go none e = refl
    go (some run) e = snapshot-set r id _ store (rw e refl)

-- A marker changes neither the events nor the highest sequence.
pub with_marker_keeps :
    (n : ℕ) (run : MutableRun)
    → ((with_marker n run).1.snapshot.events ≡ run.snapshot.events)
      × ((with_marker n run).1.snapshot.highest_sequence ≡ run.snapshot.highest_sequence)
unfolding with_marker
with_marker_keeps n run = elim (Bool-cases (has_sequence n run.snapshot.events)) [
  | inl there ↦ elim (Bool-cases (has n run.snapshot.matrix_delivered_sequences)) [
    | inl old ↦ rw (there, old) (refl, refl)
    | inr new ↦ rw (there, new) (refl, refl)
  ]
  | inr missing ↦
      elim (Bool-cases (leb n max_safe_integer && ltb run.snapshot.highest_sequence n)) [
        | inl later ↦ rw (missing, later) (refl, refl)
        | inr refused ↦ rw (missing, refused) (refl, refl)
      ]
]

exists-set :
    (r k : String) (run : MutableRun) (rows : List (String × MutableRun))
    → exists (map_get r rows) ≡ true
    → exists (map_get r (map_set k run rows)) ≡ true
exists-set r k run rows h = elim (Bool-cases (k == r)) [
  | inl same ↦ rw (map_get-map_set r k run rows, same) refl
  | inr other ↦ rw (map_get-map_set r k run rows, other) h
]

-- A run is never removed by an event.
pub has_run-add_normalized :
    (persistent : Bool) (r : String) (o : Option NormalizedRunEvent) (store : RunStore)
    → has_run r store ≡ true
    → has_run r (add_normalized persistent o store).1 ≡ true
unfolding mutable
has_run-add_normalized persistent r none store h = h
has_run-add_normalized persistent r (some e) store h =
    elim (Bool-cases (leb e.sequence (run_of e.run_id store).snapshot.highest_sequence)) [
      | inl old ↦ rw old (exists-set r e.run_id _ store.runs h)
      | inr new ↦ rw new (exists-set r e.run_id _ _ (exists-set r e.run_id _ store.runs h))
    ]
