-- ===== src/Mobile/RunStore/Deliveries.antt =====
-- apps/mobile/src/state/run-store.ts: a delivery marker and its event may come in either order.
use matrix_agent_workspace.Prelude.{
  ℕ, ◌<◌, String, Bool, true, false, Option, none, some, List, [], ◌∷◌, ◌++◌, ◌≡◌, refl, sym, ap,
  ◌∙◌, inl, inr, arith, leb, ltb, nat_eq, not, ◌&&◌, ◌||◌, ◌==◌, Bool-cases, eq_self,
}
use matrix_agent_workspace.Json.{Json, null, bool, num, other_num, str, arr, obj, get}
use matrix_agent_workspace.Mobile.RunStore.{
  NormalizedRunEvent, MatrixDeliveryMarker, MutableRun, RunStore, with_event, add_normalized,
  add_event, has, has_sequence, with_marker, mark_matrix_delivered, normalize_event, add,
  integer_from, when_visible, is_visible, text_of, record_of, date_of, ◌>>=◌, max_safe_integer,
  received, delivered, use_store, uses_store,
}
use matrix_agent_workspace.Mobile.RunStore.Order.{
  StoreInOrder, has_sequence-append, Rises, run_or_empty-InOrder,
}
use matrix_agent_workspace.Mobile.RunStore.Views.{
  run_of, has_run, take_event, run_of-add_normalized, run_of-mark_matrix_delivered,
  with_marker_keeps, has_run-add_normalized,
}

-- Which sequences a run shows as delivered, and which ones wait.
abbrev shown : ℕ → MutableRun → Bool
shown m run = has m run.snapshot.matrix_delivered_sequences

abbrev waits : ℕ → MutableRun → Bool
waits m run = has m run.pending_deliveries

has-append : (m n : ℕ) (ns : List ℕ) → has m (ns ++ n ∷ []) ≡ (has m ns || nat_eq m n)
has-append m n [] = ground arith
has-append m n (k ∷ ns) = ground (arith, has-append m n ns)

has-add : (m n : ℕ) (ns : List ℕ) → has m (add n ns) ≡ (has m ns || nat_eq m n)
has-add m n ns = elim (Bool-cases (has n ns)) [
  | inl there ↦ elim (Bool-cases (nat_eq m n)) [
    | inl same ↦ let same' : m ≡ n = ground (arith, same) in rw (there, same', there) refl
    | inr other ↦ ground (arith, there, other)
  ]
  | inr new ↦ rw new (has-append m n ns)
]

shown-with_event :
    (m : ℕ) (e : NormalizedRunEvent) (run : MutableRun)
    → shown m (with_event e run) ≡ (shown m run || (nat_eq m e.sequence && waits e.sequence run))
unfolding with_event
shown-with_event m e run = elim (Bool-cases (has e.sequence run.pending_deliveries)) [
  | inl there ↦
      rw there (has-add m e.sequence run.snapshot.matrix_delivered_sequences ∙ ground arith)
  | inr missing ↦ rw missing (ground arith)
]

shown-with_marker :
    (m n : ℕ) (run : MutableRun)
    → shown m (with_marker n run).1
      ≡ (shown m run || (nat_eq m n && has_sequence n run.snapshot.events))
unfolding with_marker
shown-with_marker m n run = elim (Bool-cases (has_sequence n run.snapshot.events)) [
  | inl there ↦ elim (Bool-cases (has n run.snapshot.matrix_delivered_sequences)) [
    | inl old ↦ elim (Bool-cases (nat_eq m n)) [
      | inl same ↦ let same' : m ≡ n = ground (arith, same) in rw (there, old, same', old) refl
      | inr other ↦ rw (there, old) (ground (arith, other))
    ]
    | inr new ↦ rw (there, new) (has-append m n _ ∙ ground arith)
  ]
  | inr missing ↦
      elim (Bool-cases (leb n max_safe_integer && ltb run.snapshot.highest_sequence n)) [
        | inl later ↦ rw (missing, later) (ground arith)
        | inr refused ↦ rw (missing, refused) (ground arith)
      ]
]

waits-with_marker :
    (m n : ℕ) (run : MutableRun)
    → waits m (with_marker n run).1 ≡ (
        waits m run
        || (nat_eq m n
            && (not (has_sequence n run.snapshot.events)
                && (leb n max_safe_integer && ltb run.snapshot.highest_sequence n))))
unfolding with_marker
waits-with_marker m n run = elim (Bool-cases (has_sequence n run.snapshot.events)) [
  | inl there ↦ elim (Bool-cases (has n run.snapshot.matrix_delivered_sequences)) [
    | inl old ↦ rw (there, old) (ground arith)
    | inr new ↦ rw (there, new) (ground arith)
  ]
  | inr missing ↦
      elim (Bool-cases (leb n max_safe_integer && ltb run.snapshot.highest_sequence n)) [
        | inl later ↦ rw (missing, later) (has-add m n run.pending_deliveries ∙ ground arith)
        | inr refused ↦ rw (missing, refused) (ground arith)
      ]
]

Rises-above :
    (low : ℕ) (es : List NormalizedRunEvent) (high n : ℕ)
    → Rises low es high
    → high < n
    → (low < n) × (has_sequence n es ≡ false)
Rises-above low [] high n h l = (omega (arith, h, l), refl)
Rises-above low (e ∷ es) high n h l =
    let (above, missing) = Rises-above e.sequence es high n h.1 l in
    (omega (arith, above, h.0), ground (arith, above, missing))

-- What the outside sees of a run: its events, and the set of its delivered sequences.
abbrev pub SameView : MutableRun → MutableRun → Type 0
SameView a b = (a.snapshot.events ≡ b.snapshot.events) × ((m : ℕ) → shown m a ≡ shown m b)

same_shown :
    (S P H : Bool) (m n s high : ℕ)
    → ltb high s ≡ true
    → leb s max_safe_integer ≡ true
    → (s ≡ n → H ≡ false)
    → ((S || (nat_eq m n && H))
        || (nat_eq m s && (P || (nat_eq s n && (not H && (leb n max_safe_integer && ltb high n))))))
      ≡ ((S || (nat_eq m s && P)) || (nat_eq m n && (H || nat_eq s n)))
same_shown S P H m n s high above safe new = elim (Bool-cases (nat_eq s n)) [
  | inl same ↦
      let here : s ≡ n = ground (arith, same) in
      let missing : H ≡ false = new here in rw (missing, ← here, above, safe) (ground arith)
  | inr other ↦ ground (arith, other)
]

with_event-with_marker :
    (n : ℕ) (e : NormalizedRunEvent) (run : MutableRun)
    → Rises 0 run.snapshot.events run.snapshot.highest_sequence
    → ltb run.snapshot.highest_sequence e.sequence ≡ true
    → leb e.sequence max_safe_integer ≡ true
    → SameView (with_event e (with_marker n run).1) (with_marker n (with_event e run)).1
unfolding with_event
with_event-with_marker n e run rises above safe = (
  ap (λ es. es ++ e ∷ []) (with_marker_keeps n run).0
      ∙ sym (with_marker_keeps n (with_event e run)).0,
  λ m.
      (shown-with_event m e (with_marker n run).1
        ∙ rw (shown-with_marker m n run, waits-with_marker e.sequence n run) refl)
      ∙ same_shown (shown m run) (waits e.sequence run) (has_sequence n run.snapshot.events) m n
          e.sequence run.snapshot.highest_sequence above safe
          (λ same.
            (Rises-above 0 run.snapshot.events run.snapshot.highest_sequence n rises
              (ground (arith, same, above))).1)
      ∙ sym (
          shown-with_marker m n (with_event e run)
          ∙ rw (shown-with_event m e run, has_sequence-append n run.snapshot.events e) refl),
)

bound :
    {A B : Type 0} (o : Option A) (f : A → Option B) {b : B}
    → (o >>= f) ≡ some b
    → (a : A) × ((o ≡ some a) × (f a ≡ some b))
bound none f h = cc
bound (some a) f h = (a, (refl, h))

integer_from-le :
    (least : ℕ) (j : Option Json) {n : ℕ}
    → integer_from least j ≡ some n
    → leb n max_safe_integer ≡ true
integer_from-le least none h = cc
integer_from-le least (some (num k)) {n} h =
    elim (Bool-cases (leb least k && leb k max_safe_integer)) [
      | inl fits ↦
          let h' : some k ≡ some n = rw fits at h in
          let same : k ≡ n = cc in rw (← same) (ground (arith, fits))
      | inr unfit ↦ let h' : none ≡ some n = rw unfit at h in cc
    ]
integer_from-le least (some null) h = cc
integer_from-le least (some (bool b)) h = cc
integer_from-le least (some other_num) h = cc
integer_from-le least (some (str s)) h = cc
integer_from-le least (some (arr is)) h = cc
integer_from-le least (some (obj fs)) h = cc

when_visible-same : (b : Bool) (d e : NormalizedRunEvent) → when_visible b d ≡ some e → d ≡ e
when_visible-same true d e h = cc
when_visible-same false d e h = cc

normalize_event-le :
    (is_date : String → Bool) (c : Json) {e : NormalizedRunEvent}
    → normalize_event is_date c ≡ some e
    → leb e.sequence max_safe_integer ≡ true
unfolding normalize_event
normalize_event-le is_date c {e} h0 =
    let (fields, (_, h1)) = bound (record_of (some c)) _ h0 in
    let (payload, (_, h2)) = bound (record_of (get "payload" fields)) _ h1 in
    let (id, (_, h3)) = bound (text_of (get "id" fields)) _ h2 in
    let (run_id, (_, h4)) = bound (text_of (get "runId" fields)) _ h3 in
    let (kind, (_, h5)) = bound (text_of (get "type" fields)) _ h4 in
    let (sequence, (q, h6)) = bound (integer_from 0 (get "sequence" fields)) _ h5 in
    let (version, (_, h7)) = bound (integer_from 1 (get "version" fields)) _ h6 in
    let (occurred_at, (_, h8)) = bound (date_of is_date (get "occurredAt" fields)) _ h7 in
    let same = when_visible-same (is_visible (get "visibility" fields)) _ e h8 in
    rw (← same) (integer_from-le 0 (get "sequence" fields) q)

take_event-with_marker :
    (r : String) (n : ℕ) (o : Option NormalizedRunEvent) (run : MutableRun)
    → Rises 0 run.snapshot.events run.snapshot.highest_sequence
    → ((e : NormalizedRunEvent) → o ≡ some e → leb e.sequence max_safe_integer ≡ true)
    → SameView (take_event r o (with_marker n run).1) (with_marker n (take_event r o run)).1
take_event-with_marker r n none run rises safe = (refl, λ m. refl)
take_event-with_marker r n (some e) run rises safe =
    elim (Bool-cases (e.run_id == r && ltb run.snapshot.highest_sequence e.sequence)) [
      | inl taken ↦
          rw ((with_marker_keeps n run).1, taken)
            (with_event-with_marker n e run rises (ground (arith, taken)) (safe e refl))
      | inr left_out ↦ rw ((with_marker_keeps n run).1, left_out) (refl, λ m. refl)
    ]

-- A marker and an event may come in either order: afterwards the marker's run shows the same events
-- and the same delivered sequences, whatever the event is, if the store holds the run before.
pub add_event-mark_matrix_delivered-SameView :
    (is_date : String → Bool) (persistent : Bool) (c : Json) (marker : MatrixDeliveryMarker)
    (store : RunStore)
    → StoreInOrder store
    → has_run marker.run_id store ≡ true
    → SameView
        (run_of marker.run_id
          (uses_store is_date persistent (delivered marker ∷ received c ∷ []) store))
        (run_of marker.run_id
          (uses_store is_date persistent (received c ∷ delivered marker ∷ []) store))
unfolding uses_store use_store add_event
add_event-mark_matrix_delivered-SameView is_date persistent c marker store h known =
    rw (first, second)
      (take_event-with_marker r marker.sequence o (run_of r store)
        (run_or_empty-InOrder r store h).rises (λ e. normalize_event-le is_date c))
  where
    r : String
    r = marker.run_id

    o : Option NormalizedRunEvent
    o = normalize_event is_date c

    first :
        run_of r (add_normalized persistent o (mark_matrix_delivered persistent marker store).1).1
        ≡ take_event r o (with_marker marker.sequence (run_of r store)).1
    first =
        run_of-add_normalized persistent r o (mark_matrix_delivered persistent marker store).1
        ∙ rw (run_of-mark_matrix_delivered persistent r marker store, known, eq_self r) refl

    second :
        run_of r (mark_matrix_delivered persistent marker (add_normalized persistent o store).1).1
        ≡ (with_marker marker.sequence (take_event r o (run_of r store))).1
    second =
        run_of-mark_matrix_delivered persistent r marker (add_normalized persistent o store).1
        ∙ rw
            (
              has_run-add_normalized persistent r o store known,
              run_of-add_normalized persistent r o store,
              eq_self r,
            )
            refl
