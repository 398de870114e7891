-- ===== src/Events/Stream/Pages.antt =====
-- apps/control-plane/src/events/event-service.ts: a page of a run's events, when the run's rows are
-- numbered upwards.
use matrix_agent_workspace.Prelude.{
  ℕ, suc, ◌+◌, ◌<◌, ◌≤◌, String, true, false, List, [], ◌∷◌, ◌++◌, length, keep, take, sort_by, ltb,
  ◌==◌, ◌&&◌, ◌≡◌, refl, sym, ap, ◌∙◌, arith, Bool-cases, inl, inr, take-take, take-all,
  length-take, keep-sort_by,
}
use matrix_agent_workspace.Events.Service.{
  StoredEvent, select_events, list_events_page, last_sequence,
}

-- The run's rows.
abbrev pub own : String → List StoredEvent → List StoredEvent
own run_id table = keep (λ (r : StoredEvent). r.run_id == run_id) table

-- The run's rows in the order of their sequences, however the table keeps them.
abbrev pub rows_of : String → List StoredEvent → List StoredEvent
rows_of run_id table = sort_by (λ (r : StoredEvent). r.sequence) (own run_id table)

abbrev pub above : ℕ → List StoredEvent → List StoredEvent
above after rows = keep (λ (r : StoredEvent). ltb after r.sequence) rows

-- The sequences rise strictly, all above `low`.
abbrev pub Climbs : ℕ → List StoredEvent → Type 0
Climbs low [] = Unit
Climbs low (r ∷ rs) = (low < r.sequence) × Climbs r.sequence rs

pub above-own :
    (run_id : String) (after : ℕ) (table : List StoredEvent)
    → keep (λ (r : StoredEvent). r.run_id == run_id && ltb after r.sequence) table
      ≡ above after (own run_id table)
above-own run_id after [] = refl
above-own run_id after (r ∷ rs) = elim (Bool-cases (r.run_id == run_id)) [
  | inl mine ↦ elim (Bool-cases (ltb after r.sequence)) [
    | inl new ↦ rw (mine, new) (ap (λ xs. r ∷ xs) (above-own run_id after rs))
    | inr old ↦ rw (mine, old) (above-own run_id after rs)
  ]
  | inr other ↦ rw other (above-own run_id after rs)
]

pub above-all :
    (low after : ℕ) (rows : List StoredEvent)
    → Climbs low rows
    → after ≤ low
    → above after rows ≡ rows
above-all low after [] h le = refl
above-all low after (r ∷ rs) h le =
    let new : ltb after r.sequence ≡ true = ground (arith, h.0, le) in
    rw new (ap (λ xs. r ∷ xs) (above-all r.sequence after rs h.1 (omega (arith, h.0, le))))

pub above-Climbs :
    (low after : ℕ) (rows : List StoredEvent) → Climbs low rows → Climbs after (above after rows)
above-Climbs low after [] h = tt
above-Climbs low after (r ∷ rs) h = elim (Bool-cases (ltb after r.sequence)) [
  | inl new ↦
      rw (new, above-all r.sequence after rs h.1 (ground (arith, new))) (ground (arith, new), h.1)
  | inr old ↦ rw old (above-Climbs r.sequence after rs h.1)
]

pub last_sequence-le :
    (low : ℕ) (rows : List StoredEvent) → Climbs low rows → low ≤ last_sequence low rows
last_sequence-le low [] h = omega arith
last_sequence-le low (r ∷ rs) h = omega (arith, h.0, last_sequence-le r.sequence rs h.1)

pub Climbs-right :
    (low : ℕ) (xs ys : List StoredEvent) → Climbs low (xs ++ ys) → Climbs (last_sequence low xs) ys
Climbs-right low [] ys h = h
Climbs-right low (x ∷ xs) ys h = Climbs-right x.sequence xs ys h.1

pub Climbs-left : (low : ℕ) (xs ys : List StoredEvent) → Climbs low (xs ++ ys) → Climbs low xs
Climbs-left low [] ys h = tt
Climbs-left low (x ∷ xs) ys h = (h.0, Climbs-left x.sequence xs ys h.1)

-- Above the last of the first rows are the others.
pub above-last_sequence :
    (low : ℕ) (xs ys : List StoredEvent)
    → Climbs low (xs ++ ys)
    → above (last_sequence low xs) (xs ++ ys) ≡ ys
above-last_sequence low [] ys h = above-all low low ys h (omega arith)
above-last_sequence low (x ∷ xs) ys h =
    let le = last_sequence-le x.sequence xs (Climbs-left x.sequence xs ys h.1) in
    let old : ltb (last_sequence x.sequence xs) x.sequence ≡ false = ground (arith, le) in
    rw old (above-last_sequence x.sequence xs ys h.1)

pub above-above :
    (low high : ℕ) (rows : List StoredEvent)
    → low ≤ high
    → above high (above low rows) ≡ above high rows
above-above low high [] h = refl
above-above low high (r ∷ rs) h = elim (Bool-cases (ltb low r.sequence)) [
  | inl new ↦ elim (Bool-cases (ltb high r.sequence)) [
    | inl newer ↦ rw (new, newer) (ap (λ xs. r ∷ xs) (above-above low high rs h))
    | inr older ↦ rw (new, older) (above-above low high rs h)
  ]
  | inr old ↦
      let older : ltb high r.sequence ≡ false = ground (arith, old, h) in
      rw (old, older) (above-above low high rs h)
]

module _ (run_id : String) (after limit : ℕ) (table : List StoredEvent) where
  abbrev fresh : List StoredEvent
  fresh = above after (rows_of run_id table)

  selected : select_events run_id after (limit + 1) table ≡ take (limit + 1) fresh
  selected = rw (above-own run_id after table) (
      ap (take (limit + 1))
        (sym (keep-sort_by (λ (r : StoredEvent). r.sequence) after (own run_id table))))

  length-selected : ltb limit (length (take (limit + 1) fresh)) ≡ ltb limit (length fresh)
  length-selected = ground (arith, length-take (limit + 1) fresh)

  -- Of a run's rows a page has the first ones above the cursor, and knows whether there are more.
  pub page-events : (list_events_page run_id after limit table).events ≡ take limit fresh
  unfolding list_events_page
  page-events = rw selected (elim (Bool-cases (ltb limit (length fresh))) [
    | inl more ↦ rw (length-selected, more) (shorter ∙ take-take limit fresh)
    | inr whole ↦
        rw (length-selected, whole)
          (take-all (limit + 1) fresh (ground (arith, whole)) ∙ sym (take-all limit fresh whole))
  ])
    where
      shorter : take limit (take (limit + 1) fresh) ≡ take limit (take (suc limit) fresh)
      shorter = ap (λ n. take limit (take n fresh)) (omega arith)

  pub page-has_more :
      (list_events_page run_id after limit table).has_more ≡ ltb limit (length fresh)
  unfolding list_events_page
  page-has_more = rw selected length-selected
