-- ===== src/Events/Stream/Endings.antt =====
-- apps/control-plane/src/app/api/runs/[runId]/events/route.ts: a stream ends, after the last event.
use matrix_agent_workspace.Prelude.{
  ℕ, ◌+◌, ◌<◌, ◌≤◌, String, Bool, true, false, not, Option, List, [], ◌∷◌, ◌++◌, map, length, ltb,
  ◌&&◌, ◌||◌, ◌≡◌, refl, sym, ap, ◌∙◌, arith, Bool-cases, inl, inr, take-all, length-take,
  length-append, All, All-append, subst,
}
use mathlib.Core.List.{append-nil}
use matrix_agent_workspace.Events.Service.{StoredEvent, EventPage, list_events_page, last_sequence}
use matrix_agent_workspace.Events.Stream.{
  StreamRunEventsOptions, Round, Sent, Streamed, is_over, next_round, stream_run_events,
}
use matrix_agent_workspace.Events.Stream.Pages.{
  rows_of, above, Climbs, above-Climbs, above-last_sequence, above-above, last_sequence-le,
  page-events, page-has_more,
}
use matrix_agent_workspace.Events.Stream.Guarantees.{
  Sees, page_of, rows_of-Climbs, page_of-above, run_event, events_of, sent_in_order,
}

next_round-closed :
    (terminal beats : Bool) (sent : List Sent) (cursor : ℕ) (later : Streamed)
    → (next_round terminal beats sent cursor later).closed ≡ (terminal || later.closed)
next_round-closed true beats sent cursor later = refl
next_round-closed false true sent cursor later = refl
next_round-closed false false sent cursor later = refl

-- A round that finds the run ended: its page comes after the end, so it sees the whole log.
abbrev pub Settled : String → List StoredEvent → Round → Type 0
Settled run_id log round = is_over round.status ≡ true → rows_of run_id round.table ≡ log

-- A round after the end.
abbrev pub Over : String → List StoredEvent → Round → Type 0
Over run_id log round = (is_over round.status ≡ true) × (rows_of run_id round.table ≡ log)

module _ (run_id : String) (log : List StoredEvent) (climbs : Climbs 0 log) (limit : ℕ) where
  -- What is left of the log after a round.
  length-above :
      (round : Round) (cursor : ℕ)
      → Sees run_id log round
      → length (page_of run_id log climbs cursor limit round)
          + length (above (last_sequence cursor (page_of run_id log climbs cursor limit round)) log)
        ≡ length (above cursor log)
  length-above round cursor sees =
      sym (length-append (page_of run_id log climbs cursor limit round) _)
      ∙ ap length (page_of-above run_id log climbs cursor limit round sees)

  -- The last page leaves nothing.
  nothing_left :
      (round : Round) (cursor : ℕ)
      → rows_of run_id round.table ≡ log
      → ltb limit (length (above cursor (rows_of run_id round.table))) ≡ false
      → above (last_sequence cursor (page_of run_id log climbs cursor limit round)) log ≡ []
  nothing_left round cursor whole last =
      rw (take-all limit (above cursor (rows_of run_id round.table)) last, whole)
        (sym (
            above-above cursor (last_sequence cursor rows) log
              (last_sequence-le cursor rows rising))
          ∙ ap (above (last_sequence cursor rows)) (sym (append-nil rows))
          ∙ above-last_sequence cursor rows []
              (subst (Climbs cursor) (sym (append-nil rows)) rising))
    where
      rows : List StoredEvent
      rows = above cursor log

      rising : Climbs cursor rows
      rising = above-Climbs 0 cursor log climbs

next_round-later :
    (beats : Bool) (sent : List Sent) (cursor : ℕ) (later : Streamed)
    → (next_round false beats sent cursor later).cursor ≡ later.cursor
next_round-later true sent cursor later = refl
next_round-later false sent cursor later = refl

module _ (opts : StreamRunEventsOptions) (to_iso : String → Option String) (present run_id : String)
    (log : List StoredEvent) (climbs : Climbs 0 log) where
  abbrev page : ℕ → Round → EventPage
  page cursor round = list_events_page run_id cursor opts.replay_limit round.table

  abbrev ends : ℕ → Round → Bool
  ends cursor round = not (page cursor round).has_more && is_over round.status

  -- The pages of a round that ends the stream.
  last_page :
      (round : Round) (cursor : ℕ)
      → Sees run_id log round
      → Settled run_id log round
      → ends cursor round ≡ true
      → above (last_sequence cursor (page cursor round).events) log ≡ []
  last_page round cursor sees settled e =
      let rising = rows_of-Climbs run_id log climbs cursor opts.replay_limit round sees in
      rw (page-events run_id cursor opts.replay_limit round.table) (
        nothing_left run_id log climbs opts.replay_limit round cursor (settled (ground (arith, e)))
          (ground (arith, e, page-has_more run_id cursor opts.replay_limit round.table)))

  closed_has_sent :
      (rounds : List Round) (cursor last_heartbeat_at : ℕ)
      → All (Sees run_id log) rounds
      → All (Settled run_id log) rounds
      → (stream_run_events opts to_iso present run_id cursor last_heartbeat_at rounds).closed ≡ true
      → above
          (stream_run_events opts to_iso present run_id cursor last_heartbeat_at rounds).cursor
          log
        ≡ []
  unfolding stream_run_events
  closed_has_sent [] cursor last sees settled e = cc
  closed_has_sent (round ∷ rounds) cursor last sees settled e =
      elim (Bool-cases (ends cursor round)) [
        | inl over ↦ rw over (last_page round cursor sees.0 settled.0 over)
        | inr goes_on ↦
            rw (goes_on, next_round-later)
              (closed_has_sent rounds _ _ sees.1 settled.1 (rw (goes_on, next_round-closed) at e))
      ]

  Over-Sees : (round : Round) → Over run_id log round → Sees run_id log round
  Over-Sees round h = ([], append-nil (rows_of run_id round.table) ∙ h.1)

  -- A round after the end that does not end the stream sends something.
  page-length :
      (round : Round) (cursor : ℕ)
      → 0 < opts.replay_limit
      → Over run_id log round
      → ends cursor round ≡ false
      → length (above (last_sequence cursor (page cursor round).events) log)
        < length (above cursor log)
  page-length round cursor positive over goes_on =
      let sees = Over-Sees round over in
      let rising = rows_of-Climbs run_id log climbs cursor opts.replay_limit round sees in
      let more = page-has_more run_id cursor opts.replay_limit round.table in
      let rest = length-above run_id log climbs opts.replay_limit round cursor sees in
      let some_rows = length-take opts.replay_limit (above cursor (rows_of run_id round.table)) in
      rw (page-events run_id cursor opts.replay_limit round.table)
        (ground (arith, positive, over.0, goes_on, more, rest, some_rows))

  closes_late :
      (late : List Round) (cursor last_heartbeat_at : ℕ)
      → 0 < opts.replay_limit
      → All (Over run_id log) late
      → length (above cursor log) < length late
      → (stream_run_events opts to_iso present run_id cursor last_heartbeat_at late).closed ≡ true
  unfolding stream_run_events
  closes_late [] cursor last positive over h = absurd (omega (arith, h))
  closes_late (round ∷ late) cursor last positive over h = elim (Bool-cases (ends cursor round)) [
    | inl ended ↦ rw ended refl
    | inr goes_on ↦
        let less = page-length round cursor positive over.0 goes_on in
        rw (goes_on, next_round-closed)
          (closes_late late _ _ positive over.1 (omega (arith, h, less)))
  ]

  length-above_le :
      (cursor : ℕ) (rows : List StoredEvent) → length (above cursor rows) ≤ length rows
  length-above_le cursor [] = omega arith
  length-above_le cursor (r ∷ rs) = ground (arith, length-above_le cursor rs)

  closes :
      (early late : List Round) (cursor last_heartbeat_at : ℕ)
      → 0 < opts.replay_limit
      → All (Over run_id log) late
      → length log < length late
      → (stream_run_events opts to_iso present run_id cursor last_heartbeat_at
          (early ++ late)).closed
        ≡ true
  unfolding stream_run_events
  closes [] late cursor last positive over h =
      closes_late late cursor last positive over (omega (arith, h, length-above_le cursor log))
  closes (round ∷ early) late cursor last positive over h = elim (Bool-cases (ends cursor round)) [
    | inl ended ↦ rw ended refl
    | inr goes_on ↦ rw (goes_on, next_round-closed) (closes early late _ _ positive over h)
  ]

  overs-Sees : (late : List Round) → All (Over run_id log) late → All (Sees run_id log) late
  overs-Sees [] h = tt
  overs-Sees (round ∷ late) h = (Over-Sees round h.0, overs-Sees late h.1)

  overs-Settled : (late : List Round) → All (Over run_id log) late → All (Settled run_id log) late
  overs-Settled [] h = tt
  overs-Settled (round ∷ late) h = (λ _. h.0.1, overs-Settled late h.1)

  -- A stream ends and has sent all: the run's rows are those of `log`, whose sequences rise strictly,
  -- every round sees a beginning of it, in whatever order the rows stand, and one that finds the run
  -- ended sees all of it. After at most as many rounds past the end as the
  -- log has rows, and one more, the stream has closed, and its events are those of the log above the
  -- cursor it began with, in order. The limit of a page is positive.
  pub closes_complete :
      (early late : List Round) (cursor last_heartbeat_at : ℕ)
      → 0 < opts.replay_limit
      → All (Sees run_id log) early
      → All (Settled run_id log) early
      → All (Over run_id log) late
      → length log < length late
      → let s =
          stream_run_events opts to_iso present run_id cursor last_heartbeat_at (early ++ late) in
        (s.closed ≡ true) × (events_of s.sent ≡ map (run_event to_iso present) (above cursor log))
  closes_complete early late cursor last positive sees settled over h =
      let closed = closes early late cursor last positive over h in
      let all_see = All-append _ early late sees (overs-Sees late over) in
      let all_settled = All-append _ early late settled (overs-Settled late over) in
      let done = closed_has_sent (early ++ late) cursor last all_see all_settled closed in
      let order =
        sent_in_order opts to_iso present run_id log climbs (early ++ late) cursor last all_see in
      (closed, sym (append-nil _) ∙ rw done at order)
