-- ===== src/Events/Stream/Guarantees.antt =====
-- apps/control-plane/src/app/api/runs/[runId]/events/route.ts: what a stream sends.
use matrix_agent_workspace.Prelude.{
  ℕ, String, Bool, true, false, Option, List, [], ◌∷◌, ◌++◌, map, take, drop, ◌≡◌, refl, sym, ap,
  ◌∙◌, take-drop, keep-append, All, subst,
}
use mathlib.Core.List.{append_assoc, append-nil, map-append}
use matrix_agent_workspace.Events.Service.{
  RunEventJson, StoredEvent, map_event_row, to_run_event, list_events_page, last_sequence,
  EventPage,
}
use matrix_agent_workspace.Events.Stream.{
  StreamRunEventsOptions, Round, Sent, event, heartbeat, Streamed, next_round, event_frame,
  stream_run_events,
}
use matrix_agent_workspace.Events.Stream.Pages.{
  rows_of, above, Climbs, above-Climbs, above-last_sequence, above-above, last_sequence-le,
  Climbs-left, page-events,
}

-- The events among the frames.
abbrev pub events_of : List Sent → List RunEventJson
events_of [] = []
events_of (event e ∷ sent) = e ∷ events_of sent
events_of (heartbeat ∷ sent) = events_of sent

events_of-append : (xs ys : List Sent) → events_of (xs ++ ys) ≡ events_of xs ++ events_of ys
events_of-append [] ys = refl
events_of-append (event e ∷ xs) ys = ap (λ es. e ∷ es) (events_of-append xs ys)
events_of-append (heartbeat ∷ xs) ys = events_of-append xs ys

abbrev pub run_event : (String → Option String) → String → StoredEvent → RunEventJson
run_event to_iso present row = to_run_event to_iso present (map_event_row row)

-- A round's table holds the rows of a beginning of the run's log, in whatever order.
abbrev pub Sees : String → List StoredEvent → Round → Type 0
Sees run_id log round = (more : List StoredEvent) × (rows_of run_id round.table ++ more ≡ log)

module _ (run_id : String) (log : List StoredEvent) (climbs : Climbs 0 log) (cursor limit : ℕ) where
  abbrev pub page_of : Round → List StoredEvent
  page_of round = take limit (above cursor (rows_of run_id round.table))

  pub rows_of-Climbs :
      (round : Round) → Sees run_id log round → Climbs 0 (rows_of run_id round.table)
  rows_of-Climbs round (more, h) =
      Climbs-left 0 (rows_of run_id round.table) more (subst (Climbs 0) (sym h) climbs)

  -- The page of a round and what is above it in the log.
  pub page_of-above :
      (round : Round)
      → Sees run_id log round
      → page_of round ++ above (last_sequence cursor (page_of round)) log ≡ above cursor log
  page_of-above round (more, h) = ap (λ xs. page_of round ++ xs) left_over ∙ sym whole
    where
      rows : List StoredEvent
      rows = above cursor (rows_of run_id round.table)

      rest : List StoredEvent
      rest = drop limit rows ++ above cursor more

      whole : above cursor log ≡ page_of round ++ rest
      whole =
          ap (above cursor) (sym h)
          ∙ keep-append _ (rows_of run_id round.table) more
          ∙ ap (λ xs. xs ++ above cursor more) (sym (take-drop limit rows))
          ∙ append_assoc (take limit rows) (drop limit rows) (above cursor more)

      rising : Climbs cursor (page_of round ++ rest)
      rising = subst (Climbs cursor) whole (above-Climbs 0 cursor log climbs)

      left_over : above (last_sequence cursor (page_of round)) log ≡ rest
      left_over =
          sym (
            above-above cursor (last_sequence cursor (page_of round)) log (
              last_sequence-le cursor (page_of round)
                (Climbs-left cursor (page_of round) rest rising)))
          ∙ ap (above (last_sequence cursor (page_of round))) whole
          ∙ above-last_sequence cursor (page_of round) rest rising

module _ (opts : StreamRunEventsOptions) (to_iso : String → Option String) (present run_id : String)
    (log : List StoredEvent) (climbs : Climbs 0 log) where
  events_of-map :
      (rows : List StoredEvent)
      → events_of (map (event_frame opts to_iso present run_id) rows)
        ≡ map (run_event to_iso present) rows
  events_of-map [] = refl
  events_of-map (r ∷ rs) = ap (λ es. run_event to_iso present r ∷ es) (events_of-map rs)

  -- A round keeps what holds of the later ones.
  next_round-sent :
      (terminal beats : Bool) (sent : List Sent) (cursor : ℕ) (later : Streamed)
      → events_of later.sent ++ map (run_event to_iso present) (above later.cursor log)
        ≡ map (run_event to_iso present) (above cursor log)
      → events_of (next_round terminal beats sent cursor later).sent
          ++ map
              (run_event to_iso present)
              (above (next_round terminal beats sent cursor later).cursor log)
        ≡ events_of sent ++ map (run_event to_iso present) (above cursor log)
  next_round-sent true beats sent cursor later h = refl
  next_round-sent false true sent cursor later h =
      rw
        (
          events_of-append (sent ++ heartbeat ∷ []) later.sent,
          events_of-append sent (heartbeat ∷ []),
          append-nil (events_of sent),
        )
        (append_assoc (events_of sent) (events_of later.sent) _ ∙ ap (λ es. events_of sent ++ es) h)
  next_round-sent false false sent cursor later h =
      rw (events_of-append sent later.sent)
        (append_assoc (events_of sent) (events_of later.sent) _ ∙ ap (λ es. events_of sent ++ es) h)

  -- Whatever a stream has sent when it is looked at: its events, followed by those of the log above
  -- its cursor, are those of the log above the cursor it began with. So it sends each event once, in
  -- the order of the sequences, without a gap. The sequences of the log rise strictly, and every
  -- round finds the run's rows to be those of a beginning of the log, in whatever order they stand.
  pub sent_in_order :
      (rounds : List Round) (cursor last_heartbeat_at : ℕ)
      → All (Sees run_id log) rounds
      → events_of
            (stream_run_events opts to_iso present run_id cursor last_heartbeat_at rounds).sent
          ++ map (run_event to_iso present) (
              above
                (stream_run_events opts to_iso present run_id cursor last_heartbeat_at
                  rounds).cursor
                log)
        ≡ map (run_event to_iso present) (above cursor log)
  unfolding stream_run_events
  sent_in_order [] cursor last h = refl
  sent_in_order (round ∷ rounds) cursor last h =
      next_round-sent _ _ sent _ _ (sent_in_order rounds _ _ h.1)
      ∙ rw (events_of-map page.events, page-events run_id cursor opts.replay_limit round.table)
          (sym (map-append (run_event to_iso present) _ _)
            ∙ ap (map (run_event to_iso present))
                (page_of-above run_id log climbs cursor opts.replay_limit round h.0))
    where
      page : EventPage
      page = list_events_page run_id cursor opts.replay_limit round.table

      sent : List Sent
      sent = map (event_frame opts to_iso present run_id) page.events
