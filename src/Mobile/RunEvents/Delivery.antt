-- ===== src/Mobile/RunEvents/Delivery.antt =====
-- apps/control-plane/src/app/api/runs/[runId]/events/route.ts and apps/mobile/src/api/run-events.ts:
-- what the control plane streams arrives in the client's store.
use matrix_agent_workspace.Prelude.{
  String, Bool, true, Option, some, List, [], ◌∷◌, ◌++◌, map, ◌≡◌, refl, ap, ◌∙◌, arith, ◌||◌,
  if◌then◌else◌, All,
}
use matrix_agent_workspace.Json.{Json}
use matrix_agent_workspace.Texts.{Chars, codes, all_not, all_not-append, concat}
use matrix_agent_workspace.Events.Service.{RunEventJson, json_of}
use matrix_agent_workspace.Events.Stream.{Sent, event, heartbeat, frame}
use matrix_agent_workspace.Mobile.SseFrames.{cut}
use matrix_agent_workspace.Mobile.SseFrames.RoundTrip.{Readable, block, read-encode, encode-clean}
use matrix_agent_workspace.Mobile.RunEvents.{
  Connection, consume_candidate, consume_frame, consume_loop,
}
use matrix_agent_workspace.Mobile.RunEvents.Chunks.{
  frames, frames-cut, consume_chunks, consume_chunks-concat, consume_text-clean,
}

module _ (is_date : String → Bool) (persistent : Bool) (run_id : String) where
  -- The client's view of what was sent: each event is offered to the store until a terminal one is
  -- there, or the connection is disposed.
  abbrev pub receive_one : Sent → Connection → Connection
  receive_one heartbeat c = c
  receive_one (event e) c =
      if c.terminal_received || c.disposed
      then c
      else consume_candidate is_date persistent run_id (some (json_of e)) c

  abbrev pub receive : List Sent → Connection → Connection
  receive [] c = c
  receive (s ∷ ss) c = receive ss (receive_one s c)

module _ (stringify : RunEventJson → Chars) (parse : Chars → Option Json) (is_date : String → Bool)
    (persistent : Bool) (run_id : String) where
  -- A frame of the run that can be read back.
  abbrev pub Sendable : Sent → Type 0
  Sendable heartbeat = Unit
  Sendable (event e) = Readable stringify parse e × (e.run_id ≡ run_id)

  abbrev pub wire : List Sent → Chars
  wire sent = concat (map (frame stringify) sent)

  abbrev body : Sent → Chars
  body heartbeat = codes ": heartbeat"
  body (event e) = block stringify e

  cut-frame : (s : Sent) (t : Chars) → Sendable s → cut (frame stringify s ++ t) ≡ some (body s, t)
  unfolding cut
  cut-frame heartbeat t h = refl
  cut-frame (event e) t (h, own) = (read-encode stringify parse e h t).0

  consume-body :
      (s : Sent) (c : Connection)
      → Sendable s
      → consume_frame parse is_date persistent run_id (body s) c
        ≡ receive_one is_date persistent run_id s c
  unfolding consume_frame
  consume-body heartbeat c h = ground arith
  consume-body (event e) c (h, own) = rw (← own, (read-encode stringify parse e h []).1) refl

  frames-wire :
      (sent : List Sent) (c : Connection)
      → All Sendable sent
      → frames parse is_date persistent run_id (wire sent) c
        ≡ (receive is_date persistent run_id sent c, [])
  unfolding consume_loop
  frames-wire [] c h = refl
  frames-wire (s ∷ sent) c (h, hs) =
      frames-cut parse is_date persistent run_id (wire (s ∷ sent)) c (cut-frame s (wire sent) h)
      ∙ ap (frames parse is_date persistent run_id (wire sent)) (consume-body s c h)
      ∙ frames-wire sent (receive_one is_date persistent run_id s c) hs

  frame-clean : (s : Sent) → Sendable s → all_not b'\r' (frame stringify s) ≡ true
  frame-clean heartbeat h = refl
  frame-clean (event e) (h, own) = encode-clean stringify parse e h

  wire-clean : (sent : List Sent) → All Sendable sent → all_not b'\r' (wire sent) ≡ true
  wire-clean [] h = refl
  wire-clean (s ∷ sent) (h, hs) = ground (
    arith,
    all_not-append b'\r' (frame stringify s) (wire sent),
    frame-clean s h,
    wire-clean sent hs,
  )

  parts-clean :
      (ts : List Chars) → all_not b'\r' (concat ts) ≡ true → All (λ t. all_not b'\r' t ≡ true) ts
  parts-clean [] h = tt
  parts-clean (t ∷ ts) h =
      let both = all_not-append b'\r' t (concat ts) in
      (ground (arith, h, both), parts-clean ts (ground (arith, h, both)))

  -- However the text of the frames that were sent is cut into chunks: when all have been consumed,
  -- nothing is left in the buffer, and the events were offered to the store in order, each until a
  -- terminal event is there or the connection is disposed, after which none is. Every event sent is
  -- the run's own, its type and its JSON text are single lines, `JSON.parse` reads the text back, and
  -- its sequence is a safe integer.
  pub consume_chunks-wire :
      (sent : List Sent) (ts : List Chars) (c : Connection)
      → All Sendable sent
      → concat ts ≡ wire sent
      → consume_chunks parse is_date persistent run_id ts [] c
        ≡ (receive is_date persistent run_id sent c, [])
  consume_chunks-wire sent ts c h e =
      let clean : all_not b'\r' (concat ts) ≡ true = rw e (wire-clean sent h) in
      consume_chunks-concat parse is_date persistent run_id ts c (parts-clean ts clean)
      ∙ consume_text-clean parse is_date persistent run_id (concat ts) [] c clean
      ∙ rw e (frames-wire sent c h)
