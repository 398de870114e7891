-- ===== src/Mobile/Tests.antt =====
-- The run store and a connection on concrete events.
use Prim.Native.Nat.{min}
use matrix_agent_workspace.Prelude.{
  ℕ, ◌*◌, ◌^◌, ◌≤◌, String, Bool, true, false, Option, some, List, [], ◌∷◌, ◌++◌, ◌≡◌, refl, arith,
  map_get, map_set,
}
use matrix_agent_workspace.Json.{Json, end}
use matrix_agent_workspace.Texts.{Chars, codes, concat, trim}
use matrix_agent_workspace.Events.Service.{RunEventJson, json_of}
use matrix_agent_workspace.Events.Wire.{encode_event_frame}
use matrix_agent_workspace.Events.Stream.{event, heartbeat, frame}
use matrix_agent_workspace.Mobile.RunStore.{
  RunStore, MatrixDeliveryMarker, Use, read, received, delivered, subscribed, empty_store,
  uses_store, use_store, get_run, mutable, add_event, normalize_event,
}
use matrix_agent_workspace.Mobile.RunStore.Order.{StoreInOrder}
use matrix_agent_workspace.Mobile.RunStore.Views.{run_of}
use matrix_agent_workspace.Mobile.RunStore.Guarantees.{
  uses_store-StoreInOrder, uses_store-received, rising, received_events,
}
use matrix_agent_workspace.Mobile.RunStore.Deliveries.{
  SameView, add_event-mark_matrix_delivered-SameView,
}
use matrix_agent_workspace.Mobile.SseFrames.{cut, parse_sse_frame, candidate_of, replace_crlf}
use matrix_agent_workspace.Mobile.SseFrames.RoundTrip.{Readable, block, read-encode}
use matrix_agent_workspace.Mobile.RunEvents.{
  Connection, reading, Happening, session_loaded, responded, failed, disposing, reconnect_delay,
  consume_text, consume_loop, happens, runs, connect,
}
use matrix_agent_workspace.Mobile.RunEvents.Chunks.{consume_chunks, consume_chunks-concat}
use matrix_agent_workspace.Mobile.RunEvents.Delivery.{receive, consume_chunks-wire}
use matrix_agent_workspace.Mobile.RunEvents.Stops.{Silent, Silent-after_stop}
use matrix_agent_workspace.Mobile.RunEvents.Trying.{Tries, connect-Tries_on}
use matrix_agent_workspace.Mobile.RunEvents.Delays.{reconnect_delay-le}

abbrev is_date : String → Bool
is_date s = true

abbrev first_event : RunEventJson
first_event = record {
  id = "e1";
  run_id = "r";
  sequence = 1;
  type' = "run.started";
  version = 1;
  occurred_at = "2026-01-01";
  visibility = "room_and_owner";
  payload = end;
}

abbrev marker : MatrixDeliveryMarker
marker = record { run_id = "r"; sequence = 1 }

abbrev some_uses : List Use
some_uses = subscribed "r" "screen" ∷ delivered marker ∷ received (json_of first_event) ∷ []

-- The store that has been asked for the run.
abbrev asked : RunStore
asked = uses_store is_date true (read "r" ∷ []) empty_store

uses_store-StoreInOrder_example : StoreInOrder (uses_store is_date true some_uses empty_store)
uses_store-StoreInOrder_example = uses_store-StoreInOrder is_date true some_uses empty_store tt

uses_store-received_example :
    (run_of "r" (uses_store is_date true some_uses empty_store)).snapshot.events
    ≡ (run_of "r" empty_store).snapshot.events
      ++ rising
          (run_of "r" empty_store).snapshot.highest_sequence
          (received_events is_date "r" some_uses)
uses_store-received_example = uses_store-received is_date true "r" some_uses empty_store

asked-InOrder : StoreInOrder asked
asked-InOrder = uses_store-StoreInOrder is_date true (read "r" ∷ []) empty_store tt

add_event-mark_matrix_delivered-SameView_example :
    SameView
      (run_of "r"
        (uses_store is_date true (delivered marker ∷ received (json_of first_event) ∷ []) asked))
      (run_of "r"
        (uses_store is_date true (received (json_of first_event) ∷ delivered marker ∷ []) asked))
unfolding uses_store use_store get_run mutable map_set map_get
add_event-mark_matrix_delivered-SameView_example =
    add_event-mark_matrix_delivered-SameView is_date true (json_of first_event) marker asked
      asked-InOrder refl

-- The JSON text and its reading, for this one event.
abbrev stringify : RunEventJson → Chars
stringify e = codes "{}"

abbrev parse : Chars → Option Json
parse s = some (json_of first_event)

first_event-Readable : Readable stringify parse first_event
first_event-Readable = record {
  line_type = (refl, refl);
  line_text = (refl, refl);
  parsed = refl;
  safe = refl;
}

read-encode_example :
    (cut (encode_event_frame stringify first_event ++ codes "id: 2")
      ≡ some (block stringify first_event, codes "id: 2"))
    × (candidate_of parse "r" (parse_sse_frame (block stringify first_event))
        ≡ some (json_of first_event))
read-encode_example = read-encode stringify parse first_event first_event-Readable (codes "id: 2")

-- A connection that reads a stream.
abbrev streaming : Connection
streaming = record (connect "r" empty_store) { phase = reading [] }

consume_chunks-concat_example :
    consume_chunks parse is_date true "r" (codes ": heart" ∷ codes "beat\n\nid" ∷ []) [] streaming
    ≡ consume_text parse is_date true "r"
        (concat (codes ": heart" ∷ codes "beat\n\nid" ∷ []))
        false
        []
        streaming
consume_chunks-concat_example =
    consume_chunks-concat parse is_date true "r" (codes ": heart" ∷ codes "beat\n\nid" ∷ [])
      streaming (refl, (refl, tt))

consume_chunks-wire_example :
    consume_chunks parse is_date true "r"
      (codes ": heart" ∷ (codes "beat\n\n" ++ frame stringify (event first_event)) ∷ [])
      []
      streaming
    ≡ (receive is_date true "r" (heartbeat ∷ event first_event ∷ []) streaming, [])
consume_chunks-wire_example =
    consume_chunks-wire stringify parse is_date true "r" (heartbeat ∷ event first_event ∷ [])
      (codes ": heart" ∷ (codes "beat\n\n" ++ frame stringify (event first_event)) ∷ []) streaming
      (tt, ((first_event-Readable, refl), tt)) refl

-- Carriage returns before the line feeds are replaced in each chunk by itself: one that is cut off
-- its line feed stays, and the empty line is not found.
split_crlf :
    (consume_chunks parse is_date true "r" (codes "data: x\r\n\r" ∷ codes "\n" ∷ []) [] streaming).1
    ≡ codes "data: x\n\r\n"
unfolding consume_text consume_loop replace_crlf cut trim
split_crlf = refl

abbrev opened : List (ℕ × Happening)
opened = (0, session_loaded true) ∷ (0, responded 200 true) ∷ (0, failed false) ∷ []

Silent-after_stop_example :
    Silent (runs parse is_date true "r" 500 8000 ((0, disposing) ∷ []) (connect "r" empty_store)) (
      runs parse is_date true "r" 500 8000 opened
        (runs parse is_date true "r" 500 8000 ((0, disposing) ∷ []) (connect "r" empty_store)))
unfolding runs happens connect get_run mutable map_set map_get
Silent-after_stop_example =
    Silent-after_stop parse is_date true "r" 500 8000 empty_store ((0, disposing) ∷ []) opened refl

connect-Tries_on_example :
    Tries (runs parse is_date true "r" 500 8000 opened (connect "r" empty_store))
connect-Tries_on_example =
    connect-Tries_on parse is_date true "r" 500 8000 empty_store opened (refl, (refl, (refl, tt)))

reconnect_delay-le_example :
    (100 ≤ reconnect_delay 500 8000 2 7)
    × ((reconnect_delay 500 8000 2 7 ≤ min 8000 (500 * 2 ^ 2))
        × ((min 8000 (500 * 2 ^ 2) ≤ 2 * reconnect_delay 500 8000 2 7)
            × (min 8000 (500 * 2 ^ 2) ≤ 8000)))
reconnect_delay-le_example = reconnect_delay-le 500 8000 2 7 (omega arith) (omega arith)

-- An event with the sequence 0 is well formed, but no store takes it.
zero_refused :
    (run_of "r" (
      uses_store is_date true
        (received (json_of (record first_event { sequence = 0 })) ∷ [])
        empty_store)).snapshot.events
    ≡ []
unfolding uses_store use_store add_event normalize_event mutable map_set map_get
zero_refused = refl
