-- ===== src/Mobile/RunEvents.antt =====
-- apps/mobile/src/api/run-events.ts: one connection to a run's event stream. The test controls are
-- off, so `forceReconnectForTest` is not there.
pub mod Chunks
pub mod Delivery
pub mod Turns
pub mod Reading
pub mod Stops
pub mod Trying
pub mod Delays
use Prim.Native.Nat.{max}
use matrix_agent_workspace.Prelude.{
  ℕ, zero, suc, ◌+◌, ◌*◌, ◌/◌, ◌^◌, min, String, Bool, true, false, Option, none, some, List, [],
  ◌∷◌, ◌++◌, not, ◌&&◌, ◌||◌, ◌==◌, leb, ltb, nat_eq, any, if◌then◌else◌, length,
}
use matrix_agent_workspace.Json.{Json}
use matrix_agent_workspace.Texts.{Chars, codes, is_empty, trim}
use matrix_agent_workspace.Mobile.RunStore.{
  NormalizedRunEvent, RunSnapshot, RunStore, get_run, add_event,
}
use matrix_agent_workspace.Mobile.SseFrames.{
  SseFrame, parse_sse_frame, event_from_frame, candidate_of, replace_crlf, cut,
}

-- What `open` waits for. A reconnect is scheduled exactly while the phase is `waiting`.
pub data Phase : Type 0 where
  idle loading fetching : Phase
  -- A body that is read by chunks, with the buffer, and one that is read whole.
  reading : Chars → Phase
  reading_whole : Phase
  waiting : Phase

-- What the connection does to the outside: it asks for the events after a sequence, schedules a
-- reconnect after a delay, cancels it, lets the session expire, and aborts a request.
pub data Effect : Type 0 where
  fetched : ℕ → Effect
  scheduled : ℕ → Effect
  unscheduled expired aborted : Effect

pub record Connection : Type 0 where
  pub disposed : Bool
  pub terminal_received : Bool
  pub reconnect_attempt : ℕ
  pub phase : Phase
  pub store : RunStore
  pub effects : List Effect

-- What happens to a connection. A failure tells whether it is an `AbortError`. A chunk is decoded,
-- and `tail` is what the decoder still holds if the reading ends there.
pub data Happening : Type 0 where
  session_loaded : Bool → Happening
  load_failed : Happening
  responded : ℕ → Bool → Happening
  failed : Bool → Happening
  chunk : Chars → Chars → Happening
  ended : Chars → Happening
  whole_text : Chars → Happening
  timer : Happening
  disposing : Happening

abbrev pub is_terminal_type : String → Bool
is_terminal_type t =
    t == "run.completed" || (t == "run.partial" || (t == "run.failed" || t == "run.cancelled"))

abbrev pub has_terminal : RunSnapshot → Bool
has_terminal s = any (λ (e : NormalizedRunEvent). is_terminal_type e.type') s.events

-- The delays, as `createRunEventClient` corrects them. `given` is the option or its default.
abbrev pub base_delay : ℕ → ℕ
base_delay given = max 100 given

abbrev pub max_delay : ℕ → ℕ → ℕ
max_delay base given = max base given

-- The random number is `bits / 2 ^ 53`, and is cut at 1; `Math.round` rounds halves up.
unfoldable pub reconnect_delay : ℕ → ℕ → ℕ → ℕ → ℕ
reconnect_delay base longest attempt bits =
    let exponential = min longest (base * 2 ^ attempt) in
    let rounded = (2 * exponential * (2 ^ 53 + min (2 ^ 53) bits) + 2 ^ 54) / 2 ^ 55 in
    min longest (max 100 rounded)

module _ (base longest : ℕ) where
  unfoldable pub queue_reconnect : ℕ → Connection → Connection
  unfolding reconnect_delay
  queue_reconnect bits c =
      if c.disposed || c.terminal_received then record c { phase = idle } else (record c {
        phase = waiting;
        reconnect_attempt = min (c.reconnect_attempt + 1) 30;
        effects =
            c.effects ++ scheduled (reconnect_delay base longest c.reconnect_attempt bits) ∷ [];
      })

-- `is_date` is as in the run store.
module _ (is_date : String → Bool) (persistent : Bool) (run_id : String) where
  abbrev after_adding : Bool × RunStore → Connection → Connection
  after_adding (added, store) c =
      let (snapshot, store') = get_run run_id store in
      record c {
        reconnect_attempt = if added then 0 else c.reconnect_attempt;
        terminal_received = has_terminal snapshot;
        store = store';
      }

  abbrev pub consume_candidate : Option Json → Connection → Connection
  consume_candidate none c = c
  consume_candidate (some candidate) c =
      after_adding (add_event is_date persistent candidate c.store) c

-- `parse` is `JSON.parse`, none where it throws.
module _ (parse : Chars → Option Json) (is_date : String → Bool) (persistent : Bool)
    (run_id : String) where
  unfoldable pub consume_frame : Chars → Connection → Connection
  unfolding parse_sse_frame event_from_frame add_event get_run
  consume_frame raw c =
      if c.terminal_received || c.disposed
      then c
      else consume_candidate is_date persistent run_id
          (candidate_of parse run_id (parse_sse_frame raw)) c

  abbrev pub next_frame :
      (Chars → Connection → Connection × Chars)
      → Option (Chars × Chars)
      → Chars
      → Connection
      → Connection × Chars
  next_frame continue none buffer c = (c, buffer)
  next_frame continue (some (raw, rest)) buffer c = continue rest (consume_frame raw c)

  -- The loop over the empty lines, with the rest of the buffer. Each round shortens the buffer.
  unfoldable pub consume_loop : ℕ → Chars → Connection → Connection × Chars
  unfolding consume_frame cut
  consume_loop zero buffer c = (c, buffer)
  consume_loop (suc fuel) buffer c = next_frame (consume_loop fuel) (cut buffer) buffer c

  -- `if (flush && state.buffer.trim())`.
  abbrev flush_rest : Bool → Connection × Chars → Connection × Chars
  flush_rest flush (c, buffer) =
      if flush && not (is_empty (trim buffer)) then (consume_frame buffer c, []) else (c, buffer)

  unfoldable pub consume_text : Chars → Bool → Chars → Connection → Connection × Chars
  unfolding consume_loop replace_crlf trim
  consume_text text flush buffer c =
      let buffer' = buffer ++ replace_crlf text in
      flush_rest flush (consume_loop (length buffer') buffer' c)

abbrev open_connection : Connection → Connection
open_connection c =
    if c.disposed || c.terminal_received
    then record c { phase = idle }
    else record c { phase = loading }

-- `expireControlPlaneSession`: the session is cleared and `onUnauthorized` called, in one step.
abbrev expire_session : Connection → Connection
expire_session c = record c { phase = idle; effects = c.effects ++ expired ∷ [] }

-- `response.ok`.
abbrev is_ok : ℕ → Bool
is_ok status = leb 200 status && leb status 299

-- The abort of a request that has ended does nothing and is left out.
abbrev aborting : Phase → List Effect
aborting idle = []
aborting loading = []
aborting fetching = aborted ∷ []
aborting (reading buffer) = aborted ∷ []
aborting reading_whole = aborted ∷ []
aborting waiting = unscheduled ∷ []

abbrev disposed_phase : Phase → Phase
disposed_phase waiting = idle
disposed_phase phase = phase

abbrev dispose : Connection → Connection
dispose c = if c.disposed then c else (record c {
  disposed = true;
  phase = disposed_phase c.phase;
  effects = c.effects ++ aborting c.phase;
})

-- `run_id` is the connection's.
module _ (run_id : String) where
  abbrev fetch_events : Connection → Connection
  fetch_events c =
      let (snapshot, store') = get_run run_id c.store in
      record c {
        phase = fetching;
        store = store';
        effects = c.effects ++ fetched snapshot.highest_sequence ∷ [];
      }

module _ (base longest : ℕ) where
  abbrev on_response : ℕ → ℕ → Bool → Connection → Connection
  on_response bits status streaming c =
      if c.disposed
      then record c { phase = idle }
      else if nat_eq status 401
      then expire_session c
      else if is_ok status
      then record c { phase = if streaming then reading [] else reading_whole }
      else if nat_eq status 429 || leb 500 status
      then queue_reconnect base longest bits c
      else record c { phase = idle }

  -- The `catch` of `open`.
  abbrev on_failure : ℕ → Bool → Connection → Connection
  on_failure bits is_abort c =
      if c.disposed || is_abort
      then record c { phase = idle }
      else queue_reconnect base longest bits c

module _ (parse : Chars → Option Json) (is_date : String → Bool) (persistent : Bool)
    (run_id : String) (base longest : ℕ) where
  -- The end of the body: the rest is flushed, and a reconnect is queued.
  abbrev finish_reading : ℕ → Chars → Chars → Connection → Connection
  finish_reading bits text buffer c =
      queue_reconnect base longest bits
        (consume_text parse is_date persistent run_id text true buffer c).0

  abbrev after_chunk : ℕ → Chars → Connection × Chars → Connection
  after_chunk bits tail (c, buffer) =
      if c.disposed || c.terminal_received
      then finish_reading bits tail buffer c
      else record c { phase = reading buffer }

  -- One happening in the phase that waits for it; any other changes nothing. `bits` is the random
  -- number if the step draws one.
  abbrev on_phase : ℕ → Happening → Phase → Connection → Connection
  on_phase bits (session_loaded found) loading c =
      if c.disposed
      then record c { phase = idle }
      else if found
      then fetch_events run_id c
      else expire_session c
  on_phase bits load_failed loading c = on_failure base longest bits false c
  on_phase bits (responded status streaming) fetching c =
      on_response base longest bits status streaming c
  on_phase bits (failed is_abort) fetching c = on_failure base longest bits is_abort c
  on_phase bits (chunk text tail) (reading buffer) c =
      after_chunk bits tail (consume_text parse is_date persistent run_id text false buffer c)
  on_phase bits (ended tail) (reading buffer) c = finish_reading bits tail buffer c
  on_phase bits (failed is_abort) (reading buffer) c = on_failure base longest bits is_abort c
  on_phase bits (whole_text text) reading_whole c = finish_reading bits text [] c
  on_phase bits (failed is_abort) reading_whole c = on_failure base longest bits is_abort c
  on_phase bits timer waiting c = open_connection c
  on_phase bits disposing _ c = dispose c
  on_phase bits _ _ c = c

  unfoldable pub happens : ℕ → Happening → Connection → Connection
  unfolding queue_reconnect consume_text get_run
  happens bits h c = on_phase bits h c.phase c

  unfoldable pub runs : List (ℕ × Happening) → Connection → Connection
  unfolding happens
  runs [] c = c
  runs ((bits, h) ∷ hs) c = runs hs (happens bits h c)

module _ (run_id : String) where
  unfoldable pub connect : RunStore → Connection
  unfolding get_run
  connect store =
      let (snapshot, store') = get_run run_id store in
      open_connection (record {
        disposed = false;
        terminal_received = has_terminal snapshot;
        reconnect_attempt = 0;
        phase = idle;
        store = store';
        effects = [];
      })
