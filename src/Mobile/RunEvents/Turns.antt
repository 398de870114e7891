-- ===== src/Mobile/RunEvents/Turns.antt =====
-- apps/mobile/src/api/run-events.ts: the ways in which a happening changes a connection, and what the
-- reading of frames keeps.
use matrix_agent_workspace.Prelude.{ℕ, String, Bool, true, false, Option, ◌≡◌, refl}
use matrix_agent_workspace.Json.{Json}
use matrix_agent_workspace.Texts.{Chars}
use matrix_agent_workspace.Mobile.RunEvents.{
  Phase, idle, loading, fetching, reading, reading_whole, waiting, Connection, Happening,
  session_loaded, load_failed, responded, failed, chunk, ended, whole_text, timer, disposing,
  open_connection, on_failure, dispose, on_phase,
}

-- A request is under way.
abbrev pub is_busy : Phase → Bool
is_busy idle = false
is_busy loading = false
is_busy fetching = true
is_busy (reading buffer) = true
is_busy reading_whole = true
is_busy waiting = false

module _ (parse : Chars → Option Json) (is_date : String → Bool) (persistent : Bool)
    (run_id : String) (base longest : ℕ) (bits : ℕ) (c : Connection) where
  abbrev stepped : Happening → Phase → Connection
  stepped h phase = on_phase parse is_date persistent run_id base longest bits h phase c

  -- The steps that change something, each with the phase that it needs.
  pub data Turn : Happening → Connection → Type 0 where
    unchanged : {h : Happening} → Turn h c
    turn_dispose : Turn disposing (dispose c)
    turn_loaded :
        (found : Bool)
        → c.phase ≡ loading
        → Turn (session_loaded found) (stepped (session_loaded found) loading)
    turn_load_failed : c.phase ≡ loading → Turn load_failed (on_failure base longest bits false c)
    turn_responded :
        (status : ℕ) (streaming : Bool)
        → c.phase ≡ fetching
        → Turn (responded status streaming) (stepped (responded status streaming) fetching)
    turn_failed :
        (is_abort : Bool)
        → is_busy c.phase ≡ true
        → Turn (failed is_abort) (on_failure base longest bits is_abort c)
    turn_chunk :
        (text tail buffer : Chars)
        → c.phase ≡ reading buffer
        → Turn (chunk text tail) (stepped (chunk text tail) (reading buffer))
    turn_ended :
        (tail buffer : Chars)
        → c.phase ≡ reading buffer
        → Turn (ended tail) (stepped (ended tail) (reading buffer))
    turn_whole :
        (text : Chars)
        → c.phase ≡ reading_whole
        → Turn (whole_text text) (stepped (whole_text text) reading_whole)
    turn_timer : c.phase ≡ waiting → Turn timer (open_connection c)

  pub Turn-of : (h : Happening) (phase : Phase) → c.phase ≡ phase → Turn h (stepped h phase)
  Turn-of (session_loaded found) idle e = unchanged
  Turn-of (session_loaded found) loading e = turn_loaded found e
  Turn-of (session_loaded found) fetching e = unchanged
  Turn-of (session_loaded found) (reading buffer) e = unchanged
  Turn-of (session_loaded found) reading_whole e = unchanged
  Turn-of (session_loaded found) waiting e = unchanged
  Turn-of load_failed idle e = unchanged
  Turn-of load_failed loading e = turn_load_failed e
  Turn-of load_failed fetching e = unchanged
  Turn-of load_failed (reading buffer) e = unchanged
  Turn-of load_failed reading_whole e = unchanged
  Turn-of load_failed waiting e = unchanged
  Turn-of (responded status streaming) idle e = unchanged
  Turn-of (responded status streaming) loading e = unchanged
  Turn-of (responded status streaming) fetching e = turn_responded status streaming e
  Turn-of (responded status streaming) (reading buffer) e = unchanged
  Turn-of (responded status streaming) reading_whole e = unchanged
  Turn-of (responded status streaming) waiting e = unchanged
  Turn-of (failed is_abort) idle e = unchanged
  Turn-of (failed is_abort) loading e = unchanged
  Turn-of (failed is_abort) fetching e = turn_failed is_abort (rw e refl)
  Turn-of (failed is_abort) (reading buffer) e = turn_failed is_abort (rw e refl)
  Turn-of (failed is_abort) reading_whole e = turn_failed is_abort (rw e refl)
  Turn-of (failed is_abort) waiting e = unchanged
  Turn-of (chunk text tail) idle e = unchanged
  Turn-of (chunk text tail) loading e = unchanged
  Turn-of (chunk text tail) fetching e = unchanged
  Turn-of (chunk text tail) (reading buffer) e = turn_chunk text tail buffer e
  Turn-of (chunk text tail) reading_whole e = unchanged
  Turn-of (chunk text tail) waiting e = unchanged
  Turn-of (ended tail) idle e = unchanged
  Turn-of (ended tail) loading e = unchanged
  Turn-of (ended tail) fetching e = unchanged
  Turn-of (ended tail) (reading buffer) e = turn_ended tail buffer e
  Turn-of (ended tail) reading_whole e = unchanged
  Turn-of (ended tail) waiting e = unchanged
  Turn-of (whole_text text) idle e = unchanged
  Turn-of (whole_text text) loading e = unchanged
  Turn-of (whole_text text) fetching e = unchanged
  Turn-of (whole_text text) (reading buffer) e = unchanged
  Turn-of (whole_text text) reading_whole e = turn_whole text e
  Turn-of (whole_text text) waiting e = unchanged
  Turn-of timer idle e = unchanged
  Turn-of timer loading e = unchanged
  Turn-of timer fetching e = unchanged
  Turn-of timer (reading buffer) e = unchanged
  Turn-of timer reading_whole e = unchanged
  Turn-of timer waiting e = turn_timer e
  Turn-of disposing idle e = turn_dispose
  Turn-of disposing loading e = turn_dispose
  Turn-of disposing fetching e = turn_dispose
  Turn-of disposing (reading buffer) e = turn_dispose
  Turn-of disposing reading_whole e = turn_dispose
  Turn-of disposing waiting e = turn_dispose
