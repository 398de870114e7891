-- ===== src/Mobile/RunEvents/Trying.antt =====
-- apps/mobile/src/api/run-events.ts: a connection goes on until there is a reason to stop, and waits a
-- bounded time before it asks again.
use matrix_agent_workspace.Prelude.{
  ℕ, String, Bool, true, false, Option, List, [], ◌∷◌, ◌≡◌, refl, sym, ◌∙◌, arith, nat_eq, leb,
  ◌&&◌, ◌||◌, not, Bool-cases, inl, inr, All,
}
use mathlib.Core.Bool.{true≢false}
use matrix_agent_workspace.Json.{Json}
use matrix_agent_workspace.Texts.{Chars}
use matrix_agent_workspace.Mobile.RunStore.{RunStore, get_run}
use matrix_agent_workspace.Mobile.RunEvents.{
  Phase, idle, loading, fetching, reading, reading_whole, waiting, Connection, Happening,
  session_loaded, load_failed, responded, failed, chunk, ended, whole_text, timer, disposing,
  queue_reconnect, consume_text, on_response, after_chunk, happens, runs, connect, is_ok,
  has_terminal,
}
use matrix_agent_workspace.Mobile.RunEvents.Turns.{
  Turn, unchanged, turn_dispose, turn_loaded, turn_load_failed, turn_responded, turn_failed,
  turn_chunk, turn_ended, turn_whole, turn_timer, Turn-of,
}

abbrev pub is_idle : Phase → Bool
is_idle idle = true
is_idle loading = false
is_idle fetching = false
is_idle (reading buffer) = false
is_idle reading_whole = false
is_idle waiting = false

-- Nothing that makes the client give up: there is a session, the answer is a stream, a 429 or a
-- server error, and no request is aborted from outside.
abbrev pub retryable : Happening → Bool
retryable (session_loaded found) = found
retryable (responded status streaming) =
    not (nat_eq status 401) && (is_ok status || (nat_eq status 429 || leb 500 status))
retryable (failed is_abort) = not is_abort
retryable load_failed = true
retryable (chunk text tail) = true
retryable (ended tail) = true
retryable (whole_text text) = true
retryable timer = true
retryable disposing = true

-- A connection that has not stopped is waiting for something.
abbrev pub Tries : Connection → Type 0
Tries c = (c.disposed || c.terminal_received) ≡ false → is_idle c.phase ≡ false

never : {b : Bool} {A : Type 0} → b ≡ true → b ≡ false → A
never h k = absurd (true≢false (sym h ∙ k))

queue_reconnect-Tries :
    (base longest bits : ℕ) (c : Connection) → Tries (queue_reconnect base longest bits c)
unfolding queue_reconnect
queue_reconnect-Tries base longest bits c = elim (Bool-cases (c.disposed || c.terminal_received)) [
  | inl stopped ↦ rw stopped (λ e. never stopped e)
  | inr going ↦ rw going (λ e. refl)
]

module _ (parse : Chars → Option Json) (is_date : String → Bool) (persistent : Bool)
    (run_id : String) (base longest : ℕ) where
  chunk-Tries :
      (bits : ℕ) (tail : Chars) (p : Connection × Chars)
      → Tries (after_chunk parse is_date persistent run_id base longest bits tail p)
  chunk-Tries bits tail (c, rest) = elim (Bool-cases (c.disposed || c.terminal_received)) [
    | inl stop ↦ rw stop (queue_reconnect-Tries base longest bits _)
    | inr go ↦ rw go (λ e. refl)
  ]

  response-Tries :
      (bits status : ℕ) (streaming : Bool) (c : Connection)
      → retryable (responded status streaming) ≡ true
      → Tries (on_response base longest bits status streaming c)
  response-Tries bits status streaming c ok = elim (Bool-cases c.disposed) [
    | inl gone ↦ rw gone (λ e. never refl e)
    | inr here ↦
        let authorized : nat_eq status 401 ≡ false = ground (arith, ok) in
        elim (Bool-cases (is_ok status)) [
          | inl fine ↦ elim (Bool-cases streaming) [
            | inl stream ↦ rw (here, authorized, fine, stream) (λ e. refl)
            | inr whole ↦ rw (here, authorized, fine, whole) (λ e. refl)
          ]
          | inr refused ↦
              let again : (nat_eq status 429 || leb 500 status) ≡ true =
                ground (arith, ok, refused) in
              rw (here, authorized, refused, again)
                (queue_reconnect-Tries base longest bits (record c { disposed = false }))
        ]
  ]

  Turn-Tries :
      (bits : ℕ) (c : Connection) (h : Happening) (d : Connection)
      → Turn parse is_date persistent run_id base longest bits c h d
      → retryable h ≡ true
      → Tries c
      → Tries d
  Turn-Tries bits c h d unchanged ok t = t
  Turn-Tries bits c h d turn_dispose ok t = elim (Bool-cases c.disposed) [
    | inl gone ↦ rw gone (λ e. never refl e)
    | inr here ↦ rw here (λ e. never refl e)
  ]
  Turn-Tries bits c h d (turn_loaded found p) ok t = elim (Bool-cases c.disposed) [
    | inl gone ↦ rw gone (λ e. never refl e)
    | inr here ↦ rw (here, ok) (λ e. refl)
  ]
  Turn-Tries bits c h d (turn_load_failed p) ok t = elim (Bool-cases (c.disposed || false)) [
    | inl stop ↦ rw stop (λ e. never (ground (arith, stop)) e)
    | inr go ↦ rw go (queue_reconnect-Tries base longest bits c)
  ]
  Turn-Tries bits c h d (turn_responded status streaming p) ok t =
      response-Tries bits status streaming c ok
  Turn-Tries bits c h d (turn_failed is_abort p) ok t = elim (Bool-cases (c.disposed || is_abort)) [
    | inl stop ↦ rw stop (λ e. never (ground (arith, stop, ok)) e)
    | inr go ↦ rw go (queue_reconnect-Tries base longest bits c)
  ]
  Turn-Tries bits c h d (turn_chunk text tail buffer p) ok t =
      chunk-Tries bits tail (consume_text parse is_date persistent run_id text false buffer c)
  Turn-Tries bits c h d (turn_ended tail buffer p) ok t = queue_reconnect-Tries base longest bits _
  Turn-Tries bits c h d (turn_whole text p) ok t = queue_reconnect-Tries base longest bits _
  Turn-Tries bits c h d (turn_timer p) ok t =
      elim (Bool-cases (c.disposed || c.terminal_received)) [
        | inl stop ↦ rw stop (λ e. never stop e)
        | inr go ↦ rw go (λ e. refl)
      ]

  runs-Tries :
      (hs : List (ℕ × Happening)) (c : Connection)
      → All (λ (h : ℕ × Happening). retryable h.1 ≡ true) hs
      → Tries c
      → Tries (runs parse is_date persistent run_id base longest hs c)
  unfolding runs happens
  runs-Tries [] c ok t = t
  runs-Tries ((bits, h) ∷ hs) c ok t = runs-Tries hs _ ok.1 (
      Turn-Tries bits c h _
        (Turn-of parse is_date persistent run_id base longest bits c h c.phase refl) ok.0 t)

  connect-Tries : (store : RunStore) → Tries (connect run_id store)
  unfolding connect
  connect-Tries store = elim (Bool-cases (has_terminal (get_run run_id store).0)) [
    | inl over ↦ rw over (λ e. never refl e)
    | inr going ↦ rw going (λ e. refl)
  ]

  -- A connection never gives up by itself: as long as there is a session, the answers are streams,
  -- 429 or server errors, and no request is aborted from outside, it is disposed, or has received a
  -- terminal event, or is loading the session, fetching, reading or waiting for a scheduled reconnect.
  pub connect-Tries_on :
      (store : RunStore) (hs : List (ℕ × Happening))
      → All (λ (h : ℕ × Happening). retryable h.1 ≡ true) hs
      → Tries (runs parse is_date persistent run_id base longest hs (connect run_id store))
  connect-Tries_on store hs ok = runs-Tries hs (connect run_id store) ok (connect-Tries store)
