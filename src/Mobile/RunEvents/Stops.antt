-- ===== src/Mobile/RunEvents/Stops.antt =====
-- apps/mobile/src/api/run-events.ts: a connection that is disposed, or has seen the end, is silent.
use matrix_agent_workspace.Prelude.{
  ℕ, String, Bool, true, false, Option, List, [], ◌∷◌, ◌++◌, ◌≡◌, refl, sym, ap, ◌∙◌, ◌⊎◌, arith,
  nat_eq, leb, ◌||◌, Bool-cases, inl, inr,
}
use mathlib.Core.Bool.{true≢false}
use mathlib.Core.List.{append-nil}
use matrix_agent_workspace.Json.{Json}
use matrix_agent_workspace.Texts.{Chars}
use matrix_agent_workspace.Mobile.RunStore.{RunStore, get_run}
use matrix_agent_workspace.Mobile.RunEvents.{
  idle, Connection, Happening, queue_reconnect, consume_text, on_response, finish_reading,
  after_chunk, aborting, disposed_phase, happens, runs, connect, is_ok, has_terminal,
}
use matrix_agent_workspace.Mobile.RunEvents.Turns.{
  Turn, unchanged, turn_dispose, turn_loaded, turn_load_failed, turn_responded, turn_failed,
  turn_chunk, turn_ended, turn_whole, turn_timer, Turn-of, is_busy,
}
use matrix_agent_workspace.Mobile.RunEvents.Reading.{consume_text_stopped}

-- The same store and the same effects.
abbrev pub Silent : Connection → Connection → Type 0
Silent c d = (d.store ≡ c.store) × (d.effects ≡ c.effects)

queue_reconnect_stopped :
    (base longest bits : ℕ) (c : Connection)
    → (c.disposed || c.terminal_received) ≡ true
    → queue_reconnect base longest bits c ≡ record c { phase = idle }
unfolding queue_reconnect
queue_reconnect_stopped base longest bits c h = rw h refl

false_is : {b : Bool} → b ≡ false → b ≡ true → ⊥
false_is h k = true≢false (sym k ∙ h)

-- Disposed, or ended and at rest.
abbrev pub Stopped : Connection → Type 0
Stopped c = (c.disposed ≡ true) ⊎ ((c.terminal_received ≡ true) × (c.phase ≡ idle))

module _ (parse : Chars → Option Json) (is_date : String → Bool) (persistent : Bool)
    (run_id : String) (base longest : ℕ) where
  abbrev Goes : ℕ → Connection → Happening → Connection → Type 0
  Goes bits c h d = Turn parse is_date persistent run_id base longest bits c h d

  abbrev StaysDisposed : Connection → Connection → Type 0
  StaysDisposed c d = Silent c d × (d.disposed ≡ true)

  finish_disposed :
      (bits : ℕ) (text buffer : Chars) (c : Connection)
      → c.disposed ≡ true
      → StaysDisposed c
          (finish_reading parse is_date persistent run_id base longest bits text buffer c)
  finish_disposed bits text buffer c h =
      let stop : (c.terminal_received || c.disposed) ≡ true = ground (arith, h) in
      let stop' : (c.disposed || c.terminal_received) ≡ true = ground (arith, h) in
      rw
        (
          consume_text_stopped parse is_date persistent run_id text true buffer c stop,
          queue_reconnect_stopped base longest bits c stop',
        )
        ((refl, refl), h)

  chunk_disposed :
      (bits : ℕ) (tail : Chars) (c : Connection) (p : Connection × Chars)
      → p.0 ≡ c
      → c.disposed ≡ true
      → StaysDisposed c (after_chunk parse is_date persistent run_id base longest bits tail p)
  chunk_disposed bits tail c (d, rest) same e =
      let gone : d.disposed ≡ true = ap (λ (x : Connection). x.disposed) same ∙ e in
      let end : (d.disposed || d.terminal_received) ≡ true = ground (arith, gone) in
      rw (← same, end) (finish_disposed bits tail rest d gone)

  turn_disposed :
      (bits : ℕ) (c : Connection) (h : Happening) (d : Connection)
      → Goes bits c h d
      → c.disposed ≡ true
      → StaysDisposed c d
  turn_disposed bits c h d unchanged e = ((refl, refl), e)
  turn_disposed bits c h d turn_dispose e = rw e ((refl, refl), refl)
  turn_disposed bits c h d (turn_loaded found p) e = rw e ((refl, refl), refl)
  turn_disposed bits c h d (turn_load_failed p) e = rw e ((refl, refl), refl)
  turn_disposed bits c h d (turn_responded status streaming p) e = rw e ((refl, refl), refl)
  turn_disposed bits c h d (turn_failed is_abort p) e = rw e ((refl, refl), refl)
  turn_disposed bits c h d (turn_chunk text tail buffer p) e =
      let stop : (c.terminal_received || c.disposed) ≡ true = ground (arith, e) in
      chunk_disposed bits tail c (consume_text parse is_date persistent run_id text false buffer c)
        (consume_text_stopped parse is_date persistent run_id text false buffer c stop) e
  turn_disposed bits c h d (turn_ended tail buffer p) e = finish_disposed bits tail buffer c e
  turn_disposed bits c h d (turn_whole text p) e = finish_disposed bits text [] c e
  turn_disposed bits c h d (turn_timer p) e = rw e ((refl, refl), refl)

  -- At rest after the end, only the disposal is still taken.
  turn_ended_stops :
      (bits : ℕ) (c : Connection) (h : Happening) (d : Connection)
      → Goes bits c h d
      → c.terminal_received ≡ true
      → c.phase ≡ idle
      → Silent c d × Stopped d
  turn_ended_stops bits c h d unchanged e q = ((refl, refl), inr (e, q))
  turn_ended_stops bits c h d turn_dispose e q = elim (Bool-cases c.disposed) [
    | inl gone ↦ rw gone ((refl, refl), inl refl)
    | inr here ↦
        rw here ((refl, ap (λ p. c.effects ++ aborting p) q ∙ append-nil c.effects), inl refl)
  ]
  turn_ended_stops bits c h d (turn_loaded found p) e q = cc
  turn_ended_stops bits c h d (turn_load_failed p) e q = cc
  turn_ended_stops bits c h d (turn_responded status streaming p) e q = cc
  turn_ended_stops bits c h d (turn_failed is_abort p) e q = let b = ap is_busy q in cc
  turn_ended_stops bits c h d (turn_chunk text tail buffer p) e q = cc
  turn_ended_stops bits c h d (turn_ended tail buffer p) e q = cc
  turn_ended_stops bits c h d (turn_whole text p) e q = cc
  turn_ended_stops bits c h d (turn_timer p) e q = cc

  happens-Stopped :
      (bits : ℕ) (h : Happening) (c : Connection)
      → Stopped c
      → let d = happens parse is_date persistent run_id base longest bits h c in
        Silent c d × Stopped d
  unfolding happens
  happens-Stopped bits h c (inl gone) =
      let (silent, gone') =
        turn_disposed bits c h _
          (Turn-of parse is_date persistent run_id base longest bits c h c.phase refl) gone in
      (silent, inl gone')
  happens-Stopped bits h c (inr (over, at_rest)) =
      turn_ended_stops bits c h _
        (Turn-of parse is_date persistent run_id base longest bits c h c.phase refl) over at_rest

  runs-Stopped :
      (hs : List (ℕ × Happening)) (c : Connection)
      → Stopped c
      → Silent c (runs parse is_date persistent run_id base longest hs c)
  unfolding runs
  runs-Stopped [] c h = (refl, refl)
  runs-Stopped ((bits, h) ∷ hs) c stopped =
      let (now, stopped') = happens-Stopped bits h c stopped in
      let later = runs-Stopped hs _ stopped' in (later.0 ∙ now.0, later.1 ∙ now.1)

  -- After the end, a connection is at rest.
  abbrev Rests : Connection → Type 0
  Rests c = c.terminal_received ≡ true → c.phase ≡ idle

  queue_reconnect-Rests : (bits : ℕ) (c : Connection) → Rests (queue_reconnect base longest bits c)
  unfolding queue_reconnect
  queue_reconnect-Rests bits c = elim (Bool-cases (c.disposed || c.terminal_received)) [
    | inl stopped ↦ rw stopped (λ _. refl)
    | inr going ↦ rw going (λ e. absurd (false_is (ground (arith, going)) e))
  ]

  chunk-Rests :
      (bits : ℕ) (tail : Chars) (p : Connection × Chars)
      → Rests (after_chunk parse is_date persistent run_id base longest bits tail p)
  chunk-Rests bits tail (c, rest) = elim (Bool-cases (c.disposed || c.terminal_received)) [
    | inl stop ↦ rw stop (queue_reconnect-Rests bits _)
    | inr go ↦ rw go (λ e. absurd (false_is (ground (arith, go)) e))
  ]

  response-Rests :
      (bits status : ℕ) (streaming : Bool) (c : Connection)
      → (c.terminal_received ≡ true → ⊥)
      → Rests (on_response base longest bits status streaming c)
  response-Rests bits status streaming c never_over = elim (Bool-cases c.disposed) [
    | inl gone ↦ rw gone (λ _. refl)
    | inr here ↦ elim (Bool-cases (nat_eq status 401)) [
      | inl unauthorized ↦ rw (here, unauthorized) (λ _. refl)
      | inr authorized ↦ elim (Bool-cases (is_ok status)) [
        | inl ok ↦ rw (here, authorized, ok) (λ e. absurd (never_over e))
        | inr refused ↦ elim (Bool-cases (nat_eq status 429 || leb 500 status)) [
          | inl again ↦
              rw (here, authorized, refused, again)
                (queue_reconnect-Rests bits (record c { disposed = false }))
          | inr never ↦ rw (here, authorized, refused, never) (λ _. refl)
        ]
      ]
    ]
  ]

  turn-Rests :
      (bits : ℕ) (c : Connection) (h : Happening) (d : Connection)
      → Goes bits c h d
      → Rests c
      → Rests d
  turn-Rests bits c h d unchanged r = r
  turn-Rests bits c h d turn_dispose r = elim (Bool-cases c.disposed) [
    | inl gone ↦ rw gone r
    | inr here ↦ rw here (λ e. ap disposed_phase (r e))
  ]
  turn-Rests bits c h d (turn_loaded found p) r = elim (Bool-cases c.disposed) [
    | inl gone ↦ rw gone (λ _. refl)
    | inr here ↦ elim (Bool-cases found) [
      | inl session ↦ rw (here, session) (λ e. let q = r e in cc)
      | inr none' ↦ rw (here, none') (λ _. refl)
    ]
  ]
  turn-Rests bits c h d (turn_load_failed p) r = elim (Bool-cases (c.disposed || false)) [
    | inl stop ↦ rw stop (λ _. refl)
    | inr go ↦ rw go (queue_reconnect-Rests bits c)
  ]
  turn-Rests bits c h d (turn_responded status streaming p) r =
      response-Rests bits status streaming c (λ e. let q = r e in cc)
  turn-Rests bits c h d (turn_failed is_abort p) r = elim (Bool-cases (c.disposed || is_abort)) [
    | inl stop ↦ rw stop (λ _. refl)
    | inr go ↦ rw go (queue_reconnect-Rests bits c)
  ]
  turn-Rests bits c h d (turn_chunk text tail buffer p) r =
      chunk-Rests bits tail (consume_text parse is_date persistent run_id text false buffer c)
  turn-Rests bits c h d (turn_ended tail buffer p) r = queue_reconnect-Rests bits _
  turn-Rests bits c h d (turn_whole text p) r = queue_reconnect-Rests bits _
  turn-Rests bits c h d (turn_timer p) r = elim (Bool-cases (c.disposed || c.terminal_received)) [
    | inl stop ↦ rw stop (λ _. refl)
    | inr go ↦ rw go (λ e. absurd (false_is (ground (arith, go)) e))
  ]

  runs-Rests :
      (hs : List (ℕ × Happening)) (c : Connection)
      → Rests c
      → Rests (runs parse is_date persistent run_id base longest hs c)
  unfolding runs happens
  runs-Rests [] c r = r
  runs-Rests ((bits, h) ∷ hs) c r = runs-Rests hs _ (
      turn-Rests bits c h _
        (Turn-of parse is_date persistent run_id base longest bits c h c.phase refl) r)

  connect-Rests : (store : RunStore) → Rests (connect run_id store)
  unfolding connect
  connect-Rests store = elim (Bool-cases (has_terminal (get_run run_id store).0)) [
    | inl over ↦ rw over (λ _. refl)
    | inr going ↦ rw going (λ e. absurd (false_is refl e))
  ]

  -- Once a connection is disposed, or has received a terminal event, nothing that happens later makes
  -- it change the store, fetch, schedule a reconnect or touch the session.
  pub Silent-after_stop :
      (store : RunStore) (before after : List (ℕ × Happening))
      → let c = runs parse is_date persistent run_id base longest before (connect run_id store) in
        (c.disposed || c.terminal_received) ≡ true
        → Silent c (runs parse is_date persistent run_id base longest after c)
  Silent-after_stop store before after h =
      let rests = runs-Rests before (connect run_id store) (connect-Rests store) in
      let c = runs parse is_date persistent run_id base longest before (connect run_id store) in
      runs-Stopped after c (stopped c h rests)
    where
      stopped : (c : Connection) → (c.disposed || c.terminal_received) ≡ true → Rests c → Stopped c
      stopped c h rests = elim (Bool-cases c.disposed) [
        | inl gone ↦ inl gone
        | inr here ↦
            let over : c.terminal_received ≡ true = ground (arith, h, here) in
            inr (over, rests over)
      ]
