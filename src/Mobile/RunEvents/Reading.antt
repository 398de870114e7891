-- ===== src/Mobile/RunEvents/Reading.antt =====
-- apps/mobile/src/api/run-events.ts: what the reading of frames keeps of a connection.
use matrix_agent_workspace.Prelude.{
  ℕ, zero, suc, String, Bool, true, Option, none, some, ◌++◌, ◌≡◌, refl, ◌∙◌, ◌&&◌, ◌||◌, not,
  Bool-cases, inl, inr, length,
}
use matrix_agent_workspace.Json.{Json}
use matrix_agent_workspace.Texts.{Chars, is_empty, trim}
use matrix_agent_workspace.Mobile.SseFrames.{cut, candidate_of, parse_sse_frame, replace_crlf}
use matrix_agent_workspace.Mobile.RunEvents.{
  Connection, consume_candidate, consume_frame, next_frame, consume_loop, flush_rest, consume_text,
}

-- A connection that may only have another store, and with it another count and flag.
pub record Kept (c d : Connection) : Type 0 where
  pub disposed : d.disposed ≡ c.disposed
  pub phase : d.phase ≡ c.phase
  pub effects : d.effects ≡ c.effects

Kept-self : (c : Connection) → Kept c c
Kept-self c = record { disposed = refl; phase = refl; effects = refl }

Kept-trans : (c d e : Connection) → Kept c d → Kept d e → Kept c e
Kept-trans c d e h k = record {
  disposed = k.disposed ∙ h.disposed;
  phase = k.phase ∙ h.phase;
  effects = k.effects ∙ h.effects;
}

-- Every connection that a frame leads to satisfies what the connection itself does.
module _ (parse : Chars → Option Json) (is_date : String → Bool) (persistent : Bool)
    (run_id : String) where
  consume_candidate-Kept :
      (o : Option Json) (c : Connection) → Kept c (consume_candidate is_date persistent run_id o c)
  consume_candidate-Kept none c = Kept-self c
  consume_candidate-Kept (some j) c = record { disposed = refl; phase = refl; effects = refl }

  consume_frame-Kept :
      (raw : Chars) (c : Connection) → Kept c (consume_frame parse is_date persistent run_id raw c)
  unfolding consume_frame
  consume_frame-Kept raw c = elim (Bool-cases (c.terminal_received || c.disposed)) [
    | inl stopped ↦ rw stopped (Kept-self c)
    | inr going ↦
        rw going (consume_candidate-Kept (candidate_of parse run_id (parse_sse_frame raw)) c)
  ]

  consume_loop-Kept :
      (fuel : ℕ) (buffer : Chars) (c : Connection)
      → Kept c (consume_loop parse is_date persistent run_id fuel buffer c).0
  unfolding consume_loop
  consume_loop-Kept zero buffer c = Kept-self c
  consume_loop-Kept (suc fuel) buffer c = go (cut buffer) (λ rest d. consume_loop-Kept fuel rest d)
    where
      go :
          (o : Option (Chars × Chars))
          → ((rest : Chars) (d : Connection)
              → Kept d (consume_loop parse is_date persistent run_id fuel rest d).0)
          → Kept c
              (next_frame parse is_date persistent run_id
                (consume_loop parse is_date persistent run_id fuel)
                o
                buffer
                c).0
      go none ih = Kept-self c
      go (some (raw, rest)) ih =
          Kept-trans c (consume_frame parse is_date persistent run_id raw c) _
            (consume_frame-Kept raw c) (ih rest _)

  flush_rest-Kept :
      (flush : Bool) (p : Connection × Chars)
      → Kept p.0 (flush_rest parse is_date persistent run_id flush p).0
  flush_rest-Kept flush (c, buffer) = elim (Bool-cases (flush && not (is_empty (trim buffer)))) [
    | inl more ↦ rw more (consume_frame-Kept buffer c)
    | inr done ↦ rw done (Kept-self c)
  ]

  pub consume_text-Kept :
      (text : Chars) (flush : Bool) (buffer : Chars) (c : Connection)
      → Kept c (consume_text parse is_date persistent run_id text flush buffer c).0
  unfolding consume_text
  consume_text-Kept text flush buffer c =
      let whole = buffer ++ replace_crlf text in
      let p = consume_loop parse is_date persistent run_id (length whole) whole c in
      Kept-trans c p.0 _ (consume_loop-Kept (length whole) whole c) (flush_rest-Kept flush p)

  -- A connection that has stopped takes no frame.
  consume_frame_stopped :
      (raw : Chars) (c : Connection)
      → (c.terminal_received || c.disposed) ≡ true
      → consume_frame parse is_date persistent run_id raw c ≡ c
  unfolding consume_frame
  consume_frame_stopped raw c h = rw h refl

  consume_loop_stopped :
      (fuel : ℕ) (buffer : Chars) (c : Connection)
      → (c.terminal_received || c.disposed) ≡ true
      → (consume_loop parse is_date persistent run_id fuel buffer c).0 ≡ c
  unfolding consume_loop
  consume_loop_stopped zero buffer c h = refl
  consume_loop_stopped (suc fuel) buffer c h =
      go (cut buffer) (λ rest. consume_loop_stopped fuel rest c h)
    where
      go :
          (o : Option (Chars × Chars))
          → ((rest : Chars) → (consume_loop parse is_date persistent run_id fuel rest c).0 ≡ c)
          → (next_frame parse is_date persistent run_id
              (consume_loop parse is_date persistent run_id fuel)
              o
              buffer
              c).0
            ≡ c
      go none ih = refl
      go (some (raw, rest)) ih = rw (consume_frame_stopped raw c h) (ih rest)

  pub consume_text_stopped :
      (text : Chars) (flush : Bool) (buffer : Chars) (c : Connection)
      → (c.terminal_received || c.disposed) ≡ true
      → (consume_text parse is_date persistent run_id text flush buffer c).0 ≡ c
  unfolding consume_text
  consume_text_stopped text flush buffer c h =
      go (consume_loop parse is_date persistent run_id (length whole) whole c)
        (consume_loop_stopped (length whole) whole c h)
    where
      whole : Chars
      whole = buffer ++ replace_crlf text

      go :
          (p : Connection × Chars)
          → p.0 ≡ c
          → (flush_rest parse is_date persistent run_id flush p).0 ≡ c
      go (d, rest) e = elim (Bool-cases (flush && not (is_empty (trim rest)))) [
        | inl more ↦ rw (more, e) (consume_frame_stopped rest c h)
        | inr done ↦ rw done e
      ]
