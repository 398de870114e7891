-- ===== src/Mobile/SseFrames/RoundTrip.antt =====
-- apps/control-plane/src/events/sse-stream.ts and apps/mobile/src/api/run-events.ts: the client reads
-- the frames that the control plane writes.
use matrix_agent_workspace.Prelude.{
  ℕ, ◌^◌, ◌-◌, true, false, Option, none, some, [], ◌∷◌, ◌++◌, ◌≡◌, refl, arith, nat_eq, leb, ◌||◌,
  any,
}
use mathlib.Core.List.{append_assoc}
use matrix_agent_workspace.Json.{Json}
use matrix_agent_workspace.Texts.{
  Chars, codes, chars_eq, print, is_empty, all_digits, all_not, all_not-append,
}
use matrix_agent_workspace.Texts.Decimals.{print-digits, print-decimal, number-print}
use matrix_agent_workspace.Events.Service.{RunEventJson, json_of}
use matrix_agent_workspace.Events.Wire.{encode_event_frame}
use matrix_agent_workspace.Mobile.SseFrames.{
  Draft, starts_with_newline, split_lines, read_line, field_name, after_colon, parse_sse_frame,
  event_from_frame, cut, candidate_of,
}
use matrix_agent_workspace.Mobile.SseFrames.Cuts.{is_block, cut-block}

-- Neither a line feed nor a carriage return.
abbrev pub OneLine : Chars → Type 0
OneLine s = (all_not b'\n' s ≡ true) × (all_not b'\r' s ≡ true)

split_lines-one : (s : Chars) → OneLine s → split_lines s ≡ s ∷ []
unfolding split_lines
split_lines-one [] h = refl
split_lines-one (c ∷ s) (h, k) =
    let feed : nat_eq c b'\n' ≡ false = ground (arith, h) in
    let return : nat_eq c b'\r' ≡ false = ground (arith, k) in
    rw (feed, return, split_lines-one s (ground (arith, h), ground (arith, k))) refl

split_lines-append : (s t : Chars) → OneLine s → split_lines (s ++ b'\n' ∷ t) ≡ s ∷ split_lines t
unfolding split_lines
split_lines-append [] t h = refl
split_lines-append (c ∷ s) t (h, k) =
    let feed : nat_eq c b'\n' ≡ false = ground (arith, h) in
    let return : nat_eq c b'\r' ≡ false = ground (arith, k) in
    rw (feed, return, split_lines-append s t (ground (arith, h), ground (arith, k))) refl

is_block-one : (s : Chars) → all_not b'\n' s ≡ true → is_block s ≡ true
unfolding is_block
is_block-one [] h = refl
is_block-one (c ∷ s) h = ground (arith, h, is_block-one s (ground (arith, h)))

is_block-append :
    (s t : Chars)
    → all_not b'\n' s ≡ true
    → (is_empty t || starts_with_newline t) ≡ false
    → is_block t ≡ true
    → is_block (s ++ b'\n' ∷ t) ≡ true
unfolding is_block
is_block-append [] t h k b = ground (arith, k, b)
is_block-append (c ∷ s) t h k b = ground (arith, h, is_block-append s t (ground (arith, h)) k b)

digits-no : (c : ℕ) (s : Chars) → leb b'0' c ≡ false → all_digits s ≡ true → all_not c s ≡ true
digits-no c [] k h = refl
digits-no c (d ∷ s) k h = ground (arith, h, k, digits-no c s k (ground (arith, h)))

any-all_not : (c : ℕ) (s : Chars) → all_not c s ≡ true → any (nat_eq c) s ≡ false
any-all_not c [] h = refl
any-all_not c (d ∷ s) h = ground (arith, h, any-all_not c s (ground (arith, h)))

chars_eq_self : (s : Chars) → chars_eq s s ≡ true
chars_eq_self [] = refl
chars_eq_self (c ∷ s) = ground (arith, chars_eq_self s)

nat_eq_self : (n : ℕ) → nat_eq n n ≡ true
nat_eq_self n = ground arith

read-id :
    (n : ℕ) (d : Draft) → read_line (codes "id: " ++ print n) d ≡ record d { id = some (print n) }
unfolding read_line field_name after_colon
read-id n d = rw (any-all_not 0 (print n) (digits-no 0 (print n) refl (print-digits n))) refl

one-line-append : (s t : Chars) → OneLine s → OneLine t → OneLine (s ++ t)
one-line-append s t (h, k) (h', k') = (
  ground (arith, all_not-append b'\n' s t, h, h'),
  ground (arith, all_not-append b'\r' s t, k, k'),
)

-- What an event has to be for its frame to be read back: its type and its JSON text are single lines,
-- `JSON.parse` reads the text as the event, and its sequence is a safe integer. `JSON.stringify`
-- escapes control characters.
pub record Readable (stringify : RunEventJson → Chars) (parse : Chars → Option Json)
    (e : RunEventJson) : Type 0 where
  pub line_type : OneLine (codes e.type')
  pub line_text : OneLine (stringify e)
  pub parsed : parse (stringify e) ≡ some (json_of e)
  pub safe : leb e.sequence (2 ^ 53 - 1) ≡ true

module _ (stringify : RunEventJson → Chars) (e : RunEventJson) where
  -- The frame without its empty line.
  abbrev pub block : Chars
  block =
      codes "id: "
      ++ print e.sequence
      ++ b'\n' ∷ (codes "event: " ++ codes e.type' ++ b'\n' ∷ (codes "data: " ++ stringify e))

module _ (stringify : RunEventJson → Chars) (parse : Chars → Option Json) (e : RunEventJson)
    (ok : Readable stringify parse e) where
  pub encode-block :
      (t : Chars) → encode_event_frame stringify e ++ t ≡ block stringify e ++ b'\n' ∷ b'\n' ∷ t
  unfolding encode_event_frame
  encode-block t = simp append_assoc

  id-line : OneLine (codes "id: " ++ print e.sequence)
  id-line =
      let digits = print-digits e.sequence in
      one-line-append (codes "id: ") (print e.sequence) (refl, refl)
        (
          digits-no b'\n' (print e.sequence) refl digits,
          digits-no b'\r' (print e.sequence) refl digits,
        )

  event-line : OneLine (codes "event: " ++ codes e.type')
  event-line = one-line-append (codes "event: ") (codes e.type') (refl, refl) ok.line_type

  data-line : OneLine (codes "data: " ++ stringify e)
  data-line = one-line-append (codes "data: ") (stringify e) (refl, refl) ok.line_text

  pub block-is_block : is_block (block stringify e) ≡ true
  block-is_block = is_block-append (codes "id: " ++ print e.sequence) _ id-line.0 refl (
      is_block-append (codes "event: " ++ codes e.type') _ event-line.0 refl
        (is_block-one (codes "data: " ++ stringify e) data-line.0))

  parse-block :
      parse_sse_frame (block stringify e)
      ≡ some (record {
        id = some (print e.sequence);
        event = some (codes e.type');
        data' = stringify e;
      })
  unfolding parse_sse_frame
  parse-block =
      rw
        (
          split_lines-append (codes "id: " ++ print e.sequence)
              (codes "event: " ++ codes e.type' ++ b'\n' ∷ (codes "data: " ++ stringify e)) id-line,
          split_lines-append (codes "event: " ++ codes e.type') (codes "data: " ++ stringify e)
              event-line,
          split_lines-one (codes "data: " ++ stringify e) data-line,
          read-id e.sequence (record { id = none; event = none; data' = [] }),
        )
        refl

  -- The client reads from a frame of the control plane the event that was written.
  pub event_from_frame-block :
      event_from_frame parse
        (record { id = some (print e.sequence); event = some (codes e.type'); data' = stringify e })
        e.run_id
      ≡ some (json_of e)
  unfolding event_from_frame
  event_from_frame-block =
      rw
        (
          print-decimal e.sequence,
          number-print e.sequence,
          ok.safe,
          ok.parsed,
          chars_eq_self (codes e.run_id),
          chars_eq_self (codes e.type'),
          nat_eq_self e.sequence,
          ok.safe,
        )
        refl

  -- A frame of an event that the control plane writes is cut off at its empty line, and what the
  -- client reads from it is the event.
  pub read-encode :
      (t : Chars)
      → (cut (encode_event_frame stringify e ++ t) ≡ some ((block stringify e), t))
        × (candidate_of parse e.run_id (parse_sse_frame (block stringify e)) ≡ some (json_of e))
  read-encode t = (
    rw (encode-block t) (cut-block (block stringify e) t block-is_block),
    rw parse-block event_from_frame-block,
  )

  -- The frame has no carriage return.
  pub encode-clean : all_not b'\r' (encode_event_frame stringify e) ≡ true
  unfolding encode_event_frame
  encode-clean =
      let digits = digits-no b'\r' (print e.sequence) refl (print-digits e.sequence) in
      let kind = ok.line_type.1 in
      let text = ok.line_text.1 in simp (all_not-append, digits, kind, text)
