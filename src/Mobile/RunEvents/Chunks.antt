-- ===== src/Mobile/RunEvents/Chunks.antt =====
-- apps/mobile/src/api/run-events.ts: how a stream's text is cut into chunks does not matter.
use matrix_agent_workspace.Prelude.{
  ℕ, zero, suc, ◌<◌, ◌≤◌, String, Bool, true, false, Option, none, some, List, [], ◌∷◌, ◌++◌, ◌≡◌,
  refl, sym, ap, ◌∙◌, arith, nat_eq, length, length-append, All,
}
use mathlib.Core.List.{append_assoc, append-nil}
use matrix_agent_workspace.Json.{Json}
use matrix_agent_workspace.Texts.{Chars, all_not, all_not-append, concat}
use matrix_agent_workspace.Mobile.SseFrames.{replace_crlf, cut}
use matrix_agent_workspace.Mobile.SseFrames.Cuts.{cut-append, length-cut, cut-nil}
use matrix_agent_workspace.Mobile.RunEvents.{
  Connection, consume_frame, next_frame, consume_loop, consume_text,
}

module _ (parse : Chars → Option Json) (is_date : String → Bool) (persistent : Bool)
    (run_id : String) where
  abbrev pub loop : ℕ → Chars → Connection → Connection × Chars
  loop = consume_loop parse is_date persistent run_id

  pub loop-nil : (f : ℕ) (c : Connection) → loop f [] c ≡ (c, [])
  unfolding consume_loop cut
  loop-nil zero c = refl
  loop-nil (suc f) c = refl

  -- One round for each character is enough.
  pub loop-fuel :
      (f g : ℕ) (buffer : Chars) (c : Connection)
      → length buffer ≤ f
      → length buffer ≤ g
      → loop f buffer c ≡ loop g buffer c
  unfolding consume_loop
  loop-fuel zero zero buffer c h k = refl
  loop-fuel zero (suc g) [] c h k = sym (loop-nil (suc g) c)
  loop-fuel zero (suc g) (x ∷ buffer) c h k = absurd (omega (arith, h))
  loop-fuel (suc f) zero [] c h k = loop-nil (suc f) c
  loop-fuel (suc f) zero (x ∷ buffer) c h k = absurd (omega (arith, k))
  loop-fuel (suc f) (suc g) buffer c h k =
      go (cut buffer) refl
        (λ rest d less. loop-fuel f g rest d (omega (arith, h, less)) (omega (arith, k, less)))
    where
      go :
          (o : Option (Chars × Chars))
          → cut buffer ≡ o
          → ((rest : Chars) (d : Connection)
              → length rest < length buffer
              → loop f rest d ≡ loop g rest d)
          → next_frame parse is_date persistent run_id (loop f) o buffer c
            ≡ next_frame parse is_date persistent run_id (loop g) o buffer c
      go none e ih = refl
      go (some (raw, rest)) e ih = ih rest _ (length-cut buffer e)

  -- The frames of a buffer, with the rest of it.
  abbrev pub frames : Chars → Connection → Connection × Chars
  frames buffer c = loop (length buffer) buffer c

  -- What comes first may be consumed first.
  loop-append :
      (f : ℕ) (first later : Chars) (c : Connection)
      → length first ≤ f
      → frames ((loop f first c).1 ++ later) (loop f first c).0 ≡ frames (first ++ later) c
  unfolding consume_loop
  loop-append zero [] later c h = refl
  loop-append zero (x ∷ first) later c h = absurd (omega (arith, h))
  loop-append (suc f) [] later c h =
      ap (λ (p : Connection × Chars). frames (p.1 ++ later) p.0) (loop-nil (suc f) c)
  loop-append (suc f) (x ∷ first) later c h =
      go (cut (x ∷ first)) refl (λ rest d less. loop-append f rest later d (omega (arith, h, less)))
    where
      go :
          (o : Option (Chars × Chars))
          → cut (x ∷ first) ≡ o
          → ((rest : Chars) (d : Connection)
              → length rest < length (x ∷ first)
              → frames ((loop f rest d).1 ++ later) (loop f rest d).0 ≡ frames (rest ++ later) d)
          → let p = next_frame parse is_date persistent run_id (loop f) o (x ∷ first) c in
            frames (p.1 ++ later) p.0 ≡ frames (x ∷ (first ++ later)) c
      go none e ih = refl
      go (some (raw, rest)) e ih =
          let less = length-cut (x ∷ first) e in
          ih rest _ less
          ∙ loop-fuel (length (rest ++ later)) (length (first ++ later)) (rest ++ later) _
              (omega arith)
              (omega (arith, less, length-append rest later, length-append first later))
          ∙ rw (cut-append (x ∷ first) later e) refl

  pub frames-append :
      (first later : Chars) (c : Connection)
      → frames ((frames first c).1 ++ later) (frames first c).0 ≡ frames (first ++ later) c
  frames-append first later c = loop-append (length first) first later c (omega arith)

  -- A frame that is cut off the buffer is consumed first.
  pub frames-cut :
      (buffer : Chars) (c : Connection) {raw rest : Chars}
      → cut buffer ≡ some (raw, rest)
      → frames buffer c ≡ frames rest (consume_frame parse is_date persistent run_id raw c)
  unfolding consume_loop
  frames-cut [] c e = let n = cut-nil in cc
  frames-cut (x ∷ buffer) c {raw} {rest} e = rw e (
      loop-fuel (length buffer) (length rest) rest _ (omega (arith, length-cut (x ∷ buffer) e))
        (omega arith))

  -- The chunks of a text, one after the other.
  abbrev pub consume_chunks : List Chars → Chars → Connection → Connection × Chars
  consume_chunks [] buffer c = (c, buffer)
  consume_chunks (t ∷ ts) buffer c =
      let p = consume_text parse is_date persistent run_id t false buffer c in
      consume_chunks ts p.1 p.0

  replace_crlf-clean : (t : Chars) → all_not b'\r' t ≡ true → replace_crlf t ≡ t
  unfolding replace_crlf
  replace_crlf-clean [] h = refl
  replace_crlf-clean (c ∷ t) h =
      let other : nat_eq c b'\r' ≡ false = ground (arith, h) in
      rw other (ap (λ s. c ∷ s) (replace_crlf-clean t (ground (arith, h))))

  pub consume_text-clean :
      (t buffer : Chars) (c : Connection)
      → all_not b'\r' t ≡ true
      → consume_text parse is_date persistent run_id t false buffer c ≡ frames (buffer ++ t) c
  unfolding consume_text
  consume_text-clean t buffer c h = rw (replace_crlf-clean t h) refl

  concat-clean :
      (ts : List Chars) → All (λ t. all_not b'\r' t ≡ true) ts → all_not b'\r' (concat ts) ≡ true
  concat-clean [] h = refl
  concat-clean (t ∷ ts) h =
      ground (arith, all_not-append b'\r' t (concat ts), h.0, concat-clean ts h.1)

  chunks-frames :
      (ts : List Chars) (buffer : Chars) (c : Connection)
      → All (λ t. all_not b'\r' t ≡ true) ts
      → consume_chunks ts (frames buffer c).1 (frames buffer c).0 ≡ frames (buffer ++ concat ts) c
  chunks-frames [] buffer c h = rw (append-nil buffer) refl
  chunks-frames (t ∷ ts) buffer c h =
      rw
        (
          consume_text-clean t (frames buffer c).1 (frames buffer c).0 h.0,
          frames-append buffer t c,
          ← append_assoc buffer t (concat ts),
        )
        (chunks-frames ts (buffer ++ t) c h.1)

  -- Where a text without carriage returns is cut into chunks does not matter: they leave the
  -- connection and the buffer as the whole text at once does.
  pub consume_chunks-concat :
      (ts : List Chars) (c : Connection)
      → All (λ t. all_not b'\r' t ≡ true) ts
      → consume_chunks ts [] c ≡ consume_text parse is_date persistent run_id (concat ts) false [] c
  consume_chunks-concat ts c h =
      ap (λ (p : Connection × Chars). consume_chunks ts p.1 p.0) (sym (loop-nil 0 c))
      ∙ chunks-frames ts [] c h
      ∙ sym (consume_text-clean (concat ts) [] c (concat-clean ts h))
