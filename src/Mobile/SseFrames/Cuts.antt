-- ===== src/Mobile/SseFrames/Cuts.antt =====
-- apps/mobile/src/api/run-events.ts: where the first empty line of a text is.
use matrix_agent_workspace.Prelude.{
  ℕ, ◌<◌, Bool, true, false, Option, none, some, [], ◌∷◌, ◌++◌, ◌≡◌, refl, sym, ap, arith, nat_eq,
  ◌&&◌, Bool-cases, inl, inr, length, not, ◌||◌, if◌then◌else◌,
}
use matrix_agent_workspace.Texts.{Chars, is_empty}
use matrix_agent_workspace.Mobile.SseFrames.{starts_with_newline, with_char, rest_of, cut}

cut-step :
    (c : ℕ) (s : Chars)
    → cut (c ∷ s) ≡ (
        if nat_eq c b'\n' && starts_with_newline s
        then some ([], rest_of s)
        else with_char c (cut s))
unfolding cut
cut-step c s = refl

with_char-some :
    (c : ℕ) (o : Option (Chars × Chars)) {before after : Chars}
    → with_char c o ≡ some (before, after)
    → (b : Chars) × ((o ≡ some (b, after)) × (before ≡ c ∷ b))
with_char-some c none h = cc
with_char-some c (some (b, a)) {before} {after} h =
    let e : (c ∷ b, a) ≡ (before, after) = cc in
    (
      b,
      (
        ap (λ x. some (b, x)) (ap (λ (p : Chars × Chars). p.1) e),
        sym (ap (λ (p : Chars × Chars). p.0) e),
      ),
    )

pub cut-nil : cut [] ≡ none
unfolding cut
cut-nil = refl

cut-single : (c : ℕ) → cut (c ∷ []) ≡ none
unfolding cut
cut-single c = elim (Bool-cases (nat_eq c b'\n')) [
  | inl newline ↦ ground (arith, newline)
  | inr other ↦ ground (arith, other)
]

same_parts :
    {a b c d : Chars}
    → ◌≡◌ {A = Option (Chars × Chars)} (some (a, b)) (some (c, d))
    → (a ≡ c) × (b ≡ d)
same_parts {a} {b} h = (
  ap (λ (o : Option (Chars × Chars)). elim o [ none ↦ a | some p ↦ p.0 ]) h,
  ap (λ (o : Option (Chars × Chars)). elim o [ none ↦ b | some p ↦ p.1 ]) h,
)

-- What is cut does not depend on what follows.
pub cut-append :
    (s t : Chars) {before after : Chars}
    → cut s ≡ some (before, after)
    → cut (s ++ t) ≡ some (before, after ++ t)
cut-append [] t h = let e = cut-nil in cc
cut-append (c ∷ []) t h = let e = cut-single c in cc
cut-append (c ∷ d ∷ s) t {before} {after} h = elim (Bool-cases (nat_eq c b'\n' && nat_eq d b'\n')) [
  | inl here ↦
      let h' = rw (cut-step c (d ∷ s), here) at h in
      let (e, f) = same_parts h' in rw (cut-step c (d ∷ s ++ t), here, ← e, ← f) refl
  | inr later ↦
      let (b, (found, e)) = with_char-some c (cut (d ∷ s)) (rw (cut-step c (d ∷ s), later) at h) in
      rw (cut-step c (d ∷ s ++ t), later, cut-append (d ∷ s) t found, e) refl
]

-- What is cut off makes the text shorter.
pub length-cut :
    (s : Chars) {before after : Chars} → cut s ≡ some (before, after) → length after < length s
length-cut [] h = let e = cut-nil in cc
length-cut (c ∷ []) h = let e = cut-single c in cc
length-cut (c ∷ d ∷ s) {before} {after} h = elim (Bool-cases (nat_eq c b'\n' && nat_eq d b'\n')) [
  | inl here ↦ let h' = rw (cut-step c (d ∷ s), here) at h in rw (← (same_parts h').1) (omega arith)
  | inr later ↦
      let (b, (found, e)) = with_char-some c (cut (d ∷ s)) (rw (cut-step c (d ∷ s), later) at h) in
      omega (arith, length-cut (d ∷ s) found)
]

-- A text without an empty line, and without a newline at its end.
unfoldable pub is_block : Chars → Bool
is_block [] = true
is_block (c ∷ s) =
    let rest = is_block s in not (nat_eq c b'\n' && (is_empty s || starts_with_newline s)) && rest

newline_after :
    (s t : Chars) → starts_with_newline (s ++ b'\n' ∷ t) ≡ (is_empty s || starts_with_newline s)
newline_after [] t = refl
newline_after (c ∷ s) t = refl

-- Such a text is cut off where an empty line follows it.
pub cut-block : (s t : Chars) → is_block s ≡ true → cut (s ++ b'\n' ∷ b'\n' ∷ t) ≡ some (s, t)
unfolding is_block
cut-block [] t h = cut-step b'\n' (b'\n' ∷ t)
cut-block (c ∷ s) t h =
    let inside : (nat_eq c b'\n' && starts_with_newline (s ++ b'\n' ∷ b'\n' ∷ t)) ≡ false =
      rw (newline_after s (b'\n' ∷ t)) (ground (arith, h)) in
    rw (cut-step c (s ++ b'\n' ∷ b'\n' ∷ t), inside, cut-block s t (ground (arith, h))) refl
