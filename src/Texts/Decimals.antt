-- ===== src/Texts/Decimals.antt =====
-- A number's digits are read back as the number.
use Prim.Native.Nat.{◌%◌}
use matrix_agent_workspace.Prelude.{
  ℕ, zero, suc, ◌+◌, ◌/◌, ◌<◌, Bool, true, false, [], ◌∷◌, ◌≡◌, refl, ◌∙◌, arith, ltb, Bool-cases,
  inl, inr, ◌⊎◌, if◌then◌else◌,
}
use matrix_agent_workspace.Texts.{
  Chars, print_from, print, all_digits, is_decimal, scan, number, is_empty,
}

print_step :
    (fuel n : ℕ) (out : Chars)
    → print_from (suc fuel) n out
      ≡ (if ltb n 10 then (b'0' + n) ∷ out else print_from fuel (n / 10) ((b'0' + n % 10) ∷ out))
unfolding print_from
print_step fuel n out = go (ltb n 10)
  where
    go :
        (b : Bool)
        → (elim b [
          | true ↦ (b'0' + n) ∷ out
          | false ↦ print_from fuel (n / 10) ((b'0' + n % 10) ∷ out)
        ])
          ≡ (if b then (b'0' + n) ∷ out else print_from fuel (n / 10) ((b'0' + n % 10) ∷ out))
    go true = refl
    go false = refl

scan-print_from :
    (fuel n : ℕ) (out : Chars) → n < fuel → scan (print_from fuel n out) 0 ≡ scan out n
unfolding scan
scan-print_from zero n out h = absurd (omega (arith, h))
scan-print_from (suc fuel) n out h = elim (Bool-cases (ltb n 10)) [
  | inl small ↦ rw (print_step fuel n out, small) (ground arith)
  | inr big ↦
      rw (print_step fuel n out, big)
        (scan-print_from fuel (n / 10) ((b'0' + n % 10) ∷ out) (ground (arith, big, h))
          ∙ ground arith)
]

print_from-digits :
    (fuel n : ℕ) (out : Chars) → all_digits out ≡ true → all_digits (print_from fuel n out) ≡ true
unfolding print_from
print_from-digits zero n out h = h
print_from-digits (suc fuel) n out h = elim (Bool-cases (ltb n 10)) [
  | inl small ↦ rw (print_step fuel n out, small) (ground (arith, h))
  | inr big ↦
      rw (print_step fuel n out, big) (print_from-digits fuel (n / 10) _ (ground (arith, h)))
]

print_from-nonempty :
    (fuel n : ℕ) (out : Chars) → is_empty out ≡ false → is_empty (print_from fuel n out) ≡ false
unfolding print_from
print_from-nonempty zero n out h = h
print_from-nonempty (suc fuel) n out h = elim (Bool-cases (ltb n 10)) [
  | inl small ↦ rw (print_step fuel n out, small) refl
  | inr big ↦ rw (print_step fuel n out, big) (print_from-nonempty fuel (n / 10) _ refl)
]

pub number-print : (n : ℕ) → number (print n) ≡ n
unfolding number print scan
number-print n = scan-print_from (suc n) n [] (omega arith)

pub print-digits : (n : ℕ) → all_digits (print n) ≡ true
unfolding print
print-digits n = print_from-digits (suc n) n [] refl

pub print-decimal : (n : ℕ) → is_decimal (print n) ≡ true
unfolding print
print-decimal n = rw (print-digits n, nonempty (Bool-cases (ltb n 10))) refl
  where
    nonempty : (ltb n 10 ≡ true) ⊎ (ltb n 10 ≡ false) → is_empty (print n) ≡ false
    nonempty (inl small) = rw (print_step n n [], small) refl
    nonempty (inr big) =
        rw (print_step n n [], big) (print_from-nonempty n (n / 10) ((b'0' + n % 10) ∷ []) refl)
