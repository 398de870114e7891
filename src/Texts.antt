-- ===== src/Texts.antt =====
-- Texts as they travel: a list of characters' numbers, with the JavaScript operations that
-- apps/control-plane/src/events and apps/mobile/src/api use on them.
pub mod Decimals
use Prim.Native.Nat.{◌%◌}
use Prim.Native.Char.{Char, code}
use Prim.Native.String.{[] as nil, ◌∷◌ as ◌∷ₛ◌}
use matrix_agent_workspace.Prelude.{
  ℕ, zero, suc, ◌+◌, ◌-◌, ◌*◌, ◌/◌, String, Bool, true, false, List, [], ◌∷◌, ◌++◌, not, ◌&&◌, ◌||◌,
  ltb, leb, nat_eq, any, if◌then◌else◌, ◌≡◌, refl, arith,
}

abbrev pub Chars : Type 0
Chars = List ℕ

abbrev pub codes : String → Chars
codes nil = []
codes (c ∷ₛ s) = code c ∷ codes s

-- `===` on texts.
abbrev pub chars_eq : Chars → Chars → Bool
chars_eq [] [] = true
chars_eq [] (d ∷ t) = false
chars_eq (c ∷ s) [] = false
chars_eq (c ∷ s) (d ∷ t) = nat_eq c d && chars_eq s t

abbrev pub is_empty : Chars → Bool
is_empty [] = true
is_empty (c ∷ s) = false

-- `String(n)` of a natural number: the digits are put before `out`, and `fuel` bounds their number.
unfoldable pub print_from : ℕ → ℕ → Chars → Chars
print_from zero n out = out
print_from (suc fuel) n out = elim (ltb n 10) [
  | true ↦ (b'0' + n) ∷ out
  | false ↦ print_from fuel (n / 10) ((b'0' + n % 10) ∷ out)
]

unfoldable pub print : ℕ → Chars
unfolding print_from
print n = print_from (suc n) n []

abbrev pub is_digit : ℕ → Bool
is_digit c = leb b'0' c && leb c b'9'

abbrev pub all_digits : Chars → Bool
all_digits [] = true
all_digits (c ∷ s) = is_digit c && all_digits s

-- `/^\d+$/.test`.
abbrev pub is_decimal : Chars → Bool
is_decimal s = not (is_empty s) && all_digits s

-- `Number` of a decimal text, exactly. JavaScript rounds from 2 ^ 53 on, and never below it.
unfoldable pub scan : Chars → ℕ → ℕ
scan [] n = n
scan (c ∷ s) n = scan s (n * 10 + (c - b'0'))

unfoldable pub number : Chars → ℕ
unfolding scan
number s = scan s 0

-- `trim`: white space and line ends of ECMAScript.
abbrev pub is_space : ℕ → Bool
is_space c = any (nat_eq c) (
    9 ∷ 10 ∷ 11 ∷ 12 ∷ 13 ∷ 32 ∷ 160 ∷ 5760 ∷ 8192 ∷ 8193 ∷ 8194 ∷ 8195 ∷ 8196 ∷ 8197 ∷ 8198 ∷ 8199
    ∷ 8200 ∷ 8201 ∷ 8202 ∷ 8232 ∷ 8233 ∷ 8239 ∷ 8287 ∷ 12288 ∷ 65279 ∷ [])

abbrev pub trim_start : Chars → Chars
trim_start [] = []
trim_start (c ∷ s) = let rest = trim_start s in if is_space c then rest else c ∷ s

abbrev pub reverse_onto : Chars → Chars → Chars
reverse_onto [] out = out
reverse_onto (c ∷ s) out = reverse_onto s (c ∷ out)

unfoldable pub trim : Chars → Chars
trim s = reverse_onto (trim_start (reverse_onto (trim_start s) [])) []

-- A text without a character.
abbrev pub all_not : ℕ → Chars → Bool
all_not c [] = true
all_not c (d ∷ s) = not (nat_eq d c) && all_not c s

pub all_not-append : (c : ℕ) (s t : Chars) → all_not c (s ++ t) ≡ (all_not c s && all_not c t)
all_not-append c [] t = refl
all_not-append c (d ∷ s) t = ground (arith, all_not-append c s t)

abbrev pub concat : List Chars → Chars
concat [] = []
concat (t ∷ ts) = t ++ concat ts
