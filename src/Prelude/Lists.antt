-- ===== src/Prelude/Lists.antt =====
-- Lists over the native numbers, and predicates on them by recursion.
use Prim.Native.Nat.{ℕ, zero, suc, ◌+◌, ◌-◌, min}
use mathlib.Core.Path.{◌≡◌, refl, ap}
use mathlib.Core.Bool.{true, Bool, false, ◌||◌}
use mathlib.Core.Option.{Option, none, some}
use mathlib.Core.List.{List, [], ◌∷◌, ◌++◌}
use mathlib.Core.List.{Perm, Mem, mem-cons_self, mem-cons_of_mem}
use mathlib.Core.List.Perm
use mathlib.Core.Logic.{inl, inr}
use native.Mathlib.Omega.{arith}
use matrix_agent_workspace.Prelude.Tests.{if◌then◌else◌, ltb, Bool-cases}

module _ {ℓ} {A : Type ℓ} where
  abbrev pub length : List A → ℕ
  length [] = 0
  length (x ∷ xs) = suc (length xs)

  -- `filter`, by a Boolean test.
  abbrev pub keep : (A → Bool) → List A → List A
  keep p [] = []
  keep p (x ∷ xs) = let rest = keep p xs in if p x then x ∷ rest else rest

  -- `some`.
  abbrev pub any : (A → Bool) → List A → Bool
  any p [] = false
  any p (x ∷ xs) = p x || any p xs

  -- `find`.
  abbrev pub find : (A → Bool) → List A → Option A
  find p [] = none
  find p (x ∷ xs) = let rest = find p xs in if p x then some x else rest

  pub any-snoc : (p : A → Bool) (xs : List A) (x : A) → any p (xs ++ x ∷ []) ≡ (any p xs || p x)
  any-snoc p [] x = ground arith
  any-snoc p (y ∷ xs) x = ground (arith, any-snoc p xs x)

  pub any_mono :
      (p q : A → Bool) (xs : List A)
      → ((x : A) → p x ≡ true → q x ≡ true)
      → any p xs ≡ true
      → any q xs ≡ true
  any_mono p q [] f h = h
  any_mono p q (x ∷ xs) f h = elim (Bool-cases (p x)) [
    | inl here ↦ let it : q x ≡ true = f x here in rw it refl
    | inr there ↦
        let rest : any q xs ≡ true = any_mono p q xs f (rw there at h) in ground (arith, rest)
  ]

  pub find-any :
      (p : A → Bool) (xs : List A) → any p xs ≡ true → (x : A) × (find p xs ≡ some x) × (p x ≡ true)
  find-any p [] h = cc
  find-any p (x ∷ xs) h = elim (Bool-cases (p x)) [
    | inl here ↦ rw here (x, refl, here)
    | inr there ↦ rw there (find-any p xs (rw there at h))
  ]

  -- `slice(0, n)`, and SQL's LIMIT.
  abbrev pub take : ℕ → List A → List A
  take n [] = []
  take zero (x ∷ xs) = []
  take (suc n) (x ∷ xs) = x ∷ take n xs

  abbrev pub drop : ℕ → List A → List A
  drop n [] = []
  drop zero (x ∷ xs) = x ∷ xs
  drop (suc n) (x ∷ xs) = drop n xs

  pub take-drop : (n : ℕ) (xs : List A) → take n xs ++ drop n xs ≡ xs
  take-drop n [] = refl
  take-drop zero (x ∷ xs) = refl
  take-drop (suc n) (x ∷ xs) = ap (λ ys. x ∷ ys) (take-drop n xs)

  pub length-take : (n : ℕ) (xs : List A) → length (take n xs) ≡ min n (length xs)
  length-take n [] = ground arith
  length-take zero (x ∷ xs) = ground arith
  length-take (suc n) (x ∷ xs) = ground (arith, length-take n xs)

  pub length-drop : (n : ℕ) (xs : List A) → length (drop n xs) ≡ length xs - n
  length-drop n [] = omega arith
  length-drop zero (x ∷ xs) = omega arith
  length-drop (suc n) (x ∷ xs) = omega (arith, length-drop n xs)

  pub take-take : (n : ℕ) (xs : List A) → take n (take (suc n) xs) ≡ take n xs
  take-take n [] = refl
  take-take zero (x ∷ xs) = refl
  take-take (suc n) (x ∷ xs) = ap (λ ys. x ∷ ys) (take-take n xs)

  pub take-all : (n : ℕ) (xs : List A) → ltb n (length xs) ≡ false → take n xs ≡ xs
  take-all n [] h = refl
  take-all zero (x ∷ xs) h = ground (arith, h)
  take-all (suc n) (x ∷ xs) h = ap (λ ys. x ∷ ys) (take-all n xs (ground (arith, h)))

  -- `at(-1)`.
  abbrev pub last : List A → Option A
  last [] = none
  last (x ∷ []) = some x
  last (x ∷ y ∷ ys) = last (y ∷ ys)

  pub length-append : (xs ys : List A) → length (xs ++ ys) ≡ length xs + length ys
  length-append [] ys = omega arith
  length-append (x ∷ xs) ys = omega (arith, length-append xs ys)

  pub keep-append : (p : A → Bool) (xs ys : List A) → keep p (xs ++ ys) ≡ keep p xs ++ keep p ys
  keep-append p [] ys = refl
  keep-append p (x ∷ xs) ys = ground (arith, keep-append p xs ys)

module _ {ℓ κ} {A : Type ℓ} (P : A → Type κ) where
  abbrev pub All : List A → Type κ
  All [] = Unit
  All (x ∷ xs) = P x × All xs

  pub All-append : (xs ys : List A) → All xs → All ys → All (xs ++ ys)
  All-append [] ys h k = k
  All-append (x ∷ xs) ys (p, h) k = (p, All-append xs ys h k)

  pub All-intro : (xs : List A) → ((x : A) → P x) → All xs
  All-intro [] h = tt
  All-intro (x ∷ xs) h = (h x, All-intro xs h)

  pub All-left : (xs ys : List A) → All (xs ++ ys) → All xs
  All-left [] ys h = tt
  All-left (x ∷ xs) ys (p, h) = (p, All-left xs ys h)

  pub All-right : (xs ys : List A) → All (xs ++ ys) → All ys
  All-right [] ys h = h
  All-right (x ∷ xs) ys (p, h) = All-right xs ys h

-- A stable sort by a number: `sort((a, b) => f(a) - f(b))`.
module _ {ℓ} {A : Type ℓ} (f : A → ℕ) where
  pub insert_by : A → List A → List A
  insert_by x [] = x ∷ []
  insert_by x (y ∷ ys) =
      let later = y ∷ insert_by x ys in if ltb (f y) (f x) then later else x ∷ y ∷ ys

  -- The elements are put in from the last to the first, so equal ones keep their order.
  unfoldable pub sort_by : List A → List A
  unfolding insert_by
  sort_by [] = []
  sort_by (x ∷ xs) = insert_by x (sort_by xs)

  insert_by-perm : (x : A) (ys : List A) → Perm (insert_by x ys) (x ∷ ys)
  unfolding insert_by
  insert_by-perm x [] = Perm.refl _
  insert_by-perm x (y ∷ ys) = elim (Bool-cases (ltb (f y) (f x))) [
    | inl later ↦ rw later (Perm.trans (Perm.cons y (insert_by-perm x ys)) (Perm.swap x y ys))
    | inr now ↦ rw now (Perm.refl _)
  ]

  pub sort_by-perm : (xs : List A) → Perm (sort_by xs) xs
  unfolding sort_by
  sort_by-perm [] = Perm.refl _
  sort_by-perm (x ∷ xs) = Perm.trans (insert_by-perm x (sort_by xs)) (Perm.cons x (sort_by-perm xs))

  module _ (low : ℕ) where
    abbrev is_above : A → Bool
    is_above x = ltb low (f x)

    keep-insert_by :
        (x : A) (ys : List A)
        → keep is_above (insert_by x ys)
          ≡ (if is_above x then insert_by x (keep is_above ys) else keep is_above ys)
    unfolding insert_by
    keep-insert_by x [] = ground arith
    keep-insert_by x (y ∷ ys) = elim (Bool-cases (ltb (f y) (f x))) [
      | inl later ↦ elim (Bool-cases (is_above y)) [
        | inl kept ↦ elim (Bool-cases (is_above x)) [
          | inl k ↦ rw (later, kept, keep-insert_by x ys, k, later) refl
          | inr k ↦ rw (later, kept, keep-insert_by x ys, k) refl
        ]
        | inr left ↦ rw (later, left, keep-insert_by x ys) refl
      ]
      | inr now ↦ elim (Bool-cases (is_above x)) [
        | inl k ↦
            let kept : is_above y ≡ true = ground (arith, now, k) in rw (now, k, kept, now) refl
        | inr k ↦ rw (now, k) refl
      ]
    ]

    -- The elements above a number may be taken before the sort or after it.
    pub keep-sort_by : (xs : List A) → keep is_above (sort_by xs) ≡ sort_by (keep is_above xs)
    unfolding sort_by insert_by
    keep-sort_by [] = refl
    keep-sort_by (x ∷ xs) = elim (Bool-cases (is_above x)) [
      | inl kept ↦ rw (keep-insert_by x (sort_by xs), keep-sort_by xs, kept) refl
      | inr left ↦ rw (keep-insert_by x (sort_by xs), keep-sort_by xs, left) refl
    ]

module _ {ℓ} {A : Type ℓ} where
  All-weaken-mem : (x : A) (xs ys : List A) → All (λ y. Mem y ys) xs → All (λ y. Mem y (x ∷ ys)) xs
  All-weaken-mem x [] ys h = tt
  All-weaken-mem x (z ∷ zs) ys (m, h) = (mem-cons_of_mem x m, All-weaken-mem x zs ys h)

  pub All-mem : (xs : List A) → All (λ x. Mem x xs) xs
  All-mem [] = tt
  All-mem (x ∷ xs) = (mem-cons_self, All-weaken-mem x xs xs (All-mem xs))
