-- ===== src/Prelude/Maps.antt =====
-- `Map` with texts as keys, as an association list in the order of insertion.
use Prim.Native.String.{String}
use mathlib.Core.Path.{◌≡◌, refl, sym, subst}
use mathlib.Core.Option.{Option, none, some}
use mathlib.Core.List.{List, [], ◌∷◌}
use native.Mathlib.Omega.{arith}
use text.Mathlib.TextEquality.{eq_iff}
use matrix_agent_workspace.Prelude.Tests.{◌==◌, if◌then◌else◌, Bool-cases}
use matrix_agent_workspace.Prelude.Lists.{All}
use mathlib.Core.Logic.{inl, inr}

-- `Map.get` and `Map.set`.
module _ {ℓ} {V : Type ℓ} where
  unfoldable pub map_get : String → List (String × V) → Option V
  map_get key [] = none
  map_get key ((k, v) ∷ rows) = let rest = map_get key rows in if k == key then some v else rest

  unfoldable pub map_set : String → V → List (String × V) → List (String × V)
  map_set key value [] = (key, value) ∷ []
  map_set key value ((k, v) ∷ rows) =
      let rest = map_set key value rows in if k == key then (k, value) ∷ rows else (k, v) ∷ rest

module _ {V : Type 0} where
  pub map_get-map_set :
      (j k : String) (v : V) (rows : List (String × V))
      → map_get j (map_set k v rows) ≡ (if k == j then some v else map_get j rows)
  unfolding map_get map_set
  map_get-map_set j k v [] = refl
  map_get-map_set j k v ((i, u) ∷ rows) =
      ground (arith, eq_iff k j, eq_iff i k, eq_iff i j, map_get-map_set j k v rows)

  -- What holds of every row holds of a value that is found, and still after a value is set.
  pub All-map_get :
      (P : String → V → Type 0) (k : String) (rows : List (String × V)) {v : V}
      → All (λ (r : String × V). P r.0 r.1) rows
      → map_get k rows ≡ some v
      → P k v
  unfolding map_get
  All-map_get P k [] h e = cc
  All-map_get P k ((i, u) ∷ rows) {v} h e = elim (Bool-cases (i == k)) [
    | inl here ↦ found ((eq_iff i k).0 here) (rw here at e)
    | inr there ↦ All-map_get P k rows h.1 (rw there at e)
  ]
    where
      found : i ≡ k → some u ≡ some v → P k v
      found q r = let r' : u ≡ v = cc in rw (← r', ← q) h.0

  pub All-map_set :
      (P : String → V → Type 0) (k : String) (v : V) (rows : List (String × V))
      → P k v
      → All (λ (r : String × V). P r.0 r.1) rows
      → All (λ (r : String × V). P r.0 r.1) (map_set k v rows)
  unfolding map_set
  All-map_set P k v [] p h = (p, tt)
  All-map_set P k v ((i, u) ∷ rows) p h = elim (Bool-cases (i == k)) [
    | inl here ↦ rw here (subst (λ j. P j v) (sym ((eq_iff i k).0 here)) p, h.1)
    | inr there ↦ rw there (h.0, All-map_set P k v rows p h.1)
  ]
