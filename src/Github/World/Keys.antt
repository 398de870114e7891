-- ===== src/Github/World/Keys.antt =====
-- The idempotency keys of a table of commands.
use matrix_agent_workspace.Prelude.{
  String, false, none, some, List, [], ◌∷◌, ◌≡◌, refl, arith, ◌==◌, eq_iff, eq_self, ◌&&◌,
  Bool-cases, inl, inr, sym,
}
use matrix_agent_workspace.Github.Types.{MutationCommand}
use matrix_agent_workspace.Github.World.{map_get, map_set, find_by_key}

-- No two commands of a table have the same workspace and idempotency key.
abbrev pub DistinctKeys : List (String × MutationCommand) → Type 0
DistinctKeys [] = Unit
DistinctKeys ((id, row) ∷ rows) =
    (find_by_key row.workspace_id row.idempotency_key rows ≡ none) × DistinctKeys rows

abbrev pub SameKey : MutationCommand → MutationCommand → Type 0
SameKey a b = (a.workspace_id ≡ b.workspace_id) × (a.idempotency_key ≡ b.idempotency_key)

-- A key that is not in the table is not there after another key's row is set.
find_by_key-map_set :
    (ws key id : String) (v : MutationCommand) (rows : List (String × MutationCommand))
    → (v.workspace_id == ws && v.idempotency_key == key) ≡ false
    → find_by_key ws key rows ≡ none
    → find_by_key ws key (map_set id v rows) ≡ none
unfolding find_by_key map_set
find_by_key-map_set ws key id v [] other h = rw other refl
find_by_key-map_set ws key id v ((k, u) ∷ rows) other h =
    let ih = find_by_key-map_set ws key id v rows other in ground arith

-- Nor after a row is changed that keeps its key.
find_by_key-update :
    (ws key id : String) (row v : MutationCommand) (rows : List (String × MutationCommand))
    → SameKey row v
    → map_get id rows ≡ some row
    → find_by_key ws key rows ≡ none
    → find_by_key ws key (map_set id v rows) ≡ none
unfolding find_by_key map_set map_get
find_by_key-update ws key id row v [] same found h = cc
find_by_key-update ws key id row v ((k, u) ∷ rows) same found h =
    let ih = find_by_key-update ws key id row v rows same in ground arith

pub insert-DistinctKeys :
    (id : String) (v : MutationCommand) (rows : List (String × MutationCommand))
    → find_by_key v.workspace_id v.idempotency_key rows ≡ none
    → DistinctKeys rows
    → DistinctKeys (map_set id v rows)
unfolding find_by_key map_set
insert-DistinctKeys id v [] new h = (refl, tt)
insert-DistinctKeys id v ((k, u) ∷ rows) new h = elim (Bool-cases (k == id)) [
  | inl here ↦ rw here (beyond, h.1)
  | inr there ↦ rw there (
    find_by_key-map_set u.workspace_id u.idempotency_key id v rows apart h.0,
    insert-DistinctKeys id v rows beyond h.1,
  )
]
  where
    beyond : find_by_key v.workspace_id v.idempotency_key rows ≡ none
    beyond = ground arith

    apart : (v.workspace_id == u.workspace_id && v.idempotency_key == u.idempotency_key) ≡ false
    apart = ground (
      arith,
      eq_iff v.workspace_id u.workspace_id,
      eq_iff v.idempotency_key u.idempotency_key,
      eq_self u.workspace_id,
      eq_self u.idempotency_key,
    )

pub update-DistinctKeys :
    (id : String) (row v : MutationCommand) (rows : List (String × MutationCommand))
    → SameKey row v
    → map_get id rows ≡ some row
    → DistinctKeys rows
    → DistinctKeys (map_set id v rows)
unfolding find_by_key map_set map_get
update-DistinctKeys id row v [] same found h = (refl, tt)
update-DistinctKeys id row v ((k, u) ∷ rows) same found h = elim (Bool-cases (k == id)) [
  | inl here ↦ rw here (by_row same.0 same.1 (rw here at found))
  | inr there ↦ rw there (
    find_by_key-update u.workspace_id u.idempotency_key id row v rows same (rw there at found) h.0,
    update-DistinctKeys id row v rows same (rw there at found) h.1,
  )
]
  where
    by_row :
        row.workspace_id ≡ v.workspace_id
        → row.idempotency_key ≡ v.idempotency_key
        → some u ≡ some row
        → (find_by_key v.workspace_id v.idempotency_key rows ≡ none) × DistinctKeys rows
    by_row a b e = let e' : u ≡ row = cc in (rw (sym a, sym b, sym e') h.0, h.1)
