-- ===== src/Workflow/Checkpoints.antt =====
-- workflows/checkpoint-service.ts: checkpoints with compare-and-swap versions. The
-- in-memory store of one run (the code keys its map by the run id too), and the creation of a
-- checkpoint in the SQL store, which is the only kind of save that the workflow makes.
pub mod Versions
use matrix_agent_workspace.Prelude.{
  ℕ, ◌+◌, String, Bool, true, false, Option, none, some, List, [], ◌∷◌, nat_eq, ◌==◌, if◌then◌else◌,
}
use matrix_agent_workspace.Workflow.Types.{CheckpointKey, CheckpointState}

abbrev pub key_eq : CheckpointKey → CheckpointKey → Bool
key_eq CheckpointKey.init CheckpointKey.init = true
key_eq CheckpointKey.injection CheckpointKey.injection = true
key_eq CheckpointKey.done CheckpointKey.done = true
key_eq (CheckpointKey.specialist a) (CheckpointKey.specialist b) = a == b
key_eq _ _ = false

pub record CheckpointRecord : Type 0 where
  pub version : ℕ
  pub state : CheckpointState

abbrev pub Records : Type 0
Records = List (CheckpointKey × CheckpointRecord)

-- `records.get(key)`.
unfoldable pub load : CheckpointKey → Records → Option CheckpointRecord
load key [] = none
load key ((k, r) ∷ rs) = let rest = load key rs in if key_eq k key then some r else rest

-- `records.set(key, record)`.
unfoldable pub put : CheckpointKey → CheckpointRecord → Records → Records
put key record' [] = (key, record') ∷ []
put key record' ((k, r) ∷ rs) =
    let rest = put key record' rs in if key_eq k key then (k, record') ∷ rs else (k, r) ∷ rest

-- The new version, a lost compare-and-swap (`null`), or `CheckpointVersionConflictError`.
pub data SaveResult : Type 0 where
  saved : ℕ → SaveResult
  lost conflict : SaveResult

unfoldable pub save : CheckpointKey → CheckpointState → ℕ → Records → SaveResult × Records
unfolding load put
save key state expected rs = elim (load key rs) [
  | none ↦
      if nat_eq expected 0
      then (saved 1, put key (record { version = 1; state = state }) rs)
      else (conflict, rs)
  | some existing ↦
      if nat_eq existing.version expected
      then (
        saved (existing.version + 1),
        put key (record { version = existing.version + 1; state = state }) rs,
      )
      else (lost, rs)
]

-- `INSERT … ON CONFLICT (run_id, checkpoint_key) DO NOTHING RETURNING version`, in the SQL store's
-- `save` where the expected version is 0.
unfoldable pub insert_checkpoint : CheckpointKey → CheckpointState → Records → SaveResult × Records
unfolding load put
insert_checkpoint key state rs = elim (load key rs) [
  | none ↦ (saved 1, put key (record { version = 1; state = state }) rs)
  | some existing ↦ (lost, rs)
]
