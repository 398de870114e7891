-- ===== src/Workflow/Checkpoints/Versions.antt =====
-- What the versions of a checkpoint promise.
use matrix_agent_workspace.Prelude.{
  ℕ, ◌+◌, true, false, Option, none, some, [], ◌∷◌, nat_eq, if◌then◌else◌, ◌≡◌, refl, arith, eq_iff,
  eq_self, ap, sym, ◌∙◌, Bool-cases, Option-cases, ◌&&◌, inl, inr, ltb, Bool,
}
use matrix_agent_workspace.Workflow.Types.{CheckpointKey, CheckpointState}
use matrix_agent_workspace.Workflow.Checkpoints.{
  key_eq, CheckpointRecord, Records, load, put, save, insert_checkpoint, SaveResult, saved, lost,
  conflict,
}

pub key_eq_self : (k : CheckpointKey) → key_eq k k ≡ true
key_eq_self CheckpointKey.init = refl
key_eq_self CheckpointKey.injection = refl
key_eq_self CheckpointKey.done = refl
key_eq_self (CheckpointKey.specialist a) = eq_self a

pub key_eq-eq : (j k : CheckpointKey) → key_eq j k ≡ true → j ≡ k
key_eq-eq CheckpointKey.init CheckpointKey.init h = refl
key_eq-eq CheckpointKey.injection CheckpointKey.injection h = refl
key_eq-eq CheckpointKey.done CheckpointKey.done h = refl
key_eq-eq (CheckpointKey.specialist a) (CheckpointKey.specialist b) h =
    ap CheckpointKey.specialist ((eq_iff a b).0 h)
key_eq-eq _ _ h = ground arith

-- Of three keys, if the first is another than the second and equals the third, the others differ.
key_apart : (i j k : CheckpointKey) → key_eq i k ≡ false → key_eq i j ≡ true → key_eq k j ≡ false
key_apart i j k other here = elim (Bool-cases (key_eq k j)) [
  | inl same ↦
      let e : i ≡ k = key_eq-eq i j here ∙ sym (key_eq-eq k j same) in
      let s : key_eq i k ≡ true = ap (key_eq i) (sym e) ∙ key_eq_self i in cc
  | inr apart ↦ apart
]

pub load-put :
    (j k : CheckpointKey) (r : CheckpointRecord) (rs : Records)
    → load j (put k r rs) ≡ (if key_eq k j then some r else load j rs)
unfolding load put
load-put j k r [] = refl
load-put j k r ((i, q) ∷ rs) = elim (Bool-cases (key_eq i k)) [
  | inl same ↦ rw same (rw (key_eq-eq i k same) (ground arith))
  | inr other ↦ rw other (elim (Bool-cases (key_eq i j)) [
    | inl here ↦ rw (here, key_apart i j k other here)
    | inr there ↦ rw there (load-put j k r rs)
  ])
]

-- The version that is stored under a key, 0 where none is.
abbrev pub stored_version : Option CheckpointRecord → ℕ
stored_version none = 0
stored_version (some r) = r.version

-- What a save does that does not win.
abbrev pub refusal : Option CheckpointRecord → SaveResult
refusal none = conflict
refusal (some r) = lost

-- Versions are counted from 1.
abbrev pub is_versioned : Option CheckpointRecord → Bool
is_versioned none = true
is_versioned (some r) = ltb 0 r.version

-- A save of the in-memory store, by what a load finds before it and after it.
pub save_lem :
    (k j : CheckpointKey) (state : CheckpointState) (expected : ℕ) (rs : Records)
    → let now = stored_version (load k rs) in
      let next : CheckpointRecord = record { version = now + 1; state = state } in
      ((save k state expected rs).0
        ≡ (if nat_eq now expected then saved (now + 1) else refusal (load k rs)))
      × (load j (save k state expected rs).1
          ≡ (if nat_eq now expected && key_eq k j then some next else load j rs))
unfolding save
save_lem k j state expected rs = elim (Option-cases (load k rs)) [
  | inl e ↦ rw e (ground (arith, load-put j k (record { version = 1; state = state }) rs))
  | inr (r, e) ↦
      rw e (ground (arith, load-put j k (record { version = r.version + 1; state = state }) rs))
]

-- A creation in the two stores.
creates :
    (k : CheckpointKey) (state : CheckpointState) (rs : Records)
    → is_versioned (load k rs) ≡ true
    → save k state 0 rs ≡ insert_checkpoint k state rs
unfolding save insert_checkpoint
creates k state rs h = elim (Option-cases (load k rs)) [
  | inl e ↦ rw (save, insert_checkpoint, e) refl
  | inr (r, e) ↦
      let versioned : is_versioned (some r) ≡ true = rw e at h in
      let other : nat_eq r.version 0 ≡ false = ground (arith, versioned) in
      rw (save, insert_checkpoint, e, other) refl
]

-- A save of the in-memory store wins exactly if the caller expects the version that is stored (0
-- where none is). It then returns the next version and stores the state under it, and every other
-- key loads as before. A save that does not win throws a conflict where nothing is stored and
-- answers null otherwise, and every key loads as before. A creation, which expects the version 0,
-- is the insertion of the SQL store: the same answer and the same rows, if versions count from 1.
pub save_cas :
    (k j : CheckpointKey) (state : CheckpointState) (expected : ℕ) (rs : Records)
    → is_versioned (load k rs) ≡ true
    → let now = stored_version (load k rs) in
      let next : CheckpointRecord = record { version = now + 1; state = state } in
      ((save k state expected rs).0
        ≡ (if nat_eq now expected then saved (now + 1) else refusal (load k rs)))
      × (load j (save k state expected rs).1
          ≡ (if nat_eq now expected && key_eq k j then some next else load j rs))
      × (save k state 0 rs ≡ insert_checkpoint k state rs)
save_cas k j state expected rs h =
    ((save_lem k j state expected rs).0, (save_lem k j state expected rs).1, creates k state rs h)
