-- ===== src/Workflow/Guarantees/Resume.antt =====
-- run-workflow.ts, the resume of `executeRun`: specialists whose outcome is committed.
use mathlib.Core.List.{append-nil}
use matrix_agent_workspace.Prelude.{
  ℕ, suc, ◌+◌, String, Bool, true, false, Option, none, some, List, [], ◌≡◌, refl, ◌∙◌, arith, keep,
  keep-append, All-intro, if◌then◌else◌, ◌==◌, eq_iff, Bool-cases, inl, inr, nat_eq, ◌&&◌,
}
use matrix_agent_workspace.Agents.Injection.{InjectionPattern}
use matrix_agent_workspace.Workflow.Types.{
  ScheduledSpecialist, WorkflowOptions, SpecialistProviderRequest, CheckpointKey, CheckpointState,
  specialist_state,
}
use matrix_agent_workspace.Workflow.Checkpoints.{CheckpointRecord, Records, load, save, key_eq}
use matrix_agent_workspace.Workflow.Checkpoints.Versions.{save_lem, key_eq-eq, stored_version}
use matrix_agent_workspace.Workflow.World.{World}
use matrix_agent_workspace.Workflow.World.Frames.{
  SameRest, append_event-rest, begin_run-rest, finalize-rest, save_specialist_result-rest,
  cancel_run-rest,
}
use matrix_agent_workspace.Workflow.Calls
use matrix_agent_workspace.Workflow.Calls.{
  Call, Reply, Input, Fault, no_fault, lost_before, lost_after, handle, serve, deliver, get_status,
  finalize, save_checkpoint, load_checkpoint, complete, append,
}
use matrix_agent_workspace.Workflow.Protocol.{Allowed}
use matrix_agent_workspace.Workflow.Protocol.Run.{Runs}
use matrix_agent_workspace.Workflow.Execute.{recorded_outcome}
use matrix_agent_workspace.Workflow.Guarantees.{RunSystem, Reaches, always}

abbrev pub is_outcome : CheckpointState → Bool
is_outcome (specialist_state status output code attempts) = true
is_outcome _ = false

abbrev pub is_outcome_record : Option CheckpointRecord → Bool
is_outcome_record none = false
is_outcome_record (some r) = is_outcome r.state

-- The checkpoint of the specialist `x` holds an outcome.
abbrev pub Committed : String → Records → Type 0
Committed x rs =
    (version : ℕ) × (state : CheckpointState) × (load (CheckpointKey.specialist x) rs
      ≡ some (record { version = suc version; state = state }))
    × (is_outcome state ≡ true)

-- The requests that the provider got for the specialist `x`.
abbrev pub requests_for : String → World → List SpecialistProviderRequest
requests_for x w = keep (λ req. req.specialist_id == x) w.requests

module _ (x : String) (reqs : List SpecialistProviderRequest) where
  record Spared (w : World) : Type 0 where
    committed : Committed x w.checkpoints
    same : requests_for x w ≡ reqs

  abbrev Others : ScheduledSpecialist → Type 0
  Others spec = (spec.specialist_id == x) ≡ false

  -- A load of that checkpoint finds the outcome.
  abbrev Found : (c : Call) → Option (Reply c) → Type 0
  Found (load_checkpoint (CheckpointKey.specialist y)) (some r) =
      (y == x) ≡ true → is_outcome_record r ≡ true
  Found _ _ = Unit

  Others-Runs : (spec : ScheduledSpecialist) → Runs Others Found spec
  Others-Runs spec r a e = elim (Bool-cases (spec.specialist_id == x)) [
    | inl same ↦
        let found : is_outcome_record r ≡ true = a same in absurd (unrecorded spec r e found)
    | inr other ↦ other
  ]
    where
      unrecorded :
          (spec : ScheduledSpecialist) (r : Option CheckpointRecord)
          → recorded_outcome spec r ≡ none
          → is_outcome_record r ≡ true
          → ⊥
      unrecorded spec r e f = ground arith

  Found-handle : (i : Input) (c : Call) (w : World) → Spared w → Found c (handle i c w).0
  unfolding handle
  Found-handle i (load_checkpoint (CheckpointKey.specialist y)) w h = go i.fault
    where
      found :
          (y == x) ≡ true
          → is_outcome_record (load (CheckpointKey.specialist y) w.checkpoints) ≡ true
      found e = let (v, st, l, o) = h.committed in rw ((eq_iff y x).0 e) (rw l o)

      go :
          (f : Fault)
          → Found
              (load_checkpoint (CheckpointKey.specialist y))
              (deliver f (serve i (load_checkpoint (CheckpointKey.specialist y)) w) w).0
      go no_fault = found
      go lost_before = tt
      go lost_after = tt
  Found-handle i _ w h = tt

  -- A save that creates does not touch a committed checkpoint.
  save-Committed :
      (k : CheckpointKey) (state : CheckpointState) (rs : Records)
      → Committed x rs
      → Committed x (save k state 0 rs).1
  save-Committed k state rs (v, st, l, o) =
      (v, st, (save_lem k (CheckpointKey.specialist x) state 0 rs).1 ∙ kept, o)
    where
      next : CheckpointRecord
      next = record { version = stored_version (load k rs) + 1; state = state }

      kept :
          (if nat_eq (stored_version (load k rs)) 0 && key_eq k (CheckpointKey.specialist x)
            then some (record { version = stored_version (load k rs) + 1; state = state })
            else load (CheckpointKey.specialist x) rs)
          ≡ some (record { version = suc v; state = st })
      kept = elim (Bool-cases (key_eq k (CheckpointKey.specialist x))) [
        | inl e ↦ rw (key_eq-eq k (CheckpointKey.specialist x) e) (rw l (ground arith))
        | inr e ↦ rw e (rw l (ground arith))
      ]

  rest-Spared : (w w' : World) → SameRest w w' → Spared w → Spared w'
  rest-Spared w w' (cps, sent) h = record { committed = rw cps h.committed; same = rw sent h.same }

  serve-Spared :
      (test : InjectionPattern → String → Bool) (opts : WorkflowOptions) (i : Input) (c : Call)
      (w : World)
      → Spared w
      → Allowed test opts Others c
      → Spared (serve i c w).1
  serve-Spared test opts i get_status w h a = h
  serve-Spared test opts i (save_checkpoint k s v) w h a = record {
    committed = rw a (save-Committed k s w.checkpoints h.committed);
    same = h.same;
  }
  serve-Spared test opts i (complete r) w h a = record {
    committed = h.committed;
    same = rw keep-append (rw (a.id, a.may) (append-nil _ ∙ h.same));
  }
  serve-Spared test opts i (finalize t u e p) w h a = rest-Spared w _ (finalize-rest t u e p w) h
  serve-Spared test opts i Calls.begin_run w h a = rest-Spared w _ (begin_run-rest w) h
  serve-Spared test opts i (append e p) w h a = rest-Spared w _ (append_event-rest e p w) h
  serve-Spared test opts i (Calls.save_specialist_result r) w h a =
      rest-Spared w _ (save_specialist_result-rest r w) h
  serve-Spared test opts i _ w h a = h

-- Where the checkpoint of a specialist holds an outcome, completed or failed, at a moment when no
-- execution of the run is under way, the provider gets no further request for that specialist, and
-- the checkpoint keeps an outcome: whatever executions start from then on, overlap, crash or are
-- repeated, and whatever cancel requests come in.
pub never_rerun :
    (test : InjectionPattern → String → Bool) (Opts : WorkflowOptions → Type 0) (w : World)
    {b : RunSystem} (x : String)
    → Committed x w.checkpoints
    → Reaches test Opts (record { world = w; running = [] }) b
    → (requests_for x b.world ≡ requests_for x w) × Committed x b.world.checkpoints
never_rerun test Opts w {b} x h r =
    let reqs = requests_for x w in
    let spared : Spared x (requests_for x w) b.world =
      always test Opts (Others x reqs) (Found x reqs) (Spared x reqs)
        (λ opts o.
          All-intro (Runs (Others x reqs) (Found x reqs)) opts.specialists (Others-Runs x reqs))
        (Found-handle x reqs) (λ i c w h a. serve-Spared x reqs test a.0 i c w h a.2)
        (λ now w h. rest-Spared x reqs w _ (cancel_run-rest now w) h) w
        (record { committed = h; same = refl }) r in
    (spared.same, spared.committed)
