-- ===== src/Workflow/Guarantees/ReadBack.antt =====
-- run-workflow.ts, `resumeOutcome`: the stored results as the outcomes of their specialists.
use matrix_agent_workspace.Prelude.{List, [], ◌∷◌, map, ◌≡◌, refl, ◌↔◌}
use matrix_agent_workspace.Workflow.Types.{
  PersistedSpecialistResult, SpecialistOutcome, SpecialistRunStatus, OutcomeStatus,
}
use matrix_agent_workspace.Workflow.Finalize.{resumed_result, resumed_status}

-- A result that is read back as the outcome of its specialist: it has failed exactly if the row has.
pub record IsReadAs (r : PersistedSpecialistResult) (o : SpecialistOutcome) : Type 0 where
  pub id : o.specialist_id ≡ r.specialist_id
  pub ordinal : o.ordinal ≡ r.ordinal
  pub output : o.output ≡ r.output
  pub error_code : o.error_code ≡ r.error_code
  pub attempts : o.attempts ≡ r.attempt_count
  pub failed : (o.status ≡ OutcomeStatus.failed) ↔ (r.status ≡ SpecialistRunStatus.failed)

abbrev pub AreReadAs : List PersistedSpecialistResult → List SpecialistOutcome → Type 0
AreReadAs [] [] = Unit
AreReadAs (r ∷ rs) (o ∷ os) = IsReadAs r o × AreReadAs rs os
AreReadAs _ _ = ⊥

resumed_result-IsReadAs : (r : PersistedSpecialistResult) → IsReadAs r (resumed_result r)
unfolding resumed_result
resumed_result-IsReadAs r = record {
  id = refl;
  ordinal = refl;
  output = refl;
  error_code = refl;
  attempts = refl;
  failed = by_status r.status;
}
  where
    by_status :
        (s : SpecialistRunStatus)
        → (resumed_status s ≡ OutcomeStatus.failed) ↔ (s ≡ SpecialistRunStatus.failed)
    by_status SpecialistRunStatus.failed = (λ e. refl, λ e. refl)
    by_status SpecialistRunStatus.queued = (λ e. cc, λ e. cc)
    by_status SpecialistRunStatus.running = (λ e. cc, λ e. cc)
    by_status SpecialistRunStatus.retrying = (λ e. cc, λ e. cc)
    by_status SpecialistRunStatus.completed = (λ e. cc, λ e. cc)

pub resumed-AreReadAs : (rs : List PersistedSpecialistResult) → AreReadAs rs (map resumed_result rs)
resumed-AreReadAs [] = tt
resumed-AreReadAs (r ∷ rs) = (resumed_result-IsReadAs r, resumed-AreReadAs rs)
