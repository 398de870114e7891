-- ===== src/Workflow/Registry.antt =====
-- apps/control-plane/src/workflows/run-workflow.ts: the schedule of a run, rebuilt from its
-- configuration.
pub mod Schedule
mod Tests
use matrix_agent_workspace.Prelude.{ℕ, suc, String, Option, none, some, List, [], ◌∷◌, map, map_get}
use matrix_agent_workspace.Json.{Json}
use matrix_agent_workspace.Agents.Injection.{UntrustedSpan}
use matrix_agent_workspace.Agents.Config.{
  SpecialistProfile, Result, threw, returned, no_implementation, validate_specialist_profiles,
  resolve_execution_order, ◌>>=◌,
}
use matrix_agent_workspace.Workflow.Types.{
  ScheduledSpecialist, SpecialistRuntimeInput, SpecialistPromptComposition, Output,
}

-- The parts of a definition that a schedule takes.
pub record SpecialistDefinition : Type 0 where
  pub compose_prompt : SpecialistRuntimeInput → List UntrustedSpan → SpecialistPromptComposition
  pub parse_output : String → Option Output

-- The fields of the snapshot that are read; none is `undefined`.
pub record ConfigSnapshot : Type 0 where
  pub specialists : Option (List Json)
  pub specialist_ids : Option (List String)

abbrev pub raw_profiles : Option (List Json) → List Json
raw_profiles none = []
raw_profiles (some inputs) = inputs

abbrev pub declared_ids : Option (List String) → List SpecialistProfile → List String
declared_ids none profiles = map (λ (p : SpecialistProfile). p.id) profiles
declared_ids (some ids) profiles = ids

-- `registry` is `SPECIALIST_REGISTRY`, without the members that an object inherits.
module _ (registry : List (String × SpecialistDefinition)) where
  abbrev pub implemented :
      SpecialistProfile → ℕ → Option SpecialistDefinition → Result ScheduledSpecialist
  implemented profile ordinal none = threw (no_implementation profile.id)
  implemented profile ordinal (some definition) = returned (record {
    specialist_id = profile.id;
    ordinal = ordinal;
    tools_allowlist = profile.tools_allowlist;
    compose_prompt = definition.compose_prompt;
    parse_output = definition.parse_output;
  })

  -- `ordered.map((profile, ordinal) => …)`, up to the first that throws.
  abbrev pub schedule_from : ℕ → List SpecialistProfile → Result (List ScheduledSpecialist)
  schedule_from ordinal [] = returned []
  schedule_from ordinal (profile ∷ profiles) = do
    first ← implemented profile ordinal (map_get profile.id registry)
    rest ← schedule_from (suc ordinal) profiles
    returned (first ∷ rest)

  -- `safe_parse` is `SpecialistProfileSchema.safeParse`.
  unfoldable pub resolve_scheduled_specialists :
      (Json → Option SpecialistProfile) → ConfigSnapshot → Result (List ScheduledSpecialist)
  unfolding validate_specialist_profiles resolve_execution_order map_get
  resolve_scheduled_specialists safe_parse snapshot = do
    profiles ← validate_specialist_profiles safe_parse (raw_profiles snapshot.specialists)
    ordered ← resolve_execution_order (declared_ids snapshot.specialist_ids profiles) profiles
    schedule_from 0 ordered
