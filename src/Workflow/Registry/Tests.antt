-- ===== src/Workflow/Registry/Tests.antt =====
-- A schedule of one specialist.
use matrix_agent_workspace.Prelude.{String, true, Option, none, some, List, [], ◌∷◌, ◌≡◌, refl}
use matrix_agent_workspace.Json.{Json, null, field, str, end}
use matrix_agent_workspace.Agents.Config.{
  GatewayProvider, SpecialistProfile, returned, validate_specialist_profiles,
}
use matrix_agent_workspace.Workflow.Types.{ScheduledSpecialist}
use matrix_agent_workspace.Workflow.Registry.{
  SpecialistDefinition, ConfigSnapshot, raw_profiles, declared_ids, resolve_scheduled_specialists,
}
use matrix_agent_workspace.Workflow.Registry.Schedule.{
  IsDeclared, resolve_scheduled_specialists-IsDeclared,
}

abbrev profile : SpecialistProfile
profile = record {
  id = "issue-reader";
  name = "Issues";
  model = "model";
  gateway_provider = GatewayProvider.anthropic;
  system_policy = "read";
  tools_allowlist = "read_issue" ∷ [];
  timeout_ms = 1000;
  max_output_tokens = 4096;
  enabled = true;
}

abbrev safe_parse : Json → Option SpecialistProfile
safe_parse input = some profile

abbrev definition : SpecialistDefinition
definition = record {
  compose_prompt = λ input spans. record { system = "policy"; prompt = input.prompt };
  parse_output = λ t. some (field "summary" (str t) end);
}

abbrev registry : List (String × SpecialistDefinition)
registry = ("issue-reader", definition) ∷ []

abbrev snapshot : ConfigSnapshot
snapshot = record { specialists = some (null ∷ []); specialist_ids = none }

abbrev schedule : List ScheduledSpecialist
schedule =
    (record {
      specialist_id = "issue-reader";
      ordinal = 0;
      tools_allowlist = "read_issue" ∷ [];
      compose_prompt = definition.compose_prompt;
      parse_output = definition.parse_output;
    })
    ∷ []

resolve_scheduled_specialists-IsDeclared_example :
    (profiles : List SpecialistProfile) × ((validate_specialist_profiles safe_parse
          (raw_profiles snapshot.specialists)
        ≡ returned profiles)
      × IsDeclared (declared_ids snapshot.specialist_ids profiles) schedule)
unfolding resolve_scheduled_specialists
resolve_scheduled_specialists-IsDeclared_example =
    resolve_scheduled_specialists-IsDeclared registry safe_parse snapshot schedule refl
