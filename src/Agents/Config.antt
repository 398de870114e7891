-- ===== src/Agents/Config.antt =====
-- apps/control-plane/src/agents/agent-config.ts: which specialists a run may execute, in which order.
pub mod Schedules
pub mod Errors
use matrix_agent_workspace.Prelude.{
  ℕ, suc, String, Bool, true, false, Option, none, some, List, [], ◌∷◌, ◌++◌, map, any, not, ◌==◌,
  map_get, map_set, if◌then◌else◌,
}
use matrix_agent_workspace.Json.{Json}

pub data GatewayProvider : Type 0 where
  openai anthropic : GatewayProvider

pub record SpecialistProfile : Type 0 where
  pub id : String
  pub name : String
  pub model : String
  pub gateway_provider : GatewayProvider
  pub system_policy : String
  pub tools_allowlist : List String
  pub timeout_ms : ℕ
  pub max_output_tokens : ℕ
  pub enabled : Bool

-- `InvalidSpecialistConfigurationError`, by its message.
pub data InvalidConfiguration : Type 0 where
  invalid_profile : InvalidConfiguration
  tool_not_allowed disabled duplicate_id declared_twice not_configured :
      String → InvalidConfiguration
  no_specialist : InvalidConfiguration
  no_implementation : String → InvalidConfiguration

pub data Result {ℓ} (A : Type ℓ) : Type ℓ where
  threw : InvalidConfiguration → Result A
  returned : A → Result A

infixl 5 ◌>>=◌
abbrev pub ◌>>=◌ : {A B : Type 0} → Result A → (A → Result B) → Result B
threw e >>= f = threw e
returned a >>= f = f a

abbrev pub read_only_tool_allowlist : List String
read_only_tool_allowlist = "read_repository" ∷ "read_issue" ∷ "read_pull_request" ∷ []

-- `includes` and `Set.has`.
abbrev pub includes : String → List String → Bool
includes x xs = any (λ y. x == y) xs

abbrev pub is_read_only_tool : String → Bool
is_read_only_tool tool = includes tool read_only_tool_allowlist

abbrev pub check_tools : List String → SpecialistProfile → Result SpecialistProfile
check_tools [] profile = returned profile
check_tools (tool ∷ tools) profile =
    let rest = check_tools tools profile in
    if is_read_only_tool tool then rest else threw (tool_not_allowed tool)

abbrev pub check_enabled : SpecialistProfile → Result SpecialistProfile
check_enabled profile = if profile.enabled then returned profile else threw (disabled profile.id)

abbrev pub parsed : Option SpecialistProfile → Result SpecialistProfile
parsed none = threw invalid_profile
parsed (some profile) = returned profile

-- `safe_parse` is `SpecialistProfileSchema.safeParse`, none where it does not succeed.
unfoldable pub validate_specialist_profile :
    (Json → Option SpecialistProfile) → Json → Result SpecialistProfile
validate_specialist_profile safe_parse input = do
  profile ← parsed (safe_parse input)
  checked ← check_tools profile.tools_allowlist profile
  check_enabled checked

-- `inputs.map(validateSpecialistProfile)`, up to the first that throws.
abbrev pub validate_each :
    (Json → Option SpecialistProfile) → List Json → Result (List SpecialistProfile)
validate_each safe_parse [] = returned []
validate_each safe_parse (input ∷ inputs) = do
  profile ← validate_specialist_profile safe_parse input
  profiles ← validate_each safe_parse inputs
  returned (profile ∷ profiles)

-- The loop with the set of the ids so far; its value is that of the loop's end.
abbrev pub check_ids :
    List String → List SpecialistProfile → List SpecialistProfile → Result (List SpecialistProfile)
check_ids ids [] all = returned all
check_ids ids (profile ∷ profiles) all =
    let rest = check_ids (profile.id ∷ ids) profiles all in
    if includes profile.id ids then threw (duplicate_id profile.id) else rest

unfoldable pub validate_specialist_profiles :
    (Json → Option SpecialistProfile) → List Json → Result (List SpecialistProfile)
unfolding validate_specialist_profile
validate_specialist_profiles safe_parse inputs = do
  profiles ← validate_each safe_parse inputs
  check_ids [] profiles profiles

-- `new Map(profiles.map((p) => [p.id, p]))`.
abbrev pub by_id_from :
    List (String × SpecialistProfile) → List SpecialistProfile → List (String × SpecialistProfile)
by_id_from rows [] = rows
by_id_from rows (profile ∷ profiles) = by_id_from (map_set profile.id profile rows) profiles

-- The loop over the declared ids, with the ids so far and the profiles found.
abbrev pub found_profile :
    String
    → Option SpecialistProfile
    → Result (List SpecialistProfile)
    → Result (List SpecialistProfile)
found_profile id none rest = threw (not_configured id)
found_profile id (some profile) (threw e) = threw e
found_profile id (some profile) (returned profiles) = returned (profile ∷ profiles)

abbrev pub ordered :
    List (String × SpecialistProfile) → List String → List String → Result (List SpecialistProfile)
ordered by_id seen [] = returned []
ordered by_id seen (id ∷ ids) =
    let rest = ordered by_id (id ∷ seen) ids in
    if includes id seen then threw (declared_twice id) else found_profile id (map_get id by_id) rest

abbrev pub some_declared : List SpecialistProfile → Result (List SpecialistProfile)
some_declared [] = threw no_specialist
some_declared (profile ∷ profiles) = returned (profile ∷ profiles)

unfoldable pub resolve_execution_order :
    List String → List SpecialistProfile → Result (List SpecialistProfile)
unfolding map_get map_set
resolve_execution_order declared_ids profiles =
    ordered (by_id_from [] profiles) [] declared_ids >>= some_declared
