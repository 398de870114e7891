-- ===== src/Workflow/Registry/Schedule.antt =====
-- apps/control-plane/src/workflows/run-workflow.ts: the schedule is the one that was declared.
use matrix_agent_workspace.Prelude.{
  ℕ, suc, String, true, Option, none, some, List, [], ◌∷◌, map, map_get, ◌≡◌, refl, sym, ap, ◌∙◌,
  arith, All,
}
use matrix_agent_workspace.Json.{Json}
use matrix_agent_workspace.Agents.Config.{
  SpecialistProfile, returned, is_read_only_tool, validate_specialist_profiles,
  resolve_execution_order,
}
use matrix_agent_workspace.Agents.Config.Schedules.{
  Runnable, ids_of, bound, returned_inj, profiles-Runnable, resolve_execution_order-Declared,
}
use matrix_agent_workspace.Agents.Config.Errors.{
  succeeds, no_repeats, succeeds-resolve_execution_order,
}
use matrix_agent_workspace.Workflow.Types.{ScheduledSpecialist}
use matrix_agent_workspace.Workflow.Registry.{
  SpecialistDefinition, ConfigSnapshot, raw_profiles, declared_ids, implemented, schedule_from,
  resolve_scheduled_specialists,
}

abbrev pub scheduled_ids : List ScheduledSpecialist → List String
scheduled_ids specs = map (λ (s : ScheduledSpecialist). s.specialist_id) specs

-- The ordinals count from a number.
abbrev pub Counts : ℕ → List ScheduledSpecialist → Type 0
Counts n [] = Unit
Counts n (s ∷ specs) = (s.ordinal ≡ n) × Counts (suc n) specs

abbrev pub ReadOnly : ScheduledSpecialist → Type 0
ReadOnly s = All (λ t. is_read_only_tool t ≡ true) s.tools_allowlist

-- What a schedule that is accepted is, for the declared ids.
abbrev pub IsDeclared : List String → List ScheduledSpecialist → Type 0
IsDeclared ids specs =
    (scheduled_ids specs ≡ ids)
    × ((no_repeats (scheduled_ids specs) ≡ true) × (Counts 0 specs × All ReadOnly specs))

module _ (registry : List (String × SpecialistDefinition)) where
  abbrev AsProfile : SpecialistProfile → ℕ → ScheduledSpecialist → Type 0
  AsProfile p n s =
      (s.specialist_id ≡ p.id) × ((s.ordinal ≡ n) × (s.tools_allowlist ≡ p.tools_allowlist))

  implemented-AsProfile :
      (p : SpecialistProfile) (n : ℕ) (o : Option SpecialistDefinition) (s : ScheduledSpecialist)
      → implemented registry p n o ≡ returned s
      → AsProfile p n s
  implemented-AsProfile p n none s h = cc
  implemented-AsProfile p n (some d) s h = rw (← returned_inj h) (refl, (refl, refl))

  schedule_from-Counts :
      (n : ℕ) (ps : List SpecialistProfile) (specs : List ScheduledSpecialist)
      → All Runnable ps
      → schedule_from registry n ps ≡ returned specs
      → (scheduled_ids specs ≡ ids_of ps) × (Counts n specs × All ReadOnly specs)
  schedule_from-Counts n [] specs ok h = rw (← returned_inj h) (refl, (tt, tt))
  schedule_from-Counts n (p ∷ ps) specs ok h0 =
      let (s, (h1, h2)) = bound (implemented registry p n (map_get p.id registry)) _ h0 in
      let (rest, (h3, h4)) = bound (schedule_from registry (suc n) ps) _ h2 in
      let (id, (ordinal, tools)) = implemented-AsProfile p n (map_get p.id registry) s h1 in
      let (ids, (counts, read_only)) = schedule_from-Counts (suc n) ps rest ok.1 h3 in
      rw (← returned_inj h4) (rw (id, ids) refl, ((ordinal, counts), (rw tools ok.0.0, read_only)))

  -- A schedule that is accepted has exactly the declared specialists, in the declared order and none
  -- twice, with the ordinals 0, 1, …, and all their tools are read-only; the declared ones are the
  -- snapshot's ids, or those of its profiles where it names none.
  pub resolve_scheduled_specialists-IsDeclared :
      (safe_parse : Json → Option SpecialistProfile) (snapshot : ConfigSnapshot)
      (specs : List ScheduledSpecialist)
      → resolve_scheduled_specialists registry safe_parse snapshot ≡ returned specs
      → (profiles : List SpecialistProfile) × ((validate_specialist_profiles safe_parse
              (raw_profiles snapshot.specialists)
            ≡ returned profiles)
          × IsDeclared (declared_ids snapshot.specialist_ids profiles) specs)
  unfolding resolve_scheduled_specialists
  resolve_scheduled_specialists-IsDeclared safe_parse snapshot specs h0 =
      let (profiles, (h1, h2)) =
        bound (validate_specialist_profiles safe_parse (raw_profiles snapshot.specialists)) _ h0 in
      let ids = declared_ids snapshot.specialist_ids profiles in
      let (ps, (h3, h4)) = bound (resolve_execution_order ids profiles) _ h2 in
      let ok = profiles-Runnable safe_parse (raw_profiles snapshot.specialists) profiles h1 in
      let (order, runnable) = resolve_execution_order-Declared ids profiles ps ok h3 in
      let (same, (counts, read_only)) = schedule_from-Counts 0 ps specs runnable h4 in
      let accepted = sym (succeeds-resolve_execution_order ids profiles) ∙ ap succeeds h3 in
      (
        profiles,
        (h1, (same ∙ order, (rw (same ∙ order) (ground (arith, accepted)), (counts, read_only)))),
      )
