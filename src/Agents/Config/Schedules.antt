-- ===== src/Agents/Config/Schedules.antt =====
-- apps/control-plane/src/agents/agent-config.ts: what is accepted is what was declared.
use matrix_agent_workspace.Prelude.{
  String, Bool, true, false, Option, none, some, List, [], ◌∷◌, map, ◌≡◌, refl, ◌∙◌, subst, map_get,
  map_set, All-map_get, All-map_set, All, if◌then◌else◌, Bool-cases, inl, inr,
}
use matrix_agent_workspace.Json.{Json}
use matrix_agent_workspace.Agents.Config.{
  SpecialistProfile, Result, threw, returned, includes, is_read_only_tool, check_tools,
  check_enabled, parsed, validate_specialist_profile, validate_each, check_ids,
  validate_specialist_profiles, by_id_from, found_profile, ordered, some_declared,
  resolve_execution_order, ◌>>=◌, disabled,
}

-- A profile that may run: all its tools are read-only, and it is enabled.
abbrev pub Runnable : SpecialistProfile → Type 0
Runnable p = All (λ t. is_read_only_tool t ≡ true) p.tools_allowlist × (p.enabled ≡ true)

pub bound :
    {A B : Type 0} (r : Result A) (f : A → Result B) {b : B}
    → (r >>= f) ≡ returned b
    → (a : A) × ((r ≡ returned a) × (f a ≡ returned b))
bound (threw e) f h = cc
bound (returned a) f h = (a, (refl, h))

pub returned_inj : {A : Type 0} {a b : A} → returned a ≡ returned b → a ≡ b
returned_inj h = cc

check_tools-ok :
    (tools : List String) (p q : SpecialistProfile)
    → check_tools tools p ≡ returned q
    → (p ≡ q) × All (λ t. is_read_only_tool t ≡ true) tools
check_tools-ok [] p q h = (returned_inj h, tt)
check_tools-ok (t ∷ tools) p q h = elim (Bool-cases (is_read_only_tool t)) [
  | inl ok ↦ let (e, rest) = check_tools-ok tools p q (rw ok at h) in (e, (ok, rest))
  | inr bad ↦ let h' = rw bad at h in cc
]

check_enabled-ok :
    (p q : SpecialistProfile) → check_enabled p ≡ returned q → (p ≡ q) × (p.enabled ≡ true)
check_enabled-ok p q h = go p.enabled refl h
  where
    go :
        (on : Bool)
        → p.enabled ≡ on
        → (if on then returned p else threw (disabled p.id)) ≡ returned q
        → (p ≡ q) × (p.enabled ≡ true)
    go true e h = (returned_inj h, e)
    go false e h = cc

module _ (safe_parse : Json → Option SpecialistProfile) where
  validate-Runnable :
      (input : Json) (p : SpecialistProfile)
      → validate_specialist_profile safe_parse input ≡ returned p
      → Runnable p
  unfolding validate_specialist_profile
  validate-Runnable input p h0 =
      let (read, (_, h1)) = bound (parsed (safe_parse input)) _ h0 in
      let (checked, (h2, h3)) = bound (check_tools read.tools_allowlist read) _ h1 in
      let (same, tools) = check_tools-ok read.tools_allowlist read checked h2 in
      let (same', on) = check_enabled-ok checked p h3 in
      let e : read ≡ p = same ∙ same' in
      (
        subst (λ r. All (λ t. is_read_only_tool t ≡ true) r.tools_allowlist) e tools,
        subst (λ (r : SpecialistProfile). r.enabled ≡ true) same' on,
      )

  validate_each-Runnable :
      (inputs : List Json) (ps : List SpecialistProfile)
      → validate_each safe_parse inputs ≡ returned ps
      → All Runnable ps
  validate_each-Runnable [] ps h = rw (← returned_inj h) tt
  validate_each-Runnable (input ∷ inputs) ps h0 =
      let (p, (h1, h2)) = bound (validate_specialist_profile safe_parse input) _ h0 in
      let (qs, (h3, h4)) = bound (validate_each safe_parse inputs) _ h2 in
      rw (← returned_inj h4) (validate-Runnable input p h1, validate_each-Runnable inputs qs h3)

check_ids_same :
    (ids : List String) (ps all qs : List SpecialistProfile)
    → check_ids ids ps all ≡ returned qs
    → all ≡ qs
check_ids_same ids [] all qs h = returned_inj h
check_ids_same ids (p ∷ ps) all qs h = elim (Bool-cases (includes p.id ids)) [
  | inl twice ↦ let h' = rw twice at h in cc
  | inr once ↦ check_ids_same (p.id ∷ ids) ps all qs (rw once at h)
]

-- Only profiles with read-only tools that are enabled are accepted.
pub profiles-Runnable :
    (safe_parse : Json → Option SpecialistProfile) (inputs : List Json)
    (ps : List SpecialistProfile)
    → validate_specialist_profiles safe_parse inputs ≡ returned ps
    → All Runnable ps
unfolding validate_specialist_profiles
profiles-Runnable safe_parse inputs ps h0 =
    let (all, (h1, h2)) = bound (validate_each safe_parse inputs) _ h0 in
    subst (All Runnable) (check_ids_same [] all all ps h2)
      (validate_each-Runnable safe_parse inputs all h1)

-- A row of the map: its key is its profile's id.
abbrev Keyed : String → SpecialistProfile → Type 0
Keyed id p = (p.id ≡ id) × Runnable p

by_id_from-Keyed :
    (ps : List SpecialistProfile) (rows : List (String × SpecialistProfile))
    → All Runnable ps
    → All (λ (r : String × SpecialistProfile). Keyed r.0 r.1) rows
    → All (λ (r : String × SpecialistProfile). Keyed r.0 r.1) (by_id_from rows ps)
by_id_from-Keyed [] rows h k = k
by_id_from-Keyed (p ∷ ps) rows h k =
    by_id_from-Keyed ps (map_set p.id p rows) h.1 (All-map_set Keyed p.id p rows (refl, h.0) k)

abbrev pub ids_of : List SpecialistProfile → List String
ids_of ps = map (λ (p : SpecialistProfile). p.id) ps

-- The profiles are those of the ids, in order.
abbrev pub Declared : List String → List SpecialistProfile → Type 0
Declared ids ps = (ids_of ps ≡ ids) × All Runnable ps

found_profile-Declared :
    (id : String) (ids : List String) (o : Option SpecialistProfile)
    (rest : Result (List SpecialistProfile)) (ps : List SpecialistProfile)
    → ((p : SpecialistProfile) → o ≡ some p → Keyed id p)
    → ((qs : List SpecialistProfile) → rest ≡ returned qs → Declared ids qs)
    → found_profile id o rest ≡ returned ps
    → Declared (id ∷ ids) ps
found_profile-Declared id ids none rest ps k r h = cc
found_profile-Declared id ids (some p) (threw e) ps k r h = cc
found_profile-Declared id ids (some p) (returned qs) ps k r h =
    let (same, ok) = k p refl in
    let (order, all_ok) = r qs refl in rw (← returned_inj h) (rw (same, order) refl, (ok, all_ok))

ordered-Declared :
    (rows : List (String × SpecialistProfile)) (seen ids : List String)
    (ps : List SpecialistProfile)
    → All (λ (r : String × SpecialistProfile). Keyed r.0 r.1) rows
    → ordered rows seen ids ≡ returned ps
    → Declared ids ps
ordered-Declared rows seen [] ps k h = rw (← returned_inj h) (refl, tt)
ordered-Declared rows seen (id ∷ ids) ps k h = elim (Bool-cases (includes id seen)) [
  | inl old ↦ let h' = rw old at h in cc
  | inr new ↦
      found_profile-Declared id ids (map_get id rows) (ordered rows (id ∷ seen) ids) ps
        (λ p e. All-map_get Keyed id rows k e)
        (λ qs e. ordered-Declared rows (id ∷ seen) ids qs k e) (rw new at h)
]

some_declared_same : (ps qs : List SpecialistProfile) → some_declared ps ≡ returned qs → ps ≡ qs
some_declared_same [] qs h = cc
some_declared_same (p ∷ ps) qs h = returned_inj h

pub resolve_execution_order-Declared :
    (ids : List String) (profiles ps : List SpecialistProfile)
    → All Runnable profiles
    → resolve_execution_order ids profiles ≡ returned ps
    → Declared ids ps
unfolding resolve_execution_order
resolve_execution_order-Declared ids profiles ps ok h0 =
    let rows = by_id_from [] profiles in
    let (qs, (h1, h2)) = bound (ordered rows [] ids) some_declared h0 in
    subst (Declared ids) (some_declared_same qs ps h2)
      (ordered-Declared rows [] ids qs (by_id_from-Keyed profiles [] ok tt) h1)
