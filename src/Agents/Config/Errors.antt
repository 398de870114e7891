-- ===== src/Agents/Config/Errors.antt =====
-- apps/control-plane/src/agents/agent-config.ts: exactly which declarations are refused.
use matrix_agent_workspace.Prelude.{
  String, Bool, true, false, Option, none, some, List, [], ◌∷◌, any, not, ◌==◌, ◌&&◌, ◌||◌, ◌≡◌,
  refl, ◌∙◌, arith, map_get, map_set, map_get-map_set, eq_iff, Bool-cases, inl, inr,
}
use matrix_agent_workspace.Agents.Config.{
  SpecialistProfile, Result, threw, returned, includes, by_id_from, found_profile, ordered,
  some_declared, resolve_execution_order, ◌>>=◌,
}

abbrev pub succeeds {ℓ} : {A : Type ℓ} → Result A → Bool
succeeds (threw e) = false
succeeds (returned a) = true

-- The specification: what a declaration has to be.
abbrev pub all : (String → Bool) → List String → Bool
all p [] = true
all p (x ∷ xs) = p x && all p xs

abbrev pub no_repeats : List String → Bool
no_repeats [] = true
no_repeats (x ∷ xs) = not (includes x xs) && no_repeats xs

abbrev pub is_configured : List SpecialistProfile → String → Bool
is_configured profiles id = any (λ (p : SpecialistProfile). p.id == id) profiles

abbrev pub is_nil : List String → Bool
is_nil [] = true
is_nil (x ∷ xs) = false

abbrev is_some : {A : Type 0} → Option A → Bool
is_some none = false
is_some (some a) = true

abbrev is_key : List (String × SpecialistProfile) → String → Bool
is_key rows id = is_some (map_get id rows)

eq-sym : (s t : String) → (s == t) ≡ (t == s)
eq-sym s t = ground (arith, eq_iff s t, eq_iff t s)

is_key-by_id_from :
    (profiles : List SpecialistProfile) (rows : List (String × SpecialistProfile)) (id : String)
    → is_key (by_id_from rows profiles) id ≡ (is_key rows id || is_configured profiles id)
is_key-by_id_from [] rows id = ground arith
is_key-by_id_from (p ∷ profiles) rows id =
    is_key-by_id_from profiles (map_set p.id p rows) id ∙ elim (Bool-cases (p.id == id)) [
      | inl same ↦ rw (map_get-map_set id p.id p rows, same) (ground arith)
      | inr other ↦ rw (map_get-map_set id p.id p rows, other) refl
    ]

succeeds-found_profile :
    (id : String) (o : Option SpecialistProfile) (rest : Result (List SpecialistProfile))
    → succeeds (found_profile id o rest) ≡ (is_some o && succeeds rest)
succeeds-found_profile id none rest = refl
succeeds-found_profile id (some p) (threw e) = refl
succeeds-found_profile id (some p) (returned ps) = refl

abbrev new : List String → String → Bool
new seen id = not (includes id seen)

-- The ids after one are all new and other than it.
all-new :
    (x : String) (seen ids : List String)
    → all (new (x ∷ seen)) ids ≡ (not (includes x ids) && all (new seen) ids)
all-new x seen [] = refl
all-new x seen (y ∷ ids) = ground (arith, eq-sym x y, all-new x seen ids)

succeeds-ordered :
    (rows : List (String × SpecialistProfile)) (seen ids : List String)
    → succeeds (ordered rows seen ids)
      ≡ (all (new seen) ids && (no_repeats ids && all (is_key rows) ids))
succeeds-ordered rows seen [] = refl
succeeds-ordered rows seen (x ∷ ids) = elim (Bool-cases (includes x seen)) [
  | inl old ↦ rw old (ground arith)
  | inr fresh ↦
      rw
        (
          fresh,
          succeeds-found_profile x (map_get x rows) (ordered rows (x ∷ seen) ids),
          succeeds-ordered rows (x ∷ seen) ids,
          all-new x seen ids,
        )
        (ground arith)
]

all-ap :
    (p q : String → Bool) (ids : List String) → ((x : String) → p x ≡ q x) → all p ids ≡ all q ids
all-ap p q [] h = refl
all-ap p q (x ∷ ids) h = ground (arith, h x, all-ap p q ids h)

all-new_nil : (ids : List String) → all (new []) ids ≡ true
all-new_nil [] = refl
all-new_nil (x ∷ ids) = all-new_nil ids

found_is_some :
    (id : String) (o : Option SpecialistProfile) (rest : Result (List SpecialistProfile))
    → succeeds (found_profile id o rest >>= some_declared) ≡ succeeds (found_profile id o rest)
found_is_some id none rest = refl
found_is_some id (some p) (threw e) = refl
found_is_some id (some p) (returned ps) = refl

-- A declaration is accepted exactly if it names at least one specialist, none twice, and each of them
-- is configured; anything else is refused.
pub succeeds-resolve_execution_order :
    (ids : List String) (profiles : List SpecialistProfile)
    → succeeds (resolve_execution_order ids profiles)
      ≡ (not (is_nil ids) && (no_repeats ids && all (is_configured profiles) ids))
unfolding resolve_execution_order
succeeds-resolve_execution_order [] profiles = refl
succeeds-resolve_execution_order (x ∷ ids) profiles =
    found_is_some x (map_get x rows) (ordered rows (x ∷ []) ids)
    ∙ succeeds-ordered rows [] (x ∷ ids)
    ∙ rw
        (
          all-new_nil (x ∷ ids),
          all-ap (is_key rows) (is_configured profiles) (x ∷ ids)
              (λ id. is_key-by_id_from profiles [] id),
        )
        refl
  where
    rows : List (String × SpecialistProfile)
    rows = by_id_from [] profiles
