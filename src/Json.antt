-- ===== src/Json.antt =====
-- JSON values: model outputs, mutation arguments, provider results and events. `other_num` is any
-- number that is not a natural one (negative, a fraction): the code only refuses those.
use matrix_agent_workspace.Prelude.{ℕ, String, Bool, Option, none, some, if◌then◌else◌, ◌==◌}

mutual
  pub data Json : Type 0 where
    null : Json
    bool : Bool → Json
    num : ℕ → Json
    other_num : Json
    str : String → Json
    arr : Items → Json
    obj : Fields → Json

  pub data Items : Type 0 where
    nil : Items
    cons : Json → Items → Items

  pub data Fields : Type 0 where
    end : Fields
    field : String → Json → Fields → Fields

-- `object[key]`, where `none` is `undefined`.
abbrev pub get : String → Fields → Option Json
get key end = none
get key (field k v fs) = let rest = get key fs in if k == key then some v else rest
