-- ===== src/Github/World/Tables.antt =====
-- What creating a grant leaves alone.
pub use matrix_agent_workspace.Prelude.{map_get-map_set}
use matrix_agent_workspace.Prelude.{String, some, ◌≡◌, refl, Option, none}
use matrix_agent_workspace.Github.Types.{WriteScope, WriteGrantStatus, GithubWriteGrant, Platform}
use matrix_agent_workspace.Github.World.{World, map_set, find_grant, grant_key, create_grant}

-- Creating a grant leaves the commands and GitHub alone.
pub create_grant-rest :
    (platform : Platform) (id workspace by repository : String) (scope : WriteScope) (w : World)
    → let w' = (create_grant platform id workspace by repository scope w).1 in
      (w'.commands ≡ w.commands) × (w'.mutations ≡ w.mutations)
unfolding create_grant
create_grant-rest platform id workspace by repository scope w =
    by_grant (find_grant platform workspace repository scope w)
  where
    new : GithubWriteGrant
    new = record {
      id = id;
      workspace_id = workspace;
      granted_by = by;
      repository = repository;
      scope = scope;
      status = WriteGrantStatus.pending;
      approved_at = none;
      expires_at = none;
    }

    by_grant :
        (g : Option GithubWriteGrant)
        → let w' =
            (elim g as (λ y. GithubWriteGrant × World) [
              | some existing ↦ (existing, w)
              | none ↦ (
                new,
                record w {
                  grants = map_set (grant_key platform workspace repository scope) new w.grants;
                },
              )
            ]).1 in
          (w'.commands ≡ w.commands) × (w'.mutations ≡ w.mutations)
    by_grant (some g) = (refl, refl)
    by_grant none = (refl, refl)
