-- ===== src/Github/World/GrantRows.antt =====
-- github/write-authorization.ts, databaseWriteGrantStore: the rows of the SQL store of one database. A
-- repository is found in any case of its letters, but a row conflicts with its own spelling only.
use matrix_agent_workspace.Prelude.{
  String, Bool, true, Option, none, some, List, [], ◌∷◌, ◌++◌, any, find, ◌==◌, ◌&&◌, if◌then◌else◌,
  ◌≡◌, refl, ◌∙◌, ap, arith, Bool-cases, inl, inr, any-snoc, any_mono, find-any, eq_iff, eq_self,
}
use matrix_agent_workspace.Github.Types.{
  WriteScope, WriteGrantStatus, GithubWriteGrant, Platform, scope_name,
}

-- `UNIQUE (workspace_id, repository, scope)`.
abbrev pub is_same_row : String → String → WriteScope → GithubWriteGrant → Bool
is_same_row workspace repository scope g =
    g.workspace_id == workspace
    && (g.repository == repository && scope_name g.scope == scope_name scope)

abbrev pub new_row : String → String → String → String → WriteScope → GithubWriteGrant
new_row id workspace granted_by repository scope = record {
  id = id;
  workspace_id = workspace;
  granted_by = granted_by;
  repository = repository;
  scope = scope;
  status = WriteGrantStatus.pending;
  approved_at = none;
  expires_at = none;
}

module _ (platform : Platform) where
  -- `WHERE workspace_id = … AND lower(repository) = lower(…) AND scope = …`.
  abbrev pub is_row_of : String → String → WriteScope → GithubWriteGrant → Bool
  is_row_of workspace repository scope g =
      g.workspace_id == workspace
      && (platform.to_lower_case g.repository == platform.to_lower_case repository
          && scope_name g.scope == scope_name scope)

  -- `LIMIT 1` without an order: the model takes the oldest row.
  unfoldable pub find_row :
      String → String → WriteScope → List GithubWriteGrant → Option GithubWriteGrant
  find_row workspace repository scope rows = find (is_row_of workspace repository scope) rows

  -- `INSERT … ON CONFLICT DO NOTHING RETURNING *`, and else the row that is found.
  unfoldable pub create_row :
      String
      → String
      → String
      → String
      → WriteScope
      → List GithubWriteGrant
      → Option GithubWriteGrant × List GithubWriteGrant
  unfolding find_row
  create_row id workspace granted_by repository scope rows =
      let grant = new_row id workspace granted_by repository scope in
      if any (is_same_row workspace repository scope) rows
      then (find_row workspace repository scope rows, rows)
      else (some grant, rows ++ grant ∷ [])

module _ (platform : Platform) (ws repo : String) (scope : WriteScope) where
  -- The table holds the repository's row in this spelling.
  Kept : List GithubWriteGrant → Type 0
  Kept rows = any (is_same_row ws repo scope) rows ≡ true

  create_row-Kept :
      (id by : String) (rows : List GithubWriteGrant)
      → Kept (create_row platform id ws by repo scope rows).1
  unfolding create_row Kept
  create_row-Kept id by rows = elim (Bool-cases (any (is_same_row ws repo scope) rows)) [
    | inl there ↦ rw there there
    | inr new ↦
        let itself : is_same_row ws repo scope (new_row id ws by repo scope) ≡ true =
          rw (eq_self ws, eq_self repo, eq_self (scope_name scope)) refl in
        let all = any-snoc (is_same_row ws repo scope) rows (new_row id ws by repo scope) in
        rw (new, all, new, itself) refl
  ]

  create_row-again :
      (id by : String) (rows : List GithubWriteGrant)
      → Kept rows
      → create_row platform id ws by repo scope rows ≡ (find_row platform ws repo scope rows, rows)
  unfolding create_row Kept
  create_row-again id by rows kept = rw kept refl

  find_row-Kept :
      (rows : List GithubWriteGrant)
      → Kept rows
      → (g : GithubWriteGrant) × (find_row platform ws repo scope rows ≡ some g)
        × (is_row_of platform ws repo scope g ≡ true)
  unfolding find_row Kept
  find_row-Kept rows kept =
      find-any (is_row_of platform ws repo scope) rows
        (any_mono (is_same_row ws repo scope) (is_row_of platform ws repo scope) rows as_found kept)
    where
      as_found :
          (g : GithubWriteGrant)
          → is_same_row ws repo scope g ≡ true
          → is_row_of platform ws repo scope g ≡ true
      as_found g h =
          let same : g.repository ≡ repo = (eq_iff g.repository repo).0 (ground (arith, h)) in
          let low =
            (eq_iff (platform.to_lower_case g.repository) (platform.to_lower_case repo)).1
              (ap platform.to_lower_case same) in
          ground (arith, h, low)

found_in_any_case :
    (platform : Platform) (ws repo repo' : String) (scope : WriteScope)
    (rows : List GithubWriteGrant)
    → platform.to_lower_case repo' ≡ platform.to_lower_case repo
    → find_row platform ws repo' scope rows ≡ find_row platform ws repo scope rows
unfolding find_row
found_in_any_case platform ws repo repo' scope rows = ap (λ low.
    find
      (λ (g : GithubWriteGrant).
        g.workspace_id == ws
        && (platform.to_lower_case g.repository == low && scope_name g.scope == scope_name scope))
      rows)

-- After a grant is created for a repository in the SQL store, the store finds a grant of the
-- workspace and the scope under every spelling of the repository's name that differs in case only,
-- and its repository is this one up to case. Creating one again in the same spelling changes nothing
-- and returns the grant that is found.
pub find_row-create_row :
    (platform : Platform) (id by id' by' ws repo repo' : String) (scope : WriteScope)
    (rows : List GithubWriteGrant)
    → platform.to_lower_case repo' ≡ platform.to_lower_case repo
    → let rows' = (create_row platform id ws by repo scope rows).1 in
      ((g : GithubWriteGrant) × (find_row platform ws repo' scope rows' ≡ some g)
        × (is_row_of platform ws repo scope g ≡ true))
      × (create_row platform id' ws by' repo scope rows'
          ≡ (find_row platform ws repo scope rows', rows'))
find_row-create_row platform id by id' by' ws repo repo' scope rows same =
    let kept = create_row-Kept platform ws repo scope id by rows in
    let rows' = (create_row platform id ws by repo scope rows).1 in
    let (g, found, own) = find_row-Kept platform ws repo scope rows' kept in
    (
      (g, found_in_any_case platform ws repo repo' scope rows' same ∙ found, own),
      create_row-again platform ws repo scope id' by' rows' kept,
    )
