-- ===== src/Integrations/Queries.antt =====
-- The queries of internal/db/queries on the tables of the integrations. `installation_id`,
-- `project_id` and `state` are primary keys.
use ddash.Base.{
  ℕ, String, ◌==◌, ℤ, int_eq, int_le, Bool, not, ◌&&◌, List, [], ◌∷◌, ◌++◌, map, find?, any, count,
  filter, sort_by, if◌then◌else◌,
}
use ddash.Effect.{other, ok, err, Exec}
use ddash.Store.{OrganizationRow, InstallationRow, ProjectRow, IntentRow, Db}
use ddash.Store.Queries.{row_or_none, has_organization}

abbrev pub is_installation : ℤ → InstallationRow → Bool
is_installation id m = int_eq m.installation_id id

abbrev pub is_project : ℤ → ProjectRow → Bool
is_project id m = int_eq m.project_id id

abbrev pub has_state : String → IntentRow → Bool
has_state state s = s.state == state

abbrev pub set_installations : List InstallationRow → Db → Db
set_installations rows db = record db { links = record db.links { installations = rows } }

abbrev pub set_projects : List ProjectRow → Db → Db
set_projects rows db = record db { links = record db.links { projects = rows } }

abbrev pub set_intents : List IntentRow → Db → Db
set_intents rows db = record db { links = record db.links { intents = rows } }

abbrev pub put_installation : InstallationRow → List InstallationRow → List InstallationRow
put_installation m rows =
    if any (is_installation m.installation_id) rows
    then map (λ r. if is_installation m.installation_id r then m else r) rows
    else rows ++ m ∷ []

abbrev pub put_project : ProjectRow → List ProjectRow → List ProjectRow
put_project m rows =
    if any (is_project m.project_id) rows
    then map (λ r. if is_project m.project_id r then m else r) rows
    else rows ++ m ∷ []

unfoldable pub upsert_github_installation_mapping : InstallationRow → Exec Db Unit
upsert_github_installation_mapping m db =
    if has_organization m.organization_id db
    then (ok tt, set_installations (put_installation m db.links.installations) db)
    else (err (other "FOREIGN KEY constraint failed"), db)

unfoldable pub list_github_installation_mappings : ℤ → Exec Db (List InstallationRow)
list_github_installation_mappings org db = (
  ok (
      sort_by (λ a b. int_le a.installation_id b.installation_id)
        (filter (λ m. int_eq m.organization_id org) db.links.installations)),
  db,
)

abbrev pub is_installation_of : ℤ → ℤ → InstallationRow → Bool
is_installation_of id org m = is_installation id m && int_eq m.organization_id org

-- The number of deleted rows.
unfoldable pub delete_github_installation_mapping : ℤ → ℤ → Exec Db ℕ
delete_github_installation_mapping id org db = (
  ok (count (is_installation_of id org) db.links.installations),
  set_installations (filter (λ m. not (is_installation_of id org m)) db.links.installations) db,
)

abbrev pub has_installation : ℤ → Db → OrganizationRow → Bool
has_installation id db o =
    o.enabled && any (λ m. is_installation_of id o.id m && m.enabled) db.links.installations

-- A join of the mapping, if it is enabled, with its organization, if that is.
unfoldable pub get_organization_by_github_installation_id : ℤ → Exec Db OrganizationRow
get_organization_by_github_installation_id id db =
    (row_or_none (find? (has_installation id db) db.organizations), db)

unfoldable pub upsert_gitlab_project_mapping : ProjectRow → Exec Db Unit
upsert_gitlab_project_mapping m db =
    if has_organization m.organization_id db
    then (ok tt, set_projects (put_project m db.links.projects) db)
    else (err (other "FOREIGN KEY constraint failed"), db)

abbrev pub has_project : ℤ → Db → OrganizationRow → Bool
has_project id db o =
    o.enabled
    && any (λ m. is_project id m && int_eq m.organization_id o.id && m.enabled) db.links.projects

unfoldable pub get_organization_by_gitlab_project_id : ℤ → Exec Db OrganizationRow
get_organization_by_gitlab_project_id id db =
    (row_or_none (find? (has_project id db) db.organizations), db)

unfoldable pub create_github_setup_intent : IntentRow → Exec Db Unit
create_github_setup_intent s db =
    if any (has_state s.state) db.links.intents
    then (err (other "UNIQUE constraint failed: github_setup_intents.state"), db)
    else if has_organization s.organization_id db
    then (ok tt, set_intents (db.links.intents ++ s ∷ []) db)
    else (err (other "FOREIGN KEY constraint failed"), db)

unfoldable pub get_github_setup_intent_by_state : String → Exec Db IntentRow
get_github_setup_intent_by_state state db =
    (row_or_none (find? (has_state state) db.links.intents), db)

unfoldable pub delete_github_setup_intent : String → Exec Db Unit
delete_github_setup_intent state db =
    (ok tt, set_intents (filter (λ s. not (has_state state s)) db.links.intents) db)
