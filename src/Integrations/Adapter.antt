-- ===== src/Integrations/Adapter.antt =====
-- adapters/sqlite/store.go: the methods of `Store` that serve the integrations. A stored row and
-- the port's value have the same fields, so one record stands for both.
use ddash.Base.{ℕ, zero, suc, String, ℤ, List}
use ddash.Base.Text.{trim_space}
use ddash.Effect.{no_rows, Exec, pure, raise, ◌>>=◌}
use ddash.Store.{InstallationRow, ProjectRow, IntentRow, World, call}
use ddash.Store.Adapter.{Organization, map_organization}
use ddash.Integrations.Queries

abbrev pub trim_installation : InstallationRow → InstallationRow
trim_installation m = record m {
  organization_label = trim_space m.organization_label;
  default_environment = trim_space m.default_environment;
}

unfoldable pub upsert_github_installation_mapping : InstallationRow → Exec World Unit
upsert_github_installation_mapping m =
    call (Queries.upsert_github_installation_mapping (trim_installation m))

unfoldable pub list_github_installation_mappings : ℤ → Exec World (List InstallationRow)
list_github_installation_mappings org = call (Queries.list_github_installation_mappings org)

abbrev pub some_deleted : ℕ → Exec World Unit
some_deleted zero = raise no_rows
some_deleted (suc n) = pure tt

unfoldable pub delete_github_installation_mapping : ℤ → ℤ → Exec World Unit
delete_github_installation_mapping id org = do
  deleted ← call (Queries.delete_github_installation_mapping id org)
  some_deleted deleted

unfoldable pub get_organization_by_github_installation_id : ℤ → Exec World Organization
get_organization_by_github_installation_id id = do
  row ← call (Queries.get_organization_by_github_installation_id id)
  pure (map_organization row)

abbrev pub trim_intent : IntentRow → IntentRow
trim_intent s = record s {
  state = trim_space s.state;
  organization_label = trim_space s.organization_label;
  default_environment = trim_space s.default_environment;
}

unfoldable pub create_github_setup_intent : IntentRow → Exec World Unit
create_github_setup_intent s = call (Queries.create_github_setup_intent (trim_intent s))

unfoldable pub get_github_setup_intent_by_state : String → Exec World IntentRow
get_github_setup_intent_by_state state =
    call (Queries.get_github_setup_intent_by_state (trim_space state))

unfoldable pub delete_github_setup_intent : String → Exec World Unit
delete_github_setup_intent state = call (Queries.delete_github_setup_intent (trim_space state))

unfoldable pub upsert_gitlab_project_mapping : ProjectRow → Exec World Unit
upsert_gitlab_project_mapping m = call (
    Queries.upsert_gitlab_project_mapping (record m {
      project_path = trim_space m.project_path;
      default_environment = trim_space m.default_environment;
    }))

unfoldable pub get_organization_by_gitlab_project_id : ℤ → Exec World Organization
get_organization_by_gitlab_project_id id = do
  row ← call (Queries.get_organization_by_gitlab_project_id id)
  pure (map_organization row)
