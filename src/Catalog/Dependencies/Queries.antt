-- ===== src/Catalog/Dependencies/Queries.antt =====
-- The queries of internal/db/queries on the table `service_dependencies`.
use Prim.Native.Char.{code}
use Prim.Native.String.{char_at}
use Prim.Native.String as Str
use ddash.Base.{
  String, ◌==◌, ℤ, int_eq, eqb, Bool, true, not, ◌&&◌, ◌||◌, List, [], ◌∷◌, ◌++◌, map, any, filter,
  sort_by, if◌then◌else◌,
}
use ddash.Effect.{ok, err, other, Exec}
use ddash.Store.{DependencyRow, Db}
use ddash.Store.Queries.{has_organization}
use ddash.Environments.{text_le}

abbrev pub is_edge : ℤ → String → String → DependencyRow → Bool
is_edge org service depends_on d =
    int_eq d.organization_id org
    && d.service_name == service
    && d.depends_on_service_name == depends_on

abbrev pub is_of_service : ℤ → String → DependencyRow → Bool
is_of_service org service d = int_eq d.organization_id org && d.service_name == service

unfoldable pub list_service_dependencies : ℤ → String → Exec Db (List String)
list_service_dependencies org service db = (
  ok (
      sort_by text_le (
        map (λ d. d.depends_on_service_name) (filter (is_of_service org service) db.dependencies))),
  db,
)

abbrev pub depends_on_service : ℤ → String → DependencyRow → Bool
depends_on_service org service d =
    int_eq d.organization_id org && d.depends_on_service_name == service

unfoldable pub list_service_dependants : ℤ → String → Exec Db (List String)
list_service_dependants org service db = (
  ok (
      sort_by text_le
        (map (λ d. d.service_name) (filter (depends_on_service org service) db.dependencies))),
  db,
)

abbrev pub new_edge : ℤ → String → String → DependencyRow
new_edge org service depends_on = record {
  organization_id = org;
  service_name = service;
  depends_on_service_name = depends_on;
}

-- CHECK (length(trim(…)) > 0), where SQLite's `trim` takes off spaces alone.
abbrev pub only_spaces : String → Bool
only_spaces Str.[] = true
only_spaces (Str.◌∷◌ c s) = eqb (code c) 32 && only_spaces s

unfoldable pub upsert_service_dependency : ℤ → String → String → Exec Db Unit
upsert_service_dependency org service depends_on db =
    if only_spaces service || only_spaces depends_on || service == depends_on
    then (err (other "CHECK constraint failed: service_dependencies"), db)
    else if any (is_edge org service depends_on) db.dependencies
    then (ok tt, db)
    else if has_organization org db
    then (
      ok tt,
      record db { dependencies = db.dependencies ++ new_edge org service depends_on ∷ [] },
    )
    else (err (other "FOREIGN KEY constraint failed"), db)

unfoldable pub delete_service_dependency : ℤ → String → String → Exec Db Unit
delete_service_dependency org service depends_on db = (
  ok tt,
  record db { dependencies = filter (λ d. not (is_edge org service depends_on d)) db.dependencies },
)
