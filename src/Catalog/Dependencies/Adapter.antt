-- ===== src/Catalog/Dependencies/Adapter.antt =====
-- adapters/sqlite/service_read_store.go: the methods of `Store` for dependencies.
use ddash.Base.{String, ℤ, not, ◌||◌, List, map, filter, if◌then◌else◌}
use ddash.Base.Text.{trim_space, is_empty, equal_fold}
use ddash.Effect.{Exec, pure, ◌>>=◌}
use ddash.Store.{World, call}
use ddash.Catalog.Dependencies.Queries

abbrev pub solid : List String → List String
solid names = filter (λ s. not (is_empty s)) (map trim_space names)

unfoldable pub list_service_dependencies : ℤ → String → Exec World (List String)
list_service_dependencies org service = do
  rows ← call (Queries.list_service_dependencies org (trim_space service))
  pure (solid rows)

unfoldable pub list_service_dependants : ℤ → String → Exec World (List String)
list_service_dependants org service = do
  rows ← call (Queries.list_service_dependants org (trim_space service))
  pure (solid rows)

unfoldable pub upsert_service_dependency : ℤ → String → String → Exec World Unit
upsert_service_dependency org service depends_on =
    if is_empty (trim_space service)
      || is_empty (trim_space depends_on)
      || equal_fold (trim_space service) (trim_space depends_on)
    then pure tt
    else call (Queries.upsert_service_dependency org (trim_space service) (trim_space depends_on))

unfoldable pub delete_service_dependency : ℤ → String → String → Exec World Unit
delete_service_dependency org service depends_on =
    if is_empty (trim_space service) || is_empty (trim_space depends_on)
    then pure tt
    else call (Queries.delete_service_dependency org (trim_space service) (trim_space depends_on))
