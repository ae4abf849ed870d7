-- ===== src/Catalog/Dependencies/Read.antt =====
-- services/service_read.go: the methods of ServiceReadService for dependencies.
use ddash.Base.{String, ℤ, ◌||◌, if◌then◌else◌}
use ddash.Base.Text.{trim_space, is_empty, equal_fold}
use ddash.Effect.{Exec, pure}
use ddash.Store.{World}
use ddash.Catalog.Dependencies.Adapter

unfoldable pub upsert_service_dependency : ℤ → String → String → Exec World Unit
upsert_service_dependency org service depends_on =
    if is_empty (trim_space service) || is_empty (trim_space depends_on)
    then pure tt
    else if equal_fold (trim_space service) (trim_space depends_on)
    then pure tt
    else Adapter.upsert_service_dependency org (trim_space service) (trim_space depends_on)

unfoldable pub delete_service_dependency : ℤ → String → String → Exec World Unit
delete_service_dependency org service depends_on =
    if is_empty (trim_space service) || is_empty (trim_space depends_on)
    then pure tt
    else Adapter.delete_service_dependency org (trim_space service) (trim_space depends_on)
