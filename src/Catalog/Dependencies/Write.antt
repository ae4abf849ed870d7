-- ===== src/Catalog/Dependencies/Write.antt =====
-- application/servicecatalog/service.go: the operations on dependencies.
use ddash.Base.{ℕ, suc, String, ℤ, Option, none, some, List, [], ◌∷◌}
use ddash.Effect.{Outcome, ok, err, Exec, pure}
use ddash.Store.{World}
use ddash.Catalog.Dependencies.Read
use ddash.Catalog.Dependencies.Parsing.{normalize_dependency_input, parse_dependency_inputs}

abbrev with_pair : Option (String × String) → (String → String → Exec World Unit) → Exec World Unit
with_pair none write = pure tt
with_pair (some (service, depends_on)) write = write service depends_on

unfoldable pub upsert_service_dependency : ℤ → String → String → Exec World Unit
unfolding normalize_dependency_input
upsert_service_dependency org service depends_on =
    with_pair (normalize_dependency_input service depends_on) (Read.upsert_service_dependency org)

unfoldable pub delete_service_dependency : ℤ → String → String → Exec World Unit
unfolding normalize_dependency_input
delete_service_dependency org service depends_on =
    with_pair (normalize_dependency_input service depends_on) (Read.delete_service_dependency org)

-- The count and the error, and the world that is left.
abbrev pub Added : Type 0
Added = (ℕ × Outcome) × World

abbrev add_next : ℕ → (ℕ → World → Added) → Outcome × World → Added
add_next added rest (ok _, w) = rest (suc added) w
add_next added rest (err e, w) = ((added, err e), w)

unfoldable pub add_each : ℤ → String → List String → ℕ → World → Added
add_each org service [] added w = ((added, ok tt), w)
add_each org service (d ∷ ds) added w =
    add_next added (add_each org service ds) (Read.upsert_service_dependency org service d w)

unfoldable pub upsert_service_dependencies : ℤ → String → String → World → Added
unfolding add_each parse_dependency_inputs
upsert_service_dependencies org service raw =
    add_each org service (parse_dependency_inputs service raw) 0
