-- ===== src/Catalog/Tests.antt =====
-- A small catalog, on which the theorems about it are tried.
use ddash.Base.{
  ℕ, ◌+◌, ◌*◌, ◌<◌, ◌^◌, ◌≤◌, String, ◌==◌, ℤ, pos, negsuc, int_le, Bool, true, false, ◌||◌, List,
  [], ◌∷◌, any, count, length, All, some, none, ◌≡◌, ◌⊎◌, refl, arith, if◌then◌else◌,
}
use ddash.Base.Text.{trim_space, to_lower, is_empty, split_char}
use ddash.Effect.{Err, ok, err, Exec}
use ddash.Store.{Db, World}
use ddash.Integrations.Tests.{office}
use ddash.Environments.{has}
use ddash.Environments.Once.{stands_for, names, once}
use ddash.Catalog.Dependencies.Parsing.{parse_dependency_inputs, replace_separators}
use ddash.Catalog.Dependencies.Write.{upsert_service_dependencies}
use ddash.Catalog.Dependencies.Parsed.{parse_dependency_inputs-once}
use ddash.Catalog.Dependencies.Kept.{IsProper, upsert_service_dependencies-IsProper}
use ddash.Catalog.Dependencies.Added.{calm, depends, upsert_service_dependencies_lem}
use ddash.Catalog.Graph.{DependencyGraph, Building, add_dependencies, build_dependency_graph}
use ddash.Catalog.Graph.Edges.{IsGraph, build_dependency_graph-IsGraph}
use ddash.Catalog.LeadTimes.{LeadTimeSummary, percentile, summarize_lead_times, clamp_days}
use ddash.Catalog.LeadTimes.Bounds.{IsWithin, summarize_lead_times_bounds}

abbrev raw : String
raw = " billing, auth;orders,AUTH\nedge "

parsed : parse_dependency_inputs "orders" raw ≡ "billing" ∷ "auth" ∷ "edge" ∷ []
unfolding parse_dependency_inputs trim_space split_char ddash.Base.Text.equal_fold
parsed = refl

parse_dependency_inputs-once_example :
    count (stands_for "auth") (parse_dependency_inputs "orders" raw) ≡ (
      if is_empty (trim_space "orders") || to_lower (trim_space "orders") == "auth"
      then 0
      else once (any (names "auth") (split_char 44 (replace_separators raw))))
parse_dependency_inputs-once_example = parse_dependency_inputs-once "auth" "orders" raw

empty-IsProper : IsProper office
empty-IsProper = record { rows = tt; once = λ org service on. omega arith }

upsert_service_dependencies-IsProper_example :
    IsProper (upsert_service_dependencies (pos 7) "orders" raw (calm [] office)).1.db
upsert_service_dependencies-IsProper_example =
    upsert_service_dependencies-IsProper (pos 7) "orders" raw (calm [] office) empty-IsProper

solid : is_empty (trim_space "orders") ≡ false
unfolding trim_space
solid = refl

upsert_service_dependencies_lem_example :
    (db' : Db) × (upsert_service_dependencies (pos 7) "orders" raw (calm [] office)
      ≡ ((length (parse_dependency_inputs "orders" raw), ok tt), calm [] db'))
    × ((k : String)
        → depends (pos 7) "orders" k db'
          ≡ depends (pos 7) "orders" k office || has k (parse_dependency_inputs "orders" raw))
unfolding ddash.Base.int_eq
upsert_service_dependencies_lem_example =
    upsert_service_dependencies_lem (pos 7) "orders" [] raw office solid refl

titles : ℤ → Exec World (List String)
titles org w = (ok ("orders" ∷ "" ∷ "edge" ∷ []), w)

build_dependency_graph-IsGraph_example :
    ((e : Err) × ((build_dependency_graph titles (pos 7) (calm [] office)).0 ≡ err e))
    ⊎ ((g : DependencyGraph) × ((build_dependency_graph titles (pos 7) (calm [] office)).0 ≡ ok g)
        × IsGraph g)
build_dependency_graph-IsGraph_example =
    build_dependency_graph-IsGraph titles (pos 7) (calm [] office)

abbrev nothing : Building
nothing = record { nodes = []; edges = []; seen_edges = [] }

-- Two edges that read alike are taken for one: the second dependency is lost.
lost :
    length (add_dependencies "a->b" ("c" ∷ []) (add_dependencies "a" ("b->c" ∷ []) nothing)).edges
    ≡ 1
unfolding add_dependencies
lost = refl

clamped : clamp_days (negsuc 4) + (clamp_days (pos 7) + clamp_days (pos 400)) ≡ 402
unfolding clamp_days
clamped = refl

median : percentile 50 (pos 1 ∷ pos 2 ∷ pos 8 ∷ pos 9 ∷ []) ≡ some (pos 2)
unfolding percentile
median = refl

within : (n : ℕ) → 1 ≤ n → n ≤ 9 → IsWithin 1 9 (pos n)
within n above below = record { size = n; is = refl; above = above; below = below }

summarize_lead_times_bounds_example :
    (s : LeadTimeSummary) × (summarize_lead_times (pos 8 ∷ pos 1 ∷ pos 9 ∷ []) ≡ some s)
    × (s.samples ≡ length (pos 8 ∷ pos 1 ∷ pos 9 ∷ []))
    × IsWithin 1 9 s.avg_seconds
    × IsWithin 1 9 s.p50_seconds
    × IsWithin 1 9 s.p95_seconds
    × (int_le s.p50_seconds s.p95_seconds ≡ true)
summarize_lead_times_bounds_example =
    summarize_lead_times_bounds 1 9 (pos 8) (pos 1 ∷ pos 9 ∷ [])
      (
        within 8 (omega arith) (omega arith),
        (within 1 (omega arith) (omega arith), (within 9 (omega arith) (omega arith), tt)),
      )
      (omega arith)
