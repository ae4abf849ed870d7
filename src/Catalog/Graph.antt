-- ===== src/Catalog/Graph.antt =====
-- `BuildDependencyGraph` of apps/ddash/internal/application/servicecatalog/service.go. The maps are
-- lists of the keys put in; a node's id is its name. The names of an organization's services come
-- from the projections, so the action that lists them is a parameter.
pub mod Edges
use ddash.Base.{String, ◌==◌, ℤ, Bool, true, List, [], ◌∷◌, ◌++◌, any, sort_by, if◌then◌else◌}
use Prim.Native.String.{◌++◌ as append}
use ddash.Base.Text.{is_empty}
use ddash.Effect.{Exec, pure, ◌>>=◌}
use ddash.Store.{World}
use ddash.Environments.{has, text_le}
use ddash.Catalog.Dependencies.Adapter

pub record GraphEdge : Type 0 where
  pub from : String
  pub to : String

pub record DependencyGraph : Type 0 where
  pub nodes : List String
  pub edges : List GraphEdge

-- The variables of the loop, of which the keys of `seenEdges` are the edges' keys.
pub record Building : Type 0 where
  pub nodes : List String
  pub edges : List GraphEdge
  pub seen_edges : List String

abbrev pub put_node : String → List String → List String
put_node name nodes = if has name nodes then nodes else nodes ++ name ∷ []

abbrev pub edge_key : GraphEdge → String
edge_key e = append e.from (append "->" e.to)

unfoldable pub add_edge : GraphEdge → Building → Building
add_edge e b =
    if has (edge_key e) b.seen_edges then record b { nodes = put_node e.to b.nodes } else record {
      nodes = put_node e.to b.nodes;
      edges = b.edges ++ e ∷ [];
      seen_edges = edge_key e ∷ b.seen_edges;
    }

-- The inner loop, over the dependencies of a service.
unfoldable pub add_dependencies : String → List String → Building → Building
unfolding add_edge
add_dependencies name [] b = b
add_dependencies name (d ∷ ds) b =
    add_dependencies name ds (if is_empty d then b else add_edge (record { from = name; to = d }) b)

-- The outer loop, over the titles of the services.
unfoldable pub add_services : ℤ → List String → Building → Exec World Building
unfolding add_dependencies
add_services org [] b = pure b
add_services org (name ∷ names) b =
    let skipped = add_services org names b in
    let taken = (do
      ds ← Adapter.list_service_dependencies org name
      add_services org names
          (add_dependencies name ds (record b { nodes = put_node name b.nodes }))) in
    if is_empty name then skipped else taken

abbrev pub edge_le : GraphEdge → GraphEdge → Bool
edge_le a b = if a.from == b.from then text_le a.to b.to else text_le a.from b.from

abbrev pub finished : Building → DependencyGraph
finished b = record { nodes = sort_by text_le b.nodes; edges = sort_by edge_le b.edges }

unfoldable pub build_dependency_graph :
    (ℤ → Exec World (List String)) → ℤ → Exec World DependencyGraph
unfolding add_services
build_dependency_graph list_titles org = do
  titles ← list_titles org
  b ← add_services org titles (record { nodes = []; edges = []; seen_edges = [] })
  pure (finished b)
