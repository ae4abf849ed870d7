-- ===== src/Catalog/Graph/Edges.antt =====
-- The graph holds each node and each edge once, and the ends of each edge.
use ddash.Base.{
  ◌≤◌, String, ◌==◌, eq_iff, eq_refl, ℤ, Bool, true, false, ◌||◌, List, [], ◌∷◌, ◌++◌, count,
  count-append, count-sort_by, All, All-append, All-sort_by, ◌≡◌, refl, ◌∙◌, ◌⊎◌, inl, inr, arith,
  Bool-cases,
}
use ddash.Base.Text.{is_empty}
use ddash.Effect.{Err, Result-cases, ok, err, Exec, ◌>>=◌}
use ddash.Store.{World}
use ddash.Environments.{has, text_le}
use ddash.Environments.Once.{once}
use ddash.Catalog.Dependencies.Adapter
use ddash.Catalog.Graph.{
  GraphEdge, DependencyGraph, Building, put_node, edge_key, add_edge, add_dependencies,
  add_services, edge_le, finished, build_dependency_graph,
}

abbrev pub is_named : String → String → Bool
is_named name node = node == name

abbrev pub has_key : String → GraphEdge → Bool
has_key key e = edge_key e == key

abbrev pub Ends : List String → GraphEdge → Type 0
Ends nodes e = (has e.from nodes ≡ true) × (has e.to nodes ≡ true)

-- What holds of the loop's variables at every round.
pub record IsBuilt (b : Building) : Type 0 where
  pub nodes_once : (name : String) → count (is_named name) b.nodes ≡ once (has name b.nodes)
  pub edges_once : (key : String) → count (has_key key) b.edges ≡ once (has key b.seen_edges)
  pub ends : All (Ends b.nodes) b.edges

has-append : (k x : String) (xs : List String) → has k (xs ++ x ∷ []) ≡ has k xs || x == k
has-append k x [] = ground arith
has-append k x (y ∷ xs) = ground (arith, has-append k x xs)

has-put_node : (k x : String) (xs : List String) → has k (put_node x xs) ≡ has k xs || x == k
has-put_node k x xs = elim (Bool-cases (has x xs)) [
  | inl there ↦ elim (Bool-cases (x == k)) [
    | inl same ↦
        let there' : has k xs ≡ true = rw ((eq_iff x k).0 same) at there in rw (there, same, there')
    | inr other ↦ rw (there, other) (ground arith)
  ]
  | inr fresh ↦ rw fresh (has-append k x xs)
]

count-put_node :
    (k x : String) (xs : List String)
    → count (is_named k) xs ≡ once (has k xs)
    → count (is_named k) (put_node x xs) ≡ once (has k (put_node x xs))
count-put_node k x xs h = elim (Bool-cases (has x xs)) [
  | inl there ↦ rw there h
  | inr fresh ↦
      rw (fresh, count-append (is_named k) xs (x ∷ []), has-append k x xs, h)
        (elim (Bool-cases (x == k)) [
          | inl same ↦
              let fresh' : has k xs ≡ false = rw ((eq_iff x k).0 same) at fresh in
              rw (same, fresh') (omega arith)
          | inr other ↦ rw other (ground arith)
        ])
]

Ends-put_node :
    (x : String) (nodes : List String) (es : List GraphEdge)
    → All (Ends nodes) es
    → All (Ends (put_node x nodes)) es
Ends-put_node x nodes [] h = tt
Ends-put_node x nodes (e ∷ es) ((from, to), hs) = (
  (rw (has-put_node e.from x nodes, from), rw (has-put_node e.to x nodes, to)),
  Ends-put_node x nodes es hs,
)

put_node-IsBuilt :
    (x : String) (b : Building) → IsBuilt b → IsBuilt (record b { nodes = put_node x b.nodes })
put_node-IsBuilt x b h = record {
  nodes_once = λ k. count-put_node k x b.nodes (h.nodes_once k);
  edges_once = h.edges_once;
  ends = Ends-put_node x b.nodes b.edges h.ends;
}

add_edge-IsBuilt :
    (e : GraphEdge) (b : Building) → has e.from b.nodes ≡ true → IsBuilt b → IsBuilt (add_edge e b)
unfolding add_edge
add_edge-IsBuilt e b from h = elim (Bool-cases (has (edge_key e) b.seen_edges)) [
  | inl seen ↦ rw seen (put_node-IsBuilt e.to b h)
  | inr fresh ↦ rw fresh (record {
    nodes_once = λ k. count-put_node k e.to b.nodes (h.nodes_once k);
    edges_once = λ k.
        rw (count-append (has_key k) b.edges (e ∷ []), h.edges_once k)
          (elim (Bool-cases (edge_key e == k)) [
            | inl same ↦
                let fresh' : has k b.seen_edges ≡ false = rw ((eq_iff _ k).0 same) at fresh in
                rw (same, fresh') (omega arith)
            | inr other ↦ rw other (omega arith)
          ]);
    ends =
        All-append (Ends (put_node e.to b.nodes)) b.edges (e ∷ [])
          (Ends-put_node e.to b.nodes b.edges h.ends)
          (
            (
              rw (has-put_node e.from e.to b.nodes, from),
              has-put_node e.to e.to b.nodes ∙ rw (eq_refl e.to) (ground arith),
            ),
            tt,
          );
  })
]

named-add_edge :
    (k : String) (e : GraphEdge) (b : Building)
    → has k b.nodes ≡ true
    → has k (add_edge e b).nodes ≡ true
unfolding add_edge
named-add_edge k e b h = elim (Bool-cases (has (edge_key e) b.seen_edges)) [
  | inl seen ↦ rw seen (has-put_node k e.to b.nodes ∙ rw h)
  | inr fresh ↦ rw fresh (has-put_node k e.to b.nodes ∙ rw h)
]

add_dependencies-IsBuilt :
    (name : String) (ds : List String) (b : Building)
    → has name b.nodes ≡ true
    → IsBuilt b
    → IsBuilt (add_dependencies name ds b)
unfolding add_dependencies
add_dependencies-IsBuilt name [] b named h = h
add_dependencies-IsBuilt name (d ∷ ds) b named h = elim (Bool-cases (is_empty d)) [
  | inl blank ↦ rw blank (add_dependencies-IsBuilt name ds b named h)
  | inr given ↦
      let e : GraphEdge = record { from = name; to = d } in
      rw given (
        add_dependencies-IsBuilt name ds (add_edge e b) (named-add_edge name e b named)
          (add_edge-IsBuilt e b named h))
]

add_services-IsBuilt :
    (org : ℤ) (names : List String) (b : Building) (w : World)
    → IsBuilt b
    → ((e : Err) × ((add_services org names b w).0 ≡ err e))
      ⊎ ((b' : Building) × ((add_services org names b w).0 ≡ ok b') × IsBuilt b')
unfolding add_services ◌>>=◌
add_services-IsBuilt org [] b w h = inr (b, refl, h)
add_services-IsBuilt org (name ∷ names) b w h = elim (Bool-cases (is_empty name)) [
  | inl blank ↦ rw blank (add_services-IsBuilt org names b w h)
  | inr given ↦ rw given (elim (Result-cases (Adapter.list_service_dependencies org name w).0) [
    | inl (e, failed) ↦ rw failed (inl (e, refl))
    | inr (ds, read) ↦ rw read (
        let b' : Building = record b { nodes = put_node name b.nodes } in
        add_services-IsBuilt org names (add_dependencies name ds b')
          (Adapter.list_service_dependencies org name w).1
          (add_dependencies-IsBuilt name ds b'
            (has-put_node name name b.nodes ∙ rw (eq_refl name) (ground arith))
            (put_node-IsBuilt name b h)))
  ])
]

-- A graph with no node and no edge twice, and with the ends of its edges.
pub record IsGraph (g : DependencyGraph) : Type 0 where
  pub nodes_once : (name : String) → count (is_named name) g.nodes ≤ 1
  pub edges_once : (key : String) → count (has_key key) g.edges ≤ 1
  pub ends :
      All (λ e. (count (is_named e.from) g.nodes ≡ 1) × (count (is_named e.to) g.nodes ≡ 1)) g.edges

All-imply {ℓ} :
    {A : Type ℓ} (P Q : A → Type 0) (xs : List A) → ((x : A) → P x → Q x) → All P xs → All Q xs
All-imply P Q [] f h = tt
All-imply P Q (x ∷ xs) f (h, hs) = (f x h, All-imply P Q xs f hs)

finished-IsGraph : (b : Building) → IsBuilt b → IsGraph (finished b)
finished-IsGraph b h = record {
  nodes_once = λ k. rw (count-sort_by text_le (is_named k) b.nodes, h.nodes_once k) (ground arith);
  edges_once = λ k. rw (count-sort_by edge_le (has_key k) b.edges, h.edges_once k) (ground arith);
  ends = All-sort_by edge_le _ b.edges (
      All-imply (Ends b.nodes) _ b.edges
        (λ e (from, to). (
          count-sort_by text_le (is_named e.from) b.nodes ∙ h.nodes_once e.from ∙ rw from,
          count-sort_by text_le (is_named e.to) b.nodes ∙ h.nodes_once e.to ∙ rw to,
        ))
        h.ends);
}

-- Whatever titles are listed and whatever store calls fail: building the graph gives an error, or
-- a graph in which no node stands twice, no key of an edge stands twice, and the two ends of every
-- edge are nodes.
pub build_dependency_graph-IsGraph :
    (list_titles : ℤ → Exec World (List String)) (org : ℤ) (w : World)
    → ((e : Err) × ((build_dependency_graph list_titles org w).0 ≡ err e))
      ⊎ ((g : DependencyGraph) × ((build_dependency_graph list_titles org w).0 ≡ ok g) × IsGraph g)
unfolding build_dependency_graph ◌>>=◌
build_dependency_graph-IsGraph list_titles org w = elim (Result-cases (list_titles org w).0) [
  | inl (e, failed) ↦ rw failed (inl (e, refl))
  | inr (titles, listed) ↦
      rw listed
        (elim (add_services-IsBuilt org titles (record { nodes = []; edges = []; seen_edges = [] })
          (list_titles org w).1
          (record { nodes_once = λ k. refl; edges_once = λ k. refl; ends = tt })) [
            | inl (e, failed) ↦ rw failed (inl (e, refl))
            | inr (b, built, h) ↦ rw built (inr (finished b, refl, finished-IsGraph b h))
          ])
]
