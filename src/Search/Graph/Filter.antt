-- ===== src/Search/Graph/Filter.antt =====
-- `filter_graph` of search/graph.py. An id or a filter is checked as in search/filters.py.
pub mod Filtered
use sci_etl_core.Prelude.{
  ℕ, Text, Bool, true, false, ◌&&◌, ◌||◌, List, [], ◌∷◌, map, Option, none, some, mem, mem_self,
  mem-cons, text_eq, text_eq_refl, if◌then◌else◌, ◌≡◌, refl, sym, ap, ◌∙◌, arith, Bool-cases,
  Option-cases, inl, inr, some_inj,
}
use sci_etl_core.Search.Filters.{Metadata, SearchFilter, validate_filters, matches_filters}
use sci_etl_core.Search.Graph.Edges.{Edge}
use sci_etl_core.Search.Graph.Build.{GraphNode, DiscoveryGraph, degree_of}
use sci_etl_core.Search.Graph.Bounds.{inside, record_ids}

-- `node.record_id == graph.seed_record_id`.
unfoldable pub is_seed : Option Text → Text → Bool
is_seed none id = false
is_seed (some seed) id = text_eq id seed

unfoldable pub is_allowed : Option (List Text) → Text → Bool
unfolding mem
is_allowed none id = true
is_allowed (some ids) id = mem id ids

unfoldable pub keeps_node :
    Option Text → Option (List Text) → List SearchFilter → GraphNode Metadata → Bool
unfolding is_seed is_allowed
keeps_node seed matched_ids filters node =
    is_seed seed node.record_id
    || is_allowed matched_ids node.record_id && matches_filters node.metadata filters

unfoldable pub kept_nodes :
    (GraphNode Metadata → Bool) → List (GraphNode Metadata) → List (GraphNode Metadata)
kept_nodes keeps [] = []
kept_nodes keeps (n ∷ ns) = let rest = kept_nodes keeps ns in if keeps n then n ∷ rest else rest

-- The edges with both ends in `ids`.
unfoldable pub edges_inside : {W : Type 0} → List Text → List (Edge W) → List (Edge W)
unfolding mem
edges_inside ids [] = []
edges_inside ids (e ∷ es) =
    let rest = edges_inside ids es in
    if mem e.source ids && mem e.target ids then e ∷ rest else rest

-- `replace(node, degree=...)`.
unfoldable pub with_degree : {W : Type 0} → List (Edge W) → GraphNode Metadata → GraphNode Metadata
unfolding degree_of
with_degree es node = record node { degree = degree_of es node.record_id }

unfoldable pub kept_graph :
    {W : Type 0} → DiscoveryGraph Metadata W → List (GraphNode Metadata) → DiscoveryGraph Metadata W
unfolding edges_inside with_degree
kept_graph g kept =
    let es = edges_inside (record_ids kept) g.edges in
    record g { nodes = map (with_degree es) kept; edges = es }

-- `none` is a ValueError.
unfoldable pub filter_graph :
    {W : Type 0}
    → DiscoveryGraph Metadata W
    → Option (List Text)
    → List SearchFilter
    → Option (DiscoveryGraph Metadata W)
unfolding kept_graph kept_nodes keeps_node
filter_graph g matched_ids filters =
    if validate_filters filters none
    then some (kept_graph g (kept_nodes (keeps_node g.seed_record_id matched_ids filters) g.nodes))
    else none
