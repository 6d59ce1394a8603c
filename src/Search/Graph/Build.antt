-- ===== src/Search/Graph/Build.antt =====
-- `build_discovery_graph` of search/graph.py and the data that it returns. The text store is a function
-- from an id to its title and metadata; the metadata is any type with an empty value.
use sci_etl_core.Prelude.{
  ℕ, zero, suc, Text, Bool, not, ◌&&◌, List, [], ◌∷◌, ◌++◌, map, Option, none, some, ltb, leb, mem,
  length, if◌then◌else◌,
}
use sci_etl_core.Search.Graph.Edges.{Weights, Edge, Lists, select_edges}
use sci_etl_core.Search.Graph.Connected.{adjacent, connected}
use sci_etl_core.Search.Graph.Fetch.{Result, failed, done, bind, Source, distinct, expansion, fetch}
use sci_etl_core.Search.Graph.Communities.{label_of, label_communities}

pub record GraphNode (M : Type 0) : Type 0 where
  pub record_id : Text
  pub title : Text
  pub degree : ℕ
  pub community : ℕ
  pub metadata : M

pub record DiscoveryGraph (M W : Type 0) : Type 0 where
  pub nodes : List (GraphNode M)
  pub edges : List (Edge W)
  pub seed_record_id : Option Text
  pub communities_converged : Bool

pub record GraphParams (W : Type 0) : Type 0 where
  pub depth : ℕ
  pub fanout : ℕ
  pub min_weight : W
  pub max_nodes : ℕ
  pub mutual_only : Bool
  pub max_iterations : ℕ

-- The checks of `GraphParams`, but for a negative `depth`.
unfoldable pub valid_params : {W : Type 0} → Weights W → GraphParams W → Bool
valid_params weights p =
    leb 1 p.fanout && (leb 1 p.max_nodes && (leb 1 p.max_iterations && weights.finite p.min_weight))

-- The number of distinct records that share an edge with one.
unfoldable pub degree_of : {W : Type 0} → List (Edge W) → Text → ℕ
unfolding adjacent distinct
degree_of es id = length (distinct [] (adjacent es id))

-- `edge.source in ids`.
unfoldable pub edges_from : {W : Type 0} → List Text → List (Edge W) → List (Edge W)
unfolding mem
edges_from ids [] = []
edges_from ids (e ∷ es) =
    let rest = edges_from ids es in if mem e.source ids then e ∷ rest else rest

unfoldable pub members : List Text → List Text → List Text
unfolding mem
members ids [] = []
members ids (x ∷ xs) = let rest = members ids xs in if mem x ids then x ∷ rest else rest

-- `nodes` holds the ids of `seen`, in the order of their discovery.
pub record Growth : Type 0 where
  pub nodes : List Text
  pub frontier : List Text

unfoldable pub discover : ℕ → List Text → Growth → Growth
unfolding mem
discover max_nodes [] g = g
discover max_nodes (n ∷ ns) g = discover max_nodes ns (
    if not (mem n g.nodes) && ltb (length g.nodes) max_nodes
    then record { nodes = g.nodes ++ n ∷ []; frontier = g.frontier ++ n ∷ [] }
    else g)

module _ {W : Type 0} (weights : Weights W) (p : GraphParams W) where
  unfoldable pub expand : List (Lists W) → List Text → Growth → Growth
  unfolding discover expansion
  expand memo [] g = g
  expand memo (id ∷ ids) g =
      expand memo ids (discover p.max_nodes (expansion weights memo id p.min_weight) g)

  module _ {E : Type 0} (sources : List (Source E W)) where
    -- The breadth-first levels that are left.
    unfoldable pub grow : ℕ → List (Lists W) → Growth → Result E (List (Lists W) × Growth)
    unfolding bind fetch expand
    grow zero memo g = done (memo, g)
    grow (suc levels) memo g = elim g.frontier [
      | [] ↦ done (memo, g)
      | id ∷ ids ↦
          if leb p.max_nodes (length g.nodes)
          then done (memo, g)
          else bind (fetch weights sources memo (id ∷ ids) p.fanout) (λ found.
            grow levels found (expand found (id ∷ ids) (record { nodes = g.nodes; frontier = [] })))
    ]

module _ {W : Type 0} (weights : Weights W) (p : GraphParams W) where
  unfoldable pub fetch_mutual :
      {E : Type 0} → List (Source E W) → List (Lists W) → List Text → Result E (List (Lists W))
  unfolding fetch
  fetch_mutual sources memo nodes =
      if p.mutual_only then fetch weights sources memo nodes p.fanout else done memo

  -- The neighbour lists and the nodes that the edges are chosen from.
  unfoldable pub explore :
      {E : Type 0} → Text → List (Source E W) → Result E (List (Lists W) × List Text)
  unfolding bind grow fetch_mutual
  explore seed sources =
      bind
        (grow weights p sources p.depth (map (λ _. []) sources)
          (record { nodes = seed ∷ []; frontier = seed ∷ [] }))
        (λ grown.
          bind (fetch_mutual sources grown.0 grown.1.nodes) (λ memo. done (memo, grown.1.nodes)))

unfoldable pub kinds : {E W : Type 0} → List (Source E W) → List (Lists W) → List (Text × Lists W)
kinds [] memo = []
kinds (s ∷ sources) [] = []
kinds (s ∷ sources) (lists ∷ memo) = (s.kind, lists) ∷ kinds sources memo

module _ {M W : Type 0} (weights : Weights W) (p : GraphParams W) (no_metadata : M) where
  -- A record that the index does not hold has no title and no metadata.
  unfoldable pub title_of : Option (Text × M) → Text
  title_of none = []
  title_of (some (title, metadata)) = title

  unfoldable pub metadata_of : Option (Text × M) → M
  metadata_of none = no_metadata
  metadata_of (some (title, metadata)) = metadata

  unfoldable pub node_of :
      (Text → Option (Text × M)) → List (Edge W) → List (Text × ℕ) → Text → GraphNode M
  unfolding degree_of label_of title_of metadata_of
  node_of document es communities id = record {
    record_id = id;
    title = title_of (document id);
    degree = degree_of es id;
    community = label_of id communities;
    metadata = metadata_of (document id);
  }

  unfoldable pub graph_of :
      (Text → Option (Text × M))
      → Text
      → List Text
      → List (Edge W)
      → List (Text × ℕ)
      → Bool
      → DiscoveryGraph M W
  unfolding node_of
  graph_of document seed kept es communities converged = record {
    nodes = map (node_of document es communities) kept;
    edges = es;
    seed_record_id = some seed;
    communities_converged = converged;
  }

  -- The build from the edges that were chosen; `none` is a loop without end or a ValueError.
  unfoldable pub assemble :
      (Text → Option (Text × M)) → Text → List Text → List (Edge W) → Option (DiscoveryGraph M W)
  unfolding graph_of
  assemble document seed nodes candidates = elim (connected seed candidates) [
    | none ↦ none
    | some found ↦
        let es = edges_from found candidates in
        let kept = members found nodes in
        elim (label_communities weights kept es p.max_iterations) [
          | none ↦ none
          | some labelled ↦ some (graph_of document seed kept es labelled.0 labelled.1)
        ]
  ]

  module _ {E : Type 0} (document : Text → Option (Text × M)) (seed : Text) where
    -- The build from what was explored.
    unfoldable pub conclude :
        List (Source E W)
        → Result E (List (Lists W) × List Text)
        → Option (Result E (DiscoveryGraph M W))
    unfolding kinds
    conclude sources (failed e) = some (failed e)
    conclude sources (done (memo, nodes)) =
        let chosen = select_edges weights p.min_weight p.mutual_only nodes (kinds sources memo) in
        elim (assemble document seed nodes chosen) [ none ↦ none | some g ↦ some (done g) ]

    unfoldable pub build_discovery_graph :
        List (Source E W) → Option (Result E (DiscoveryGraph M W))
    unfolding conclude
    build_discovery_graph [] = none
    build_discovery_graph (s ∷ sources) =
        conclude (s ∷ sources) (explore weights p seed (s ∷ sources))
