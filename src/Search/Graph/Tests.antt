-- ===== src/Search/Graph/Tests.antt =====
-- A small graph, at which the theorems of search/graph.py are applied.
use sci_etl_core.Prelude.{
  ℕ, ◌+◌, ◌≡◌, ◌↔◌, leb, refl, Text, codes, text_eq, mem, true, false, List, [], ◌∷◌, Option, some,
}
use sci_etl_core.Search.Graph.Edges.{Weights, Edge, Lists, select_edges}
use sci_etl_core.Search.Graph.Connected.{connected}
use sci_etl_core.Search.Graph.Reaches.{Reach}
use sci_etl_core.Search.Graph.Found.{connected-Reach}
use sci_etl_core.Search.Graph.Fetch.{done, Source}
use sci_etl_core.Search.Graph.Build.{GraphNode, DiscoveryGraph, GraphParams}
use sci_etl_core.Search.Filters.{Metadata, SearchFilter, metadata_filter, one, string}
use sci_etl_core.Search.Graph.Chosen.{all_fit, select_edges_fit}

abbrev counts : Weights ℕ
counts = record { at_least = λ a b. leb b a; plus = ◌+◌; zero_weight = 0; finite = λ _. true }

abbrev a : Text
a = codes "a"

abbrev b : Text
b = codes "b"

abbrev c : Text
c = codes "c"

abbrev d : Text
d = codes "d"

-- a and b are near each other, d is near b only.
abbrev lists : Lists ℕ
lists = (a, (b, 5) ∷ (c, 1) ∷ []) ∷ (b, (a, 4) ∷ (d, 3) ∷ []) ∷ (d, (b, 2) ∷ []) ∷ []

abbrev source : Source ℕ ℕ
source = record { kind = codes "semantic"; neighbours = λ ids n. done lists }

abbrev params : GraphParams ℕ
params = record {
  depth = 2;
  fanout = 8;
  min_weight = 2;
  max_nodes = 3;
  mutual_only = true;
  max_iterations = 20;
}

abbrev documents : Text → Option (Text × ℕ)
documents id = some (id, 7)

abbrev chosen : List (Edge ℕ)
chosen =
    record { source = a; target = b; weight = 5; kind = codes "semantic" }
    ∷ record { source = b; target = d; weight = 3; kind = codes "semantic" }
    ∷ []

chosen_edges : select_edges counts 2 true (a ∷ b ∷ d ∷ []) ((codes "semantic", lists) ∷ []) ≡ chosen
unfolding select_edges text_eq
chosen_edges = refl

select_edges_fit_example :
    all_fit counts 2
      (a ∷ b ∷ d ∷ [])
      (select_edges counts 2 true (a ∷ b ∷ d ∷ []) ((codes "semantic", lists) ∷ []))
    ≡ true
select_edges_fit_example =
    select_edges_fit counts 2 (a ∷ b ∷ d ∷ []) true ((codes "semantic", lists) ∷ [])

connected-Reach_example :
    (r : List Text) × (connected a chosen ≡ some r)
    × ((v : Text) → (mem v r ≡ true) ↔ Reach chosen a v)
connected-Reach_example = connected-Reach a chosen

abbrev node : Text → Text → GraphNode Metadata
node id year = record {
  record_id = id;
  title = id;
  degree = 1;
  community = 0;
  metadata = (codes "year", one (string year)) ∷ [];
}

abbrev recent : SearchFilter
recent = metadata_filter (codes "year") (codes "2024" ∷ []) false

-- The seed stays, and b.
abbrev filtered : DiscoveryGraph Metadata ℕ
filtered = record {
  nodes = node a (codes "2019") ∷ node b (codes "2024") ∷ [];
  edges = record { source = a; target = b; weight = 5; kind = codes "semantic" } ∷ [];
  seed_record_id = some a;
  communities_converged = true;
}

abbrev tagged_graph : DiscoveryGraph Metadata ℕ
tagged_graph = record {
  nodes = node a (codes "2019") ∷ node b (codes "2024") ∷ node d (codes "2019") ∷ [];
  edges = chosen;
  seed_record_id = some a;
  communities_converged = true;
}
