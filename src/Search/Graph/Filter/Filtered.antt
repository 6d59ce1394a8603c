-- ===== src/Search/Graph/Filter/Filtered.antt =====
-- Filtering a discovery graph.
use sci_etl_core.Prelude.{Text, true, List, Option, some, mem, ◌≡◌}
use sci_etl_core.Search.Filters.{Metadata, SearchFilter}
use sci_etl_core.Search.Graph.Build.{DiscoveryGraph}
use sci_etl_core.Search.Graph.Bounds.{inside, record_ids}
use sci_etl_core.Search.Graph.Filter.{filter_graph}

-- A graph that was filtered.
unfoldable pub IsFiltered :
    {W : Type 0}
    → DiscoveryGraph Metadata W
    → Option (List Text)
    → List SearchFilter
    → DiscoveryGraph Metadata W
    → Type 0
IsFiltered g matched_ids filters kept =
    (kept.seed_record_id ≡ g.seed_record_id)
    × (kept.communities_converged ≡ g.communities_converged)
    × (inside (record_ids kept.nodes) kept.edges ≡ true)
    × ((seed : Text)
        → g.seed_record_id ≡ some seed
        → mem seed (record_ids g.nodes) ≡ true
        → mem seed (record_ids kept.nodes) ≡ true)
    × (filter_graph kept matched_ids filters ≡ some kept)
