-- ===== src/Search/Graph/Built.antt =====
-- What `build_discovery_graph` returns.
use sci_etl_core.Prelude.{Text, List, Option, none, some}
use sci_etl_core.Search.Graph.Edges.{Weights}
use sci_etl_core.Search.Graph.Fetch.{Result, failed, done, Source}
use sci_etl_core.Search.Graph.Build.{DiscoveryGraph, GraphParams}
use sci_etl_core.Search.Graph.Grown.{Fails}
use sci_etl_core.Search.Graph.Bounds.{IsBounded}

module _ {M W : Type 0} (weights : Weights W) (p : GraphParams W) (no_metadata : M) where
  -- The answers of a build.
  unfoldable pub IsAnswer :
      {E : Type 0} → Text → List (Source E W) → Option (Result E (DiscoveryGraph M W)) → Type 0
  IsAnswer seed sources none = ⊥
  IsAnswer seed sources (some (failed e)) = Fails p.fanout sources e
  IsAnswer seed sources (some (done g)) = IsBounded p.max_nodes seed g
