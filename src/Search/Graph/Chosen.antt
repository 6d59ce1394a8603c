-- ===== src/Search/Graph/Chosen.antt =====
-- What an edge that `select_edges` chooses is.
use sci_etl_core.Prelude.{◌≡◌, Text, Bool, true, false, ◌&&◌, List, [], ◌∷◌, mem, text_eq, arith}
use sci_etl_core.Search.Graph.Edges.{
  Weights, Edge, Neighbours, Lists, text_lt, heavier, edge_of, merge, qualifies, select_neighbours,
  select_records, select_kinds, select_edges,
}

text_lt_total : (a b : Text) → text_lt a b ≡ false → text_eq a b ≡ false → text_lt b a ≡ true
unfolding text_lt text_eq
text_lt_total [] [] h ne = ground arith
text_lt_total [] (b ∷ bs) h ne = ground arith
text_lt_total (a ∷ as') [] h ne = ground arith
text_lt_total (a ∷ as') (b ∷ bs) h ne = ground (arith, text_lt_total as' bs, h, ne)

module _ {W : Type 0} (weights : Weights W) (min_weight : W) (nodes : List Text) where
  open weights use {at_least}

  -- The ends are different nodes in order, and the weight is large enough.
  unfoldable pub fits : Edge W → Bool
  fits e =
      text_lt e.source e.target
      && (mem e.source nodes && (mem e.target nodes && at_least e.weight min_weight))

  unfoldable pub all_fit : List (Edge W) → Bool
  unfolding fits
  all_fit [] = true
  all_fit (e ∷ es) = fits e && all_fit es

  fits-edge_of :
      (mutual_only : Bool) (lists : Lists W) (id : Text) (n : Text × W) (kind : Text)
      → mem id nodes ≡ true
      → qualifies weights min_weight mutual_only nodes lists id n ≡ true
      → fits (edge_of weights id n.0 n.1 kind) ≡ true
  unfolding fits edge_of qualifies
  fits-edge_of mutual_only lists id n kind m q = ground (arith, text_lt_total n.0 id, m, q)

  fits-heavier :
      (d e : Edge W)
      → fits d ≡ true
      → fits e ≡ true
      → fits (record d { weight = heavier weights d.weight e.weight }) ≡ true
  unfolding fits heavier
  fits-heavier d e hd he = ground (arith, hd, he)

  all_fit-merge :
      (e : Edge W) (es : List (Edge W))
      → fits e ≡ true
      → all_fit es ≡ true
      → all_fit (merge weights e es) ≡ true
  unfolding all_fit merge
  all_fit-merge e [] he hs = ground (arith, he)
  all_fit-merge e (d ∷ ds) he hs = ground (arith, he, hs, all_fit-merge e ds he, fits-heavier d e)

  module _ (mutual_only : Bool) where
    all_fit-select_neighbours :
        (kind : Text) (lists : Lists W) (id : Text) (ns : Neighbours W) (es : List (Edge W))
        → mem id nodes ≡ true
        → all_fit es ≡ true
        → all_fit (select_neighbours weights min_weight mutual_only nodes kind lists id ns es)
          ≡ true
    unfolding select_neighbours
    all_fit-select_neighbours kind lists id [] es m h = h
    all_fit-select_neighbours kind lists id (n ∷ ns) es m h =
        all_fit-select_neighbours kind lists id ns _ m (
          ground (
            arith,
            h,
            all_fit-merge (edge_of weights id n.0 n.1 kind) es,
            fits-edge_of mutual_only lists id n kind m,
          ))

    all_fit-select_records :
        (kind : Text) (lists todo : Lists W) (es : List (Edge W))
        → all_fit es ≡ true
        → all_fit (select_records weights min_weight mutual_only nodes kind lists todo es) ≡ true
    unfolding select_records
    all_fit-select_records kind lists [] es h = h
    all_fit-select_records kind lists ((id, ns) ∷ todo) es h =
        all_fit-select_records kind lists todo _ (
          ground (
            arith,
            h,
            λ (m : mem id nodes ≡ true). all_fit-select_neighbours kind lists id ns es m h,
          ))

    all_fit-select_kinds :
        (lists : List (Text × Lists W)) (es : List (Edge W))
        → all_fit es ≡ true
        → all_fit (select_kinds weights min_weight mutual_only nodes lists es) ≡ true
    unfolding select_kinds
    all_fit-select_kinds [] es h = h
    all_fit-select_kinds ((kind, l) ∷ lists) es h =
        all_fit-select_kinds lists _ (all_fit-select_records kind l l es h)

    -- Every edge that `select_edges` returns joins two different nodes of `nodes`, the smaller id first,
    -- and its weight is at least the least weight.
    pub select_edges_fit :
        (lists : List (Text × Lists W))
        → all_fit (select_edges weights min_weight mutual_only nodes lists) ≡ true
    unfolding select_edges all_fit
    select_edges_fit lists = all_fit-select_kinds lists [] (ground arith)
