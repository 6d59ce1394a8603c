-- ===== src/Search/Graph/Bounds.antt =====
-- The records and the edges that are left when only the seed's component is kept.
use sci_etl_core.Prelude.{
  ℕ, ◌≡◌, ◌≤◌, refl, ap, Text, Bool, true, ◌&&◌, List, [], ◌∷◌, map, Option, some, mem, text_eq,
  text_eq_iff, length, inl, inr, arith,
}
use sci_etl_core.Search.Graph.Edges.{Weights, Edge}
use sci_etl_core.Search.Graph.Reaches.{Joined, Reach}
use sci_etl_core.Search.Graph.Build.{
  GraphNode, DiscoveryGraph, GraphParams, edges_from, members, node_of,
}
use sci_etl_core.Search.Graph.Chosen.{fits, all_fit}

pub mem-equal : (x y : Text) (ids : List Text) → text_eq x y ≡ true → mem x ids ≡ mem y ids
mem-equal x y ids e = ap (λ (t : Text). mem t ids) ((text_eq_iff x y).0 e)

-- The edges that lie between the records of `ids`.
unfoldable pub inside : {W : Type 0} → List Text → List (Edge W) → Bool
unfolding mem
inside ids [] = true
inside ids (e ∷ es) = mem e.source ids && (mem e.target ids && inside ids es)

abbrev pub record_ids : {M : Type 0} → List (GraphNode M) → List Text
record_ids [] = []
record_ids (n ∷ ns) = n.record_id ∷ record_ids ns

-- A graph of at most `max_nodes` records, the seed among them, whose edges join its own records and
-- lead from the seed to each of them.
unfoldable pub IsBounded : {M W : Type 0} → ℕ → Text → DiscoveryGraph M W → Type 0
IsBounded max_nodes seed g =
    (length g.nodes ≤ max_nodes)
    × (g.seed_record_id ≡ some seed)
    × (mem seed (record_ids g.nodes) ≡ true)
    × (inside (record_ids g.nodes) g.edges ≡ true)
    × ((v : Text) → mem v (record_ids g.nodes) ≡ true → Reach g.edges seed v)

pub mem-members : (x : Text) (ids xs : List Text) → mem x (members ids xs) ≡ (mem x xs && mem x ids)
unfolding members mem
mem-members x ids [] = refl
mem-members x ids (y ∷ xs) = ground (arith, mem-members x ids xs, mem-equal x y ids)

pub length-members : (ids xs : List Text) → length (members ids xs) ≤ length xs
unfolding members
length-members ids [] = omega arith
length-members ids (x ∷ xs) = ground (arith, length-members ids xs)

pub record_ids-nodes :
    {M W : Type 0} (weights : Weights W) (p : GraphParams W) (no_metadata : M)
    (document : Text → Option (Text × M)) (es : List (Edge W)) (labels : List (Text × ℕ))
    (ids : List Text)
    → record_ids (map (node_of weights p no_metadata document es labels) ids) ≡ ids
unfolding node_of
record_ids-nodes weights p no_metadata document es labels [] = refl
record_ids-nodes weights p no_metadata document es labels (id ∷ ids) =
    ap (◌∷◌ id) (record_ids-nodes weights p no_metadata document es labels ids)

-- Edges of the component of the seed stay inside it.
module _ {W : Type 0} (weights : Weights W) (least : W) (nodes found : List Text) where
  pub inside-edges_from :
      (es : List (Edge W))
      → ((u v : Text) → Joined es u v → mem u found ≡ true → mem v found ≡ true)
      → all_fit weights least nodes es ≡ true
      → inside (members found nodes) (edges_from found es) ≡ true
  unfolding inside edges_from all_fit fits Joined
  inside-edges_from [] closed h = refl
  inside-edges_from (e ∷ es) closed h = ground (
    arith,
    h,
    mem-members e.source found nodes,
    mem-members e.target found nodes,
    inside-edges_from es (λ u v j. closed u v (inr (inr j))),
    closed e.source e.target (inl (refl, refl)),
  )
