-- ===== src/Search/Graph/Edges.antt =====
-- The data of search/graph.py, the order of texts, and the edges that `select_edges` chooses.
use sci_etl_core.Prelude.{
  Text, Bool, true, false, not, ◌&&◌, ◌||◌, List, [], ◌∷◌, ltb, ◌==◌, mem, text_eq, if◌then◌else◌,
}

-- What the code uses of floats that are finite.
pub record Weights (W : Type 0) : Type 0 where
  pub at_least : W → W → Bool
  pub plus : W → W → W
  pub zero_weight : W
  pub finite : W → Bool

-- `GraphEdge`.
pub record Edge (W : Type 0) : Type 0 where
  pub source : Text
  pub target : Text
  pub weight : W
  pub kind : Text

-- `a < b` of texts.
unfoldable pub text_lt : Text → Text → Bool
text_lt [] [] = false
text_lt [] (b ∷ bs) = true
text_lt (a ∷ as') [] = false
text_lt (a ∷ as') (b ∷ bs) = ltb a b || a == b && text_lt as' bs

abbrev pub Neighbours : Type 0 → Type 0
Neighbours W = List (Text × W)

-- A source's lists, from records to their neighbours.
abbrev pub Lists : Type 0 → Type 0
Lists W = List (Text × List (Text × W))

module _ {W : Type 0} (weights : Weights W) where
  open weights use {at_least}

  -- `lists.get(id, ())`.
  unfoldable pub neighbours_in : Text → Lists W → Neighbours W
  neighbours_in id [] = []
  neighbours_in id ((k, ns) ∷ lists) = if text_eq k id then ns else neighbours_in id lists

  unfoldable pub lists_id : Text → Neighbours W → Bool
  lists_id id [] = false
  lists_id id (n ∷ ns) = text_eq n.0 id || lists_id id ns

  unfoldable pub heavier : W → W → W
  heavier old new = if at_least old new then old else new

  -- The edge of a pair, its smaller id first.
  unfoldable pub edge_of : Text → Text → W → Text → Edge W
  unfolding text_lt
  edge_of id neighbour weight kind =
      if text_lt neighbour id
      then record { source = neighbour; target = id; weight = weight; kind = kind }
      else record { source = id; target = neighbour; weight = weight; kind = kind }

  unfoldable pub same_key : Edge W → Edge W → Bool
  same_key a b = text_eq a.source b.source && (text_eq a.target b.target && text_eq a.kind b.kind)

  unfoldable pub key_lt : Edge W → Edge W → Bool
  unfolding text_lt
  key_lt a b =
      text_lt a.source b.source
      || text_eq a.source b.source
        && (text_lt a.target b.target || text_eq a.target b.target && text_lt a.kind b.kind)

  -- `merged[key] = max(merged.get(key, weight), weight)`, in the order of the keys.
  unfoldable pub merge : Edge W → List (Edge W) → List (Edge W)
  unfolding heavier same_key key_lt
  merge e [] = e ∷ []
  merge e (d ∷ ds) =
      let rest = merge e ds in
      if same_key e d
      then record d { weight = heavier d.weight e.weight } ∷ ds
      else if key_lt e d
      then e ∷ d ∷ ds
      else d ∷ rest

  -- The `continue` tests of one neighbour of a record that is a member.
  unfoldable pub qualifies : W → Bool → List Text → Lists W → Text → Text × W → Bool
  unfolding mem neighbours_in lists_id
  qualifies min_weight mutual_only nodes lists id (neighbour, weight) =
      mem neighbour nodes
      && (not (text_eq neighbour id)
          && (at_least weight min_weight
              && (not mutual_only || lists_id id (neighbours_in neighbour lists))))

  module _ (min_weight : W) (mutual_only : Bool) (nodes : List Text) where
    unfoldable pub select_neighbours :
        Text → Lists W → Text → Neighbours W → List (Edge W) → List (Edge W)
    unfolding qualifies merge edge_of
    select_neighbours kind lists id [] merged = merged
    select_neighbours kind lists id (n ∷ ns) merged = select_neighbours kind lists id ns (
        if qualifies min_weight mutual_only nodes lists id n
        then merge (edge_of id n.0 n.1 kind) merged
        else merged)

    unfoldable pub select_records : Text → Lists W → Lists W → List (Edge W) → List (Edge W)
    unfolding select_neighbours mem
    select_records kind lists [] merged = merged
    select_records kind lists ((id, ns) ∷ rest) merged =
        select_records kind lists rest
          (if mem id nodes then select_neighbours kind lists id ns merged else merged)

    unfoldable pub select_kinds : List (Text × Lists W) → List (Edge W) → List (Edge W)
    unfolding select_records
    select_kinds [] merged = merged
    select_kinds ((kind, lists) ∷ rest) merged =
        select_kinds rest (select_records kind lists lists merged)

    unfoldable pub select_edges : List (Text × Lists W) → List (Edge W)
    unfolding select_kinds
    select_edges neighbour_lists = select_kinds neighbour_lists []
