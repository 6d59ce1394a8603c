-- ===== src/Search/Graph/Connected.antt =====
-- `_connected` of search/graph.py, over the adjacency that the edges give. A set is a list, which the
-- loop tests for membership only; `pending` is the stack, its top first.
use sci_etl_core.Prelude.{
  ℕ, zero, suc, ◌+◌, ◌*◌, Text, List, [], ◌∷◌, Option, none, some, mem, text_eq, length,
  if◌then◌else◌,
}
use sci_etl_core.Search.Graph.Edges.{Edge}

-- `adjacency.get(id, ())`, where an id may stand more than once.
unfoldable pub adjacent : {W : Type 0} → List (Edge W) → Text → List Text
adjacent [] id = []
adjacent (e ∷ es) id =
    let rest = adjacent es id in
    let back = if text_eq e.target id then e.source ∷ rest else rest in
    if text_eq e.source id then e.target ∷ back else back

pub record Walk : Type 0 where
  pub reached : List Text
  pub pending : List Text

unfoldable pub add : Text → Walk → Walk
unfolding mem
add id w =
    if mem id w.reached then w else record { reached = id ∷ w.reached; pending = id ∷ w.pending }

-- The `for` loop over the neighbours of one id.
unfoldable pub offer : List Text → Walk → Walk
unfolding add
offer [] w = w
offer (id ∷ ids) w = offer ids (add id w)

-- The `while` loop; `none` where the fuel runs out.
unfoldable pub walk : {W : Type 0} → ℕ → List (Edge W) → Walk → Option (List Text)
unfolding offer adjacent
walk zero es w = elim w.pending [ [] ↦ some w.reached | _ ∷ _ ↦ none ]
walk (suc f) es w = elim w.pending [
  | [] ↦ some w.reached
  | id ∷ rest ↦ walk f es (offer (adjacent es id) (record w { pending = rest }))
]

-- Every round takes an id off the stack, and an id is put there once.
unfoldable pub connected : {W : Type 0} → Text → List (Edge W) → Option (List Text)
unfolding walk
connected seed es =
    walk (2 * length es + 1) es (record { reached = seed ∷ []; pending = seed ∷ [] })
