-- ===== src/Search/Graph/Communities.antt =====
-- `label_communities` of search/graph.py. A dictionary whose keys are the sorted ids is the list of its
-- items, in that order.
use sci_etl_core.Prelude.{
  ℕ, zero, suc, min, Text, Bool, true, false, not, ◌&&◌, List, [], ◌∷◌, ◌++◌, Option, none, some,
  ◌==◌, mem, text_eq, length, if◌then◌else◌,
}
use sci_etl_core.Search.Graph.Edges.{Weights, Edge, Neighbours, text_lt}
use sci_etl_core.Search.Graph.Fetch.{keep_heavier}

abbrev pub Labels : Type 0
Labels = List (Text × ℕ)

-- `sorted(set(nodes))`.
unfoldable pub insert_id : Text → List Text → List Text
unfolding text_lt
insert_id id [] = id ∷ []
insert_id id (x ∷ xs) =
    let rest = insert_id id xs in
    if text_eq id x then x ∷ xs else if text_lt id x then id ∷ x ∷ xs else x ∷ rest

unfoldable pub sort_ids : List Text → List Text
unfolding insert_id
sort_ids [] = []
sort_ids (x ∷ xs) = insert_id x (sort_ids xs)

unfoldable pub enumerate : ℕ → List Text → Labels
enumerate i [] = []
enumerate i (id ∷ ids) = (id, i) ∷ enumerate (suc i) ids

-- `label[id]`, of an id that has one.
unfoldable pub label_of : Text → Labels → ℕ
label_of id [] = 0
label_of id ((k, l) ∷ labels) = if text_eq k id then l else label_of id labels

unfoldable pub set_label : Text → ℕ → Labels → Labels
set_label id l [] = []
set_label id l ((k, old) ∷ labels) =
    if text_eq k id then (k, l) ∷ labels else (k, old) ∷ set_label id l labels

-- `canonical.setdefault(label, len(canonical))`: the numbers of the labels are their places.
unfoldable pub place : ℕ → List ℕ → Option ℕ
place l [] = none
place l (k ∷ ks) =
    let rest = place l ks in
    if k == l then some 0 else elim rest [ none ↦ none | some i ↦ some (suc i) ]

unfoldable pub number : List Text → Labels → List ℕ → Labels
unfolding label_of place
number [] label canonical = []
number (id ∷ ids) label canonical = elim (place (label_of id label) canonical) [
  | none ↦ (id, length canonical) ∷ number ids label (canonical ++ label_of id label ∷ [])
  | some i ↦ (id, i) ∷ number ids label canonical
]

module _ {W : Type 0} (weights : Weights W) where
  open weights use {at_least, plus, zero_weight}

  unfoldable pub touches : List Text → Edge W → Bool
  unfolding mem
  touches ordered e =
      mem e.source ordered && (mem e.target ordered && not (text_eq e.source e.target))

  -- `adjacency[id]`.
  unfoldable pub joined : List Text → Text → List (Edge W) → Neighbours W → Neighbours W
  unfolding touches keep_heavier
  joined ordered id [] found = found
  joined ordered id (e ∷ es) found = joined ordered id es (
      if touches ordered e
      then if text_eq e.source id
        then keep_heavier weights e.target e.weight found
        else if text_eq e.target id
        then keep_heavier weights e.source e.weight found
        else found
      else found)

  unfoldable pub insert_neighbour : Text × W → Neighbours W → Neighbours W
  unfolding text_lt
  insert_neighbour n [] = n ∷ []
  insert_neighbour n (m ∷ ns) = if text_lt n.0 m.0 then n ∷ m ∷ ns else m ∷ insert_neighbour n ns

  unfoldable pub sort_neighbours : Neighbours W → Neighbours W
  unfolding insert_neighbour
  sort_neighbours [] = []
  sort_neighbours (n ∷ ns) = insert_neighbour n (sort_neighbours ns)

  -- `totals[l] = totals.get(l, 0.0) + weight`.
  unfoldable pub add_total : ℕ → W → List (ℕ × W) → List (ℕ × W)
  add_total l w [] = (l, plus zero_weight w) ∷ []
  add_total l w ((k, t) ∷ totals) =
      if k == l then (k, plus t w) ∷ totals else (k, t) ∷ add_total l w totals

  unfoldable pub sum_labels : Labels → Neighbours W → List (ℕ × W) → List (ℕ × W)
  unfolding add_total label_of
  sum_labels label [] totals = totals
  sum_labels label ((n, w) ∷ ns) totals =
      sum_labels label ns (add_total (label_of n label) w totals)

  unfoldable pub total_of : ℕ → List (ℕ × W) → W
  total_of l [] = zero_weight
  total_of l ((k, t) ∷ totals) = if k == l then t else total_of l totals

  -- `max(totals.values())`, of the total `t` and the rest.
  unfoldable pub heaviest : W → List (ℕ × W) → W
  heaviest t [] = t
  heaviest t ((k, u) ∷ totals) = heaviest (if at_least t u then t else u) totals

  unfoldable pub lowest : W → List (ℕ × W) → Option ℕ
  lowest top [] = none
  lowest top ((k, t) ∷ totals) =
      let rest = lowest top totals in
      if at_least t top && at_least top t
      then elim rest [ none ↦ some k | some l ↦ some (min k l) ]
      else rest

  -- The label that a node takes, `none` where it keeps its own.
  unfoldable pub switch : ℕ → List (ℕ × W) → Option ℕ
  unfolding heaviest total_of lowest
  switch own [] = none
  switch own ((k, t) ∷ totals) =
      let top = heaviest t totals in
      if at_least (total_of own ((k, t) ∷ totals)) top then none else lowest top ((k, t) ∷ totals)

  -- The body of the loop over one pass, up to the new label.
  unfoldable pub visit : List Text → List (Edge W) → Text → Labels → Option ℕ
  unfolding joined sort_neighbours sum_labels switch label_of
  visit ordered es id label =
      switch (label_of id label) (sum_labels label (sort_neighbours (joined ordered id es [])) [])

  unfoldable pub propagate : List Text → List (Edge W) → List Text → Labels → Labels × Bool
  unfolding set_label
  propagate ordered es [] label = (label, false)
  propagate ordered es (id ∷ ids) label = elim (visit ordered es id label) [
    | none ↦ propagate ordered es ids label
    | some l ↦ ((propagate ordered es ids (set_label id l label)).0, true)
  ]

  -- The passes, with whether the last one changed nothing.
  unfoldable pub passes : ℕ → List Text → List (Edge W) → Labels → Labels × Bool
  passes zero ordered es label = (label, false)
  passes (suc n) ordered es label =
      let pass = propagate ordered es ordered label in
      if pass.1 then passes n ordered es pass.0 else (pass.0, true)

  -- `none` is the ValueError.
  unfoldable pub label_communities : List Text → List (Edge W) → ℕ → Option (Labels × Bool)
  unfolding sort_ids enumerate passes number
  label_communities nodes es zero = none
  label_communities nodes es (suc n) =
      let ordered = sort_ids nodes in
      let (label, converged) = passes (suc n) ordered es (enumerate 0 ordered) in
      some (number ordered label [], converged)
