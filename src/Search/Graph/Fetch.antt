-- ===== src/Search/Graph/Fetch.antt =====
-- `_fetch`, `_cleaned` and `_expansion` of search/graph.py: the neighbour lists that a build asks its edge
-- sources for. A source is a function of the ids and the limit; a call that fails holds its exception.
use sci_etl_core.Prelude.{
  ℕ, Text, Bool, false, not, ◌&&◌, ◌||◌, List, [], ◌∷◌, map, mem, text_eq, take, if◌then◌else◌,
}
use sci_etl_core.Search.Graph.Edges.{Weights, Neighbours, Lists, neighbours_in, heavier, text_lt}

pub data Result (E A : Type 0) : Type 0 where
  failed : E → Result E A
  done : A → Result E A

unfoldable pub bind : {E A B : Type 0} → Result E A → (A → Result E B) → Result E B
bind (failed e) f = failed e
bind (done a) f = f a

-- `AsyncEdgeSource`.
pub record Source (E W : Type 0) : Type 0 where
  pub kind : Text
  pub neighbours : List Text → ℕ → Result E (Lists W)

-- `record_id in lists`.
unfoldable pub has_list : {W : Type 0} → Text → Lists W → Bool
has_list id [] = false
has_list id ((k, ns) ∷ lists) = text_eq k id || has_list id lists

-- `lists[record_id] = neighbours`.
unfoldable pub put_list : {W : Type 0} → Text → Neighbours W → Lists W → Lists W
put_list id ns [] = (id, ns) ∷ []
put_list id ns ((k, old) ∷ lists) =
    if text_eq k id then (k, ns) ∷ lists else (k, old) ∷ put_list id ns lists

-- `dict.fromkeys` keeps the first of equal ids.
unfoldable pub distinct : List Text → List Text → List Text
unfolding mem
distinct seen [] = []
distinct seen (id ∷ ids) = if mem id seen then distinct seen ids else id ∷ distinct (id ∷ seen) ids

unfoldable pub missing : {W : Type 0} → Lists W → List Text → List Text
unfolding has_list
missing lists [] = []
missing lists (id ∷ ids) =
    let rest = missing lists ids in if has_list id lists then rest else id ∷ rest

module _ {W : Type 0} (weights : Weights W) where
  open weights use {at_least, finite}

  -- `best[id] = max(best.get(id, weight), weight)`.
  unfoldable pub keep_heavier : Text → W → Neighbours W → Neighbours W
  unfolding heavier
  keep_heavier id w [] = (id, w) ∷ []
  keep_heavier id w ((k, old) ∷ best) =
      if text_eq k id then (k, heavier weights old w) ∷ best else (k, old) ∷ keep_heavier id w best

  -- `(-a.weight, a.id) < (-b.weight, b.id)`.
  unfoldable pub comes_before : Text × W → Text × W → Bool
  unfolding text_lt
  comes_before (a, v) (b, w) = not (at_least w v) || (at_least v w && at_least w v) && text_lt a b

  unfoldable pub insert_best : Text × W → Neighbours W → Neighbours W
  unfolding comes_before
  insert_best n [] = n ∷ []
  insert_best n (m ∷ ns) = if comes_before m n then m ∷ insert_best n ns else n ∷ m ∷ ns

  unfoldable pub sort_best : Neighbours W → Neighbours W
  unfolding insert_best
  sort_best [] = []
  sort_best (n ∷ ns) = insert_best n (sort_best ns)

  unfoldable pub clean : Text → Neighbours W → Neighbours W → Neighbours W
  unfolding keep_heavier
  clean id [] best = best
  clean id ((n, w) ∷ ns) best =
      clean id ns (if not (text_eq n id) && finite w then keep_heavier n w best else best)

  unfoldable pub cleaned : Text → Neighbours W → ℕ → Neighbours W
  unfolding clean sort_best
  cleaned id ns fanout = take fanout (sort_best (clean id ns []))

  -- The candidates of one source's list, then those of every source.
  unfoldable pub gather : W → Neighbours W → Neighbours W → Neighbours W
  unfolding keep_heavier
  gather min_weight [] found = found
  gather min_weight ((n, w) ∷ ns) found =
      gather min_weight ns (if at_least w min_weight then keep_heavier n w found else found)

  unfoldable pub candidates : List (Lists W) → Text → W → Neighbours W → Neighbours W
  unfolding gather neighbours_in
  candidates [] id min_weight found = found
  candidates (lists ∷ memo) id min_weight found =
      candidates memo id min_weight (gather min_weight (neighbours_in weights id lists) found)

  unfoldable pub expansion : List (Lists W) → Text → W → List Text
  unfolding candidates sort_best
  expansion memo id min_weight = map (λ n. n.0) (sort_best (candidates memo id min_weight []))

  -- The last loop of `_fetch`, for one source.
  unfoldable pub store : ℕ → List Text → Lists W → Lists W → Lists W
  unfolding put_list cleaned neighbours_in
  store fanout [] results lists = lists
  store fanout (id ∷ ids) results lists =
      store fanout ids results
        (put_list id (cleaned id (neighbours_in weights id results) fanout) lists)

  -- One source, and the ids whose lists it does not have; a source with none is not asked.
  unfoldable pub fetch_one :
      {E : Type 0} → Source E W → ℕ → List Text → Lists W → Result E (Lists W)
  unfolding bind store
  fetch_one s fanout [] lists = done lists
  fetch_one s fanout (id ∷ ids) lists =
      bind (s.neighbours (id ∷ ids) fanout)
        (λ results. done (store fanout (id ∷ ids) results lists))

  -- The first failure in the order of the sources is the one raised, and nothing is stored then.
  unfoldable pub fetch :
      {E : Type 0} → List (Source E W) → List (Lists W) → List Text → ℕ → Result E (List (Lists W))
  unfolding distinct missing
  fetch [] memo ids fanout = done []
  fetch (s ∷ sources) [] ids fanout = done []
  fetch (s ∷ sources) (lists ∷ memo) ids fanout =
      bind (fetch_one s fanout (missing lists (distinct [] ids)) lists)
        (λ found. bind (fetch sources memo ids fanout) (λ others. done (found ∷ others)))
