-- ===== src/Search/Normalize.antt =====
-- `normalize` of search/query.py and its helpers. `_merge_negations` normalizes operands that are
-- results, not parts, of the node, so the recursion takes fuel; `depth` units are enough.
pub mod Meaning
pub mod Canonical
pub mod Complete
pub mod Fuel
use sci_etl_core.Prelude.{ℕ, zero, suc, ltb, if◌then◌else◌}
use sci_etl_core.Search.Ast.{Node, Nodes, conj, disj, neg, nil, cons, append, count, depth}

-- The class that `_flatten` and `_collapse` are given.
pub data Group : Type 0 where
  all_of any_of : Group

abbrev pub group : Group → Nodes → Node
group all_of ns = conj ns
group any_of ns = disj ns

-- One round of `_flatten`: extend by the operands of the same kind, or append.
unfoldable pub splice : Group → Node → Nodes → Nodes
splice all_of (conj ms) rest = append ms rest
splice any_of (disj ms) rest = append ms rest
splice k n rest = cons n rest

unfoldable pub flatten : (Node → Node) → Group → Nodes → Nodes
flatten norm k nil = nil
flatten norm k (cons n ns) = splice k (norm n) (flatten norm k ns)

unfoldable pub collapse : Group → Nodes → Node
collapse k (cons n nil) = n
collapse k ns = group k ns

-- The operands of the `Not`s among the operands, and the operands that are none.
unfoldable pub negated : Nodes → Nodes
negated nil = nil
negated (cons (neg n) ns) = cons n (negated ns)
negated (cons n ns) = negated ns

unfoldable pub positives : Nodes → Nodes
positives nil = nil
positives (cons (neg n) ns) = positives ns
positives (cons n ns) = cons n (positives ns)

unfoldable pub first_negation : Nodes → ℕ
first_negation nil = 0
first_negation (cons (neg n) ns) = 0
first_negation (cons n ns) = suc (first_negation ns)

-- `list.insert`: past the end it appends.
unfoldable pub insert : ℕ → Node → Nodes → Nodes
insert zero m ns = cons m ns
insert (suc i) m nil = cons m nil
insert (suc i) m (cons n ns) = cons n (insert i m ns)

unfoldable pub merge_negations : (Node → Node) → Nodes → Nodes
unfolding negated positives first_negation insert
merge_negations norm ns =
    if ltb (count (negated ns)) 2
    then ns
    else insert (first_negation ns) (neg (collapse any_of (flatten norm any_of (negated ns))))
        (positives ns)

unfoldable pub negate : Node → Node
negate (neg n) = n
negate n = neg n

unfoldable pub normalize_fuel : ℕ → Node → Node
unfolding splice flatten collapse merge_negations negate
normalize_fuel zero n = n
normalize_fuel (suc f) (neg n) = negate (normalize_fuel f n)
normalize_fuel (suc f) (disj ns) = collapse any_of (flatten (normalize_fuel f) any_of ns)
normalize_fuel (suc f) (conj ns) =
    collapse all_of (merge_negations (normalize_fuel f) (flatten (normalize_fuel f) all_of ns))
normalize_fuel (suc f) n = n

unfoldable pub normalize : Node → Node
unfolding normalize_fuel depth
normalize n = normalize_fuel (depth n) n
