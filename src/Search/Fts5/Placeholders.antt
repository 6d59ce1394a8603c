-- ===== src/Search/Fts5/Placeholders.antt =====
-- The placeholders of a filter expression and its parameters.
use sci_etl_core.Prelude.{
  ℕ, ◌+◌, ◌≡◌, refl, ◌∙◌, Text, codes, List, [], ◌∷◌, ◌++◌, map, Option, none, some, ◌==◌,
  if◌then◌else◌, length, length-append, arith,
}
use sci_etl_core.Search.Ast.{Node, Nodes, leaf, near, conj, disj, neg, nil, cons}
use sci_etl_core.Search.Normalize.{normalize}
use sci_etl_core.Search.Fts5.{
  join, compile, Filter, gather, filter_group, filter, filter_each, to_filter_expression,
}

-- How often `?` stands in a text.
abbrev pub placeholders : Text → ℕ
placeholders [] = 0
placeholders (c ∷ cs) = (if c == b'?' then 1 else 0) + placeholders cs

placeholders-append : (a b : Text) → placeholders (a ++ b) ≡ placeholders a + placeholders b
placeholders-append [] b = omega arith
placeholders-append (c ∷ cs) b = let ih = placeholders-append cs b in omega (arith, ih)

-- Each expression has a placeholder for each of its parameters.
abbrev Balanced : Filter → Type 0
Balanced (expression, parameters) = placeholders expression ≡ length parameters

abbrev AllBalanced : List Filter → Type 0
AllBalanced [] = Unit
AllBalanced (o ∷ os) = Balanced o × AllBalanced os

joined-Balanced :
    (joiner : Text) (os : List Filter)
    → placeholders joiner ≡ 0
    → AllBalanced os
    → Balanced (join joiner (map (λ o. o.0) os), gather os)
unfolding join gather
joined-Balanced joiner [] z h = refl
joined-Balanced joiner (o ∷ []) z h = let e = length-append o.1 [] in omega (arith, h.0, e)
joined-Balanced joiner (o ∷ p ∷ os) z h =
    let rest = join joiner (map (λ q. q.0) (p ∷ os)) in
    let ih = joined-Balanced joiner (p ∷ os) z h.1 in
    let a = placeholders-append (o.0 ++ joiner) rest in
    let b = placeholders-append o.0 joiner in
    let e = length-append o.1 (gather (p ∷ os)) in
    let step : placeholders (o.0 ++ joiner) + placeholders rest ≡ length (o.1 ++ gather (p ∷ os)) =
      omega (arith, h.0, ih, b, e, z) in
    a ∙ step

filter_group-Balanced :
    (c : Option Text) (joiner : Text) (os : List Filter)
    → placeholders joiner ≡ 0
    → AllBalanced os
    → Balanced (filter_group c joiner os)
unfolding filter_group
filter_group-Balanced (some e) joiner os z h = refl
filter_group-Balanced none joiner os z h =
    let inside = join joiner (map (λ o. o.0) os) in
    let ih = joined-Balanced joiner os z h in
    let b = placeholders-append inside (codes ")") in omega (arith, ih, b)

mutual
  unfolding filter

  filter-Balanced : (n : Node) → Balanced (filter n)
  filter-Balanced (leaf l) = refl
  filter-Balanced (near ls d fs) = refl
  filter-Balanced (neg n) =
      let ih = filter-Balanced n in
      let b = placeholders-append (filter n).0 (codes ")") in omega (arith, ih, b)
  filter-Balanced (conj ns) =
      filter_group-Balanced (compile (conj ns)) (codes " AND ") (filter_each ns) refl
        (filter_each-AllBalanced ns)
  filter-Balanced (disj ns) =
      filter_group-Balanced (compile (disj ns)) (codes " OR ") (filter_each ns) refl
        (filter_each-AllBalanced ns)

  filter_each-AllBalanced : (ns : Nodes) → AllBalanced (filter_each ns)
  filter_each-AllBalanced nil = tt
  filter_each-AllBalanced (cons n ns) = (filter-Balanced n, filter_each-AllBalanced ns)

-- The SQL expression of a query has as many placeholders as parameters: no `?` of a query's words
-- gets into the expression.
pub to_filter_expression-placeholders :
    (n : Node) → placeholders (to_filter_expression n).0 ≡ length (to_filter_expression n).1
unfolding to_filter_expression
to_filter_expression-placeholders n = filter-Balanced (normalize n)
