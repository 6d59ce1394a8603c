-- ===== src/Search/Tests.antt =====
-- Queries and documents at which the theorems of the search package are applied.
use sci_etl_core.Prelude.{
  ℕ, Text, codes, text_eq, Bool, true, false, List, [], ◌∷◌, ◌≡◌, refl, arith, drop, starts_with,
}
use sci_etl_core.Search.Ast.{Leaf, Node, leaf, conj, disj, neg, nil, cons, term, phrase, depth}
use sci_etl_core.Search.Boolean.{holds}
use sci_etl_core.Search.Normalize.{normalize, normalize_fuel}
use sci_etl_core.Search.Normalize.Meaning.{normalize-holds}
use sci_etl_core.Search.Normalize.Canonical.{IsNormal}
use sci_etl_core.Search.Normalize.Complete.{normalize-IsNormal, normalize_idem}
use sci_etl_core.Search.Normalize.Fuel.{normalize_fuel_enough}
use sci_etl_core.Search.Evaluate.{starts}
use sci_etl_core.Search.Evaluate.Starts.{occurs_here, has, IsAscending, starts_exact}

abbrev word : Text → Node
word t = leaf (term t [] false)

abbrev a : Node
a = word (codes "a")

abbrev b : Node
b = word (codes "b")

abbrev c : Node
c = word (codes "c")

-- a AND (NOT b AND NOT NOT (NOT c)), with a group of one operand.
abbrev query : Node
query = conj (
    cons a
      (cons (conj (cons (neg b) (cons (neg (neg (neg c))) nil))) (cons (disj (cons a nil)) nil)))

-- The negations merge where the first one stood.
query_normal :
    normalize query ≡ conj (cons a (cons (neg (disj (cons b (cons c nil)))) (cons a nil)))
unfolding normalize
query_normal = refl

abbrev reads_a : Leaf → Bool
reads_a (term t fields prefix) = text_eq t (codes "a")
reads_a (phrase ws fields) = false

normalize-holds_example :
    holds reads_a (λ ls d fs. false) (normalize query) ≡ holds reads_a (λ ls d fs. false) query
normalize-holds_example = normalize-holds reads_a (λ ls d fs. false) query

normalize-IsNormal_example : IsNormal (normalize query)
normalize-IsNormal_example =
    normalize-IsNormal query (tt, (tt, ((tt, (tt, (tt, tt))), ((tt, (tt, tt)), tt))))

normalize_idem_example : normalize (normalize query) ≡ normalize query
normalize_idem_example =
    normalize_idem query (tt, (tt, ((tt, (tt, (tt, tt))), ((tt, (tt, tt)), tt))))

normalize_fuel_enough_example : normalize_fuel 9 query ≡ normalize query
unfolding depth
normalize_fuel_enough_example =
    normalize_fuel_enough 9 query (tt, (tt, ((tt, (tt, (tt, tt))), ((tt, (tt, tt)), tt))))
      (omega arith)

abbrev tokens : List Text
tokens = codes "dwarf" ∷ codes "galaxy" ∷ codes "dwarf" ∷ codes "galaxies" ∷ []

two_starts : starts tokens (codes "dwarf" ∷ codes "galax" ∷ []) true ≡ 0 ∷ 2 ∷ []
unfolding starts text_eq starts_with
two_starts = refl

starts_exact_example :
    IsAscending 0 (starts tokens (codes "dwarf" ∷ codes "galax" ∷ []) true)
    × ((s : ℕ)
        → has (starts tokens (codes "dwarf" ∷ codes "galax" ∷ []) true) s
          ≡ occurs_here true (codes "dwarf" ∷ codes "galax" ∷ []) (drop s tokens))
starts_exact_example = starts_exact tokens (codes "dwarf" ∷ codes "galax" ∷ []) true
