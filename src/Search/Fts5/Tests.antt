-- ===== src/Search/Fts5/Tests.antt =====
-- A query at which the filter expression is computed and its theorem applied.
use sci_etl_core.Prelude.{Text, codes, false, [], ◌∷◌, ◌≡◌, refl, some, length, ◌++◌, starts_with}
use sci_etl_core.Search.Ast.{Node, leaf, term, conj, disj, neg, nil, cons}
use sci_etl_core.Search.Fts5.Quoting.{sendable, read_literal, quote-read_literal}
use sci_etl_core.Search.Fts5.{quote, to_match_expression, to_filter_expression}
use sci_etl_core.Search.Fts5.Placeholders.{placeholders, to_filter_expression-placeholders}

abbrev word : Text → Node
word t = leaf (term t [] false)

-- NOT ? OR "c
abbrev query : Node
query = disj (cons (neg (word (codes "?"))) (cons (word (codes "\"c")) nil))

query-parameters : (to_filter_expression query).1 ≡ codes "\"?\"" ∷ codes "\"\"\"c\"" ∷ []
unfolding to_filter_expression
query-parameters = refl

match_difference :
    to_match_expression (conj (cons (word (codes "a")) (cons (neg (word (codes "b"))) nil)))
    ≡ some (codes "\"a\" NOT \"b\"")
unfolding to_match_expression
match_difference = refl

to_filter_expression-placeholders_example :
    placeholders (to_filter_expression query).0 ≡ length (to_filter_expression query).1
to_filter_expression-placeholders_example = to_filter_expression-placeholders query

quote-read_literal_example :
    read_literal (quote (codes "a\" OR *") ++ codes ")")
    ≡ some (sendable (codes "a\" OR *"), codes ")")
unfolding starts_with
quote-read_literal_example = quote-read_literal (codes "a\" OR *") (codes ")") refl
