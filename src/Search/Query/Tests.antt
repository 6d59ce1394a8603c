-- ===== src/Search/Query/Tests.antt =====
-- Query texts at which `parse_query` is run and its theorem applied.
use sci_etl_core.Prelude.{Text, codes, false, [], ◌∷◌, ◌≡◌, refl, length}
use sci_etl_core.Search.Ast.{leaf, term, disj, conj, neg, nil, cons, title, near}
use sci_etl_core.Search.Tokenize.{Tokenizer}
use sci_etl_core.Search.Lexeme.{ok, error_at, unclosed_group, not_rankable}
use sci_etl_core.Search.Query.{parse_query, parse_ranked_query}

-- A tokenizer that takes every text as one word.
abbrev whole : Tokenizer
whole t = record { text = t; start = 0; end = length t } ∷ []

abbrev scoped : Text
scoped = codes "title:a -(b OR NEAR(c d, 3)) "

scoped-parse :
    parse_query whole scoped []
    ≡ ok (
        conj (
          cons (leaf (term (codes "a") (title ∷ []) false)) (
            cons
              (neg (
                disj (
                  cons (leaf (term (codes "b") [] false)) (
                    cons
                      (near (term (codes "c") [] false ∷ term (codes "d") [] false ∷ []) 3 [])
                      nil))))
              nil)))
unfolding parse_query
scoped-parse = refl

abbrev unclosed : Text
unclosed = codes "a OR -(b"

unclosed-parse : parse_query whole unclosed [] ≡ error_at unclosed_group 6 (codes "(")
unfolding parse_query
unclosed-parse = refl

abbrev unranked : Text
unranked = codes "a OR -b"

unranked-parse : parse_ranked_query whole unranked [] ≡ error_at not_rankable 5 (codes "-")
unfolding parse_ranked_query
unranked-parse = refl
