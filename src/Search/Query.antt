-- ===== src/Search/Query.antt =====
-- `parse_query` and `parse_ranked_query` of search/parser.py.
pub mod Located
mod Tests
use sci_etl_core.Prelude.{
  Bool, true, false, ℕ, suc, Text, List, [], ◌∷◌, Option, none, some, length,
}
use sci_etl_core.Search.Ast.{Field, Node}
use sci_etl_core.Search.Tokenize.{Tokenizer}
use sci_etl_core.Search.Normalize.{normalize}
use sci_etl_core.Search.Lexeme.{
  Lexeme, Outcome, ok, raised, exhausted, bind, error_at, unknown_field, not_rankable, Stream, next,
  ends, fails, cut,
}
use sci_etl_core.Search.Parser.{is_not, new_parser, parse}
use sci_etl_core.Search.Fts5.{is_rankable}
use sci_etl_core.Search.Scanner.Leaves.{field_named, in_order}
use sci_etl_core.Search.Scanner.{lexemes}

-- The first default field that is not in `FIELDS`.
unfoldable pub first_unknown : List Text → Option Text
unfolding field_named
first_unknown [] = none
first_unknown (name ∷ names) = elim (field_named name) [
  | none ↦ some name
  | some f ↦ first_unknown names
]

unfoldable pub known : List Text → List Field
unfolding field_named
known [] = []
known (name ∷ names) = elim (field_named name) [ none ↦ known names | some f ↦ f ∷ known names ]

-- A text has at most one lexeme for each character, and its end.
unfoldable pub lexemes_of : Tokenizer → List Field → Text → Stream
unfolding lexemes
lexemes_of tokenizer fields text =
    lexemes (suc (length text)) tokenizer fields (record { index = 0; rest = text })

unfoldable pub parse_query : Tokenizer → Text → List Text → Outcome Node
unfolding bind first_unknown known in_order lexemes_of new_parser parse normalize
parse_query tokenizer text default_fields = elim (first_unknown default_fields) [
  | some name ↦ raised (record { complaint = unknown_field; position = none; token = name })
  | none ↦
      bind (new_parser (lexemes_of tokenizer (in_order (known default_fields)) text))
        (λ p. bind (parse p) (λ n. ok (normalize n)))
]

-- `_locate`: the position and the text of the first lexeme wanted, or of the end.
unfoldable pub locate : (Lexeme → Bool) → Stream → Outcome (ℕ × Text)
locate wanted (next l rest) = elim (wanted l) [
  | true ↦ ok (l.position, l.text)
  | false ↦ locate wanted rest
]
locate wanted (ends position) = ok (position, [])
locate wanted (fails e) = raised e
locate wanted cut = exhausted

unfoldable pub is_negation : Lexeme → Bool
unfolding is_not
is_negation l = is_not l.kind

unfoldable pub parse_ranked_query : Tokenizer → Text → List Text → Outcome Node
unfolding bind parse_query is_rankable locate is_negation lexemes_of
parse_ranked_query tokenizer text default_fields =
    bind (parse_query tokenizer text default_fields) (λ n. elim (is_rankable n) [
      | true ↦ ok n
      | false ↦
          bind (locate is_negation (lexemes_of tokenizer [] text))
            (λ (position, token). error_at not_rankable position token)
    ])
