-- ===== src/Search/Parser/Tests.antt =====
-- Queries at which the theorems of the parser are applied.
use sci_etl_core.Prelude.{Text, codes, false, [], ◌∷◌, ◌≡◌, refl, none, some, length}
use sci_etl_core.Search.Ast.{Node, leaf, term, disj, conj, neg, nil, cons}
use sci_etl_core.Search.Tokenize.{Tokenizer}
use sci_etl_core.Search.Lexeme.{operand, or_op, not_op, ok, next, ends}
use sci_etl_core.Search.Parser.{Parser, parse, is_or, is_and, skip_nots, starts_operand}
use sci_etl_core.Search.Scanner.{lexemes}

abbrev word : Text → Node
word t = leaf (term t [] false)

abbrev query : Text
query = codes "a OR -b"

abbrev or_not : Parser
or_not = record {
  current = record {
    kind = operand;
    text = codes "a";
    position = 0;
    node = some (word (codes "a"));
  };
  previous = record {
    kind = operand;
    text = codes "a";
    position = 0;
    node = some (word (codes "a"));
  };
  rest =
      next (record { kind = or_op; text = codes "OR"; position = 2; node = none })
        (next (record { kind = not_op; text = codes "-"; position = 5; node = none })
          (next
            (record {
              kind = operand;
              text = codes "b";
              position = 6;
              node = some (word (codes "b"));
            })
            (ends 7)));
}

-- A tokenizer that takes every text as one word.
abbrev whole : Tokenizer
whole t = record { text = t; start = 0; end = length t } ∷ []

query-lexemes :
    lexemes 8 whole [] (record { index = 0; rest = query }) ≡ next or_not.current or_not.rest
unfolding lexemes
query-lexemes = refl

or_not-parse :
    parse or_not
    ≡ ok (
        disj (
          cons
            (conj (cons (word (codes "a")) nil))
            (cons (conj (cons (neg (word (codes "b"))) nil)) nil)))
unfolding parse skip_nots is_and is_or starts_operand
or_not-parse = refl
