-- ===== src/Search/Scanner.antt =====
-- `_Scanner` of search/parser.py, over any tokenizer. A cursor holds `self._index` and the text from
-- there on. The operands of `NEAR` are in the child `Groups`.
pub mod Leaves
pub mod Groups
pub mod Places
pub mod Words
pub mod Near
pub mod Symbols
pub mod Total
use sci_etl_core.Prelude.{
  ℕ, zero, suc, ◌+◌, Text, codes, text_eq, Bool, true, false, ◌||◌, ◌&&◌, List, [], ◌∷◌, ◌++◌,
  Option, none, some, ◌==◌, is_space, starts_with, if◌then◌else◌, length, leb, drop, take,
}
use sci_etl_core.Search.Ast.{Field, Leaf, Node, leaf}
use sci_etl_core.Search.Tokenize.{Tokenizer}
use sci_etl_core.Search.Lexeme.{
  Kind, operand, and_op, or_op, not_op, open_group, close_group, end_of_query, Lexeme, Complaint,
  bare_scope, unclosed_phrase, Outcome, ok, raised, exhausted, error_at, bind, Stream, next, ends,
  fails, cut,
}
use sci_etl_core.Search.Scanner.Leaves.{
  Cursor, skip_spaces, split_word, split_quote, quoted, field_scope, keyword_kind, no_text,
  scoped_fields, leaf_of, word_leaf, near_keyword,
}
use sci_etl_core.Search.Scanner.Groups.{near_group}

-- `_SYMBOLS` at the start of a text.
unfoldable pub symbol_at : Text → Option (Kind × Text)
unfolding starts_with
symbol_at t =
    if starts_with (codes "&&") t
    then some (and_op, codes "&&")
    else if starts_with (codes "||") t
    then some (or_op, codes "||")
    else if starts_with (codes "-") t
    then some (not_op, codes "-")
    else if starts_with (codes "(") t
    then some (open_group, codes "(")
    else if starts_with (codes ")") t
    then some (close_group, codes ")")
    else none

abbrev pub operand_at : ℕ → Text → Node → Lexeme
operand_at start text n = record { kind = operand; text = text; position = start; node = some n }

-- `_phrase`, where `raw` stands between the start and the quote, and `after` follows the quote.
unfoldable pub phrase_at : Tokenizer → ℕ → Text → Text → List Field → Outcome (Lexeme × Cursor)
unfolding bind split_quote leaf_of
phrase_at tokenizer start raw after fields = elim (split_quote after) [
  | none ↦ error_at unclosed_phrase (start + length raw) (codes "\"")
  | some (inside, rest) ↦
      bind (leaf_of (tokenizer inside) fields (quoted inside) (start + length raw)) (λ l. ok (
        operand_at start (raw ++ quoted inside) (leaf l),
        record { index = start + length raw + length (quoted inside); rest = rest },
      ))
]

-- `_word` from the `fields` of its scope on, where the body of the word starts at `body_start`.
unfoldable pub scoped_at : Tokenizer → ℕ → Text → Text → ℕ → List Field → Outcome (Lexeme × Cursor)
unfolding bind word_leaf phrase_at near_group no_text text_eq
scoped_at tokenizer start raw after body_start fields =
    let body = drop body_start raw in
    elim (text_eq body near_keyword && starts_with (codes "(") after) [
      | true ↦ near_group tokenizer start raw after fields
      | false ↦ elim (no_text body) [
        | false ↦ bind (word_leaf tokenizer body (start + body_start) fields) (λ l.
            ok (operand_at start raw (leaf l), record { index = start + length raw; rest = after }))
        | true ↦ elim (starts_with (codes "\"") after) [
          | true ↦ phrase_at tokenizer start raw (drop 1 after) fields
          | false ↦ error_at bare_scope start raw
        ]
      ]
    ]

-- `_word` from the `raw` word on.
unfoldable pub word_at : Tokenizer → List Field → ℕ → Text → Text → Outcome (Lexeme × Cursor)
unfolding bind keyword_kind field_scope scoped_fields word_leaf near_group scoped_at text_eq
word_at tokenizer default_fields start raw after = elim (keyword_kind raw) [
  | some kind ↦ ok (
    record { kind = kind; text = raw; position = start; node = none },
    record { index = start + length raw; rest = after },
  )
  | none ↦ elim (field_scope raw) [
    | some (names, body_start) ↦
        bind (scoped_fields names start)
          (λ fields. scoped_at tokenizer start raw after body_start fields)
    | none ↦ elim (text_eq raw near_keyword && starts_with (codes "(") after) [
      | true ↦ near_group tokenizer start raw after default_fields
      | false ↦ bind (word_leaf tokenizer raw start default_fields) (λ l.
          ok (operand_at start raw (leaf l), record { index = start + length raw; rest = after }))
    ]
  ]
]

-- `next` after the spaces, in a text that has not ended.
unfoldable pub lexeme_at : Tokenizer → List Field → ℕ → Text → Outcome (Lexeme × Cursor)
unfolding symbol_at phrase_at word_at split_word
lexeme_at tokenizer default_fields start t = elim (symbol_at t) [
  | some (kind, symbol) ↦ ok (
    record { kind = kind; text = symbol; position = start; node = none },
    record { index = start + length symbol; rest = drop (length symbol) t },
  )
  | none ↦ elim (starts_with (codes "\"") t) [
    | true ↦ phrase_at tokenizer start [] (drop 1 t) default_fields
    | false ↦ let (raw, after) = split_word t in word_at tokenizer default_fields start raw after
  ]
]

-- The calls of `next` from a cursor on.
unfoldable pub lexemes : ℕ → Tokenizer → List Field → Cursor → Stream
unfolding skip_spaces lexeme_at no_text
lexemes zero tokenizer default_fields c = cut
lexemes (suc f) tokenizer default_fields c =
    let (start, t) = skip_spaces c.index c.rest in
    elim (no_text t) [
      | true ↦ ends start
      | false ↦ elim (lexeme_at tokenizer default_fields start t) [
        | ok (l, c') ↦ next l (lexemes f tokenizer default_fields c')
        | raised e ↦ fails e
        | exhausted ↦ cut
      ]
    ]
