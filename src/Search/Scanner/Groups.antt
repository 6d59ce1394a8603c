-- ===== src/Search/Scanner/Groups.antt =====
-- `_near` of search/parser.py: the operands of a `NEAR` group, its distance and its node.
use sci_etl_core.Prelude.{
  ℕ, zero, suc, ◌+◌, ◌-◌, ◌*◌, Text, codes, Bool, true, false, ◌||◌, ◌&&◌, not, List, [], ◌∷◌, ◌++◌,
  map, Option, none, some, ◌==◌, starts_with, if◌then◌else◌, length, leb, take, drop,
}
use sci_etl_core.Search.Ast.{Field, Leaf, Node, leaf, near, term, phrase}
use sci_etl_core.Search.Tokenize.{Tokenizer}
use sci_etl_core.Search.Lexeme.{
  operand, Lexeme, Outcome, ok, exhausted, error_at, bind, unclosed_near, unclosed_phrase,
  not_near_operand, unexpected_in_near, bad_distance, empty_near,
}
use sci_etl_core.Search.Scanner.Leaves.{
  Cursor, skip_spaces, starts_operator, split_near_word, split_quote, quoted, field_scope,
  keyword_kind, no_text, leaf_of, word_leaf,
}

-- `NEAR_DISTANCE`.
abbrev pub near_distance : ℕ
near_distance = 10

-- What `_not_near_operand` is raised for.
unfoldable pub is_no_operand : Text → Bool
unfolding field_scope keyword_kind starts_with
is_no_operand word = elim (field_scope word) [
  | some _ ↦ true
  | none ↦ elim (keyword_kind word) [ some _ ↦ true | none ↦ starts_with (codes "-") word ]
]

-- `operands` and `quoted`, an operand each.
abbrev pub Operands : Type 0
Operands = List (Leaf × Bool)

-- One round of the loop, at the text `t` that starts an operand.
unfoldable pub near_operand : Tokenizer → ℕ → Text → Outcome ((Leaf × Bool) × Cursor)
unfolding bind starts_operator split_quote split_near_word is_no_operand leaf_of word_leaf no_text
near_operand tokenizer here t = elim (starts_with (codes "\"") t) [
  | true ↦ elim (split_quote (drop 1 t)) [
    | none ↦ error_at unclosed_phrase here (codes "\"")
    | some (inside, after) ↦
        bind (leaf_of (tokenizer inside) [] (quoted inside) here)
          (λ l. ok ((l, true), record { index = here + length (quoted inside); rest = after }))
  ]
  | false ↦ elim (starts_operator t) [
    | true ↦ error_at not_near_operand here (take 2 t)
    | false ↦
        let (word, after) = split_near_word t in
        elim (is_no_operand word) [
          | true ↦ error_at not_near_operand here word
          | false ↦ elim (no_text word) [
            | true ↦ error_at unexpected_in_near here (take 1 t)
            | false ↦
                bind (word_leaf tokenizer word here [])
                  (λ l. ok ((l, false), record { index = here + length word; rest = after }))
          ]
        ]
  ]
]

unfoldable pub ends_operands : Text → Bool
unfolding starts_with
ends_operands t = starts_with (codes ",") t || starts_with (codes ")") t

-- The loop over the operands, up to the comma or the parenthesis that ends them.
unfoldable pub near_operands : ℕ → Tokenizer → ℕ → ℕ → Text → Operands → Outcome (Operands × Cursor)
unfolding bind skip_spaces near_operand ends_operands no_text
near_operands zero tokenizer opening index rest operands = exhausted
near_operands (suc f) tokenizer opening index rest operands =
    let (here, t) = skip_spaces index rest in
    elim (no_text t) [
      | true ↦ error_at unclosed_near opening (codes "(")
      | false ↦ elim (ends_operands t) [
        | true ↦ ok (operands, record { index = here; rest = t })
        | false ↦
            bind (near_operand tokenizer here t)
              (λ (o, c). near_operands f tokenizer opening c.index c.rest (operands ++ o ∷ []))
      ]
    ]

unfoldable pub is_digit : ℕ → Bool
is_digit c = leb b'0' c && leb c b'9'

-- The value of the digits that a text starts with, their number and the text after them.
unfoldable pub read_digits : ℕ → ℕ → Text → ℕ × ℕ × Text
unfolding is_digit
read_digits value n [] = (value, n, [])
read_digits value n (c ∷ cs) =
    let rest = read_digits (10 * value + (c - b'0')) (suc n) cs in
    if is_digit c then rest else (value, n, c ∷ cs)

-- `_DISTANCE.match` after the comma: the number, and the index of the parenthesis after it.
unfoldable pub distance_at : ℕ → Text → Option (ℕ × ℕ)
unfolding skip_spaces read_digits starts_with
distance_at index t =
    let (first, digits) = skip_spaces index t in
    let (value, n, after) = read_digits 0 0 digits in
    let (closing, rest) = skip_spaces (first + n) after in
    if not (n == 0) && starts_with (codes ")") rest then some (value, closing) else none

-- `_scoped_leaf`.
unfoldable pub scoped_leaf : Leaf → List Field → Leaf
scoped_leaf (term text fs prefix) fields = term text fields prefix
scoped_leaf (phrase ws fs) fields = phrase ws fields

-- A single quoted phrase gives its words.
unfoldable pub spread : Operands → List Leaf
spread ((phrase ws fields, true) ∷ []) = map (λ w. term w [] false) ws
spread operands = map (λ o. o.0) operands

unfoldable pub group_node : List Leaf → ℕ → List Field → Option Node
unfolding scoped_leaf
group_node [] distance fields = none
group_node (l ∷ []) distance fields = some (leaf (scoped_leaf l fields))
group_node ls distance fields = some (near ls distance fields)

-- The end of `_near`, from the closing parenthesis on; `t` is the text from the start on.
unfoldable pub close_group_at : ℕ → Text → ℕ → Operands → ℕ → List Field → Outcome (Lexeme × Cursor)
unfolding spread group_node
close_group_at start t closing operands distance fields =
    let n = suc closing - start in
    elim (group_node (spread operands) distance fields) [
      | none ↦ error_at empty_near start (take n t)
      | some node ↦ ok (
        record { kind = operand; text = take n t; position = start; node = some node },
        record { index = suc closing; rest = drop n t },
      )
    ]

-- `_near`, after the keyword `raw`; `after` starts with the opening parenthesis.
unfoldable pub near_group : Tokenizer → ℕ → Text → Text → List Field → Outcome (Lexeme × Cursor)
unfolding bind near_operands distance_at close_group_at
near_group tokenizer start raw after fields =
    let opening = start + length raw in
    bind (near_operands (length after) tokenizer opening (suc opening) (drop 1 after) [])
      (λ (operands, c). elim (starts_with (codes ",") c.rest) [
        | true ↦ elim (distance_at (suc c.index) (drop 1 c.rest)) [
          | none ↦ error_at bad_distance c.index (codes ",")
          | some (distance, closing) ↦
              close_group_at start (raw ++ after) closing operands distance fields
        ]
        | false ↦ close_group_at start (raw ++ after) c.index operands near_distance fields
      ])
