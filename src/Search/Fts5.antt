-- ===== src/Search/Fts5.antt =====
-- search/compile_fts5.py: the MATCH expression of a query, where it can be ranked, and the SQL filter
-- expression with its parameters.
pub mod Placeholders
pub mod Quoting
mod Tests
use sci_etl_core.Prelude.{
  ℕ, Text, codes, Bool, true, false, ◌&&◌, ◌||◌, List, [], ◌∷◌, ◌++◌, map, Option, none, some, ◌==◌,
  leb, if◌then◌else◌,
}
use sci_etl_core.Search.Ast.{
  Field, title, abstract, body, Leaf, term, phrase, Node, Nodes, leaf, near, conj, disj, neg, nil,
  cons,
}
use sci_etl_core.Search.Normalize.{normalize}
use sci_etl_core.Search.Evaluate.{join_words, leaf_fields}
use sci_etl_core.Listing.Offsets.{decimal_cursor}

abbrev pub filter_leaf : Text
filter_leaf = codes "d.doc_id IN (SELECT rowid FROM documents_fts WHERE documents_fts MATCH ?)"

-- `joiner.join(parts)`.
unfoldable pub join : Text → List Text → Text
join joiner [] = []
join joiner (t ∷ []) = t
join joiner (t ∷ u ∷ ts) = t ++ joiner ++ join joiner (u ∷ ts)

unfoldable pub is_unsendable : ℕ → Bool
is_unsendable c = c == 0 || leb 0xd800 c && leb c 0xdfff

-- The two substitutions of `_quote`.
unfoldable pub escape : Text → Text
unfolding is_unsendable
escape [] = []
escape (c ∷ cs) =
    let rest = escape cs in
    if is_unsendable c then b' ' ∷ rest else if c == b'"' then b'"' ∷ b'"' ∷ rest else c ∷ rest

unfoldable pub quote : Text → Text
unfolding escape
quote t = b'"' ∷ escape t ++ codes "\""

unfoldable pub unscoped_literal : Leaf → Text
unfolding quote join_words
unscoped_literal (term t fields prefix) = quote t ++ (if prefix then codes "*" else [])
unscoped_literal (phrase ws fields) = quote (join_words ws)

unfoldable pub field_name : Field → Text
field_name title = codes "title"
field_name abstract = codes "abstract"
field_name body = codes "body"

unfoldable pub scoped : List Field → Text → Text
unfolding join field_name
scoped [] literal = literal
scoped (f ∷ fs) literal =
    codes "{" ++ join (codes " ") (map field_name (f ∷ fs)) ++ codes "} : " ++ literal

unfoldable pub compile_leaf : Leaf → Text
unfolding scoped unscoped_literal leaf_fields
compile_leaf l = scoped (leaf_fields l) (unscoped_literal l)

unfoldable pub compile_near : List Leaf → ℕ → List Field → Text
unfolding scoped join unscoped_literal decimal_cursor
compile_near ls distance fields = scoped fields (
    codes "NEAR("
    ++ join (codes " ") (map unscoped_literal ls)
    ++ codes ", "
    ++ decimal_cursor distance
    ++ codes ")")

unfoldable pub has_negation : Nodes → Bool
has_negation nil = false
has_negation (cons (neg n) ns) = true
has_negation (cons n ns) = has_negation ns

-- `_subtracts`.
unfoldable pub subtracts : Node → Bool
unfolding has_negation
subtracts (conj ns) = has_negation ns
subtracts n = false

-- One operand of `_compile_each`, before the rest.
unfoldable pub add_compiled : Node → Option Text → Option (List Text) → Option (List Text)
unfolding subtracts
add_compiled n (some e) (some es) =
    some ((if subtracts n then codes "(" ++ e ++ codes ")" else e) ∷ es)
add_compiled n _ _ = none

unfoldable pub included : List Text → Text
unfolding join
included (e ∷ []) = e
included es = codes "(" ++ join (codes " AND ") es ++ codes ")"

unfoldable pub join_alternatives : Option (List Text) → Option Text
unfolding join
join_alternatives none = none
join_alternatives (some es) = some (codes "(" ++ join (codes " OR ") es ++ codes ")")

-- The end of `_compile` for an `And`: what is kept and what is removed.
unfoldable pub subtract : Option (List Text) → Option (List Text) → Option Text
unfolding included
subtract (some kept) (some []) = some (included kept)
subtract (some kept) (some (e ∷ es)) = some (included kept ++ codes " NOT " ++ e)
subtract _ _ = none

-- `_compile`, with `_compile_each` of all the operands, of those that are no `Not`, and of the
-- operands of those that are.
unfoldable mutual
  pub compile : Node → Option Text
  compile (leaf l) = some (compile_leaf l)
  compile (near ls d fs) = some (compile_near ls d fs)
  compile (disj ns) = join_alternatives (compile_each ns)
  compile (conj ns) = subtract (compile_kept ns) (compile_removed ns)
  compile (neg n) = none

  pub compile_each : Nodes → Option (List Text)
  compile_each nil = some []
  compile_each (cons n ns) = add_compiled n (compile n) (compile_each ns)

  pub compile_kept : Nodes → Option (List Text)
  compile_kept nil = some []
  compile_kept (cons (neg n) ns) = compile_kept ns
  compile_kept (cons n ns) = add_compiled n (compile n) (compile_kept ns)

  pub compile_removed : Nodes → Option (List Text)
  compile_removed nil = some []
  compile_removed (cons (neg n) ns) = add_compiled n (compile n) (compile_removed ns)
  compile_removed (cons n ns) = compile_removed ns

unfoldable pub to_match_expression : Node → Option Text
unfolding compile add_compiled subtract join_alternatives normalize compile_leaf compile_near
to_match_expression n = compile (normalize n)

unfoldable pub is_rankable : Node → Bool
unfolding to_match_expression
is_rankable n = elim (to_match_expression n) [ none ↦ false | some e ↦ true ]

-- An expression with the parameters appended for it.
abbrev pub Filter : Type 0
Filter = Text × List Text

-- The parameters of the operands, in turn.
unfoldable pub gather : List Filter → List Text
gather [] = []
gather (o ∷ os) = o.1 ++ gather os

-- `_filter` of a group: its own leaf where it compiles, else its operands joined.
unfoldable pub filter_group : Option Text → Text → List Filter → Filter
unfolding join gather
filter_group (some expression) joiner operands = (filter_leaf, expression ∷ [])
filter_group none joiner operands =
    (codes "(" ++ join joiner (map (λ o. o.0) operands) ++ codes ")", gather operands)

unfoldable mutual
  pub filter : Node → Filter
  filter (leaf l) = (filter_leaf, compile_leaf l ∷ [])
  filter (near ls d fs) = (filter_leaf, compile_near ls d fs ∷ [])
  filter (neg n) = (codes "(NOT " ++ (filter n).0 ++ codes ")", (filter n).1)
  filter (conj ns) = filter_group (compile (conj ns)) (codes " AND ") (filter_each ns)
  filter (disj ns) = filter_group (compile (disj ns)) (codes " OR ") (filter_each ns)

  pub filter_each : Nodes → List Filter
  filter_each nil = []
  filter_each (cons n ns) = filter n ∷ filter_each ns

unfoldable pub to_filter_expression : Node → Filter
unfolding filter filter_group compile add_compiled subtract join_alternatives normalize compile_leaf
    compile_near
to_filter_expression n = filter (normalize n)
