-- ===== src/Search/Scanner/Leaves.antt =====
-- The parts of a query word in search/parser.py: spaces, words, quotes, field scopes and leaves.
use sci_etl_core.Prelude.{
  ℕ, suc, ◌+◌, Text, codes, text_eq, Bool, true, false, ◌||◌, ◌&&◌, List, [], ◌∷◌, ◌++◌, map,
  Option, none, some, ◌==◌, is_space, starts_with, if◌then◌else◌, length, leb,
}
use sci_etl_core.Search.Ast.{Field, Leaf, term, phrase, title, abstract, body}
use sci_etl_core.Search.Tokenize.{Token, Tokenizer}
use sci_etl_core.Search.Lexeme.{
  Kind, and_op, or_op, not_op, Outcome, ok, error_at, bind, unknown_field, misplaced_star, no_word,
}

pub record Cursor : Type 0 where
  pub index : ℕ
  pub rest : Text

unfoldable pub no_text : Text → Bool
no_text [] = true
no_text (c ∷ cs) = false

abbrev pub near_keyword : Text
near_keyword = codes "NEAR"

-- The index after the spaces, and the text from there on.
unfoldable pub skip_spaces : ℕ → Text → ℕ × Text
unfolding is_space
skip_spaces index [] = (index, [])
skip_spaces index (c ∷ cs) =
    let rest = skip_spaces (suc index) cs in if is_space c then rest else (index, c ∷ cs)

-- `_SYMBOL_OPERATORS` at the start of a text.
unfoldable pub starts_operator : Text → Bool
unfolding starts_with
starts_operator t = starts_with (codes "&&") t || starts_with (codes "||") t

-- `_breaks_word` of a text that has not ended.
unfoldable pub breaks_word : ℕ → Text → Bool
unfolding is_space starts_operator
breaks_word c cs = is_space c || c == b'(' || c == b')' || c == b'"' || starts_operator (c ∷ cs)

-- A word and the text after it.
unfoldable pub split_word : Text → Text × Text
unfolding breaks_word
split_word [] = ([], [])
split_word (c ∷ cs) =
    let (word, after) = split_word cs in
    if breaks_word c cs then ([], c ∷ cs) else (c ∷ word, after)

-- A word inside `NEAR`, which a comma ends too.
unfoldable pub split_near_word : Text → Text × Text
unfolding breaks_word
split_near_word [] = ([], [])
split_near_word (c ∷ cs) =
    let (word, after) = split_near_word cs in
    if c == b',' || breaks_word c cs then ([], c ∷ cs) else (c ∷ word, after)

-- What stands before and after the next quote.
unfoldable pub split_quote : Text → Option (Text × Text)
split_quote [] = none
split_quote (c ∷ cs) =
    let rest = split_quote cs in
    if c == b'"'
    then some ([], cs)
    else elim rest [ none ↦ none | some (inside, after) ↦ some (c ∷ inside, after) ]

abbrev pub quoted : Text → Text
quoted inside = b'"' ∷ inside ++ codes "\""

unfoldable pub is_letter : ℕ → Bool
is_letter c = leb 65 c && leb c 90 || leb 97 c && leb c 122

-- `_FIELD_SCOPE.match`: the names, and the length of the match. `started` tells whether the name has
-- a letter yet.
unfoldable pub scope_names : Bool → Text → Option (List Text × ℕ)
unfolding is_letter
scope_names started [] = none
scope_names started (c ∷ cs) =
    let rest = scope_names (is_letter c) cs in
    if is_letter c
    then elim rest [ some (name ∷ names, n) ↦ some ((c ∷ name) ∷ names, suc n) | _ ↦ none ]
    else if started && c == b':'
    then some ([] ∷ [], 1)
    else if started && c == b','
    then elim rest [ some (names, n) ↦ some ([] ∷ names, suc n) | none ↦ none ]
    else none

unfoldable pub field_scope : Text → Option (List Text × ℕ)
unfolding scope_names
field_scope = scope_names false

-- `_KEYWORDS`.
unfoldable pub keyword_kind : Text → Option Kind
unfolding text_eq
keyword_kind raw =
    if text_eq raw (codes "AND")
    then some and_op
    else if text_eq raw (codes "OR")
    then some or_op
    else if text_eq raw (codes "NOT")
    then some not_op
    else none

-- `str.lower` of the letters that a field scope may have.
unfoldable pub lower : Text → Text
lower [] = []
lower (c ∷ cs) = (if leb 65 c && leb c 90 then c + 32 else c) ∷ lower cs

unfoldable pub field_named : Text → Option Field
unfolding text_eq
field_named name =
    if text_eq name (codes "title")
    then some title
    else if text_eq name (codes "abstract")
    then some abstract
    else if text_eq name (codes "body")
    then some body
    else none

unfoldable pub requested_fields : List Text → ℕ → Outcome (List Field)
unfolding bind field_named lower
requested_fields [] position = ok []
requested_fields (name ∷ names) position = elim (field_named (lower name)) [
  | none ↦ error_at unknown_field position name
  | some f ↦ bind (requested_fields names (position + length name + 1)) (λ fs. ok (f ∷ fs))
]

unfoldable pub field_eq : Field → Field → Bool
field_eq title title = true
field_eq abstract abstract = true
field_eq body body = true
field_eq _ _ = false

unfoldable pub has_field : Field → List Field → Bool
unfolding field_eq
has_field f [] = false
has_field f (g ∷ gs) = field_eq f g || has_field f gs

-- The fields in the order of `FIELDS`.
unfoldable pub in_order : List Field → List Field
unfolding has_field
in_order requested =
    let pick = λ (f : Field) (fs : List Field). if has_field f requested then f ∷ fs else fs in
    pick title (pick abstract (pick body []))

-- `_scoped_fields`.
unfoldable pub scoped_fields : List Text → ℕ → Outcome (List Field)
unfolding bind requested_fields in_order
scoped_fields names position = bind (requested_fields names position) (λ fs. ok (in_order fs))

-- `_leaf`.
unfoldable pub leaf_of : List Token → List Field → Text → ℕ → Outcome Leaf
leaf_of [] fields source position = error_at no_word position source
leaf_of (t ∷ []) fields source position = ok (term t.text fields false)
leaf_of ts fields source position = ok (phrase (map (λ t. t.text) ts) fields)

-- The word before its last character, where that is `*`.
unfoldable pub stem : Text → Option Text
stem [] = none
stem (c ∷ []) = if c == b'*' then some [] else none
stem (c ∷ d ∷ cs) = elim (stem (d ∷ cs)) [ none ↦ none | some s ↦ some (c ∷ s) ]

-- `_word_node` of the word `s` and a star.
unfoldable pub star_leaf : List Token → Text → ℕ → List Field → Outcome Leaf
star_leaf (t ∷ []) s position fields = elim (t.end == length s) [
  | true ↦ ok (term t.text fields true)
  | false ↦ error_at misplaced_star (position + length s) (codes "*")
]
star_leaf _ s position fields = error_at misplaced_star (position + length s) (codes "*")

-- `_word_node`.
unfoldable pub word_leaf : Tokenizer → Text → ℕ → List Field → Outcome Leaf
unfolding stem leaf_of star_leaf
word_leaf tokenizer word position fields = elim (stem word) [
  | none ↦ leaf_of (tokenizer word) fields word position
  | some s ↦ star_leaf (tokenizer s) s position fields
]
