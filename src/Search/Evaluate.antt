-- ===== src/Search/Evaluate.antt =====
-- search/evaluate.py: where the leaves of a query occur in a tokenized document, and whether the
-- document satisfies the query. The walk over `NEAR` groups is in the child `Near`.
pub mod Starts
pub mod Near
use sci_etl_core.Prelude.{
  ℕ, zero, suc, ◌+◌, ◌-◌, Text, Bool, true, false, ◌&&◌, List, [], ◌∷◌, ◌++◌, map, Option, none,
  some, length, take, drop, get_elem?, text_eq, starts_with, if◌then◌else◌,
}
use sci_etl_core.Search.Ast.{Field, Leaf, title, abstract, body, term, phrase, all_fields}
use sci_etl_core.Search.Tokenize.{Tokenizer, words}

pub record TokenizedDocument : Type 0 where
  pub title : List Text
  pub abstract : List Text
  pub body : List Text

-- `getattr(document, name)`.
unfoldable pub field_words : TokenizedDocument → Field → List Text
field_words d title = d.title
field_words d abstract = d.abstract
field_words d body = d.body

-- `query[:-1]` and `query[-1]`, of the words `w ∷ ws`.
unfoldable pub leading : Text → List Text → List Text
leading w [] = []
leading w (v ∷ vs) = w ∷ leading v vs

unfoldable pub last_word : Text → List Text → Text
last_word w [] = w
last_word w (v ∷ vs) = last_word v vs

unfoldable pub texts_eq : List Text → List Text → Bool
texts_eq [] [] = true
texts_eq (a ∷ as') (b ∷ bs) = text_eq a b && texts_eq as' bs
texts_eq _ _ = false

unfoldable pub last_matches : Bool → Text → Text → Bool
last_matches prefix candidate last =
    if prefix then starts_with last candidate else text_eq candidate last

-- The test of one `start` in the loop of `_starts`.
unfoldable pub candidate_at : List Text → List Text → Text → Bool → ℕ → Bool
unfolding last_matches texts_eq
candidate_at tokens lead last prefix start = elim (get_elem? tokens (start + length lead)) [
  | none ↦ false
  | some candidate ↦
      last_matches prefix candidate last && texts_eq (take (length lead) (drop start tokens)) lead
]

-- `rounds` counts down what is left of `range(len(tokens) - len(leading))`.
unfoldable pub starts_loop : List Text → List Text → Text → Bool → ℕ → ℕ → List ℕ
starts_loop tokens lead last prefix zero start = []
starts_loop tokens lead last prefix (suc rounds) start =
    let rest = starts_loop tokens lead last prefix rounds (suc start) in
    if candidate_at tokens lead last prefix start then start ∷ rest else rest

unfoldable pub starts : List Text → List Text → Bool → List ℕ
unfolding starts_loop candidate_at leading last_word
starts tokens [] prefix = []
starts tokens (w ∷ ws) prefix =
    starts_loop tokens (leading w ws) (last_word w ws) prefix
      (length tokens - length (leading w ws)) 0

-- `" ".join(words)`.
unfoldable pub join_words : List Text → Text
join_words [] = []
join_words (w ∷ []) = w
join_words (w ∷ ws) = w ++ b' ' ∷ join_words ws

unfoldable pub leaf_words : Tokenizer → Leaf → List Text
unfolding words join_words
leaf_words tokenizer (term text fields prefix) = words tokenizer text
leaf_words tokenizer (phrase ws fields) = words tokenizer (join_words ws)

unfoldable pub is_prefix : Leaf → Bool
is_prefix (term text fields prefix) = prefix
is_prefix (phrase ws fields) = false

unfoldable pub leaf_fields : Leaf → List Field
leaf_fields (term text fields prefix) = fields
leaf_fields (phrase ws fields) = fields

-- `leaf.fields or FIELDS`.
unfoldable pub searched : List Field → List Field
searched [] = all_fields
searched fields = fields

-- `Hits`: a dictionary from fields to token ranges, in the order of insertion.
abbrev pub Hits : Type 0
Hits = List (Field × List (ℕ × ℕ))

unfoldable pub ranges_in : TokenizedDocument → List Text → Bool → Field → List (ℕ × ℕ)
unfolding starts field_words
ranges_in document query prefix name =
    map (λ start. (start, start + length query)) (starts (field_words document name) query prefix)

unfoldable pub occurrences_in : TokenizedDocument → List Text → Bool → List Field → Hits
unfolding ranges_in
occurrences_in document query prefix [] = []
occurrences_in document query prefix (name ∷ names) =
    let rest = occurrences_in document query prefix names in
    let ranges = ranges_in document query prefix name in
    elim ranges [ [] ↦ rest | r ∷ rs ↦ (name, r ∷ rs) ∷ rest ]

unfoldable pub occurrences : Tokenizer → Leaf → TokenizedDocument → Hits
unfolding occurrences_in leaf_words is_prefix leaf_fields searched
occurrences tokenizer leaf document =
    occurrences_in document (leaf_words tokenizer leaf) (is_prefix leaf)
      (searched (leaf_fields leaf))
