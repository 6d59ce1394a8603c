-- ===== src/Search/Evaluate/Near.antt =====
-- `NEAR` groups of search/evaluate.py: `_walk_near` over the start positions of the operands,
-- `trim_near`, `near_hits` and `near_occurrences`, and with them `matches`. The two `while` loops of
-- `_walk_near` are one loop, whose rounds end with a match or without one.

pub mod Rounds
pub mod Choice
pub mod Holds
pub mod Exact
pub mod Positions
pub mod Trimmed
mod Tests
use sci_etl_core.Prelude.{
  Text, ℕ, zero, suc, ◌+◌, ◌*◌, ◌/◌, ◌%◌, ◌^◌, max, Bool, true, false, not, ◌&&◌, ◌||◌, List, [],
  ◌∷◌, ◌++◌, map, Option, none, some, length, ltb, leb, ◌==◌, if◌then◌else◌,
}
use sci_etl_core.Search.Ast.{Field, Leaf, Node, term, phrase, title, abstract, body}
use sci_etl_core.Search.Boolean.{holds}
use sci_etl_core.Search.Tokenize.{Tokenizer}
use sci_etl_core.Search.Evaluate.{
  TokenizedDocument, Hits, starts, field_words, searched, leaf_words, leaf_fields, is_prefix,
  occurrences,
}
use Prim.Native.Nat.{bit_or}

-- One operand: its positions from the cursor on, the current one first, and its length in tokens.
pub record Operand : Type 0 where
  pub current : ℕ
  pub later : List ℕ
  pub span : ℕ

-- `while current(index) < earliest`, where `earliest` is `latest - span - distance`; `none` where the
-- positions are exhausted.
unfoldable pub skip : ℕ → ℕ → ℕ → ℕ → List ℕ → Option Operand
skip latest span distance current [] =
    if ltb (current + span + distance) latest
    then none
    else some (record { current = current; later = []; span = span })
skip latest span distance current (next ∷ later) =
    let rest = skip latest span distance next later in
    if ltb (current + span + distance) latest
    then rest
    else some (record { current = current; later = next ∷ later; span = span })

-- What a round of the `for` loop leaves.
pub record Round : Type 0 where
  pub operands : List Operand
  pub latest : ℕ
  pub matched : Bool

unfoldable pub place_operand : Operand → Bool → Option Round → Option Round
place_operand o fine none = none
place_operand o fine (some r) =
    some (record { operands = o ∷ r.operands; latest = r.latest; matched = fine && r.matched })

-- The test of one operand and its `while` loop.
unfoldable pub fits_window : ℕ → ℕ → Operand → Bool
fits_window distance latest o =
    not (ltb (o.current + o.span + distance) latest) && not (ltb latest o.current)

unfoldable pub sweep : ℕ → ℕ → List Operand → Option Round
unfolding skip place_operand fits_window
sweep distance latest [] = some (record { operands = []; latest = latest; matched = true })
sweep distance latest (o ∷ os) = elim (fits_window distance latest o) [
  | true ↦ place_operand o true (sweep distance latest os)
  | false ↦ elim (skip latest o.span distance o.current o.later) [
    | none ↦ none
    | some o' ↦ place_operand o' false (sweep distance (max latest o'.current) os)
  ]
]

-- `starts.append(current(index))`, unless it is there as the last one.
unfoldable pub push_start : ℕ → List ℕ → List ℕ
push_start s [] = s ∷ []
push_start s (t ∷ []) = if t == s then t ∷ [] else t ∷ s ∷ []
push_start s (t ∷ u ∷ ts) = t ∷ push_start s (u ∷ ts)

unfoldable pub keep_starts : List Operand → List (List ℕ) → List (List ℕ)
unfolding push_start
keep_starts [] kept = kept
keep_starts (o ∷ os) [] = []
keep_starts (o ∷ os) (ks ∷ kept) = push_start o.current ks ∷ keep_starts os kept

-- `lookahead(a) <= lookahead(b)`: an operand with no further position comes last.
unfoldable pub looks_before : List ℕ → List ℕ → Bool
looks_before later [] = true
looks_before [] (b ∷ bs) = false
looks_before (a ∷ as') (b ∷ bs) = leb a b

-- The least lookahead of the operands, given that of one before them.
unfoldable pub least : List ℕ → List Operand → List ℕ
unfolding looks_before
least best [] = best
least best (o ∷ os) = least (if looks_before best o.later then best else o.later) os

-- The first operand with the least lookahead is advanced; `none` where it is exhausted.
unfoldable pub advance_first : List ℕ → List Operand → Option (List Operand)
unfolding looks_before
advance_first best [] = none
advance_first best (o ∷ os) = elim (looks_before o.later best) [
  | true ↦ elim o.later [
    | [] ↦ none
    | next ∷ later ↦ some (record o { current = next; later = later } ∷ os)
  ]
  | false ↦ elim (advance_first best os) [ none ↦ none | some rest ↦ some (o ∷ rest) ]
]

unfoldable pub advance_least : List Operand → Option (List Operand)
unfolding least advance_first
advance_least [] = none
advance_least (o ∷ os) = advance_first (least o.later os) (o ∷ os)

-- `current(0)`.
unfoldable pub first_current : List Operand → ℕ
first_current [] = 0
first_current (o ∷ os) = o.current

-- The loops of `_walk_near`; `none` where the fuel runs out.
unfoldable pub walk_near : ℕ → ℕ → ℕ → List Operand → List (List ℕ) → Option (List (List ℕ))
unfolding sweep keep_starts advance_least first_current
walk_near zero distance latest os kept = none
walk_near (suc f) distance latest os kept = elim (sweep distance latest os) [
  | none ↦ some kept
  | some r ↦ elim r.matched [
    | false ↦ walk_near f distance r.latest r.operands kept
    | true ↦
        let kept' = keep_starts r.operands kept in
        elim (advance_least r.operands) [
          | none ↦ some kept'
          | some os' ↦ walk_near f distance (first_current os') os' kept'
        ]
  ]
]

-- The positions that the operands have left.
unfoldable pub remaining : List Operand → ℕ
remaining [] = 0
remaining (o ∷ os) = suc (length o.later) + remaining os

-- Every round but one between two matches passes a position.
unfoldable pub near_fuel : List Operand → ℕ
unfolding remaining
near_fuel os = 2 * remaining os + 2

-- The operands at their first positions; `none` where one has no position.
unfoldable pub operands_at : List (List ℕ) → List ℕ → Option (List Operand)
operands_at [] lengths = some []
operands_at (ps ∷ positions) [] = some []
operands_at ([] ∷ positions) (n ∷ lengths) = none
operands_at ((p ∷ ps) ∷ positions) (n ∷ lengths) = elim (operands_at positions lengths) [
  | none ↦ none
  | some os ↦ some (record { current = p; later = ps; span = n } ∷ os)
]

-- The `kept` of `trim_near` after the walk, from the sorted positions.
unfoldable pub kept_starts : List (List ℕ) → List ℕ → ℕ → Option (List (List ℕ))
unfolding walk_near near_fuel operands_at first_current
kept_starts positions lengths distance = elim (operands_at positions lengths) [
  | none ↦ some (map (λ _. []) positions)
  | some os ↦ walk_near (near_fuel os) distance (first_current os) os (map (λ _. []) positions)
]

-- `FIELDS.index(name)` and `FIELDS[index]`.
unfoldable pub field_index : Field → ℕ
field_index title = 0
field_index abstract = 1
field_index body = 2

unfoldable pub field_at : ℕ → Field
field_at zero = title
field_at (suc zero) = abstract
field_at (suc (suc n)) = body

-- `_packed`, and `sorted` of it.
unfoldable pub packed_ranges : Field → List (ℕ × ℕ) → List ℕ
unfolding field_index
packed_ranges name [] = []
packed_ranges name ((start, stop) ∷ ranges) =
    bit_or (field_index name * 2 ^ 32) start ∷ packed_ranges name ranges

unfoldable pub packed : Hits → List ℕ
unfolding packed_ranges
packed [] = []
packed ((name, ranges) ∷ hits) = packed_ranges name ranges ++ packed hits

unfoldable pub insert_position : ℕ → List ℕ → List ℕ
insert_position p [] = p ∷ []
insert_position p (q ∷ qs) = if leb p q then p ∷ q ∷ qs else q ∷ insert_position p qs

unfoldable pub sort_positions : List ℕ → List ℕ
unfolding insert_position
sort_positions [] = []
sort_positions (p ∷ ps) = insert_position p (sort_positions ps)

-- `hits.setdefault(name, []).append(range)`.
unfoldable pub add_hit : Field → ℕ × ℕ → Hits → Hits
unfolding field_index
add_hit name range [] = (name, range ∷ []) ∷ []
add_hit name range ((k, ranges) ∷ hits) =
    if field_index k == field_index name
    then (k, ranges ++ range ∷ []) ∷ hits
    else (k, ranges) ∷ add_hit name range hits

unfoldable pub unpacked : List ℕ → ℕ → Hits → Hits
unfolding add_hit field_at
unpacked [] span hits = hits
unpacked (p ∷ ps) span hits =
    let start = p % 2 ^ 32 in
    unpacked ps span (add_hit (field_at (p / 2 ^ 32)) (start, start + span) hits)

unfoldable pub unpacked_all : List (List ℕ) → List ℕ → List Hits
unfolding unpacked
unpacked_all [] lengths = []
unpacked_all (ps ∷ kept) [] = []
unpacked_all (ps ∷ kept) (n ∷ lengths) = unpacked ps n [] ∷ unpacked_all kept lengths

-- `if not kept[0]`, where the walk kept no start of the first operand.
unfoldable pub trimmed : List Hits → List (List ℕ) → List ℕ → List Hits
unfolding unpacked_all
trimmed found [] lengths = []
trimmed found ([] ∷ kept) lengths = map (λ _. []) found
trimmed found ((k ∷ ks) ∷ kept) lengths = unpacked_all ((k ∷ ks) ∷ kept) lengths

unfoldable pub trim_near : List Hits → List ℕ → ℕ → Option (List Hits)
unfolding kept_starts trimmed packed sort_positions
trim_near found lengths distance =
    elim (kept_starts (map (λ hits. sort_positions (packed hits)) found) lengths distance) [
      | none ↦ none
      | some kept ↦ some (trimmed found kept lengths)
    ]

-- The operands with a token, and their lengths.
unfoldable pub kept_found : List Hits → List ℕ → List Hits
kept_found [] lengths = []
kept_found (h ∷ found) [] = []
kept_found (h ∷ found) (zero ∷ lengths) = kept_found found lengths
kept_found (h ∷ found) (suc n ∷ lengths) = h ∷ kept_found found lengths

unfoldable pub kept_lengths : List ℕ → List ℕ
kept_lengths [] = []
kept_lengths (zero ∷ lengths) = kept_lengths lengths
kept_lengths (suc n ∷ lengths) = suc n ∷ kept_lengths lengths

-- `result[index] = hits`, for each index that was kept.
unfoldable pub spread : List ℕ → List Hits → List Hits
spread [] hits = []
spread (zero ∷ lengths) hits = [] ∷ spread lengths hits
spread (suc n ∷ lengths) [] = [] ∷ spread lengths []
spread (suc n ∷ lengths) (h ∷ hits) = h ∷ spread lengths hits

unfoldable pub near_chosen : List Hits → List ℕ → ℕ → Option (List Hits)
unfolding trim_near
near_chosen [] lengths distance = some []
near_chosen (h ∷ []) lengths distance = some (h ∷ [])
near_chosen (h ∷ g ∷ hs) lengths distance = trim_near (h ∷ g ∷ hs) lengths distance

unfoldable pub near_hits : List Hits → List ℕ → ℕ → Option (List Hits)
unfolding near_chosen kept_found kept_lengths spread
near_hits found lengths distance =
    elim (near_chosen (kept_found found lengths) (kept_lengths lengths) distance) [
      | none ↦ none
      | some hits ↦ some (spread lengths hits)
    ]

-- `Near.scoped_operands`.
unfoldable pub with_fields : List Field → Leaf → Leaf
with_fields fields (term text own prefix) = term text fields prefix
with_fields fields (phrase words own) = phrase words fields

unfoldable pub scoped_operands : List Leaf → List Field → List Leaf
unfolding with_fields
scoped_operands operands [] = operands
scoped_operands operands (f ∷ fields) = map (with_fields (f ∷ fields)) operands

unfoldable pub near_occurrences :
    Tokenizer → List Leaf → ℕ → List Field → TokenizedDocument → Option (List Hits)
unfolding near_hits scoped_operands occurrences leaf_words
near_occurrences tokenizer operands distance fields document =
    let leaves = scoped_operands operands fields in
    near_hits (map (λ l. occurrences tokenizer l document) leaves)
      (map (λ l. length (leaf_words tokenizer l)) leaves) distance

-- `any` over mappings.
unfoldable pub any_hits : List Hits → Bool
any_hits [] = false
any_hits ([] ∷ hits) = any_hits hits
any_hits ((h ∷ hs) ∷ hits) = true

unfoldable pub satisfies_near : Tokenizer → TokenizedDocument → List Leaf → ℕ → List Field → Bool
unfolding near_occurrences any_hits
satisfies_near tokenizer document operands distance fields =
    elim (near_occurrences tokenizer operands distance fields document) [
      | none ↦ false
      | some hits ↦ any_hits hits
    ]

-- `next(_starts(...), None) is not None` in one of the fields.
unfoldable pub occurs_at : List ℕ → Bool
occurs_at [] = false
occurs_at (s ∷ ss) = true

unfoldable pub any_field : TokenizedDocument → List Text → Bool → List Field → Bool
unfolding starts field_words occurs_at
any_field document query prefix [] = false
any_field document query prefix (name ∷ names) =
    occurs_at (starts (field_words document name) query prefix)
    || any_field document query prefix names

unfoldable pub satisfies_leaf : Tokenizer → TokenizedDocument → Leaf → Bool
unfolding any_field leaf_words is_prefix leaf_fields searched
satisfies_leaf tokenizer document l =
    any_field document (leaf_words tokenizer l) (is_prefix l) (searched (leaf_fields l))

-- `matches`, of a document that is tokenized.
unfoldable pub matches : Tokenizer → Node → TokenizedDocument → Bool
unfolding holds satisfies_leaf satisfies_near
matches tokenizer node document =
    holds (satisfies_leaf tokenizer document) (satisfies_near tokenizer document) node
