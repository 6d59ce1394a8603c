-- ===== src/Search/Filters.antt =====
-- search/filters.py: the tags of a record's metadata, filters on them. The JSON encoding
-- of metadata is not here; the markers of a snippet are in `Search/Markers.antt`.

pub mod Tags
mod Tests
use sci_etl_core.Prelude.{
  ℕ, suc, ◌-◌, Text, codes, Bool, true, false, not, ◌&&◌, ◌||◌, List, [], ◌∷◌, ◌++◌, Option, none,
  some, ltb, leb, ◌==◌, take, length, mem, text_eq, if◌then◌else◌,
}
use sci_etl_core.Listing.Offsets.{decimal_cursor, is_digit, all_digits, to_int}
use sci_etl_core.Search.Graph.Edges.{text_lt}
use sci_etl_core.Search.Graph.Communities.{sort_ids}

-- Python's `int`; `negsuc n` is -(n + 1).
pub data ℤ : Type 0 where
  pos : ℕ → ℤ
  negsuc : ℕ → ℤ

unfoldable pub leb_ℤ : ℤ → ℤ → Bool
leb_ℤ (pos a) (pos b) = leb a b
leb_ℤ (pos a) (negsuc b) = false
leb_ℤ (negsuc a) (pos b) = true
leb_ℤ (negsuc a) (negsuc b) = leb b a

-- `str` of an integer.
unfoldable pub str_ℤ : ℤ → Text
unfolding decimal_cursor
str_ℤ (pos n) = decimal_cursor n
str_ℤ (negsuc n) = b'-' ∷ decimal_cursor (suc n)

-- A bound of a range filter.
pub data Bound : Type 0 where
  number : ℤ → Bound
  text : Text → Bound

pub data SearchFilter : Type 0 where
  metadata_filter : Text → List Text → Bool → SearchFilter
  range_filter : Text → Option Bound → Option Bound → Bool → SearchFilter

abbrev pub key_of : SearchFilter → Text
key_of (metadata_filter key values negated) = key
key_of (range_filter key low high negated) = key

abbrev pub is_negated : SearchFilter → Bool
is_negated (metadata_filter key values negated) = negated
is_negated (range_filter key low high negated) = negated

-- `_CANONICAL_INTEGER.fullmatch(value)` and `int(value)` where it matches.
unfoldable pub canonical_digits : Text → Option ℕ
unfolding is_digit all_digits to_int
canonical_digits [] = none
canonical_digits (c ∷ []) = if is_digit c && not (c == b'0') then some (to_int 0 (c ∷ [])) else none
canonical_digits (c ∷ d ∷ cs) =
    if is_digit c && (not (c == b'0') && all_digits (d ∷ cs))
    then some (to_int 0 (c ∷ d ∷ cs))
    else none

unfoldable pub canonical_integer : Text → Option ℤ
unfolding canonical_digits
canonical_integer [] = none
canonical_integer (c ∷ cs) =
    if c == b'-'
    then elim (canonical_digits cs) [ none ↦ none | some n ↦ some (negsuc (n - 1)) ]
    else if text_eq (c ∷ cs) (codes "0")
    then some (pos 0)
    else elim (canonical_digits (c ∷ cs)) [ none ↦ none | some n ↦ some (pos n) ]

-- `a <= b` of texts.
unfoldable pub text_le : Text → Text → Bool
unfolding text_lt
text_le a b = not (text_lt b a)

-- The bounds of one filter are both integers or both texts.
unfoldable pub above_ℤ : Option Bound → ℤ → Bool
unfolding leb_ℤ
above_ℤ none n = true
above_ℤ (some (number low)) n = leb_ℤ low n
above_ℤ (some (text low)) n = false

unfoldable pub below_ℤ : Option Bound → ℤ → Bool
unfolding leb_ℤ
below_ℤ none n = true
below_ℤ (some (number high)) n = leb_ℤ n high
below_ℤ (some (text high)) n = false

unfoldable pub above_text : Option Bound → Text → Bool
unfolding text_le str_ℤ
above_text none value = true
above_text (some (text low)) value = text_le low value
above_text (some (number low)) value = text_le (str_ℤ low) value

unfoldable pub below_text : Option Bound → Text → Bool
unfolding text_le str_ℤ
below_text none value = true
below_text (some (text high)) value = text_le (take (length high) value) high
below_text (some (number high)) value = text_le (take (length (str_ℤ high)) value) (str_ℤ high)

unfoldable pub is_number : Option Bound → Option Bound → Bool
is_number none none = false
is_number none (some (number n)) = true
is_number none (some (text t)) = false
is_number (some (number n)) high = true
is_number (some (text t)) high = false

unfoldable pub tag_in_range : Text → Option Bound → Option Bound → Bool
unfolding canonical_integer above_ℤ below_ℤ above_text below_text is_number
tag_in_range value low high =
    if is_number low high
    then elim (canonical_integer value) [ none ↦ false | some n ↦ above_ℤ low n && below_ℤ high n ]
    else above_text low value && below_text high value

-- What `RangeFilter` refuses: bounds that are missing, empty, past 64 bits, or of two types, and a
-- range that no tag can lie in.
unfoldable pub fits_int64 : ℤ → Bool
fits_int64 (pos n) = ltb n 0x8000000000000000
fits_int64 (negsuc n) = ltb n 0x8000000000000000

unfoldable pub valid_bound : Bound → Bool
unfolding fits_int64
valid_bound (number n) = fits_int64 n
valid_bound (text []) = false
valid_bound (text (c ∷ cs)) = true

unfoldable pub str_bound : Bound → Text
unfolding str_ℤ
str_bound (number n) = str_ℤ n
str_bound (text t) = t

unfoldable pub same_type : Bound → Bound → Bool
same_type (number m) (number n) = true
same_type (number m) (text t) = false
same_type (text s) (number n) = false
same_type (text s) (text t) = true

unfoldable pub valid_range : Option Bound → Option Bound → Bool
unfolding valid_bound str_bound same_type tag_in_range
valid_range none none = false
valid_range none (some high) = valid_bound high
valid_range (some low) none = valid_bound low
valid_range (some low) (some high) =
    valid_bound low
    && (valid_bound high
        && (same_type low high && tag_in_range (str_bound low) (some low) (some high)))

unfoldable pub valid_filter : SearchFilter → Bool
unfolding valid_range
valid_filter (metadata_filter key [] negated) = false
valid_filter (metadata_filter key (v ∷ values) negated) = true
valid_filter (range_filter key low high negated) = valid_range low high

-- `validate_facet_keys` and `validate_filters`: whether they return.
unfoldable pub keys_allowed : List Text → List Text → Bool
unfolding mem
keys_allowed [] allowed_keys = true
keys_allowed (key ∷ keys) allowed_keys = mem key allowed_keys && keys_allowed keys allowed_keys

unfoldable pub key_allowed : Text → Option (List Text) → Bool
unfolding keys_allowed
key_allowed key none = true
key_allowed key (some allowed_keys) = keys_allowed (key ∷ []) allowed_keys

unfoldable pub validate_from : List Text → List SearchFilter → Option (List Text) → Bool
unfolding key_allowed mem
validate_from seen [] allowed_keys = true
validate_from seen (f ∷ filters) allowed_keys =
    key_allowed (key_of f) allowed_keys
    && (not (mem (key_of f) seen) && validate_from (key_of f ∷ seen) filters allowed_keys)

unfoldable pub validate_filters : List SearchFilter → Option (List Text) → Bool
unfolding validate_from
validate_filters filters allowed_keys = validate_from [] filters allowed_keys

-- A value of the metadata: what `_is_tag` tells apart.
pub data Item : Type 0 where
  string : Text → Item
  integer : ℤ → Item
  other : Item

pub data Value : Type 0 where
  one : Item → Value
  many : List Item → Value

abbrev pub Metadata : Type 0
Metadata = List (Text × Value)

-- `metadata.get(key)`; a missing value is `None`.
unfoldable pub value_of : Text → Metadata → Value
value_of key [] = one other
value_of key ((k, v) ∷ metadata) = if text_eq k key then v else value_of key metadata

-- The tag of one item.
unfoldable pub tag_of : Item → List Text
unfolding str_ℤ
tag_of (string []) = []
tag_of (string (c ∷ cs)) = (c ∷ cs) ∷ []
tag_of (integer n) = str_ℤ n ∷ []
tag_of other = []

unfoldable pub tags_of : List Item → List Text
unfolding tag_of
tags_of [] = []
tags_of (item ∷ items) = tag_of item ++ tags_of items

-- `_tag_values`, with repetitions.
unfoldable pub tag_values : Value → List Text
unfolding tags_of
tag_values (one item) = tags_of (item ∷ [])
tag_values (many items) = tags_of items

unfoldable pub any_in_range : List Text → Option Bound → Option Bound → Bool
unfolding tag_in_range
any_in_range [] low high = false
any_in_range (t ∷ tags) low high = tag_in_range t low high || any_in_range tags low high

-- `not values.isdisjoint(tags)`.
unfoldable pub meets : List Text → List Text → Bool
unfolding mem
meets values [] = false
meets values (t ∷ tags) = mem t values || meets values tags

unfoldable pub tagged : List Text → SearchFilter → Bool
unfolding any_in_range meets
tagged tags (metadata_filter key values negated) = meets values tags
tagged tags (range_filter key low high negated) = any_in_range tags low high

unfoldable pub same_truth : Bool → Bool → Bool
same_truth true b = b
same_truth false b = not b

unfoldable pub matches_filters : Metadata → List SearchFilter → Bool
unfolding tagged value_of tag_values same_truth
matches_filters metadata [] = true
matches_filters metadata (f ∷ filters) =
    let rest = matches_filters metadata filters in
    if same_truth (tagged (tag_values (value_of (key_of f) metadata)) f) (is_negated f)
    then false
    else rest

-- `tag_rows`: the values of each key are sorted and never repeat.
unfoldable pub rows_of : Text → List Text → List (Text × Text)
rows_of key [] = []
rows_of key (v ∷ values) = (key, v) ∷ rows_of key values

unfoldable pub rows_under : Metadata → List Text → List (Text × Text)
unfolding rows_of value_of tag_values sort_ids
rows_under metadata [] = []
rows_under metadata (key ∷ keys) =
    rows_of key (sort_ids (tag_values (value_of key metadata))) ++ rows_under metadata keys

unfoldable pub tag_rows : Metadata → List Text → List (Text × Text)
unfolding rows_under sort_ids
tag_rows metadata facet_keys = rows_under metadata (sort_ids facet_keys)
