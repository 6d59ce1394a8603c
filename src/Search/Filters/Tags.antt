-- ===== src/Search/Filters/Tags.antt =====
-- The rows of tags against the tags that filters read, and which filters are refused.
use sci_etl_core.Prelude.{
  Text, Bool, true, false, not, ◌&&◌, ◌||◌, List, [], ◌∷◌, ◌++◌, Option, none, some, mem, text_eq,
  text_eq_iff, ◌≡◌, refl, sym, ap, ◌∙◌, arith, take, length,
}
use sci_etl_core.Search.Graph.Edges.{text_lt}
use sci_etl_core.Search.Graph.Communities.{insert_id, sort_ids}
use sci_etl_core.Search.Filters.{
  Metadata, SearchFilter, text, text_le, tag_in_range, value_of, tag_values, rows_of, rows_under,
  tag_rows, key_of, key_allowed, validate_from, validate_filters,
}

mem-insert_id : (x y : Text) (ys : List Text) → mem x (insert_id y ys) ≡ (text_eq x y || mem x ys)
unfolding mem insert_id
mem-insert_id x y [] = refl
mem-insert_id x y (z ∷ zs) =
    ground (arith, mem-insert_id x y zs, text_eq_iff y z, text_eq_iff x y, text_eq_iff x z)

mem-sort_ids : (x : Text) (xs : List Text) → mem x (sort_ids xs) ≡ mem x xs
unfolding mem sort_ids
mem-sort_ids x [] = refl
mem-sort_ids x (y ∷ ys) =
    mem-insert_id x y (sort_ids ys) ∙ ap (◌||◌ (text_eq x y)) (mem-sort_ids x ys)

-- `(key, value)` is one of the rows.
unfoldable pub has_row : Text → Text → List (Text × Text) → Bool
has_row key value [] = false
has_row key value ((k, v) ∷ rows) = text_eq key k && text_eq value v || has_row key value rows

has_row-append :
    (key value : Text) (rows more : List (Text × Text))
    → has_row key value (rows ++ more) ≡ (has_row key value rows || has_row key value more)
unfolding has_row
has_row-append key value [] more = refl
has_row-append key value ((k, v) ∷ rows) more = ground (arith, has_row-append key value rows more)

has_row-rows_of :
    (key value k : Text) (values : List Text)
    → has_row key value (rows_of k values) ≡ (text_eq key k && mem value values)
unfolding has_row rows_of mem
has_row-rows_of key value k [] = ground arith
has_row-rows_of key value k (v ∷ values) = ground (arith, has_row-rows_of key value k values)

-- The values of a key are those of any equal key.
same_values :
    (value key k : Text) (metadata : Metadata)
    → text_eq key k ≡ true
    → mem value (tag_values (value_of k metadata)) ≡ mem value (tag_values (value_of key metadata))
same_values value key k metadata e =
    ap (λ (t : Text). mem value (tag_values (value_of t metadata))) (sym ((text_eq_iff key k).0 e))

has_row-rows_under :
    (key value : Text) (metadata : Metadata) (keys : List Text)
    → has_row key value (rows_under metadata keys)
      ≡ (mem key keys && mem value (tag_values (value_of key metadata)))
unfolding rows_under mem
has_row-rows_under key value metadata [] = unfold has_row in refl
has_row-rows_under key value metadata (k ∷ keys) =
    let values = tag_values (value_of k metadata) in
    ground (
      arith,
      has_row-append key value (rows_of k (sort_ids values)) (rows_under metadata keys),
      has_row-rows_of key value k (sort_ids values),
      mem-sort_ids value values,
      same_values value key k metadata,
      has_row-rows_under key value metadata keys,
    )

-- The rows that a store keeps of a record hold a key and a value exactly when the key is a facet key
-- and the value is one of the tags that filters read under it.
pub tag_rows_iff :
    (key value : Text) (metadata : Metadata) (facet_keys : List Text)
    → has_row key value (tag_rows metadata facet_keys)
      ≡ (mem key facet_keys && mem value (tag_values (value_of key metadata)))
unfolding tag_rows
tag_rows_iff key value metadata facet_keys =
    has_row-rows_under key value metadata (sort_ids facet_keys)
    ∙ ap (λ (b : Bool). b && mem value (tag_values (value_of key metadata)))
        (mem-sort_ids key facet_keys)

text_lt_irrefl : (t : Text) → text_lt t t ≡ false
unfolding text_lt
text_lt_irrefl [] = refl
text_lt_irrefl (c ∷ cs) = ground (arith, text_lt_irrefl cs)

take-append : (s t : Text) → take (length s) (s ++ t) ≡ s
take-append [] t = refl
take-append (c ∷ s) t = ap (◌∷◌ c) (take-append s t)

-- A text that `high` is a prefix of lies in the range up to `high`.
pub tag_in_range-prefix : (high t : Text) → tag_in_range (high ++ t) none (some (text high)) ≡ true
unfolding tag_in_range text_le
tag_in_range-prefix high t =
    ap (λ (s : Text). not (text_lt high s)) (take-append high t) ∙ ap not (text_lt_irrefl high)

-- No two filters on one key, and every key allowed.
unfoldable pub has_key : Text → List SearchFilter → Bool
has_key key [] = false
has_key key (f ∷ filters) = text_eq key (key_of f) || has_key key filters

unfoldable pub distinct_keys : List SearchFilter → Bool
unfolding has_key
distinct_keys [] = true
distinct_keys (f ∷ filters) = not (has_key (key_of f) filters) && distinct_keys filters

unfoldable pub all_allowed : Option (List Text) → List SearchFilter → Bool
unfolding key_allowed
all_allowed allowed_keys [] = true
all_allowed allowed_keys (f ∷ filters) =
    key_allowed (key_of f) allowed_keys && all_allowed allowed_keys filters

-- None of the filters has a key that was seen.
unseen_keys : List Text → List SearchFilter → Bool
unfolding mem
unseen_keys seen [] = true
unseen_keys seen (f ∷ filters) = not (mem (key_of f) seen) && unseen_keys seen filters

unseen_keys-cons :
    (key : Text) (seen : List Text) (filters : List SearchFilter)
    → unseen_keys (key ∷ seen) filters ≡ (not (has_key key filters) && unseen_keys seen filters)
unfolding unseen_keys has_key mem
unseen_keys-cons key seen [] = refl
unseen_keys-cons key seen (f ∷ filters) = ground (
  arith,
  unseen_keys-cons key seen filters,
  text_eq_iff key (key_of f),
  text_eq_iff (key_of f) key,
)

unseen_keys-nil : (filters : List SearchFilter) → unseen_keys [] filters ≡ true
unfolding unseen_keys mem
unseen_keys-nil [] = refl
unseen_keys-nil (f ∷ filters) = unseen_keys-nil filters

validate_from-seen :
    (seen : List Text) (filters : List SearchFilter) (allowed_keys : Option (List Text))
    → validate_from seen filters allowed_keys
      ≡ (all_allowed allowed_keys filters && (distinct_keys filters && unseen_keys seen filters))
unfolding validate_from all_allowed distinct_keys unseen_keys
validate_from-seen seen [] allowed_keys = refl
validate_from-seen seen (f ∷ filters) allowed_keys = ground (
  arith,
  validate_from-seen (key_of f ∷ seen) filters allowed_keys,
  unseen_keys-cons (key_of f) seen filters,
)

-- Filters are accepted exactly when every key is allowed and no two filters share a key.
pub validate_filters_iff :
    (filters : List SearchFilter) (allowed_keys : Option (List Text))
    → validate_filters filters allowed_keys
      ≡ (all_allowed allowed_keys filters && distinct_keys filters)
unfolding validate_filters
validate_filters_iff filters allowed_keys =
    ground (arith, validate_from-seen [] filters allowed_keys, unseen_keys-nil filters)
