-- ===== src/Search/Filters/Tests.antt =====
-- Filters over one record's metadata.
use sci_etl_core.Prelude.{◌≡◌, refl, codes, text_eq, mem, true, false, ◌&&◌, [], ◌∷◌, none, some}
use sci_etl_core.Search.Filters.{
  pos, negsuc, number, SearchFilter, metadata_filter, range_filter, Metadata, string, integer,
  other, one, many, value_of, tag_values, tag_rows, matches_filters, tag_in_range, validate_filters,
  valid_filter,
}
use sci_etl_core.Search.Filters.Tags.{
  has_row, tag_rows_iff, all_allowed, distinct_keys, validate_filters_iff,
}

abbrev metadata : Metadata
metadata =
    (codes "year", one (integer (pos 2024)))
    ∷ (codes "tag", many (string (codes "dwarf") ∷ other ∷ string [] ∷ []))
    ∷ []

abbrev year : SearchFilter
year = range_filter (codes "year") (some (number (pos 2020))) none false

abbrev not_dwarf : SearchFilter
not_dwarf = metadata_filter (codes "tag") (codes "dwarf" ∷ []) true

passes_year : matches_filters metadata (year ∷ []) ≡ true
unfolding matches_filters text_eq
passes_year = refl

fails_dwarf : matches_filters metadata (year ∷ not_dwarf ∷ []) ≡ false
unfolding matches_filters text_eq mem
fails_dwarf = refl

leading_zero : tag_in_range (codes "07") (some (number (pos 1))) none ≡ false
unfolding tag_in_range text_eq
leading_zero = refl

empty_range :
    valid_filter
      (range_filter (codes "year") (some (number (pos 3))) (some (number (negsuc 0))) false)
    ≡ false
unfolding valid_filter text_eq
empty_range = refl

tag_rows_iff_example :
    has_row (codes "year") (codes "2024") (tag_rows metadata (codes "year" ∷ [])) ≡ (
      mem (codes "year") (codes "year" ∷ [])
      && mem (codes "2024") (tag_values (value_of (codes "year") metadata)))
tag_rows_iff_example = tag_rows_iff (codes "year") (codes "2024") metadata (codes "year" ∷ [])

validate_filters_iff_example : validate_filters (year ∷ not_dwarf ∷ year ∷ []) none ≡ (
    all_allowed none (year ∷ not_dwarf ∷ year ∷ []) && distinct_keys (year ∷ not_dwarf ∷ year ∷ []))
validate_filters_iff_example = validate_filters_iff (year ∷ not_dwarf ∷ year ∷ []) none
