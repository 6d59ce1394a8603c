-- ===== src/Search/Markers/Tests.antt =====
-- A snippet with two marked words.
use sci_etl_core.Prelude.{◌≡◌, refl, Text, codes, length, true, List, [], ◌∷◌}
use sci_etl_core.Search.Markers.{split_markers, sanitize_text}
use sci_etl_core.Search.Markers.Split.{in_order, without_markers, split_markers_lem}
use sci_etl_core.Search.Markers.Marked.{
  marked, unmarked, passages_at, all_unmarked, split_markers-marked,
}

-- A second opening marker, and a span that is never closed.
abbrev raw : Text
raw = 0x2 ∷ b'a' ∷ 0x2 ∷ b'b' ∷ 0x3 ∷ 0x3 ∷ b'c' ∷ 0x2 ∷ b'd' ∷ []

raw_split : split_markers raw ≡ (codes "abcd", (0, 2) ∷ (3, 4) ∷ [])
unfolding split_markers
raw_split = refl

split_markers_lem_example :
    ((split_markers raw).0 ≡ without_markers raw)
    × (in_order 0 (split_markers raw).1 (length (split_markers raw).0) ≡ true)
split_markers_lem_example = split_markers_lem raw

abbrev passages : List (Text × Text)
passages = (codes "a ", codes "dwarf") ∷ (codes " and ", codes "faint") ∷ []

split_markers-marked_example :
    split_markers (marked passages (sanitize_text (codes " one")))
    ≡ (unmarked passages (sanitize_text (codes " one")), passages_at 0 passages)
split_markers-marked_example =
    split_markers-marked passages (codes " one") (unfold all_unmarked in refl)
