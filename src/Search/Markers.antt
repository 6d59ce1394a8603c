-- ===== src/Search/Markers.antt =====
-- `sanitize_text` and `split_markers` of search/filters.py.
pub mod Split
pub mod Marked
mod Tests
use sci_etl_core.Prelude.{
  ℕ, ◌+◌, Text, Bool, true, false, ◌&&◌, ◌||◌, List, [], ◌∷◌, ◌++◌, Option, none, some, ltb, leb,
  ◌==◌, length, if◌then◌else◌,
}

-- `_UNSTORABLE.sub(" ", text)`.
unfoldable pub is_unstorable : ℕ → Bool
is_unstorable c =
    leb c 0x8 || c == 0xb || c == 0xc || leb 0xe c && leb c 0x1f || leb 0xd800 c && leb c 0xdfff

unfoldable pub sanitize_text : Text → Text
unfolding is_unstorable
sanitize_text [] = []
sanitize_text (c ∷ cs) = (if is_unstorable c then b' ' else c) ∷ sanitize_text cs

abbrev pub snippet_open : ℕ
snippet_open = 0x2

abbrev pub snippet_close : ℕ
snippet_close = 0x3

-- The state of the loop of `split_markers`; `plain` has its length beside it.
pub record Splitter : Type 0 where
  pub plain : Text
  pub spans : List (ℕ × ℕ)
  pub opened : Option ℕ

-- `spans.append((opened, len(plain)))`, if the span is open and not empty.
unfoldable pub close_span : Option ℕ → ℕ → List (ℕ × ℕ) → List (ℕ × ℕ)
close_span none here spans = spans
close_span (some start) here spans = if ltb start here then spans ++ (start, here) ∷ [] else spans

unfoldable pub open_span : Option ℕ → ℕ → Option ℕ
open_span none here = some here
open_span (some start) here = some start

unfoldable pub split_step : ℕ → Splitter → Splitter
unfolding close_span open_span
split_step c s =
    if c == snippet_open
    then record s { opened = open_span s.opened (length s.plain) }
    else if c == snippet_close
    then record s { spans = close_span s.opened (length s.plain) s.spans; opened = none }
    else record s { plain = s.plain ++ c ∷ [] }

unfoldable pub split_loop : Text → Splitter → Splitter
unfolding split_step
split_loop [] s = s
split_loop (c ∷ raw) s = split_loop raw (split_step c s)

unfoldable pub split_end : Splitter → Text × List (ℕ × ℕ)
unfolding close_span
split_end s = (s.plain, close_span s.opened (length s.plain) s.spans)

unfoldable pub split_markers : Text → Text × List (ℕ × ℕ)
unfolding split_loop split_end
split_markers raw = split_end (split_loop raw (record { plain = []; spans = []; opened = none }))
