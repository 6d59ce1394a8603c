-- ===== src/Pipeline/Position.antt =====
-- The two positions that `_run_pages` pages by, and `_position`.
use sci_etl_core.Prelude.{ℕ, Text, Bool, true, false, Option, none, some, ◌==◌, if◌then◌else◌}
use sci_etl_core.Models.{ListingPage, PipelineMetadata}
use sci_etl_core.Listing.Position.{CursorPosition, cursor_position}
use sci_etl_core.Listing.Position as Resumed
use sci_etl_core.Listing.Head.Newest.{NewestFirstPosition, newest_first_position}
use sci_etl_core.Listing.Head.Newest as Newest

-- A newest-first position carries the extractor's `cursor_for_offset`.
pub data Position : Type 0 where
  resumed : CursorPosition → Position
  newest : (ℕ → Text) → NewestFirstPosition → Position

unfoldable pub start_cursor : (ℕ → Text) → ℕ → Option Text
start_cursor cursor_for_offset n = if n == 0 then none else some (cursor_for_offset n)

-- `offsets` is the extractor's `cursor_for_offset`, `none` where it is no `OffsetListing`.
unfoldable pub position_of : Option (ℕ → Text) → PipelineMetadata → ℕ → Option ℕ → Bool → Position
unfolding start_cursor
position_of (some cursor_for_offset) m page_size start_index true =
    newest cursor_for_offset (newest_first_position m page_size)
position_of offsets m page_size none newest_first = resumed (cursor_position m m.cursor offsets)
position_of none m page_size (some n) newest_first = resumed (cursor_position m none none)
position_of (some cursor_for_offset) m page_size (some n) false =
    resumed (cursor_position m (start_cursor cursor_for_offset n) (some cursor_for_offset))

unfoldable pub metadata_of : Position → PipelineMetadata
metadata_of (resumed p) = p.metadata
metadata_of (newest c p) = p.head.metadata

unfoldable pub cursor_of : Position → Option Text
cursor_of (resumed p) = p.cursor
cursor_of (newest c p) = Newest.cursor c p

unfoldable pub advance : Position → ListingPage → Bool → Position × Bool
advance (resumed p) page complete =
    let (p', more) = Resumed.advance p page complete in (resumed p', more)
advance (newest c p) page complete =
    let (p', more) = Newest.advance c p page complete in (newest c p', more)

unfoldable pub truncate : Position → Position
truncate (resumed p) = resumed (Resumed.truncate p)
truncate (newest c p) = newest c (Newest.truncate p)

unfoldable pub restart : Position → Position
restart (resumed p) = resumed (Resumed.restart p)
restart (newest c p) = newest c (Newest.restart p)
