-- ===== src/Listing/Position.antt =====
-- `CursorPosition` of _listing_position.py. The metadata that the run shares with it is the
-- field `metadata`; `offsets` is the extractor's `cursor_for_offset`, `none` where it has none.
pub mod Settled
use sci_etl_core.Prelude.{
  ℕ, ◌+◌, Text, Bool, true, false, ◌&&◌, ◌||◌, Option, none, some, ◌==◌, if◌then◌else◌,
}
use sci_etl_core.Models.{ListingPage, PipelineMetadata}
use sci_etl_core.Listing.Offsets.{is_decimal, to_int}

unfoldable pub is_none {ℓ} : {A : Type ℓ} → Option A → Bool
is_none none = true
is_none (some a) = false

unfoldable pub listing_ends : ListingPage → Bool
unfolding is_none
listing_ends page = page.truncated || is_none page.next_cursor || page.entries == 0

-- `_offset_of`.
unfoldable pub offset_of : Option Text → Option ℕ
unfolding is_decimal to_int
offset_of none = some 0
offset_of (some cursor) = if is_decimal cursor then some (to_int 0 cursor) else none

pub record CursorPosition : Type 0 where
  pub metadata : PipelineMetadata
  pub offsets : Option (ℕ → Text)
  pub settled : Bool
  pub cursor : Option Text

-- `__init__`.
unfoldable pub cursor_position : PipelineMetadata → Option Text → Option (ℕ → Text) → CursorPosition
cursor_position metadata cursor offsets = record {
  metadata = metadata;
  offsets = offsets;
  settled = true;
  cursor = cursor;
}

-- The property `offset`.
unfoldable pub offset : CursorPosition → Option ℕ
unfolding offset_of
offset p = elim p.offsets [ none ↦ none | some cursor_for_offset ↦ offset_of p.cursor ]

unfoldable pub end_cursor_at : Option (ℕ → Text) → Option ℕ → ℕ → Option Text
end_cursor_at (some cursor_for_offset) (some offset) entries =
    if (offset + entries) == 0 then none else some (cursor_for_offset (offset + entries))
end_cursor_at _ _ entries = none

-- `_end_cursor`.
unfoldable pub end_cursor : CursorPosition → ListingPage → Option Text
unfolding offset end_cursor_at
end_cursor p page = end_cursor_at p.offsets (offset p) page.entries

unfoldable pub advance : CursorPosition → ListingPage → Bool → CursorPosition × Bool
unfolding end_cursor
advance p page complete =
    let settled = p.settled && complete in
    if listing_ends page
    then (
      record p {
        settled = settled;
        metadata = record p.metadata {
          cursor = if settled then end_cursor p page else p.metadata.cursor;
          truncated = false;
        };
      },
      false,
    )
    else (
      record p {
        settled = settled;
        cursor = page.next_cursor;
        metadata = record p.metadata {
          cursor = if settled then page.next_cursor else p.metadata.cursor;
        };
      },
      true,
    )

unfoldable pub truncate : CursorPosition → CursorPosition
truncate p = record p { metadata = record p.metadata { cursor = none; truncated = true } }

unfoldable pub restart : CursorPosition → CursorPosition
restart p = record p {
  settled = true;
  cursor = none;
  metadata = record p.metadata { cursor = none };
}
