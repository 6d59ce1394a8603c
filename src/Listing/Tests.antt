-- ===== src/Listing/Tests.antt =====
-- Runs of the listing positions, and the theorems at concrete listings.
use sci_etl_core.Prelude.{
  ℕ, Text, codes, Bool, true, false, List, [], ◌∷◌, Option, none, some, ◌≡◌, refl, text_eq, ◌==◌,
  if◌then◌else◌,
}
use sci_etl_core.Models.{ListingPage, empty_metadata}
use sci_etl_core.Listing.Offsets.{decimal_cursor, offset_from_cursor}
use sci_etl_core.Listing.Offsets.RoundTrip.{offset_from_cursor-decimal_cursor}
use sci_etl_core.Listing.Position.{CursorPosition, listing_ends}
use sci_etl_core.Listing.Position.Settled.{advance_all, settled_cursor, advance_all_settled}
use sci_etl_core.Listing.Head.{Head, newest_first_cursor, locate, rescan}
use sci_etl_core.Listing.Head.Rescan.{Seen, observe_all, settled_end, total, rescan_saves_settled}

cursor_of_407 : decimal_cursor 407 ≡ codes "407"
unfolding decimal_cursor
cursor_of_407 = refl

stale_cursor : offset_from_cursor (some (codes "4x")) ≡ none
unfolding offset_from_cursor
stale_cursor = refl

offset_from_cursor-decimal_cursor_example :
    offset_from_cursor (some (decimal_cursor 407)) ≡ some 407
offset_from_cursor-decimal_cursor_example = offset_from_cursor-decimal_cursor 407

-- Three pages, of which the second did not settle.
abbrev page_to : Text → ListingPage
page_to next = record { records = []; entries = 10; next_cursor = some next; truncated = false }

abbrev three_pages : List (ListingPage × Bool)
three_pages =
    (page_to (codes "10"), true) ∷ (page_to (codes "20"), false) ∷ (page_to (codes "30"), true) ∷ []

abbrev fresh : CursorPosition
fresh = record { metadata = empty_metadata; offsets = none; settled = true; cursor = none }

advance_all_settled_example :
    (advance_all fresh three_pages).metadata.cursor ≡ settled_cursor none three_pages
unfolding listing_ends
advance_all_settled_example = advance_all_settled fresh three_pages refl (refl, (refl, (refl, tt)))

settled_cursor_run : settled_cursor none three_pages ≡ some (codes "10")
unfolding settled_cursor
settled_cursor_run = refl

-- Two new entries stand above the three that the last run saw at the head.
abbrev now : List Text
now = codes "n" ∷ codes "m" ∷ codes "a" ∷ codes "b" ∷ codes "c" ∷ []

shift_found : locate 0 (codes "a" ∷ codes "b" ∷ []) 0 now ≡ some (record { found = 2; saved = 0 })
unfolding locate text_eq
shift_found = refl

-- A listing of one-letter ids: position n holds the id of code point n.
abbrev letters : ℕ → Option Text
letters n = some (n ∷ [])

abbrev seen : Bool → Text → Seen
seen complete id = record { ids = id ∷ []; entries = 1; complete = complete }

abbrev first_run : Head
first_run = record {
  metadata = empty_metadata;
  page_size = 1;
  saved_ids = [];
  saved_offset = 0;
  saved_backlog = 0;
  saved_tail = [];
  mode = rescan;
  unsettled_head = none;
  fresh_ids = [];
  scan_settled = true;
  scan_offset = 0;
  scan_tail = [];
  backlog_settled = true;
  head_end = 0;
  head_end_tail = [];
  shift = none;
  realigned = false;
}

first_run_starts : newest_first_cursor empty_metadata 1 ≡ first_run
unfolding newest_first_cursor
first_run_starts = refl

-- The second of three pages did not settle, so offset 1 is saved.
rescan_saves_settled_example :
    let ps = seen false (codes "b") ∷ seen true (codes "c") ∷ [] in
    let p = seen true (codes "a") in
    let end = settled_end (0, []) 0 (p ∷ ps) in
    let (h', next) = observe_all decimal_cursor 0 (p ∷ ps) first_run in
    (h'.metadata.cursor ≡ (if end.0 == 0 then none else some (decimal_cursor end.0)))
    × (h'.metadata.tail_ids ≡ end.1)
    × (next ≡ total 0 (p ∷ ps))
rescan_saves_settled_example =
    rescan_saves_settled decimal_cursor (seen true (codes "a"))
      (seen false (codes "b") ∷ seen true (codes "c") ∷ []) first_run refl refl refl refl
