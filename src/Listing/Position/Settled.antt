-- ===== src/Listing/Position/Settled.antt =====
-- The saved cursor of a `CursorPosition` stands behind settled pages only.
use sci_etl_core.Prelude.{
  Text, Bool, true, false, ◌&&◌, List, [], ◌∷◌, Option, ◌≡◌, refl, arith, if◌then◌else◌,
}
use sci_etl_core.Models.{ListingPage}
use sci_etl_core.Listing.Position.{CursorPosition, listing_ends, advance}

-- Pages accounted for one after another, each with its `complete`; the listing goes on after each.
unfoldable pub advance_all : CursorPosition → List (ListingPage × Bool) → CursorPosition
advance_all p [] = p
advance_all p ((page, complete) ∷ rest) = advance_all (advance p page complete).0 rest

abbrev pub GoesOn : List (ListingPage × Bool) → Type 0
GoesOn [] = Unit
GoesOn ((page, complete) ∷ rest) = (listing_ends page ≡ false) × GoesOn rest

-- The cursor after the last page of the longest run of complete pages at the front.
unfoldable pub settled_cursor : Option Text → List (ListingPage × Bool) → Option Text
settled_cursor c [] = c
settled_cursor c ((page, complete) ∷ rest) =
    let further = settled_cursor page.next_cursor rest in if complete then further else c

-- The position after a page behind which the listing goes on.
abbrev advanced : CursorPosition → ListingPage → Bool → CursorPosition
advanced p page settled = record p {
  settled = settled;
  cursor = page.next_cursor;
  metadata = record p.metadata { cursor = if settled then page.next_cursor else p.metadata.cursor };
}

advance_goes_on :
    (p : CursorPosition) (page : ListingPage) (complete b : Bool)
    → listing_ends page ≡ false
    → (p.settled && complete) ≡ b
    → advance p page complete ≡ (advanced p page b, true)
unfolding advance
advance_goes_on p page complete b h e = rw (h, e)

-- Whatever follows an incomplete page, the saved cursor stays.
advance_all_unsettled :
    (p : CursorPosition) (pages : List (ListingPage × Bool))
    → p.settled ≡ false
    → GoesOn pages
    → (advance_all p pages).metadata.cursor ≡ p.metadata.cursor
unfolding advance_all
advance_all_unsettled p [] h g = refl
advance_all_unsettled p ((page, complete) ∷ rest) h g =
    rw (advance_goes_on p page complete false g.0 (ground arith), advance_all)
      (advance_all_unsettled (advanced p page false) rest refl g.1)

-- Over pages behind each of which the listing goes on, the saved cursor ends as the next cursor of
-- the last page in the longest run of complete pages at the front, or stays if the first page is
-- not complete.
pub advance_all_settled :
    (p : CursorPosition) (pages : List (ListingPage × Bool))
    → p.settled ≡ true
    → GoesOn pages
    → (advance_all p pages).metadata.cursor ≡ settled_cursor p.metadata.cursor pages
unfolding advance_all settled_cursor
advance_all_settled p [] h g = refl
advance_all_settled p ((page, true) ∷ rest) h g =
    rw (advance_goes_on p page true true g.0 (ground arith), advance_all)
      (advance_all_settled (advanced p page true) rest refl g.1)
advance_all_settled p ((page, false) ∷ rest) h g =
    rw (advance_goes_on p page false false g.0 (ground arith), advance_all)
      (advance_all_unsettled (advanced p page false) rest refl g.1)
