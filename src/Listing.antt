-- ===== src/Listing.antt =====
-- Where a run is in its listing: the decimal cursors of extractors/_offsets.py, the position of a
-- resumed run (_listing_position.py) and the head scan of a `newest_first` run (_listing_head.py).
pub mod Offsets
pub mod Position
pub mod Head
mod Tests
