-- ===== src/Listing/Head/Locate.antt =====
-- The shift that the head scan finds is the number of entries that arrived since.
use sci_etl_core.Prelude.{ℕ, zero, suc, Text, List, [], ◌∷◌, none, some, get_elem?, ◌≡◌, arith}
use sci_etl_core.Listing.Head.{saved_position, locate}

locate_nowhere :
    (saved_offset : ℕ) (saved_ids : List Text) (page_start : ℕ) (listed : List Text) (k : ℕ)
    → locate saved_offset saved_ids page_start listed ≡ none
    → (id : Text) → get_elem? listed k ≡ some id
    → saved_position saved_offset saved_ids id ≡ none
unfolding locate
locate_nowhere saved_offset saved_ids page_start [] k h id g = cc
locate_nowhere saved_offset saved_ids page_start (x ∷ xs) zero h id g = ground arith
locate_nowhere saved_offset saved_ids page_start (x ∷ xs) (suc k) h id g =
    locate_nowhere saved_offset saved_ids (suc page_start) xs k (ground arith) id g
