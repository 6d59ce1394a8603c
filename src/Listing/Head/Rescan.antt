-- ===== src/Listing/Head/Rescan.antt =====
-- A rescan saves the end of the longest run of settled pages at the listing's front.
use sci_etl_core.Prelude.{
  ℕ, ◌+◌, Text, Bool, true, false, ◌&&◌, List, [], ◌∷◌, Option, none, some, ◌==◌, if◌then◌else◌,
  ◌≡◌, refl, ap, arith, Bool-cases, inl, inr,
}
use sci_etl_core.Listing.Head.{Head, rescan, tail_of, adopt_scan, observe_page}

-- A page as the scan sees it: its ids, its entries, and whether all of it settled.
pub record Seen : Type 0 where
  pub ids : List Text
  pub entries : ℕ
  pub complete : Bool

module _ (cursor_for_offset : ℕ → Text) where
  -- Pages from `start` on, each fetched at the offset that the one before returned.
  unfoldable pub observe_all : ℕ → List Seen → Head → Head × ℕ
  observe_all start [] h = (h, start)
  observe_all start (p ∷ ps) h =
      let (h', next) = observe_page cursor_for_offset start p.ids p.entries p.complete h in
      observe_all next ps h'

-- The offset after the last page of the longest complete run, and the ids at its end.
unfoldable pub settled_end : ℕ × List Text → ℕ → List Seen → ℕ × List Text
settled_end mark start [] = mark
settled_end mark start (p ∷ ps) =
    let further = settled_end (start + p.entries, tail_of p.ids) (start + p.entries) ps in
    if p.complete then further else mark

unfoldable pub total : ℕ → List Seen → ℕ
total start [] = start
total start (p ∷ ps) = total (start + p.entries) ps

abbrev saved_cursor : (ℕ → Text) → ℕ → Option Text
saved_cursor cursor_for_offset n = if n == 0 then none else some (cursor_for_offset n)

module _ (cursor_for_offset : ℕ → Text) where
  -- What a rescan keeps true between pages.
  record IsScan (h : Head) (mark : ℕ × List Text) (settled : Bool) : Type 0 where
    rescans : h.mode ≡ rescan
    flag : h.scan_settled ≡ settled
    offset : h.scan_offset ≡ mark.0
    tail : h.scan_tail ≡ mark.1
    cursor : h.metadata.cursor ≡ saved_cursor cursor_for_offset mark.0
    tail_ids : h.metadata.tail_ids ≡ mark.1

  observe_page-IsScan :
      (h : Head) (start : ℕ) (p : Seen) (mark : ℕ × List Text) (settled : Bool)
      → h.mode ≡ rescan
      → h.scan_settled ≡ settled
      → h.scan_offset ≡ mark.0
      → h.scan_tail ≡ mark.1
      → IsScan
          (observe_page cursor_for_offset start p.ids p.entries p.complete h).0
          (if settled && p.complete then (start + p.entries, tail_of p.ids) else mark)
          (settled && p.complete)
  unfolding observe_page adopt_scan
  observe_page-IsScan h start p mark settled a b c d = ground arith

  observe_page-next :
      (h : Head) (start : ℕ) (p : Seen)
      → h.mode ≡ rescan
      → (observe_page cursor_for_offset start p.ids p.entries p.complete h).1 ≡ start + p.entries
  unfolding observe_page
  observe_page-next h start p a = ground arith

  observe_all-cons :
      (h : Head) (start : ℕ) (p : Seen) (ps : List Seen)
      → h.mode ≡ rescan
      → observe_all cursor_for_offset start (p ∷ ps) h
        ≡ observe_all cursor_for_offset
            (start + p.entries)
            ps
            (observe_page cursor_for_offset start p.ids p.entries p.complete h).0
  unfolding observe_all
  observe_all-cons h start p ps a =
      ap
        (λ n.
          observe_all cursor_for_offset n ps
            (observe_page cursor_for_offset start p.ids p.entries p.complete h).0)
        (observe_page-next h start p a)

  observe_all-IsScan :
      (start : ℕ) (ps : List Seen) (h : Head) (mark : ℕ × List Text) (settled : Bool)
      → IsScan h mark settled
      → let end = if settled then settled_end mark start ps else mark in
        let (h', next) = observe_all cursor_for_offset start ps h in
        (h'.metadata.cursor ≡ saved_cursor cursor_for_offset end.0)
        × (h'.metadata.tail_ids ≡ end.1)
        × (next ≡ total start ps)
  unfolding settled_end total
  observe_all-IsScan start [] h mark true s = unfold observe_all in (s.cursor, s.tail_ids, refl)
  observe_all-IsScan start [] h mark false s = unfold observe_all in (s.cursor, s.tail_ids, refl)
  observe_all-IsScan start (p ∷ ps) h mark false s = rw (observe_all-cons h start p ps s.rescans) (
      observe_all-IsScan (start + p.entries) ps _ mark false
        (observe_page-IsScan h start p mark false s.rescans s.flag s.offset s.tail))
  observe_all-IsScan start (p ∷ ps) h mark true s =
      let ih =
        observe_all-IsScan (start + p.entries) ps _ _ (true && p.complete)
          (observe_page-IsScan h start p mark true s.rescans s.flag s.offset s.tail) in
      rw (observe_all-cons h start p ps s.rescans)
        (elim (Bool-cases p.complete) [ inl e ↦ rw e (rw e at ih) | inr e ↦ rw e (rw e at ih) ])

  -- A rescan that begins at the first page asks for its pages one after another, and saves the
  -- offset behind the longest run of complete pages at the front (no cursor for offset 0) with the
  -- last ids before it, whatever follows the first page that is not complete.
  pub rescan_saves_settled :
      (p : Seen) (ps : List Seen) (h : Head)
      → h.mode ≡ rescan
      → h.scan_settled ≡ true
      → h.scan_offset ≡ 0
      → h.scan_tail ≡ []
      → let end = settled_end (0, []) 0 (p ∷ ps) in
        let (h', next) = observe_all cursor_for_offset 0 (p ∷ ps) h in
        (h'.metadata.cursor ≡ (if end.0 == 0 then none else some (cursor_for_offset end.0)))
        × (h'.metadata.tail_ids ≡ end.1)
        × (next ≡ total 0 (p ∷ ps))
  unfolding settled_end total
  rescan_saves_settled p ps h a b c d =
      let ih =
        observe_all-IsScan (0 + p.entries) ps _ _ (true && p.complete)
          (observe_page-IsScan h 0 p (0, []) true a b c d) in
      rw (observe_all-cons h 0 p ps a)
        (elim (Bool-cases p.complete) [ inl e ↦ rw e (rw e at ih) | inr e ↦ rw e (rw e at ih) ])
