-- ===== src/Listing/Head/Newest.antt =====
-- `NewestFirstPosition` of _listing_position.py.
use sci_etl_core.Prelude.{
  ℕ, ◌+◌, Text, Bool, true, false, List, [], ◌∷◌, Option, none, some, leb, ◌==◌, if◌then◌else◌,
}
use sci_etl_core.Models.{RawRecord, ListingPage, PipelineMetadata}
use sci_etl_core.Listing.Head.{Head, newest_first_cursor, observe_page, listing_ended, is_nil}

pub record NewestFirstPosition : Type 0 where
  pub head : Head
  pub offset : ℕ

-- `__init__`.
unfoldable pub newest_first_position : PipelineMetadata → ℕ → NewestFirstPosition
unfolding newest_first_cursor
newest_first_position metadata page_size = record {
  head = newest_first_cursor metadata page_size;
  offset = 0;
}

-- The ids of the records that have one.
unfoldable pub listed : List RawRecord → List Text
unfolding is_nil
listed [] = []
listed (r ∷ rs) = if is_nil r.record_id then listed rs else r.record_id ∷ listed rs

module _ (cursor_for_offset : ℕ → Text) where
  unfoldable pub cursor : NewestFirstPosition → Option Text
  cursor p = if p.offset == 0 then none else some (cursor_for_offset p.offset)

  abbrev stopped : Head → NewestFirstPosition → NewestFirstPosition
  stopped h p = record p { head = record h { metadata = record h.metadata { truncated = false } } }

  -- `_listing_ended`, given what the head answers.
  unfoldable pub resume_or_stop :
      ℕ → NewestFirstPosition → Head → Option ℕ → NewestFirstPosition × Bool
  resume_or_stop end p h none = (stopped h p, false)
  resume_or_stop end p h (some resume_at) =
      if leb end resume_at
      then (stopped h p, false)
      else (record { head = h; offset = resume_at }, true)

  unfoldable pub listing_ended_at : ℕ → NewestFirstPosition → NewestFirstPosition × Bool
  unfolding listing_ended resume_or_stop
  listing_ended_at end p =
      let (h, resume_at) = listing_ended cursor_for_offset p.head in
      resume_or_stop end p h resume_at

  unfoldable pub advance : NewestFirstPosition → ListingPage → Bool → NewestFirstPosition × Bool
  unfolding listed observe_page listing_ended_at
  advance p page complete =
      let observed =
        observe_page cursor_for_offset p.offset (listed page.records) page.entries complete
          p.head in
      if page.entries == 0 then listing_ended_at p.offset p else elim page.next_cursor [
        | none ↦ listing_ended_at (p.offset + page.entries) (record p { head = observed.0 })
        | some next ↦ (record { head = observed.0; offset = observed.1 }, true)
      ]

unfoldable pub truncate : NewestFirstPosition → NewestFirstPosition
truncate p =
    let h = p.head in
    record p {
      head = record h { metadata = record h.metadata { cursor = none; truncated = true } };
    }

unfoldable pub restart : NewestFirstPosition → NewestFirstPosition
unfolding newest_first_cursor
restart p =
    let m = p.head.metadata in
    record {
      head =
          newest_first_cursor
            (record m { cursor = none; head_ids = []; head_offset = 0; tail_ids = [] })
            p.head.page_size;
      offset = 0;
    }
