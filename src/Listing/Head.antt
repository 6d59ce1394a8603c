-- ===== src/Listing/Head.antt =====
-- `NewestFirstCursor` of _listing_head.py, with the metadata that it shares with the run as the
-- field `metadata`. The shift, which may be negative, is the pair of the position at which a saved
-- id was found and the position saved for it: sums of the code that hold it are compared with the
-- saved position added to the other side.
pub mod Newest
pub mod Locate
pub mod Rescan
use sci_etl_core.Prelude.{
  ℕ, zero, suc, ◌+◌, ◌-◌, Text, Bool, true, false, not, ◌&&◌, List, [], ◌∷◌, Option, none, some,
  ltb, ◌==◌, if◌then◌else◌, length, take, drop, mem, text_eq,
}
use sci_etl_core.Models.{PipelineMetadata}
use sci_etl_core.Listing.Offsets.{is_decimal, to_int}

abbrev pub head_id_limit : ℕ
head_id_limit = 25

pub data Mode : Type 0 where
  rescan scanning probing backlog : Mode

pub record Shift : Type 0 where
  pub found : ℕ
  pub saved : ℕ

pub record Head : Type 0 where
  pub metadata : PipelineMetadata
  pub page_size : ℕ
  pub saved_ids : List Text
  pub saved_offset : ℕ
  pub saved_backlog : ℕ
  pub saved_tail : List Text
  pub mode : Mode
  pub unsettled_head : Option (ℕ × List Text)
  pub fresh_ids : List Text
  pub scan_settled : Bool
  pub scan_offset : ℕ
  pub scan_tail : List Text
  pub backlog_settled : Bool
  pub head_end : ℕ
  pub head_end_tail : List Text
  pub shift : Option Shift
  pub realigned : Bool

unfoldable pub decimal_offset : Option Text → ℕ
unfolding is_decimal to_int
decimal_offset none = 0
decimal_offset (some cursor) = if is_decimal cursor then to_int 0 cursor else 0

unfoldable pub initial_mode : List Text → Mode
initial_mode [] = rescan
initial_mode (x ∷ xs) = scanning

-- `__init__`.
unfoldable pub newest_first_cursor : PipelineMetadata → ℕ → Head
unfolding decimal_offset initial_mode
newest_first_cursor metadata page_size = record {
  metadata = metadata;
  page_size = page_size;
  saved_ids = metadata.head_ids;
  saved_offset = metadata.head_offset;
  saved_backlog = decimal_offset metadata.cursor;
  saved_tail = metadata.tail_ids;
  mode = initial_mode metadata.head_ids;
  unsettled_head = none;
  fresh_ids = [];
  scan_settled = true;
  scan_offset = 0;
  scan_tail = [];
  backlog_settled = true;
  head_end = 0;
  head_end_tail = [];
  shift = none;
  realigned = false;
}

-- `listed_ids[-HEAD_ID_LIMIT:]`.
unfoldable pub tail_of : List Text → List Text
tail_of ids = drop (length ids - head_id_limit) ids

-- `saved_positions`: of a repeated id the dictionary keeps the last position.
unfoldable pub saved_position : ℕ → List Text → Text → Option ℕ
saved_position offset [] id = none
saved_position offset (x ∷ xs) id = elim (saved_position (suc offset) xs id) [
  | some later ↦ some later
  | none ↦ if text_eq x id then some offset else none
]

unfoldable pub locate : ℕ → List Text → ℕ → List Text → Option Shift
unfolding saved_position
locate saved_offset saved_ids page_start [] = none
locate saved_offset saved_ids page_start (id ∷ listed) =
    let rest = locate saved_offset saved_ids (suc page_start) listed in
    elim (saved_position saved_offset saved_ids id) [
      | some position ↦ some (record { found = page_start; saved = position })
      | none ↦ rest
    ]

unfoldable pub is_disjoint : List Text → List Text → Bool
is_disjoint [] listed = true
is_disjoint (x ∷ xs) listed = not (mem x listed) && is_disjoint xs listed

unfoldable pub is_nil {ℓ} : {A : Type ℓ} → List A → Bool
is_nil [] = true
is_nil (x ∷ xs) = false

module _ (cursor_for_offset : ℕ → Text) where
  -- `_set_backlog`, with a tail and without one.
  unfoldable pub set_backlog_cursor : ℕ → Head → Head
  set_backlog_cursor offset h = record h {
    metadata = record h.metadata {
      cursor = if offset == 0 then none else some (cursor_for_offset offset);
    };
  }

  unfoldable pub set_backlog : ℕ → List Text → Head → Head
  set_backlog offset tail h = record h {
    metadata = record h.metadata {
      cursor = if offset == 0 then none else some (cursor_for_offset offset);
      tail_ids = tail;
    };
  }

  unfoldable pub adopt_scan : Head → Head
  unfolding set_backlog
  adopt_scan h = set_backlog h.scan_offset h.scan_tail (record h {
    mode = rescan;
    metadata = record h.metadata { head_ids = h.fresh_ids; head_offset = 0 };
  })

  unfoldable pub fall_back : Head → Head × ℕ
  unfolding set_backlog
  fall_back h = (
    set_backlog h.head_end h.head_end_tail (record h { realigned = true; mode = backlog }),
    h.head_end,
  )

  unfoldable pub settle_backlog : ℕ → List Text → Bool → Head → Head
  unfolding set_backlog
  settle_backlog next_offset tail complete h =
      let settled = h.backlog_settled && complete in
      if settled
      then set_backlog next_offset tail (record h { backlog_settled = true })
      else record h { backlog_settled = false }

  -- The head ids that the end of the head scan saves.
  unfoldable pub save_head : Head → Head
  save_head h = elim h.unsettled_head [
    | none ↦ record h { metadata = record h.metadata { head_ids = h.fresh_ids; head_offset = 0 } }
    | some (start, ids) ↦ record h {
      metadata = record h.metadata { head_ids = ids; head_offset = start };
    }
  ]

  -- `_observe_head`, once the shift is known.
  unfoldable pub past_head : ℕ → List Text → Shift → Head → Head × ℕ
  unfolding save_head set_backlog_cursor set_backlog is_nil
  past_head next_offset tail shift h =
      let saved = record (save_head h) { head_end = next_offset; head_end_tail = tail } in
      if ltb (next_offset + shift.saved) (h.saved_offset + length h.saved_ids + shift.found)
      then (h, next_offset)
      else if not (is_nil h.saved_tail)
          && ltb (next_offset + shift.saved + h.page_size) (h.saved_backlog + shift.found)
      then (
        set_backlog_cursor (h.saved_backlog + shift.found - shift.saved)
            (record saved { mode = probing }),
        h.saved_backlog + shift.found - shift.saved - h.page_size,
      )
      else (set_backlog next_offset tail (record saved { mode = backlog }), next_offset)

  unfoldable pub note_unsettled : ℕ → List Text → List Text → Bool → Head → Head
  note_unsettled page_start listed_ids tail complete h =
      if complete
      then h
      else record h { unsettled_head = some (page_start + length listed_ids - length tail, tail) }

  unfoldable pub known_shift : ℕ → List Text → Head → Option Shift
  unfolding locate
  known_shift page_start listed_ids h = elim h.shift [
    | some s ↦ some s
    | none ↦ locate h.saved_offset h.saved_ids page_start listed_ids
  ]

  unfoldable pub observe_head : ℕ → List Text → ℕ → List Text → Bool → Head → Head × ℕ
  unfolding note_unsettled known_shift past_head
  observe_head page_start listed_ids next_offset tail complete h =
      let noted = note_unsettled page_start listed_ids tail complete h in
      elim (known_shift page_start listed_ids h) [
        | none ↦ (noted, next_offset)
        | some s ↦ past_head next_offset tail s (record noted { shift = some s })
      ]

  unfoldable pub observe_probe : ℕ → List Text → ℕ → List Text → Bool → Head → Head × ℕ
  unfolding is_disjoint fall_back set_backlog
  observe_probe page_start listed_ids next_offset tail complete h =
      if is_disjoint h.saved_tail listed_ids
      then fall_back h
      else if complete
      then (set_backlog next_offset tail (record h { mode = backlog }), next_offset)
      else (
        set_backlog page_start [] (record h { mode = backlog; backlog_settled = false }),
        next_offset,
      )

  -- The bookkeeping that `observe_page` does in every mode.
  unfoldable pub note_page : ℕ → List Text → ℕ → List Text → Bool → Head → Head
  note_page page_start listed_ids next_offset tail complete h =
      let settled = h.scan_settled && complete in
      record h {
        fresh_ids = if page_start == 0 then take head_id_limit listed_ids else h.fresh_ids;
        scan_settled = settled;
        scan_offset = if settled then next_offset else h.scan_offset;
        scan_tail = if settled then tail else h.scan_tail;
      }

  unfoldable pub observe_in : Mode → ℕ → List Text → ℕ → List Text → Bool → Head → Head × ℕ
  unfolding adopt_scan observe_head observe_probe settle_backlog
  observe_in rescan page_start listed_ids next_offset tail complete h = (adopt_scan h, next_offset)
  observe_in scanning page_start listed_ids next_offset tail complete h =
      observe_head page_start listed_ids next_offset tail complete h
  observe_in probing page_start listed_ids next_offset tail complete h =
      observe_probe page_start listed_ids next_offset tail complete h
  observe_in backlog page_start listed_ids next_offset tail complete h =
      (settle_backlog next_offset tail complete h, next_offset)

  unfoldable pub observe_page : ℕ → List Text → ℕ → Bool → Head → Head × ℕ
  unfolding note_page observe_in tail_of
  observe_page page_start listed_ids entries complete h =
      let next_offset = page_start + entries in
      let tail = tail_of listed_ids in
      observe_in h.mode page_start listed_ids next_offset tail complete
        (note_page page_start listed_ids next_offset tail complete h)

  -- `listing_ended`: `none` is to stop.
  unfoldable pub ended_in : Mode → Head → Head × Option ℕ
  unfolding adopt_scan fall_back
  ended_in scanning h = (adopt_scan h, none)
  ended_in probing h = let (h', offset) = fall_back h in (h', some offset)
  ended_in _ h = (h, none)

  unfoldable pub listing_ended : Head → Head × Option ℕ
  unfolding ended_in
  listing_ended h = ended_in h.mode h
