-- ===== src/Pipeline/Run.antt =====
-- `_run_pages`: one turn of its loop for each listing request, and the loop over any turns that the
-- source, the collaborators and the schedules may take.
pub mod Limit
use sci_etl_core.Prelude.{
  ℕ, zero, suc, ◌+◌, ◌-◌, Text, Bool, true, false, not, ◌&&◌, ◌||◌, List, [], ◌∷◌, ◌++◌, Option,
  none, some, ltb, leb, ◌==◌, if◌then◌else◌, mem, map,
}
use sci_etl_core.Models.{RawRecord, ListingPage, PipelineMetadata}
use sci_etl_core.Listing.Position.{listing_ends}
use sci_etl_core.Pipeline.Effects.{Fault, Effect}
use sci_etl_core.Pipeline.Page.{Config, Answer, Board}
use sci_etl_core.Pipeline.Flush.{
  PageResult, empty_result, complete, stalled, stall_cause, is_some, Settled, finished, faulted,
  process_page,
}
use sci_etl_core.Pipeline.Position.{Position, metadata_of, cursor_of, advance, truncate, restart}

abbrev pub stalled_pages_before_abort : ℕ
stalled_pages_before_abort = 2

-- What `_fetch_page`, raced against the shutdown, gives.
pub data Fetch : Type 0 where
  listed : ListingPage → Fetch
  stopped stale malformed unavailable : Fetch
  broken : Fault → Fetch

-- Everything that one turn of the loop meets.
pub record Turn : Type 0 where
  pub stop : Bool
  pub fetch : Fetch
  pub schedule : List (ℕ × Answer)
  pub flush_fault : Option Fault
  pub mark_fault : Text → Option Fault
  pub save_fault : Option Fault

pub data Status : Type 0 where
  running completed interrupted : Status
  stale_again malformed unavailable : Status
  stall : Option Fault → Status
  raised : Fault → Status

pub record Limits : Type 0 where
  pub config : Config
  pub total_limit : ℕ
  pub max_attempts : Option ℕ
  -- The ids whose failed attempts reached `max_attempts` in earlier runs.
  pub quarantined : List Text

pub record Run : Type 0 where
  pub position : Position
  -- The metadata that the state manager last saved, if any.
  pub saved : Option PipelineMetadata
  -- The records for which `record_failure` was called, the last one first.
  pub recorded : List Text
  -- The quarantined records that were reported.
  pub reported : List Text
  pub processed_ids : List Text
  pub log : List Effect
  pub total_processed : ℕ
  pub stalled_pages : ℕ
  pub last_failure : Option Fault
  pub held_failures : List (RawRecord × Fault)
  pub restarted : Bool
  pub memory_faults : ℕ

-- `_Quarantine.report`: only the first skip of a record is reported.
unfoldable pub report : Text → List Text → List Text
report id reported = if mem id reported then reported else id ∷ reported

-- `_unprocessed`, with the reported ids.
unfoldable pub unprocessed :
    List Text → List Text → List RawRecord → List Text → List RawRecord × List Text
unfolding report
unprocessed processed_ids quarantined [] reported = ([], reported)
unprocessed processed_ids quarantined (r ∷ rs) reported =
    let held = not (mem r.record_id processed_ids) && mem r.record_id quarantined in
    let (rest, reported') =
      unprocessed processed_ids quarantined rs
        (if held then report r.record_id reported else reported) in
    (
      if mem r.record_id processed_ids || mem r.record_id quarantined then rest else r ∷ rest,
      reported',
    )

-- `_commit_failures`; `record_failure` is taken to return.
unfoldable pub commit_failures : Option ℕ → List (RawRecord × Fault) → List Text → List Text
commit_failures none failures recorded = recorded
commit_failures (some n) [] recorded = recorded
commit_failures (some n) ((r, e) ∷ fs) recorded =
    commit_failures (some n) fs (r.record_id ∷ recorded)

-- `save_metadata`.
unfoldable pub save : Option Fault → Status → Run → Run × Status
save none next s = (record s { saved = some (metadata_of s.position) }, next)
save (some e) next s = (s, raised e)

-- The counters after a processed page: what a stall adds, and what progress clears.
unfoldable pub account : Limits → PageResult → Run → Run
unfolding stalled stall_cause is_some commit_failures
account l page s =
    let progress = not (page.processed == 0) in
    let cleared = progress && not (is_some page.flush_error) in
    let stalls = if cleared then 0 else s.stalled_pages in
    record s {
      total_processed = s.total_processed + page.processed;
      recorded =
          if progress
          then commit_failures l.max_attempts (s.held_failures ++ page.failures) s.recorded
          else s.recorded;
      stalled_pages = if stalled page then suc stalls else stalls;
      last_failure = if stalled page then stall_cause page else s.last_failure;
      held_failures =
          if progress
          then []
          else if stalled page
          then s.held_failures ++ page.failures
          else s.held_failures;
    }

-- The end of a turn, with what became of the page.
unfoldable pub finish_turn : Turn → ListingPage → Bool → Run → Run × Status
finish_turn t page settled s =
    let truncated = save t.save_fault completed (record s { position = truncate s.position }) in
    let (position, more) = advance s.position page settled in
    let advanced =
      save t.save_fault (if more then running else completed) (record s { position = position }) in
    if not (s.stalled_pages == 0) && listing_ends page
    then (s, stall s.last_failure)
    else if page.truncated
    then truncated
    else advanced

-- A page with entries, once its records have been dealt with.
unfoldable pub settle_turn : Limits → Turn → ListingPage → Settled → Run → Run × Status
settle_turn l t page (faulted e b) s = (
  record s { processed_ids = b.processed_ids; log = b.log; memory_faults = b.memory_faults },
  raised e,
)
settle_turn l t page (finished result b) s =
    let s' = account l result (record s {
      processed_ids = b.processed_ids;
      log = b.log;
      memory_faults = b.memory_faults;
    }) in
    if stalled result && leb stalled_pages_before_abort s'.stalled_pages
    then (s', stall s'.last_failure)
    else finish_turn t page (complete result) s'

unfoldable pub board_of : Limits → Run → Board
board_of l s = record {
  remaining = l.total_limit - s.total_processed;
  processed_ids = s.processed_ids;
  memory_faults = s.memory_faults;
  log = s.log;
}

unfoldable pub page_turn : Limits → Turn → ListingPage → Run → Option (Run × Status)
page_turn l t page s =
    let (records, reported) = unprocessed s.processed_ids l.quarantined page.records s.reported in
    let s' = record s { reported = reported } in
    if page.entries == 0
    then some (finish_turn t page (complete empty_result) s')
    else elim (process_page l.config t.schedule t.flush_fault t.mark_fault records (board_of l s)) [
      | none ↦ none
      | some settled ↦ some (settle_turn l t page settled s')
    ]

unfoldable pub fetch_turn : Limits → Turn → Fetch → Run → Option (Run × Status)
fetch_turn l t (listed page) s = page_turn l t page s
fetch_turn l t stopped s = some (s, interrupted)
fetch_turn l t stale s = some (
    if s.restarted
    then (s, stale_again)
    else save t.save_fault running (record s { restarted = true; position = restart s.position }))
fetch_turn l t malformed s = some (s, malformed)
fetch_turn l t unavailable s = some (s, unavailable)
fetch_turn l t (broken e) s = some (s, raised e)

-- One round of `while total_processed < total_limit`; `none` where the schedule is none.
unfoldable pub turn : Limits → Turn → Run → Option (Run × Status)
turn l t s =
    if ltb s.total_processed l.total_limit
    then if t.stop then some (s, interrupted) else fetch_turn l t t.fetch s
    else some (s, completed)

-- The loop over the turns, until one ends the run.
unfoldable pub run_pages : Limits → List Turn → Run → Option (Run × Status)
run_pages l [] s = some (s, running)
run_pages l (t ∷ ts) s = elim (turn l t s) [
  | none ↦ none
  | some (s', running) ↦ run_pages l ts s'
  | some (s', status) ↦ some (s', status)
]

-- The state in which `_run_pages` enters its loop.
unfoldable pub start : Position → List Text → Run
start position processed_ids = record {
  position = position;
  saved = none;
  recorded = [];
  reported = [];
  processed_ids = processed_ids;
  log = [];
  total_processed = 0;
  stalled_pages = 0;
  last_failure = none;
  held_failures = [];
  restarted = false;
  memory_faults = 0;
}
