-- ===== src/Pipeline/Tests.antt =====
-- A run over one page of two records under a limit of one, and the theorems at it.
use sci_etl_core.Prelude.{
  ℕ, Text, codes, true, false, List, [], ◌∷◌, none, some, ◌≡◌, refl, arith, is_blank, mem,
}
use sci_etl_core.Models.{RawRecord, ListingPage, empty_metadata}
use sci_etl_core.Listing.Position as Resumed
use sci_etl_core.Listing.Position.{cursor_position, listing_ends}
use sci_etl_core.Pipeline.Effects.{wrote, marked, flushed, marks}
use sci_etl_core.Pipeline.Page.{
  Config, Answer, State, Board, acquired, judged, returned, extracted, processed, deferred,
  run_schedule, step, total_of, holds_permit,
}
use sci_etl_core.Pipeline.Page.Slots.{slot, done, IsPage, run_schedule-IsPage}
use sci_etl_core.Pipeline.Flush.{finished, tasks_of, process_page, trackable, PageResult, complete}
use sci_etl_core.Pipeline.Flush.Total.{Outcome, process_page-Outcome}
use sci_etl_core.Pipeline.Position.{resumed, advance}
use sci_etl_core.Pipeline.Run.{
  Turn, Limits, Run, Status, listed, running, completed, run_pages, start, turn, fetch_turn,
  page_turn, settle_turn, finish_turn, board_of, account, save, unprocessed,
}
use sci_etl_core.Pipeline.Run.Limit.{IsSound, run_pages-IsSound}
use sci_etl_core.Search.Filters.{pos, negsuc}
use sci_etl_core.Pipeline.Session as Session
use sci_etl_core.Pipeline.Session.{
  Arguments, BadArgument, negative_start, start_without_offsets, refusal, Faults, Ended, abandon,
  session, close_after, close_exporter, not_closed, raises,
}
use sci_etl_core.Pipeline.Session.Accepted.{is_none, is_acceptable, refusal_iff}

abbrev raw : Text → RawRecord
raw id = record { record_id = id; title = id; abstract_text = []; source_url = none }

abbrev two : List RawRecord
two = raw (codes "a") ∷ raw (codes "b") ∷ []

-- Both records are relevant, and `b` takes the only slot while `a` is still judged.
abbrev race : List (ℕ × Answer)
race =
    (0, acquired false)
    ∷ (1, acquired false)
    ∷ (1, judged true)
    ∷ (0, judged true)
    ∷ (1, returned)
    ∷ (1, extracted 3)
    ∷ (1, returned)
    ∷ (1, returned)
    ∷ []

abbrev config : Config
config = record { max_concurrency = 2; durable_writes = true; has_memory = false }

abbrev board : Board
board = record { remaining = 1; processed_ids = []; memory_faults = 0; log = [] }

abbrev before : State
before = record { tasks = tasks_of two; board = board }

abbrev after_board : Board
after_board = record {
  remaining = 0;
  processed_ids = codes "b" ∷ [];
  memory_faults = 0;
  log = marked (codes "b") ∷ wrote (codes "b") ∷ [];
}

abbrev after : State
after = record {
  tasks =
      record { raw = raw (codes "a"); phase = deferred }
      ∷ record { raw = raw (codes "b"); phase = processed 3 }
      ∷ [];
  board = after_board;
}

race_runs : run_schedule config race before ≡ some after
unfolding run_schedule tasks_of step total_of holds_permit
race_runs = refl

run_schedule-IsPage_example : IsPage config 1 0 after
unfolding total_of slot done holds_permit marks tasks_of
run_schedule-IsPage_example =
    run_schedule-IsPage config 1 0 race before after
      (record {
        slots_used = refl;
        permits = omega arith;
        counted = refl;
        safe = tt;
        ready = (tt, (tt, tt));
      })
      race_runs

-- The page that the race leaves: one record processed, one deferred.
abbrev page_after : PageResult
page_after = record {
  processed = 1;
  deferred = 1;
  unflushed = 0;
  failures = [];
  flush_error = none;
}

abbrev settled_board : Board
settled_board = record after_board { log = flushed ∷ after_board.log }

page_runs :
    process_page config race none (λ id. none) two board ≡ some (finished page_after settled_board)
unfolding process_page tasks_of run_schedule step total_of holds_permit is_blank
page_runs = refl

process_page-Outcome_example : Outcome true 1 0 (trackable two) (finished page_after settled_board)
unfolding marks
process_page-Outcome_example =
    process_page-Outcome config race none (λ id. none) two board (finished page_after settled_board)
      tt page_runs

abbrev limits : Limits
limits = record { config = config; total_limit = 1; max_attempts = some 3; quarantined = [] }

abbrev first_page : ListingPage
first_page = record {
  records = two;
  entries = 2;
  next_cursor = some (codes "2");
  truncated = false;
}

abbrev turn_of : ListingPage → List (ℕ × Answer) → Turn
turn_of page schedule = record {
  stop = false;
  fetch = listed page;
  schedule = schedule;
  flush_fault = none;
  mark_fault = λ id. none;
  save_fault = none;
}

abbrev turns : List Turn
turns = turn_of first_page race ∷ turn_of first_page [] ∷ []

abbrev begun : Run
begun = start (resumed (cursor_position empty_metadata none none)) []

abbrev ended : Run × Status
ended = elim (run_pages limits turns begun) [ none ↦ (begun, running) | some r ↦ r ]

run_ends :
    (run_pages limits turns begun ≡ some ended)
    × (ended.0.total_processed ≡ 1)
    × (ended.1 ≡ completed)
unfolding run_pages turn fetch_turn page_turn settle_turn finish_turn start board_of account save
    unprocessed complete process_page tasks_of run_schedule step total_of holds_permit is_blank mem
    advance Resumed.advance listing_ends
run_ends = (refl, refl, refl)

run_pages-IsSound_example : IsSound limits ended.0 ended.1
unfolding marks start
run_pages-IsSound_example =
    run_pages-IsSound limits turns begun ((omega arith, refl, tt), omega arith) ended run_ends.0

-- The exporter cannot be closed after that run.
abbrev late_fault : Faults
late_fault = record {
  exporter_open = none;
  exporter_flush = none;
  exporter_close = some (record { name = codes "OSError"; message = []; is_memory_fault = false });
  state_flush = none;
}

abbrev whole : Ended
whole = session late_fault ended.0 (Session.returned 1)

abbrev arguments : Arguments
arguments = record {
  page_size = pos 50;
  total_limit = none;
  start_index = some (pos 10);
  newest_first = false;
  max_attempts = some (pos 3);
}

needs_offsets : refusal false arguments ≡ some start_without_offsets
unfolding refusal
needs_offsets = refl

refused_first :
    refusal false (record arguments { start_index = some (negsuc 0); page_size = pos 0 })
    ≡ some negative_start
unfolding refusal
refused_first = refl

refusal_iff_example : is_none (refusal false arguments) ≡ is_acceptable false arguments
refusal_iff_example = refusal_iff false arguments
