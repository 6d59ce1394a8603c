-- ===== src/Pipeline/Session.antt =====
-- `AsyncETLPipeline.run` around `_run_pages`: the checks of its arguments, the opening and closing of the
-- exporter, and the last flush of the state. A collaborator's call raises a fault or returns.
pub mod Accepted
pub mod Closing
use sci_etl_core.Prelude.{
  ℕ, Text, Bool, true, false, not, ◌&&◌, ◌||◌, List, [], ◌∷◌, ◌++◌, Option, none, some, ltb,
  if◌then◌else◌,
}
use sci_etl_core.Search.Filters.{ℤ, pos, negsuc}
use sci_etl_core.Pipeline.Effects.{Fault}
use sci_etl_core.Pipeline.Run.{
  Turn, Limits, Run, Status, running, completed, interrupted, stale_again, malformed, unavailable,
  stall, raised, run_pages,
}

pub record Arguments : Type 0 where
  pub page_size : ℤ
  pub total_limit : Option ℤ
  pub start_index : Option ℤ
  pub newest_first : Bool
  pub max_attempts : Option ℤ

-- The messages of the ValueErrors, in the order of the checks.
pub data BadArgument : Type 0 where
  negative_start start_with_newest small_page negative_limit small_attempts : BadArgument
  newest_without_offsets start_without_offsets : BadArgument

unfoldable pub is_negative : ℤ → Bool
is_negative (pos n) = false
is_negative (negsuc n) = true

unfoldable pub is_positive : ℤ → Bool
is_positive (pos n) = ltb 0 n
is_positive (negsuc n) = false

unfoldable pub holds : (ℤ → Bool) → Option ℤ → Bool
holds test none = false
holds test (some z) = test z

unfoldable pub is_given : Option ℤ → Bool
is_given none = false
is_given (some z) = true

-- `total_limit` defaults to `page_size`.
unfoldable pub limit_of : Arguments → ℤ
limit_of a = elim a.total_limit [ none ↦ a.page_size | some z ↦ z ]

-- `none` where the run may begin; `offsets` says that the extractor is an `OffsetListing`.
unfoldable pub refusal : Bool → Arguments → Option BadArgument
unfolding is_negative is_positive holds is_given limit_of
refusal offsets a =
    if holds is_negative a.start_index
    then some negative_start
    else if is_given a.start_index && a.newest_first
    then some start_with_newest
    else if not (is_positive a.page_size)
    then some small_page
    else if is_negative (limit_of a)
    then some negative_limit
    else if holds (λ z. not (is_positive z)) a.max_attempts
    then some small_attempts
    else if not offsets && a.newest_first
    then some newest_without_offsets
    else if not offsets && holds is_positive a.start_index
    then some start_without_offsets
    else none

-- What the calls before and after `_run_pages` raise.
pub record Faults : Type 0 where
  pub exporter_open : Option Fault
  pub exporter_flush : Option Fault
  pub exporter_close : Option Fault
  pub state_flush : Option Fault

-- The calls of a run, in order.
pub data Step : Type 0 where
  exporter_opened pages_run exporter_flushed exporter_closed state_flushed : Step

-- What `_run_pages` ends in: it returns, or raises what a status says, with the records processed.
pub data Pages : Type 0 where
  returned : ℕ → Pages
  failed : Status → ℕ → Pages

pub data Failure : Type 0 where
  not_opened : Fault → Failure
  pages_failed : Status → ℕ → Failure
  not_closed : Fault → Failure
  not_flushed : Fault → Failure

pub data Result : Type 0 where
  returns : ℕ → Result
  raises : Failure → Result

-- `first or error`.
unfoldable pub first_of : Option Fault → Option Fault → Option Fault
first_of none second = second
first_of (some e) second = some e

-- `_close_exporter`: both steps are taken, and the first fault is given.
unfoldable pub close_exporter : Faults → Option Fault
unfolding first_of
close_exporter f = first_of f.exporter_flush f.exporter_close

-- The end of a run whose pages returned: a fault of the state is raised before one of the exporter.
unfoldable pub finish : ℕ → Option Fault → Option Fault → Result
finish n close_error (some e) = raises (not_flushed e)
finish n (some e) none = raises (not_closed e)
finish n none none = returns n

unfoldable pub close_after : Faults → Pages → Result
unfolding close_exporter finish
close_after f (returned n) = finish n (close_exporter f) f.state_flush
close_after f (failed status n) = raises (pages_failed status n)

-- The run at its end, with the calls that it made.
pub record Ended : Type 0 where
  pub at_end : Run
  pub result : Result
  pub steps : List Step

-- A run whose exporter could not be opened.
unfoldable pub abandon : Fault → Run → Ended
abandon e s = record {
  at_end = s;
  result = raises (not_opened e);
  steps = exporter_opened ∷ state_flushed ∷ [];
}

-- A run whose exporter was opened, from what its pages ended in.
unfoldable pub session : Faults → Run → Pages → Ended
unfolding close_after
session f s pages = record {
  at_end = s;
  result = close_after f pages;
  steps = exporter_opened ∷ pages_run ∷ exporter_flushed ∷ exporter_closed ∷ state_flushed ∷ [];
}

-- What the loop over the pages ends in; `none` where it has not ended.
unfoldable pub pages_of : Status → Run → Option Pages
pages_of running s = none
pages_of completed s = some (returned s.total_processed)
pages_of status s = some (failed status s.total_processed)

pub data RunOutcome : Type 0 where
  run_completed run_interrupted run_aborted run_failed : RunOutcome

unfoldable pub outcome_of : Result → RunOutcome
outcome_of (returns n) = run_completed
outcome_of (raises (not_opened e)) = run_aborted
outcome_of (raises (pages_failed interrupted n)) = run_interrupted
outcome_of (raises (pages_failed (raised e) n)) = run_failed
outcome_of (raises (pages_failed status n)) = run_aborted
outcome_of (raises (not_closed e)) = run_failed
outcome_of (raises (not_flushed e)) = run_failed

unfoldable pub session_of : Faults → Run → Option Pages → Option Ended
unfolding session
session_of f s none = none
session_of f s (some pages) = some (session f s pages)

-- The run from what its loop came to.
unfoldable pub conclude : Faults → Option (Run × Status) → Option Ended
unfolding pages_of session_of
conclude f none = none
conclude f (some (s, status)) = session_of f s (pages_of status s)

-- `run`, from arguments that were accepted; `none` where the turns do not end it.
unfoldable pub run : Limits → List Turn → Faults → Run → Option Ended
unfolding run_pages abandon conclude
run l ts f s = elim f.exporter_open [
  | some e ↦ some (abandon e s)
  | none ↦ conclude f (run_pages l ts s)
]
