-- ===== src/Pipeline/Page.antt =====
-- The records of one page (`_process_page`, `_process_record`, `_settle_record`, `_flush_page`).
-- Each record is a task; a step resumes one task with the answer to what it awaits, so a schedule
-- of steps is an interleaving of the tasks that `asyncio.gather` runs.
pub mod Slots
use sci_etl_core.Prelude.{
  ℕ, zero, suc, ◌+◌, ◌-◌, Text, Bool, true, false, ◌&&◌, ◌||◌, List, [], ◌∷◌, Option, none, some,
  ltb, leb, ◌==◌, map, if◌then◌else◌, length, get_elem?, set,
}
use sci_etl_core.Models.{RawRecord}
use sci_etl_core.Pipeline.Effects.{Fault, Effect, wrote, flushed, marked, dismissed}

-- What the pipeline was built with: the semaphore's permits, `exporter.durable_writes`, and
-- whether there is a `memory_ingestor`.
pub record Config : Type 0 where
  pub max_concurrency : ℕ
  pub durable_writes : Bool
  pub has_memory : Bool

-- What a task awaits, or how it ended. The numbers count entities.
pub data Phase : Type 0 where
  queued judging dismissing fetching ingesting extracting : Phase
  writing marking : ℕ → Phase
  irrelevant deferred : Phase
  processed written : ℕ → Phase
  failed : Fault → Phase

-- `acquired` is the semaphore, with whether a shutdown is requested by then.
pub data Answer : Type 0 where
  acquired judged : Bool → Answer
  returned : Answer
  extracted : ℕ → Answer
  raised : Fault → Answer

pub record Task : Type 0 where
  pub raw : RawRecord
  pub phase : Phase

-- `remaining` is the `_PageBudget`.
pub record Board : Type 0 where
  pub remaining : ℕ
  pub processed_ids : List Text
  pub memory_faults : ℕ
  pub log : List Effect

-- `_mark_done`, when `mark_processed` returned.
abbrev note_done : Effect → RawRecord → Board → Board
note_done effect r b = record b {
  processed_ids = r.record_id ∷ b.processed_ids;
  log = effect ∷ b.log;
}

-- `budget.release()`, under a fault.
abbrev release : Board → Board
release b = record b { remaining = b.remaining + 1 }

-- After `is_relevant` returned true: `budget.reserve()`.
unfoldable pub reserve : Board → Phase × Board
reserve b =
    if b.remaining == 0 then (deferred, b) else (fetching, record b { remaining = b.remaining - 1 })

abbrev after_text : Config → Phase
after_text c = if c.has_memory then ingesting else extracting

-- One task's reaction; `none` where the task does not await such an answer.
unfoldable pub resume : Config → RawRecord → Phase → Answer → Board → Option (Phase × Board)
unfolding reserve
resume c r queued (acquired stop) b =
    some (if b.remaining == 0 || stop then (deferred, b) else (judging, b))
resume c r judging (judged true) b = some (reserve b)
resume c r judging (judged false) b = some (dismissing, b)
resume c r judging (raised e) b = some (failed e, b)
resume c r dismissing returned b = some (irrelevant, note_done (dismissed r.record_id) r b)
resume c r dismissing (raised e) b = some (failed e, b)
resume c r fetching returned b = some (after_text c, b)
resume c r fetching (raised e) b = some (failed e, release b)
resume c r ingesting returned b = some (extracting, b)
resume c r ingesting (raised e) b = some (
    if e.is_memory_fault
    then (extracting, record b { memory_faults = b.memory_faults + 1 })
    else (failed e, release b))
resume c r extracting (extracted n) b = some (writing n, b)
resume c r extracting (raised e) b = some (failed e, release b)
resume c r (writing n) returned b = some (
  if c.durable_writes then marking n else written n,
  record b { log = wrote r.record_id ∷ b.log },
)
resume c r (writing n) (raised e) b = some (failed e, release b)
resume c r (marking n) returned b = some (processed n, note_done (marked r.record_id) r b)
resume c r (marking n) (raised e) b = some (failed e, release b)
resume c r phase answer b = none

unfoldable pub holds_permit : Phase → ℕ
holds_permit queued = 0
holds_permit irrelevant = 0
holds_permit deferred = 0
holds_permit (processed n) = 0
holds_permit (written n) = 0
holds_permit (failed e) = 0
holds_permit _ = 1

unfoldable pub total_of : (Phase → ℕ) → List Task → ℕ
total_of f [] = 0
total_of f (t ∷ ts) = f t.phase + total_of f ts

-- The permits of the semaphore that are taken.
abbrev pub in_flight : List Task → ℕ
in_flight = total_of holds_permit

unfoldable pub may_resume : Config → Phase → List Task → Bool
may_resume c queued ts = ltb (in_flight ts) c.max_concurrency
may_resume c phase ts = true

pub record State : Type 0 where
  pub tasks : List Task
  pub board : Board

unfoldable pub settle : ℕ → RawRecord → State → Option (Phase × Board) → Option State
settle i r s none = none
settle i r s (some (phase, board)) =
    some (record { tasks = set s.tasks i (record { raw = r; phase = phase }); board = board })

-- Resume the task `i`; a queued one needs a free permit.
unfoldable pub step : Config → ℕ × Answer → State → Option State
unfolding settle resume may_resume
step c (i, answer) s = elim (get_elem? s.tasks i) [
  | none ↦ none
  | some t ↦
      if may_resume c t.phase s.tasks
      then settle i t.raw s (resume c t.raw t.phase answer s.board)
      else none
]

unfoldable pub run_schedule : Config → List (ℕ × Answer) → State → Option State
run_schedule c [] s = some s
run_schedule c (e ∷ es) s = elim (step c e s) [ none ↦ none | some s' ↦ run_schedule c es s' ]
