-- ===== src/Pipeline/Flush.antt =====
-- `_process_page` after its tasks have ended, and `_flush_page`.
mod Records
pub mod Counted
pub mod Total
use sci_etl_core.Prelude.{
  ℕ, zero, suc, ◌+◌, Text, Bool, true, false, not, ◌&&◌, ◌||◌, List, [], ◌∷◌, Option, none, some,
  ◌==◌, if◌then◌else◌, length, is_blank, map,
}
use sci_etl_core.Models.{RawRecord}
use sci_etl_core.Pipeline.Effects.{Fault, Effect, flushed, marked}
use sci_etl_core.Pipeline.Page.{
  Config, Phase, Answer, Task, Board, State, queued, irrelevant, deferred, processed, written,
  failed, run_schedule,
}

pub record PageResult : Type 0 where
  pub processed : ℕ
  pub deferred : ℕ
  pub unflushed : ℕ
  pub failures : List (RawRecord × Fault)
  pub flush_error : Option Fault

abbrev pub empty_result : PageResult
empty_result = record {
  processed = 0;
  deferred = 0;
  unflushed = 0;
  failures = [];
  flush_error = none;
}

unfoldable pub is_some {ℓ} : {A : Type ℓ} → Option A → Bool
is_some none = false
is_some (some a) = true

unfoldable pub is_empty {ℓ} : {A : Type ℓ} → List A → Bool
is_empty [] = true
is_empty (x ∷ xs) = false

unfoldable pub complete : PageResult → Bool
unfolding is_empty
complete r = is_empty r.failures && (r.deferred == 0) && (r.unflushed == 0)

unfoldable pub stalled : PageResult → Bool
unfolding is_some is_empty
stalled r = is_some r.flush_error || not (is_empty r.failures) && (r.processed == 0)

-- `self.failed[-1][1]`.
unfoldable pub last_fault : List (RawRecord × Fault) → Option Fault
last_fault [] = none
last_fault ((r, e) ∷ []) = some e
last_fault (x ∷ xs) = last_fault xs

unfoldable pub stall_cause : PageResult → Option Fault
unfolding last_fault
stall_cause r = elim r.flush_error [ some e ↦ some e | none ↦ last_fault r.failures ]

-- The records that can be tracked by their id.
unfoldable pub trackable : List RawRecord → List RawRecord
trackable [] = []
trackable (r ∷ rs) = if is_blank r.record_id then trackable rs else r ∷ trackable rs

-- One round of the loop over the results of `gather`; `none` where a task has not ended.
unfoldable pub count_in :
    RawRecord → Phase → PageResult × List RawRecord → Option (PageResult × List RawRecord)
count_in r (failed e) (page, pending) =
    some (record page { failures = (r, e) ∷ page.failures }, pending)
count_in r (written n) (page, pending) = some (page, r ∷ pending)
count_in r deferred (page, pending) = some (record page { deferred = page.deferred + 1 }, pending)
count_in r (processed n) (page, pending) =
    some (record page { processed = page.processed + 1 }, pending)
count_in r irrelevant acc = some acc
count_in r phase acc = none

-- The counts and the written records, in the order of the tasks.
unfoldable pub collect : List Task → Option (PageResult × List RawRecord)
unfolding count_in
collect [] = some (empty_result, [])
collect (t ∷ ts) = elim (collect ts) [ none ↦ none | some acc ↦ count_in t.raw t.phase acc ]

-- A page that was settled, or a fault of the state manager, which ends the run.
pub data Settled : Type 0 where
  finished : PageResult → Board → Settled
  faulted : Fault → Board → Settled

-- The loop that marks the records that the flush made durable; `mark_fault` says which
-- `mark_processed` raises.
unfoldable pub mark_written : (Text → Option Fault) → List RawRecord → PageResult → Board → Settled
mark_written mark_fault [] page b = finished page b
mark_written mark_fault (r ∷ rs) page b = elim (mark_fault r.record_id) [
  | some e ↦ faulted e b
  | none ↦
      mark_written mark_fault rs (record page { processed = page.processed + 1 })
        (record b {
          processed_ids = r.record_id ∷ b.processed_ids;
          log = marked r.record_id ∷ b.log;
        })
]

-- `flush_fault` is what `exporter.flush` raises.
unfoldable pub flush_page :
    Option Fault → (Text → Option Fault) → List RawRecord → PageResult → Board → Settled
unfolding mark_written
flush_page (some e) mark_fault pending page b =
    finished (record page { flush_error = some e; unflushed = page.unflushed + length pending }) b
flush_page none mark_fault pending page b =
    mark_written mark_fault pending page (record b { log = flushed ∷ b.log })

unfoldable pub tasks_of : List RawRecord → List Task
tasks_of [] = []
tasks_of (r ∷ rs) = record { raw = r; phase = queued } ∷ tasks_of rs

-- `_process_page` under one interleaving; `none` where `schedule` is none or leaves a task
-- unfinished.
unfoldable pub process_page :
    Config
    → List (ℕ × Answer)
    → Option Fault
    → (Text → Option Fault)
    → List RawRecord
    → Board
    → Option Settled
unfolding trackable tasks_of run_schedule collect flush_page
process_page c schedule flush_fault mark_fault records board =
    elim (run_schedule c schedule
      (record { tasks = tasks_of (trackable records); board = board })) [
        | none ↦ none
        | some s ↦ elim (collect s.tasks) [
          | none ↦ none
          | some (page, pending) ↦ some (flush_page flush_fault mark_fault pending page s.board)
        ]
      ]
