-- ===== src/Pipeline/Flush/Total.antt =====
-- What a processed page leaves behind, whatever the interleaving and the faults.
use sci_etl_core.Prelude.{
  ℕ, ◌+◌, ◌≤◌, Text, Bool, true, List, [], ◌∷◌, Option, none, some, ◌≡◌, refl, arith, length, mem,
  mem-cons, mem_self, inl, inr, Option-cases, ap, sym, ◌∙◌,
}
use mathlib.Core.Path.{subst}
use sci_etl_core.Models.{RawRecord}
use sci_etl_core.Pipeline.Effects.{
  Fault, Effect, flushed, marked, is_durable, IsSafe, marks, is_durable-cons,
}
use sci_etl_core.Pipeline.Page.{Config, Answer, Task, Board, total_of, holds_permit, run_schedule}
use sci_etl_core.Pipeline.Page.Slots.{slot, done, AllReady, IsPage, run_schedule-IsPage}
use sci_etl_core.Pipeline.Flush.{
  PageResult, complete, trackable, collect, Settled, finished, faulted, mark_written, flush_page,
  tasks_of, process_page,
}
use sci_etl_core.Pipeline.Flush.Records.{raws, run_schedule-raws}
use sci_etl_core.Pipeline.Flush.Counted.{
  AllKnown, AllWritten, Accounted, Counted, Counts, collect-Counts,
}

-- What holds of a settled page, or of the faulted run, when `budget` slots were left and `base`
-- records had been marked.
pub record IsFinished (d : Bool) (budget base : ℕ) (rs : List RawRecord) (page : PageResult)
    (b : Board) : Type 0 where
  pub within : page.processed ≤ budget
  pub counted : marks b.log ≡ base + page.processed
  pub safe : IsSafe d b.log
  pub known : complete page ≡ true → AllKnown b.processed_ids rs

pub record IsFaulted (d : Bool) (budget base : ℕ) (b : Board) : Type 0 where
  pub within : marks b.log ≤ base + budget
  pub safe : IsSafe d b.log

abbrev pub Outcome : Bool → ℕ → ℕ → List RawRecord → Settled → Type 0
Outcome d budget base rs (finished page b) = IsFinished d budget base rs page b
Outcome d budget base rs (faulted e b) = IsFaulted d budget base b

abbrev AllDurable : Bool → List Effect → List RawRecord → Type 0
AllDurable d log [] = Unit
AllDurable d log (r ∷ rs) = (is_durable d r.record_id log ≡ true) × AllDurable d log rs

AllDurable-cons :
    (d : Bool) (e : Effect) (log : List Effect) (rs : List RawRecord)
    → AllDurable d log rs
    → AllDurable d (e ∷ log) rs
AllDurable-cons d e log [] a = tt
AllDurable-cons d e log (r ∷ rs) a =
    (is_durable-cons d r.record_id e log a.0, AllDurable-cons d e log rs a.1)

flushed-AllDurable :
    (d : Bool) (log : List Effect) (rs : List RawRecord)
    → AllWritten log rs
    → AllDurable d (flushed ∷ log) rs
unfolding is_durable
flushed-AllDurable d log [] a = tt
flushed-AllDurable d log (r ∷ rs) a = (rw a.0, flushed-AllDurable d log rs a.1)

-- What the loop of `_flush_page` adds to a page of which `page.processed` records were marked.
record Marked (d : Bool) (base : ℕ) (pending : List RawRecord) (page : PageResult) (b : Board)
    (page' : PageResult) (b' : Board) : Type 0 where
  processed_more : page'.processed ≡ page.processed + length pending
  counted : marks b'.log ≡ base + page'.processed
  safe : IsSafe d b'.log
  known : AllKnown b'.processed_ids pending
  kept : (x : Text) → mem x b.processed_ids ≡ true → mem x b'.processed_ids ≡ true
  failures : page'.failures ≡ page.failures
  deferrals : page'.deferred ≡ page.deferred

abbrev Marks : Bool → ℕ → List RawRecord → PageResult → Board → Settled → Type 0
Marks d base pending page b (finished page' b') = Marked d base pending page b page' b'
Marks d base pending page b (faulted e b') = IsFaulted d (page.processed + length pending) base b'

mark_written-Marks :
    (d : Bool) (base : ℕ) (mark_fault : Text → Option Fault) (pending : List RawRecord)
    (page : PageResult) (b : Board)
    → marks b.log ≡ base + page.processed
    → IsSafe d b.log
    → AllDurable d b.log pending
    → Marks d base pending page b (mark_written mark_fault pending page b)
unfolding mark_written
mark_written-Marks d base mf [] page b m s a = record {
  processed_more = omega arith;
  counted = m;
  safe = s;
  known = tt;
  kept = λ x h. h;
  failures = refl;
  deferrals = refl;
}
mark_written-Marks d base mf (r ∷ rs) page b m s a = go (mf r.record_id) (
    mark_written-Marks d base mf rs (record page { processed = page.processed + 1 }) after
      (unfold marks in omega (arith, m)) (a.0, s)
      (AllDurable-cons d (marked r.record_id) b.log rs a.1))
  where
    after : Board
    after = record b {
      processed_ids = r.record_id ∷ b.processed_ids;
      log = marked r.record_id ∷ b.log;
    }

    more : PageResult
    more = record page { processed = page.processed + 1 }

    widen : (o : Settled) → Marks d base rs more after o → Marks d base (r ∷ rs) page b o
    widen (finished page' b') h = record {
      processed_more = omega (arith, h.processed_more);
      counted = h.counted;
      safe = h.safe;
      known = (h.kept r.record_id (mem_self r.record_id b.processed_ids), h.known);
      kept = λ x k. h.kept x (mem-cons x r.record_id b.processed_ids k);
      failures = h.failures;
      deferrals = h.deferrals;
    }
    widen (faulted e b') h = record { within = omega (arith, h.within); safe = h.safe }

    go :
        (o : Option Fault)
        → Marks d base rs more after (mark_written mf rs more after)
        → Marks d base
            (r ∷ rs)
            page
            b
            (elim o [ some e ↦ faulted e b | none ↦ mark_written mf rs more after ])
    go none h = widen _ h
    go (some e) h = record { within = omega (arith, m); safe = s }

Accounted-AllKnown :
    (ids : List Text) (pending : List RawRecord) (ts : List Task) (ids' : List Text)
    → Accounted ids pending ts
    → ((x : Text) → mem x ids ≡ true → mem x ids' ≡ true)
    → AllKnown ids' pending
    → AllKnown ids' (raws ts)
unfolding raws
Accounted-AllKnown ids pending [] ids' a sub known = tt
Accounted-AllKnown ids pending (t ∷ ts) ids' a sub known =
    (a.0 ids' sub known, Accounted-AllKnown ids pending ts ids' a.1 sub known)

-- A complete page has no failure, no deferral and nothing unflushed.
complete_parts :
    (page : PageResult)
    → complete page ≡ true
    → (page.failures ≡ []) × (page.deferred ≡ 0) × (page.unflushed ≡ 0)
unfolding complete
complete_parts page h = ground arith

AllKnown-none : (ids : List Text) (rs : List RawRecord) → length rs ≡ 0 → AllKnown ids rs
AllKnown-none ids [] h = tt
AllKnown-none ids (r ∷ rs) h = absurd (omega arith)

module _ (d : Bool) (budget base : ℕ) (ts : List Task) (page : PageResult)
    (pending : List RawRecord) (b : Board) where
  flush_page-Outcome :
      (flush_fault : Option Fault) (mark_fault : Text → Option Fault)
      → Counted d b.log b.processed_ids ts page pending
      → marks b.log ≡ base + total_of done ts
      → total_of slot ts ≤ budget
      → IsSafe d b.log
      → Outcome d budget base (raws ts) (flush_page flush_fault mark_fault pending page b)
  unfolding flush_page
  flush_page-Outcome (some e) mark_fault h m l s = record {
    within = omega (arith, h.slots);
    counted = omega (arith, h.dones, m);
    safe = s;
    known = λ c.
        let parts = complete_parts _ c in
        Accounted-AllKnown b.processed_ids pending ts b.processed_ids (h.settled parts.0 parts.1)
          (λ x k. k) (AllKnown-none _ pending (omega (arith, h.unflushed)));
  }
  flush_page-Outcome none mark_fault h m l s = go _ (
      mark_written-Marks d base mark_fault pending page (record b { log = flushed ∷ b.log })
        (unfold marks in omega (arith, h.dones, m)) s
        (flushed-AllDurable d b.log pending h.pending_written))
    where
      go :
          (o : Settled)
          → Marks d base pending page (record b { log = flushed ∷ b.log }) o
          → Outcome d budget base (raws ts) o
      go (finished page' b') k = record {
        within = omega (arith, h.slots, k.processed_more);
        counted = k.counted;
        safe = k.safe;
        known = λ c.
            let parts = complete_parts page' c in
            Accounted-AllKnown b.processed_ids pending ts b'.processed_ids
              (h.settled (sym k.failures ∙ parts.0) (sym k.deferrals ∙ parts.1)) k.kept k.known;
      }
      go (faulted e b') k = record { within = omega (arith, h.slots, k.within); safe = k.safe }

raws-tasks_of : (rs : List RawRecord) → raws (tasks_of rs) ≡ rs
unfolding raws tasks_of
raws-tasks_of [] = refl
raws-tasks_of (r ∷ rs) = ap (λ xs. r ∷ xs) (raws-tasks_of rs)

tasks_of-empty :
    (c : Config) (log : List Effect) (ids : List Text) (rs : List RawRecord)
    → (total_of slot (tasks_of rs) ≡ 0)
      × (total_of holds_permit (tasks_of rs) ≡ 0)
      × (total_of done (tasks_of rs) ≡ 0)
      × AllReady c.durable_writes log ids (tasks_of rs)
unfolding tasks_of total_of slot done holds_permit
tasks_of-empty c log ids [] = (refl, refl, refl, tt)
tasks_of-empty c log ids (r ∷ rs) =
    let ih = tasks_of-empty c log ids rs in (omega arith, omega arith, omega arith, (tt, ih.3))

tasks_of-IsPage :
    (c : Config) (rs : List RawRecord) (b : Board)
    → IsSafe c.durable_writes b.log
    → IsPage c b.remaining (marks b.log) (record { tasks = tasks_of rs; board = b })
tasks_of-IsPage c rs b s =
    let none_yet = tasks_of-empty c b.log b.processed_ids rs in
    record {
      slots_used = omega (arith, none_yet.0);
      permits = omega (arith, none_yet.1);
      counted = omega (arith, none_yet.2);
      safe = s;
      ready = none_yet.3;
    }

-- Whatever the interleaving, the answers and the faults of the flush: a settled page has processed
-- at most `board.remaining` records, has marked exactly as many, each durable when it was marked,
-- and if it is complete then every trackable record of the page is among the processed ids. A page
-- that a fault of the state manager ended has marked no more than `board.remaining`, each durable.
pub process_page-Outcome :
    (c : Config) (schedule : List (ℕ × Answer)) (flush_fault : Option Fault)
    (mark_fault : Text → Option Fault) (records : List RawRecord) (board : Board) (o : Settled)
    → IsSafe c.durable_writes board.log
    → process_page c schedule flush_fault mark_fault records board ≡ some o
    → Outcome c.durable_writes board.remaining (marks board.log) (trackable records) o
unfolding process_page
process_page-Outcome c schedule ff mf records board o s h =
    elim (Option-cases
      (run_schedule c schedule (record { tasks = tasks_of (trackable records); board = board }))) [
        | inl stuck ↦ absurd (ground arith)
        | inr (end, ran) ↦ elim (Option-cases (collect end.tasks)) [
          | inl unfinished ↦ absurd (ground arith)
          | inr (both, q) ↦
              let v =
                run_schedule-IsPage c board.remaining (marks board.log) schedule _ end
                  (tasks_of-IsPage c (trackable records) board s) ran in
              let counted : Counts c.durable_writes end.board.log end.board.processed_ids end.tasks
                  (some both) =
                rw q at (
                  collect-Counts c.durable_writes end.board.log end.board.processed_ids end.tasks
                    v.ready) in
              let same : flush_page ff mf both.1 both.0 end.board ≡ o = ground arith in
              let same_records =
                run_schedule-raws c schedule _ end ran ∙ raws-tasks_of (trackable records) in
              subst (Outcome c.durable_writes board.remaining (marks board.log) (trackable records))
                same
                (subst
                  (λ rs.
                    Outcome c.durable_writes board.remaining (marks board.log) rs
                      (flush_page ff mf both.1 both.0 end.board))
                  same_records
                  (flush_page-Outcome c.durable_writes board.remaining (marks board.log) end.tasks
                    both.0 both.1 end.board ff mf counted v.counted (omega (arith, v.slots_used))
                    v.safe))
        ]
      ]
