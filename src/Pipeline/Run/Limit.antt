-- ===== src/Pipeline/Run/Limit.antt =====
-- What every run keeps, whatever the source, the collaborators and the schedules do.
use sci_etl_core.Prelude.{
  ℕ, ◌+◌, ◌-◌, ◌≤◌, Text, Bool, true, false, not, ◌&&◌, List, [], ◌∷◌, Option, none, some, ◌==◌,
  if◌then◌else◌, ltb, leb, ◌≡◌, refl, arith, inl, inr, Bool-cases, some_inj,
}
use mathlib.Core.Path.{subst}
use sci_etl_core.Models.{RawRecord, ListingPage, PipelineMetadata}
use sci_etl_core.Listing.Position.{listing_ends}
use sci_etl_core.Pipeline.Effects.{Fault, Effect, IsSafe, marks}
use sci_etl_core.Pipeline.Flush.{
  PageResult, complete, stalled, Settled, finished, faulted, process_page, trackable,
}
use sci_etl_core.Pipeline.Flush.Total.{Outcome, process_page-Outcome}
use sci_etl_core.Pipeline.Position.{metadata_of, advance, truncate, restart}
use sci_etl_core.Pipeline.Run.{
  Turn, Fetch, Status, Limits, Run, running, completed, stall, raised, listed, stopped, stale,
  stale_again, broken, save, account, finish_turn, settle_turn, board_of, page_turn, fetch_turn,
  turn, run_pages, unprocessed,
}

-- No more than `total_limit` records were processed, as many were marked, each once durable.
abbrev pub IsCounted : Limits → ℕ → List Effect → Type 0
IsCounted l total log =
    (total ≤ l.total_limit) × (marks log ≡ total) × IsSafe l.config.durable_writes log

-- What holds where a turn ends; under a fault of the state manager the count may lag behind.
abbrev pub IsSound : Limits → Run → Status → Type 0
IsSound l s running = IsCounted l s.total_processed s.log × (s.stalled_pages ≤ 1)
IsSound l s (raised e) = (marks s.log ≤ l.total_limit) × IsSafe l.config.durable_writes s.log
IsSound l s _ = IsCounted l s.total_processed s.log

-- A record, so that it waits for its result to be written out.
record Sound (l : Limits) (r : Run × Status) : Type 0 where
  holds : IsSound l r.0 r.1

abbrev MaySound : Limits → Option (Run × Status) → Type 0
MaySound l none = Unit
MaySound l (some r) = Sound l r

if-Sound :
    (l : Limits) (b : Bool) (x y : Run × Status)
    → (b ≡ true → Sound l x)
    → (b ≡ false → Sound l y)
    → Sound l (if b then x else y)
if-Sound l true x y hx hy = hx refl
if-Sound l false x y hx hy = hy refl

more-Sound :
    (l : Limits) (b : Bool) (s : Run)
    → IsSound l s running
    → Sound l (s, if b then running else completed)
more-Sound l true s h = record { holds = h }
more-Sound l false s h = record { holds = h.0 }

save-Sound :
    (l : Limits) (f : Option Fault) (next : Status) (s : Run)
    → IsCounted l s.total_processed s.log
    → ((m : PipelineMetadata) → Sound l (record s { saved = some m }, next))
    → Sound l (save f next s)
unfolding save
save-Sound l none next s h k = k (metadata_of s.position)
save-Sound l (some e) next s h k = record { holds = (omega (arith, h.0, h.1), h.2) }

finish_turn-Sound :
    (l : Limits) (t : Turn) (page : ListingPage) (settled : Bool) (s : Run)
    → IsSound l s running
    → Sound l (finish_turn t page settled s)
unfolding finish_turn
finish_turn-Sound l t page settled s h =
    let truncated : Run = record s { position = truncate s.position } in
    let ahead = advance s.position page settled in
    let advanced : Run = record s { position = ahead.0 } in
    let next : Status = if ahead.1 then running else completed in
    let cut = save t.save_fault completed truncated in
    let on = save t.save_fault next advanced in
    let after : Run × Status = if page.truncated then cut else on in
    if-Sound l (not (s.stalled_pages == 0) && listing_ends page) (s, stall s.last_failure) after
      (λ _. record { holds = h.0 })
      (λ _.
        if-Sound l page.truncated cut on
          (λ _. save-Sound l t.save_fault completed truncated h.0 (λ m. record { holds = h.0 }))
          (λ _.
            save-Sound l t.save_fault next advanced h.0
              (λ m. more-Sound l ahead.1 (record advanced { saved = some m }) h)))

-- What a processed page leaves, with the counters not yet brought up to date.
account-IsCounted :
    (l : Limits) (page : PageResult) (s : Run) (base : ℕ)
    → base + page.processed ≤ l.total_limit
    → s.total_processed ≡ base
    → marks s.log ≡ base + page.processed
    → IsSafe l.config.durable_writes s.log
    → IsCounted l (account l page s).total_processed (account l page s).log
unfolding account
account-IsCounted l page s base a b c d = (omega (arith, a, b), omega (arith, b, c), d)

account_stalls :
    (l : Limits) (page : PageResult) (s : Run)
    → s.stalled_pages ≤ 1
    → (stalled page && leb 2 (account l page s).stalled_pages) ≡ false
    → (account l page s).stalled_pages ≤ 1
unfolding account
account_stalls l page s h g = ground arith

settle_turn-Sound :
    (l : Limits) (t : Turn) (page : ListingPage) (o : Settled) (s : Run) (rs : List RawRecord)
    → s.total_processed ≤ l.total_limit
    → s.stalled_pages ≤ 1
    → Outcome l.config.durable_writes (l.total_limit - s.total_processed) s.total_processed rs o
    → Sound l (settle_turn l t page o s)
unfolding settle_turn
settle_turn-Sound l t page (faulted e b) s rs le st o = record {
  holds = (omega (arith, le, o.within), o.safe);
}
settle_turn-Sound l t page (finished result b) s rs le st o =
    if-Sound l (stalled result && leb 2 after.stalled_pages) (after, stall after.last_failure)
      (finish_turn t page (complete result) after) (λ _. record { holds = now })
      (λ g.
        finish_turn-Sound l t page (complete result) after
          (now, account_stalls l result before st g))
  where
    before : Run
    before = record s {
      processed_ids = b.processed_ids;
      log = b.log;
      memory_faults = b.memory_faults;
    }

    after : Run
    after = account l result before

    now : IsCounted l after.total_processed after.log
    now =
        account-IsCounted l result before s.total_processed (omega (arith, le, o.within)) refl
          o.counted o.safe

page_turn-Sound :
    (l : Limits) (t : Turn) (page : ListingPage) (s : Run)
    → IsSound l s running
    → MaySound l (page_turn l t page s)
unfolding page_turn board_of
page_turn-Sound l t page s h = elim (Bool-cases (page.entries == 0)) [
  | inl blank ↦ rw blank (finish_turn-Sound l t page _ (record s { reported = todo.1 }) h)
  | inr entries ↦ rw entries (
      go (process_page l.config t.schedule t.flush_fault t.mark_fault todo.0 (board_of l s))
        outcome)
]
  where
    todo : List RawRecord × List Text
    todo = unprocessed s.processed_ids l.quarantined page.records s.reported

    outcome :
        (o : Settled)
        → process_page l.config t.schedule t.flush_fault t.mark_fault todo.0 (board_of l s) ≡ some o
        → Outcome l.config.durable_writes
            (l.total_limit - s.total_processed)
            s.total_processed
            (trackable todo.0)
            o
    outcome o q =
        subst
          (λ n.
            Outcome l.config.durable_writes (l.total_limit - s.total_processed) n (trackable todo.0)
              o)
          h.0.1
          (process_page-Outcome l.config t.schedule t.flush_fault t.mark_fault todo.0 (board_of l s)
            o h.0.2 q)

    go :
        (r : Option Settled)
        → ((o : Settled)
            → r ≡ some o
            → Outcome l.config.durable_writes
                (l.total_limit - s.total_processed)
                s.total_processed
                (trackable todo.0)
                o)
        → MaySound l (elim r [
          | none ↦ none
          | some settled ↦ some (settle_turn l t page settled (record s { reported = todo.1 }))
        ])
    go none k = tt
    go (some o) k =
        settle_turn-Sound l t page o (record s { reported = todo.1 }) (trackable todo.0) h.0.0 h.1
          (k o refl)

fetch_turn-Sound :
    (l : Limits) (t : Turn) (f : Fetch) (s : Run)
    → IsSound l s running
    → MaySound l (fetch_turn l t f s)
unfolding fetch_turn
fetch_turn-Sound l t (listed page) s h = page_turn-Sound l t page s h
fetch_turn-Sound l t stopped s h = record { holds = h.0 }
fetch_turn-Sound l t stale s h =
    let again : Run = record s { restarted = true; position = restart s.position } in
    if-Sound l s.restarted (s, stale_again) (save t.save_fault running again)
      (λ _. record { holds = h.0 })
      (λ _. save-Sound l t.save_fault running again h.0 (λ m. record { holds = h }))
fetch_turn-Sound l t Fetch.malformed s h = record { holds = h.0 }
fetch_turn-Sound l t Fetch.unavailable s h = record { holds = h.0 }
fetch_turn-Sound l t (broken e) s h = record { holds = (omega (arith, h.0.0, h.0.1), h.0.2) }

turn-Sound : (l : Limits) (t : Turn) (s : Run) → IsSound l s running → MaySound l (turn l t s)
unfolding turn
turn-Sound l t s h = elim (Bool-cases (ltb s.total_processed l.total_limit)) [
  | inr full ↦ rw full (record { holds = h.0 })
  | inl room ↦ elim (Bool-cases t.stop) [
    | inl stop ↦ rw (room, stop) (record { holds = h.0 })
    | inr go ↦ rw (room, go) (fetch_turn-Sound l (record t { stop = false }) t.fetch s h)
  ]
]

-- From a run that has not ended, whatever the turns: at most `total_limit` records are processed,
-- exactly as many are marked by the state manager, each of them durable in the exporter when it was
-- marked, and a run that goes on has at most one stalled page. A run that a fault of a collaborator
-- ends has marked no more than `total_limit`, each durable.
pub run_pages-IsSound :
    (l : Limits) (ts : List Turn) (s : Run)
    → IsSound l s running
    → (r : Run × Status) → run_pages l ts s ≡ some r
    → IsSound l r.0 r.1
unfolding run_pages
run_pages-IsSound l [] s h r q = subst (λ x. IsSound l x.0 x.1) (some_inj q) h
run_pages-IsSound l (t ∷ ts) s h r q =
    go (λ s'. run_pages-IsSound l ts s') (turn l t s) (turn-Sound l t s h) q
  where
    go :
        ((s' : Run)
          → IsSound l s' running
          → (x : Run × Status) → run_pages l ts s' ≡ some x
          → IsSound l x.0 x.1)
        → (o : Option (Run × Status)) → MaySound l o
        → elim o [
          | none ↦ none
          | some (s', running) ↦ run_pages l ts s'
          | some (s', status) ↦ some (s', status)
        ]
          ≡ some r
        → IsSound l r.0 r.1
    go rec none k e = cc
    go rec (some (s', running)) k e = rec s' k.holds r e
    go rec (some (s', status)) k e = subst (λ x. IsSound l x.0 x.1) (some_inj e) k.holds
