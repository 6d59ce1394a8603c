-- ===== src/Pipeline/Flush/Counted.antt =====
-- The loop of `_process_page` over the results of its tasks.
use sci_etl_core.Prelude.{
  ◌+◌, Text, Bool, true, List, [], ◌∷◌, Option, none, some, ◌≡◌, refl, arith, length, mem,
}
use sci_etl_core.Models.{RawRecord}
use sci_etl_core.Pipeline.Effects.{Effect, was_written}
use sci_etl_core.Pipeline.Page.{
  Phase, Task, irrelevant, deferred, processed, written, failed, total_of,
}
use sci_etl_core.Pipeline.Page.Slots.{slot, done, Ready, AllReady}
use sci_etl_core.Pipeline.Flush.{PageResult, count_in, collect}

abbrev pub AllKnown : List Text → List RawRecord → Type 0
AllKnown ids [] = Unit
AllKnown ids (r ∷ rs) = (mem r.record_id ids ≡ true) × AllKnown ids rs

abbrev pub AllWritten : List Effect → List RawRecord → Type 0
AllWritten log [] = Unit
AllWritten log (r ∷ rs) = (was_written r.record_id log ≡ true) × AllWritten log rs

-- Each task is known, or waits for the flush.
abbrev pub Accounted : List Text → List RawRecord → List Task → Type 0
Accounted ids pending [] = Unit
Accounted ids pending (t ∷ ts) =
    ((ids' : List Text)
      → ((x : Text) → mem x ids ≡ true → mem x ids' ≡ true)
      → AllKnown ids' pending
      → mem t.raw.record_id ids' ≡ true)
    × Accounted ids pending ts

-- What the loop over the results has counted.
pub record Counted (d : Bool) (log : List Effect) (ids : List Text) (ts : List Task)
    (page : PageResult) (pending : List RawRecord) : Type 0 where
  pub dones : page.processed ≡ total_of done ts
  pub slots : page.processed + length pending ≡ total_of slot ts
  pub unflushed : page.unflushed ≡ 0
  pub pending_written : AllWritten log pending
  pub settled : page.failures ≡ [] → page.deferred ≡ 0 → Accounted ids pending ts

Accounted-cons :
    (ids : List Text) (r : RawRecord) (pending : List RawRecord) (ts : List Task)
    → Accounted ids pending ts
    → Accounted ids (r ∷ pending) ts
Accounted-cons ids r pending [] a = tt
Accounted-cons ids r pending (t ∷ ts) a =
    ((λ ids' sub known. a.0 ids' sub known.1), Accounted-cons ids r pending ts a.1)

abbrev pub Counts :
    Bool → List Effect → List Text → List Task → Option (PageResult × List RawRecord) → Type 0
Counts d log ids ts none = Unit
Counts d log ids ts (some (page, pending)) = Counted d log ids ts page pending

module _ (d : Bool) (log : List Effect) (ids : List Text) where
  count_in-Counts :
      (r : RawRecord) (p : Phase) (ts : List Task) (page : PageResult) (pending : List RawRecord)
      → Ready d log ids r p
      → Counted d log ids ts page pending
      → Counts d log ids (record { raw = r; phase = p } ∷ ts) (count_in r p (page, pending))
  unfolding count_in total_of slot done
  count_in-Counts r (failed e) ts page pending w h = record {
    dones = omega (arith, h.dones);
    slots = omega (arith, h.slots);
    unflushed = h.unflushed;
    pending_written = h.pending_written;
    settled = λ none_failed _. absurd (ground arith);
  }
  count_in-Counts r (written n) ts page pending w h = record {
    dones = omega (arith, h.dones);
    slots = omega (arith, h.slots);
    unflushed = h.unflushed;
    pending_written = (w, h.pending_written);
    settled = λ f e. ((λ ids' sub known. known.0), Accounted-cons ids r pending ts (h.settled f e));
  }
  count_in-Counts r deferred ts page pending w h = record {
    dones = omega (arith, h.dones);
    slots = omega (arith, h.slots);
    unflushed = h.unflushed;
    pending_written = h.pending_written;
    settled = λ _ e. absurd (omega arith);
  }
  count_in-Counts r (processed n) ts page pending w h = record {
    dones = omega (arith, h.dones);
    slots = omega (arith, h.slots);
    unflushed = h.unflushed;
    pending_written = h.pending_written;
    settled = λ f e. ((λ ids' sub known. sub r.record_id w), h.settled f e);
  }
  count_in-Counts r irrelevant ts page pending w h = record {
    dones = omega (arith, h.dones);
    slots = omega (arith, h.slots);
    unflushed = h.unflushed;
    pending_written = h.pending_written;
    settled = λ f e. ((λ ids' sub known. sub r.record_id w), h.settled f e);
  }
  count_in-Counts r phase ts page pending w h = tt

  pub collect-Counts : (ts : List Task) → AllReady d log ids ts → Counts d log ids ts (collect ts)
  unfolding collect
  collect-Counts [] a =
      unfold total_of in
      record {
        dones = refl;
        slots = refl;
        unflushed = refl;
        pending_written = tt;
        settled = λ f e. tt;
      }
  collect-Counts (t ∷ ts) a = go (collect ts) (collect-Counts ts a.1)
    where
      go :
          (o : Option (PageResult × List RawRecord))
          → Counts d log ids ts o
          → Counts d log ids
              (t ∷ ts)
              (elim o [ none ↦ none | some acc ↦ count_in t.raw t.phase acc ])
      go none h = tt
      go (some (page, pending)) h = count_in-Counts t.raw t.phase ts page pending a.0 h
