-- ===== src/Pipeline/Page/Slots.antt =====
-- What every interleaving of a page keeps: the slots of the budget, the permits of the semaphore,
-- and the order of effects.
use sci_etl_core.Prelude.{
  ℕ, zero, suc, ◌+◌, ◌≤◌, Text, Bool, true, false, List, [], ◌∷◌, Option, none, some, ◌≡◌, refl,
  arith, get_elem?, set, mem, mem-cons, mem_self, text_eq_refl, ap, some_inj, ◌==◌, ◌||◌, inl, inr,
  Bool-cases, Option-cases,
}
use mathlib.Core.Path.{subst}
use sci_etl_core.Models.{RawRecord}
use sci_etl_core.Pipeline.Effects.{
  Effect, wrote, marked, dismissed, was_written, is_durable, IsSafe, marks, was_written-cons,
  is_durable-cons,
}
use sci_etl_core.Pipeline.Page.{
  Config, Phase, Answer, Task, Board, State, queued, judging, dismissing, fetching, ingesting,
  extracting, writing, marking, irrelevant, deferred, processed, written, failed, acquired, judged,
  returned, extracted, raised, reserve, resume, holds_permit, in_flight, total_of, may_resume, step,
  run_schedule,
}

-- Whether a task holds a slot of the budget.
unfoldable pub slot : Phase → ℕ
slot fetching = 1
slot ingesting = 1
slot extracting = 1
slot (writing n) = 1
slot (marking n) = 1
slot (processed n) = 1
slot (written n) = 1
slot _ = 0

unfoldable pub done : Phase → ℕ
done (processed n) = 1
done _ = 0

-- What the log and the processed ids already hold for a task.
abbrev pub Ready : Bool → List Effect → List Text → RawRecord → Phase → Type 0
Ready d log ids r (marking n) = is_durable d r.record_id log ≡ true
Ready d log ids r (written n) = was_written r.record_id log ≡ true
Ready d log ids r (processed n) = mem r.record_id ids ≡ true
Ready d log ids r irrelevant = mem r.record_id ids ≡ true
Ready d log ids r _ = Unit

-- What they hold for any task survives.
abbrev Covers : Bool → List Effect → List Text → List Effect → List Text → Type 0
Covers d log ids log' ids' =
    (r : RawRecord) (p : Phase) → Ready d log ids r p → Ready d log' ids' r p

Covers-log :
    (d : Bool) (e : Effect) (log : List Effect) (ids : List Text) → Covers d log ids (e ∷ log) ids
Covers-log d e log ids r (marking n) h = is_durable-cons d r.record_id e log h
Covers-log d e log ids r (written n) h = was_written-cons r.record_id e log h
Covers-log d e log ids r (processed n) h = h
Covers-log d e log ids r irrelevant h = h
Covers-log d e log ids r _ h = tt

Covers-done :
    (d : Bool) (e : Effect) (id : Text) (log : List Effect) (ids : List Text)
    → Covers d log ids (e ∷ log) (id ∷ ids)
Covers-done d e id log ids r (marking n) h = is_durable-cons d r.record_id e log h
Covers-done d e id log ids r (written n) h = was_written-cons r.record_id e log h
Covers-done d e id log ids r (processed n) h = mem-cons r.record_id id ids h
Covers-done d e id log ids r irrelevant h = mem-cons r.record_id id ids h
Covers-done d e id log ids r _ h = tt

record Reaction (c : Config) (r : RawRecord) (p : Phase) (b : Board) (p' : Phase) (b' : Board)
    : Type 0 where
  slots : b'.remaining + slot p' ≡ b.remaining + slot p
  counts : marks b'.log + done p ≡ marks b.log + done p'
  covers : Covers c.durable_writes b.log b.processed_ids b'.log b'.processed_ids
  safe :
      IsSafe c.durable_writes b.log
      → Ready c.durable_writes b.log b.processed_ids r p
      → IsSafe c.durable_writes b'.log
  ready :
      Ready c.durable_writes b.log b.processed_ids r p
      → Ready c.durable_writes b'.log b'.processed_ids r p'

abbrev Reacts : Config → RawRecord → Phase → Board → Option (Phase × Board) → Type 0
Reacts c r p b none = Unit
Reacts c r p b (some (p', b')) = Reaction c r p b p' b'

resume-Reacts :
    (c : Config) (r : RawRecord) (p : Phase) (a : Answer) (b : Board)
    → Reacts c r p b (resume c r p a b)
unfolding resume slot done marks was_written is_durable
resume-Reacts c r queued (acquired stop) b = elim (Bool-cases ((b.remaining == 0) || stop)) [
  | inl full ↦ rw full (record {
    slots = omega arith;
    counts = refl;
    covers = λ r' p' h. h;
    safe = λ s h. s;
    ready = λ h. tt;
  })
  | inr free ↦ rw free (record {
    slots = omega arith;
    counts = refl;
    covers = λ r' p' h. h;
    safe = λ s h. s;
    ready = λ h. tt;
  })
]
resume-Reacts c r judging (judged true) b = elim (Bool-cases (b.remaining == 0)) [
  | inl full ↦
      rw (full, reserve)
        (record {
          slots = omega arith;
          counts = refl;
          covers = λ r' p' h. h;
          safe = λ s h. s;
          ready = λ h. tt;
        })
  | inr free ↦
      rw (free, reserve)
        (record {
          slots = ground arith;
          counts = refl;
          covers = λ r' p' h. h;
          safe = λ s h. s;
          ready = λ h. tt;
        })
]
resume-Reacts c r judging (judged false) b = record {
  slots = omega arith;
  counts = refl;
  covers = λ r' p' h. h;
  safe = λ s h. s;
  ready = λ h. tt;
}
resume-Reacts c r judging (raised e) b = record {
  slots = omega arith;
  counts = refl;
  covers = λ r' p' h. h;
  safe = λ s h. s;
  ready = λ h. tt;
}
resume-Reacts c r dismissing returned b = record {
  slots = omega arith;
  counts = refl;
  covers = Covers-done c.durable_writes (dismissed r.record_id) r.record_id b.log b.processed_ids;
  safe = λ s h. s;
  ready = λ h. mem_self r.record_id b.processed_ids;
}
resume-Reacts c r dismissing (raised e) b = record {
  slots = omega arith;
  counts = refl;
  covers = λ r' p' h. h;
  safe = λ s h. s;
  ready = λ h. tt;
}
resume-Reacts c r fetching returned b = elim (Bool-cases c.has_memory) [
  | inl e ↦ rw e (record {
    slots = omega arith;
    counts = refl;
    covers = λ r' p' h. h;
    safe = λ s h. s;
    ready = λ h. tt;
  })
  | inr e ↦ rw e (record {
    slots = omega arith;
    counts = refl;
    covers = λ r' p' h. h;
    safe = λ s h. s;
    ready = λ h. tt;
  })
]
resume-Reacts c r fetching (raised e) b = record {
  slots = omega arith;
  counts = refl;
  covers = λ r' p' h. h;
  safe = λ s h. s;
  ready = λ h. tt;
}
resume-Reacts c r ingesting returned b = record {
  slots = omega arith;
  counts = refl;
  covers = λ r' p' h. h;
  safe = λ s h. s;
  ready = λ h. tt;
}
resume-Reacts c r ingesting (raised e) b = elim (Bool-cases e.is_memory_fault) [
  | inl m ↦ rw m (record {
    slots = omega arith;
    counts = refl;
    covers = λ r' p' h. h;
    safe = λ s h. s;
    ready = λ h. tt;
  })
  | inr m ↦ rw m (record {
    slots = omega arith;
    counts = refl;
    covers = λ r' p' h. h;
    safe = λ s h. s;
    ready = λ h. tt;
  })
]
resume-Reacts c r extracting (extracted n) b = record {
  slots = omega arith;
  counts = refl;
  covers = λ r' p' h. h;
  safe = λ s h. s;
  ready = λ h. tt;
}
resume-Reacts c r extracting (raised e) b = record {
  slots = omega arith;
  counts = refl;
  covers = λ r' p' h. h;
  safe = λ s h. s;
  ready = λ h. tt;
}
resume-Reacts c r (writing n) returned b = elim (Bool-cases c.durable_writes) [
  | inl d ↦ rw d (record {
    slots = omega arith;
    counts = refl;
    covers = Covers-log true (wrote r.record_id) b.log b.processed_ids;
    safe = λ s h. s;
    ready = λ h. rw text_eq_refl;
  })
  | inr d ↦ rw d (record {
    slots = omega arith;
    counts = refl;
    covers = Covers-log false (wrote r.record_id) b.log b.processed_ids;
    safe = λ s h. s;
    ready = λ h. rw text_eq_refl;
  })
]
resume-Reacts c r (writing n) (raised e) b = record {
  slots = omega arith;
  counts = refl;
  covers = λ r' p' h. h;
  safe = λ s h. s;
  ready = λ h. tt;
}
resume-Reacts c r (marking n) returned b = record {
  slots = omega arith;
  counts = omega arith;
  covers = Covers-done c.durable_writes (marked r.record_id) r.record_id b.log b.processed_ids;
  safe = λ s h. (h, s);
  ready = λ h. mem_self r.record_id b.processed_ids;
}
resume-Reacts c r (marking n) (raised e) b = record {
  slots = omega arith;
  counts = refl;
  covers = λ r' p' h. h;
  safe = λ s h. s;
  ready = λ h. tt;
}
resume-Reacts c r phase answer b = tt

abbrev pub AllReady : Bool → List Effect → List Text → List Task → Type 0
AllReady d log ids [] = Unit
AllReady d log ids (t ∷ ts) = Ready d log ids t.raw t.phase × AllReady d log ids ts

-- What holds of a page between steps: `budget` slots in all, and `base` records marked before it.
pub record IsPage (c : Config) (budget base : ℕ) (s : State) : Type 0 where
  pub slots_used : s.board.remaining + total_of slot s.tasks ≡ budget
  pub permits : in_flight s.tasks ≤ c.max_concurrency
  pub counted : marks s.board.log ≡ base + total_of done s.tasks
  pub safe : IsSafe c.durable_writes s.board.log
  pub ready : AllReady c.durable_writes s.board.log s.board.processed_ids s.tasks

total_of-set :
    (f : Phase → ℕ) (ts : List Task) (i : ℕ) (t' : Task) {t : Task}
    → get_elem? ts i ≡ some t
    → total_of f (set ts i t') + f t.phase ≡ total_of f ts + f t'.phase
unfolding total_of
total_of-set f [] i t' h = cc
total_of-set f (x ∷ ts) zero t' h = omega (arith, ap (λ (u : Task). f u.phase) (some_inj h))
total_of-set f (x ∷ ts) (suc i) t' {t = t} h = omega (arith, total_of-set f ts i t' {t = t} h)

-- The facts of all tasks survive a longer log.
AllReady-mono :
    (d : Bool) (log : List Effect) (ids : List Text) (log' : List Effect) (ids' : List Text)
    → Covers d log ids log' ids'
    → (ts : List Task) → AllReady d log ids ts
    → AllReady d log' ids' ts
AllReady-mono d log ids log' ids' h [] a = tt
AllReady-mono d log ids log' ids' h (t ∷ ts) a =
    (h t.raw t.phase a.0, AllReady-mono d log ids log' ids' h ts a.1)

module _ (d : Bool) (log : List Effect) (ids : List Text) where
  AllReady-set :
      (ts : List Task) (i : ℕ) (t' : Task)
      → AllReady d log ids ts
      → Ready d log ids t'.raw t'.phase
      → AllReady d log ids (set ts i t')
  AllReady-set [] i t' a r = tt
  AllReady-set (x ∷ ts) zero t' a r = (r, a.1)
  AllReady-set (x ∷ ts) (suc i) t' a r = (a.0, AllReady-set ts i t' a.1 r)

  AllReady-get :
      (ts : List Task) (i : ℕ) {t : Task}
      → AllReady d log ids ts
      → get_elem? ts i ≡ some t
      → Ready d log ids t.raw t.phase
  AllReady-get [] i a h = cc
  AllReady-get (x ∷ ts) zero a h = subst (λ u. Ready d log ids u.raw u.phase) (some_inj h) a.0
  AllReady-get (x ∷ ts) (suc i) a h = AllReady-get ts i a.1 h

-- Putting a reaction back among the tasks.
settle-IsPage :
    (c : Config) (budget base i : ℕ) (t : Task) (s : State) (p' : Phase) (b' : Board)
    → IsPage c budget base s
    → get_elem? s.tasks i ≡ some t
    → Reaction c t.raw t.phase s.board p' b'
    → total_of holds_permit (set s.tasks i (record { raw = t.raw; phase = p' })) ≤ c.max_concurrency
    → IsPage c budget base
        (record { tasks = set s.tasks i (record { raw = t.raw; phase = p' }); board = b' })
settle-IsPage c budget base i t s p' b' v h r permits =
    let t' : Task = record { raw = t.raw; phase = p' } in
    let own =
      AllReady-get c.durable_writes s.board.log s.board.processed_ids s.tasks i {t = t} v.ready h in
    record {
      slots_used = omega (arith, v.slots_used, r.slots, total_of-set slot s.tasks i t' {t = t} h);
      permits = permits;
      counted = omega (arith, v.counted, r.counts, total_of-set done s.tasks i t' {t = t} h);
      safe = r.safe v.safe own;
      ready =
          AllReady-set c.durable_writes b'.log b'.processed_ids s.tasks i t'
            (AllReady-mono c.durable_writes s.board.log s.board.processed_ids b'.log
              b'.processed_ids r.covers s.tasks v.ready)
            (r.ready own);
    }

permit-le_one : (p : Phase) → holds_permit p ≤ 1
unfolding holds_permit
permit-le_one queued = omega arith
permit-le_one _ = omega arith

-- A reaction takes no permit, but for the one that a queued task has been given.
resume-permit :
    (c : Config) (r : RawRecord) (p : Phase) (a : Answer) (b : Board) (ts : List Task)
    → may_resume c p ts ≡ true
    → total_of holds_permit ts ≤ c.max_concurrency
    → (p' : Phase) (b' : Board) → resume c r p a b ≡ some (p', b')
    → total_of holds_permit ts + holds_permit p' ≤ c.max_concurrency + holds_permit p
unfolding may_resume
resume-permit c r queued a b ts m l p' b' h = grind (arith, permit-le_one p')
resume-permit c r irrelevant a b ts m l p' b' h = unfold resume in cc
resume-permit c r deferred a b ts m l p' b' h = unfold resume in cc
resume-permit c r (processed n) a b ts m l p' b' h = unfold resume in cc
resume-permit c r (written n) a b ts m l p' b' h = unfold resume in cc
resume-permit c r (failed e) a b ts m l p' b' h = unfold resume in cc
resume-permit c r judging a b ts m l p' b' h =
    unfold holds_permit in omega (arith, l, permit-le_one p')
resume-permit c r dismissing a b ts m l p' b' h =
    unfold holds_permit in omega (arith, l, permit-le_one p')
resume-permit c r fetching a b ts m l p' b' h =
    unfold holds_permit in omega (arith, l, permit-le_one p')
resume-permit c r ingesting a b ts m l p' b' h =
    unfold holds_permit in omega (arith, l, permit-le_one p')
resume-permit c r extracting a b ts m l p' b' h =
    unfold holds_permit in omega (arith, l, permit-le_one p')
resume-permit c r (writing n) a b ts m l p' b' h =
    unfold holds_permit in omega (arith, l, permit-le_one p')
resume-permit c r (marking n) a b ts m l p' b' h =
    unfold holds_permit in omega (arith, l, permit-le_one p')

step-IsPage :
    (c : Config) (budget base : ℕ) (e : ℕ × Answer) (s : State)
    → IsPage c budget base s
    → (s' : State) → step c e s ≡ some s'
    → IsPage c budget base s'
unfolding step
step-IsPage c budget base (i, answer) s v s' h = elim (Option-cases (get_elem? s.tasks i)) [
  | inl absent ↦ absurd (ground arith)
  | inr (t, there) ↦ elim (Bool-cases (may_resume c t.phase s.tasks)) [
    | inr waits ↦ absurd (ground arith)
    | inl may ↦ elim (Option-cases (resume c t.raw t.phase answer s.board)) [
      | inl stuck ↦ absurd (ground arith)
      | inr (next, q) ↦
          let t' : Task = record { raw = t.raw; phase = next.0 } in
          let moved : State = record { tasks = set s.tasks i t'; board = next.1 } in
          let same : moved ≡ s' = ground arith in
          let r : Reaction c t.raw t.phase s.board next.0 next.1 =
            rw q at (resume-Reacts c t.raw t.phase answer s.board) in
          let permit =
            resume-permit c t.raw t.phase answer s.board s.tasks may v.permits next.0 next.1 q in
          subst (IsPage c budget base) same (
            settle-IsPage c budget base i t s next.0 next.1 v there r
              (omega (arith, total_of-set holds_permit s.tasks i t' {t = t} there)))
    ]
  ]
]

-- Any interleaving of a page's tasks keeps it well formed: no more tasks run than there are
-- permits, the slots held and left are the budget, as many records are marked as tasks have ended
-- as processed, and each was durable when it was marked.
pub run_schedule-IsPage :
    (c : Config) (budget base : ℕ) (es : List (ℕ × Answer)) (s s' : State)
    → IsPage c budget base s
    → run_schedule c es s ≡ some s'
    → IsPage c budget base s'
unfolding run_schedule
run_schedule-IsPage c budget base [] s s' v h = subst (IsPage c budget base) (some_inj h) v
run_schedule-IsPage c budget base (e ∷ es) s s' v h = elim (Option-cases (step c e s)) [
  | inl stuck ↦ absurd (ground arith)
  | inr (s₁, q) ↦
      run_schedule-IsPage c budget base es s₁ s' (step-IsPage c budget base e s v s₁ q)
        (ground arith)
]
