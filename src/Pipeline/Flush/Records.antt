-- ===== src/Pipeline/Flush/Records.antt =====
-- A schedule moves tasks between phases and leaves their records.
use sci_etl_core.Prelude.{
  ℕ, zero, suc, List, [], ◌∷◌, some, ◌≡◌, arith, some_inj, inl, inr, Bool-cases, Option-cases, ap,
  sym, ◌∙◌, get_elem?, set,
}
use mathlib.Core.Path.{subst}
use sci_etl_core.Models.{RawRecord}
use sci_etl_core.Pipeline.Page.{
  Config, Phase, Answer, Task, State, run_schedule, may_resume, resume, step,
}

unfoldable pub raws : List Task → List RawRecord
raws [] = []
raws (t ∷ ts) = t.raw ∷ raws ts

raws-set :
    (ts : List Task) (i : ℕ) (p : Phase) {t : Task}
    → get_elem? ts i ≡ some t
    → raws (set ts i (record { raw = t.raw; phase = p })) ≡ raws ts
unfolding raws
raws-set [] i p h = cc
raws-set (x ∷ ts) zero p {t} h = ap (λ (u : Task). u.raw ∷ raws ts) (sym (some_inj h))
raws-set (x ∷ ts) (suc i) p {t} h = ap (λ rs. x.raw ∷ rs) (raws-set ts i p h)

step-raws :
    (c : Config) (e : ℕ × Answer) (s s' : State)
    → step c e s ≡ some s'
    → raws s'.tasks ≡ raws s.tasks
unfolding step
step-raws c (i, answer) s s' h = elim (Option-cases (get_elem? s.tasks i)) [
  | inl absent ↦ absurd (ground arith)
  | inr (t, there) ↦ elim (Bool-cases (may_resume c t.phase s.tasks)) [
    | inr waits ↦ absurd (ground arith)
    | inl may ↦ elim (Option-cases (resume c t.raw t.phase answer s.board)) [
      | inl stuck ↦ absurd (ground arith)
      | inr (next, q) ↦
          let t' : Task = record { raw = t.raw; phase = next.0 } in
          let moved : State = record { tasks = set s.tasks i t'; board = next.1 } in
          let same : moved ≡ s' = ground arith in
          subst (λ (u : State). raws u.tasks ≡ raws s.tasks) same (raws-set s.tasks i next.0 there)
    ]
  ]
]

pub run_schedule-raws :
    (c : Config) (es : List (ℕ × Answer)) (s s' : State)
    → run_schedule c es s ≡ some s'
    → raws s'.tasks ≡ raws s.tasks
unfolding run_schedule
run_schedule-raws c [] s s' h = ap (λ (u : State). raws u.tasks) (sym (some_inj h))
run_schedule-raws c (e ∷ es) s s' h = elim (Option-cases (step c e s)) [
  | inl stuck ↦ absurd (ground arith)
  | inr (s₁, q) ↦ run_schedule-raws c es s₁ s' (ground arith) ∙ step-raws c e s s₁ q
]
