-- ===== src/Search/Evaluate/Near/Choice.antt =====
-- Choices of one position for each operand that lie in a window, and the rounds of `_walk_near`.
use sci_etl_core.Prelude.{
  ℕ, suc, ◌+◌, max, ◌≤◌, ◌≡◌, refl, sym, ap, subst, Bool, true, false, ◌&&◌, List, [], ◌∷◌, none,
  some, some_inj, length, ltb, leb, Bool-cases, Option-cases, inl, inr, arith,
}
use sci_etl_core.Search.Evaluate.Starts.{has}
use sci_etl_core.Search.Evaluate.Near.{
  Operand, skip, Round, sweep, looks_before, least, advance_first, advance_least, remaining,
}
use sci_etl_core.Search.Evaluate.Near.Rounds.{
  skip-Skips, stays, moves, sweep-First, sweep-nil, all_within,
}

skip-has :
    (latest span distance current t : ℕ) (later : List ℕ) (o : Operand)
    → skip latest span distance current later ≡ some o
    → has (o.current ∷ o.later) t ≡ true
    → has (current ∷ later) t ≡ true
unfolding skip has
skip-has latest span distance current t [] o e h = ground (arith, e, h)
skip-has latest span distance current t (n ∷ later) o e h =
    elim (Bool-cases (ltb (current + span + distance) latest)) [
      | inl far ↦
          let rest = skip-has latest span distance n t later o (rw (skip, far) at e) h in
          ground (arith, rest)
      | inr close ↦ ground (arith, e, close, h)
    ]

-- One operand moves to its next position.
pub data Advances : List Operand → List Operand → Type 0 where
  move :
      (o o' : Operand) (os : List Operand)
      → o.later ≡ o'.current ∷ o'.later
      → o'.span ≡ o.span
      → Advances (o ∷ os) (o' ∷ os)
  pass : (o : Operand) {os os' : List Operand} → Advances os os' → Advances (o ∷ os) (o ∷ os')

advance_first-Advances :
    (best : List ℕ) (os os' : List Operand) → advance_first best os ≡ some os' → Advances os os'
unfolding advance_first
advance_first-Advances best [] os' e = ground (arith, e)
advance_first-Advances best (o ∷ os) os' e = elim (Bool-cases (looks_before o.later best)) [
  | inl first ↦ moved o.later refl (rw (advance_first, first) at e)
  | inr not_first ↦ elim (Option-cases (advance_first best os)) [
    | inl ends ↦ ground (arith, e, not_first, ends)
    | inr (rest, more) ↦
        let same : some (o ∷ rest) ≡ some os' = ground (arith, e, not_first, more) in
        subst (λ (x : List Operand). Advances (o ∷ os) x) (some_inj same)
          (pass o (advance_first-Advances best os rest more))
  ]
]
  where
    moved :
        (later : List ℕ)
        → o.later ≡ later
        → (elim later [
          | [] ↦ none
          | next ∷ later ↦ some (record o { current = next; later = later } ∷ os)
        ])
          ≡ some os'
        → Advances (o ∷ os) os'
    moved [] same h = absurd (cc h)
    moved (n ∷ ns) same h =
        subst (λ (x : List Operand). Advances (o ∷ os) x) (some_inj h)
          (move o (record o { current = n; later = ns }) os same refl)

held :
    (o o' : Operand)
    → o.later ≡ o'.current ∷ o'.later
    → (t : ℕ) → has (o'.current ∷ o'.later) t ≡ true
    → has (o.current ∷ o.later) t ≡ true
unfolding has
held o o' later t h = ground (arith, h, ap (λ (l : List ℕ). has l t) later)

pub Advances-remaining :
    {os os' : List Operand} → Advances os os' → suc (remaining os') ≤ remaining os
unfolding remaining
Advances-remaining (move o o' os later same) = omega (arith, ap (λ (l : List ℕ). length l) later)
Advances-remaining (pass o a) = omega (arith, Advances-remaining a)

pub advance_least-Advances : (os os' : List Operand) → advance_least os ≡ some os' → Advances os os'
unfolding advance_least
advance_least-Advances [] os' e = ground (arith, e)
advance_least-Advances (o ∷ os) os' e = advance_first-Advances (least o.later os) (o ∷ os) os' e

pub currents : List Operand → List ℕ
currents [] = []
currents (o ∷ os) = o.current ∷ currents os

module _ (distance : ℕ) where
  -- A position of each operand, all at most `top` and ending near it.
  unfoldable pub choice : ℕ → List Operand → List ℕ → Bool
  unfolding has
  choice top [] [] = true
  choice top [] (t ∷ ts) = false
  choice top (o ∷ os) [] = false
  choice top (o ∷ os) (t ∷ ts) =
      has (o.current ∷ o.later) t
      && (leb t top && (leb top (t + o.span + distance) && choice top os ts))

module _ (distance : ℕ) where
  choice-cons :
      (top : ℕ) (o o' : Operand) (os os' : List Operand) (ts : List ℕ)
      → ((t : ℕ) → has (o'.current ∷ o'.later) t ≡ true → has (o.current ∷ o.later) t ≡ true)
      → o'.span ≡ o.span
      → ((us : List ℕ) → choice distance top os' us ≡ true → choice distance top os us ≡ true)
      → choice distance top (o' ∷ os') ts ≡ true
      → choice distance top (o ∷ os) ts ≡ true
  unfolding choice
  choice-cons top o o' os os' [] held same rest h = ground (arith, h)
  choice-cons top o o' os os' (t ∷ ts) held same rest h = ground (arith, h, held t, same, rest ts)

  -- What is left to choose from was there before.
  pub sweep-choice :
      (top latest : ℕ) (os : List Operand) (r : Round)
      → sweep distance latest os ≡ some r
      → (ts : List ℕ) → choice distance top r.operands ts ≡ true
      → choice distance top os ts ≡ true
  sweep-choice top latest [] r e ts h =
      subst (λ (x : List Operand). choice distance top x ts ≡ true)
        (sym (ap (λ (x : Round). x.operands) (sweep-nil distance latest r e))) h
  sweep-choice top latest (o ∷ os) r e ts h = elim (sweep-First distance latest o os r e) [
    | stays q fit s a b c ↦
        choice-cons top o o os q.operands ts (λ t m. m) refl (sweep-choice top latest os q s)
          (subst (λ (x : List Operand). choice distance top x ts ≡ true) a h)
    | moves q o' far skipped s a b c ↦
        choice-cons top o o' os q.operands ts
          (λ t m. skip-has latest o.span distance o.current t o.later o' skipped m)
          (skip-Skips latest o.span distance o.current o.later o' skipped).same_span
          (sweep-choice top (max latest o'.current) os q s)
          (subst (λ (x : List Operand). choice distance top x ts ≡ true) a h)
  ]

  pub currents-choice :
      (latest : ℕ) (os : List Operand)
      → all_within distance latest os ≡ true
      → choice distance latest os (currents os) ≡ true
  unfolding choice currents all_within has
  currents-choice latest [] h = refl
  currents-choice latest (o ∷ os) h = ground (arith, h, currents-choice latest os)

  pub Advances-choice :
      (top : ℕ) {os os' : List Operand}
      → Advances os os'
      → (ts : List ℕ) → choice distance top os' ts ≡ true
      → choice distance top os ts ≡ true
  Advances-choice top (move o o' os later same) ts h =
      choice-cons top o o' os os ts (held o o' later) same (λ us m. m) h
  Advances-choice top (pass o {os = os} {os' = os'} a) ts h =
      choice-cons top o o os os' ts (λ t m. m) refl (Advances-choice top a) h
