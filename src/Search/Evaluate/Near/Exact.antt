-- ===== src/Search/Evaluate/Near/Exact.antt =====
-- `_walk_near` ends, and keeps a start exactly when some choice of positions is near.
use sci_etl_core.Prelude.{
  ℕ, zero, suc, ◌+◌, ◌*◌, ◌≤◌, ◌<◌, ◌≡◌, ◌⊎◌, refl, sym, ap, subst, ◌∙◌, Bool, true, false, List,
  [], ◌∷◌, none, some, some_inj, if◌then◌else◌, Bool-cases, Option-cases, inl, inr, arith,
}
use sci_etl_core.Search.Evaluate.Near.{
  Operand, Round, sweep, push_start, keep_starts, advance_least, first_current, walk_near,
  remaining,
}
use sci_etl_core.Search.Evaluate.Near.Rounds.{
  stays, moves, sweep-First, settled, Sweeps, sweep-Sweeps, sweep_within,
}
use sci_etl_core.Search.Evaluate.Near.Choice.{
  Advances, move, pass, choice, currents, sweep-choice, currents-choice, Advances-remaining,
  advance_least-Advances,
}
use sci_etl_core.Search.Evaluate.Near.Holds.{Holds, sweep-Holds}

-- A start of the first operand is kept.
unfoldable pub begun : List (List ℕ) → Bool
begun [] = false
begun ([] ∷ kept) = false
begun ((k ∷ ks) ∷ kept) = true

-- Each operand has a list of starts.
unfoldable pub paired : List Operand → List (List ℕ) → Bool
paired [] kept = false
paired (o ∷ os) [] = false
paired (o ∷ os) (ks ∷ kept) = true

-- How many rounds the loop still has, at most.
unfoldable pub rounds : ℕ → List Operand → ℕ
unfolding settled
rounds latest os = 2 * remaining os + (if settled latest os then 0 else 1)

module _ (distance : ℕ) where
  -- The steps of the loop.
  walk_ends :
      (f latest : ℕ) (os : List Operand) (kept : List (List ℕ))
      → sweep distance latest os ≡ none
      → walk_near (suc f) distance latest os kept ≡ some kept
  unfolding walk_near
  walk_ends f latest os kept e = rw (walk_near, e) refl

  walk_misses :
      (f latest : ℕ) (os : List Operand) (kept : List (List ℕ)) (r : Round)
      → sweep distance latest os ≡ some r
      → r.matched ≡ false
      → walk_near (suc f) distance latest os kept ≡ walk_near f distance r.latest r.operands kept
  unfolding walk_near
  walk_misses f latest os kept r e m = rw (walk_near, e) (rw m refl)

  walk_stops :
      (f latest : ℕ) (os : List Operand) (kept : List (List ℕ)) (r : Round)
      → sweep distance latest os ≡ some r
      → r.matched ≡ true
      → advance_least r.operands ≡ none
      → walk_near (suc f) distance latest os kept ≡ some (keep_starts r.operands kept)
  unfolding walk_near
  walk_stops f latest os kept r e m a = rw (walk_near, e) (rw m (rw a refl))

  walk_goes :
      (f latest : ℕ) (os : List Operand) (kept : List (List ℕ)) (r : Round) (os' : List Operand)
      → sweep distance latest os ≡ some r
      → r.matched ≡ true
      → advance_least r.operands ≡ some os'
      → walk_near (suc f) distance latest os kept
        ≡ walk_near f distance (first_current os') os' (keep_starts r.operands kept)
  unfolding walk_near
  walk_goes f latest os kept r os' e m a = rw (walk_near, e) (rw m (rw a refl))

begun-keep_starts :
    (os : List Operand) (kept : List (List ℕ))
    → paired os kept ≡ true
    → begun (keep_starts os kept) ≡ true
unfolding begun paired keep_starts push_start
begun-keep_starts [] kept p = ground (arith, p)
begun-keep_starts (o ∷ os) [] p = ground (arith, p)
begun-keep_starts (o ∷ os) ([] ∷ kept) p = refl
begun-keep_starts (o ∷ os) ((k ∷ []) ∷ kept) p = ground arith
begun-keep_starts (o ∷ os) ((k ∷ l ∷ ks) ∷ kept) p = refl

paired-next :
    (os os' : List Operand) (kept : List (List ℕ))
    → Advances os os'
    → paired os kept ≡ true
    → paired os' (keep_starts os kept) ≡ true
unfolding paired keep_starts
paired-next os os' [] (move o o' os'' later same) p = ground (arith, p)
paired-next os os' (ks ∷ kept) (move o o' os'' later same) p = refl
paired-next os os' [] (pass o a) p = ground (arith, p)
paired-next os os' (ks ∷ kept) (pass o a) p = refl

rounds_next :
    (latest next : ℕ) (os os' : List Operand)
    → suc (remaining os') ≤ remaining os
    → rounds next os' < rounds latest os
unfolding rounds
rounds_next latest next os os' h = ground (arith, h)

module _ (distance : ℕ) where
  rounds_miss :
      (latest : ℕ) (os : List Operand) (r : Round)
      → Sweeps distance latest os r
      → r.matched ≡ false
      → rounds r.latest r.operands < rounds latest os
  unfolding rounds
  rounds_miss latest os r s m = ground (arith, s.settles, s.fewer, s.advances m)

  paired-sweep :
      (latest : ℕ) (os : List Operand) (kept : List (List ℕ)) (r : Round)
      → sweep distance latest os ≡ some r
      → paired os kept ≡ true
      → paired r.operands kept ≡ true
  unfolding paired
  paired-sweep latest [] kept r e p = absurd (ground (arith, p))
  paired-sweep latest (o ∷ os) [] r e p = absurd (ground (arith, p))
  paired-sweep latest (o ∷ os) (ks ∷ kept) r e p = elim (sweep-First distance latest o os r e) [
    | stays q fit s a b c ↦ ap (λ (x : List Operand). paired x (ks ∷ kept)) a
    | moves q o' far skipped s a b c ↦ ap (λ (x : List Operand). paired x (ks ∷ kept)) a
  ]

  -- What the rest of the walk adds to the starts that were kept before it.
  pub record Walked (latest : ℕ) (os : List Operand) (kept kept' : List (List ℕ)) : Type 0 where
    pub grows : begun kept ≡ true → begun kept' ≡ true
    pub sound :
        begun kept' ≡ true
        → (begun kept ≡ true) ⊎ ((top : ℕ) × (ts : List ℕ) × (choice distance top os ts ≡ true))
    pub complete : (top : ℕ) (ts : List ℕ) → Holds distance top latest os ts → begun kept' ≡ true

  Walked-ends :
      (latest : ℕ) (os : List Operand) (kept : List (List ℕ))
      → sweep distance latest os ≡ none
      → Walked latest os kept kept
  Walked-ends latest os kept e = record {
    grows = λ b. b;
    sound = λ b. inl b;
    complete = λ top ts h.
        let (r, s, rest) = sweep-Holds distance top latest os ts h in absurd (ground (arith, e, s));
  }

  Walked-misses :
      (latest : ℕ) (os : List Operand) (kept kept' : List (List ℕ)) (r : Round)
      → sweep distance latest os ≡ some r
      → Walked r.latest r.operands kept kept'
      → Walked latest os kept kept'
  Walked-misses latest os kept kept' r e w = record {
    grows = w.grows;
    sound = λ b. elim (w.sound b) [
      | inl before ↦ inl before
      | inr (top, ts, h) ↦ inr (top, ts, sweep-choice distance top latest os r e ts h)
    ];
    complete = λ top ts h.
        let (q, s, rest) = sweep-Holds distance top latest os ts h in
        let same : q ≡ r = some_inj (sym s ∙ e) in
        w.complete top ts
          (subst (λ (x : Round). Holds distance top x.latest x.operands ts) same rest);
  }

  -- A round that matches keeps a start of the current positions.
  Walked-matches :
      (latest : ℕ) (os : List Operand) (kept kept' : List (List ℕ)) (r : Round)
      → sweep distance latest os ≡ some r
      → r.matched ≡ true
      → begun kept' ≡ true
      → Walked latest os kept kept'
  Walked-matches latest os kept kept' r e m b = record {
    grows = λ _. b;
    sound = λ _. inr (
      latest,
      currents os,
      currents-choice distance latest os (sweep_within distance latest os r e m),
    );
    complete = λ top ts h. b;
  }

  pub walk_near_total :
      (f latest : ℕ) (os : List Operand) (kept : List (List ℕ))
      → rounds latest os < f
      → paired os kept ≡ true
      → (kept' : List (List ℕ)) × (walk_near f distance latest os kept ≡ some kept')
        × Walked latest os kept kept'
  walk_near_total zero latest os kept h p = absurd (omega arith)
  walk_near_total (suc f) latest os kept h p = elim (Option-cases (sweep distance latest os)) [
    | inl e ↦ (kept, walk_ends distance f latest os kept e, Walked-ends latest os kept e)
    | inr (r, e) ↦
        let s = sweep-Sweeps distance latest os r e in
        elim (Bool-cases r.matched) [
          | inr m ↦
              let (kept', w, walked) =
                walk_near_total f r.latest r.operands kept
                  (omega (arith, rounds_miss latest os r s m))
                  (paired-sweep latest os kept r e p) in
              (
                kept',
                walk_misses distance f latest os kept r e m ∙ w,
                Walked-misses latest os kept kept' r e walked,
              )
          | inl m ↦
              let pr = paired-sweep latest os kept r e p in
              let b = begun-keep_starts r.operands kept pr in
              elim (Option-cases (advance_least r.operands)) [
                | inl a ↦ (
                  keep_starts r.operands kept,
                  walk_stops distance f latest os kept r e m a,
                  Walked-matches latest os kept (keep_starts r.operands kept) r e m b,
                )
                | inr (os', a) ↦
                    let moved = advance_least-Advances r.operands os' a in
                    let (kept', w, walked) =
                      walk_near_total f (first_current os') os' (keep_starts r.operands kept)
                        (omega (
                          arith,
                          h,
                          s.fewer,
                          rounds_next latest (first_current os') os os'
                              (omega (arith, s.fewer, Advances-remaining moved)),
                        ))
                        (paired-next r.operands os' kept moved pr) in
                    (
                      kept',
                      walk_goes distance f latest os kept r os' e m a ∙ w,
                      Walked-matches latest os kept kept' r e m (walked.grows b),
                    )
              ]
        ]
  ]
