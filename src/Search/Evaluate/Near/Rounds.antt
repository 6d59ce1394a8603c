-- ===== src/Search/Evaluate/Near/Rounds.antt =====
-- One round of `_walk_near`: what it passes, and what it leaves when it matches.
use sci_etl_core.Prelude.{
  ℕ, suc, ◌+◌, max, ◌≤◌, ◌<◌, ◌≡◌, refl, sym, ap, subst, ◌∙◌, Bool, true, false, ◌&&◌, List, [],
  ◌∷◌, Option, none, some, some_inj, length, ltb, leb, Bool-cases, Option-cases, inl, inr, arith,
}
use sci_etl_core.Search.Evaluate.Near.{
  Operand, skip, Round, place_operand, fits_window, sweep, remaining,
}

-- No operand stands after `latest`.
unfoldable pub settled : ℕ → List Operand → Bool
settled latest [] = true
settled latest (o ∷ os) = leb o.current latest && settled latest os

-- What `skip` leaves.
pub record Skips (latest span distance current : ℕ) (later : List ℕ) (o : Operand) : Type 0 where
  pub same_span : o.span ≡ span
  pub near : latest ≤ o.current + span + distance
  pub passed : current + span + distance < latest → suc (length o.later) ≤ length later
  pub shorter : length o.later ≤ length later

pub skip-Skips :
    (latest span distance current : ℕ) (later : List ℕ) (o : Operand)
    → skip latest span distance current later ≡ some o
    → Skips latest span distance current later o
unfolding skip
skip-Skips latest span distance current [] o h = ground (arith, h)
skip-Skips latest span distance current (next ∷ later) o h =
    elim (Bool-cases (ltb (current + span + distance) latest)) [
      | inl far ↦
          let rest = skip-Skips latest span distance next later o (rw (skip, far) at h) in
          record {
            same_span = rest.same_span;
            near = rest.near;
            passed = λ _. omega (arith, rest.shorter);
            shorter = omega (arith, rest.shorter);
          }
      | inr close ↦ ground (arith, h, close)
    ]

-- What a round leaves.
pub record Sweeps (distance latest : ℕ) (os : List Operand) (r : Round) : Type 0 where
  pub fewer : remaining r.operands ≤ remaining os
  pub grows : latest ≤ r.latest
  pub settles : settled r.latest r.operands ≡ true
  pub advances : r.matched ≡ false → settled latest os ≡ true → remaining r.operands < remaining os

module _ (distance : ℕ) where
  pub sweep-fits :
      (latest : ℕ) (o : Operand) (os : List Operand)
      → fits_window distance latest o ≡ true
      → sweep distance latest (o ∷ os) ≡ place_operand o true (sweep distance latest os)
  unfolding sweep
  sweep-fits latest o os e = rw (sweep, e) refl

  pub sweep-skips :
      (latest : ℕ) (o : Operand) (os : List Operand) (o' : Operand)
      → fits_window distance latest o ≡ false
      → skip latest o.span distance o.current o.later ≡ some o'
      → sweep distance latest (o ∷ os)
        ≡ place_operand o' false (sweep distance (max latest o'.current) os)
  unfolding sweep
  sweep-skips latest o os o' e s = rw (sweep, e, s) refl

  sweep-ends :
      (latest : ℕ) (o : Operand) (os : List Operand)
      → fits_window distance latest o ≡ false
      → skip latest o.span distance o.current o.later ≡ none
      → sweep distance latest (o ∷ os) ≡ none
  unfolding sweep
  sweep-ends latest o os e s = rw (sweep, e, s) refl

  pub place_operand-some :
      (o : Operand) (fine : Bool) (rest : Option Round) (r : Round)
      → place_operand o fine rest ≡ some r
      → (q : Round) × (rest ≡ some q)
        × (r.operands ≡ o ∷ q.operands)
        × (r.latest ≡ q.latest)
        × (r.matched ≡ (fine && q.matched))
  unfolding place_operand
  place_operand-some o fine none r h = ground (arith, h)
  place_operand-some o fine (some q) r h =
      let e = sym (some_inj h) in
      (
        q,
        refl,
        ap (λ (x : Round). x.operands) e,
        ap (λ (x : Round). x.latest) e,
        ap (λ (x : Round). x.matched) e,
      )

  -- The first operand of a round: it fits, or it is skipped to where it is near.
  pub data First (latest : ℕ) (o : Operand) (os : List Operand) (r : Round) : Type 0 where
    stays :
        (q : Round)
        → fits_window distance latest o ≡ true
        → sweep distance latest os ≡ some q
        → r.operands ≡ o ∷ q.operands
        → r.latest ≡ q.latest
        → r.matched ≡ q.matched
        → First latest o os r
    moves :
        (q : Round) (o' : Operand)
        → fits_window distance latest o ≡ false
        → skip latest o.span distance o.current o.later ≡ some o'
        → sweep distance (max latest o'.current) os ≡ some q
        → r.operands ≡ o' ∷ q.operands
        → r.latest ≡ q.latest
        → r.matched ≡ false
        → First latest o os r

  pub sweep-First :
      (latest : ℕ) (o : Operand) (os : List Operand) (r : Round)
      → sweep distance latest (o ∷ os) ≡ some r
      → First latest o os r
  sweep-First latest o os r h = elim (Bool-cases (fits_window distance latest o)) [
    | inl e ↦
        let (q, s, a, b, c) =
          place_operand-some o true (sweep distance latest os) r
            (sym (sweep-fits latest o os e) ∙ h) in
        stays q e s a b c
    | inr e ↦ elim (Option-cases (skip latest o.span distance o.current o.later)) [
      | inl s ↦ absurd (ground (arith, sym (sweep-ends latest o os e s) ∙ h))
      | inr (o', s) ↦
          let (q, t, a, b, c) =
            place_operand-some o' false (sweep distance (max latest o'.current) os) r
              (sym (sweep-skips latest o os o' e s) ∙ h) in
          moves q o' e s t a b c
    ]
  ]

  pub sweep-nil :
      (latest : ℕ) (r : Round)
      → sweep distance latest [] ≡ some r
      → record { operands = []; latest = latest; matched = true } ≡ r
  unfolding sweep
  sweep-nil latest r h = some_inj h

  Sweeps-stays :
      (latest : ℕ) (o : Operand) (os : List Operand) (r q : Round)
      → Sweeps distance latest os q
      → fits_window distance latest o ≡ true
      → r.operands ≡ o ∷ q.operands
      → r.latest ≡ q.latest
      → r.matched ≡ q.matched
      → Sweeps distance latest (o ∷ os) r
  unfolding remaining settled fits_window
  Sweeps-stays latest o os r q rest e a b c = record {
    fewer = rw a (omega (arith, rest.fewer));
    grows = rw b rest.grows;
    settles = ap (λ (n : ℕ). settled n r.operands) b ∙ ap (settled q.latest) a ∙ now;
    advances = λ m z. rw a (ground (arith, rest.advances (sym c ∙ m), z));
  }
    where
      now : settled q.latest (o ∷ q.operands) ≡ true
      now = ground (arith, rest.settles, rest.grows, e)

  Sweeps-moves :
      (latest : ℕ) (o : Operand) (os : List Operand) (r q : Round) (o' : Operand)
      → Sweeps distance (max latest o'.current) os q
      → fits_window distance latest o ≡ false
      → Skips latest o.span distance o.current o.later o'
      → r.operands ≡ o' ∷ q.operands
      → r.latest ≡ q.latest
      → Sweeps distance latest (o ∷ os) r
  unfolding remaining settled fits_window
  Sweeps-moves latest o os r q o' rest e skips a b = record {
    fewer = rw a (omega (arith, rest.fewer, skips.shorter));
    grows = rw b (omega (arith, rest.grows));
    settles = ap (λ (n : ℕ). settled n r.operands) b ∙ ap (settled q.latest) a ∙ now;
    advances = λ m z. rw a (ground (arith, rest.fewer, skips.passed, z, e));
  }
    where
      now : settled q.latest (o' ∷ q.operands) ≡ true
      now = ground (arith, rest.settles, rest.grows)

  pub sweep-Sweeps :
      (latest : ℕ) (os : List Operand) (r : Round)
      → sweep distance latest os ≡ some r
      → Sweeps distance latest os r
  sweep-Sweeps latest [] r h =
      subst (λ (x : Round). Sweeps distance latest [] x) (sweep-nil latest r h)
        (record {
          fewer = omega arith;
          grows = omega arith;
          settles = unfold settled in refl;
          advances = λ m z. ground (arith, m);
        })
  sweep-Sweeps latest (o ∷ os) r h = elim (sweep-First latest o os r h) [
    | stays q e s a b c ↦ Sweeps-stays latest o os r q (sweep-Sweeps latest os q s) e a b c
    | moves q o' e s t a b c ↦
        Sweeps-moves latest o os r q o' (sweep-Sweeps (max latest o'.current) os q t) e
          (skip-Skips latest o.span distance o.current o.later o' s) a b
  ]

  -- A round that matches leaves every operand where it was.
  pub sweep_matched :
      (latest : ℕ) (os : List Operand) (r : Round)
      → sweep distance latest os ≡ some r
      → r.matched ≡ true
      → (r.operands ≡ os) × (r.latest ≡ latest)
  sweep_matched latest [] r h m = (
    sym (ap (λ (x : Round). x.operands) (sweep-nil latest r h)),
    sym (ap (λ (x : Round). x.latest) (sweep-nil latest r h)),
  )
  sweep_matched latest (o ∷ os) r h m = elim (sweep-First latest o os r h) [
    | stays q e s a b c ↦
        let rest = sweep_matched latest os q s (sym c ∙ m) in (a ∙ ap (◌∷◌ o) rest.0, b ∙ rest.1)
    | moves q o' e s t a b c ↦ absurd (ground (arith, sym c ∙ m))
  ]

  -- The current positions lie in the window that ends at `latest`.
  unfoldable pub all_within : ℕ → List Operand → Bool
  all_within latest [] = true
  all_within latest (o ∷ os) =
      leb o.current latest && (leb latest (o.current + o.span + distance) && all_within latest os)

  pub sweep_within :
      (latest : ℕ) (os : List Operand) (r : Round)
      → sweep distance latest os ≡ some r
      → r.matched ≡ true
      → all_within latest os ≡ true
  unfolding all_within fits_window
  sweep_within latest [] r h m = refl
  sweep_within latest (o ∷ os) r h m = elim (sweep-First latest o os r h) [
    | stays q e s a b c ↦ ground (arith, e, sweep_within latest os q s (sym c ∙ m))
    | moves q o' e s t a b c ↦ absurd (ground (arith, sym c ∙ m))
  ]
