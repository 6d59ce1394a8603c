-- ===== src/Search/Evaluate/Near/Positions.antt =====
-- The starts that `trim_near` keeps, over the positions of the operands.
use sci_etl_core.Prelude.{
  ℕ, ◌+◌, ◌≤◌, ◌<◌, ◌≡◌, ◌↔◌, refl, sym, ap, subst, ◌∙◌, Bool, true, false, ◌&&◌, List, [], ◌∷◌,
  map, none, some, some_inj, leb, Option-cases, inl, inr, arith,
}
use sci_etl_core.Search.Evaluate.Starts.{has}
use sci_etl_core.Search.Evaluate.Near.{Operand, first_current, near_fuel, operands_at, kept_starts}
use sci_etl_core.Search.Evaluate.Near.Choice.{choice}
use sci_etl_core.Search.Evaluate.Near.Holds.{all_sorted, is_sorted, sorted-le}
use sci_etl_core.Search.Evaluate.Near.Exact.{begun, paired, rounds, walk_near_total}

-- A choice of one position for each operand: all are at most `top`, and each ends, `distance` tokens
-- added, at `top` or later.
unfoldable pub picks : ℕ → ℕ → List (List ℕ) → List ℕ → List ℕ → Bool
unfolding has
picks distance top [] [] [] = true
picks distance top (ps ∷ positions) (n ∷ lengths) (t ∷ ts) =
    has ps t
    && (leb t top && (leb top (t + n + distance) && picks distance top positions lengths ts))
picks distance top _ _ _ = false

unfoldable pub sorted_positions : List (List ℕ) → Bool
unfolding is_sorted
sorted_positions [] = true
sorted_positions (ps ∷ positions) = is_sorted ps && sorted_positions positions

unfoldable pub same_length : List (List ℕ) → List ℕ → Bool
same_length [] [] = true
same_length [] (n ∷ lengths) = false
same_length (ps ∷ positions) [] = false
same_length (ps ∷ positions) (n ∷ lengths) = same_length positions lengths

module _ (distance top : ℕ) where
  operands_at-none :
      (positions : List (List ℕ)) (lengths ts : List ℕ)
      → operands_at positions lengths ≡ none
      → picks distance top positions lengths ts ≡ false
  unfolding operands_at picks has
  operands_at-none [] lengths ts e = ground (arith, e)
  operands_at-none (ps ∷ positions) [] ts e = ground (arith, e)
  operands_at-none ([] ∷ positions) (n ∷ lengths) [] e = refl
  operands_at-none ([] ∷ positions) (n ∷ lengths) (t ∷ ts) e = refl
  operands_at-none ((p ∷ ps) ∷ positions) (n ∷ lengths) [] e = refl
  operands_at-none ((p ∷ ps) ∷ positions) (n ∷ lengths) (t ∷ ts) e =
      ground (arith, e, operands_at-none positions lengths ts)

  operands_at-picks :
      (positions : List (List ℕ)) (lengths ts : List ℕ) (os : List Operand)
      → operands_at positions lengths ≡ some os
      → same_length positions lengths ≡ true
      → choice distance top os ts ≡ picks distance top positions lengths ts
  unfolding operands_at picks same_length
  operands_at-picks [] [] ts os e l = none_left os (some_inj e) ts
    where
      none_left :
          (os : List Operand)
          → [] ≡ os
          → (ts : List ℕ) → choice distance top os ts ≡ picks distance top [] [] ts
      none_left [] e [] = unfold choice in refl
      none_left [] e (t ∷ ts) = unfold choice in refl
      none_left (o ∷ os) e ts = absurd (cc e)
  operands_at-picks [] (n ∷ lengths) ts os e l = absurd (cc l)
  operands_at-picks (ps ∷ positions) [] ts os e l = absurd (cc l)
  operands_at-picks ([] ∷ positions) (n ∷ lengths) ts os e l = absurd (cc e)
  operands_at-picks ((p ∷ ps) ∷ positions) (n ∷ lengths) ts os e l =
      elim (Option-cases (operands_at positions lengths)) [
        | inl none_there ↦ absurd (ground (arith, e, none_there))
        | inr (os', there) ↦
            let same : some (record { current = p; later = ps; span = n } ∷ os') ≡ some os =
              ground (arith, e, there) in
            subst
              (λ (x : List Operand).
                choice distance top x ts
                ≡ picks distance top ((p ∷ ps) ∷ positions) (n ∷ lengths) ts)
              (some_inj same)
              (more os' ts (λ us. operands_at-picks positions lengths us os' there l))
      ]
    where
      more :
          (os' : List Operand) (ts : List ℕ)
          → ((us : List ℕ) → choice distance top os' us ≡ picks distance top positions lengths us)
          → choice distance top (record { current = p; later = ps; span = n } ∷ os') ts
            ≡ picks distance top ((p ∷ ps) ∷ positions) (n ∷ lengths) ts
      more os' [] ih = unfold choice in refl
      more os' (t ∷ ts) ih = unfold choice in ground (arith, ih ts)

operands_at-sorted :
    (positions : List (List ℕ)) (lengths : List ℕ) (os : List Operand)
    → operands_at positions lengths ≡ some os
    → sorted_positions positions ≡ true
    → all_sorted os ≡ true
unfolding operands_at sorted_positions all_sorted
operands_at-sorted [] lengths os e s = ap all_sorted (sym (some_inj e))
operands_at-sorted (ps ∷ positions) [] os e s = ap all_sorted (sym (some_inj e))
operands_at-sorted ([] ∷ positions) (n ∷ lengths) os e s = absurd (cc e)
operands_at-sorted ((p ∷ ps) ∷ positions) (n ∷ lengths) os e s =
    elim (Option-cases (operands_at positions lengths)) [
      | inl none_there ↦ absurd (ground (arith, e, none_there))
      | inr (os', there) ↦
          let same : some (record { current = p; later = ps; span = n } ∷ os') ≡ some os =
            ground (arith, e, there) in
          let rest = operands_at-sorted positions lengths os' there (ground (arith, s)) in
          subst (λ (x : List Operand). all_sorted x ≡ true) (some_inj same)
            (ground (arith, s, rest))
    ]

-- The first current position of a choice is at most its top.
first_current-le :
    (distance top : ℕ) (os : List Operand) (ts : List ℕ)
    → all_sorted os ≡ true
    → choice distance top os ts ≡ true
    → first_current os ≤ top
unfolding all_sorted choice first_current
first_current-le distance top [] ts s c = omega arith
first_current-le distance top (o ∷ os) [] s c = absurd (ground (arith, c))
first_current-le distance top (o ∷ os) (t ∷ ts) s c =
    ground (arith, s, c, sorted-le o.current t o.later)

rounds-lt_fuel : (latest : ℕ) (os : List Operand) → rounds latest os < near_fuel os
unfolding rounds near_fuel
rounds-lt_fuel latest os = ground arith

paired_start :
    (ps : List ℕ) (positions : List (List ℕ)) (n : ℕ) (lengths : List ℕ) (os : List Operand)
    → operands_at (ps ∷ positions) (n ∷ lengths) ≡ some os
    → paired os ([] ∷ map (λ _. []) positions) ≡ true
unfolding operands_at paired
paired_start [] positions n lengths os e = absurd (cc e)
paired_start (p ∷ ps) positions n lengths [] e =
    ground (arith, e, Option-cases (operands_at positions lengths))
paired_start (p ∷ ps) positions n lengths (o ∷ os) e = refl

-- What the starts that were kept say of the choices.
unfoldable pub IsExact : ℕ → List (List ℕ) → List ℕ → List (List ℕ) → Type 0
IsExact distance positions lengths kept =
    (begun kept ≡ true)
    ↔ ((top : ℕ) × (ts : List ℕ) × (picks distance top positions lengths ts ≡ true))

pub kept_starts-IsExact :
    (distance : ℕ) (ps : List ℕ) (positions : List (List ℕ)) (n : ℕ) (lengths : List ℕ)
    → same_length positions lengths ≡ true
    → sorted_positions (ps ∷ positions) ≡ true
    → (kept : List (List ℕ)) × (kept_starts (ps ∷ positions) (n ∷ lengths) distance ≡ some kept)
      × IsExact distance (ps ∷ positions) (n ∷ lengths) kept
unfolding kept_starts IsExact begun same_length
kept_starts-IsExact distance ps positions n lengths l s =
    elim (Option-cases (operands_at (ps ∷ positions) (n ∷ lengths))) [
      | inl e ↦ (
        map (λ (ps : List ℕ). []) (ps ∷ positions),
        rw (kept_starts, e) refl,
        (
          λ b. absurd (ground (arith, b)),
          λ c. absurd (
              ground
                (arith, c.2, operands_at-none distance c.0 (ps ∷ positions) (n ∷ lengths) c.1 e)),
        ),
      )
      | inr (os, e) ↦
          let start = map (λ (ps : List ℕ). []) (ps ∷ positions) in
          let chosen = λ (top : ℕ) (ts : List ℕ).
            operands_at-picks distance top (ps ∷ positions) (n ∷ lengths) ts os e l in
          let (kept, w, walked) =
            walk_near_total distance (near_fuel os) (first_current os) os start
              (rounds-lt_fuel (first_current os) os) (paired_start ps positions n lengths os e) in
          (
            kept,
            rw (kept_starts, e) w,
            (
              λ b. elim (walked.sound b) [
                | inl before ↦ absurd (ground (arith, before))
                | inr (top, ts, c) ↦ (top, ts, sym (chosen top ts) ∙ c)
              ],
              λ c. walked.complete c.0 c.1 (record {
                ordered = operands_at-sorted (ps ∷ positions) (n ∷ lengths) os e s;
                chosen = chosen c.0 c.1 ∙ c.2;
                before =
                    first_current-le distance c.0 os c.1
                      (operands_at-sorted (ps ∷ positions) (n ∷ lengths) os e s)
                      (chosen c.0 c.1 ∙ c.2);
              }),
            ),
          )
    ]
