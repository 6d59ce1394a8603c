-- ===== src/Search/Evaluate/Near/Holds.antt =====
-- While the operands of `_walk_near` still hold a choice, no round ends the walk.
use sci_etl_core.Prelude.{
  ℕ, ◌+◌, max, ◌≤◌, ◌≡◌, refl, ap, ◌∙◌, Bool, true, false, ◌&&◌, List, [], ◌∷◌, some, ltb, leb,
  Bool-cases, inl, inr, arith,
}
use sci_etl_core.Search.Evaluate.Starts.{has}
use sci_etl_core.Search.Evaluate.Near.{Operand, skip, Round, place_operand, fits_window, sweep}
use sci_etl_core.Search.Evaluate.Near.Rounds.{skip-Skips, sweep-fits, sweep-skips}
use sci_etl_core.Search.Evaluate.Near.Choice.{choice}

unfoldable pub is_sorted : List ℕ → Bool
is_sorted [] = true
is_sorted (x ∷ []) = true
is_sorted (x ∷ y ∷ ys) = leb x y && is_sorted (y ∷ ys)

pub sorted-le :
    (c t : ℕ) (later : List ℕ) → is_sorted (c ∷ later) ≡ true → has (c ∷ later) t ≡ true → c ≤ t
unfolding is_sorted has
sorted-le c t [] s h = ground (arith, h)
sorted-le c t (n ∷ later) s h = ground (arith, s, h, sorted-le n t later)

skip-keeps :
    (latest span distance current t : ℕ) (later : List ℕ)
    → is_sorted (current ∷ later) ≡ true
    → has (current ∷ later) t ≡ true
    → latest ≤ t + span + distance
    → (o : Operand) × (skip latest span distance current later ≡ some o)
      × (is_sorted (o.current ∷ o.later) ≡ true)
      × (has (o.current ∷ o.later) t ≡ true)
unfolding skip has is_sorted
skip-keeps latest span distance current t [] s h w =
    (record { current = current; later = []; span = span }, ground (arith, h, w), s, h)
skip-keeps latest span distance current t (n ∷ later) s h w =
    elim (Bool-cases (ltb (current + span + distance) latest)) [
      | inl far ↦
          let (o, e, so, ho) =
            skip-keeps latest span distance n t later (ground (arith, s))
              (ground (arith, h, w, far)) w in
          (o, rw (skip, far) e, so, ho)
      | inr close ↦ (
        record { current = current; later = n ∷ later; span = span },
        rw (skip, close) refl,
        s,
        h,
      )
    ]

unfoldable pub all_sorted : List Operand → Bool
unfolding is_sorted
all_sorted [] = true
all_sorted (o ∷ os) = is_sorted (o.current ∷ o.later) && all_sorted os

module _ (distance : ℕ) where
  -- A round over operands that still hold a choice at or after `latest` ends, and they still hold it.
  pub record Holds (top latest : ℕ) (os : List Operand) (ts : List ℕ) : Type 0 where
    pub ordered : all_sorted os ≡ true
    pub chosen : choice distance top os ts ≡ true
    pub before : latest ≤ top

  Holds-tail :
      (top latest later : ℕ) (o : Operand) (os : List Operand) (t : ℕ) (ts : List ℕ)
      → Holds top latest (o ∷ os) (t ∷ ts)
      → later ≤ top
      → Holds top later os ts
  unfolding all_sorted choice
  Holds-tail top latest later o os t ts h le = record {
    ordered = ground (arith, h.ordered);
    chosen = ground (arith, h.chosen);
    before = le;
  }

  Holds-cons :
      (top latest : ℕ) (o : Operand) (os : List Operand) (t : ℕ) (ts : List ℕ)
      → is_sorted (o.current ∷ o.later) ≡ true
      → has (o.current ∷ o.later) t ≡ true
      → t ≤ top
      → top ≤ t + o.span + distance
      → Holds top latest os ts
      → Holds top latest (o ∷ os) (t ∷ ts)
  unfolding all_sorted choice
  Holds-cons top latest o os t ts so ho le near rest = record {
    ordered = ground (arith, so, rest.ordered);
    chosen = ground (arith, ho, le, near, rest.chosen);
    before = rest.before;
  }

  -- The first position of a choice.
  Holds-head :
      (top latest : ℕ) (o : Operand) (os : List Operand) (t : ℕ) (ts : List ℕ)
      → Holds top latest (o ∷ os) (t ∷ ts)
      → (is_sorted (o.current ∷ o.later) ≡ true)
        × (has (o.current ∷ o.later) t ≡ true)
        × (t ≤ top)
        × (top ≤ t + o.span + distance)
  unfolding all_sorted choice
  Holds-head top latest o os t ts h = (
    ground (arith, h.ordered),
    ground (arith, h.chosen),
    ground (arith, h.chosen),
    ground (arith, h.chosen),
  )

  Holds-nil : (top latest : ℕ) (o : Operand) (os : List Operand) → ¬ (Holds top latest (o ∷ os) [])
  unfolding choice
  Holds-nil top latest o os h = ground (arith, h.chosen)

  pub sweep-Holds :
      (top latest : ℕ) (os : List Operand) (ts : List ℕ)
      → Holds top latest os ts
      → (r : Round) × (sweep distance latest os ≡ some r) × Holds top r.latest r.operands ts
  unfolding place_operand
  sweep-Holds top latest [] ts h =
      (record { operands = []; latest = latest; matched = true }, unfold sweep in refl, h)
  sweep-Holds top latest (o ∷ os) [] h = absurd (Holds-nil top latest o os h)
  sweep-Holds top latest (o ∷ os) (t ∷ ts) h =
      let (sorted, held, le, near) = Holds-head top latest o os t ts h in
      elim (Bool-cases (fits_window distance latest o)) [
        | inl e ↦
            let (q, s, rest) =
              sweep-Holds top latest os ts (Holds-tail top latest latest o os t ts h h.before) in
            (
              record { operands = o ∷ q.operands; latest = q.latest; matched = true && q.matched },
              sweep-fits distance latest o os e ∙ ap (place_operand o true) s,
              Holds-cons top q.latest o q.operands t ts sorted held le near rest,
            )
        | inr e ↦
            let (o', skipped, so, ho) =
              skip-keeps latest o.span distance o.current t o.later sorted held
                (omega (arith, h.before, near)) in
            let skips = skip-Skips latest o.span distance o.current o.later o' skipped in
            let least = sorted-le o'.current t o'.later so ho in
            let (q, s, rest) = sweep-Holds top (max latest o'.current) os ts (
              Holds-tail top latest (max latest o'.current) o os t ts h
                (omega (arith, h.before, least, le))) in
            (
              record {
                operands = o' ∷ q.operands;
                latest = q.latest;
                matched = false && q.matched;
              },
              sweep-skips distance latest o os o' e skipped ∙ ap (place_operand o' false) s,
              Holds-cons top q.latest o' q.operands t ts so ho le
                  (omega (arith, near, skips.same_span)) rest,
            )
      ]
