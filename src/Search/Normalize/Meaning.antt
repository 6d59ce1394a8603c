-- ===== src/Search/Normalize/Meaning.antt =====
-- `normalize` keeps what a query matches.
use sci_etl_core.Prelude.{
  ℕ, zero, suc, Bool, not, ◌&&◌, ◌||◌, List, ◌≡◌, refl, arith, inl, inr, Bool-cases, ltb,
}
use sci_etl_core.Search.Ast.{
  Field, Leaf, Node, Nodes, leaf, near, conj, disj, neg, nil, cons, count,
}
use sci_etl_core.Search.Boolean.{holds, holds_all, holds_any, holds_all-append, holds_any-append}
use sci_etl_core.Search.Normalize.{
  all_of, any_of, splice, flatten, collapse, negated, positives, insert, merge_negations, negate,
  normalize_fuel, normalize,
}

module _ (reads : Leaf → Bool) (reads_near : List Leaf → ℕ → List Field → Bool) where
  abbrev this_holds : Node → Bool
  this_holds = holds reads reads_near

  abbrev all_hold : Nodes → Bool
  all_hold = holds_all reads reads_near

  abbrev any_holds : Nodes → Bool
  any_holds = holds_any reads reads_near

  all-splice :
      (n : Node) (ns : Nodes) → all_hold (splice all_of n ns) ≡ (this_holds n && all_hold ns)
  unfolding splice holds
  all-splice (conj ms) ns = holds_all-append reads reads_near ms ns
  all-splice _ ns = refl

  any-splice :
      (n : Node) (ns : Nodes) → any_holds (splice any_of n ns) ≡ (this_holds n || any_holds ns)
  unfolding splice holds
  any-splice (disj ms) ns = holds_any-append reads reads_near ms ns
  any-splice _ ns = refl

  collapse-all : (ns : Nodes) → this_holds (collapse all_of ns) ≡ all_hold ns
  unfolding collapse holds
  collapse-all nil = refl
  collapse-all (cons n nil) = ground arith
  collapse-all (cons n (cons m ns)) = refl

  collapse-any : (ns : Nodes) → this_holds (collapse any_of ns) ≡ any_holds ns
  unfolding collapse holds
  collapse-any nil = refl
  collapse-any (cons n nil) = ground arith
  collapse-any (cons n (cons m ns)) = refl

  this_holds-negate : (n : Node) → this_holds (negate n) ≡ not (this_holds n)
  unfolding negate holds
  this_holds-negate (neg n) = ground arith
  this_holds-negate _ = refl

  -- De Morgan: the operands hold when the positive ones do and no negated one does.
  all-split : (ns : Nodes) → all_hold ns ≡ (not (any_holds (negated ns)) && all_hold (positives ns))
  unfolding negated positives holds
  all-split nil = refl
  all-split (cons (neg n) ns) = ground (arith, all-split ns)
  all-split (cons _ ns) = ground (arith, all-split ns)

  all-insert :
      (i : ℕ) (m : Node) (ns : Nodes) → all_hold (insert i m ns) ≡ (this_holds m && all_hold ns)
  unfolding insert holds
  all-insert zero m ns = refl
  all-insert (suc i) m nil = refl
  all-insert (suc i) m (cons n ns) = ground (arith, all-insert i m ns)

  module _ (norm : Node → Node) (keeps : (n : Node) → this_holds (norm n) ≡ this_holds n) where
    all-flatten : (ns : Nodes) → all_hold (flatten norm all_of ns) ≡ all_hold ns
    unfolding flatten holds
    all-flatten nil = refl
    all-flatten (cons n ns) =
        ground (arith, all-splice (norm n) (flatten norm all_of ns), keeps n, all-flatten ns)

    any-flatten : (ns : Nodes) → any_holds (flatten norm any_of ns) ≡ any_holds ns
    unfolding flatten holds
    any-flatten nil = refl
    any-flatten (cons n ns) =
        ground (arith, any-splice (norm n) (flatten norm any_of ns), keeps n, any-flatten ns)

    all-merge : (ns : Nodes) → all_hold (merge_negations norm ns) ≡ all_hold ns
    unfolding merge_negations
    all-merge ns = elim (Bool-cases (ltb (count (negated ns)) 2)) [
      | inl few ↦ rw few
      | inr many ↦
          rw (many, all-insert, all-split ns)
            (unfold holds in
              ground
                (arith, collapse-any (flatten norm any_of (negated ns)), any-flatten (negated ns)))
    ]

  normalize_fuel-holds : (f : ℕ) (n : Node) → this_holds (normalize_fuel f n) ≡ this_holds n
  unfolding normalize_fuel
  normalize_fuel-holds zero n = refl
  normalize_fuel-holds (suc f) (leaf l) = refl
  normalize_fuel-holds (suc f) (near ls d fs) = refl
  normalize_fuel-holds (suc f) (neg n) =
      rw (this_holds-negate, normalize_fuel-holds f n) (unfold holds in refl)
  normalize_fuel-holds (suc f) (disj ns) =
      rw (collapse-any, any-flatten (normalize_fuel f) (normalize_fuel-holds f))
        (unfold holds in refl)
  normalize_fuel-holds (suc f) (conj ns) =
      rw
        (
          collapse-all,
          all-merge (normalize_fuel f) (normalize_fuel-holds f),
          all-flatten (normalize_fuel f) (normalize_fuel-holds f),
        )
        (unfold holds in refl)

  -- `normalize` matches exactly what its argument matches, however leaves and `NEAR` groups match.
  pub normalize-holds : (n : Node) → holds reads reads_near (normalize n) ≡ holds reads reads_near n
  unfolding normalize
  normalize-holds n = normalize_fuel-holds _ n
