-- ===== src/Search/Normalize/Complete.antt =====
-- The fuel of `normalize` is enough: its results are canonical.
use sci_etl_core.Prelude.{ℕ, zero, suc, ◌+◌, ◌≤◌, ◌≡◌, refl, ap, inl, inr, Bool-cases, ltb, arith}
use sci_etl_core.Search.Ast.{
  Node, Nodes, leaf, near, conj, disj, neg, nil, cons, append, count, depth, depth_nodes, IsValid,
  AllValid, IsNonempty,
}
use sci_etl_core.Search.Normalize.{
  Group, all_of, any_of, splice, flatten, collapse, negated, positives, first_negation, insert,
  merge_negations, negate, normalize_fuel, normalize,
}
use sci_etl_core.Search.Normalize.Canonical.{AllFlat, IsNormal, AllNormal, normalize_fuel_id}

-- What `_flatten` returns: canonical operands, none a group of the kind.
abbrev pub IsOperands : Group → Nodes → Type 0
IsOperands k ns = AllNormal ns × AllFlat k ns

append-IsOperands :
    (k : Group) (ms ns : Nodes)
    → IsOperands k ms
    → IsOperands k ns
    → IsOperands k (append ms ns) × (count (append ms ns) ≡ count ms + count ns)
append-IsOperands k nil ns hm hn = (hn, omega arith)
append-IsOperands k (cons m ms) ns hm hn =
    let ih = append-IsOperands k ms ns (hm.0.1, hm.1.1) hn in
    (((hm.0.0, ih.0.0), (hm.1.0, ih.0.1)), omega arith)

splice-IsOperands :
    (k : Group) (n : Node) (ns : Nodes)
    → IsNormal n
    → IsOperands k ns
    → IsOperands k (splice k n ns) × (1 + count ns ≤ count (splice k n ns))
unfolding splice
splice-IsOperands all_of (conj ms) ns hn hs =
    let both = append-IsOperands all_of ms ns (hn.3, hn.1) hs in (both.0, omega arith)
splice-IsOperands all_of (disj ms) ns hn hs = (((hn, hs.0), (tt, hs.1)), omega arith)
splice-IsOperands all_of (leaf l) ns hn hs = (((hn, hs.0), (tt, hs.1)), omega arith)
splice-IsOperands all_of (near ls d fs) ns hn hs = (((hn, hs.0), (tt, hs.1)), omega arith)
splice-IsOperands all_of (neg n) ns hn hs = (((hn, hs.0), (tt, hs.1)), omega arith)
splice-IsOperands any_of (disj ms) ns hn hs =
    let both = append-IsOperands any_of ms ns (hn.2, hn.1) hs in (both.0, omega arith)
splice-IsOperands any_of (conj ms) ns hn hs = (((hn, hs.0), (tt, hs.1)), omega arith)
splice-IsOperands any_of (leaf l) ns hn hs = (((hn, hs.0), (tt, hs.1)), omega arith)
splice-IsOperands any_of (near ls d fs) ns hn hs = (((hn, hs.0), (tt, hs.1)), omega arith)
splice-IsOperands any_of (neg n) ns hn hs = (((hn, hs.0), (tt, hs.1)), omega arith)

-- The operands of one `Not`-free list, and the positive ones.
pub negated-AllNormal : (ns : Nodes) → AllNormal ns → AllNormal (negated ns)
unfolding negated
negated-AllNormal nil h = tt
negated-AllNormal (cons (neg n) ns) h = (h.0.1, negated-AllNormal ns h.1)
negated-AllNormal (cons _ ns) h = negated-AllNormal ns h.1

positives-IsOperands :
    (ns : Nodes)
    → IsOperands all_of ns
    → IsOperands all_of (positives ns) × (count (negated (positives ns)) ≡ 0)
unfolding positives negated
positives-IsOperands nil h = (h, refl)
positives-IsOperands (cons (neg n) ns) h = positives-IsOperands ns (h.0.1, h.1.1)
positives-IsOperands (cons (leaf n) ns) h =
    let ih = positives-IsOperands ns (h.0.1, h.1.1) in (((h.0.0, ih.0.0), (h.1.0, ih.0.1)), ih.1)
positives-IsOperands (cons (near ls d fs) ns) h =
    let ih = positives-IsOperands ns (h.0.1, h.1.1) in (((h.0.0, ih.0.0), (h.1.0, ih.0.1)), ih.1)
positives-IsOperands (cons (conj n) ns) h =
    let ih = positives-IsOperands ns (h.0.1, h.1.1) in (((h.0.0, ih.0.0), (h.1.0, ih.0.1)), ih.1)
positives-IsOperands (cons (disj n) ns) h =
    let ih = positives-IsOperands ns (h.0.1, h.1.1) in (((h.0.0, ih.0.0), (h.1.0, ih.0.1)), ih.1)

-- A positive list stays canonical when one `Not` is inserted into it.
insert-IsOperands :
    (i : ℕ) (m : Node) (ns : Nodes)
    → IsNormal (neg m)
    → IsOperands all_of ns
    → IsOperands all_of (insert i (neg m) ns)
      × (count (insert i (neg m) ns) ≡ suc (count ns))
      × (count (negated (insert i (neg m) ns)) ≡ suc (count (negated ns)))
unfolding insert negated
insert-IsOperands zero m ns hm h = (((hm, h.0), (tt, h.1)), refl, refl)
insert-IsOperands (suc i) m nil hm h = (((hm, h.0), (tt, h.1)), refl, refl)
insert-IsOperands (suc i) m (cons (neg n) ns) hm h =
    let ih = insert-IsOperands i m ns hm (h.0.1, h.1.1) in
    (((h.0.0, ih.0.0), (h.1.0, ih.0.1)), ap suc ih.1, ap suc ih.2)
insert-IsOperands (suc i) m (cons (leaf n) ns) hm h =
    let ih = insert-IsOperands i m ns hm (h.0.1, h.1.1) in
    (((h.0.0, ih.0.0), (h.1.0, ih.0.1)), ap suc ih.1, ih.2)
insert-IsOperands (suc i) m (cons (near ls d fs) ns) hm h =
    let ih = insert-IsOperands i m ns hm (h.0.1, h.1.1) in
    (((h.0.0, ih.0.0), (h.1.0, ih.0.1)), ap suc ih.1, ih.2)
insert-IsOperands (suc i) m (cons (conj n) ns) hm h =
    let ih = insert-IsOperands i m ns hm (h.0.1, h.1.1) in
    (((h.0.0, ih.0.0), (h.1.0, ih.0.1)), ap suc ih.1, ih.2)
insert-IsOperands (suc i) m (cons (disj n) ns) hm h =
    let ih = insert-IsOperands i m ns hm (h.0.1, h.1.1) in
    (((h.0.0, ih.0.0), (h.1.0, ih.0.1)), ap suc ih.1, ih.2)

abbrev pub AllTo : (Node → Node) → Nodes → Type 0
AllTo norm nil = Unit
AllTo norm (cons n ns) = IsNormal (norm n) × AllTo norm ns

pub flatten-IsOperands :
    (norm : Node → Node) (k : Group) (ns : Nodes)
    → AllTo norm ns
    → IsOperands k (flatten norm k ns) × (count ns ≤ count (flatten norm k ns))
unfolding flatten
flatten-IsOperands norm k nil h = ((tt, tt), omega arith)
flatten-IsOperands norm k (cons n ns) h =
    let ih = flatten-IsOperands norm k ns h.1 in
    let step = splice-IsOperands k (norm n) (flatten norm k ns) h.0 ih.0 in (step.0, omega arith)

collapse_any-IsNormal :
    (ns : Nodes) → IsOperands any_of ns → 1 ≤ count ns → IsNormal (collapse any_of ns)
unfolding collapse
collapse_any-IsNormal nil h c = absurd (omega arith)
collapse_any-IsNormal (cons n nil) h c = h.0.0
collapse_any-IsNormal (cons n (cons m ns)) h c = (omega arith, h.1, h.0)

collapse_all-IsNormal :
    (ns : Nodes)
    → IsOperands all_of ns
    → 1 ≤ count ns
    → count (negated ns) ≤ 1
    → IsNormal (collapse all_of ns)
unfolding collapse
collapse_all-IsNormal nil h c g = absurd (omega arith)
collapse_all-IsNormal (cons n nil) h c g = h.0.0
collapse_all-IsNormal (cons n (cons m ns)) h c g = (omega arith, h.1, g, h.0)

-- With two or more operands the collapsed `Or` is an `Or`, so it is no `Not`.
neg_collapse-IsNormal :
    (ns : Nodes) → IsOperands any_of ns → 2 ≤ count ns → IsNormal (neg (collapse any_of ns))
unfolding collapse
neg_collapse-IsNormal nil h c = absurd (omega arith)
neg_collapse-IsNormal (cons n nil) h c = absurd (omega arith)
neg_collapse-IsNormal (cons n (cons m ns)) h c = (tt, (omega arith, h.1, h.0))

AllTo-id :
    (norm : Node → Node)
    → ((n : Node) → IsNormal n → norm n ≡ n)
    → (ns : Nodes) → AllNormal ns
    → AllTo norm ns
AllTo-id norm fix nil h = tt
AllTo-id norm fix (cons n ns) h = (rw (fix n h.0) h.0, AllTo-id norm fix ns h.1)

pub merge-IsOperands :
    (norm : Node → Node)
    → ((n : Node) → IsNormal n → norm n ≡ n)
    → (ns : Nodes) → IsOperands all_of ns
    → 1 ≤ count ns
    → IsOperands all_of (merge_negations norm ns)
      × (1 ≤ count (merge_negations norm ns))
      × (count (negated (merge_negations norm ns)) ≤ 1)
unfolding merge_negations
merge-IsOperands norm fix ns h c = elim (Bool-cases (ltb (count (negated ns)) 2)) [
  | inl few ↦ rw few (h, c, ground arith)
  | inr many ↦
      let two : 2 ≤ count (negated ns) = ground arith in
      let flat =
        flatten-IsOperands norm any_of (negated ns)
          (AllTo-id norm fix (negated ns) (negated-AllNormal ns h.0)) in
      let pos = positives-IsOperands ns h in
      let all =
        insert-IsOperands (first_negation ns) (collapse any_of (flatten norm any_of (negated ns)))
          (positives ns) (neg_collapse-IsNormal _ flat.0 (omega arith)) pos.0 in
      rw many (all.0, omega arith, omega arith)
]

negate-IsNormal : (n : Node) → IsNormal n → IsNormal (negate n)
unfolding negate
negate-IsNormal (neg n) h = h.1
negate-IsNormal (conj n) h = (tt, h)
negate-IsNormal (disj n) h = (tt, h)
negate-IsNormal (leaf n) h = (tt, h)
negate-IsNormal (near ls d fs) h = (tt, h)

pub IsNonempty-count : (ns : Nodes) → IsNonempty ns → 1 ≤ count ns
IsNonempty-count nil h = absurd h
IsNonempty-count (cons n ns) h = omega arith

pub AllTo-rec :
    (f : ℕ)
    → ((n : Node) → IsValid n → depth n ≤ f → IsNormal (normalize_fuel f n))
    → (ns : Nodes) → AllValid ns
    → depth_nodes ns ≤ f
    → AllTo (normalize_fuel f) ns
unfolding depth
AllTo-rec f ih nil v d = tt
AllTo-rec f ih (cons n ns) v d = (ih n v.0 (omega arith), AllTo-rec f ih ns v.1 (omega arith))

pub normalize_fuel-IsNormal :
    (f : ℕ) (n : Node) → IsValid n → depth n ≤ f → IsNormal (normalize_fuel f n)
unfolding normalize_fuel depth
normalize_fuel-IsNormal zero (leaf l) v d = tt
normalize_fuel-IsNormal (suc f) (leaf l) v d = tt
normalize_fuel-IsNormal zero (near ls e fs) v d = tt
normalize_fuel-IsNormal (suc f) (near ls e fs) v d = tt
normalize_fuel-IsNormal zero (neg n) v d = absurd (omega arith)
normalize_fuel-IsNormal zero (conj n) v d = absurd (omega arith)
normalize_fuel-IsNormal zero (disj n) v d = absurd (omega arith)
normalize_fuel-IsNormal (suc f) (neg n) v d =
    negate-IsNormal (normalize_fuel f n) (normalize_fuel-IsNormal f n v (omega arith))
normalize_fuel-IsNormal (suc f) (disj ns) v d =
    let flat =
      flatten-IsOperands (normalize_fuel f) any_of ns
        (AllTo-rec f (normalize_fuel-IsNormal f) ns v.1 (omega arith)) in
    collapse_any-IsNormal _ flat.0 (omega (arith, IsNonempty-count ns v.0))
normalize_fuel-IsNormal (suc f) (conj ns) v d =
    let flat =
      flatten-IsOperands (normalize_fuel f) all_of ns
        (AllTo-rec f (normalize_fuel-IsNormal f) ns v.1 (omega arith)) in
    let merged =
      merge-IsOperands (normalize_fuel f) (normalize_fuel_id f) _ flat.0
        (omega (arith, IsNonempty-count ns v.0)) in
    collapse_all-IsNormal _ merged.0 merged.1 merged.2

-- `normalize` of a node that its constructors accept is canonical: no `Not` of a `Not`, no group
-- of one operand or with an operand of its own kind, and at most one `Not` in an `And`, at any depth.
pub normalize-IsNormal : (n : Node) → IsValid n → IsNormal (normalize n)
unfolding normalize
normalize-IsNormal n v = normalize_fuel-IsNormal (depth n) n v (omega arith)

-- `normalize` leaves its result unchanged, for a node that the constructors accept.
pub normalize_idem : (n : Node) → IsValid n → normalize (normalize n) ≡ normalize n
normalize_idem n v = unfold normalize in normalize_fuel_id _ (normalize n) (normalize-IsNormal n v)
