-- ===== src/Search/Normalize/Fuel.antt =====
-- More fuel than `normalize` takes changes nothing, so `normalize` meets the equations of the code.
use sci_etl_core.Prelude.{ℕ, zero, suc, ◌≤◌, ◌≡◌, refl, arith, sym, ◌∙◌}
use sci_etl_core.Search.Ast.{
  Node, Nodes, leaf, near, conj, disj, neg, nil, cons, depth, depth_nodes, IsValid, AllValid,
}
use sci_etl_core.Search.Normalize.{
  all_of, any_of, Group, flatten, negated, merge_negations, normalize_fuel, normalize,
}
use sci_etl_core.Search.Normalize.Canonical.{IsNormal, AllNormal, normalize_fuel_id}
use sci_etl_core.Search.Normalize.Complete.{
  AllTo-rec, flatten-IsOperands, negated-AllNormal, normalize_fuel-IsNormal,
}

-- Two ways to normalize that agree on the operands.
abbrev AllSame : (Node → Node) → (Node → Node) → Nodes → Type 0
AllSame p q nil = Unit
AllSame p q (cons n ns) = (p n ≡ q n) × AllSame p q ns

flatten_cong :
    (p q : Node → Node) (k : Group) (ns : Nodes) → AllSame p q ns → flatten p k ns ≡ flatten q k ns
unfolding flatten
flatten_cong p q k nil h = refl
flatten_cong p q k (cons n ns) h = rw (h.0, flatten_cong p q k ns h.1)

AllSame-id :
    (p q : Node → Node)
    → ((n : Node) → IsNormal n → p n ≡ n)
    → ((n : Node) → IsNormal n → q n ≡ n)
    → (ns : Nodes) → AllNormal ns
    → AllSame p q ns
AllSame-id p q fp fq nil h = tt
AllSame-id p q fp fq (cons n ns) h = (fp n h.0 ∙ sym (fq n h.0), AllSame-id p q fp fq ns h.1)

merge_cong :
    (p q : Node → Node)
    → ((n : Node) → IsNormal n → p n ≡ n)
    → ((n : Node) → IsNormal n → q n ≡ n)
    → (ns : Nodes) → AllNormal ns
    → merge_negations p ns ≡ merge_negations q ns
unfolding merge_negations
merge_cong p q fp fq ns h = rw (
    flatten_cong p q any_of (negated ns)
      (AllSame-id p q fp fq (negated ns) (negated-AllNormal ns h)))

AllSame-rec :
    (f g : ℕ)
    → ((n : Node) → IsValid n → depth n ≤ f → depth n ≤ g → normalize_fuel f n ≡ normalize_fuel g n)
    → (ns : Nodes) → AllValid ns
    → depth_nodes ns ≤ f
    → depth_nodes ns ≤ g
    → AllSame (normalize_fuel f) (normalize_fuel g) ns
unfolding depth
AllSame-rec f g ih nil v d e = tt
AllSame-rec f g ih (cons n ns) v d e =
    (ih n v.0 (omega arith) (omega arith), AllSame-rec f g ih ns v.1 (omega arith) (omega arith))

normalize_fuel_stable :
    (f g : ℕ) (n : Node)
    → IsValid n
    → depth n ≤ f
    → depth n ≤ g
    → normalize_fuel f n ≡ normalize_fuel g n
unfolding normalize_fuel depth
normalize_fuel_stable zero zero n v d e = refl
normalize_fuel_stable zero (suc g) (leaf l) v d e = refl
normalize_fuel_stable zero (suc g) (near ls c fs) v d e = refl
normalize_fuel_stable zero (suc g) (neg n) v d e = absurd (omega arith)
normalize_fuel_stable zero (suc g) (conj n) v d e = absurd (omega arith)
normalize_fuel_stable zero (suc g) (disj n) v d e = absurd (omega arith)
normalize_fuel_stable (suc f) zero (leaf l) v d e = refl
normalize_fuel_stable (suc f) zero (near ls c fs) v d e = refl
normalize_fuel_stable (suc f) zero (neg n) v d e = absurd (omega arith)
normalize_fuel_stable (suc f) zero (conj n) v d e = absurd (omega arith)
normalize_fuel_stable (suc f) zero (disj n) v d e = absurd (omega arith)
normalize_fuel_stable (suc f) (suc g) (leaf l) v d e = refl
normalize_fuel_stable (suc f) (suc g) (near ls c fs) v d e = refl
normalize_fuel_stable (suc f) (suc g) (neg n) v d e =
    rw (normalize_fuel_stable f g n v (omega arith) (omega arith))
normalize_fuel_stable (suc f) (suc g) (disj ns) v d e = rw (
    flatten_cong (normalize_fuel f) (normalize_fuel g) any_of ns
      (AllSame-rec f g (normalize_fuel_stable f g) ns v.1 (omega arith) (omega arith)))
normalize_fuel_stable (suc f) (suc g) (conj ns) v d e =
    let flat =
      flatten-IsOperands (normalize_fuel g) all_of ns
        (AllTo-rec g (normalize_fuel-IsNormal g) ns v.1 (omega arith)) in
    rw (
      flatten_cong (normalize_fuel f) (normalize_fuel g) all_of ns
          (AllSame-rec f g (normalize_fuel_stable f g) ns v.1 (omega arith) (omega arith)),
      merge_cong (normalize_fuel f) (normalize_fuel g) (normalize_fuel_id f) (normalize_fuel_id g) _
          flat.0.0,
    )

-- With any fuel of at least `depth`, the result is that of `normalize`, for a node that the
-- constructors accept.
pub normalize_fuel_enough :
    (f : ℕ) (n : Node) → IsValid n → depth n ≤ f → normalize_fuel f n ≡ normalize n
normalize_fuel_enough f n v d =
    unfold normalize in normalize_fuel_stable f (depth n) n v d (omega arith)
