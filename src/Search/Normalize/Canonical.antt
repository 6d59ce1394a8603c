-- ===== src/Search/Normalize/Canonical.antt =====
-- The canonical form of `normalize`: its docstring's rules leave nothing to do.
use sci_etl_core.Prelude.{ℕ, zero, suc, ◌≤◌, ◌≡◌, refl, arith}
use sci_etl_core.Search.Ast.{Node, Nodes, leaf, near, conj, disj, neg, nil, cons, count}
use sci_etl_core.Search.Normalize.{
  Group, all_of, any_of, group, splice, flatten, collapse, negated, merge_negations, negate,
  normalize_fuel,
}

abbrev pub NotNeg : Node → Type 0
NotNeg (neg n) = ⊥
NotNeg n = Unit

-- Neither `n` is a group of this kind.
abbrev pub IsFlat : Group → Node → Type 0
IsFlat all_of (conj ns) = ⊥
IsFlat any_of (disj ns) = ⊥
IsFlat k n = Unit

abbrev pub AllFlat : Group → Nodes → Type 0
AllFlat k nil = Unit
AllFlat k (cons n ns) = IsFlat k n × AllFlat k ns

-- No `Not` of a `Not`; a group has two operands or more, none a group of its kind; an `And` has at
-- most one `Not`.
abbrev mutual
  pub IsNormal : Node → Type 0
  IsNormal (leaf l) = Unit
  IsNormal (near ls d fs) = Unit
  IsNormal (conj ns) = (2 ≤ count ns) × AllFlat all_of ns × (count (negated ns) ≤ 1) × AllNormal ns
  IsNormal (disj ns) = (2 ≤ count ns) × AllFlat any_of ns × AllNormal ns
  IsNormal (neg n) = NotNeg n × IsNormal n

  pub AllNormal : Nodes → Type 0
  AllNormal nil = Unit
  AllNormal (cons n ns) = IsNormal n × AllNormal ns

-- A canonical node is left as it is, with any fuel.
pub splice_flat : (k : Group) (n : Node) (ns : Nodes) → IsFlat k n → splice k n ns ≡ cons n ns
unfolding splice
splice_flat all_of (conj ms) ns h = absurd h
splice_flat all_of (disj ms) ns h = refl
splice_flat all_of (leaf ms) ns h = refl
splice_flat all_of (near ls d fs) ns h = refl
splice_flat all_of (neg ms) ns h = refl
splice_flat any_of (disj ms) ns h = absurd h
splice_flat any_of (conj ms) ns h = refl
splice_flat any_of (leaf ms) ns h = refl
splice_flat any_of (near ls d fs) ns h = refl
splice_flat any_of (neg ms) ns h = refl

pub collapse_many : (k : Group) (ns : Nodes) → 2 ≤ count ns → collapse k ns ≡ group k ns
unfolding collapse
collapse_many k nil h = refl
collapse_many k (cons n nil) h = absurd (omega arith)
collapse_many k (cons n (cons m ns)) h = refl

pub negate_pos : (n : Node) → NotNeg n → negate n ≡ neg n
unfolding negate
negate_pos (neg n) h = absurd h
negate_pos (conj n) h = refl
negate_pos _ h = refl

pub merge_few :
    (norm : Node → Node) (ns : Nodes) → count (negated ns) ≤ 1 → merge_negations norm ns ≡ ns
unfolding merge_negations
merge_few norm ns h = ground arith

pub flatten_id :
    (norm : Node → Node)
    → ((n : Node) → IsNormal n → norm n ≡ n)
    → (k : Group) (ns : Nodes) → AllFlat k ns
    → AllNormal ns
    → flatten norm k ns ≡ ns
unfolding flatten
flatten_id norm fix k nil fl nm = refl
flatten_id norm fix k (cons n ns) fl nm =
    rw (fix n nm.0, flatten_id norm fix k ns fl.1 nm.1) (splice_flat k n ns fl.0)

pub normalize_fuel_id : (f : ℕ) (n : Node) → IsNormal n → normalize_fuel f n ≡ n
unfolding normalize_fuel
normalize_fuel_id zero n h = refl
normalize_fuel_id (suc f) (leaf l) h = refl
normalize_fuel_id (suc f) (near ls d fs) h = refl
normalize_fuel_id (suc f) (neg n) h = rw (normalize_fuel_id f n h.1) (negate_pos n h.0)
normalize_fuel_id (suc f) (disj ns) h =
    rw (flatten_id (normalize_fuel f) (normalize_fuel_id f) any_of ns h.1 h.2)
      (collapse_many any_of ns h.0)
normalize_fuel_id (suc f) (conj ns) h =
    rw
      (
        flatten_id (normalize_fuel f) (normalize_fuel_id f) all_of ns h.1 h.3,
        merge_few (normalize_fuel f) ns h.2,
      )
      (collapse_many all_of ns h.0)
