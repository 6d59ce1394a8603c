-- ===== src/Search/Boolean.antt =====
-- The operators of `_satisfies` in search/evaluate.py, over any reading of the leaves and the
-- `NEAR` groups.
use sci_etl_core.Prelude.{ℕ, Bool, true, false, not, ◌&&◌, ◌||◌, List, ◌≡◌, refl, arith}
use sci_etl_core.Search.Ast.{
  Field, Leaf, Node, Nodes, leaf, near, conj, disj, neg, nil, cons, append,
}

module _ (reads : Leaf → Bool) (reads_near : List Leaf → ℕ → List Field → Bool) where
  unfoldable mutual
    pub holds : Node → Bool
    holds (leaf l) = reads l
    holds (near ls d fs) = reads_near ls d fs
    holds (conj ns) = holds_all ns
    holds (disj ns) = holds_any ns
    holds (neg n) = not (holds n)

    -- `all` and `any` over the operands.
    pub holds_all : Nodes → Bool
    holds_all nil = true
    holds_all (cons n ns) = holds n && holds_all ns

    pub holds_any : Nodes → Bool
    holds_any nil = false
    holds_any (cons n ns) = holds n || holds_any ns

  pub holds_all-append : (ns ms : Nodes) → holds_all (append ns ms) ≡ (holds_all ns && holds_all ms)
  unfolding holds
  holds_all-append nil ms = refl
  holds_all-append (cons n ns) ms = ground (arith, holds_all-append ns ms)

  pub holds_any-append : (ns ms : Nodes) → holds_any (append ns ms) ≡ (holds_any ns || holds_any ms)
  unfolding holds
  holds_any-append nil ms = refl
  holds_any-append (cons n ns) ms = ground (arith, holds_any-append ns ms)
