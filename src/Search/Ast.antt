-- ===== src/Search/Ast.antt =====
-- The query AST of search/query.py. `Term` and `Phrase`, which `Near` takes alone, are `Leaf`.
use sci_etl_core.Prelude.{ℕ, suc, max, Text, Bool, List, [], ◌∷◌}

-- `FIELDS`: `_require_known_fields` lets no other name into a node.
pub data Field : Type 0 where
  title abstract body : Field

abbrev pub all_fields : List Field
all_fields = title ∷ abstract ∷ body ∷ []

pub data Leaf : Type 0 where
  term : Text → List Field → Bool → Leaf
  phrase : List Text → List Field → Leaf

-- `Nodes` is the tuple of operands.
mutual
  pub data Node : Type 0 where
    leaf : Leaf → Node
    near : List Leaf → ℕ → List Field → Node
    conj : Nodes → Node
    disj : Nodes → Node
    neg : Node → Node

  pub data Nodes : Type 0 where
    nil : Nodes
    cons : Node → Nodes → Nodes

abbrev pub append : Nodes → Nodes → Nodes
append nil ms = ms
append (cons n ns) ms = cons n (append ns ms)

abbrev pub count : Nodes → ℕ
count nil = 0
count (cons n ns) = suc (count ns)

-- How far the operators nest; a leaf or a `NEAR` group is at 0.
unfoldable mutual
  pub depth : Node → ℕ
  depth (leaf l) = 0
  depth (near ls d fs) = 0
  depth (conj ns) = suc (depth_nodes ns)
  depth (disj ns) = suc (depth_nodes ns)
  depth (neg n) = suc (depth n)

  pub depth_nodes : Nodes → ℕ
  depth_nodes nil = 0
  depth_nodes (cons n ns) = max (depth n) (depth_nodes ns)

abbrev pub IsNonempty : Nodes → Type 0
IsNonempty nil = ⊥
IsNonempty (cons n ns) = Unit

-- What the constructors check: `And` and `Or` have an operand.
abbrev mutual
  pub IsValid : Node → Type 0
  IsValid (leaf l) = Unit
  IsValid (near ls d fs) = Unit
  IsValid (conj ns) = IsNonempty ns × AllValid ns
  IsValid (disj ns) = IsNonempty ns × AllValid ns
  IsValid (neg n) = IsValid n

  pub AllValid : Nodes → Type 0
  AllValid nil = Unit
  AllValid (cons n ns) = IsValid n × AllValid ns
