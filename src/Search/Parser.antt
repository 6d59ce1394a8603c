-- ===== src/Search/Parser.antt =====
-- `_Parser` of search/parser.py: recursive descent over the lexemes. Every call takes a unit of fuel;
-- `fuel_for` units are enough.
pub mod Placed
pub mod Total
mod Tests
use sci_etl_core.Prelude.{
  ℕ, zero, suc, ◌+◌, ◌*◌, ◌%◌, Text, Bool, true, false, ◌||◌, [], ◌∷◌, Option, none, some, ltb,
  ◌==◌, if◌then◌else◌,
}
use sci_etl_core.Search.Ast.{Node, Nodes, conj, disj, neg, nil, cons}
use sci_etl_core.Search.Lexeme.{
  Kind, operand, and_op, or_op, not_op, open_group, close_group, end_of_query, Lexeme, empty_query,
  unmatched_close, term_after, term_before, too_deep, unclosed_group, Outcome, ok, raised,
  exhausted, error_at, bind, Stream, next, ends, fails, cut,
}

abbrev pub max_group_depth : ℕ
max_group_depth = 32

-- A parser, with the lexemes that its scanner has still to give.
pub record Parser : Type 0 where
  pub current : Lexeme
  pub previous : Lexeme
  pub rest : Stream

abbrev pub end_lexeme : ℕ → Lexeme
end_lexeme position = record { kind = end_of_query; text = []; position = position; node = none }

unfoldable pub next_lexeme : Stream → Outcome (Lexeme × Stream)
next_lexeme (next l rest) = ok (l, rest)
next_lexeme (ends position) = ok (end_lexeme position, ends position)
next_lexeme (fails e) = raised e
next_lexeme cut = exhausted

unfoldable pub is_end : Kind → Bool
is_end end_of_query = true
is_end _ = false

unfoldable pub is_or : Kind → Bool
is_or or_op = true
is_or _ = false

unfoldable pub is_and : Kind → Bool
is_and and_op = true
is_and _ = false

unfoldable pub is_not : Kind → Bool
is_not not_op = true
is_not _ = false

unfoldable pub is_open : Kind → Bool
is_open open_group = true
is_open _ = false

unfoldable pub is_close : Kind → Bool
is_close close_group = true
is_close _ = false

-- `kind in _OPERAND_STARTS`.
unfoldable pub starts_operand : Kind → Bool
starts_operand operand = true
starts_operand open_group = true
starts_operand not_op = true
starts_operand _ = false

unfoldable pub advance : Parser → Outcome Parser
unfolding bind next_lexeme
advance p =
    bind (next_lexeme p.rest)
      (λ (l, rest). ok (record { current = l; previous = p.current; rest = rest }))

-- The loop of `_negation`, which counts.
unfoldable pub skip_nots : ℕ → ℕ → Parser → Outcome (ℕ × Parser)
unfolding bind advance is_not
skip_nots zero negations p = exhausted
skip_nots (suc f) negations p = elim (is_not p.current.kind) [
  | true ↦ bind (advance p) (λ p'. skip_nots f (suc negations) p')
  | false ↦ ok (negations, p)
]

-- `_disjunction` and `_conjunction`, each with its loop, then `_negation`, `_primary` and `_group`.
unfoldable mutual
  pub disjunction : ℕ → ℕ → Parser → Outcome (Node × Parser)
  disjunction zero depth p = exhausted
  disjunction (suc f) depth p =
      bind (conjunction f depth p)
        (λ (n, p'). bind (more_disjuncts f depth p') (λ (ns, p''). ok (disj (cons n ns), p'')))

  pub more_disjuncts : ℕ → ℕ → Parser → Outcome (Nodes × Parser)
  more_disjuncts zero depth p = exhausted
  more_disjuncts (suc f) depth p = elim (is_or p.current.kind) [
    | true ↦ bind (advance p) (λ p'.
        bind (conjunction f depth p')
          (λ (n, p''). bind (more_disjuncts f depth p'') (λ (ns, q). ok (cons n ns, q))))
    | false ↦ ok (nil, p)
  ]

  pub conjunction : ℕ → ℕ → Parser → Outcome (Node × Parser)
  conjunction zero depth p = exhausted
  conjunction (suc f) depth p =
      bind (negation f depth p)
        (λ (n, p'). bind (more_conjuncts f depth p') (λ (ns, p''). ok (conj (cons n ns), p'')))

  pub more_conjuncts : ℕ → ℕ → Parser → Outcome (Nodes × Parser)
  more_conjuncts zero depth p = exhausted
  more_conjuncts (suc f) depth p = elim (is_and p.current.kind || starts_operand p.current.kind) [
    | true ↦
        bind (elim (is_and p.current.kind) [ true ↦ advance p | false ↦ ok p ])
          (λ p'.
            bind (negation f depth p')
              (λ (n, p''). bind (more_conjuncts f depth p'') (λ (ns, q). ok (cons n ns, q))))
    | false ↦ ok (nil, p)
  ]

  pub negation : ℕ → ℕ → Parser → Outcome (Node × Parser)
  negation zero depth p = exhausted
  negation (suc f) depth p = bind (skip_nots f 0 p) (λ (negations, p').
      bind (primary f depth p') (λ (n, p''). ok (if negations % 2 == 1 then neg n else n, p'')))

  pub primary : ℕ → ℕ → Parser → Outcome (Node × Parser)
  primary zero depth p = exhausted
  primary (suc f) depth p = elim p.current.node [
    | some n ↦ bind (advance p) (λ p'. ok (n, p'))
    | none ↦ elim (is_open p.current.kind) [
      | true ↦ group f (suc depth) p
      | false ↦ elim (is_end p.current.kind) [
        | true ↦ error_at term_after p.previous.position p.previous.text
        | false ↦ error_at term_before p.current.position p.current.text
      ]
    ]
  ]

  -- `opening` is the current lexeme.
  pub group : ℕ → ℕ → Parser → Outcome (Node × Parser)
  group zero depth p = exhausted
  group (suc f) depth p = elim (ltb max_group_depth depth) [
    | true ↦ error_at too_deep p.current.position (b'(' ∷ [])
    | false ↦ bind (advance p) (λ p'. bind (disjunction f depth p') (λ (n, p'').
        elim (is_close p''.current.kind) [
          | true ↦ bind (advance p'') (λ q. ok (n, q))
          | false ↦ error_at unclosed_group p.current.position (b'(' ∷ [])
        ]))
  ]

unfoldable pub remaining : Stream → ℕ
remaining (next l rest) = suc (remaining rest)
remaining (ends position) = 0
remaining (fails e) = 0
remaining cut = 0

-- The lexemes before the end.
unfoldable pub size : Parser → ℕ
unfolding remaining is_end
size p = remaining p.rest + (if is_end p.current.kind then 0 else 1)

unfoldable pub fuel_for : Parser → ℕ
unfolding size
fuel_for p = 8 * size p + 5

-- `_Parser.__init__`.
unfoldable pub new_parser : Stream → Outcome Parser
unfolding bind next_lexeme
new_parser stream =
    bind (next_lexeme stream) (λ (l, rest). ok (record { current = l; previous = l; rest = rest }))

-- `_Parser.parse`.
unfoldable pub parse : Parser → Outcome Node
unfolding bind disjunction skip_nots fuel_for is_end is_close is_open is_or is_and starts_operand
parse p = elim (is_end p.current.kind) [
  | true ↦ error_at empty_query 0 []
  | false ↦ bind (disjunction (fuel_for p) 0 p) (λ (n, p'). elim (is_close p'.current.kind) [
    | true ↦ error_at unmatched_close p'.current.position (b')' ∷ [])
    | false ↦ ok n
  ])
]
