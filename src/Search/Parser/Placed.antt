-- ===== src/Search/Parser/Placed.antt =====
-- Lexemes, parsers and errors that lie in a text, and the rules for a call that may raise.
use sci_etl_core.Prelude.{
  ℕ, zero, suc, ◌+◌, ◌≤◌, ◌<◌, ◌≡◌, refl, subst, Text, Bool, true, false, [], ◌∷◌, Option, none,
  some, if◌then◌else◌, length, take, drop, arith,
}
use sci_etl_core.Search.Ast.{Node, Nodes, neg, IsValid, AllValid}
use sci_etl_core.Search.Lexeme.{
  Kind, end_of_query, open_group, close_group, Lexeme, SearchError, Outcome, ok, raised, exhausted,
  bind, Stream, next, ends, fails, cut,
}
use sci_etl_core.Search.Parser.{
  Parser, next_lexeme, is_end, is_not, is_open, is_close, advance, skip_nots, remaining, size,
}

-- The token stands in the text at the position.
abbrev pub StandsAt : Text → ℕ → Text → Type 0
StandsAt text position token = take (length token) (drop position text) ≡ token

abbrev pub OptionStandsAt : Text → Option ℕ → Text → Type 0
OptionStandsAt text none token = token ≡ []
OptionStandsAt text (some position) token = StandsAt text position token

abbrev pub IsLocated : Text → SearchError → Type 0
IsLocated text e = OptionStandsAt text e.position e.token

-- A node stands in an operand only, and is valid.
abbrev pub HasNode : Kind → Option Node → Type 0
HasNode kind none = Unit
HasNode kind (some n) = (is_end kind ≡ false) × IsValid n

-- A parenthesis has its own text.
abbrev pub HasOwnText : Kind → Text → Type 0
HasOwnText open_group text = text ≡ b'(' ∷ []
HasOwnText close_group text = text ≡ b')' ∷ []
HasOwnText _ text = Unit

pub record IsPlaced (text : Text) (l : Lexeme) : Type 0 where
  pub stands : StandsAt text l.position l.text
  pub own : HasOwnText l.kind l.text
  pub valid : HasNode l.kind l.node

abbrev pub AllPlaced : Text → Stream → Type 0
AllPlaced text (next l rest) = IsPlaced text l × AllPlaced text rest
AllPlaced text (ends position) = Unit
AllPlaced text (fails e) = IsLocated text e
AllPlaced text cut = ⊥

pub record IsReady (text : Text) (p : Parser) : Type 0 where
  pub current : IsPlaced text p.current
  pub previous : IsPlaced text p.previous
  pub rest : AllPlaced text p.rest

-- The call returns what `P` says, or raises an error that lies in the text.
abbrev pub Returns : {A : Type 0} → Text → (A → Type 0) → Outcome A → Type 0
Returns text P (ok a) = P a
Returns text P (raised e) = IsLocated text e
Returns text P exhausted = ⊥

-- A call that has read a node, and at least one lexeme.
pub record Read (text : Text) (p : Parser) (n : Node) (q : Parser) : Type 0 where
  pub valid : IsValid n
  pub ready : IsReady text q
  pub less : size q < size p

-- A loop that has read any number of nodes.
pub record ReadAll (text : Text) (p : Parser) (ns : Nodes) (q : Parser) : Type 0 where
  pub valid : AllValid ns
  pub ready : IsReady text q
  pub less : size q ≤ size p

pub record Moved (text : Text) (p q : Parser) : Type 0 where
  pub ready : IsReady text q
  pub less : size q < size p

pub record Skipped (text : Text) (p q : Parser) : Type 0 where
  pub ready : IsReady text q
  pub less : size q ≤ size p

module _ (text : Text) where
  abbrev pub ReadNode : Parser → Node × Parser → Type 0
  ReadNode p (n, q) = Read text p n q

  abbrev pub ReadNodes : Parser → Nodes × Parser → Type 0
  ReadNodes p (ns, q) = ReadAll text p ns q

  abbrev pub SkippedNots : Parser → ℕ × Parser → Type 0
  SkippedNots p (k, q) = Skipped text p q

  pub bind-Returns :
      {A B : Type 0}
      → (P : A → Type 0) → (Q : B → Type 0) → (o : Outcome A) → (k : A → Outcome B)
      → Returns text P o
      → ((a : A) → P a → Returns text Q (k a))
      → Returns text Q (bind o k)
  unfolding bind
  bind-Returns P Q (ok a) k h f = f a h
  bind-Returns P Q (raised e) k h f = h
  bind-Returns P Q exhausted k h f = h

  pub test-Returns :
      {A : Type 0}
      → (P : A → Type 0) → (b : Bool) → (x y : Outcome A) → (b ≡ true → Returns text P x)
      → (b ≡ false → Returns text P y)
      → Returns text P (elim b [ true ↦ x | false ↦ y ])
  test-Returns P true x y f g = f refl
  test-Returns P false x y f g = g refl

  abbrev pub weight : Lexeme → ℕ
  weight l = if is_end l.kind then 0 else 1

  abbrev pub Given : Stream → Lexeme × Stream → Type 0
  Given s (l, rest) =
      IsPlaced text l × AllPlaced text rest × (remaining rest + weight l ≤ remaining s)

  pub next_lexeme-Given : (s : Stream) → AllPlaced text s → Returns text (Given s) (next_lexeme s)
  unfolding next_lexeme remaining is_end
  next_lexeme-Given (next l rest) h = (h.0, h.1, ground arith)
  next_lexeme-Given (ends k) h = (record { stands = refl; own = tt; valid = tt }, tt, ground arith)
  next_lexeme-Given (fails e) h = h
  next_lexeme-Given cut h = h

  pub advance-Moved :
      (p : Parser)
      → IsReady text p
      → is_end p.current.kind ≡ false
      → Returns text (Moved text p) (advance p)
  unfolding advance size
  advance-Moved p h e =
      bind-Returns (Given p.rest) (Moved text p) (next_lexeme p.rest) _
        (next_lexeme-Given p.rest h.rest)
        (λ a g. record {
          ready = record { current = g.0; previous = h.current; rest = g.1 };
          less = ground (arith, e, g.2);
        })

  pub not_end :
      (test : Kind → Bool)
      → test end_of_query ≡ false
      → (k : Kind) → test k ≡ true
      → is_end k ≡ false
  unfolding is_end
  not_end test z end_of_query h = ground (arith, z, h)
  not_end test z _ h = refl

  pub weaken-Returns :
      {A : Type 0}
      → (P Q : A → Type 0) → (o : Outcome A) → ((a : A) → P a → Q a)
      → Returns text P o
      → Returns text Q o
  weaken-Returns P Q (ok a) f h = f a h
  weaken-Returns P Q (raised e) f h = h
  weaken-Returns P Q exhausted f h = h

  pub node-Returns :
      {A : Type 0}
      → (P : A → Type 0) → (o : Option Node) → (x : Node → Outcome A) → (y : Outcome A)
      → ((n : Node) → o ≡ some n → Returns text P (x n))
      → (o ≡ none → Returns text P y)
      → Returns text P (elim o [ some n ↦ x n | none ↦ y ])
  node-Returns P (some n) x y f g = f n refl
  node-Returns P none x y f g = g refl

  own-open : (k : Kind) (t : Text) → HasOwnText k t → is_open k ≡ true → t ≡ b'(' ∷ []
  unfolding is_open
  own-open open_group t h e = h
  own-open _ t h e = absurd (ground (arith, e))

  own-close : (k : Kind) (t : Text) → HasOwnText k t → is_close k ≡ true → t ≡ b')' ∷ []
  unfolding is_close
  own-close close_group t h e = h
  own-close _ t h e = absurd (ground (arith, e))

  pub skip_nots-Skipped :
      (f k : ℕ)
      → (p : Parser) → IsReady text p
      → size p < f
      → Returns text (SkippedNots p) (skip_nots f k p)
  unfolding skip_nots is_not
  skip_nots-Skipped zero k p h d = absurd (omega (arith, d))
  skip_nots-Skipped (suc f) k p h d =
      test-Returns (SkippedNots p) (is_not p.current.kind) _ _
        (λ e.
          bind-Returns (Moved text p) (SkippedNots p) (advance p) _
            (advance-Moved p h (not_end is_not refl p.current.kind e))
            (λ q m.
              weaken-Returns (SkippedNots q) (SkippedNots p) _
                (λ a r. record { ready = r.ready; less = omega (arith, r.less, m.less) })
                (skip_nots-Skipped f (suc k) q m.ready (omega (arith, d, m.less)))))
        (λ e. record { ready = h; less = ground arith })

  pub open-StandsAt :
      (p : Parser)
      → IsReady text p
      → is_open p.current.kind ≡ true
      → StandsAt text p.current.position (b'(' ∷ [])
  open-StandsAt p h o =
      subst (StandsAt text p.current.position)
        (own-open p.current.kind p.current.text h.current.own o) h.current.stands

  pub close-StandsAt :
      (p : Parser)
      → IsReady text p
      → is_close p.current.kind ≡ true
      → StandsAt text p.current.position (b')' ∷ [])
  close-StandsAt p h o =
      subst (StandsAt text p.current.position)
        (own-close p.current.kind p.current.text h.current.own o) h.current.stands

  pub negated-IsValid : (b : Bool) (n : Node) → IsValid n → IsValid (if b then neg n else n)
  negated-IsValid true n h = h
  negated-IsValid false n h = h
