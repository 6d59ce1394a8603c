-- ===== src/Search/Scanner/Words.antt =====
-- The errors that a word, its leaf or its field scope raises lie in the text.
use sci_etl_core.Prelude.{
  ℕ, suc, ◌+◌, ◌≡◌, refl, sym, ap, subst, ◌∙◌, Text, codes, Bool, true, false, ◌&&◌, List, [], ◌∷◌,
  ◌++◌, append_assoc, Option, none, some, ◌==◌, if◌then◌else◌, length, arith, ==_iff,
}
use sci_etl_core.Search.Ast.{Field}
use sci_etl_core.Search.Tokenize.{Token, Tokenizer}
use sci_etl_core.Search.Lexeme.{Outcome}
use sci_etl_core.Search.Parser.Placed.{StandsAt, Returns, bind-Returns, test-Returns}
use sci_etl_core.Search.Scanner.Leaves.{
  stem, leaf_of, star_leaf, word_leaf, is_letter, scope_names, field_named, lower, requested_fields,
  scoped_fields,
}
use sci_etl_core.Search.Scanner.Places.{
  EndsInStar, stem-EndsInStar, PointsAt, stands_prefix, drop_prefix,
}

-- The names of a scope as they stand in the text.
abbrev pub joined : List Text → Text
joined [] = []
joined (name ∷ []) = name ++ codes ":"
joined (name ∷ other ∷ names) = name ++ b',' ∷ joined (other ∷ names)

abbrev pub StartsWithNames : Text → Option (List Text × ℕ) → Type 0
StartsWithNames t none = Unit
StartsWithNames t (some ([], n)) = ⊥
StartsWithNames t (some (name ∷ names, n)) = (b : Text) × (t ≡ joined (name ∷ names) ++ b)

joined-cons :
    (c : ℕ) (name : Text) (names : List Text)
    → joined ((c ∷ name) ∷ names) ≡ c ∷ joined (name ∷ names)
joined-cons c name [] = refl
joined-cons c name (other ∷ names) = refl

letter-StartsWithNames :
    (c : ℕ) (cs : Text) (o : Option (List Text × ℕ))
    → StartsWithNames cs o
    → StartsWithNames
        (c ∷ cs)
        (elim o [ some (name ∷ names, n) ↦ some ((c ∷ name) ∷ names, suc n) | _ ↦ none ])
letter-StartsWithNames c cs none h = tt
letter-StartsWithNames c cs (some ([], n)) h = tt
letter-StartsWithNames c cs (some (name ∷ names, n)) (b, e) =
    (b, rw (joined-cons c name names, e) refl)

comma-StartsWithNames :
    (cs : Text) (o : Option (List Text × ℕ))
    → StartsWithNames cs o
    → StartsWithNames
        (b',' ∷ cs)
        (elim o [ some (names, n) ↦ some ([] ∷ names, suc n) | none ↦ none ])
comma-StartsWithNames cs none h = tt
comma-StartsWithNames cs (some ([], n)) h = absurd h
comma-StartsWithNames cs (some (name ∷ names, n)) (b, e) = (b, ap (λ r. b',' ∷ r) e)

if-StartsWithNames :
    (t : Text) (b : Bool) (x y : Option (List Text × ℕ))
    → (b ≡ true → StartsWithNames t x)
    → (b ≡ false → StartsWithNames t y)
    → StartsWithNames t (if b then x else y)
if-StartsWithNames t true x y f g = f refl
if-StartsWithNames t false x y f g = g refl

pub scope_names-StartsWithNames :
    (started : Bool) (t : Text) → StartsWithNames t (scope_names started t)
unfolding scope_names
scope_names-StartsWithNames started [] = tt
scope_names-StartsWithNames started (c ∷ cs) =
    let ih = scope_names-StartsWithNames (is_letter c) cs in
    if-StartsWithNames (c ∷ cs) (is_letter c) _ _
      (λ l. letter-StartsWithNames c cs (scope_names (is_letter c) cs) ih)
      (λ l.
        if-StartsWithNames (c ∷ cs) (started && c == b':') _ _
          (λ e. (cs, ap (λ d. d ∷ cs) ((==_iff c b':').0 (ground (arith, e)))))
          (λ e.
            if-StartsWithNames (c ∷ cs) (started && c == b',') _ _
              (λ z.
                subst
                  (λ d. StartsWithNames (d ∷ cs) (elim (scope_names (is_letter c) cs) [
                    | some (names, n) ↦ some ([] ∷ names, suc n)
                    | none ↦ none
                  ]))
                  (sym ((==_iff c b',').0 (ground (arith, z))))
                  (comma-StartsWithNames cs (scope_names (is_letter c) cs) ih))
              (λ z. tt)))

module _ (text : Text) where
  abbrev pub Anything : {A : Type 0} → A → Type 0
  Anything a = Unit

  pub option-Returns :
      {A B : Type 0}
      → (P : B → Type 0) → (o : Option A) → (x : A → Outcome B) → (y : Outcome B)
      → ((a : A) → o ≡ some a → Returns text P (x a))
      → (o ≡ none → Returns text P y)
      → Returns text P (elim o [ some a ↦ x a | none ↦ y ])
  option-Returns P (some a) x y f g = f a refl
  option-Returns P none x y f g = g refl

  pub leaf_of-Returns :
      (ts : List Token) (fields : List Field) (source : Text) (i : ℕ)
      → StandsAt text i source
      → Returns text Anything (leaf_of ts fields source i)
  unfolding leaf_of
  leaf_of-Returns [] fields source i h = h
  leaf_of-Returns (t ∷ []) fields source i h = tt
  leaf_of-Returns (t ∷ u ∷ ts) fields source i h = tt

  star_leaf-Returns :
      (ts : List Token) (s : Text) (i : ℕ) (fields : List Field)
      → StandsAt text (i + length s) (codes "*")
      → Returns text Anything (star_leaf ts s i fields)
  unfolding star_leaf
  star_leaf-Returns [] s i fields h = h
  star_leaf-Returns (t ∷ []) s i fields h =
      test-Returns text Anything (t.end == length s) _ _ (λ e. tt) (λ e. h)
  star_leaf-Returns (t ∷ u ∷ ts) s i fields h = h

  star_stands :
      (i : ℕ) (t word b s : Text)
      → PointsAt text i t
      → t ≡ word ++ b
      → word ≡ s ++ codes "*"
      → StandsAt text (i + length s) (codes "*")
  star_stands i t word b s h e z =
      let split : t ≡ s ++ (codes "*" ++ b) = rw (e, z, append_assoc) in
      stands_prefix text (i + length s) _ (codes "*") b (drop_prefix text i t s _ h split) refl

  pub word_leaf-Returns :
      (tokenizer : Tokenizer) (word : Text) (i : ℕ) (fields : List Field) (t b : Text)
      → PointsAt text i t
      → t ≡ word ++ b
      → Returns text Anything (word_leaf tokenizer word i fields)
  unfolding word_leaf
  word_leaf-Returns tokenizer word i fields t b h e =
      option-Returns Anything (stem word) _ _
        (λ s z.
          star_leaf-Returns (tokenizer s) s i fields
            (star_stands i t word b s h e (subst (EndsInStar word) z (stem-EndsInStar word))))
        (λ z. leaf_of-Returns (tokenizer word) fields word i (stands_prefix text i t word b h e))

  next_name :
      (i : ℕ) (name : Text) (c : ℕ) (r : Text)
      → PointsAt text i (name ++ c ∷ r)
      → PointsAt text (i + length name + 1) r
  next_name i name c r h =
      drop_prefix text (i + length name) (c ∷ r) (c ∷ []) r
        (drop_prefix text i _ name (c ∷ r) h refl) refl

  requested_fields-Returns :
      (names : List Text) (i : ℕ) (t b : Text)
      → PointsAt text i t
      → t ≡ joined names ++ b
      → Returns text Anything (requested_fields names i)
  unfolding requested_fields
  requested_fields-Returns [] i t b h e = tt
  requested_fields-Returns (name ∷ []) i t b h e =
      let split : t ≡ name ++ (codes ":" ++ b) = rw (e, append_assoc) in
      option-Returns Anything (field_named (lower name)) _ _ (λ f z. tt)
        (λ z. stands_prefix text i t name _ h split)
  requested_fields-Returns (name ∷ other ∷ names) i t b h e =
      let split : t ≡ name ++ (b',' ∷ joined (other ∷ names) ++ b) = rw (e, append_assoc) in
      option-Returns Anything (field_named (lower name)) _ _
        (λ f z.
          bind-Returns text Anything Anything
            (requested_fields (other ∷ names) (i + length name + 1)) _
            (requested_fields-Returns (other ∷ names) (i + length name + 1) _ b
              (next_name i name b',' (joined (other ∷ names) ++ b) (h ∙ split)) refl)
            (λ fs u. tt))
        (λ z. stands_prefix text i t name _ h split)

  pub scoped_fields-Returns :
      (names : List Text) (i : ℕ) (t b : Text)
      → PointsAt text i t
      → t ≡ joined names ++ b
      → Returns text Anything (scoped_fields names i)
  unfolding scoped_fields
  scoped_fields-Returns names i t b h e =
      bind-Returns text Anything Anything (requested_fields names i) _
        (requested_fields-Returns names i t b h e) (λ fs u. tt)
