-- ===== src/Search/Scanner/Symbols.antt =====
-- The keywords, the symbols, and how a word starts where no symbol does.
use sci_etl_core.Prelude.{
  ℕ, suc, ◌<◌, ◌≡◌, refl, Text, codes, Bool, true, false, [], ◌∷◌, Option, none, some, ◌==◌,
  if◌then◌else◌, length, arith, Bool-cases, inl, inr, starts_with, text_eq, is_space,
}
use sci_etl_core.Search.Lexeme.{Kind}
use sci_etl_core.Search.Parser.Placed.{HasOwnText}
use sci_etl_core.Search.Scanner.Leaves.{
  skip_spaces, no_text, breaks_word, starts_operator, split_word, keyword_kind,
}
use sci_etl_core.Search.Scanner.{symbol_at}

abbrev pub IsOwn : Text → Option Kind → Type 0
IsOwn raw none = Unit
IsOwn raw (some k) = HasOwnText k raw

pub keyword_kind-IsOwn : (raw : Text) → IsOwn raw (keyword_kind raw)
unfolding keyword_kind
keyword_kind-IsOwn raw = elim (Bool-cases (text_eq raw (codes "AND"))) [
  | inl e ↦ rw e tt
  | inr e ↦ elim (Bool-cases (text_eq raw (codes "OR"))) [
    | inl f ↦ rw (e, f) tt
    | inr f ↦ elim (Bool-cases (text_eq raw (codes "NOT"))) [
      | inl g ↦ rw (e, f, g) tt
      | inr g ↦ rw (e, f, g) tt
    ]
  ]
]

pub record IsSymbol (t : Text) (k : Kind) (s : Text) : Type 0 where
  pub starts : starts_with s t ≡ true
  pub own : HasOwnText k s
  pub long : 0 < length s

-- A symbol, or a text that no symbol starts.
abbrev pub Symbols : Text → Option (Kind × Text) → Type 0
Symbols t none =
    (starts_operator t ≡ false)
    × (starts_with (codes "(") t ≡ false)
    × (starts_with (codes ")") t ≡ false)
Symbols t (some (k, s)) = IsSymbol t k s

if-Symbols :
    (t : Text) (b : Bool) (x y : Option (Kind × Text))
    → (b ≡ true → Symbols t x)
    → (b ≡ false → Symbols t y)
    → Symbols t (if b then x else y)
if-Symbols t true x y f g = f refl
if-Symbols t false x y f g = g refl

pub symbol_at-Symbols : (t : Text) → Symbols t (symbol_at t)
unfolding symbol_at starts_operator
symbol_at-Symbols t =
    if-Symbols t (starts_with (codes "&&") t) _ _
      (λ e. record { starts = e; own = tt; long = omega arith })
      (λ a.
        if-Symbols t (starts_with (codes "||") t) _ _
          (λ e. record { starts = e; own = tt; long = omega arith })
          (λ b.
            if-Symbols t (starts_with (codes "-") t) _ _
              (λ e. record { starts = e; own = tt; long = omega arith })
              (λ c.
                if-Symbols t (starts_with (codes "(") t) _ _
                  (λ e. record { starts = e; own = refl; long = omega arith })
                  (λ d.
                    if-Symbols t (starts_with (codes ")") t) _ _
                      (λ e. record { starts = e; own = refl; long = omega arith })
                      (λ e. (ground (arith, a, b), d, e))))))

abbrev pub StartsNoSpace : Text → Type 0
StartsNoSpace [] = Unit
StartsNoSpace (c ∷ cs) = is_space c ≡ false

pub skip_spaces-StartsNoSpace : (i : ℕ) (t : Text) → StartsNoSpace (skip_spaces i t).1
unfolding skip_spaces
skip_spaces-StartsNoSpace i [] = tt
skip_spaces-StartsNoSpace i (c ∷ cs) = elim (Bool-cases (is_space c)) [
  | inl e ↦ rw e (skip_spaces-StartsNoSpace (suc i) cs)
  | inr e ↦ rw e e
]

first_ne : (p c : ℕ) (cs : Text) → starts_with (p ∷ []) (c ∷ cs) ≡ false → (c == p) ≡ false
unfolding starts_with
first_ne p c cs h = ground (arith, h)

continues :
    (c : ℕ) (cs : Text)
    → is_space c ≡ false
    → starts_operator (c ∷ cs) ≡ false
    → (c == b'(') ≡ false
    → (c == b')') ≡ false
    → (c == b'"') ≡ false
    → breaks_word c cs ≡ false
unfolding breaks_word
continues c cs s o a b q = rw (s, a, b, q, o)

pub word_begins :
    (t : Text)
    → no_text t ≡ false
    → StartsNoSpace t
    → starts_operator t ≡ false
    → starts_with (codes "(") t ≡ false
    → starts_with (codes ")") t ≡ false
    → starts_with (codes "\"") t ≡ false
    → no_text (split_word t).0 ≡ false
unfolding split_word no_text
word_begins [] n s o a b q = n
word_begins (c ∷ cs) n s o a b q =
    rw (continues c cs s o (first_ne b'(' c cs a) (first_ne b')' c cs b) (first_ne b'"' c cs q))
      refl
