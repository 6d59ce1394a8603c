-- ===== src/Search/Fts5/Quoting.antt =====
-- How FTS5 reads the literals that `_quote` writes.
use sci_etl_core.Prelude.{
  ℕ, ◌≡◌, refl, ap, ◌∙◌, Text, codes, Bool, true, false, [], ◌∷◌, ◌++◌, append_assoc, Option, none,
  some, ◌==◌, if◌then◌else◌, starts_with, Bool-cases, inl, inr, ==_iff, arith,
}
use sci_etl_core.Search.Fts5.{is_unsendable, escape, quote}

abbrev push : ℕ → Option (Text × Text) → Option (Text × Text)
push c none = none
push c (some (inside, after)) = some (c ∷ inside, after)

-- A literal from its opening quote on: a doubled quote is one quote, and any other ends the literal.
-- `pending` tells that the character before was a quote.
abbrev pub read_inside : Bool → Text → Option (Text × Text)
read_inside true [] = some ([], [])
read_inside false [] = none
read_inside true (c ∷ cs) =
    if c == b'"' then push b'"' (read_inside false cs) else some ([], c ∷ cs)
read_inside false (c ∷ cs) =
    if c == b'"' then read_inside true cs else push c (read_inside false cs)

abbrev pub read_literal : Text → Option (Text × Text)
read_literal [] = none
read_literal (c ∷ cs) = if c == b'"' then read_inside false cs else none

-- The text, where each character that SQLite cannot take is a space.
abbrev pub sendable : Text → Text
sendable [] = []
sendable (c ∷ cs) = (if is_unsendable c then b' ' else c) ∷ sendable cs

ends_here :
    (rest : Text) → starts_with (codes "\"") rest ≡ false → read_inside true rest ≡ some ([], rest)
unfolding starts_with
ends_here [] h = refl
ends_here (c ∷ cs) h = let e : (c == b'"') ≡ false = ground (arith, h) in rw e refl

escape-read :
    (t rest : Text)
    → starts_with (codes "\"") rest ≡ false
    → read_inside false (escape t ++ b'"' ∷ rest) ≡ some (sendable t, rest)
unfolding escape
escape-read [] rest h = ends_here rest h
escape-read (c ∷ cs) rest h = elim (Bool-cases (is_unsendable c)) [
  | inl u ↦ rw (u, escape-read cs rest h) refl
  | inr u ↦ elim (Bool-cases (c == b'"')) [
    | inl q ↦ rw (u, q, escape-read cs rest h, (==_iff c b'"').0 q) refl
    | inr q ↦ rw (u, q, q, escape-read cs rest h) refl
  ]
]

-- A quoted text is read back as one literal, whatever the text: the reader ends at the closing quote
-- and gives the text with its unsendable characters as spaces. What follows the literal may not start
-- with a quote.
pub quote-read_literal :
    (t rest : Text)
    → starts_with (codes "\"") rest ≡ false
    → read_literal (quote t ++ rest) ≡ some (sendable t, rest)
unfolding quote
quote-read_literal t rest h =
    ap (read_inside false) (append_assoc (escape t) (codes "\"") rest) ∙ escape-read t rest h
