-- ===== src/Search/Scanner/Places.antt =====
-- Where the parts of a query stand: what a cursor points at, and the parts that the scanner splits off.
use sci_etl_core.Prelude.{
  ℕ, zero, suc, ◌+◌, ◌≤◌, ◌≡◌, refl, sym, ap, subst, ◌∙◌, Text, codes, true, false, ◌||◌, [], ◌∷◌,
  ◌++◌, Option, none, some, ◌==◌, starts_with, length, take, drop, is_space, arith, Bool-cases, inl,
  inr, ==_iff,
}
use sci_etl_core.Search.Parser.Placed.{StandsAt}
use sci_etl_core.Search.Scanner.Leaves.{
  skip_spaces, breaks_word, split_word, split_near_word, split_quote, no_text, stem,
}

pub take-append : (a b : Text) → take (length a) (a ++ b) ≡ a
take-append [] b = refl
take-append (c ∷ cs) b = ap (λ r. c ∷ r) (take-append cs b)

pub drop-append : (a b : Text) → drop (length a) (a ++ b) ≡ b
drop-append [] b = refl
drop-append (c ∷ cs) b = drop-append cs b

pub take-length-take : (n : ℕ) (t : Text) → take (length (take n t)) t ≡ take n t
take-length-take zero t = refl
take-length-take (suc n) [] = refl
take-length-take (suc n) (c ∷ cs) = ap (λ r. c ∷ r) (take-length-take n cs)

pub drop-nil : (n : ℕ) → drop {A = ℕ} n [] ≡ []
drop-nil zero = refl
drop-nil (suc n) = refl

pub drop-drop : (i n : ℕ) (t : Text) → drop (i + n) t ≡ drop n (drop i t)
drop-drop zero n t = let e : 0 + n ≡ n = omega arith in ap (λ k. drop k t) e
drop-drop (suc i) n [] = drop-nil (suc i + n) ∙ sym (drop-nil n)
drop-drop (suc i) n (c ∷ cs) =
    let e : suc i + n ≡ suc (i + n) = omega arith in ap (λ k. drop k (c ∷ cs)) e ∙ drop-drop i n cs

pub drop_inside :
    (n : ℕ) (a b : Text) → no_text (drop n a) ≡ false → drop n (a ++ b) ≡ drop n a ++ b
unfolding no_text
drop_inside zero a b h = refl
drop_inside (suc n) [] b h = absurd (ground (arith, h))
drop_inside (suc n) (c ∷ cs) b h = drop_inside n cs b h

pub starts_with-split : (p t : Text) → starts_with p t ≡ true → t ≡ p ++ drop (length p) t
unfolding starts_with
starts_with-split [] t h = refl
starts_with-split (c ∷ cs) [] h = absurd (ground (arith, h))
starts_with-split (c ∷ cs) (d ∷ ds) h = ground (arith, starts_with-split cs ds)

pub split_word-join : (t : Text) → (split_word t).0 ++ (split_word t).1 ≡ t
unfolding split_word
split_word-join [] = refl
split_word-join (c ∷ cs) = elim (Bool-cases (breaks_word c cs)) [
  | inl e ↦ rw e
  | inr e ↦ rw (e, split_word-join cs)
]

abbrev pub SplitsQuote : Text → Option (Text × Text) → Type 0
SplitsQuote t none = Unit
SplitsQuote t (some (inside, after)) = t ≡ inside ++ b'"' ∷ after

SplitsQuote-cons :
    (c : ℕ) (cs : Text) (o : Option (Text × Text))
    → SplitsQuote cs o
    → SplitsQuote
        (c ∷ cs)
        (elim o [ none ↦ none | some (inside, after) ↦ some (c ∷ inside, after) ])
SplitsQuote-cons c cs none h = tt
SplitsQuote-cons c cs (some a) h = ap (λ r. c ∷ r) h

pub split_quote-Splits : (t : Text) → SplitsQuote t (split_quote t)
unfolding split_quote
split_quote-Splits [] = tt
split_quote-Splits (c ∷ cs) = elim (Bool-cases (c == b'"')) [
  | inl e ↦ rw (e, (==_iff c b'"').0 e) refl
  | inr e ↦ rw e (SplitsQuote-cons c cs (split_quote cs) (split_quote-Splits cs))
]

abbrev pub EndsInStar : Text → Option Text → Type 0
EndsInStar t none = Unit
EndsInStar t (some s) = t ≡ s ++ codes "*"

EndsInStar-cons :
    (c : ℕ) (cs : Text) (o : Option Text)
    → EndsInStar cs o
    → EndsInStar (c ∷ cs) (elim o [ none ↦ none | some s ↦ some (c ∷ s) ])
EndsInStar-cons c cs none h = tt
EndsInStar-cons c cs (some s) h = ap (λ r. c ∷ r) h

pub stem-EndsInStar : (t : Text) → EndsInStar t (stem t)
unfolding stem
stem-EndsInStar [] = tt
stem-EndsInStar (c ∷ []) = elim (Bool-cases (c == b'*')) [
  | inl e ↦ rw (e, (==_iff c b'*').0 e) refl
  | inr e ↦ rw e tt
]
stem-EndsInStar (c ∷ d ∷ cs) = EndsInStar-cons c (d ∷ cs) (stem (d ∷ cs)) (stem-EndsInStar (d ∷ cs))

pub split_near_word-join : (t : Text) → (split_near_word t).0 ++ (split_near_word t).1 ≡ t
unfolding split_near_word
split_near_word-join [] = refl
split_near_word-join (c ∷ cs) = elim (Bool-cases (c == b',' || breaks_word c cs)) [
  | inl e ↦ rw e
  | inr e ↦ rw (e, split_near_word-join cs)
]

-- The spaces are skipped up to a text that the new index points at.
abbrev pub PointsAt : Text → ℕ → Text → Type 0
PointsAt text i t = drop i text ≡ t

module _ (text : Text) (i : ℕ) where
  pub stands_prefix : (t a b : Text) → drop i text ≡ t → t ≡ a ++ b → StandsAt text i a
  stands_prefix t a b h e = rw (h, e, take-append)

  pub stands_take : (n : ℕ) (t : Text) → drop i text ≡ t → StandsAt text i (take n t)
  stands_take n t h = rw (h, take-length-take)

  pub drop_prefix : (t a b : Text) → drop i text ≡ t → t ≡ a ++ b → drop (i + length a) text ≡ b
  drop_prefix t a b h e = rw (drop-drop, h, e, drop-append)

  pub drop_more : (n : ℕ) (t : Text) → drop i text ≡ t → drop (i + n) text ≡ drop n t
  drop_more n t h = rw (drop-drop, h)

-- What `skip_spaces` gives: an index no lower, which points at the text given.
pub record Skips (text : Text) (i : ℕ) (r : ℕ × Text) : Type 0 where
  pub later : i ≤ r.0
  pub here : PointsAt text r.0 r.1

pub skip_spaces-Skips :
    (text : Text) (i : ℕ) (t : Text) → PointsAt text i t → Skips text i (skip_spaces i t)
unfolding skip_spaces
skip_spaces-Skips text i [] h = record { later = omega arith; here = h }
skip_spaces-Skips text i (c ∷ cs) h =
    let moved : drop (i + 1) text ≡ cs = drop_more text i 1 (c ∷ cs) h in
    let e : i + 1 ≡ suc i = omega arith in
    let r = skip_spaces-Skips text (suc i) cs (subst (λ k. PointsAt text k cs) e moved) in
    elim (Bool-cases (is_space c)) [
      | inl s ↦ rw s (record { later = omega (arith, r.later); here = r.here })
      | inr s ↦ rw s (record { later = omega arith; here = h })
    ]
