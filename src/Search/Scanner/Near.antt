-- ===== src/Search/Scanner/Near.antt =====
-- What the scanner gives for a `NEAR` group: a lexeme or an error that lies in the text, and a cursor
-- that has moved on.
use sci_etl_core.Prelude.{
  ℕ, zero, suc, ◌+◌, ◌-◌, ◌≤◌, ◌<◌, ◌≡◌, refl, sym, ap, subst, ◌∙◌, Text, codes, Bool, true, false,
  List, [], ◌∷◌, ◌++◌, append_assoc, Option, none, some, if◌then◌else◌, length, drop, arith,
  starts_with, length-drop,
}
use sci_etl_core.Search.Ast.{Field, Leaf}
use sci_etl_core.Search.Tokenize.{Tokenizer}
use sci_etl_core.Search.Lexeme.{Lexeme, operand}
use sci_etl_core.Search.Parser.{is_end}
use sci_etl_core.Search.Parser.Placed.{
  StandsAt, IsPlaced, Returns, bind-Returns, test-Returns, weaken-Returns, HasNode,
}
use sci_etl_core.Search.Scanner.Leaves.{
  Cursor, skip_spaces, no_text, starts_operator, split_quote, quoted, split_near_word, leaf_of,
  word_leaf,
}
use sci_etl_core.Search.Scanner.Groups.{
  Operands, is_no_operand, near_operand, ends_operands, near_operands, read_digits, distance_at,
  spread, group_node, close_group_at, near_group, near_distance,
}
use sci_etl_core.Search.Scanner.Places.{
  PointsAt, skip_spaces-Skips, stands_prefix, stands_take, drop_prefix, drop_more,
  starts_with-split, split_quote-Splits, SplitsQuote, split_near_word-join,
}
use sci_etl_core.Search.Scanner.Words.{Anything, option-Returns, leaf_of-Returns, word_leaf-Returns}

-- A cursor past `i` that holds the text from its index on.
pub record Passed (text : Text) (i : ℕ) (c : Cursor) : Type 0 where
  pub later : i < c.index
  pub here : PointsAt text c.index c.rest

pub record Reached (text : Text) (i : ℕ) (c : Cursor) : Type 0 where
  pub later : i ≤ c.index
  pub here : PointsAt text c.index c.rest

pub nonempty_length : (t : Text) → no_text t ≡ false → 0 < length t
unfolding no_text
nonempty_length [] h = absurd (ground (arith, h))
nonempty_length (c ∷ cs) h = omega arith

pub before_end :
    (text : Text) (i : ℕ) (t : Text) → PointsAt text i t → no_text t ≡ false → i < length text
before_end text i t h e =
    let n : length text - i ≡ length t = sym (length-drop i text) ∙ ap length h in
    omega (arith, n, nonempty_length t e)

skip_spaces-later : (i : ℕ) (t : Text) → i ≤ (skip_spaces i t).0
unfolding skip_spaces
skip_spaces-later i [] = omega arith
skip_spaces-later i (c ∷ cs) = let ih = skip_spaces-later (suc i) cs in ground (arith, ih)

abbrev pub EndsLater : ℕ → Option (ℕ × ℕ) → Type 0
EndsLater i none = Unit
EndsLater i (some (value, closing)) = i ≤ closing

if-EndsLater :
    (i value closing : ℕ) (b : Bool)
    → i ≤ closing
    → EndsLater i (if b then some (value, closing) else none)
if-EndsLater i value closing true h = h
if-EndsLater i value closing false h = tt

distance_at-EndsLater : (i : ℕ) (t : Text) → EndsLater i (distance_at i t)
unfolding distance_at
distance_at-EndsLater i t =
    let (first, digits) = skip_spaces i t in
    let (value, n, after) = read_digits 0 0 digits in
    if-EndsLater i value (skip_spaces (first + n) after).0 _
      (omega (arith, skip_spaces-later i t, skip_spaces-later (first + n) after))

group_node-HasNode :
    (ls : List Leaf) (distance : ℕ) (fields : List Field)
    → HasNode operand (group_node ls distance fields)
unfolding group_node is_end
group_node-HasNode [] distance fields = tt
group_node-HasNode (l ∷ []) distance fields = (refl, tt)
group_node-HasNode (l ∷ m ∷ ls) distance fields = (refl, tt)

module _ (text : Text) where
  abbrev pub PassedWith : {A : Type 0} → ℕ → A × Cursor → Type 0
  PassedWith i (a, c) = Passed text i c

  abbrev ReachedWith : {A : Type 0} → ℕ → A × Cursor → Type 0
  ReachedWith i (a, c) = Reached text i c

  -- A lexeme that stands in the text, and a cursor past `i`.
  abbrev pub Scans : ℕ → Lexeme × Cursor → Type 0
  Scans i (l, c) = IsPlaced text l × Passed text i c

  pub quoted_split :
      (t inside after : Text)
      → starts_with (codes "\"") t ≡ true
      → split_quote (drop 1 t) ≡ some (inside, after)
      → t ≡ quoted inside ++ after
  quoted_split t inside after q z =
      starts_with-split (codes "\"") t q
      ∙ ap (λ r. b'"' ∷ r)
          (subst (SplitsQuote (drop 1 t)) z (split_quote-Splits (drop 1 t))
            ∙ sym (append_assoc inside (codes "\"") after))

  near_operand-Returns :
      (tokenizer : Tokenizer) (i : ℕ) (t : Text)
      → PointsAt text i t
      → Returns text (PassedWith i) (near_operand tokenizer i t)
  unfolding near_operand
  near_operand-Returns tokenizer i t h =
      test-Returns text (PassedWith i) (starts_with (codes "\"") t) _ _
        (λ q.
          option-Returns text (PassedWith i) (split_quote (drop 1 t)) _ _
            (λ a z.
              let split = quoted_split t a.0 a.1 q z in
              bind-Returns text (Anything text) (PassedWith i)
                (leaf_of (tokenizer a.0) [] (quoted a.0) i) _
                (leaf_of-Returns text (tokenizer a.0) [] (quoted a.0) i
                  (stands_prefix text i t (quoted a.0) a.1 h split))
                (λ l u. record {
                  later = omega arith;
                  here = drop_prefix text i t (quoted a.0) a.1 h split;
                }))
            (λ z.
              stands_prefix text i t (codes "\"") (drop 1 t) h
                (starts_with-split (codes "\"") t q)))
        (λ q.
          test-Returns text (PassedWith i) (starts_operator t) _ _ (λ o. stands_take text i 2 t h)
            (λ o.
              let split = sym (split_near_word-join t) in
              test-Returns text (PassedWith i) (is_no_operand (split_near_word t).0) _ _
                (λ n. stands_prefix text i t (split_near_word t).0 (split_near_word t).1 h split)
                (λ n.
                  test-Returns text (PassedWith i) (no_text (split_near_word t).0) _ _
                    (λ m. stands_take text i 1 t h)
                    (λ m.
                      bind-Returns text (Anything text) (PassedWith i)
                        (word_leaf tokenizer (split_near_word t).0 i []) _
                        (word_leaf-Returns text tokenizer (split_near_word t).0 i [] t
                          (split_near_word t).1 h split)
                        (λ l u. record {
                          later = omega (arith, nonempty_length (split_near_word t).0 m);
                          here =
                              drop_prefix text i t (split_near_word t).0 (split_near_word t).1 h
                                split;
                        })))))

  -- Enough fuel: each round moves on in the text.
  near_operands-Returns :
      (f : ℕ) (tokenizer : Tokenizer) (opening i : ℕ) (t : Text) (operands : Operands)
      → StandsAt text opening (codes "(")
      → PointsAt text i t
      → length text - i < f
      → Returns text (ReachedWith i) (near_operands f tokenizer opening i t operands)
  unfolding near_operands
  near_operands-Returns zero tokenizer opening i t operands o h d = absurd (omega (arith, d))
  near_operands-Returns (suc f) tokenizer opening i t operands o h d =
      let s = skip_spaces-Skips text i t h in
      test-Returns text (ReachedWith i) (no_text (skip_spaces i t).1) _ _ (λ e. o)
        (λ e.
          test-Returns text (ReachedWith i) (ends_operands (skip_spaces i t).1) _ _
            (λ z. record { later = s.later; here = s.here })
            (λ z.
              bind-Returns text (PassedWith (skip_spaces i t).0) (ReachedWith i)
                (near_operand tokenizer (skip_spaces i t).0 (skip_spaces i t).1) _
                (near_operand-Returns tokenizer (skip_spaces i t).0 (skip_spaces i t).1 s.here)
                (λ a p.
                  let before = before_end text (skip_spaces i t).0 (skip_spaces i t).1 s.here e in
                  weaken-Returns text (ReachedWith a.1.index) (ReachedWith i) _
                    (λ b r. record {
                      later = omega (arith, s.later, p.later, r.later);
                      here = r.here;
                    })
                    (near_operands-Returns f tokenizer opening a.1.index a.1.rest _ o p.here
                      (omega (arith, d, s.later, p.later, before))))))

  close_group_at-Returns :
      (start : ℕ) (t : Text) (closing : ℕ) (operands : Operands) (distance : ℕ)
      (fields : List Field)
      → start ≤ closing
      → PointsAt text start t
      → Returns text (Scans start) (close_group_at start t closing operands distance fields)
  unfolding close_group_at
  close_group_at-Returns start t closing operands distance fields d h =
      option-Returns text (Scans start) (group_node (spread operands) distance fields) _ _
        (λ n z. (
          record {
            stands = stands_take text start (suc closing - start) t h;
            own = tt;
            valid =
                subst (HasNode operand) z (group_node-HasNode (spread operands) distance fields);
          },
          record {
            later = omega (arith, d);
            here =
                let e : start + (suc closing - start) ≡ suc closing = omega (arith, d) in
                subst (λ k. PointsAt text k (drop (suc closing - start) t)) e
                  (drop_more text start (suc closing - start) t h);
          },
        ))
        (λ z. stands_take text start (suc closing - start) t h)

  pub near_group-Returns :
      (tokenizer : Tokenizer) (start : ℕ) (raw after : Text) (fields : List Field)
      → PointsAt text start (raw ++ after)
      → starts_with (codes "(") after ≡ true
      → Returns text (Scans start) (near_group tokenizer start raw after fields)
  unfolding near_group
  near_group-Returns tokenizer start raw after fields h o =
      let opening = drop_prefix text start (raw ++ after) raw after h refl in
      let split = starts_with-split (codes "(") after o in
      let inside =
        drop_prefix text (start + length raw) after (codes "(") (drop 1 after) opening split in
      let e : start + length raw + 1 ≡ suc (start + length raw) = omega arith in
      let n : length text - (start + length raw) ≡ length after =
        sym (length-drop (start + length raw) text) ∙ ap length opening in
      let m : length after ≡ suc (length (drop 1 after)) = ap length split in
      bind-Returns text (ReachedWith (suc (start + length raw))) (Scans start)
        (near_operands (length after) tokenizer (start + length raw) (suc (start + length raw))
          (drop 1 after) [])
        _
        (near_operands-Returns (length after) tokenizer (start + length raw)
          (suc (start + length raw)) (drop 1 after) []
          (stands_prefix text (start + length raw) after (codes "(") (drop 1 after) opening split)
          (subst (λ k. PointsAt text k (drop 1 after)) e inside) (omega (arith, n, m)))
        (λ a r.
          test-Returns text (Scans start) (starts_with (codes ",") a.1.rest) _ _
            (λ c.
              option-Returns text (Scans start) (distance_at (suc a.1.index) (drop 1 a.1.rest)) _ _
                (λ b z.
                  close_group_at-Returns start (raw ++ after) b.1 a.0 b.0 fields
                    (let late =
                        subst (EndsLater (suc a.1.index)) z
                          (distance_at-EndsLater (suc a.1.index) (drop 1 a.1.rest)) in
                      omega (arith, r.later, late))
                    h)
                (λ z.
                  stands_prefix text a.1.index a.1.rest (codes ",") _ r.here
                    (starts_with-split (codes ",") a.1.rest c)))
            (λ c.
              close_group_at-Returns start (raw ++ after) a.1.index a.0 near_distance fields
                (omega (arith, r.later)) h))
