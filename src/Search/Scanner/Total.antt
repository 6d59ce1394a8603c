-- ===== src/Search/Scanner/Total.antt =====
-- What the scanner gives from any cursor on: lexemes that stand in the text, up to the end or to an
-- error that lies in the text.
use sci_etl_core.Prelude.{
  ℕ, zero, suc, ◌+◌, ◌-◌, ◌<◌, ◌≡◌, refl, sym, ap, subst, ◌∙◌, Text, codes, Bool, true, false, ◌&&◌,
  List, [], ◌∷◌, ◌++◌, append_assoc, Option, none, some, length, drop, arith, starts_with, text_eq,
}
use sci_etl_core.Search.Ast.{Field, Node, leaf}
use sci_etl_core.Search.Tokenize.{Tokenizer}
use sci_etl_core.Search.Lexeme.{
  Kind, operand, Lexeme, Outcome, ok, raised, exhausted, Stream, next, fails, cut,
}
use sci_etl_core.Search.Parser.{is_end}
use sci_etl_core.Search.Parser.Placed.{
  HasOwnText, HasNode, AllPlaced, Returns, bind-Returns, test-Returns,
}
use sci_etl_core.Search.Scanner.Leaves.{
  Cursor, skip_spaces, no_text, split_word, split_quote, quoted, field_scope, keyword_kind,
  scoped_fields, leaf_of, word_leaf, near_keyword,
}
use sci_etl_core.Search.Scanner.{symbol_at, scoped_at, phrase_at, word_at, lexeme_at, lexemes}
use sci_etl_core.Search.Scanner.Places.{
  PointsAt, skip_spaces-Skips, stands_prefix, drop_prefix, drop_more, drop_inside,
  starts_with-split, split_word-join,
}
use sci_etl_core.Search.Scanner.Words.{
  Anything, option-Returns, leaf_of-Returns, word_leaf-Returns, scoped_fields-Returns, joined,
  StartsWithNames, scope_names-StartsWithNames,
}
use sci_etl_core.Search.Scanner.Near.{
  Passed, Scans, quoted_split, nonempty_length, before_end, near_group-Returns,
}
use sci_etl_core.Search.Scanner.Symbols.{
  IsOwn, keyword_kind-IsOwn, Symbols, symbol_at-Symbols, StartsNoSpace, skip_spaces-StartsNoSpace,
  word_begins,
}

module _ (text : Text) where
  phrase_at-Returns :
      (tokenizer : Tokenizer) (start : ℕ) (raw t : Text) (fields : List Field)
      → PointsAt text start (raw ++ t)
      → starts_with (codes "\"") t ≡ true
      → Returns text (Scans text start) (phrase_at tokenizer start raw (drop 1 t) fields)
  unfolding phrase_at is_end
  phrase_at-Returns tokenizer start raw t fields h q =
      let here = drop_prefix text start (raw ++ t) raw t h refl in
      option-Returns text (Scans text start) (split_quote (drop 1 t)) _ _
        (λ a z.
          let split = quoted_split text t a.0 a.1 q z in
          let whole : raw ++ t ≡ (raw ++ quoted a.0) ++ a.1 =
            ap (λ r. raw ++ r) split ∙ sym (append_assoc raw (quoted a.0) a.1) in
          bind-Returns text (Anything text) (Scans text start)
            (leaf_of (tokenizer a.0) fields (quoted a.0) (start + length raw)) _
            (leaf_of-Returns text (tokenizer a.0) fields (quoted a.0) (start + length raw)
              (stands_prefix text (start + length raw) t (quoted a.0) a.1 here split))
            (λ l u. (
              record {
                stands = stands_prefix text start (raw ++ t) (raw ++ quoted a.0) a.1 h whole;
                own = tt;
                valid = (refl, tt);
              },
              record {
                later = omega arith;
                here = drop_prefix text (start + length raw) t (quoted a.0) a.1 here split;
              },
            )))
        (λ z.
          stands_prefix text (start + length raw) t (codes "\"") (drop 1 t) here
            (starts_with-split (codes "\"") t q))

  names_return :
      (start : ℕ) (raw after : Text) (names : List Text) (n : ℕ)
      → PointsAt text start (raw ++ after)
      → StartsWithNames raw (some (names, n))
      → Returns text (Anything text) (scoped_fields names start)
  names_return start raw after [] n h s = absurd s
  names_return start raw after (name ∷ names) n h (b, e) =
      scoped_fields-Returns text (name ∷ names) start (raw ++ after) (b ++ after) h
        (ap (λ r. r ++ after) e ∙ append_assoc (joined (name ∷ names)) b after)

  -- A lexeme for the whole word, whatever node or keyword it is.
  whole_word :
      (start : ℕ) (raw after : Text) (k : Kind) (n : Option Node)
      → PointsAt text start (raw ++ after)
      → no_text raw ≡ false
      → HasOwnText k raw
      → HasNode k n
      → Scans text start (
        record { kind = k; text = raw; position = start; node = n },
        record { index = start + length raw; rest = after },
      )
  whole_word start raw after k n h e own valid = (
    record {
      stands = stands_prefix text start (raw ++ after) raw after h refl;
      own = own;
      valid = valid;
    },
    record {
      later = omega (arith, nonempty_length raw e);
      here = drop_prefix text start (raw ++ after) raw after h refl;
    },
  )

  scoped_at-Returns :
      (tokenizer : Tokenizer) (start : ℕ) (raw after : Text) (n : ℕ) (fields : List Field)
      → PointsAt text start (raw ++ after)
      → no_text raw ≡ false
      → Returns text (Scans text start) (scoped_at tokenizer start raw after n fields)
  unfolding scoped_at is_end
  scoped_at-Returns tokenizer start raw after n fields h e =
      test-Returns text (Scans text start)
        (text_eq (drop n raw) near_keyword && starts_with (codes "(") after) _ _
        (λ z. near_group-Returns text tokenizer start raw after fields h (ground (arith, z)))
        (λ z.
          test-Returns text (Scans text start) (no_text (drop n raw)) _ _
            (λ m.
              test-Returns text (Scans text start) (starts_with (codes "\"") after) _ _
                (λ q. phrase_at-Returns tokenizer start raw after fields h q)
                (λ q. stands_prefix text start (raw ++ after) raw after h refl))
            (λ m.
              bind-Returns text (Anything text) (Scans text start)
                (word_leaf tokenizer (drop n raw) (start + n) fields) _
                (word_leaf-Returns text tokenizer (drop n raw) (start + n) fields
                  (drop n (raw ++ after)) after (drop_more text start n (raw ++ after) h)
                  (drop_inside n raw after m))
                (λ l u. whole_word start raw after operand (some (leaf l)) h e tt (refl, tt))))

  word_at-Returns :
      (tokenizer : Tokenizer) (default_fields : List Field) (start : ℕ) (raw after : Text)
      → PointsAt text start (raw ++ after)
      → no_text raw ≡ false
      → Returns text (Scans text start) (word_at tokenizer default_fields start raw after)
  unfolding word_at is_end field_scope
  word_at-Returns tokenizer default_fields start raw after h e =
      option-Returns text (Scans text start) (keyword_kind raw) _ _
        (λ k z.
          whole_word start raw after k none h e (subst (IsOwn raw) z (keyword_kind-IsOwn raw)) tt)
        (λ z.
          option-Returns text (Scans text start) (field_scope raw) _ _
            (λ a s.
              bind-Returns text (Anything text) (Scans text start) (scoped_fields a.0 start) _
                (names_return start raw after a.0 a.1 h
                  (subst (StartsWithNames raw) s (scope_names-StartsWithNames false raw)))
                (λ fields u. scoped_at-Returns tokenizer start raw after a.1 fields h e))
            (λ s.
              test-Returns text (Scans text start)
                (text_eq raw near_keyword && starts_with (codes "(") after) _ _
                (λ n.
                  near_group-Returns text tokenizer start raw after default_fields h
                    (ground (arith, n)))
                (λ n.
                  bind-Returns text (Anything text) (Scans text start)
                    (word_leaf tokenizer raw start default_fields) _
                    (word_leaf-Returns text tokenizer raw start default_fields (raw ++ after) after
                      h refl)
                    (λ l u. whole_word start raw after operand (some (leaf l)) h e tt (refl, tt)))))

  lexeme_at-Returns :
      (tokenizer : Tokenizer) (default_fields : List Field) (start : ℕ) (t : Text)
      → PointsAt text start t
      → no_text t ≡ false
      → StartsNoSpace t
      → Returns text (Scans text start) (lexeme_at tokenizer default_fields start t)
  unfolding lexeme_at
  lexeme_at-Returns tokenizer default_fields start t h e s =
      let symbols = symbol_at-Symbols t in
      option-Returns text (Scans text start) (symbol_at t) _ _
        (λ a z.
          let found = subst (Symbols t) z symbols in
          let split = starts_with-split a.1 t found.starts in
          (
            record {
              stands = stands_prefix text start t a.1 (drop (length a.1) t) h split;
              own = found.own;
              valid = tt;
            },
            record {
              later = omega (arith, found.long);
              here = drop_more text start (length a.1) t h;
            },
          ))
        (λ z.
          let found = subst (Symbols t) z symbols in
          test-Returns text (Scans text start) (starts_with (codes "\"") t) _ _
            (λ q. phrase_at-Returns tokenizer start [] t default_fields h q)
            (λ q.
              word_at-Returns tokenizer default_fields start (split_word t).0 (split_word t).1
                (h ∙ sym (split_word-join t)) (word_begins t e s found.0 found.1 found.2 q)))

  stream-AllPlaced :
      (start : ℕ) (o : Outcome (Lexeme × Cursor)) (k : Cursor → Stream)
      → Returns text (Scans text start) o
      → ((c : Cursor) → Passed text start c → AllPlaced text (k c))
      → AllPlaced text (elim o [ ok (l, c) ↦ next l (k c) | raised e ↦ fails e | exhausted ↦ cut ])
  stream-AllPlaced start (ok (l, c)) k h f = (h.0, f c h.1)
  stream-AllPlaced start (raised e) k h f = h
  stream-AllPlaced start exhausted k h f = h

  test-AllPlaced :
      (b : Bool) (x y : Stream)
      → (b ≡ true → AllPlaced text x)
      → (b ≡ false → AllPlaced text y)
      → AllPlaced text (elim b [ true ↦ x | false ↦ y ])
  test-AllPlaced true x y f g = f refl
  test-AllPlaced false x y f g = g refl

  -- The fuel is enough: every lexeme moves on in the text.
  pub lexemes-AllPlaced :
      (f : ℕ) (tokenizer : Tokenizer) (default_fields : List Field) (c : Cursor)
      → PointsAt text c.index c.rest
      → length text - c.index < f
      → AllPlaced text (lexemes f tokenizer default_fields c)
  unfolding lexemes
  lexemes-AllPlaced zero tokenizer default_fields c h d = absurd (omega (arith, d))
  lexemes-AllPlaced (suc f) tokenizer default_fields c h d =
      let s = skip_spaces-Skips text c.index c.rest h in
      let start = (skip_spaces c.index c.rest).0 in
      let t = (skip_spaces c.index c.rest).1 in
      test-AllPlaced (no_text t) _ _ (λ e. tt)
        (λ e.
          stream-AllPlaced start (lexeme_at tokenizer default_fields start t)
            (lexemes f tokenizer default_fields)
            (lexeme_at-Returns tokenizer default_fields start t s.here e
              (skip_spaces-StartsNoSpace c.index c.rest))
            (λ c' p.
              lexemes-AllPlaced f tokenizer default_fields c' p.here
                (omega (arith, d, s.later, p.later, before_end text start t s.here e))))
