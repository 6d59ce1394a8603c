-- ===== src/Embeddings/Chunking/Covers.antt =====
-- The windows of `SlidingWindowChunker` put together again.
use sci_etl_core.Prelude.{
  ℕ, zero, suc, ◌+◌, ◌-◌, ◌≤◌, ◌<◌, ◌≡◌, refl, sym, ap, ◌∙◌, Text, List, [], ◌∷◌, ◌++◌, map, Option,
  none, some, leb, length, take, drop, take-append-drop, length-take, length-drop, append-nil,
  leb→le, Bool-cases, inl, inr, arith,
}
use sci_etl_core.Search.Evaluate.{join_words}
use sci_etl_core.Embeddings.Chunking.{SlidingWindowChunker, new_chunker, split, windows, chunk}

-- The windows after the first, without the words that each repeats.
pub stitch_more : ℕ → List (List Text) → List Text
stitch_more overlap [] = []
stitch_more overlap (w ∷ ws) = drop overlap w ++ stitch_more overlap ws

pub stitch : ℕ → List (List Text) → List Text
unfolding stitch_more
stitch overlap [] = []
stitch overlap (w ∷ ws) = w ++ stitch_more overlap ws

-- Windows of at most `size` words, each beginning with the `overlap` last words of the one before.
unfoldable pub IsSliding : ℕ → ℕ → List (List Text) → Type 0
IsSliding size overlap [] = Unit
IsSliding size overlap (w ∷ []) = (1 ≤ length w) × (length w ≤ size)
IsSliding size overlap (w ∷ v ∷ vs) =
    (length w ≡ size) × (take overlap v ≡ drop (size - overlap) w) × IsSliding size overlap (v ∷ vs)

module _ {A : Type 0} where
  take_nil : (n : ℕ) → take {A = A} n [] ≡ []
  take_nil zero = refl
  take_nil (suc n) = refl

  drop_nil : (n : ℕ) → drop {A = A} n [] ≡ []
  drop_nil zero = refl
  drop_nil (suc n) = refl

  take-drop : (n m : ℕ) (xs : List A) → take n (drop m xs) ≡ drop m (take (m + n) xs)
  take-drop n zero xs = let e : 0 + n ≡ n = omega arith in rw e
  take-drop n (suc m) [] =
      take_nil n ∙ sym (drop_nil (suc m)) ∙ ap (drop (suc m)) (sym (take_nil (suc m + n)))
  take-drop n (suc m) (x ∷ xs) =
      let e : suc m + n ≡ suc (m + n) = omega arith in rw e (take-drop n m xs)

  drop-drop : (n m : ℕ) (xs : List A) → drop n (drop m xs) ≡ drop (m + n) xs
  drop-drop n zero xs = let e : 0 + n ≡ n = omega arith in rw e
  drop-drop n (suc m) [] = drop_nil n ∙ sym (drop_nil (suc m + n))
  drop-drop n (suc m) (x ∷ xs) =
      let e : suc m + n ≡ suc (m + n) = omega arith in rw e (drop-drop n m xs)

  take-take : (n m : ℕ) (xs : List A) → n ≤ m → take n (take m xs) ≡ take n xs
  take-take zero m xs h = refl
  take-take (suc n) zero xs h = absurd (omega arith)
  take-take (suc n) (suc m) [] h = refl
  take-take (suc n) (suc m) (x ∷ xs) h = ap (◌∷◌ x) (take-take n m xs (omega arith))

  drop-append : (n : ℕ) (xs ys : List A) → n ≤ length xs → drop n (xs ++ ys) ≡ drop n xs ++ ys
  drop-append zero xs ys h = refl
  drop-append (suc n) [] ys h = absurd (omega arith)
  drop-append (suc n) (x ∷ xs) ys h = drop-append n xs ys (omega arith)

  take_all : (n : ℕ) (xs : List A) → length xs ≤ n → take n xs ≡ xs
  take_all zero [] h = refl
  take_all zero (x ∷ xs) h = absurd (omega arith)
  take_all (suc n) [] h = refl
  take_all (suc n) (x ∷ xs) h = ap (◌∷◌ x) (take_all n xs (omega arith))

module _ (size overlap : ℕ) (fits : overlap < size) where
  -- What the windows of some words are.
  record Slides (words : List Text) (ws : List (List Text)) : Type 0 where
    first : (vs : List (List Text)) × (ws ≡ take size words ∷ vs)
    sliding : IsSliding size overlap ws
    whole : stitch overlap ws ≡ words

  Slides-last :
      (words : List Text)
      → 1 ≤ length words
      → length words ≤ size
      → Slides words (take size words ∷ [])
  unfolding IsSliding stitch stitch_more
  Slides-last words some_word short = record {
    first = ([], refl);
    sliding = (omega (arith, length-take size words), omega (arith, length-take size words));
    whole = append-nil (take size words) ∙ take_all size words short;
  }

  Slides-cons :
      (words v : List Text) (us : List (List Text))
      → size < length words
      → v ≡ take size (drop (size - overlap) words)
      → IsSliding size overlap (v ∷ us)
      → stitch overlap (v ∷ us) ≡ drop (size - overlap) words
      → Slides words (take size words ∷ v ∷ us)
  unfolding IsSliding stitch stitch_more
  Slides-cons words v us long e sl wh = record {
    first = (v ∷ us, refl);
    sliding = (omega (arith, long, length-take size words), repeated, sl);
    whole =
        ap (◌++◌ (take size words))
          (sym (drop-append overlap v (stitch_more overlap us) wide) ∙ ap (drop overlap) wh ∙ later)
        ∙ take-append-drop size words;
  }
    where
      wide : overlap ≤ length v
      wide = omega (
        arith,
        fits,
        long,
        ap (λ (l : List Text). length l) e,
        length-take size (drop (size - overlap) words),
        length-drop (size - overlap) words,
      )

      same : size - overlap + overlap ≡ size
      same = omega (arith, fits)

      later : drop overlap (drop (size - overlap) words) ≡ drop size words
      later = drop-drop overlap (size - overlap) words ∙ ap (λ (n : ℕ). drop n words) same

      repeated : take overlap v ≡ drop (size - overlap) (take size words)
      repeated =
          ap (take overlap) e
          ∙ take-take overlap size (drop (size - overlap) words) (omega (arith, fits))
          ∙ take-drop overlap (size - overlap) words
          ∙ ap (λ (n : ℕ). drop (size - overlap) (take n words)) same

  Slides-more :
      (words : List Text) (ws : List (List Text))
      → size < length words
      → Slides (drop (size - overlap) words) ws
      → Slides words (take size words ∷ ws)
  Slides-more words ws long s = more ws s.first.0 s.first.1 s.sliding s.whole
    where
      rest : List Text
      rest = drop (size - overlap) words

      more :
          (ws vs : List (List Text))
          → ws ≡ take size rest ∷ vs
          → IsSliding size overlap ws
          → stitch overlap ws ≡ rest
          → Slides words (take size words ∷ ws)
      more [] vs e sl wh = absurd (cc e)
      more (v ∷ us) vs e sl wh = Slides-cons words v us long (unfold stitch in cc e) sl wh

  windows-Slides :
      (f : ℕ) (words : List Text)
      → length words ≤ f
      → 1 ≤ length words
      → Slides words (windows f size (size - overlap) words)
  unfolding windows
  windows-Slides zero words h n = absurd (omega arith)
  windows-Slides (suc f) [] h n = absurd (omega arith)
  windows-Slides (suc f) (w ∷ ws) h n = elim (Bool-cases (leb (length (w ∷ ws)) size)) [
    | inl short ↦ rw (windows, short) (Slides-last (w ∷ ws) n (leb→le _ _ short))
    | inr long ↦
        let longer : size < length (w ∷ ws) = ground (arith, long) in
        rw (windows, long)
          (Slides-more (w ∷ ws) (windows f size (size - overlap) (drop (size - overlap) (w ∷ ws)))
            longer
            (windows-Slides f (drop (size - overlap) (w ∷ ws))
              (omega (arith, h, fits, length-drop (size - overlap) (w ∷ ws)))
              (omega (arith, longer, fits, length-drop (size - overlap) (w ∷ ws)))))
  ]

  windows-IsSliding :
      (words : List Text)
      → IsSliding size overlap (windows (length words) size (size - overlap) words)
        × (stitch overlap (windows (length words) size (size - overlap) words) ≡ words)
  unfolding windows IsSliding stitch
  windows-IsSliding [] = (tt, refl)
  windows-IsSliding (w ∷ ws) =
      let s = windows-Slides (length (w ∷ ws)) (w ∷ ws) (omega arith) (omega arith) in
      (s.sliding, s.whole)

new_chunker-lt :
    (chunk_words : ℕ) (overlap_words : Option ℕ) (c : SlidingWindowChunker)
    → new_chunker chunk_words overlap_words ≡ some c
    → c.overlap_words < c.chunk_words
unfolding new_chunker
new_chunker-lt chunk_words none c h = ground (arith, h)
new_chunker-lt chunk_words (some o) c h = ground (arith, h)

-- The passages that a chunker makes of a text are windows of its words, their words joined by spaces.
-- A window has at least one word and at most `chunk_words`, every window but the last has exactly
-- `chunk_words` and the next one begins with its last `overlap_words`, and the windows without these
-- repeated words are the words of the text, in order: none is lost.
pub chunk-IsSliding :
    (chunk_words : ℕ) (overlap_words : Option ℕ) (c : SlidingWindowChunker) (text : Text)
    → new_chunker chunk_words overlap_words ≡ some c
    → (ws : List (List Text)) × (chunk c text ≡ map join_words ws)
      × IsSliding c.chunk_words c.overlap_words ws
      × (stitch c.overlap_words ws ≡ split text)
unfolding chunk
chunk-IsSliding chunk_words overlap_words c text h =
    let words = split text in
    let fits = new_chunker-lt chunk_words overlap_words c h in
    let (sliding, whole) = windows-IsSliding c.chunk_words c.overlap_words fits words in
    (
      windows (length words) c.chunk_words (c.chunk_words - c.overlap_words) words,
      refl,
      sliding,
      whole,
    )
