-- ===== src/Search/Markers/Marked.antt =====
-- `split_markers` of a text in which passages were marked.
use sci_etl_core.Prelude.{
  ℕ, ◌+◌, ◌≡◌, refl, sym, ap, ◌∙◌, Text, Bool, true, false, not, ◌&&◌, List, [], ◌∷◌, ◌++◌, none,
  some, ltb, ◌==◌, length, length-append, append_assoc, append-nil, arith,
}
use sci_etl_core.Search.Markers.{
  sanitize_text, is_unstorable, snippet_open, snippet_close, Splitter, close_span, open_span,
  split_step, split_loop, split_end, split_markers,
}
use sci_etl_core.Search.Markers.Split.{is_marker}

-- A text with marked passages: each has what stands before it.
unfoldable pub marked : List (Text × Text) → Text → Text
marked [] rest = rest
marked ((before, passage) ∷ passages) rest =
    before ++ (snippet_open ∷ passage ++ (snippet_close ∷ marked passages rest))

unfoldable pub unmarked : List (Text × Text) → Text → Text
unmarked [] rest = rest
unmarked ((before, passage) ∷ passages) rest = before ++ (passage ++ unmarked passages rest)

-- Where the passages stand, from `here` on; an empty one has no span.
unfoldable pub passages_at : ℕ → List (Text × Text) → List (ℕ × ℕ)
passages_at here [] = []
passages_at here ((before, []) ∷ passages) = passages_at (here + length before) passages
passages_at here ((before, c ∷ cs) ∷ passages) =
    let from = here + length before in
    (from, from + length (c ∷ cs)) ∷ passages_at (from + length (c ∷ cs)) passages

unfoldable pub unmarked_text : Text → Bool
unfolding is_marker
unmarked_text [] = true
unmarked_text (c ∷ cs) = not (is_marker c) && unmarked_text cs

unfoldable pub all_unmarked : List (Text × Text) → Bool
unfolding unmarked_text
all_unmarked [] = true
all_unmarked ((before, passage) ∷ passages) =
    unmarked_text before && (unmarked_text passage && all_unmarked passages)

split_loop-append :
    (a b : Text) (s : Splitter) → split_loop (a ++ b) s ≡ split_loop b (split_loop a s)
unfolding split_loop
split_loop-append [] b s = refl
split_loop-append (c ∷ a) b s = split_loop-append a b (split_step c s)

split_loop-unmarked :
    (t : Text) (s : Splitter)
    → unmarked_text t ≡ true
    → split_loop t s ≡ record s { plain = s.plain ++ t }
unfolding split_loop split_step unmarked_text is_marker
split_loop-unmarked [] s u = ap (λ (p : Text). record s { plain = p }) (sym (append-nil s.plain))
split_loop-unmarked (c ∷ t) s u =
    let opens : c == snippet_open ≡ false = ground (arith, u) in
    let closes : c == snippet_close ≡ false = ground (arith, u) in
    rw (opens, closes)
      (split_loop-unmarked t (record s { plain = s.plain ++ c ∷ [] }) (ground (arith, u))
        ∙ ap (λ (p : Text). record s { plain = p }) (append_assoc s.plain (c ∷ []) t))

sanitized-unmarked : (t : Text) → unmarked_text (sanitize_text t) ≡ true
unfolding unmarked_text sanitize_text is_marker is_unstorable
sanitized-unmarked [] = refl
sanitized-unmarked (c ∷ t) = ground (arith, sanitized-unmarked t)

-- One marked passage.
passage_span : ℕ → Text → List (ℕ × ℕ)
passage_span from [] = []
passage_span from (c ∷ cs) = (from, from + length (c ∷ cs)) ∷ []

passages_at-cons :
    (here : ℕ) (before passage : Text) (passages : List (Text × Text))
    → passages_at here ((before, passage) ∷ passages)
      ≡ passage_span (here + length before) passage
        ++ passages_at (here + length before + length passage) passages
unfolding passages_at passage_span
passages_at-cons here before [] passages =
    let e : here + length before + 0 ≡ here + length before = omega arith in rw e refl
passages_at-cons here before (c ∷ cs) passages = refl

close_passage :
    (from here : ℕ) (passage : Text) (spans : List (ℕ × ℕ))
    → here ≡ from + length passage
    → close_span (some from) here spans ≡ spans ++ passage_span from passage
unfolding close_span passage_span
close_passage from here [] spans e =
    let at_end : ltb from here ≡ false = ground (arith, e) in rw at_end (sym (append-nil spans))
close_passage from here (c ∷ cs) spans e =
    let inside : ltb from here ≡ true = ground (arith, e) in
    rw inside (ap (λ (n : ℕ). spans ++ (from, n) ∷ []) e)

-- The state between two passages.
abbrev between : Text → List (ℕ × ℕ) → Splitter
between plain spans = record { plain = plain; spans = spans; opened = none }

-- One marked passage is read.
split_passage :
    (before passage more plain : Text) (spans : List (ℕ × ℕ))
    → unmarked_text before ≡ true
    → unmarked_text passage ≡ true
    → split_loop
        (before ++ (snippet_open ∷ passage ++ (snippet_close ∷ more)))
        (between plain spans)
      ≡ split_loop more (
          between
            (plain ++ (before ++ passage))
            (spans ++ passage_span (length plain + length before) passage))
unfolding split_loop split_step open_span
split_passage before passage more plain spans ub up =
    let from = length (plain ++ before) in
    let opened : Splitter = record { plain = plain ++ before; spans = spans; opened = some from } in
    let inner = (plain ++ before) ++ passage in
    split_loop-append before (snippet_open ∷ passage ++ (snippet_close ∷ more))
      (between plain spans)
    ∙ ap (split_loop (snippet_open ∷ passage ++ (snippet_close ∷ more)))
        (split_loop-unmarked before (between plain spans) ub)
    ∙ split_loop-append passage (snippet_close ∷ more) opened
    ∙ ap (split_loop (snippet_close ∷ more)) (split_loop-unmarked passage opened up)
    ∙ ap (λ (sp : List (ℕ × ℕ)). split_loop more (between inner sp))
        (close_passage from (length inner) passage spans (length-append (plain ++ before) passage))
    ∙ ap (λ (p : Text). split_loop more (between p (spans ++ passage_span from passage)))
        (append_assoc plain before passage)
    ∙ ap
        (λ (n : ℕ).
          split_loop more
            (between (plain ++ (before ++ passage)) (spans ++ passage_span n passage)))
        (length-append plain before)

joined_spans :
    (before passage : Text) (passages : List (Text × Text)) (plain : Text) (spans : List (ℕ × ℕ))
    → (spans ++ passage_span (length plain + length before) passage)
        ++ passages_at (length (plain ++ (before ++ passage))) passages
      ≡ spans ++ passages_at (length plain) ((before, passage) ∷ passages)
joined_spans before passage passages plain spans =
    let here = length plain + length before in
    let e : length (plain ++ (before ++ passage)) ≡ here + length passage =
      omega (arith, length-append plain (before ++ passage), length-append before passage) in
    append_assoc spans (passage_span here passage)
      (passages_at (length (plain ++ (before ++ passage))) passages)
    ∙ ap (λ (n : ℕ). spans ++ (passage_span here passage ++ passages_at n passages)) e
    ∙ ap (◌++◌ spans) (sym (passages_at-cons (length plain) before passage passages))

split_loop-marked :
    (passages : List (Text × Text)) (rest plain : Text) (spans : List (ℕ × ℕ))
    → all_unmarked passages ≡ true
    → unmarked_text rest ≡ true
    → split_loop (marked passages rest) (between plain spans)
      ≡ between (plain ++ unmarked passages rest) (spans ++ passages_at (length plain) passages)
unfolding marked unmarked all_unmarked passages_at
split_loop-marked [] rest plain spans u ur =
    split_loop-unmarked rest (between plain spans) ur
    ∙ ap (between (plain ++ rest)) (sym (append-nil spans))
split_loop-marked ((before, passage) ∷ passages) rest plain spans u ur =
    split_passage before passage (marked passages rest) plain spans (ground (arith, u))
      (ground (arith, u))
    ∙ split_loop-marked passages rest (plain ++ (before ++ passage))
        (spans ++ passage_span (length plain + length before) passage) (ground (arith, u)) ur
    ∙ ap
        (λ (p : Text). between p (
          (spans ++ passage_span (length plain + length before) passage)
          ++ passages_at (length (plain ++ (before ++ passage))) passages))
        (append_assoc plain (before ++ passage) (unmarked passages rest)
          ∙ ap (◌++◌ plain) (append_assoc before passage (unmarked passages rest)))
    ∙ ap (between (plain ++ (before ++ (passage ++ unmarked passages rest))))
        (joined_spans before passage passages plain spans)

-- Marking passages and splitting again gives the text back, with the place of every passage that is not
-- empty, where neither the passages nor the text around them hold a marker. Sanitized text holds none.
pub split_markers-marked :
    (passages : List (Text × Text)) (rest : Text)
    → all_unmarked passages ≡ true
    → split_markers (marked passages (sanitize_text rest))
      ≡ (unmarked passages (sanitize_text rest), passages_at 0 passages)
unfolding split_markers split_end close_span
split_markers-marked passages rest u =
    ap split_end (split_loop-marked passages (sanitize_text rest) [] [] u (sanitized-unmarked rest))
