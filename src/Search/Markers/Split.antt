-- ===== src/Search/Markers/Split.antt =====
-- What `split_markers` makes of a text.
use sci_etl_core.Prelude.{
  ℕ, ◌≤◌, ◌<◌, ◌≡◌, refl, sym, ap, ◌∙◌, Text, Bool, true, ◌&&◌, ◌||◌, List, [], ◌∷◌, ◌++◌, Option,
  none, some, ltb, leb, ◌==◌, length, length-append, append_assoc, append-nil, if◌then◌else◌,
  Bool-cases, inl, inr, arith,
}
use sci_etl_core.Search.Markers.{
  snippet_open, snippet_close, Splitter, close_span, open_span, split_step, split_loop, split_end,
  split_markers,
}

-- The spans stand one after the other between `low` and `high`, none empty.
unfoldable pub in_order : ℕ → List (ℕ × ℕ) → ℕ → Bool
in_order low [] high = leb low high
in_order low ((start, end) ∷ spans) high =
    leb low start && (ltb start end && in_order end spans high)

in_order-append :
    (low : ℕ) (spans : List (ℕ × ℕ)) (start end : ℕ)
    → in_order low spans start ≡ true
    → start < end
    → in_order low (spans ++ (start, end) ∷ []) end ≡ true
unfolding in_order
in_order-append low [] start end h lt = ground (arith, h, lt)
in_order-append low ((a, b) ∷ spans) start end h lt =
    ground (arith, h, in_order-append b spans start end)

in_order_up :
    (low : ℕ) (spans : List (ℕ × ℕ)) (m n : ℕ)
    → in_order low spans m ≡ true
    → m ≤ n
    → in_order low spans n ≡ true
unfolding in_order
in_order_up low [] m n h le = ground (arith, h, le)
in_order_up low ((a, b) ∷ spans) m n h le = ground (arith, h, in_order_up b spans m n)

-- Where the spans that are closed have to end.
limit : Option ℕ → ℕ → ℕ
limit none here = here
limit (some start) here = start

record IsSplit (s : Splitter) : Type 0 where
  ordered : in_order 0 s.spans (limit s.opened (length s.plain)) ≡ true
  inside : limit s.opened (length s.plain) ≤ length s.plain

in_order-close_span :
    (opened : Option ℕ) (here : ℕ) (spans : List (ℕ × ℕ))
    → in_order 0 spans (limit opened here) ≡ true
    → limit opened here ≤ here
    → in_order 0 (close_span opened here spans) here ≡ true
unfolding close_span limit
in_order-close_span none here spans h le = h
in_order-close_span (some start) here spans h le = elim (Bool-cases (ltb start here)) [
  | inl lt ↦ rw lt (in_order-append 0 spans start here h (ground (arith, lt)))
  | inr ge ↦ rw ge (in_order_up 0 spans start here h le)
]

limit-open_span :
    (opened : Option ℕ) (here : ℕ) → limit (open_span opened here) here ≡ limit opened here
unfolding limit open_span
limit-open_span none here = refl
limit-open_span (some start) here = refl

limit_up : (opened : Option ℕ) (m n : ℕ) → m ≤ n → limit opened m ≤ limit opened n
unfolding limit
limit_up none m n h = h
limit_up (some start) m n h = omega arith

limit_inside : (opened : Option ℕ) (m n : ℕ) → limit opened m ≤ m → m ≤ n → limit opened n ≤ n
unfolding limit
limit_inside none m n h le = omega arith
limit_inside (some start) m n h le = omega arith

split_step-IsSplit : (c : ℕ) (s : Splitter) → IsSplit s → IsSplit (split_step c s)
unfolding split_step
split_step-IsSplit c s i = elim (Bool-cases (c == snippet_open)) [
  | inl e ↦ rw e (record {
    ordered = ap (in_order 0 s.spans) (limit-open_span s.opened (length s.plain)) ∙ i.ordered;
    inside = omega (arith, limit-open_span s.opened (length s.plain), i.inside);
  })
  | inr e ↦ elim (Bool-cases (c == snippet_close)) [
    | inl f ↦
        rw (e, f)
          (record {
            ordered =
                unfold limit in
                in_order-close_span s.opened (length s.plain) s.spans i.ordered i.inside;
            inside = unfold limit in omega arith;
          })
    | inr f ↦
        rw (e, f)
          (record {
            ordered =
                in_order_up 0 s.spans (limit s.opened (length s.plain))
                  (limit s.opened (length (s.plain ++ c ∷ []))) i.ordered
                  (limit_up s.opened (length s.plain) (length (s.plain ++ c ∷ []))
                    (omega (arith, length-append s.plain (c ∷ []))));
            inside =
                limit_inside s.opened (length s.plain) (length (s.plain ++ c ∷ [])) i.inside
                  (omega (arith, length-append s.plain (c ∷ [])));
          })
  ]
]

split_loop-IsSplit : (raw : Text) (s : Splitter) → IsSplit s → IsSplit (split_loop raw s)
unfolding split_loop
split_loop-IsSplit [] s i = i
split_loop-IsSplit (c ∷ raw) s i =
    split_loop-IsSplit raw (split_step c s) (split_step-IsSplit c s i)

unfoldable pub is_marker : ℕ → Bool
is_marker c = c == snippet_open || c == snippet_close

pub without_markers : Text → Text
unfolding is_marker
without_markers [] = []
without_markers (c ∷ cs) = if is_marker c then without_markers cs else c ∷ without_markers cs

split_step-plain :
    (c : ℕ) (raw : Text) (s : Splitter)
    → (split_step c s).plain ++ without_markers raw ≡ s.plain ++ without_markers (c ∷ raw)
unfolding split_step without_markers
split_step-plain c raw s = elim (Bool-cases (c == snippet_open)) [
  | inl e ↦ rw e refl
  | inr e ↦ elim (Bool-cases (c == snippet_close)) [
    | inl f ↦ rw (e, f) refl
    | inr f ↦ rw (e, f) (append_assoc s.plain (c ∷ []) (without_markers raw))
  ]
]

split_loop-plain :
    (raw : Text) (s : Splitter) → (split_loop raw s).plain ≡ s.plain ++ without_markers raw
unfolding split_loop without_markers
split_loop-plain [] s = sym (append-nil s.plain)
split_loop-plain (c ∷ raw) s = split_loop-plain raw (split_step c s) ∙ split_step-plain c raw s

-- Of any text, `split_markers` gives the characters that are no markers, in order, and spans of them:
-- each is not empty, they stand one after the other, and none goes past the end.
pub split_markers_lem :
    (raw : Text)
    → ((split_markers raw).0 ≡ without_markers raw)
      × (in_order 0 (split_markers raw).1 (length (split_markers raw).0) ≡ true)
unfolding split_markers split_end
split_markers_lem raw =
    let first : Splitter = record { plain = []; spans = []; opened = none } in
    let last = split_loop raw first in
    let i =
      split_loop-IsSplit raw first (record {
        ordered = unfold in_order limit in refl;
        inside = unfold limit in omega arith;
      }) in
    (
      split_loop-plain raw first,
      in_order-close_span last.opened (length last.plain) last.spans i.ordered i.inside,
    )
