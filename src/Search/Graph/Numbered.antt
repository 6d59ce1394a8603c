-- ===== src/Search/Graph/Numbered.antt =====
-- What `label_communities` returns: a fixed point when it converged, and communities that are numbered
-- as the labels are shared.
use sci_etl_core.Prelude.{
  ℕ, zero, suc, ◌+◌, ◌≡◌, ◌↔◌, ◌≤◌, ◌<◌, refl, sym, ap, subst, ◌∙◌, Text, Bool, true, false, List,
  [], ◌∷◌, ◌++◌, none, some, some_inj, mem, text_eq, text_eq_iff, length, length-append, Bool-cases,
  Option-cases, inl, inr, arith,
}
use sci_etl_core.Search.Graph.Edges.{Weights, Edge}
use sci_etl_core.Search.Graph.Communities.{
  Labels, label_of, place, number, visit, propagate, passes,
}

pair_eq : {A B : Type 0} {r : A × B} {x : A} {y : B} → r.0 ≡ x → r.1 ≡ y → r ≡ (x, y)
pair_eq p q = cc

module _ {W : Type 0} (weights : Weights W) (ordered : List Text) (es : List (Edge W)) where
  propagate-keep :
      (id : Text) (ids : List Text) (label : Labels)
      → visit weights ordered es id label ≡ none
      → propagate weights ordered es (id ∷ ids) label ≡ propagate weights ordered es ids label
  unfolding propagate
  propagate-keep id ids label e = rw (propagate, e) refl

  propagate-switch :
      (id : Text) (ids : List Text) (label : Labels) (l : ℕ)
      → visit weights ordered es id label ≡ some l
      → (propagate weights ordered es (id ∷ ids) label).1 ≡ true
  unfolding propagate
  propagate-switch id ids label l e = rw (propagate, e) refl

  propagate-unchanged :
      (ids : List Text) (label : Labels)
      → (propagate weights ordered es ids label).1 ≡ false
      → (propagate weights ordered es ids label).0 ≡ label
  unfolding propagate
  propagate-unchanged [] label h = refl
  propagate-unchanged (id ∷ ids) label h = elim (Option-cases (visit weights ordered es id label)) [
    | inl e ↦
        let kept = propagate-keep id ids label e in
        ap (λ r. r.0) kept ∙ propagate-unchanged ids label (sym (ap (λ r. r.1) kept) ∙ h)
    | inr (l, e) ↦ ground (arith, h, propagate-switch id ids label l e)
  ]

  passes-changed :
      (n : ℕ) (start : Labels)
      → (propagate weights ordered es ordered start).1 ≡ true
      → passes weights (suc n) ordered es start
        ≡ passes weights n ordered es (propagate weights ordered es ordered start).0
  unfolding passes
  passes-changed n start e = rw e refl

  passes-unchanged :
      (n : ℕ) (start : Labels)
      → (propagate weights ordered es ordered start).1 ≡ false
      → passes weights (suc n) ordered es start
        ≡ ((propagate weights ordered es ordered start).0, true)
  unfolding passes
  passes-unchanged n start e = rw e refl

  -- When the passes stop because one changed no label, a further pass changes none either.
  pub passes-converged :
      (n : ℕ) (start label : Labels)
      → passes weights n ordered es start ≡ (label, true)
      → propagate weights ordered es ordered label ≡ (label, false)
  unfolding passes
  passes-converged zero start label h = ground (arith, ap (λ (r : Labels × Bool). r.1) h)
  passes-converged (suc n) start label h =
      let pass = propagate weights ordered es ordered start in
      elim (Bool-cases pass.1) [
        | inl e ↦ passes-converged n pass.0 label (sym (passes-changed n start e) ∙ h)
        | inr e ↦
            let same = propagate-unchanged ordered start e in
            let last = ap (λ (r : Labels × Bool). r.0) (sym (passes-unchanged n start e) ∙ h) in
            subst (λ (x : Labels). propagate weights ordered es ordered x ≡ (x, false))
              (sym same ∙ last) (pair_eq same e)
      ]

place-append : (l i : ℕ) (c d : List ℕ) → place l c ≡ some i → place l (c ++ d) ≡ some i
unfolding place
place-append l i [] d h = ground (arith, h)
place-append l i (k ∷ c) d h = elim (Option-cases (place l c)) [
  | inl e ↦ ground (arith, h, e)
  | inr (j, e) ↦ ground (arith, h, e, place-append l j c d e)
]

place-last : (l : ℕ) (c : List ℕ) → place l c ≡ none → place l (c ++ l ∷ []) ≡ some (length c)
unfolding place
place-last l [] h = ground arith
place-last l (k ∷ c) h = elim (Option-cases (place l c)) [
  | inl e ↦ ground (arith, h, e, place-last l c e)
  | inr (j, e) ↦ ground (arith, h, e)
]

place-inj : (l m i : ℕ) (c : List ℕ) → place l c ≡ some i → place m c ≡ some i → l ≡ m
unfolding place
place-inj l m i [] h g = ground (arith, h)
place-inj l m zero (k ∷ c) h g = elim (Option-cases (place l c)) [
  | inl e ↦ ground (arith, h, e, g, Option-cases (place m c))
  | inr (j, e) ↦ ground (arith, h, e, g, Option-cases (place m c))
]
place-inj l m (suc i) (k ∷ c) h g =
    ground (arith, h, g, place-inj l m i c, Option-cases (place m c), Option-cases (place l c))

place-lt : (l i : ℕ) (c : List ℕ) → place l c ≡ some i → i < length c
unfolding place
place-lt l i [] h = ground (arith, h)
place-lt l i (k ∷ c) h = elim (Option-cases (place l c)) [
  | inl e ↦ ground (arith, h, e)
  | inr (j, e) ↦ ground (arith, h, e, place-lt l j c e)
]

label_of-same :
    (u v : Text) (label : Labels) → text_eq u v ≡ true → label_of v label ≡ label_of u label
label_of-same u v label e = ap (λ (t : Text). label_of t label) (sym ((text_eq_iff u v).0 e))

-- The labels in the order of their numbers.
numbered : List Text → Labels → List ℕ → List ℕ
numbered [] label c = c
numbered (id ∷ ids) label c = elim (place (label_of id label) c) [
  | none ↦ numbered ids label (c ++ label_of id label ∷ [])
  | some i ↦ numbered ids label c
]

place-numbered :
    (l i : ℕ) (ids : List Text) (label : Labels) (c : List ℕ)
    → place l c ≡ some i
    → place l (numbered ids label c) ≡ some i
unfolding numbered
place-numbered l i [] label c h = h
place-numbered l i (id ∷ ids) label c h = elim (Option-cases (place (label_of id label) c)) [
  | inl e ↦
      rw (numbered, e)
        (place-numbered l i ids label (c ++ label_of id label ∷ []) (place-append l i c _ h))
  | inr (j, e) ↦ rw (numbered, e) (place-numbered l i ids label c h)
]

length-numbered :
    (ids : List Text) (label : Labels) (c : List ℕ)
    → length (numbered ids label c) ≤ length c + length ids
unfolding numbered
length-numbered [] label c = omega arith
length-numbered (id ∷ ids) label c = elim (Option-cases (place (label_of id label) c)) [
  | inl e ↦
      rw (numbered, e)
        (omega (
          arith,
          length-numbered ids label (c ++ label_of id label ∷ []),
          length-append c (label_of id label ∷ []),
        ))
  | inr (j, e) ↦ rw (numbered, e) (omega (arith, length-numbered ids label c))
]

label_of-number :
    (v : Text) (ids : List Text) (label : Labels) (c : List ℕ)
    → mem v ids ≡ true
    → place (label_of v label) (numbered ids label c) ≡ some (label_of v (number ids label c))
unfolding number numbered mem label_of
label_of-number v [] label c m = ground (arith, m)
label_of-number v (id ∷ ids) label c m = elim (Option-cases (place (label_of id label) c)) [
  | inl e ↦
      rw (numbered, number, e)
        (ground (
          arith,
          m,
          text_eq_iff v id,
          text_eq_iff id v,
          label_of-same id v label,
          label_of-number v ids label (c ++ label_of id label ∷ []),
          place-numbered (label_of id label) (length c) ids label (c ++ label_of id label ∷ [])
              (place-last (label_of id label) c e),
        ))
  | inr (j, e) ↦
      rw (numbered, number, e)
        (ground (
          arith,
          m,
          text_eq_iff v id,
          text_eq_iff id v,
          label_of-same id v label,
          label_of-number v ids label c,
          place-numbered (label_of id label) j ids label c e,
        ))
]

-- Two ids of a numbering get the same number exactly when they have the same label, and a number is less
-- than the number of the ids.
pub number-labels :
    (ids : List Text) (label : Labels) (u v : Text)
    → mem u ids ≡ true
    → mem v ids ≡ true
    → ((label_of u (number ids label []) ≡ label_of v (number ids label []))
        ↔ (label_of u label ≡ label_of v label))
      × (label_of u (number ids label []) < length ids)
number-labels ids label u v mu mv =
    let last = numbered ids label [] in
    let at_u = label_of-number u ids label [] mu in
    let at_v = label_of-number v ids label [] mv in
    (
      (
        λ same.
            place-inj (label_of u label) (label_of v label) _ last at_u (at_v ∙ ap some (sym same)),
        λ same. some_inj (sym at_u ∙ ap (λ (l : ℕ). place l last) same ∙ at_v),
      ),
      omega (
        arith,
        place-lt (label_of u label) (label_of u (number ids label [])) last at_u,
        length-numbered ids label [],
      ),
    )

-- Two ids share a community exactly when they share a label, and communities are below the number
-- of the ids.
unfoldable pub IsNumbered : List Text → Labels → Labels → Type 0
IsNumbered ids label communities =
    (u v : Text)
    → mem u ids ≡ true
    → mem v ids ≡ true
    → ((label_of u communities ≡ label_of v communities) ↔ (label_of u label ≡ label_of v label))
      × (label_of u communities < length ids)
