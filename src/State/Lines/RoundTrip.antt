-- ===== src/State/Lines/RoundTrip.antt =====
-- A file of one storable id to a line reads back as these ids.
use sci_etl_core.Prelude.{
  ℕ, ◌≡◌, ◌≤◌, ◌⊎◌, refl, sym, ap, subst, ◌∙◌, Text, true, false, List, [], ◌∷◌, ◌++◌, append_assoc,
  append-nil, Option, none, some, ◌==◌, ltb, length, text_eq, text_eq_iff, mem, if◌then◌else◌,
  Bool-cases, inl, inr, arith,
}
use sci_etl_core.State.Lines.{
  is_boundary, push, lines_after, splitlines, strip, is_empty, ids_in, text_of, read_ids, joined,
  keep, drop_ids, is_one_line,
}

abbrev pub HasNoBoundary : Text → Type 0
HasNoBoundary [] = Unit
HasNoBoundary (c ∷ cs) = (is_boundary c ≡ false) × HasNoBoundary cs

pub record IsStorable (id : Text) : Type 0 where
  pub plain : strip id ≡ id
  pub one_line : HasNoBoundary id
  pub visible : is_empty id ≡ false

abbrev pub AllStorable : List Text → Type 0
AllStorable [] = Unit
AllStorable (id ∷ ids) = IsStorable id × AllStorable ids

no_return : (c : ℕ) → is_boundary c ≡ false → (c == 0xd) ≡ false
unfolding is_boundary
no_return c h = ground arith

lines_after-one :
    (l rest : Text)
    → HasNoBoundary l
    → lines_after false (l ++ 0xa ∷ rest) ≡ l ∷ lines_after false rest
unfolding lines_after
lines_after-one [] rest h = refl
lines_after-one (c ∷ cs) rest h = rw (h.0, no_return c h.0, lines_after-one cs rest h.1) refl

pub splitlines-joined : (ids : List Text) → AllStorable ids → splitlines (joined ids) ≡ ids
unfolding splitlines joined
splitlines-joined [] h = refl
splitlines-joined (id ∷ ids) h =
    ap (lines_after false) (append_assoc id (0xa ∷ []) (joined ids))
    ∙ lines_after-one id (joined ids) h.0.one_line
    ∙ ap (λ ls. id ∷ ls) (splitlines-joined ids h.1)

ids_in-storable : (ids : List Text) → AllStorable ids → ids_in ids ≡ ids
unfolding ids_in
ids_in-storable [] h = refl
ids_in-storable (id ∷ ids) h = rw (h.0.plain, h.0.visible, ids_in-storable ids h.1) refl

pub read_ids-joined :
    (file : Option Text) (ids : List Text)
    → AllStorable ids
    → text_of file ≡ joined ids
    → read_ids file ≡ ids
unfolding read_ids
read_ids-joined file ids h e =
    ap (λ t. ids_in (splitlines t)) e ∙ ap ids_in (splitlines-joined ids h) ∙ ids_in-storable ids h

pub joined-append :
    (ids : List Text) (id : Text) → joined (ids ++ id ∷ []) ≡ joined ids ++ (id ++ 0xa ∷ [])
unfolding joined
joined-append [] id = append-nil (id ++ 0xa ∷ [])
joined-append (i ∷ ids) id =
    ap (λ t. (i ++ 0xa ∷ []) ++ t) (joined-append ids id)
    ∙ sym (append_assoc (i ++ 0xa ∷ []) (joined ids) (id ++ 0xa ∷ []))

-- The ids that are not forgotten.
unfoldable pub without : List Text → List Text → List Text
unfolding mem
without forgotten [] = []
without forgotten (id ∷ ids) =
    if mem id forgotten then without forgotten ids else id ∷ without forgotten ids

pub without-AllStorable : (f ids : List Text) → AllStorable ids → AllStorable (without f ids)
unfolding without
without-AllStorable f [] h = tt
without-AllStorable f (id ∷ ids) h = elim (Bool-cases (mem id f)) [
  | inl e ↦ rw e (without-AllStorable f ids h.1)
  | inr e ↦ rw e (h.0, without-AllStorable f ids h.1)
]

keep-without : (f ids : List Text) → AllStorable ids → keep f ids ≡ without f ids
unfolding keep without
keep-without f [] h = refl
keep-without f (id ∷ ids) h = rw (h.0.plain, keep-without f ids h.1) refl

length-without : (f ids : List Text) → length (without f ids) ≤ length ids
unfolding without
length-without f [] = omega arith
length-without f (id ∷ ids) = ground (arith, length-without f ids)

without_none :
    (f ids : List Text) → ltb (length (without f ids)) (length ids) ≡ false → without f ids ≡ ids
unfolding without
without_none f [] h = refl
without_none f (id ∷ ids) h = elim (Bool-cases (mem id f)) [
  | inl e ↦ absurd (ground (arith, length-without f ids))
  | inr e ↦ rw e (ap (λ r. id ∷ r) (without_none f ids (ground arith)))
]

pub drop_ids-joined :
    (f : List Text) (file : Option Text) (ids : List Text)
    → AllStorable ids
    → text_of file ≡ joined ids
    → text_of (drop_ids f file) ≡ joined (without f ids)
unfolding drop_ids without
drop_ids-joined f none ids h e =
    let lines : [] ≡ ids = ap splitlines e ∙ splitlines-joined ids h in
    subst (λ i. [] ≡ joined (without f i)) lines refl
drop_ids-joined f (some t) ids h e =
    let lines : splitlines t ≡ ids = ap splitlines e ∙ splitlines-joined ids h in
    let kept : keep f (splitlines t) ≡ without f ids = ap (keep f) lines ∙ keep-without f ids h in
    elim (Bool-cases (ltb (length (without f ids)) (length ids))) [
      | inl l ↦ rw (kept, lines, l) refl
      | inr l ↦ rw (kept, lines, l) (e ∙ ap joined (sym (without_none f ids l)))
    ]

single :
    (ls : List Text) (id : Text)
    → (elim ls [ l ∷ [] ↦ text_eq l id | _ ↦ false ]) ≡ true
    → ls ≡ id ∷ []
single [] id h = cc
single (l ∷ []) id h = ap (λ t. t ∷ []) ((text_eq_iff l id).0 h)
single (l ∷ m ∷ ls) id h = cc

push-single :
    (c : ℕ) (cs : Text) (ls : List Text) → push c ls ≡ (c ∷ cs) ∷ [] → (cs ≡ []) ⊎ (ls ≡ cs ∷ [])
push-single c cs [] h = inl (cc)
push-single c cs (l ∷ ls) h = inr (cc)

lines_after-single : (t : Text) → lines_after false t ≡ t ∷ [] → HasNoBoundary t
unfolding lines_after
lines_after-single [] h = tt
lines_after-single (c ∷ cs) h = elim (Bool-cases (is_boundary c)) [
  | inl b ↦ absurd (ground (arith, h, b))
  | inr b ↦
      let first : push c (lines_after (c == 0xd) cs) ≡ (c ∷ cs) ∷ [] = rw b at h in
      let second : push c (lines_after false cs) ≡ (c ∷ cs) ∷ [] = rw (no_return c b) at first in
      elim (push-single c cs (lines_after false cs) second) [
        | inl e ↦ (b, subst HasNoBoundary (sym e) tt)
        | inr e ↦ (b, lines_after-single cs e)
      ]
]

pub one_line-IsStorable :
    (id : Text) → strip id ≡ id → is_one_line id ≡ true → is_empty id ≡ false → IsStorable id
unfolding is_one_line splitlines
one_line-IsStorable id p h v = record {
  plain = p;
  one_line = lines_after-single id (single (splitlines id) id h);
  visible = v;
}
