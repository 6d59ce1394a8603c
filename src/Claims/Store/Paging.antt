-- ===== src/Claims/Store/Paging.antt =====
-- Reading the changes of a claim store page by page.
use sci_etl_core.Prelude.{
  ℕ, zero, suc, ◌+◌, ◌≤◌, ◌<◌, Text, Bool, true, ◌&&◌, List, [], ◌∷◌, ◌++◌, Option, none, some,
  length, take, drop, ◌==◌, ◌≡◌, refl, sym, ap, subst, ◌∙◌, arith, take-append-drop, length-drop,
}
use sci_etl_core.Claims.Store.{
  Claim, ClaimChange, ClaimStore, replace_record, delete_record, newer_than, last_revision, page_of,
  changes_since, check_limit,
}

-- The calls that write.
pub data Write (B : Type 0) : Type 0 where
  replaced : Text → List (Claim B) → Write B
  deleted : Text → Write B

-- A page, and what the consumer reads after it where the page is not empty.
unfoldable pub joined : List ClaimChange → Option (List ClaimChange) → Option (List ClaimChange)
joined [] rest = some []
joined (c ∷ cs) none = none
joined (c ∷ cs) (some more) = some (c ∷ cs ++ more)

-- The changes that a consumer reads after a revision, page by page until one is empty; `none` where
-- the fuel runs out or the limit is refused.
module _ {B : Type 0} (limit : ℕ) (s : ClaimStore B) where
  unfoldable pub read_changes : ℕ → ℕ → Option (List ClaimChange)
  unfolding changes_since joined
  read_changes zero revision = none
  read_changes (suc f) revision = elim (changes_since revision limit s) [
    | none ↦ none
    | some page ↦ joined page.changes (read_changes f page.next_revision)
  ]

module _ {B : Type 0} where
  unfoldable pub write_or : ClaimStore B → Option (ℕ × ClaimStore B) → ClaimStore B
  write_or s none = s
  write_or s (some (revision, s')) = s'

  -- A call that raises leaves the store.
  unfoldable pub perform : Write B → ClaimStore B → ClaimStore B
  unfolding write_or replace_record delete_record
  perform (replaced id claims) s = write_or s (replace_record id claims s)
  perform (deleted id) s = (delete_record id s).1

  unfoldable pub perform_all : List (Write B) → ClaimStore B → ClaimStore B
  unfolding perform
  perform_all [] s = s
  perform_all (w ∷ ws) s = perform_all ws (perform w s)

-- The revisions follow `n` in turn.
unfoldable pub numbered : ℕ → List ClaimChange → Bool
numbered n [] = true
numbered n (c ∷ cs) = (c.revision == suc n) && numbered (suc n) cs

numbered-head :
    (n : ℕ) (c : ClaimChange) (cs : List ClaimChange)
    → numbered n (c ∷ cs) ≡ true
    → c.revision ≡ suc n
unfolding numbered
numbered-head n c cs h = ground (arith, h)

numbered-tail :
    (n : ℕ) (c : ClaimChange) (cs : List ClaimChange)
    → numbered n (c ∷ cs) ≡ true
    → numbered (suc n) cs ≡ true
unfolding numbered
numbered-tail n c cs h = ground (arith, h)

pub numbered-append :
    (n : ℕ) (cs : List ClaimChange) (c : ClaimChange)
    → numbered n cs ≡ true
    → c.revision ≡ n + length cs + 1
    → numbered n (cs ++ c ∷ []) ≡ true
unfolding numbered
numbered-append n [] c h e = ground (arith, e)
numbered-append n (d ∷ cs) c h e = ground (arith, h, e, numbered-append (suc n) cs c)

numbered-newer_than :
    (n revision : ℕ) (cs : List ClaimChange)
    → numbered n cs ≡ true
    → revision ≤ n
    → newer_than revision cs ≡ cs
unfolding numbered newer_than
numbered-newer_than n revision [] h l = refl
numbered-newer_than n revision (c ∷ cs) h l =
    ground (arith, h, l, numbered-newer_than (suc n) revision cs)

newer_than-drop :
    (n k : ℕ) (cs : List ClaimChange) → numbered n cs ≡ true → newer_than (n + k) cs ≡ drop k cs
unfolding numbered newer_than
newer_than-drop n zero cs h = numbered-newer_than n (n + 0) cs h (omega arith)
newer_than-drop n (suc k) [] h = refl
newer_than-drop n (suc k) (c ∷ cs) h =
    let same : suc n + k ≡ n + suc k = omega arith in
    ground (arith, h, newer_than-drop (suc n) k cs, ap (λ (m : ℕ). newer_than m cs) same)

numbered-drop :
    (n k : ℕ) (cs : List ClaimChange) → numbered n cs ≡ true → numbered (n + k) (drop k cs) ≡ true
numbered-drop n zero cs h = subst (λ (m : ℕ). numbered m cs ≡ true) (omega arith) h
numbered-drop n (suc k) [] h = unfold numbered in refl
numbered-drop n (suc k) (c ∷ cs) h =
    let same : suc n + k ≡ n + suc k = omega arith in
    subst (λ (m : ℕ). numbered m (drop k cs) ≡ true) same
      (numbered-drop (suc n) k cs (numbered-tail n c cs h))

last_revision-take :
    (n k : ℕ) (cs : List ClaimChange)
    → numbered n cs ≡ true
    → last_revision n (take k cs) ≡ n + length (take k cs)
unfolding last_revision numbered
last_revision-take n zero cs h = omega arith
last_revision-take n (suc k) [] h = omega arith
last_revision-take n (suc k) (c ∷ cs) h =
    ap (λ (m : ℕ). last_revision m (take k cs)) (numbered-head n c cs h)
    ∙ last_revision-take (suc n) k cs (numbered-tail n c cs h)
    ∙ omega arith

drop-length-take : {A : Type 0} (k : ℕ) (xs : List A) → drop (length (take k xs)) xs ≡ drop k xs
drop-length-take zero xs = refl
drop-length-take (suc k) [] = refl
drop-length-take (suc k) (x ∷ xs) = drop-length-take k xs

drop-empty : {A : Type 0} (k : ℕ) → drop {A = A} k [] ≡ []
drop-empty zero = refl
drop-empty (suc k) = refl

drop-drop : {A : Type 0} (a b : ℕ) (xs : List A) → drop (a + b) xs ≡ drop b (drop a xs)
drop-drop zero b xs = ap (λ (m : ℕ). drop m xs) (omega arith)
drop-drop (suc a) b [] = drop-empty (suc a + b) ∙ sym (drop-empty b)
drop-drop (suc a) b (x ∷ xs) =
    let same : suc a + b ≡ suc (a + b) = omega arith in
    ap (λ (m : ℕ). drop m (x ∷ xs)) same ∙ drop-drop a b xs

check_limit-suc : (l : ℕ) → check_limit (suc l) ≡ some (suc l)
unfolding check_limit
check_limit-suc l = ground arith

changes_since_valid :
    {B : Type 0} (revision l : ℕ) (s : ClaimStore B)
    → changes_since revision (suc l) s
      ≡ some (record {
        changes = take (suc l) (newer_than revision s.changes);
        next_revision = last_revision revision (take (suc l) (newer_than revision s.changes));
      })
unfolding changes_since page_of
changes_since_valid revision l s = rw (changes_since, check_limit-suc l) refl

module _ {B : Type 0} (l : ℕ) (s : ClaimStore B) (ok : numbered 0 s.changes ≡ true) where
  -- A page after a revision that was reached.
  page_after :
      (revision : ℕ)
      → changes_since revision (suc l) s
        ≡ some (record {
          changes = take (suc l) (drop revision s.changes);
          next_revision = revision + length (take (suc l) (drop revision s.changes));
        })
  page_after revision =
      let same : 0 + revision ≡ revision = omega arith in
      let newer : newer_than revision s.changes ≡ drop revision s.changes =
        ap (λ (m : ℕ). newer_than m s.changes) (sym same)
        ∙ newer_than-drop 0 revision s.changes ok in
      let after : numbered revision (drop revision s.changes) ≡ true =
        subst (λ (m : ℕ). numbered m (drop revision s.changes) ≡ true) same
          (numbered-drop 0 revision s.changes ok) in
      changes_since_valid revision l s
      ∙ ap
          (λ (cs : List ClaimChange). some (record {
            changes = take (suc l) cs;
            next_revision = last_revision revision (take (suc l) cs);
          }))
          newer
      ∙ ap
          (λ (m : ℕ).
            some (record { changes = take (suc l) (drop revision s.changes); next_revision = m }))
          (last_revision-take revision (suc l) (drop revision s.changes) after)

  read_changes_step :
      (f revision : ℕ)
      → read_changes (suc l) s (suc f) revision
        ≡ joined
            (take (suc l) (drop revision s.changes))
            (read_changes (suc l) s f (revision + length (take (suc l) (drop revision s.changes))))
  unfolding read_changes
  read_changes_step f revision = rw (read_changes, page_after revision) refl

  -- Where the changes left are fewer than the fuel, all of them are read.
  pub read_changes_all :
      (f revision : ℕ) (xs : List ClaimChange)
      → drop revision s.changes ≡ xs
      → length xs < f
      → read_changes (suc l) s f revision ≡ some xs
  read_changes_all zero revision xs e h = ground (arith, h)
  read_changes_all (suc f) revision [] e h =
      read_changes_step f revision
      ∙ ap
          (λ (ys : List ClaimChange).
            joined (take (suc l) ys)
              (read_changes (suc l) s f (revision + length (take (suc l) ys))))
          e
      ∙ unfold joined in refl
  read_changes_all (suc f) revision (x ∷ xs) e h =
      let k = length (take (suc l) (x ∷ xs)) in
      let rest : drop (revision + k) s.changes ≡ drop l xs =
        drop-drop revision k s.changes ∙ ap (drop k) e ∙ drop-length-take (suc l) (x ∷ xs) in
      read_changes_step f revision
      ∙ ap
          (λ (ys : List ClaimChange).
            joined (take (suc l) ys)
              (read_changes (suc l) s f (revision + length (take (suc l) ys))))
          e
      ∙ ap (joined (take (suc l) (x ∷ xs)))
          (read_changes_all f (revision + k) (drop l xs) rest (omega (arith, h, length-drop l xs)))
      ∙ unfold joined in ap (λ (ys : List ClaimChange). some (x ∷ ys)) (take-append-drop l xs)
