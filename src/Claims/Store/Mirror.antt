-- ===== src/Claims/Store/Mirror.antt =====
-- A consumer that follows a claim store by its changes.
use sci_etl_core.Prelude.{
  ℕ, zero, suc, ◌+◌, ◌≤◌, ◌<◌, Text, true, false, ◌||◌, List, [], ◌∷◌, ◌++◌, Option, none, some,
  length, drop, mem, text_eq, text_eq_iff, ◌≡◌, refl, sym, ap, subst, ◌∙◌, arith, append_assoc,
  append-nil, length-append, if◌then◌else◌, Bool-cases, Option-cases, inl, inr,
}
use sci_etl_core.Claims.Store.{
  Claim, ClaimChange, Operation, ClaimStore, new_store, replace, delete, unique_claims, put_claims,
  claims_of, store_claims, pop_claims, record_change, replace_record, delete_record, revision_of,
}
use sci_etl_core.Claims.Store.Paging.{
  Write, replaced, deleted, write_or, perform, perform_all, numbered, numbered-append, read_changes,
  read_changes_all,
}

unfoldable pub changed_ids : List ClaimChange → List Text
changed_ids [] = []
changed_ids (c ∷ cs) = c.record_id ∷ changed_ids cs

changed_ids-append :
    (cs ds : List ClaimChange) (key : Text)
    → mem key (changed_ids (cs ++ ds)) ≡ (mem key (changed_ids cs) || mem key (changed_ids ds))
unfolding changed_ids mem
changed_ids-append [] ds key = refl
changed_ids-append (c ∷ cs) ds key = ground (arith, changed_ids-append cs ds key)

drop_added : {A : Type 0} (xs ys : List A) → drop (length xs) (xs ++ ys) ≡ ys
drop_added [] ys = refl
drop_added (x ∷ xs) ys = drop_added xs ys

module _ {B : Type 0} where
  claims_of-put_claims :
      (key id : Text) (cs : List (Claim B)) (d : List (Text × List (Claim B)))
      → text_eq key id ≡ false
      → claims_of key (put_claims id cs d) ≡ claims_of key d
  unfolding claims_of put_claims
  claims_of-put_claims key id cs [] h = ground (arith, h)
  claims_of-put_claims key id cs ((k, old) ∷ d) h = ground (
    arith,
    h,
    claims_of-put_claims key id cs d h,
    text_eq_iff id k,
    text_eq_iff key id,
    text_eq_iff key k,
  )

  claims_of-pop_claims :
      (key id : Text) (d : List (Text × List (Claim B)))
      → text_eq key id ≡ false
      → claims_of key (pop_claims id d) ≡ claims_of key d
  unfolding claims_of pop_claims
  claims_of-pop_claims key id [] h = refl
  claims_of-pop_claims key id ((k, old) ∷ d) h = ground (
    arith,
    h,
    claims_of-pop_claims key id d h,
    text_eq_iff id k,
    text_eq_iff key id,
    text_eq_iff key k,
  )

  claims_of-store_claims :
      (key id : Text) (kept : List (Claim B)) (d : List (Text × List (Claim B)))
      → text_eq key id ≡ false
      → claims_of key (store_claims id kept d) ≡ claims_of key d
  unfolding store_claims
  claims_of-store_claims key id [] d h = claims_of-pop_claims key id d h
  claims_of-store_claims key id (c ∷ cs) d h = claims_of-put_claims key id (c ∷ cs) d h

  -- A store after calls: more changes, in turn, and the claims of the other records as they were.
  record IsLater (s s' : ClaimStore B) : Type 0 where
    more : List ClaimChange
    added : s'.changes ≡ s.changes ++ more
    in_turn : numbered 0 s.changes ≡ true → numbered 0 s'.changes ≡ true
    others :
        (key : Text)
        → mem key (changed_ids more) ≡ false
        → claims_of key s'.claims ≡ claims_of key s.claims

  IsLater-refl : (s : ClaimStore B) → IsLater s s
  IsLater-refl s = record {
    more = [];
    added = sym (append-nil s.changes);
    in_turn = λ h. h;
    others = λ key h. refl;
  }

  IsLater-trans : (s t u : ClaimStore B) → IsLater s t → IsLater t u → IsLater s u
  IsLater-trans s t u p q = record {
    more = p.more ++ q.more;
    added =
        q.added
        ∙ ap (λ (cs : List ClaimChange). cs ++ q.more) p.added
        ∙ append_assoc s.changes p.more q.more;
    in_turn = λ h. q.in_turn (p.in_turn h);
    others = λ key h.
        let both = sym (changed_ids-append p.more q.more key) ∙ h in
        q.others key (ground (arith, both)) ∙ p.others key (ground (arith, both));
  }

  IsLater-record_change :
      (id : Text) (op : Operation) (s : ClaimStore B) (d : List (Text × List (Claim B)))
      → ((key : Text) → text_eq key id ≡ false → claims_of key d ≡ claims_of key s.claims)
      → IsLater s (record_change id op (record s { claims = d })).1
  unfolding record_change
  IsLater-record_change id op s d same =
      let change : ClaimChange = record {
        revision = length s.changes + 1;
        record_id = id;
        op = op;
      } in
      record {
        more = change ∷ [];
        added = refl;
        in_turn = λ h. numbered-append 0 s.changes change h (omega arith);
        others = λ key h. same key (unfold changed_ids mem in ground (arith, h));
      }

  pub replace_record-refused :
      (id : Text) (claims : List (Claim B)) (s : ClaimStore B)
      → unique_claims id claims ≡ none
      → replace_record id claims s ≡ none
  unfolding replace_record
  replace_record-refused id claims s e = rw (replace_record, e) refl

  pub replace_record-kept :
      (id : Text) (claims kept : List (Claim B)) (s : ClaimStore B)
      → unique_claims id claims ≡ some kept
      → replace_record id claims s
        ≡ some (record_change id replace (record s { claims = store_claims id kept s.claims }))
  unfolding replace_record
  replace_record-kept id claims kept s e = rw (replace_record, e) refl

  IsLater-perform : (w : Write B) (s : ClaimStore B) → IsLater s (perform w s)
  unfolding perform write_or
  IsLater-perform (replaced id claims) s = elim (Option-cases (unique_claims id claims)) [
    | inl e ↦
        subst (λ (o : Option (ℕ × ClaimStore B)). IsLater s (write_or s o))
          (sym (replace_record-refused id claims s e)) (IsLater-refl s)
    | inr (kept, e) ↦
        subst (λ (o : Option (ℕ × ClaimStore B)). IsLater s (write_or s o))
          (sym (replace_record-kept id claims kept s e))
          (IsLater-record_change id replace s (store_claims id kept s.claims)
            (λ key h. claims_of-store_claims key id kept s.claims h))
  ]
  IsLater-perform (deleted id) s =
      unfold delete_record in
      IsLater-record_change id delete s (pop_claims id s.claims)
        (λ key h. claims_of-pop_claims key id s.claims h)

  IsLater-perform_all : (ws : List (Write B)) (s : ClaimStore B) → IsLater s (perform_all ws s)
  unfolding perform_all
  IsLater-perform_all [] s = IsLater-refl s
  IsLater-perform_all (w ∷ ws) s =
      IsLater-trans s (perform w s) (perform_all ws (perform w s)) (IsLater-perform w s)
        (IsLater-perform_all ws (perform w s))

  -- What a consumer has of a record, which read all claims of `s`, then the changes since, in pages of
  -- at most `limit`, and the claims of each changed record again; `none` where it never ends.
  unfoldable pub followed :
      ℕ → ClaimStore B → ClaimStore B → Text → Option (Option (List (Claim B)))
  unfolding read_changes changed_ids claims_of revision_of mem
  followed limit s s' id = elim (read_changes limit s' (length s'.changes + 1) (revision_of s)) [
    | none ↦ none
    | some cs ↦
        some (if mem id (changed_ids cs) then claims_of id s'.claims else claims_of id s.claims)
  ]

  followed_step :
      (limit : ℕ) (s s' : ClaimStore B) (id : Text) (cs : List ClaimChange)
      → read_changes limit s' (length s'.changes + 1) (length s.changes) ≡ some cs
      → (mem id (changed_ids cs) ≡ false → claims_of id s'.claims ≡ claims_of id s.claims)
      → followed limit s s' id ≡ some (claims_of id s'.claims)
  unfolding followed claims_of
  followed_step limit s s' id cs e same = elim (Bool-cases (mem id (changed_ids cs))) [
    | inl m ↦ rw (followed, revision_of, e, m) refl
    | inr m ↦ rw (followed, revision_of, e, m) (ap some (sym (same m)))
  ]

  -- A consumer that follows the changes of a claim store, from any state that writes reach to any
  -- later one and with any valid limit on its pages, comes to an end and then has of every record what
  -- the store has, whatever was replaced, refused or deleted.
  pub followed_all :
      (limit : ℕ) (before ws : List (Write B)) (id : Text)
      → 1 ≤ limit
      → let s = perform_all before new_store in
        let s' = perform_all ws s in followed limit s s' id ≡ some (claims_of id s'.claims)
  followed_all zero before ws id h = ground (arith, h)
  followed_all (suc l) before ws id h =
      let s : ClaimStore B = perform_all before new_store in
      let s' : ClaimStore B = perform_all ws s in
      let first = IsLater-perform_all before new_store in
      let later = IsLater-perform_all ws s in
      let in_turn = later.in_turn (first.in_turn (unfold numbered in refl)) in
      let rest : drop (length s.changes) s'.changes ≡ later.more =
        ap (drop (length s.changes)) later.added ∙ drop_added s.changes later.more in
      let fewer : length later.more < length s'.changes + 1 =
        omega (arith, ap length later.added, length-append s.changes later.more) in
      followed_step (suc l) s s' id later.more
        (read_changes_all l s' in_turn (length s'.changes + 1) (length s.changes) later.more rest
          fewer)
        (later.others id)
