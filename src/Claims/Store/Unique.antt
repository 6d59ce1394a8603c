-- ===== src/Claims/Store/Unique.antt =====
-- What the lists of claims in a store look like.
use sci_etl_core.Prelude.{
  ℕ, Text, Bool, true, false, not, ◌&&◌, List, [], ◌∷◌, ◌++◌, Option, some, text_eq, text_eq_iff,
  ◌≡◌, refl, sym, ap, subst, arith, if◌then◌else◌, some_inj, Option-cases, inl, inr,
}
use sci_etl_core.Claims.Store.{
  Claim, ClaimStore, new_store, has_id, keep_first, unique_from, unique_claims, put_claims,
  store_claims, pop_claims, record_change, delete_record,
}
use sci_etl_core.Claims.Store.Paging.{Write, replaced, deleted, write_or, perform, perform_all}
use sci_etl_core.Claims.Store.Mirror.{replace_record-refused, replace_record-kept}

module _ {B : Type 0} where
  -- Every claim was read from the record.
  unfoldable pub all_of : Text → List (Claim B) → Bool
  all_of id [] = true
  all_of id (c ∷ cs) = text_eq c.span_record_id id && all_of id cs

  unfoldable pub distinct_ids : List (Claim B) → Bool
  unfolding has_id
  distinct_ids [] = true
  distinct_ids (c ∷ cs) = not (has_id c.claim_id cs) && distinct_ids cs

  unfoldable pub is_some_claim : List (Claim B) → Bool
  is_some_claim [] = false
  is_some_claim (c ∷ cs) = true

  -- Every record has claims, which are its own and have different ids.
  unfoldable pub proper : List (Text × List (Claim B)) → Bool
  unfolding all_of distinct_ids is_some_claim
  proper [] = true
  proper ((id, cs) ∷ d) = is_some_claim cs && all_of id cs && distinct_ids cs && proper d

  has_id-append :
      (id : Text) (cs : List (Claim B)) (c : Claim B)
      → has_id id (cs ++ c ∷ []) ≡ (if has_id id cs then true else text_eq id c.claim_id)
  unfolding has_id
  has_id-append id [] c = ground arith
  has_id-append id (d ∷ cs) c = ground (arith, has_id-append id cs c)

  distinct_ids-append :
      (cs : List (Claim B)) (c : Claim B)
      → distinct_ids cs ≡ true
      → has_id c.claim_id cs ≡ false
      → distinct_ids (cs ++ c ∷ []) ≡ true
  unfolding distinct_ids has_id
  distinct_ids-append [] c h n = refl
  distinct_ids-append (d ∷ cs) c h n = ground (
    arith,
    h,
    n,
    distinct_ids-append cs c,
    has_id-append d.claim_id cs c,
    text_eq_iff d.claim_id c.claim_id,
    text_eq_iff c.claim_id d.claim_id,
  )

  all_of-append :
      (id : Text) (cs : List (Claim B)) (c : Claim B)
      → all_of id (cs ++ c ∷ []) ≡ (all_of id cs && text_eq c.span_record_id id)
  unfolding all_of
  all_of-append id [] c = ground arith
  all_of-append id (d ∷ cs) c = ground (arith, all_of-append id cs c)

  distinct_ids-keep_first :
      (c : Claim B) (kept : List (Claim B))
      → distinct_ids kept ≡ true
      → distinct_ids (keep_first c kept) ≡ true
  unfolding keep_first
  distinct_ids-keep_first c kept h = ground (arith, h, distinct_ids-append kept c)

  all_of-keep_first :
      (id : Text) (c : Claim B) (kept : List (Claim B))
      → text_eq c.span_record_id id ≡ true
      → all_of id kept ≡ true
      → all_of id (keep_first c kept) ≡ true
  unfolding keep_first
  all_of-keep_first id c kept e h = ground (arith, e, h, all_of-append id kept c)

  unique_from-proper :
      (id : Text) (kept cs out : List (Claim B))
      → unique_from id kept cs ≡ some out
      → all_of id kept ≡ true
      → distinct_ids kept ≡ true
      → (all_of id out ≡ true) × (distinct_ids out ≡ true)
  unfolding unique_from
  unique_from-proper id kept [] out e a d = (
    subst (λ (xs : List (Claim B)). all_of id xs ≡ true) (some_inj e) a,
    subst (λ (xs : List (Claim B)). distinct_ids xs ≡ true) (some_inj e) d,
  )
  unique_from-proper id kept (c ∷ cs) out e a d =
      let own : text_eq c.span_record_id id ≡ true = ground (arith, e) in
      let rest : unique_from id (keep_first c kept) cs ≡ some out = ground (arith, e, own) in
      unique_from-proper id (keep_first c kept) cs out rest (all_of-keep_first id c kept own a)
        (distinct_ids-keep_first c kept d)

  proper-put_claims :
      (id : Text) (cs : List (Claim B)) (d : List (Text × List (Claim B)))
      → is_some_claim cs ≡ true
      → all_of id cs ≡ true
      → distinct_ids cs ≡ true
      → proper d ≡ true
      → proper (put_claims id cs d) ≡ true
  unfolding proper put_claims
  proper-put_claims id cs [] s a u p = ground (arith, s, a, u)
  proper-put_claims id cs ((k, old) ∷ d) s a u p = ground (
    arith,
    s,
    a,
    u,
    p,
    proper-put_claims id cs d,
    text_eq_iff id k,
    ap (λ (t : Text). all_of t cs),
  )

  proper-pop_claims :
      (id : Text) (d : List (Text × List (Claim B)))
      → proper d ≡ true
      → proper (pop_claims id d) ≡ true
  unfolding proper pop_claims
  proper-pop_claims id [] p = p
  proper-pop_claims id ((k, old) ∷ d) p = ground (arith, p, proper-pop_claims id d)

  proper-store_claims :
      (id : Text) (kept : List (Claim B)) (d : List (Text × List (Claim B)))
      → all_of id kept ≡ true
      → distinct_ids kept ≡ true
      → proper d ≡ true
      → proper (store_claims id kept d) ≡ true
  unfolding store_claims
  proper-store_claims id [] d a u p = proper-pop_claims id d p
  proper-store_claims id (c ∷ cs) d a u p =
      proper-put_claims id (c ∷ cs) d (unfold is_some_claim in refl) a u p

  proper-perform :
      (w : Write B) (s : ClaimStore B) → proper s.claims ≡ true → proper (perform w s).claims ≡ true
  unfolding perform write_or
  proper-perform (replaced id claims) s p = elim (Option-cases (unique_claims id claims)) [
    | inl e ↦
        subst (λ (o : Option (ℕ × ClaimStore B)). proper (write_or s o).claims ≡ true)
          (sym (replace_record-refused id claims s e)) p
    | inr (kept, e) ↦
        let good =
          unique_from-proper id [] claims kept (unfold unique_claims in e) (unfold all_of in refl)
            (unfold distinct_ids in refl) in
        subst (λ (o : Option (ℕ × ClaimStore B)). proper (write_or s o).claims ≡ true)
          (sym (replace_record-kept id claims kept s e))
          (unfold record_change in proper-store_claims id kept s.claims good.0 good.1 p)
  ]
  proper-perform (deleted id) s p =
      unfold delete_record record_change in proper-pop_claims id s.claims p

  proper-perform_all :
      (ws : List (Write B)) (s : ClaimStore B)
      → proper s.claims ≡ true
      → proper (perform_all ws s).claims ≡ true
  unfolding perform_all
  proper-perform_all [] s p = p
  proper-perform_all (w ∷ ws) s p = proper-perform_all ws (perform w s) (proper-perform w s p)

  -- After any writes every record that the store holds has claims, which were read from that record
  -- and have different ids.
  pub perform_all-proper :
      (ws : List (Write B)) → proper (perform_all ws (new_store {B = B})).claims ≡ true
  perform_all-proper ws = proper-perform_all ws new_store (unfold proper in refl)
