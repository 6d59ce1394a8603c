-- ===== src/Llm/Cache/Memory.antt =====
-- The in-memory cache as the cache of a client.
use sci_etl_core.Prelude.{
  Text, true, some, text_eq, text_eq_iff, ◌≡◌, sym, ap, ◌∙◌, ◌⊎◌, arith, Bool-cases, Option-cases,
  inl, inr, some_inj,
}
use sci_etl_core.Llm.Cache.{
  stored, pop, MemoryCache, Codec, get, set_response, delete, ResponseCache,
}
use sci_etl_core.Llm.Cache.Order.{
  stored-front_self, stored-front_other, stored-pop_self, stored-pop_other, stored-evict,
}
use sci_etl_core.Llm.Cache.Calls.{get-missing, get-stored, set_response-entries}
use sci_etl_core.Llm.Cache.Served.{IsCache}

-- Its methods never raise.
unfoldable pub memory_ops : {R : Type 0} → Codec R → ResponseCache MemoryCache R
unfolding get set_response delete
memory_ops codec = record {
  read = λ key c. (some (get codec key c).0, (get codec key c).1);
  write = λ key r c. (true, set_response codec key r c);
  remove = λ key c. (true, delete key c);
}

module _ {R : Type 0} (codec : Codec R) where
  unfoldable pub Holds : MemoryCache → Text → R → Type 0
  Holds c key r = (v : Text) × (stored key c.entries ≡ some v) × (codec.loads v ≡ r)

  pub get-Holds :
      (key : Text) (r : R) (c : MemoryCache)
      → some (get codec key c).0 ≡ some (some r)
      → Holds c key r
  unfolding Holds
  get-Holds key r c e = elim (Option-cases (stored key c.entries)) [
    | inl h ↦ ground (arith, some_inj e, ap (λ p. p.0) (get-missing codec key c h))
    | inr (v, h) ↦ (v, h, some_inj (sym (ap (λ p. p.0) (get-stored codec key v c h)) ∙ some_inj e))
  ]

  -- Moving an entry to the end changes no response.
  pub stored-get :
      (k key : Text) (c : MemoryCache) → stored k (get codec key c).1.entries ≡ stored k c.entries
  stored-get k key c = elim (Option-cases (stored key c.entries)) [
    | inl h ↦ ap (λ p. stored k p.1.entries) (get-missing codec key c h)
    | inr (v, h) ↦
        ap (λ p. stored k p.1.entries) (get-stored codec key v c h)
        ∙ elim (Bool-cases (text_eq k key)) [
          | inl e ↦
              stored-front_self k key v c.entries e
              ∙ sym h
              ∙ ap (λ (t : Text). stored t c.entries) (sym ((text_eq_iff k key).0 e))
          | inr e ↦ stored-front_other k key v c.entries e
        ]
  ]

  pub Holds-delete :
      (k key : Text) (r : R) (c : MemoryCache) → Holds (delete key c) k r → Holds c k r
  unfolding Holds delete
  Holds-delete k key r c (v, h, e) = elim (Bool-cases (text_eq k key)) [
    | inl same ↦ ground (
      arith,
      sym h
          ∙ ap (λ (t : Text). stored t (pop key c.entries)) ((text_eq_iff k key).0 same)
          ∙ stored-pop_self key c.entries,
    )
    | inr other ↦ (v, sym (stored-pop_other k key c.entries other) ∙ h, e)
  ]

  pub Holds-deleted : (key : Text) (r : R) (c : MemoryCache) → ¬ Holds (delete key c) key r
  unfolding Holds delete
  Holds-deleted key r c (v, h, e) = ground (arith, sym h ∙ stored-pop_self key c.entries)

  module _ (round_trip : (r : R) → codec.loads (codec.dumps r) ≡ r) where
    pub Holds-set_response :
        (k key : Text) (x r : R) (c : MemoryCache)
        → Holds (set_response codec key r c) k x
        → Holds c k x ⊎ (k ≡ key) × (x ≡ r)
    unfolding Holds
    Holds-set_response k key x r c (v, h, e) =
        let front = stored-evict c.max_entries k v _ (
          sym (ap (λ (d : MemoryCache). stored k d.entries) (set_response-entries codec key r c))
          ∙ h) in
        elim (Bool-cases (text_eq k key)) [
          | inl same ↦ inr (
            (text_eq_iff k key).0 same,
            sym e
                ∙ ap codec.loads
                    (some_inj (sym front ∙ stored-front_self k key (codec.dumps r) c.entries same))
                ∙ round_trip r,
          )
          | inr other ↦
              inl (v, sym (stored-front_other k key (codec.dumps r) c.entries other) ∙ front, e)
        ]

    unfoldable pub memory_cache : IsCache (memory_ops codec)
    unfolding memory_ops Holds
    memory_cache = record {
      Held = Holds;
      read-Held = get-Holds;
      Held-read = λ k key r c (v, h, e). (v, sym (stored-get k key c) ∙ h, e);
      Held-write = Holds-set_response;
      Held-remove = λ k key r c. Holds-delete k key r c;
      removed = λ key r c e. Holds-deleted key r c;
    }
