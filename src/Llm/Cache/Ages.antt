-- ===== src/Llm/Cache/Ages.antt =====
-- How long the in-memory cache keeps a response.
use sci_etl_core.Prelude.{
  ℕ, zero, suc, ◌+◌, ◌≤◌, ◌<◌, Text, Bool, true, false, List, [], ◌∷◌, Option, none, some, ltb,
  length, text_eq, text_eq_iff, text_eq_refl, if◌then◌else◌, ◌≡◌, refl, sym, ap, ◌∙◌, arith,
  Bool-cases, Option-cases, inl, inr, some_inj, not, ◌&&◌, subst,
}
use sci_etl_core.Llm.Cache.{
  Entries, stored, pop, pop_oldest, evict, MemoryCache, Codec, get, set_response, delete, clear,
}
use sci_etl_core.Llm.Cache.Calls.{
  Call, read_of, write_of, delete_of, clear_of, call, calls, get-missing, get-stored,
  set_response-entries,
}

-- A call that leaves a key and its response.
unfoldable pub spares : {R : Type 0} → Text → Call R → Bool
spares key (read_of k) = true
spares key (write_of k r) = not (text_eq key k)
spares key (delete_of k) = not (text_eq key k)
spares key clear_of = false

unfoldable pub all_spare : {R : Type 0} → Text → List (Call R) → Bool
unfolding spares
all_spare key [] = true
all_spare key (op ∷ ops) = spares key op && all_spare key ops

-- A cache of that bound keeps an entry for so many calls.
unfoldable pub lasts : Option ℕ → ℕ → Bool
lasts none n = true
lasts (some max_entries) n = ltb n max_entries

-- The entry of a key holds `v`, and at most `n` entries were used after it.
unfoldable young : Text → Text → ℕ → Entries → Bool
young key v n [] = false
young key v zero ((k, w) ∷ es) = text_eq key k && text_eq v w
young key v (suc n) ((k, w) ∷ es) = if text_eq key k then text_eq v w else young key v n es

young-suc :
    (key v : Text) (n : ℕ) (es : Entries) → young key v n es ≡ true → young key v (suc n) es ≡ true
unfolding young
young-suc key v zero ((k, w) ∷ es) h = ground (arith, h)
young-suc key v (suc n) ((k, w) ∷ es) h = ground (arith, h, young-suc key v n es)
young-suc key v n [] h = ground (arith, h)

young-pop :
    (key v k : Text) (n : ℕ) (es : Entries)
    → text_eq key k ≡ false
    → young key v n es ≡ true
    → young key v n (pop k es) ≡ true
unfolding young pop
young-pop key v k n [] d h = h
young-pop key v k zero ((k', w) ∷ es) d h =
    ground (arith, d, h, text_eq_iff key k, text_eq_iff k k', text_eq_iff key k')
young-pop key v k (suc n) ((k', w) ∷ es) d h = ground (
  arith,
  d,
  h,
  young-pop key v k n es d,
  young-suc key v n (pop k es),
  text_eq_iff key k,
  text_eq_iff k k',
  text_eq_iff key k',
)

young-front :
    (key v k w : Text) (n : ℕ) (es : Entries)
    → text_eq key k ≡ false
    → young key v n es ≡ true
    → young key v (suc n) ((k, w) ∷ pop k es) ≡ true
young-front key v k w n es d h = unfold young in ground (arith, d, young-pop key v k n es d h)

young-first :
    (key k v : Text) (n : ℕ) (es : Entries)
    → text_eq key k ≡ true
    → young key v n ((k, v) ∷ es) ≡ true
unfolding young
young-first key k v zero es e = ground (arith, e, text_eq_refl v)
young-first key k v (suc n) es e = ground (arith, e, text_eq_refl v)

young-stored :
    (key v : Text) (n : ℕ) (es : Entries) → young key v n es ≡ true → stored key es ≡ some v
unfolding young stored
young-stored key v n [] h = ground (arith, h)
young-stored key v zero ((k, w) ∷ es) h = ground (arith, h, text_eq_iff v w)
young-stored key v (suc n) ((k, w) ∷ es) h =
    ground (arith, h, text_eq_iff v w, young-stored key v n es)

young-pop_oldest :
    (key v : Text) (n : ℕ) (es : Entries)
    → young key v n es ≡ true
    → n + 1 < length es
    → young key v n (pop_oldest es) ≡ true
unfolding young pop_oldest
young-pop_oldest key v n [] h l = ground (arith, h)
young-pop_oldest key v n (e ∷ []) h l = ground (arith, l)
young-pop_oldest key v zero ((k, w) ∷ e' ∷ es) h l = h
young-pop_oldest key v (suc n) ((k, w) ∷ e' ∷ es) h l =
    ground (arith, h, l, young-pop_oldest key v n (e' ∷ es))

young-evict :
    (key v : Text) (m : Option ℕ) (n : ℕ) (es : Entries)
    → lasts m n ≡ true
    → young key v n es ≡ true
    → young key v n (evict m es) ≡ true
unfolding evict lasts
young-evict key v none n es l h = h
young-evict key v (some m) n es l h = ground (arith, l, h, young-pop_oldest key v n es)

lasts-less : (m : Option ℕ) (n k : ℕ) → n ≤ k → lasts m k ≡ true → lasts m n ≡ true
unfolding lasts
lasts-less none n k h l = refl
lasts-less (some m) n k h l = ground (arith, h, l)

max_entries-call :
    {R : Type 0} (codec : Codec R) (op : Call R) (c : MemoryCache)
    → (call codec op c).max_entries ≡ c.max_entries
unfolding call set_response delete clear
max_entries-call codec (read_of key) c = elim (Option-cases (stored key c.entries)) [
  | inl e ↦ ap (λ p. p.1.max_entries) (get-missing codec key c e)
  | inr (v, e) ↦ ap (λ p. p.1.max_entries) (get-stored codec key v c e)
]
max_entries-call codec (write_of key r) c = refl
max_entries-call codec (delete_of key) c = refl
max_entries-call codec clear_of c = refl

module _ {R : Type 0} (codec : Codec R) where
  young-get :
      (key v k : Text) (n : ℕ) (c : MemoryCache)
      → young key v n c.entries ≡ true
      → young key v (suc n) (get codec k c).1.entries ≡ true
  young-get key v k n c h = elim (Option-cases (stored k c.entries)) [
    | inl e ↦ rw (get-missing codec k c e) (young-suc key v n c.entries h)
    | inr (w, e) ↦ rw (get-stored codec k w c e) (elim (Bool-cases (text_eq key k)) [
      | inl same ↦
          subst (λ (u : Text). young key v (suc n) ((k, u) ∷ pop k c.entries) ≡ true)
            (some_inj (
              sym (young-stored key v n c.entries h)
              ∙ ap (λ (t : Text). stored t c.entries) ((text_eq_iff key k).0 same)
              ∙ e))
            (young-first key k v (suc n) (pop k c.entries) same)
      | inr other ↦ young-front key v k w n c.entries other h
    ])
  ]

  young-write :
      (key v k : Text) (r : R) (n : ℕ) (c : MemoryCache)
      → lasts c.max_entries (suc n) ≡ true
      → text_eq key k ≡ false
      → young key v n c.entries ≡ true
      → young key v (suc n) (set_response codec k r c).entries ≡ true
  young-write key v k r n c l d h = rw (set_response-entries codec k r c) (
      young-evict key v c.max_entries (suc n) _ l
        (young-front key v k (codec.dumps r) n c.entries d h))

  young-call :
      (key v : Text) (n : ℕ) (op : Call R) (c : MemoryCache)
      → lasts c.max_entries (suc n) ≡ true
      → spares key op ≡ true
      → young key v n c.entries ≡ true
      → young key v (suc n) (call codec op c).entries ≡ true
  unfolding call spares delete
  young-call key v n (read_of k) c l s h = young-get key v k n c h
  young-call key v n (write_of k r) c l s h = young-write key v k r n c l (ground (arith, s)) h
  young-call key v n (delete_of k) c l s h =
      young-suc key v n _ (young-pop key v k n c.entries (ground (arith, s)) h)
  young-call key v n clear_of c l s h = ground (arith, s)

  young-calls :
      (key v : Text) (n : ℕ) (ops : List (Call R)) (c : MemoryCache)
      → lasts c.max_entries (n + length ops) ≡ true
      → all_spare key ops ≡ true
      → young key v n c.entries ≡ true
      → young key v (n + length ops) (calls codec ops c).entries ≡ true
  unfolding calls all_spare
  young-calls key v n [] c l s h = subst (λ (k : ℕ). young key v k c.entries ≡ true) (omega arith) h
  young-calls key v n (op ∷ ops) c l s h =
      let same : suc n + length ops ≡ n + suc (length ops) = omega arith in
      let l' =
        ap (λ (m : Option ℕ). lasts m (suc n + length ops)) (max_entries-call codec op c)
        ∙ ap (lasts c.max_entries) same
        ∙ l in
      let l'' = lasts-less c.max_entries (suc n) (n + suc (length ops)) (omega arith) l in
      let h' = young-call key v n op c l'' (ground (arith, s)) h in
      subst (λ (k : ℕ). young key v k (calls codec ops (call codec op c)).entries ≡ true) same
        (young-calls key v (suc n) ops (call codec op c) l' (ground (arith, s)) h')

  -- A response that was written is still read after any calls that neither write nor delete its key
  -- nor clear the cache, where these are fewer than max_entries, or there is no bound. It is assumed
  -- that the JSON of a response is read back as that response.
  pub get-calls :
      ((r : R) → codec.loads (codec.dumps r) ≡ r)
      → (key : Text) (r : R) (ops : List (Call R)) (c : MemoryCache)
      → lasts c.max_entries (length ops) ≡ true
      → all_spare key ops ≡ true
      → (get codec key (calls codec ops (set_response codec key r c))).0 ≡ some r
  unfolding set_response
  get-calls round_trip key r ops c l s =
      let written = set_response codec key r c in
      let first =
        subst (λ (d : MemoryCache). young key (codec.dumps r) 0 d.entries ≡ true)
          (sym (set_response-entries codec key r c))
          (young-evict key (codec.dumps r) c.max_entries 0 _
            (lasts-less c.max_entries 0 (length ops) (omega arith) l)
            (young-first key key (codec.dumps r) 0 _ (text_eq_refl key))) in
      let same : 0 + length ops ≡ length ops = omega arith in
      let kept =
        young-calls key (codec.dumps r) 0 ops written (ap (lasts c.max_entries) same ∙ l) s first in
      let found = young-stored key (codec.dumps r) _ _ kept in
      ap (λ p. p.0) (get-stored codec key (codec.dumps r) (calls codec ops written) found)
      ∙ ap some (round_trip r)
