-- ===== src/Llm/Cache/Recent.antt =====
-- The in-memory cache against a map that forgets nothing.
use sci_etl_core.Prelude.{
  ℕ, Text, true, List, [], ◌∷◌, Option, none, some, text_eq, text_eq_iff, ◌≡◌, refl, sym, subst, ap,
  ◌∙◌, arith, Bool-cases, Option-cases, inl, inr, some_inj,
}
use sci_etl_core.Llm.Cache.{
  Entries, stored, pop, evict, MemoryCache, new_cache, Codec, get, delete, clear,
}
use sci_etl_core.Llm.Cache.Order.{
  distinct, fits, stored-pop_self, stored-pop_other, stored-front_self, stored-front_other,
  distinct-pop, distinct-front, length-front, length-pop, fits-shorter, fits-evict, stored-evict,
  distinct-evict,
}
use sci_etl_core.Llm.Cache.Calls.{
  Call, read_of, write_of, delete_of, clear_of, call, calls, told, all_told, get-missing,
  get-stored, set_response-entries,
}

new_cache-empty :
    (max_entries : Option ℕ) (c : MemoryCache)
    → new_cache max_entries ≡ some c
    → record { max_entries = max_entries; entries = [] } ≡ c
unfolding new_cache
new_cache-empty none c e = some_inj e
new_cache-empty (some n) c e = ground (arith, e)

fits-empty : (n : Option ℕ) → fits n [] ≡ true
unfolding fits
fits-empty none = refl
fits-empty (some n) = ground arith

module _ {R : Type 0} (codec : Codec R) where
  -- Every response that is stored is the one of the map.
  unfoldable Sound : Entries → (Text → Option R) → Type 0
  Sound es m = (key v : Text) → stored key es ≡ some v → m key ≡ some (codec.loads v)

  unfoldable Exact : Entries → (Text → Option R) → Type 0
  Exact es m = (key : Text) → stored key es ≡ none → m key ≡ none

  record IsKept (c : MemoryCache) (m : Text → Option R) : Type 0 where
    pub once : distinct c.entries ≡ true
    bounded : fits c.max_entries c.entries ≡ true
    sound : Sound c.entries m
    exact : c.max_entries ≡ none → Exact c.entries m

  module _ (round_trip : (r : R) → codec.loads (codec.dumps r) ≡ r) where
    Sound-write :
        (key : Text) (r : R) (n : Option ℕ) (es : Entries) (m : Text → Option R)
        → Sound es m
        → Sound (evict n ((key, codec.dumps r) ∷ pop key es)) (told (write_of key r) m)
    unfolding told Sound
    Sound-write key r n es m s k v h =
        let front = stored-evict n k v ((key, codec.dumps r) ∷ pop key es) h in
        elim (Bool-cases (text_eq k key)) [
          | inl e ↦ rw e (
              ap some (
                sym (round_trip r)
                ∙ ap codec.loads (some_inj (sym (stored-front_self k key _ es e) ∙ front))))
          | inr e ↦ rw e (s k v (sym (stored-front_other k key _ es e) ∙ front))
        ]

    Exact-write :
        (key : Text) (r : R) (es : Entries) (m : Text → Option R)
        → Exact es m
        → Exact ((key, codec.dumps r) ∷ pop key es) (told (write_of key r) m)
    unfolding told Exact
    Exact-write key r es m x k h = elim (Bool-cases (text_eq k key)) [
      | inl e ↦ ground (arith, sym h ∙ stored-front_self k key (codec.dumps r) es e)
      | inr e ↦ rw e (x k (sym (stored-front_other k key (codec.dumps r) es e) ∙ h))
    ]

  Sound-touch :
      (key v : Text) (es : Entries) (m : Text → Option R)
      → stored key es ≡ some v
      → Sound es m
      → Sound ((key, v) ∷ pop key es) m
  unfolding Sound
  Sound-touch key v es m at s k w h = elim (Bool-cases (text_eq k key)) [
    | inl e ↦
        let same = (text_eq_iff k key).0 e in
        s k w (ap (λ (t : Text). stored t es) same ∙ at ∙ sym (stored-front_self k key v es e) ∙ h)
    | inr e ↦ s k w (sym (stored-front_other k key v es e) ∙ h)
  ]

  Exact-touch :
      (key v : Text) (es : Entries) (m : Text → Option R)
      → stored key es ≡ some v
      → Exact es m
      → Exact ((key, v) ∷ pop key es) m
  unfolding Exact
  Exact-touch key v es m at x k h = elim (Bool-cases (text_eq k key)) [
    | inl e ↦ ground (arith, sym h ∙ stored-front_self k key v es e)
    | inr e ↦ x k (sym (stored-front_other k key v es e) ∙ h)
  ]

  Sound-delete :
      (key : Text) (es : Entries) (m : Text → Option R)
      → Sound es m
      → Sound (pop key es) (told (delete_of key) m)
  unfolding Sound told
  Sound-delete key es m s k w h = elim (Bool-cases (text_eq k key)) [
    | inl e ↦
        let same = (text_eq_iff k key).0 e in
        ground
          (arith, sym h ∙ ap (λ (t : Text). stored t (pop key es)) same ∙ stored-pop_self key es)
    | inr e ↦ rw e (s k w (sym (stored-pop_other k key es e) ∙ h))
  ]

  Exact-delete :
      (key : Text) (es : Entries) (m : Text → Option R)
      → Exact es m
      → Exact (pop key es) (told (delete_of key) m)
  unfolding Exact told
  Exact-delete key es m x k h = elim (Bool-cases (text_eq k key)) [
    | inl e ↦ rw e refl
    | inr e ↦ rw e (x k (sym (stored-pop_other k key es e) ∙ h))
  ]

  IsKept-get :
      (key : Text) (c : MemoryCache) (m : Text → Option R)
      → IsKept c m
      → IsKept (get codec key c).1 m
  IsKept-get key c m k = elim (Option-cases (stored key c.entries)) [
    | inl h ↦
        subst (λ (p : Option R × MemoryCache). IsKept p.1 m) (sym (get-missing codec key c h)) k
    | inr (v, h) ↦
        subst (λ (p : Option R × MemoryCache). IsKept p.1 m) (sym (get-stored codec key v c h))
          (record {
            once = distinct-front key v c.entries k.once;
            bounded =
                fits-shorter c.max_entries c.entries _ (length-front key v v c.entries h) k.bounded;
            sound = Sound-touch key v c.entries m h k.sound;
            exact = λ n. Exact-touch key v c.entries m h (k.exact n);
          })
  ]

  Sound-none : (m : Text → Option R) → Sound [] m
  unfolding Sound stored
  Sound-none m k v h = ground (arith, h)

  Exact-unbounded :
      (n : Option ℕ) (es : Entries) (m : Text → Option R)
      → n ≡ none
      → Exact es m
      → Exact (evict n es) m
  unfolding evict
  Exact-unbounded none es m e x = x
  Exact-unbounded (some n) es m e x = ground (arith, e)

  module _ (round_trip : (r : R) → codec.loads (codec.dumps r) ≡ r) where
    IsKept-call :
        (op : Call R) (c : MemoryCache) (m : Text → Option R)
        → IsKept c m
        → IsKept (call codec op c) (told op m)
    unfolding call told delete clear
    IsKept-call (read_of key) c m k = IsKept-get key c m k
    IsKept-call (write_of key r) c m k =
        subst (λ (d : MemoryCache). IsKept d (told (write_of key r) m))
          (sym (set_response-entries codec key r c))
          (record {
            once =
                distinct-evict c.max_entries _
                  (distinct-front key (codec.dumps r) c.entries k.once);
            bounded = fits-evict c.max_entries _ c.entries _ k.bounded (length-pop key c.entries);
            sound = Sound-write round_trip key r c.max_entries c.entries m k.sound;
            exact = λ n.
                Exact-unbounded c.max_entries _ _ n
                  (Exact-write round_trip key r c.entries m (k.exact n));
          })
    IsKept-call (delete_of key) c m k = record {
      once = distinct-pop key c.entries k.once;
      bounded = fits-shorter c.max_entries c.entries _ (length-pop key c.entries) k.bounded;
      sound = Sound-delete key c.entries m k.sound;
      exact = λ n. Exact-delete key c.entries m (k.exact n);
    }
    IsKept-call clear_of c m k = record {
      once = unfold distinct in refl;
      bounded = fits-shorter c.max_entries c.entries [] (omega arith) k.bounded;
      sound = Sound-none (λ _. none);
      exact = λ n. unfold Exact in λ key h. refl;
    }

    IsKept-calls :
        (ops : List (Call R)) (c : MemoryCache) (m : Text → Option R)
        → IsKept c m
        → IsKept (calls codec ops c) (all_told ops m)
    unfolding calls all_told
    IsKept-calls [] c m k = k
    IsKept-calls (op ∷ ops) c m k = IsKept-calls ops _ _ (IsKept-call op c m k)

  -- A cache of distinct keys within its bound, whose answers are those of a map.
  unfoldable pub IsFaithful : MemoryCache → (Text → Option R) → Type 0
  IsFaithful c m =
      (distinct c.entries ≡ true)
      × (fits c.max_entries c.entries ≡ true)
      × ((key : Text) (r : R) → (get codec key c).0 ≡ some r → m key ≡ some r)
      × (c.max_entries ≡ none → (key : Text) → (get codec key c).0 ≡ m key)

  IsKept-IsFaithful : (c : MemoryCache) (m : Text → Option R) → IsKept c m → IsFaithful c m
  unfolding IsFaithful
  IsKept-IsFaithful c m k = (
    k.once,
    k.bounded,
    (λ key r h. elim (Option-cases (stored key c.entries)) [
      | inl e ↦ ground (arith, sym h ∙ ap (λ p. p.0) (get-missing codec key c e))
      | inr (v, e) ↦
          unfold Sound in k.sound key v e ∙ sym (ap (λ p. p.0) (get-stored codec key v c e)) ∙ h
    ]),
    (λ n key. elim (Option-cases (stored key c.entries)) [
      | inl e ↦ ap (λ p. p.0) (get-missing codec key c e) ∙ sym (unfold Exact in k.exact n key e)
      | inr (v, e) ↦
          ap (λ p. p.0) (get-stored codec key v c e) ∙ sym (unfold Sound in k.sound key v e)
    ]),
  )

  IsKept-new_cache :
      (max_entries : Option ℕ) (c : MemoryCache)
      → new_cache max_entries ≡ some c
      → IsKept c (λ _. none)
  IsKept-new_cache max_entries c e =
      subst (λ (d : MemoryCache). IsKept d (λ _. none)) (new_cache-empty max_entries c e)
        (record {
          once = unfold distinct in refl;
          bounded = fits-empty max_entries;
          sound = Sound-none (λ _. none);
          exact = λ n. unfold Exact in λ key h. refl;
        })

  -- After any calls of a new in-memory cache no key stands twice, there are at most max_entries
  -- entries, and a response that is read is the last one written under its key and not removed since;
  -- without a bound, every such response is read. It is assumed that the JSON of a response is read
  -- back as that response.
  pub calls-IsFaithful :
      ((r : R) → codec.loads (codec.dumps r) ≡ r)
      → (max_entries : Option ℕ) (c : MemoryCache) → new_cache max_entries ≡ some c
      → (ops : List (Call R)) → IsFaithful (calls codec ops c) (all_told ops (λ _. none))
  calls-IsFaithful round_trip max_entries c new ops =
      IsKept-IsFaithful _ _
        (IsKept-calls round_trip ops c (λ _. none) (IsKept-new_cache max_entries c new))
