-- ===== src/State/Files/Represents.antt =====
-- When a store holds what is tracked, and what reading and updating its metadata file keep of it.
use sci_etl_core.Prelude.{
  ◌≤◌, ◌≡◌, refl, sym, ap, subst, ◌∙◌, Text, codes, Bool, true, false, List, [], ◌∷◌, ◌++◌, Option,
  none, some, ltb, if◌then◌else◌, inl, inr, Option-cases, arith,
}
use sci_etl_core.Models.{empty_metadata}
use sci_etl_core.State.Json.{Value, Dict, dict, get, keys}
use sci_etl_core.State.Lines.{text_of, joined}
use sci_etl_core.State.Lines.RoundTrip.{IsStorable, AllStorable, read_ids-joined}
use sci_etl_core.State.Files.{
  Codec, Store, Outcome, done, failed, version, failures, live, dict_of, cursor, decimal_or_none,
  on_failures, metadata_of, known_failed, read_file, read_metadata, update_metadata,
  load_processed_ids, recall_unless, recall,
}
use sci_etl_core.State.Files.Keeps.{
  updated, on_failures-version, on_failures-held, on_failures-metadata,
}
use sci_etl_core.State.Files.Tracked.{
  Attempts, Tracked, encode, AllPositive, tried_ids, keys-encode, live-encode,
}

-- The store that an outcome leaves.
abbrev pub left : {C A : Type 0} → Outcome C A → Store C
left (done a s) = s
left (failed e s) = s

abbrev pub no_files : {C : Type 0} → Store C
no_files = record { ids_file = none; metadata_file = none; failed_ids = none }

abbrev pub nothing_tracked : Tracked
nothing_tracked = record { ids = []; attempts = []; stamp = none; metadata = empty_metadata }

-- The remembered ids, if any, are those of the file.
abbrev pub Remembers : Option (List Text) → List Text → Type 0
Remembers none ids = Unit
Remembers (some known) ids = known ≡ ids

module _ {C : Type 0} (j : Codec C) where
  pub record Represents (s : Store C) (t : Tracked) : Type 0 where
    pub ids : text_of s.ids_file ≡ joined t.ids
    pub storable : AllStorable t.ids
    pub current : version (read_file j s) ≤ 2
    pub attempts : failures (read_file j s) ≡ encode t.attempts
    pub positive : AllPositive t.attempts
    pub metadata : metadata_of (read_file j s) ≡ (t.stamp, t.metadata)
    pub remembered : Remembers s.failed_ids (tried_ids t.attempts)

  pub no_files-Represents : Represents no_files nothing_tracked
  unfolding read_file joined version failures metadata_of get cursor decimal_or_none
  no_files-Represents = record {
    ids = refl;
    storable = tt;
    current = omega arith;
    attempts = refl;
    positive = tt;
    metadata = refl;
    remembered = tt;
  }

  known_keys :
      (s : Store C) (t : Tracked)
      → Represents s t
      → keys (failures (read_file j s)) ≡ tried_ids t.attempts
  known_keys s t r = ap keys r.attempts ∙ keys-encode t.attempts

  pub read_metadata_lem :
      (s : Store C) (t : Tracked)
      → Represents s t
      → read_metadata j s
        ≡ done (read_file j s) (record s { failed_ids = some (keys (failures (read_file j s))) })
  unfolding read_metadata
  read_metadata_lem s t r =
      let e : ltb 2 (version (read_file j s)) ≡ false = ground (arith, r.current) in rw e refl

  -- Reading the file leaves what is tracked as it was.
  pub recalled-Represents :
      (s : Store C) (t : Tracked)
      → Represents s t
      → Represents (record s { failed_ids = some (keys (failures (read_file j s))) }) t
  unfolding read_file
  recalled-Represents s t r = record {
    ids = r.ids;
    storable = r.storable;
    current = r.current;
    attempts = r.attempts;
    positive = r.positive;
    metadata = r.metadata;
    remembered = known_keys s t r;
  }

  pub load_processed_ids-tracked :
      (s : Store C) (t : Tracked) → Represents s t → load_processed_ids j s ≡ t.ids
  unfolding load_processed_ids
  load_processed_ids-tracked s t r = read_ids-joined s.ids_file t.ids r.storable r.ids

module _ {C : Type 0} (j : Codec C) (round : (v : Value) → j.loads (j.dumps v) ≡ some v) where
  -- What `update_metadata` leaves.
  abbrev pub written : (Dict → Dict) → Store C → Store C
  written change s = record s {
    metadata_file = some (j.dumps (dict (updated change (read_file j s))));
    failed_ids = some (keys (dict_of (get (codes "failures") (updated change (read_file j s)))));
  }

  pub update_metadata_lem :
      (change : Dict → Dict) (s : Store C) (t : Tracked)
      → Represents j s t
      → update_metadata j change s ≡ done tt (written change s)
  unfolding update_metadata
  update_metadata_lem change s t r = rw (read_metadata_lem j s t r) refl

  read_file-written :
      (change : Dict → Dict) (s : Store C)
      → read_file j (written change s) ≡ updated change (read_file j s)
  unfolding dict_of
  read_file-written change s =
      unfold read_file in ap dict_of (round (dict (updated change (read_file j s))))

  pub record Changes (change : Dict → Dict) (s : Store C) (t : Tracked) : Type 0 where
    pub current : version (updated change (read_file j s)) ≡ 2
    pub held : dict_of (get (codes "failures") (updated change (read_file j s))) ≡ encode t.attempts
    pub positive : AllPositive t.attempts
    pub metadata : metadata_of (updated change (read_file j s)) ≡ (t.stamp, t.metadata)

  pub written-Represents :
      (change : Dict → Dict) (s : Store C) (t : Tracked)
      → text_of s.ids_file ≡ joined t.ids
      → AllStorable t.ids
      → Changes change s t
      → Represents j (written change s) t
  written-Represents change s t i a h =
      let same = read_file-written change s in
      record {
        ids = i;
        storable = a;
        current = rw same (omega (arith, h.current));
        attempts = rw same (unfold failures in ap live h.held ∙ live-encode t.attempts h.positive);
        positive = h.positive;
        metadata = rw same h.metadata;
        remembered = ap keys h.held ∙ keys-encode t.attempts;
      }

  pub on_failures-Changes :
      (g : Dict → Dict) (s : Store C) (t u : Tracked)
      → Represents j s t
      → u.stamp ≡ t.stamp
      → u.metadata ≡ t.metadata
      → g (encode t.attempts) ≡ encode u.attempts
      → AllPositive u.attempts
      → Changes (on_failures g) s u
  on_failures-Changes g s t u r es em e p = record {
    current = on_failures-version g (read_file j s);
    held = on_failures-held g (read_file j s) ∙ ap g r.attempts ∙ e;
    positive = p;
    metadata = on_failures-metadata g (read_file j s) ∙ r.metadata ∙ rw (es, em) refl;
  }

  known_lem :
      (s : Store C) (t : Tracked) (ids : List Text)
      → Represents j s t
      → s.failed_ids ≡ some ids
      → known_failed s ≡ tried_ids t.attempts
  unfolding known_failed
  known_lem s t ids r e =
      let known : ids ≡ tried_ids t.attempts =
        subst (λ o. Remembers o (tried_ids t.attempts)) e r.remembered in
      rw e known

  pub recall_lem :
      (s : Store C) (t : Tracked)
      → Represents j s t
      → (s' : Store C) × (recall j s ≡ done tt s')
        × Represents j s' t
        × (known_failed s' ≡ tried_ids t.attempts)
  unfolding recall known_failed
  recall_lem s t r = elim (Option-cases s.failed_ids) [
    | inl e ↦ (
      record s { failed_ids = some (keys (failures (read_file j s))) },
      ap (λ o. recall_unless j o s) e ∙ rw (read_metadata_lem j s t r) refl,
      recalled-Represents j s t r,
      known_keys j s t r,
    )
    | inr (ids, e) ↦ (s, ap (λ o. recall_unless j o s) e, r, known_lem s t ids r e)
  ]

  pub if-Represents :
      {A : Type 0} (b : Bool) (x y : Outcome C A) (t u : Tracked)
      → (b ≡ true → Represents j (left x) t)
      → (b ≡ false → Represents j (left y) u)
      → Represents j (left (if b then x else y)) (if b then t else u)
  if-Represents true x y t u f g = f refl
  if-Represents false x y t u f g = g refl

  pub AllStorable-append :
      (ids : List Text) (id : Text) → AllStorable ids → IsStorable id → AllStorable (ids ++ id ∷ [])
  AllStorable-append [] id h v = (v, tt)
  AllStorable-append (i ∷ ids) id h v = (h.0, AllStorable-append ids id h.1 v)

  -- The store with other ids in its file.
  pub ids_file-Represents :
      (s : Store C) (t : Tracked) (file : Option Text) (ids : List Text)
      → Represents j s t
      → text_of file ≡ joined ids
      → AllStorable ids
      → Represents j (record s { ids_file = file }) (record t { ids = ids })
  unfolding read_file
  ids_file-Represents s t file ids r e a = record {
    ids = e;
    storable = a;
    current = r.current;
    attempts = r.attempts;
    positive = r.positive;
    metadata = r.metadata;
    remembered = r.remembered;
  }

  -- The change of the failed attempts that ends `mark_processed` and `forget`.
  pub clear_recalled :
      (b : Bool) (g : Dict → Dict) (s : Store C) (t : Tracked) (as' : Attempts)
      → Represents j s t
      → g (encode t.attempts) ≡ encode as'
      → AllPositive as'
      → (b ≡ false → as' ≡ t.attempts)
      → Represents j
          (left (if b then update_metadata j (on_failures g) s else done tt s))
          (record t { attempts = as' })
  clear_recalled true g s t as' r e p z = rw (update_metadata_lem (on_failures g) s t r) (
      written-Represents (on_failures g) s (record t { attempts = as' }) r.ids r.storable
        (on_failures-Changes g s t (record t { attempts = as' }) r refl refl e p))
  clear_recalled false g s t as' r e p z =
      subst (λ a. Represents j s (record t { attempts = a })) (sym (z refl)) r
