-- ===== src/State/Files/Refines.antt =====
-- The manager over its files does what `track` says, whatever operations ran before.
use sci_etl_core.Prelude.{
  ◌≡◌, refl, sym, ap, subst, ◌∙◌, Text, text_eq, text_eq_iff, mem, true, false, not, List, [], ◌∷◌,
  ◌++◌, map, Option, none, some, arith,
}
use sci_etl_core.Models.{PipelineMetadata}
use sci_etl_core.State.Json.{Value, pop}
use sci_etl_core.State.Lines.{strip, is_empty, is_one_line, text_of, append_id, drop_ids, joined}
use sci_etl_core.State.Lines.RoundTrip.{
  joined-append, without, without-AllStorable, drop_ids-joined, one_line-IsStorable,
}
use sci_etl_core.State.Files.{
  Codec, Store, padded_id, many_lines, Outcome, done, failed, on_failures, write_metadata, count,
  pop_all, counts, nonempty, meets, read_file, load_processed_ids, mark_processed, record_failure,
  forget, forget_all, failure_counts, load_metadata, save_metadata,
}
use sci_etl_core.State.Files.Keeps.{
  write_metadata-version, write_metadata-held, write_metadata-metadata,
}
use sci_etl_core.State.Files.Tracked.{
  Tracked, Operation, mark, fail, forget_ids, save, restart, bump, clear, clear_all, track,
  tried_ids, counts-encode, pop-encode, pop_all-encode, count-encode, bump-AllPositive,
  clear-AllPositive, clear_all-AllPositive, clear_untried, clear_all_untried,
}
use sci_etl_core.State.Files.Represents.{
  left, no_files, nothing_tracked, Represents, no_files-Represents, read_metadata_lem,
  load_processed_ids-tracked, update_metadata_lem, written-Represents, on_failures-Changes,
  recall_lem, if-Represents, AllStorable-append, ids_file-Represents, clear_recalled,
}

-- `restart` is a new manager over the same files.
unfoldable pub perform : {C : Type 0} → Codec C → Operation → Store C → Store C
unfolding mark_processed record_failure forget save_metadata
perform j (mark id) s = left (mark_processed j id s)
perform j (fail id error) s = left (record_failure j id error s)
perform j (forget_ids ids) s = left (forget j ids s)
perform j (save stamp m) s = left (save_metadata j stamp m s)
perform j restart s = record s { failed_ids = none }

unfoldable pub perform_all : {C : Type 0} → Codec C → List Operation → Store C → Store C
unfolding perform
perform_all j [] s = s
perform_all j (op ∷ ops) s = perform_all j ops (perform j op s)

unfoldable pub track_all : List Operation → Tracked → Tracked
unfolding track
track_all [] t = t
track_all (op ∷ ops) t = track_all ops (track op t)

abbrev pub answer : {C A : Type 0} → Outcome C A → Option A
answer (done a s) = some a
answer (failed e s) = none

module _ {C : Type 0} (j : Codec C) (round : (v : Value) → j.loads (j.dumps v) ≡ some v) where
  visible :
      (id : Text) → text_eq (strip id) id ≡ true → is_empty (strip id) ≡ false → is_empty id ≡ false
  visible id p e = subst (λ i. is_empty i ≡ false) ((text_eq_iff (strip id) id).0 p) e

  appended_text :
      (id : Text) (s : Store C) (t : Tracked)
      → Represents j s t
      → text_of (append_id id s.ids_file) ≡ joined (t.ids ++ id ∷ [])
  unfolding append_id
  appended_text id s t r = rw r.ids (sym (joined-append t.ids id))

  without_nil : (ids : List Text) → without [] ids ≡ ids
  unfolding without mem
  without_nil [] = refl
  without_nil (id ∷ ids) = ap (λ r. id ∷ r) (without_nil ids)

  mark_processed-Represents :
      (id : Text) (s : Store C) (t : Tracked)
      → Represents j s t
      → Represents j (left (mark_processed j id s)) (track (mark id) t)
  unfolding mark_processed track
  mark_processed-Represents id s t r =
      if-Represents j round (is_empty (strip id)) (done tt s) _ t _ (λ e. r)
        (λ e.
          if-Represents j round (not (text_eq (strip id) id)) (failed padded_id s) _ t _ (λ p. r)
            (λ p.
              if-Represents j round (not (is_one_line id)) (failed many_lines s) _ t _ (λ q. r)
                (λ q.
                  let stored =
                    one_line-IsStorable id ((text_eq_iff (strip id) id).0 (ground (arith, p)))
                      (ground (arith, q)) (visible id (ground (arith, p)) e) in
                  let appended =
                    ids_file-Represents j round s t (append_id id s.ids_file) (t.ids ++ id ∷ []) r
                      (appended_text id s t r)
                      (AllStorable-append j round t.ids id r.storable stored) in
                  let (s', f, r', k) = recall_lem j round _ _ appended in
                  rw f (
                    rw k (
                      clear_recalled j round (mem id (tried_ids t.attempts)) (pop id) s'
                        (record t { ids = t.ids ++ id ∷ [] }) (clear id t.attempts) r'
                        (pop-encode id t.attempts) (clear-AllPositive id t.attempts r.positive)
                        (λ z. clear_untried id t.attempts z))))))

  record_failure-Represents :
      (id error : Text) (s : Store C) (t : Tracked)
      → Represents j s t
      → Represents j (left (record_failure j id error s)) (track (fail id error) t)
  unfolding record_failure track
  record_failure-Represents id error s t r =
      if-Represents j round (is_empty id) (done 0 s) _ t _ (λ e. r)
        (λ e. rw (update_metadata_lem j round (on_failures (count id error)) s t r) (
          written-Represents j round (on_failures (count id error)) s
            (record t { attempts = bump id error t.attempts }) r.ids r.storable
            (on_failures-Changes j round (count id error) s t
              (record t { attempts = bump id error t.attempts }) r refl refl
              (count-encode id error t.attempts)
              (bump-AllPositive id error t.attempts r.positive))))

  save_metadata-Represents :
      (stamp : Text) (m : PipelineMetadata) (s : Store C) (t : Tracked)
      → Represents j s t
      → Represents j (left (save_metadata j stamp m s)) (track (save stamp m) t)
  unfolding save_metadata track
  save_metadata-Represents stamp m s t r =
      rw (update_metadata_lem j round (write_metadata stamp m) s t r) (
        written-Represents j round (write_metadata stamp m) s
          (record t { stamp = some stamp; metadata = m }) r.ids r.storable
          (record {
            current = write_metadata-version stamp m (read_file j s);
            held = write_metadata-held stamp m (read_file j s) ∙ r.attempts;
            positive = r.positive;
            metadata = write_metadata-metadata stamp m (read_file j s);
          }))

  forget_all-Represents :
      (ids : List Text) (s : Store C) (t : Tracked)
      → Represents j s t
      → Represents j
          (left (forget_all j ids s))
          (record t { ids = without ids t.ids; attempts = clear_all ids t.attempts })
  unfolding forget_all clear_all
  forget_all-Represents [] s t r =
      subst (λ i. Represents j s (record t { ids = i })) (sym (without_nil t.ids)) r
  forget_all-Represents (id ∷ ids) s t r =
      let dropped =
        ids_file-Represents j round s t (drop_ids (id ∷ ids) s.ids_file) (without (id ∷ ids) t.ids)
          r (drop_ids-joined (id ∷ ids) s.ids_file t.ids r.storable r.ids)
          (without-AllStorable (id ∷ ids) t.ids r.storable) in
      let (s', e, r', k) = recall_lem j round _ _ dropped in
      rw (e, k)
        (clear_recalled j round (meets (id ∷ ids) (tried_ids t.attempts)) (pop_all (id ∷ ids)) s'
          (record t { ids = without (id ∷ ids) t.ids }) (clear_all (id ∷ ids) t.attempts) r'
          (pop_all-encode (id ∷ ids) t.attempts)
          (clear_all-AllPositive (id ∷ ids) t.attempts r.positive)
          (λ z. clear_all_untried (id ∷ ids) t.attempts z))

  restart-Represents :
      (s : Store C) (t : Tracked)
      → Represents j s t
      → Represents j (record s { failed_ids = none }) t
  unfolding read_file
  restart-Represents s t r = record {
    ids = r.ids;
    storable = r.storable;
    current = r.current;
    attempts = r.attempts;
    positive = r.positive;
    metadata = r.metadata;
    remembered = tt;
  }

  perform-Represents :
      (op : Operation) (s : Store C) (t : Tracked)
      → Represents j s t
      → Represents j (perform j op s) (track op t)
  unfolding perform track
  perform-Represents (mark id) s t r = mark_processed-Represents id s t r
  perform-Represents (fail id error) s t r = record_failure-Represents id error s t r
  perform-Represents (forget_ids ids) s t r = forget_all-Represents (nonempty ids) s t r
  perform-Represents (save stamp m) s t r = save_metadata-Represents stamp m s t r
  perform-Represents restart s t r = restart-Represents s t r

  perform_all-Represents :
      (ops : List Operation) (s : Store C) (t : Tracked)
      → Represents j s t
      → Represents j (perform_all j ops s) (track_all ops t)
  unfolding perform_all track_all
  perform_all-Represents [] s t r = r
  perform_all-Represents (op ∷ ops) s t r =
      perform_all-Represents ops (perform j op s) (track op t) (perform-Represents op s t r)

  pub record Answers (s : Store C) (t : Tracked) : Type 0 where
    pub ids : load_processed_ids j s ≡ t.ids
    pub failures : answer (failure_counts j s) ≡ some (map (λ a. (a.0, a.1)) t.attempts)
    pub metadata : answer (load_metadata j s) ≡ some (t.stamp, t.metadata)

  Represents-Answers : (s : Store C) (t : Tracked) → Represents j s t → Answers s t
  unfolding failure_counts load_metadata
  Represents-Answers s t r = record {
    ids = load_processed_ids-tracked j s t r;
    failures =
        rw (read_metadata_lem j s t r) (ap some (ap counts r.attempts ∙ counts-encode t.attempts));
    metadata = rw (read_metadata_lem j s t r) (ap some r.metadata);
  }

  -- Where the codec reads back what it writes: after any operations, new managers over the files among
  -- them, the processed ids, the failed attempts and the metadata that are read are those that `track`
  -- keeps without the files.
  pub perform_all-Answers :
      (ops : List Operation) → Answers (perform_all j ops no_files) (track_all ops nothing_tracked)
  perform_all-Answers ops =
      Represents-Answers _ _
        (perform_all-Represents ops no_files nothing_tracked (no_files-Represents j))
