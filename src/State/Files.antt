-- ===== src/State/Files.antt =====
-- `AsyncFileStateManager` of state/async_file_state.py. A store is the two files with the ids that the
-- manager remembers as failed; an operation gives its result with the store, or a fault with the store
-- that it leaves. The lock serialises the operations. Files are taken to be readable and writable.
pub mod Tracked
pub mod Keeps
pub mod Represents
pub mod Refines
use sci_etl_core.Prelude.{
  ℕ, zero, suc, ◌+◌, ◌-◌, Text, codes, Bool, true, false, not, ◌&&◌, ◌||◌, List, [], ◌∷◌, ◌++◌, map,
  Option, none, some, ◌==◌, ltb, leb, take, length, text_eq, mem, if◌then◌else◌,
}
use sci_etl_core.Models.{PipelineMetadata}
use sci_etl_core.Listing.Offsets.{decimal_cursor}
use sci_etl_core.State.Json.{
  Value, null, bool, nat, number, text, list, dict, Values, nil, cons, Dict, empty, item, get, put,
  pop, keys, texts,
}
use sci_etl_core.State.Lines.{strip, is_empty, is_one_line, read_ids, append_id, drop_ids}

-- `json.dumps` and `json.loads`, which is `none` where it raises `ValueError`.
pub record Codec (C : Type 0) : Type 0 where
  pub dumps : Value → C
  pub loads : C → Option Value

pub record Store (C : Type 0) : Type 0 where
  pub ids_file : Option Text
  pub metadata_file : Option C
  pub failed_ids : Option (List Text)

pub data Fault : Type 0 where
  newer_schema : ℕ → Fault
  padded_id many_lines : Fault

pub data Outcome (C A : Type 0) : Type 0 where
  done : A → Store C → Outcome C A
  failed : Fault → Store C → Outcome C A

abbrev pub bind : {C A B : Type 0} → Outcome C A → (A → Store C → Outcome C B) → Outcome C B
bind (done a s) k = k a s
bind (failed e s) k = failed e s

abbrev pub schema_version : ℕ
schema_version = 2

-- `bounded_error_text`.
unfoldable pub bounded_error_text : Text → Text
bounded_error_text error =
    if leb (length error) 4096
    then error
    else take (4096 - length (codes "… [truncated]")) error ++ codes "… [truncated]"

-- `_offset`, of a missing value too.
unfoldable pub offset : Option Value → ℕ
offset (some (nat n)) = n
offset _ = 0

unfoldable pub all_texts : Values → Option (List Text)
all_texts nil = some []
all_texts (cons (text t) vs) = elim (all_texts vs) [ none ↦ none | some ts ↦ some (t ∷ ts) ]
all_texts (cons _ vs) = none

unfoldable pub ids_of : Option Value → List Text
unfolding all_texts
ids_of (some (list vs)) = elim (all_texts vs) [ none ↦ [] | some ts ↦ ts ]
ids_of _ = []

unfoldable pub version_of : Option Value → ℕ
version_of (some (nat n)) = if n == 0 then 1 else n
version_of _ = 1

-- `_version`.
unfoldable pub version : Dict → ℕ
unfolding version_of
version raw = version_of (get (codes "schema_version") raw)

unfoldable pub text_or_none : Option Value → Option Text
text_or_none (some (text t)) = some t
text_or_none _ = none

unfoldable pub decimal_or_none : ℕ → Option Text
decimal_or_none n = if n == 0 then none else some (decimal_cursor n)

-- `_cursor`.
unfoldable pub cursor : Dict → Option Text
unfolding version offset text_or_none decimal_or_none
cursor raw =
    if version raw == 1
    then decimal_or_none (offset (get (codes "last_start_index") raw))
    else text_or_none (get (codes "cursor") raw)

unfoldable pub attempts_in : Value → ℕ
unfolding offset
attempts_in (dict e) = offset (get (codes "attempts") e)
attempts_in _ = 0

-- The entries that `_failures` keeps.
unfoldable pub live : Dict → Dict
unfolding attempts_in
live empty = empty
live (item k v d) = if attempts_in v == 0 then live d else item k v (live d)

unfoldable pub dict_of : Option Value → Dict
dict_of (some (dict d)) = d
dict_of _ = empty

-- `_failures`.
unfoldable pub failures : Dict → Dict
unfolding live dict_of
failures raw = live (dict_of (get (codes "failures") raw))

unfoldable pub cursor_value : Option Text → Value
cursor_value none = null
cursor_value (some t) = text t

-- A file of version 1 has an offset where a later one has the cursor.
unfoldable pub with_cursor : Dict → Dict
with_cursor raw =
    if version raw == 1 then put (codes "cursor") (cursor_value (cursor raw)) raw else raw

-- What `_update_metadata` makes of the file's dictionary before the change.
unfoldable pub prepared : Dict → Dict
prepared raw =
    put (codes "failures") (dict (failures raw)) (pop (codes "last_start_index") (with_cursor raw))

-- The entry that `count` writes.
unfoldable pub entry : ℕ → Text → Value
entry attempts error =
    dict (item (codes "attempts") (nat attempts) (item (codes "last_error") (text error) empty))

-- A change of the dictionary that `raw["failures"]` holds.
unfoldable pub on_failures : (Dict → Dict) → Dict → Dict
unfolding dict_of
on_failures change raw =
    put (codes "failures") (dict (change (dict_of (get (codes "failures") raw)))) raw

unfoldable pub attempts_of : Text → Dict → ℕ
unfolding attempts_in
attempts_of id d = elim (get id d) [ none ↦ 0 | some v ↦ attempts_in v ]

unfoldable pub count : Text → Text → Dict → Dict
unfolding attempts_of entry bounded_error_text
count id error d = put id (entry (attempts_of id d + 1) (bounded_error_text error)) d

unfoldable pub pop_all : List Text → Dict → Dict
pop_all [] d = d
pop_all (id ∷ ids) d = pop_all ids (pop id d)

-- `raw.update(payload)`.
unfoldable pub write_metadata : Text → PipelineMetadata → Dict → Dict
unfolding cursor_value
write_metadata stamp m raw =
    let raw1 = put (codes "last_run_date") (text stamp) raw in
    let raw2 = put (codes "cursor") (cursor_value m.cursor) raw1 in
    let raw3 = put (codes "truncated") (bool m.truncated) raw2 in
    let raw4 = put (codes "head_ids") (list (texts m.head_ids)) raw3 in
    let raw5 = put (codes "head_offset") (nat m.head_offset) raw4 in
    put (codes "tail_ids") (list (texts m.tail_ids)) raw5

unfoldable pub is_true : Option Value → Bool
is_true (some (bool b)) = b
is_true _ = false

-- The metadata that `load_metadata` makes of the dictionary, with `last_run_at`.
unfoldable pub metadata_of : Dict → Option Text × PipelineMetadata
unfolding cursor text_or_none is_true ids_of offset
metadata_of raw = (
  text_or_none (get (codes "last_run_date") raw),
  record {
    cursor = cursor raw;
    truncated = is_true (get (codes "truncated") raw);
    head_ids = ids_of (get (codes "head_ids") raw);
    head_offset = offset (get (codes "head_offset") raw);
    tail_ids = ids_of (get (codes "tail_ids") raw);
  },
)

unfoldable pub counts : Dict → List (Text × ℕ)
unfolding attempts_in
counts empty = []
counts (item k v d) = (k, attempts_in v) ∷ counts d

unfoldable pub nonempty : List Text → List Text
unfolding is_empty
nonempty [] = []
nonempty (id ∷ ids) = if is_empty id then nonempty ids else id ∷ nonempty ids

unfoldable pub meets : List Text → List Text → Bool
unfolding mem
meets [] ids = false
meets (x ∷ xs) ids = mem x ids || meets xs ids

unfoldable pub known_failed : {C : Type 0} → Store C → List Text
known_failed s = elim s.failed_ids [ none ↦ [] | some ids ↦ ids ]

module _ {C : Type 0} (j : Codec C) where
  -- `_read_metadata_file`.
  unfoldable pub read_file : Store C → Dict
  unfolding dict_of
  read_file s = elim s.metadata_file [ none ↦ empty | some c ↦ dict_of (j.loads c) ]

  -- `_read_metadata`.
  unfoldable pub read_metadata : Store C → Outcome C Dict
  unfolding read_file version failures
  read_metadata s =
      let raw = read_file s in
      if ltb schema_version (version raw)
      then failed (newer_schema (version raw)) s
      else done raw (record s { failed_ids = some (keys (failures raw)) })

  -- `_update_metadata`.
  unfoldable pub update_metadata : (Dict → Dict) → Store C → Outcome C (Unit {0})
  unfolding read_metadata prepared with_cursor cursor cursor_value dict_of
  update_metadata change s = bind (read_metadata s) (λ raw s'.
      let raw' = put (codes "schema_version") (nat schema_version) (change (prepared raw)) in
      done tt (record s' {
        metadata_file = some (j.dumps (dict raw'));
        failed_ids = some (keys (dict_of (get (codes "failures") raw')));
      }))

  unfoldable pub load_processed_ids : Store C → List Text
  unfolding read_ids
  load_processed_ids s = read_ids s.ids_file

  unfoldable pub recall_unless : Option (List Text) → Store C → Outcome C (Unit {0})
  unfolding read_metadata
  recall_unless (some _) s = done tt s
  recall_unless none s = bind (read_metadata s) (λ _ s'. done tt s')

  -- `if self._failed_ids is None: self._read_metadata()`.
  unfoldable pub recall : Store C → Outcome C (Unit {0})
  unfolding recall_unless
  recall s = recall_unless s.failed_ids s

  unfoldable pub mark_processed : Text → Store C → Outcome C (Unit {0})
  unfolding strip is_empty is_one_line append_id recall update_metadata on_failures known_failed mem
  mark_processed id s =
      let marked : Store C = record s { ids_file = append_id id s.ids_file } in
      if is_empty (strip id)
      then done tt s
      else if not (text_eq (strip id) id)
      then failed padded_id s
      else if not (is_one_line id)
      then failed many_lines s
      else bind (recall marked) (λ _ s'.
        if mem id (known_failed s') then update_metadata (on_failures (pop id)) s' else done tt s')

  -- The attempts returned are those that `count` read in the file, and one.
  unfoldable pub record_failure : Text → Text → Store C → Outcome C ℕ
  unfolding is_empty update_metadata on_failures count attempts_of read_file failures
  record_failure id error s =
      if is_empty id
      then done 0 s
      else bind (update_metadata (on_failures (count id error)) s)
          (λ _ s'. done (attempts_of id (failures (read_file s)) + 1) s')

  -- `forget`, of the ids that are not empty.
  unfoldable pub forget_all : List Text → Store C → Outcome C (Unit {0})
  unfolding drop_ids recall meets known_failed update_metadata on_failures pop_all
  forget_all [] s = done tt s
  forget_all (id ∷ ids) s =
      let dropped : Store C = record s { ids_file = drop_ids (id ∷ ids) s.ids_file } in
      bind (recall dropped) (λ _ s'.
        if meets (id ∷ ids) (known_failed s')
        then update_metadata (on_failures (pop_all (id ∷ ids))) s'
        else done tt s')

  unfoldable pub forget : List Text → Store C → Outcome C (Unit {0})
  unfolding nonempty forget_all
  forget record_ids s = forget_all (nonempty record_ids) s

  unfoldable pub failure_counts : Store C → Outcome C (List (Text × ℕ))
  unfolding read_metadata failures counts
  failure_counts s = bind (read_metadata s) (λ raw s'. done (counts (failures raw)) s')

  unfoldable pub load_metadata : Store C → Outcome C (Option Text × PipelineMetadata)
  unfolding read_metadata metadata_of
  load_metadata s = bind (read_metadata s) (λ raw s'. done (metadata_of raw) s')

  -- `stamp` is the time that `touch` reads.
  unfoldable pub save_metadata : Text → PipelineMetadata → Store C → Outcome C (Unit {0})
  unfolding update_metadata write_metadata
  save_metadata stamp m s = update_metadata (write_metadata stamp m) s
