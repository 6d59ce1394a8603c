-- ===== src/State/Files/Keeps.antt =====
-- What an update of the metadata file leaves in its dictionary.
use sci_etl_core.Prelude.{
  ◌≡◌, refl, sym, ◌∙◌, Text, codes, text_eq, false, List, [], ◌∷◌, Option, none, some, ◌==◌,
  Bool-cases, inl, inr,
}
use sci_etl_core.Models.{PipelineMetadata}
use sci_etl_core.State.Json.{bool, nat, text, list, dict, Dict, get, put, texts}
use sci_etl_core.State.Json.Laws.{get-put, get-pop}
use sci_etl_core.State.Files.{
  schema_version, offset, all_texts, ids_of, version_of, version, text_or_none, cursor, dict_of,
  failures, cursor_value, with_cursor, prepared, on_failures, write_metadata, is_true, metadata_of,
}

-- What `update_metadata` writes.
abbrev pub updated : (Dict → Dict) → Dict → Dict
updated change raw = put (codes "schema_version") (nat schema_version) (change (prepared raw))

text_or_none-cursor_value : (c : Option Text) → text_or_none (some (cursor_value c)) ≡ c
unfolding text_or_none cursor_value
text_or_none-cursor_value none = refl
text_or_none-cursor_value (some t) = refl

all_texts-texts : (ts : List Text) → all_texts (texts ts) ≡ some ts
unfolding all_texts
all_texts-texts [] = refl
all_texts-texts (t ∷ ts) = rw (all_texts-texts ts) refl

ids_of-texts : (ts : List Text) → ids_of (some (list (texts ts))) ≡ ts
unfolding ids_of
ids_of-texts ts = rw (all_texts-texts ts, ids_of) refl

-- The keys that neither `prepared` nor the schema version touches.
record IsOther (k : Text) : Type 0 where
  failures : text_eq (codes "failures") k ≡ false
  start : text_eq (codes "last_start_index") k ≡ false
  cursor : text_eq (codes "cursor") k ≡ false
  schema : text_eq (codes "schema_version") k ≡ false

get-with_cursor : (k : Text) (raw : Dict) → IsOther k → get k (with_cursor raw) ≡ get k raw
unfolding with_cursor
get-with_cursor k raw o = elim (Bool-cases (version raw == 1)) [
  | inl e ↦ rw (e, get-put, o.cursor) refl
  | inr e ↦ rw e refl
]

get-prepared : (k : Text) (raw : Dict) → IsOther k → get k (prepared raw) ≡ get k raw
unfolding prepared
get-prepared k raw o = rw (get-put, o.failures, get-pop, o.start) (get-with_cursor k raw o)

get-prepared-failures :
    (raw : Dict) → get (codes "failures") (prepared raw) ≡ some (dict (failures raw))
unfolding prepared text_eq
get-prepared-failures raw = rw get-put refl

cursor_new :
    (raw : Dict) → (version raw == 1) ≡ false → cursor raw ≡ text_or_none (get (codes "cursor") raw)
unfolding cursor
cursor_new raw e = rw e refl

cursor-with_cursor :
    (raw : Dict) → text_or_none (get (codes "cursor") (with_cursor raw)) ≡ cursor raw
unfolding with_cursor text_eq
cursor-with_cursor raw = elim (Bool-cases (version raw == 1)) [
  | inl e ↦ rw (e, get-put) (text_or_none-cursor_value (cursor raw))
  | inr e ↦ rw e (sym (cursor_new raw e))
]

get-prepared-cursor : (raw : Dict) → text_or_none (get (codes "cursor") (prepared raw)) ≡ cursor raw
unfolding prepared text_eq
get-prepared-cursor raw = rw (get-put, get-pop) (cursor-with_cursor raw)

-- The metadata of a dictionary whose version is 2.
metadata_new :
    (raw : Dict)
    → version raw ≡ 2
    → metadata_of raw ≡ (
      text_or_none (get (codes "last_run_date") raw),
      record {
        cursor = text_or_none (get (codes "cursor") raw);
        truncated = is_true (get (codes "truncated") raw);
        head_ids = ids_of (get (codes "head_ids") raw);
        head_offset = offset (get (codes "head_offset") raw);
        tail_ids = ids_of (get (codes "tail_ids") raw);
      },
    )
unfolding metadata_of
metadata_new raw v = let e : (version raw == 1) ≡ false = rw v refl in rw (cursor_new raw e) refl

module _ (g : Dict → Dict) (raw : Dict) where
  pub on_failures-version : version (updated (on_failures g) raw) ≡ 2
  unfolding version version_of text_eq
  on_failures-version = rw get-put refl

  get-on_failures :
      (k : Text)
      → text_eq (codes "failures") k ≡ false
      → text_eq (codes "schema_version") k ≡ false
      → get k (updated (on_failures g) raw) ≡ get k (prepared raw)
  unfolding on_failures
  get-on_failures k f s = rw (get-put, s, get-put, f) refl

  get_other : (k : Text) → IsOther k → get k (updated (on_failures g) raw) ≡ get k raw
  get_other k o = get-on_failures k o.failures o.schema ∙ get-prepared k raw o

  pub on_failures-held :
      dict_of (get (codes "failures") (updated (on_failures g) raw)) ≡ g (failures raw)
  unfolding on_failures dict_of text_eq
  on_failures-held = rw (get-put, get-put, get-prepared-failures raw) refl

  pub on_failures-metadata : metadata_of (updated (on_failures g) raw) ≡ metadata_of raw
  unfolding text_eq metadata_of
  on_failures-metadata =
      metadata_new (updated (on_failures g) raw) on_failures-version
      ∙ rw
          (
            get_other (codes "last_run_date")
                (record { failures = refl; start = refl; cursor = refl; schema = refl }),
            get-on_failures (codes "cursor") refl refl,
            get-prepared-cursor raw,
            get_other (codes "truncated")
                (record { failures = refl; start = refl; cursor = refl; schema = refl }),
            get_other (codes "head_ids")
                (record { failures = refl; start = refl; cursor = refl; schema = refl }),
            get_other (codes "head_offset")
                (record { failures = refl; start = refl; cursor = refl; schema = refl }),
            get_other (codes "tail_ids")
                (record { failures = refl; start = refl; cursor = refl; schema = refl }),
          )
          refl

module _ (stamp : Text) (m : PipelineMetadata) (raw : Dict) where
  pub write_metadata-version : version (updated (write_metadata stamp m) raw) ≡ 2
  unfolding version version_of text_eq
  write_metadata-version = rw get-put refl

  pub write_metadata-held :
      dict_of (get (codes "failures") (updated (write_metadata stamp m) raw)) ≡ failures raw
  unfolding write_metadata dict_of text_eq
  write_metadata-held =
      rw (get-put, get-put, get-put, get-put, get-put, get-put, get-put, get-prepared-failures raw)
        refl

  last_run_date_written :
      get (codes "last_run_date") (updated (write_metadata stamp m) raw) ≡ some (text stamp)
  unfolding write_metadata text_eq
  last_run_date_written = rw (get-put, get-put, get-put, get-put, get-put, get-put, get-put) refl

  cursor_written :
      get (codes "cursor") (updated (write_metadata stamp m) raw) ≡ some (cursor_value m.cursor)
  unfolding write_metadata text_eq
  cursor_written = rw (get-put, get-put, get-put, get-put, get-put, get-put) refl

  truncated_written :
      get (codes "truncated") (updated (write_metadata stamp m) raw) ≡ some (bool m.truncated)
  unfolding write_metadata text_eq
  truncated_written = rw (get-put, get-put, get-put, get-put, get-put) refl

  head_ids_written :
      get (codes "head_ids") (updated (write_metadata stamp m) raw) ≡ some (list (texts m.head_ids))
  unfolding write_metadata text_eq
  head_ids_written = rw (get-put, get-put, get-put, get-put) refl

  head_offset_written :
      get (codes "head_offset") (updated (write_metadata stamp m) raw) ≡ some (nat m.head_offset)
  unfolding write_metadata text_eq
  head_offset_written = rw (get-put, get-put, get-put) refl

  tail_ids_written :
      get (codes "tail_ids") (updated (write_metadata stamp m) raw) ≡ some (list (texts m.tail_ids))
  unfolding write_metadata text_eq
  tail_ids_written = rw (get-put, get-put) refl

  pub write_metadata-metadata : metadata_of (updated (write_metadata stamp m) raw) ≡ (some stamp, m)
  unfolding is_true offset text_or_none
  write_metadata-metadata =
      metadata_new (updated (write_metadata stamp m) raw) write_metadata-version
      ∙ rw
          (
            last_run_date_written,
            cursor_written,
            truncated_written,
            head_ids_written,
            head_offset_written,
            tail_ids_written,
            text_or_none-cursor_value,
            ids_of-texts m.head_ids,
            ids_of-texts m.tail_ids,
          )
          refl
