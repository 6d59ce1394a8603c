-- ===== src/Models.antt =====
-- The data of models.py that a listing run reads and writes. `RawRecord.metadata` holds whatever
-- an extractor knows and is not read by the run; `last_run_at` is a time stamp. Neither is here.
use sci_etl_core.Prelude.{ℕ, Text, Bool, false, List, [], Option, none}

pub record RawRecord : Type 0 where
  pub record_id : Text
  pub title : Text
  pub abstract_text : Text
  pub source_url : Option Text

pub record ListingPage : Type 0 where
  pub records : List RawRecord
  pub entries : ℕ
  pub next_cursor : Option Text
  pub truncated : Bool

pub record PipelineMetadata : Type 0 where
  pub cursor : Option Text
  pub truncated : Bool
  pub head_ids : List Text
  pub head_offset : ℕ
  pub tail_ids : List Text

abbrev pub empty_metadata : PipelineMetadata
empty_metadata = record {
  cursor = none;
  truncated = false;
  head_ids = [];
  head_offset = 0;
  tail_ids = [];
}
