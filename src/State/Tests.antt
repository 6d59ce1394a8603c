-- ===== src/State/Tests.antt =====
-- Operations on a state manager over files, and the theorems applied to them.
use sci_etl_core.Prelude.{◌≡◌, refl, codes, text_eq, List, [], ◌∷◌, none, some}
use sci_etl_core.Models.{empty_metadata}
use sci_etl_core.State.Json.{Value, dict, nat, item, empty, get, put, pop}
use sci_etl_core.State.Files.{Codec, Store, load_processed_ids}
use sci_etl_core.State.Files.Tracked.{Operation, mark, fail, forget_ids, save, restart}
use sci_etl_core.State.Files.Represents.{no_files, nothing_tracked}
use sci_etl_core.State.Files.Refines.{perform_all, Answers, perform_all-Answers, track_all}

-- A codec that keeps the values as they are.
abbrev plain : Codec Value
plain = record { dumps = λ v. v; loads = some }

abbrev operations : List Operation
operations =
    fail (codes "a") (codes "timeout")
    ∷ fail (codes "b") (codes "no text")
    ∷ mark (codes "a")
    ∷ mark (codes " c")
    ∷ restart
    ∷ mark (codes "d")
    ∷ save (codes "now") (record empty_metadata { cursor = some (codes "20") })
    ∷ forget_ids (codes "d" ∷ [] ∷ [])
    ∷ []

operations-ids : load_processed_ids plain (perform_all plain operations no_files) ≡ codes "a" ∷ []
unfolding perform_all load_processed_ids get put pop text_eq
operations-ids = refl

perform_all-Answers_example :
    Answers plain
      (λ v. refl)
      (perform_all plain operations no_files)
      (track_all operations nothing_tracked)
perform_all-Answers_example = perform_all-Answers plain (λ v. refl) operations

abbrev newer : Store Value
newer = record {
  ids_file = none;
  metadata_file = some (dict (item (codes "schema_version") (nat 3) empty));
  failed_ids = none;
}
