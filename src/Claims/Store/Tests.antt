-- ===== src/Claims/Store/Tests.antt =====
-- A store of three claims, one of them repeated.
use sci_etl_core.Prelude.{
  ℕ, Text, codes, text_eq, mem, true, List, [], ◌∷◌, none, some, ◌≡◌, refl, arith,
}
use sci_etl_core.Claims.Store.{
  Claim, new_store, claims_of, claims_for_records, count, revision_of, replace_record,
}
use sci_etl_core.Claims.Store.Paging.{Write, replaced, deleted, perform_all}
use sci_etl_core.Claims.Store.Mirror.{followed, followed_all}
use sci_etl_core.Claims.Store.Unique.{proper, perform_all-proper}

abbrev paper : Text
paper = codes "p1"

abbrev other : Text
other = codes "p2"

abbrev claim : Text → Text → Claim ℕ
claim id record_id = record { claim_id = id; span_record_id = record_id; body = 7 }

abbrev first : List (Write ℕ)
first =
    replaced paper
      (claim (codes "a") paper ∷ claim (codes "b") paper ∷ claim (codes "a") paper ∷ [])
    ∷ []

abbrev later : List (Write ℕ)
later = replaced other (claim (codes "c") other ∷ []) ∷ replaced paper [] ∷ deleted other ∷ []

repeated_dropped : count (perform_all first new_store) ≡ 2
unfolding count perform_all text_eq
repeated_dropped = refl

foreign_refused : replace_record other (claim (codes "a") paper ∷ []) new_store ≡ none
unfolding replace_record text_eq
foreign_refused = refl

three_more : revision_of (perform_all later (perform_all first new_store)) ≡ 4
unfolding revision_of perform_all text_eq
three_more = refl

read_once :
    claims_for_records (paper ∷ other ∷ paper ∷ []) (perform_all first new_store)
    ≡ (paper, claim (codes "a") paper ∷ claim (codes "b") paper ∷ []) ∷ []
unfolding claims_for_records perform_all text_eq mem
read_once = refl

followed_all_example :
    followed 1 (perform_all first new_store) (perform_all later (perform_all first new_store)) paper
    ≡ some (claims_of paper (perform_all later (perform_all first new_store)).claims)
followed_all_example = followed_all 1 first later paper (omega arith)

perform_all-proper_example : proper (perform_all first new_store).claims ≡ true
perform_all-proper_example = perform_all-proper first
