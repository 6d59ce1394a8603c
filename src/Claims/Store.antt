-- ===== src/Claims/Store.antt =====
-- `InMemoryClaimStore` of claims/store_memory.py, with `unique_claims` and `check_limit` of
-- claims/store_base.py. Of a claim its id and the record of its span are read; the rest is of any type.
pub mod Paging
pub mod Mirror
pub mod Unique
pub mod Tests
use sci_etl_core.Prelude.{
  ℕ, zero, suc, ◌+◌, Text, Bool, true, false, not, List, [], ◌∷◌, ◌++◌, Option, none, some, ltb,
  length, take, mem, text_eq, if◌then◌else◌,
}
use sci_etl_core.Search.Graph.Fetch.{distinct}

pub record Claim (B : Type 0) : Type 0 where
  pub claim_id : Text
  pub span_record_id : Text
  pub body : B

pub data Operation : Type 0 where
  replace delete : Operation

pub record ClaimChange : Type 0 where
  pub revision : ℕ
  pub record_id : Text
  pub op : Operation

pub record ClaimChangePage : Type 0 where
  pub changes : List ClaimChange
  pub next_revision : ℕ

-- `none` is a ValueError.
unfoldable pub check_limit : ℕ → Option ℕ
check_limit limit = if ltb limit 1 then none else some limit

unfoldable pub has_id : {B : Type 0} → Text → List (Claim B) → Bool
has_id id [] = false
has_id id (c ∷ cs) = if text_eq id c.claim_id then true else has_id id cs

-- `kept.setdefault(claim.claim_id, claim)`.
unfoldable pub keep_first : {B : Type 0} → Claim B → List (Claim B) → List (Claim B)
unfolding has_id
keep_first c kept = if has_id c.claim_id kept then kept else kept ++ c ∷ []

-- The loop of `unique_claims`; `none` is a ValueError.
unfoldable pub unique_from :
    {B : Type 0} → Text → List (Claim B) → List (Claim B) → Option (List (Claim B))
unfolding keep_first
unique_from id kept [] = some kept
unique_from id kept (c ∷ cs) =
    let rest = unique_from id (keep_first c kept) cs in
    if text_eq c.span_record_id id then rest else none

unfoldable pub unique_claims : {B : Type 0} → Text → List (Claim B) → Option (List (Claim B))
unfolding unique_from
unique_claims id claims = unique_from id [] claims

pub record ClaimStore (B : Type 0) : Type 0 where
  pub claims : List (Text × List (Claim B))
  pub changes : List ClaimChange

unfoldable pub newer_than : ℕ → List ClaimChange → List ClaimChange
newer_than revision [] = []
newer_than revision (c ∷ cs) =
    let rest = newer_than revision cs in if ltb revision c.revision then c ∷ rest else rest

-- `changes[-1].revision`, or the revision asked for.
unfoldable pub last_revision : ℕ → List ClaimChange → ℕ
last_revision revision [] = revision
last_revision revision (c ∷ cs) = last_revision c.revision cs

module _ {B : Type 0} where
  abbrev pub new_store : ClaimStore B
  new_store = record { claims = []; changes = [] }

  unfoldable pub claims_of : Text → List (Text × List (Claim B)) → Option (List (Claim B))
  claims_of id [] = none
  claims_of id ((k, cs) ∷ d) = if text_eq id k then some cs else claims_of id d

  unfoldable pub put_claims :
      Text → List (Claim B) → List (Text × List (Claim B)) → List (Text × List (Claim B))
  put_claims id cs [] = (id, cs) ∷ []
  put_claims id cs ((k, old) ∷ d) =
      let rest = put_claims id cs d in if text_eq id k then (k, cs) ∷ d else (k, old) ∷ rest

  -- `self._claims.pop(record_id, None)`.
  unfoldable pub pop_claims : Text → List (Text × List (Claim B)) → List (Text × List (Claim B))
  pop_claims id [] = []
  pop_claims id ((k, cs) ∷ d) =
      let rest = pop_claims id d in if text_eq id k then rest else (k, cs) ∷ rest

  unfoldable pub record_change : Text → Operation → ClaimStore B → ℕ × ClaimStore B
  record_change id op s =
      let revision = length s.changes + 1 in
      (
        revision,
        record s {
          changes = s.changes ++ record { revision = revision; record_id = id; op = op } ∷ [];
        },
      )

  unfoldable pub store_claims :
      Text → List (Claim B) → List (Text × List (Claim B)) → List (Text × List (Claim B))
  unfolding put_claims pop_claims
  store_claims id [] d = pop_claims id d
  store_claims id (c ∷ cs) d = put_claims id (c ∷ cs) d

  -- `none` is a ValueError, which leaves the store as it was.
  unfoldable pub replace_record : Text → List (Claim B) → ClaimStore B → Option (ℕ × ClaimStore B)
  unfolding unique_claims store_claims record_change
  replace_record id claims s = elim (unique_claims id claims) [
    | none ↦ none
    | some kept ↦
        some (record_change id replace (record s { claims = store_claims id kept s.claims }))
  ]

  unfoldable pub delete_record : Text → ClaimStore B → ℕ × ClaimStore B
  unfolding pop_claims record_change
  delete_record id s = record_change id delete (record s { claims = pop_claims id s.claims })

  unfoldable pub present : List (Text × List (Claim B)) → List Text → List (Text × List (Claim B))
  unfolding claims_of
  present d [] = []
  present d (id ∷ ids) =
      let rest = present d ids in elim (claims_of id d) [ none ↦ rest | some cs ↦ (id, cs) ∷ rest ]

  unfoldable pub claims_for_records : List Text → ClaimStore B → List (Text × List (Claim B))
  unfolding present distinct
  claims_for_records ids s = present s.claims (distinct [] ids)

  unfoldable pub page_of : ℕ → ℕ → ClaimStore B → ClaimChangePage
  unfolding newer_than last_revision
  page_of revision limit s =
      let changes = take limit (newer_than revision s.changes) in
      record { changes = changes; next_revision = last_revision revision changes }

  -- `none` is a ValueError.
  unfoldable pub changes_since : ℕ → ℕ → ClaimStore B → Option ClaimChangePage
  unfolding check_limit page_of
  changes_since revision limit s = elim (check_limit limit) [
    | none ↦ none
    | some n ↦ some (page_of revision n s)
  ]

  unfoldable pub revision_of : ClaimStore B → ℕ
  revision_of s = length s.changes

  unfoldable pub total : List (Text × List (Claim B)) → ℕ
  total [] = 0
  total ((id, cs) ∷ d) = length cs + total d

  unfoldable pub count : ClaimStore B → ℕ
  unfolding total
  count s = total s.claims
