-- ===== src/State/Json.antt =====
-- The JSON values that the metadata file holds, and Python's dictionaries as association lists in
-- the order of insertion. A dictionary read from a file has each key once.
pub mod Laws
use sci_etl_core.Prelude.{
  ℕ, Text, Bool, true, false, List, [], ◌∷◌, Option, none, some, text_eq, if◌then◌else◌,
}

-- `number` is a number that is no natural one.
mutual
  pub data Value : Type 0 where
    null : Value
    bool : Bool → Value
    nat : ℕ → Value
    number : ℕ → Value
    text : Text → Value
    list : Values → Value
    dict : Dict → Value

  pub data Values : Type 0 where
    nil : Values
    cons : Value → Values → Values

  pub data Dict : Type 0 where
    empty : Dict
    item : Text → Value → Dict → Dict

-- `d.get(key)`.
unfoldable pub get : Text → Dict → Option Value
get k empty = none
get k (item j v d) = if text_eq j k then some v else get k d

-- `d[key] = value`.
unfoldable pub put : Text → Value → Dict → Dict
put k v empty = item k v empty
put k v (item j w d) = if text_eq j k then item j v d else item j w (put k v d)

-- `d.pop(key, None)`.
unfoldable pub pop : Text → Dict → Dict
pop k empty = empty
pop k (item j w d) = let rest = pop k d in if text_eq j k then rest else item j w rest

abbrev pub keys : Dict → List Text
keys empty = []
keys (item k v d) = k ∷ keys d

-- A list of texts as a JSON value.
abbrev pub texts : List Text → Values
texts [] = nil
texts (t ∷ ts) = cons (text t) (texts ts)
