-- ===== src/State/Lines.antt =====
-- The processed-ids file of state/async_file_state.py: a line for each id. The file's text is as it
-- is written; a reader turns `\r\n` and `\r` into `\n`, which `splitlines` splits on alike.
pub mod RoundTrip
use sci_etl_core.Prelude.{
  ℕ, zero, suc, Text, codes, Bool, true, false, not, ◌&&◌, ◌||◌, List, [], ◌∷◌, ◌++◌, Option, none,
  some, ◌==◌, leb, ltb, length, text_eq, mem, is_space, is_blank, if◌then◌else◌,
}

-- What `str.splitlines` splits on.
unfoldable pub is_boundary : ℕ → Bool
is_boundary c =
    leb 0xa c && leb c 0xd || leb 0x1c c && leb c 0x1e || c == 0x85 || c == 0x2028 || c == 0x2029

abbrev pub push : ℕ → List Text → List Text
push c [] = (c ∷ []) ∷ []
push c (l ∷ ls) = (c ∷ l) ∷ ls

-- The lines of a text, before which a `\r` stood or not.
unfoldable pub lines_after : Bool → Text → List Text
unfolding is_boundary
lines_after after_cr [] = []
lines_after after_cr (c ∷ cs) =
    let rest = lines_after (c == 0xd) cs in
    if after_cr && c == 0xa then rest else if is_boundary c then [] ∷ rest else push c rest

unfoldable pub splitlines : Text → List Text
unfolding lines_after
splitlines = lines_after false

unfoldable pub lstrip : Text → Text
unfolding is_space
lstrip [] = []
lstrip (c ∷ cs) = if is_space c then lstrip cs else c ∷ cs

unfoldable pub rstrip : Text → Text
unfolding is_blank
rstrip [] = []
rstrip (c ∷ cs) = if is_blank (c ∷ cs) then [] else c ∷ rstrip cs

unfoldable pub strip : Text → Text
unfolding lstrip rstrip
strip t = rstrip (lstrip t)

unfoldable pub is_empty : Text → Bool
is_empty [] = true
is_empty (c ∷ cs) = false

-- The lines that hold an id, stripped.
unfoldable pub ids_in : List Text → List Text
unfolding strip is_empty
ids_in [] = []
ids_in (l ∷ ls) = if is_empty (strip l) then ids_in ls else strip l ∷ ids_in ls

abbrev pub text_of : Option Text → Text
text_of none = []
text_of (some t) = t

-- `_read_ids`, the set as a list.
unfoldable pub read_ids : Option Text → List Text
unfolding ids_in splitlines
read_ids file = ids_in (splitlines (text_of file))

-- `_append_id`.
unfoldable pub append_id : Text → Option Text → Option Text
append_id id file = some (text_of file ++ (id ++ 0xa ∷ []))

unfoldable pub joined : List Text → Text
joined [] = []
joined (l ∷ ls) = (l ++ 0xa ∷ []) ++ joined ls

-- The lines whose stripped text is not in `forgotten`.
unfoldable pub keep : List Text → List Text → List Text
unfolding strip mem
keep forgotten [] = []
keep forgotten (l ∷ ls) =
    if mem (strip l) forgotten then keep forgotten ls else l ∷ keep forgotten ls

-- `_drop_ids`.
unfoldable pub drop_ids : List Text → Option Text → Option Text
unfolding splitlines keep joined
drop_ids forgotten none = none
drop_ids forgotten (some t) =
    let kept = keep forgotten (splitlines t) in
    if ltb (length kept) (length (splitlines t)) then some (joined kept) else some t

-- `record_id.splitlines() == [record_id]`.
unfoldable pub is_one_line : Text → Bool
unfolding splitlines
is_one_line id = elim (splitlines id) [ l ∷ [] ↦ text_eq l id | _ ↦ false ]
