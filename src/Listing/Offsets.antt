-- ===== src/Listing/Offsets.antt =====
-- extractors/_offsets.py: cursors that are decimal offsets. An offset is a natural number, so the
-- refusal of a negative one by `decimal_cursor` does not arise.
pub mod RoundTrip
use sci_etl_core.Prelude.{
  ℕ, zero, suc, ◌+◌, ◌-◌, ◌*◌, ◌/◌, ◌%◌, ◌<◌, Text, Bool, true, false, ◌&&◌, List, [], ◌∷◌, ◌++◌,
  Option, none, some, ltb, leb, ◌==◌, if◌then◌else◌, length,
}
use sci_etl_core.Models.{RawRecord, ListingPage}

-- `str(offset)`: the digits, the last one first taken off; `offset` units of fuel and one are
-- enough.
unfoldable pub digits : ℕ → ℕ → Text
digits zero n = []
digits (suc f) n =
    let more = digits f (n / 10) ++ (b'0' + n % 10) ∷ [] in
    if ltb n 10 then (b'0' + n) ∷ [] else more

unfoldable pub decimal_cursor : ℕ → Text
unfolding digits
decimal_cursor offset = digits (suc offset) offset

-- `cursor.isascii() and cursor.isdecimal()`.
unfoldable pub is_digit : ℕ → Bool
is_digit c = leb b'0' c && leb c b'9'

unfoldable pub all_digits : Text → Bool
unfolding is_digit
all_digits [] = true
all_digits (c ∷ cs) = is_digit c && all_digits cs

unfoldable pub is_decimal : Text → Bool
unfolding all_digits
is_decimal [] = false
is_decimal (c ∷ cs) = all_digits (c ∷ cs)

-- `int(cursor)`, of digits.
unfoldable pub to_int : ℕ → Text → ℕ
to_int n [] = n
to_int n (c ∷ cs) = to_int (n * 10 + (c - b'0')) cs

-- `none` is the `StaleCursorError`.
unfoldable pub offset_from_cursor : Option Text → Option ℕ
unfolding is_decimal to_int
offset_from_cursor none = some 0
offset_from_cursor (some cursor) = if is_decimal cursor then some (to_int 0 cursor) else none

unfoldable pub offset_page : List RawRecord → ℕ → ℕ → ListingPage
unfolding decimal_cursor
offset_page records entries offset = record {
  records = records;
  entries = entries;
  next_cursor = if entries == 0 then none else some (decimal_cursor (offset + entries));
  truncated = false;
}
