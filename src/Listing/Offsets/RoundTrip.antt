-- ===== src/Listing/Offsets/RoundTrip.antt =====
-- A decimal cursor names the offset it was made from.
use sci_etl_core.Prelude.{
  ℕ, zero, suc, ◌+◌, ◌-◌, ◌*◌, ◌/◌, ◌<◌, Text, true, ◌&&◌, [], ◌∷◌, ◌++◌, some, ltb, ◌≡◌, refl,
  arith, Bool-cases, inl, inr,
}
use sci_etl_core.Listing.Offsets.{
  digits, decimal_cursor, is_digit, all_digits, is_decimal, to_int, offset_from_cursor,
}

to_int-append : (n c : ℕ) (cs : Text) → to_int n (cs ++ c ∷ []) ≡ to_int n cs * 10 + (c - b'0')
unfolding to_int
to_int-append n c [] = refl
to_int-append n c (d ∷ cs) = to_int-append (n * 10 + (d - b'0')) c cs

all_digits-append : (cs ds : Text) → all_digits (cs ++ ds) ≡ (all_digits cs && all_digits ds)
unfolding all_digits
all_digits-append [] ds = refl
all_digits-append (c ∷ cs) ds = ground (arith, all_digits-append cs ds)

to_int-digits : (f n : ℕ) → n < f → to_int 0 (digits f n) ≡ n
unfolding digits
to_int-digits zero n h = absurd (omega arith)
to_int-digits (suc f) n h = elim (Bool-cases (ltb n 10)) [
  | inl small ↦ rw small (unfold to_int in omega arith)
  | inr large ↦
      let ih = to_int-digits f (n / 10) (ground arith) in
      rw (large, to_int-append, ih) (omega arith)
]

all_digits-digits : (f n : ℕ) → all_digits (digits f n) ≡ true
unfolding digits
all_digits-digits zero n = unfold all_digits in refl
all_digits-digits (suc f) n = elim (Bool-cases (ltb n 10)) [
  | inl small ↦ rw small (unfold all_digits in ground arith)
  | inr large ↦
      rw (large, all_digits-append, all_digits-digits f (n / 10))
        (unfold all_digits in ground arith)
]

append-ne-nil : (cs : Text) (c : ℕ) → is_decimal (cs ++ c ∷ []) ≡ all_digits (cs ++ c ∷ [])
unfolding is_decimal
append-ne-nil [] c = refl
append-ne-nil (d ∷ cs) c = refl

is_decimal-digits : (f n : ℕ) → is_decimal (digits (suc f) n) ≡ true
unfolding digits
is_decimal-digits f n = elim (Bool-cases (ltb n 10)) [
  | inl small ↦ rw small (unfold is_decimal all_digits is_digit in ground arith)
  | inr large ↦
      rw (large, append-ne-nil, all_digits-append, all_digits-digits f (n / 10))
        (unfold all_digits in ground arith)
]

-- The cursor of an offset is read back as that offset.
pub offset_from_cursor-decimal_cursor :
    (offset : ℕ) → offset_from_cursor (some (decimal_cursor offset)) ≡ some offset
unfolding offset_from_cursor decimal_cursor
offset_from_cursor-decimal_cursor offset =
    rw (is_decimal-digits offset offset, to_int-digits (suc offset) offset (omega arith))
