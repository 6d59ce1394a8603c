-- ===== src/Pipeline/Session/Accepted.antt =====
-- The arguments that a run begins with.
use sci_etl_core.Prelude.{
  Bool, true, false, not, ◌&&◌, ◌||◌, Option, none, some, ltb, ◌≡◌, refl, arith,
}
use sci_etl_core.Search.Filters.{ℤ, pos, negsuc}
use sci_etl_core.Pipeline.Session.{
  Arguments, BadArgument, is_negative, is_positive, holds, is_given, limit_of, refusal,
}

-- A number of pages or attempts that is at least 1.
unfoldable pub at_least_one : Option ℤ → Bool
at_least_one none = true
at_least_one (some (pos n)) = ltb 0 n
at_least_one (some (negsuc n)) = false

unfoldable pub not_negative : Option ℤ → Bool
not_negative none = true
not_negative (some (pos n)) = true
not_negative (some (negsuc n)) = false

-- The offset of a listing without offsets can only be its start.
unfoldable pub is_start : Option ℤ → Bool
is_start none = true
is_start (some (pos n)) = not (ltb 0 n)
is_start (some (negsuc n)) = false

-- A rule for each argument, in no order.
unfoldable pub is_acceptable : Bool → Arguments → Bool
unfolding at_least_one not_negative is_start limit_of is_given
is_acceptable offsets a =
    at_least_one (some a.page_size)
    && (at_least_one a.max_attempts
        && (not_negative (some (limit_of a))
            && (not_negative a.start_index
                && (not (a.newest_first && is_given a.start_index)
                    && (offsets || not a.newest_first && is_start a.start_index)))))

unfoldable pub is_none : Option BadArgument → Bool
is_none none = true
is_none (some e) = false

at_least_one_lem : (z : ℤ) → at_least_one (some z) ≡ is_positive z
unfolding at_least_one is_positive
at_least_one_lem (pos n) = refl
at_least_one_lem (negsuc n) = refl

attempts_lem : (o : Option ℤ) → at_least_one o ≡ not (holds (λ z. not (is_positive z)) o)
unfolding at_least_one is_positive holds
attempts_lem none = refl
attempts_lem (some (pos n)) = ground arith
attempts_lem (some (negsuc n)) = refl

limit_lem : (z : ℤ) → not_negative (some z) ≡ not (is_negative z)
unfolding not_negative is_negative
limit_lem (pos n) = refl
limit_lem (negsuc n) = refl

start_lem : (o : Option ℤ) → not_negative o ≡ not (holds is_negative o)
unfolding not_negative is_negative holds
start_lem none = refl
start_lem (some (pos n)) = refl
start_lem (some (negsuc n)) = refl

is_start_lem : (o : Option ℤ) → is_start o ≡ (not_negative o && not (holds is_positive o))
unfolding is_start not_negative is_positive holds
is_start_lem none = refl
is_start_lem (some (pos n)) = ground arith
is_start_lem (some (negsuc n)) = refl

-- A run refuses its arguments exactly where one of the rules is broken: a page and a count of attempts
-- of at least 1, a limit and a start that are not negative, no start together with newest_first, and
-- neither newest_first nor a start above 0 for a listing without offsets.
pub refusal_iff :
    (offsets : Bool) (a : Arguments) → is_none (refusal offsets a) ≡ is_acceptable offsets a
unfolding refusal is_acceptable is_none
refusal_iff offsets a = ground (
  arith,
  at_least_one_lem a.page_size,
  attempts_lem a.max_attempts,
  limit_lem (limit_of a),
  start_lem a.start_index,
  is_start_lem a.start_index,
)
