-- ===== src/Pipeline/Effects.antt =====
-- What a run does to the exporter and the state manager, newest first, and what its collaborators
-- answer.
use sci_etl_core.Prelude.{
  ℕ, suc, Text, Bool, true, false, ◌&&◌, ◌||◌, List, [], ◌∷◌, text_eq, ◌≡◌, arith,
}

-- An exception: the name of its class, its message, and whether it is one of `MEMORY_FAULTS`.
pub record Fault : Type 0 where
  pub name : Text
  pub message : Text
  pub is_memory_fault : Bool

-- `marked` is `mark_processed` of a relevant record, and `dismissed` of an irrelevant one.
pub data Effect : Type 0 where
  wrote : Text → Effect
  flushed : Effect
  marked : Text → Effect
  dismissed : Text → Effect

unfoldable pub was_written : Text → List Effect → Bool
was_written id [] = false
was_written id (wrote j ∷ log) = text_eq j id || was_written id log
was_written id (_ ∷ log) = was_written id log

-- The entities of `id` are durable: written to a sink with `durable_writes`, or flushed since.
unfoldable pub is_durable : Bool → Text → List Effect → Bool
unfolding was_written
is_durable durable_writes id [] = false
is_durable durable_writes id (wrote j ∷ log) =
    durable_writes && text_eq j id || is_durable durable_writes id log
is_durable durable_writes id (flushed ∷ log) =
    was_written id log || is_durable durable_writes id log
is_durable durable_writes id (_ ∷ log) = is_durable durable_writes id log

-- Every relevant record was durable when it was marked.
abbrev pub IsSafe : Bool → List Effect → Type 0
IsSafe durable_writes [] = Unit
IsSafe durable_writes (marked id ∷ log) =
    (is_durable durable_writes id log ≡ true) × IsSafe durable_writes log
IsSafe durable_writes (_ ∷ log) = IsSafe durable_writes log

-- How many relevant records were marked.
unfoldable pub marks : List Effect → ℕ
marks [] = 0
marks (marked id ∷ log) = suc (marks log)
marks (_ ∷ log) = marks log

pub was_written-cons :
    (id : Text) (e : Effect) (log : List Effect)
    → was_written id log ≡ true
    → was_written id (e ∷ log) ≡ true
unfolding was_written
was_written-cons id (wrote j) log h = ground arith
was_written-cons id flushed log h = h
was_written-cons id _ log h = h

pub is_durable-cons :
    (d : Bool) (id : Text) (e : Effect) (log : List Effect)
    → is_durable d id log ≡ true
    → is_durable d id (e ∷ log) ≡ true
unfolding is_durable
is_durable-cons d id (wrote j) log h = ground arith
is_durable-cons d id flushed log h = ground arith
is_durable-cons d id _ log h = h
