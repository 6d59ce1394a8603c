-- ===== src/Search/Lexeme.antt =====
-- The lexemes of search/parser.py, the errors that the scanner and the parser raise, and what a call
-- that may raise gives.
use sci_etl_core.Prelude.{ℕ, Text, Option, some}
use sci_etl_core.Search.Ast.{Node}

-- `_Kind`.
pub data Kind : Type 0 where
  operand and_op or_op not_op open_group close_group end_of_query : Kind

pub record Lexeme : Type 0 where
  pub kind : Kind
  pub text : Text
  pub position : ℕ
  pub node : Option Node

-- The message of an error, without the words quoted in it.
pub data Complaint : Type 0 where
  empty_query unmatched_close term_after term_before too_deep unclosed_group : Complaint
  bare_scope unclosed_near unclosed_phrase not_near_operand unexpected_in_near : Complaint
  bad_distance empty_near unknown_field misplaced_star no_word no_whole_word : Complaint
  not_rankable : Complaint

-- `SearchQueryError`.
pub record SearchError : Type 0 where
  pub complaint : Complaint
  pub position : Option ℕ
  pub token : Text

-- `exhausted` is a loop that ran out of fuel.
pub data Outcome {ℓ} (A : Type ℓ) : Type ℓ where
  ok : A → Outcome A
  raised : SearchError → Outcome A
  exhausted : Outcome A

abbrev pub error_at {ℓ} : {A : Type ℓ} → Complaint → ℕ → Text → Outcome A
error_at complaint position token =
    raised (record { complaint = complaint; position = some position; token = token })

unfoldable pub bind {ℓ ℓ'} : {A : Type ℓ} {B : Type ℓ'} → Outcome A → (A → Outcome B) → Outcome B
bind (ok a) k = k a
bind (raised e) k = raised e
bind exhausted k = exhausted

-- What the calls of `_Scanner.next` give: lexemes, and then `END` for ever or an error; `cut`
-- where the fuel for them ran out.
pub data Stream : Type 0 where
  next : Lexeme → Stream → Stream
  ends : ℕ → Stream
  fails : SearchError → Stream
  cut : Stream
