-- ===== src/Search/Query/Located.antt =====
-- What `parse_query` and `parse_ranked_query` give on any text.
use sci_etl_core.Prelude.{ℕ, Text}
use sci_etl_core.Search.Lexeme.{Lexeme}
use sci_etl_core.Search.Parser.Placed.{StandsAt}

module _ (text : Text) where
  abbrev IsPlace : ℕ × Text → Type 0
  IsPlace (position, token) = StandsAt text position token
