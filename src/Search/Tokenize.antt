-- ===== src/Search/Tokenize.antt =====
-- The data of search/tokenize.py.
use sci_etl_core.Prelude.{ℕ, Text, List, map}

pub record Token : Type 0 where
  pub text : Text
  pub start : ℕ
  pub end : ℕ

-- The `Tokenizer` protocol, which `matches` takes as an argument.
abbrev pub Tokenizer : Type 0
Tokenizer = Text → List Token

-- `_words` of search/evaluate.py.
unfoldable pub words : Tokenizer → Text → List Text
words tokenizer text = map (λ t. t.text) (tokenizer text)
