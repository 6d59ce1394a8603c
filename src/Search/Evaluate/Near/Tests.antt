-- ===== src/Search/Evaluate/Near/Tests.antt =====
-- A `NEAR` group over a short document.
use sci_etl_core.Prelude.{ℕ, ◌≡◌, ◌↔◌, refl, codes, text_eq, true, false, List, [], ◌∷◌, some}
use sci_etl_core.Search.Ast.{body, term}
use sci_etl_core.Search.Tokenize.{Tokenizer}
use sci_etl_core.Search.Evaluate.{TokenizedDocument, Hits, starts}
use sci_etl_core.Search.Evaluate.Near.{trim_near, any_hits, satisfies_near}
use sci_etl_core.Search.Evaluate.Near.Positions.{picks, same_length}
use sci_etl_core.Search.Evaluate.Near.Trimmed.{positions_of, trim_near-picks}

-- A text is one word.
abbrev one_word : Tokenizer
one_word text = record { text = text; start = 0; end = 1 } ∷ []

abbrev document : TokenizedDocument
document = record {
  title = [];
  abstract = [];
  body = codes "dwarf" ∷ codes "and" ∷ codes "faint" ∷ codes "galaxy" ∷ codes "dwarf" ∷ [];
}

near_two :
    satisfies_near one_word document
      (term (codes "dwarf") [] false ∷ term (codes "galaxy") [] false ∷ [])
      2
      []
    ≡ true
unfolding satisfies_near starts text_eq
near_two = refl

not_near :
    satisfies_near one_word document
      (term (codes "and") [] false ∷ term (codes "galaxy") [] false ∷ [])
      0
      []
    ≡ false
unfolding satisfies_near starts text_eq
not_near = refl

abbrev dwarfs : Hits
dwarfs = (body, (0, 1) ∷ (4, 5) ∷ []) ∷ []

abbrev galaxies : Hits
galaxies = (body, (3, 4) ∷ []) ∷ []

trim_near-picks_example :
    (result : List Hits) × (trim_near (dwarfs ∷ galaxies ∷ []) (1 ∷ 1 ∷ []) 2 ≡ some result)
    × ((any_hits result ≡ true) ↔ (
        (top : ℕ) × (ts : List ℕ) × (picks 2 top
            (positions_of (dwarfs ∷ galaxies ∷ []))
            (1 ∷ 1 ∷ [])
            ts
          ≡ true)))
trim_near-picks_example =
    trim_near-picks 2 dwarfs (galaxies ∷ []) 1 (1 ∷ []) (unfold same_length in refl)
