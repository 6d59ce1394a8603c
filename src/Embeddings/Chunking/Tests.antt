-- ===== src/Embeddings/Chunking/Tests.antt =====
-- A text of five words in windows of three with an overlap of one.
use sci_etl_core.Prelude.{◌≡◌, refl, Text, codes, List, [], ◌∷◌, map, some}
use sci_etl_core.Search.Evaluate.{join_words}
use sci_etl_core.Embeddings.Chunking.{SlidingWindowChunker, new_chunker, split, chunk}
use sci_etl_core.Embeddings.Chunking.Covers.{IsSliding, stitch, chunk-IsSliding}

abbrev text : Text
text = codes "ab  cd ef\ngh i "

abbrev three : SlidingWindowChunker
three = record { chunk_words = 3; overlap_words = 1 }

two_chunks : chunk three text ≡ codes "ab cd ef" ∷ codes "ef gh i" ∷ []
unfolding chunk
two_chunks = refl

chunk-IsSliding_example :
    (ws : List (List Text)) × (chunk three text ≡ map join_words ws)
    × IsSliding 3 1 ws
    × (stitch 1 ws ≡ split text)
chunk-IsSliding_example = chunk-IsSliding 3 (some 1) three text (unfold new_chunker in refl)
