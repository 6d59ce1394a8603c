-- ===== src/Embeddings/Chunking.antt =====
-- embeddings/chunking.py: `SlidingWindowChunker`. Word counts are natural numbers, so the refusal of a
-- negative overlap does not arise.
mod Covers
mod Tests
use sci_etl_core.Prelude.{
  ℕ, zero, suc, ◌-◌, min, Text, Bool, true, false, ◌&&◌, List, [], ◌∷◌, ◌++◌, map, Option, none,
  some, ltb, leb, length, take, drop, is_space, if◌then◌else◌,
}
use sci_etl_core.Search.Evaluate.{join_words}

pub record SlidingWindowChunker : Type 0 where
  pub chunk_words : ℕ
  pub overlap_words : ℕ

-- The constructor with its overlap known; `none` is a ValueError.
unfoldable pub checked_chunker : ℕ → ℕ → Option SlidingWindowChunker
checked_chunker chunk_words overlap_words =
    if ltb overlap_words chunk_words
    then some (record { chunk_words = chunk_words; overlap_words = overlap_words })
    else none

abbrev pub default_overlap : ℕ
default_overlap = 50

-- `overlap_words`, where it is left unset.
unfoldable pub resolved_overlap : ℕ → Option ℕ → ℕ
resolved_overlap chunk_words none = min default_overlap (chunk_words - 1)
resolved_overlap chunk_words (some overlap_words) = overlap_words

unfoldable pub new_chunker : ℕ → Option ℕ → Option SlidingWindowChunker
unfolding checked_chunker resolved_overlap
new_chunker chunk_words overlap_words =
    if ltb chunk_words 1
    then none
    else checked_chunker chunk_words (resolved_overlap chunk_words overlap_words)

-- `text.split()`; `word` is the word read so far.
unfoldable pub end_word : Text → List Text → List Text
end_word [] words = words
end_word (c ∷ cs) words = (c ∷ cs) ∷ words

unfoldable pub split_from : Text → Text → List Text
unfolding is_space end_word
split_from word [] = end_word word []
split_from word (c ∷ cs) = elim (is_space c) [
  | true ↦ end_word word (split_from [] cs)
  | false ↦ split_from (word ++ c ∷ []) cs
]

unfoldable pub split : Text → List Text
unfolding split_from
split text = split_from [] text

-- The windows from one `start` on, over the words from there; a unit of fuel for each word is enough.
unfoldable pub windows : ℕ → ℕ → ℕ → List Text → List (List Text)
windows zero size step words = []
windows (suc f) size step [] = []
windows (suc f) size step (w ∷ ws) =
    let rest = windows f size step (drop step (w ∷ ws)) in
    let window = take size (w ∷ ws) in
    if leb (length (w ∷ ws)) size then window ∷ [] else window ∷ rest

unfoldable pub chunk : SlidingWindowChunker → Text → List Text
unfolding split windows join_words
chunk c text =
    let words = split text in
    map join_words (windows (length words) c.chunk_words (c.chunk_words - c.overlap_words) words)
