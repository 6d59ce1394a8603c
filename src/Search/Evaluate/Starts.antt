-- ===== src/Search/Evaluate/Starts.antt =====
-- `_starts` against a description of an occurrence by recursion on the query.
use sci_etl_core.Prelude.{
  ℕ, zero, suc, ◌+◌, ◌≤◌, Text, Bool, false, ◌&&◌, ◌||◌, List, [], ◌∷◌, none, some, length, take,
  drop, get_elem?, text_eq, ltb, leb, ◌==◌, ◌≡◌, refl, ◌∙◌, arith, length-drop, inl, inr,
  Bool-cases,
}
use sci_etl_core.Search.Evaluate.{
  leading, last_word, texts_eq, last_matches, candidate_at, starts_loop, starts,
}

-- The query's words stand at the front of the tokens, the last one perhaps as a prefix.
pub occurs_here : Bool → List Text → List Text → Bool
occurs_here prefix [] ts = false
occurs_here prefix (w ∷ ws) [] = false
occurs_here prefix (w ∷ []) (t ∷ ts) = last_matches prefix t w
occurs_here prefix (w ∷ v ∷ vs) (t ∷ ts) = text_eq t w && occurs_here prefix (v ∷ vs) ts

unfoldable pub has : List ℕ → ℕ → Bool
has [] s = false
has (x ∷ xs) s = (x == s) || has xs s

-- Each element is below the next, and at least `n`.
abbrev pub IsAscending : ℕ → List ℕ → Type 0
IsAscending n [] = Unit
IsAscending n (x ∷ xs) = (n ≤ x) × IsAscending (suc x) xs

get_elem?-drop : (ts : List Text) (s k : ℕ) → get_elem? ts (s + k) ≡ get_elem? (drop s ts) k
get_elem?-drop ts zero k = let e : 0 + k ≡ k = omega arith in rw e
get_elem?-drop [] (suc s) k = refl
get_elem?-drop (t ∷ ts) (suc s) k =
    let e : suc s + k ≡ suc (s + k) = omega arith in rw e (get_elem?-drop ts s k)

-- The test of `_starts` at the front of the tokens.
front : List Text → List Text → Text → Bool → Bool
front ts lead last prefix = elim (get_elem? ts (length lead)) [
  | none ↦ false
  | some candidate ↦ last_matches prefix candidate last && texts_eq (take (length lead) ts) lead
]

candidate_at-front :
    (ts lead : List Text) (last : Text) (prefix : Bool) (s : ℕ)
    → candidate_at ts lead last prefix s ≡ front (drop s ts) lead last prefix
unfolding candidate_at front
candidate_at-front ts lead last prefix s = rw (get_elem?-drop ts s (length lead), candidate_at)

front-occurs_here :
    (prefix : Bool) (w : Text) (ws ts : List Text)
    → front ts (leading w ws) (last_word w ws) prefix ≡ occurs_here prefix (w ∷ ws) ts
unfolding front occurs_here leading last_word texts_eq
front-occurs_here prefix w [] [] = refl
front-occurs_here prefix w [] (t ∷ ts) = ground arith
front-occurs_here prefix w (v ∷ vs) [] = refl
front-occurs_here prefix w (v ∷ vs) (t ∷ ts) = ground (arith, front-occurs_here prefix v vs ts)

length-leading : (w : Text) (ws : List Text) → length (leading w ws) ≡ length ws
unfolding leading
length-leading w [] = refl
length-leading w (v ∷ vs) = omega (arith, length-leading v vs)

-- An occurrence needs as many tokens as the query has words.
occurs_here-length :
    (prefix : Bool) (w : Text) (ws ts : List Text)
    → length ts ≤ length ws
    → occurs_here prefix (w ∷ ws) ts ≡ false
unfolding occurs_here
occurs_here-length prefix w ws [] h = refl
occurs_here-length prefix w [] (t ∷ ts) h = absurd (omega arith)
occurs_here-length prefix w (v ∷ vs) (t ∷ ts) h =
    ground (arith, occurs_here-length prefix v vs ts (omega arith))

has-starts_loop :
    (tokens lead : List Text) (last : Text) (prefix : Bool) (rounds start s : ℕ)
    → has (starts_loop tokens lead last prefix rounds start) s
      ≡ (leb start s && ltb s (start + rounds) && candidate_at tokens lead last prefix s)
unfolding has starts_loop
has-starts_loop tokens lead last prefix zero start s = ground arith
has-starts_loop tokens lead last prefix (suc rounds) start s =
    ground (arith, has-starts_loop tokens lead last prefix rounds (suc start) s)

-- `start` is reported exactly where the query occurs.
pub has-starts :
    (tokens query : List Text) (prefix : Bool) (s : ℕ)
    → has (starts tokens query prefix) s ≡ occurs_here prefix query (drop s tokens)
unfolding starts
has-starts tokens [] prefix s = unfold has occurs_here in refl
has-starts tokens (w ∷ ws) prefix s =
    let here =
      candidate_at-front tokens (leading w ws) (last_word w ws) prefix s
      ∙ front-occurs_here prefix w ws (drop s tokens) in
    rw (has-starts_loop, here)
      (ground (
        arith,
        length-leading w ws,
        length-drop s tokens,
        occurs_here-length prefix w ws (drop s tokens),
      ))

starts_loop-IsAscending :
    (tokens lead : List Text) (last : Text) (prefix : Bool) (rounds start n : ℕ)
    → n ≤ start
    → IsAscending n (starts_loop tokens lead last prefix rounds start)
unfolding starts_loop
starts_loop-IsAscending tokens lead last prefix zero start n h = tt
starts_loop-IsAscending tokens lead last prefix (suc rounds) start n h =
    elim (Bool-cases (candidate_at tokens lead last prefix start)) [
      | inl found ↦
          rw found
            (h, starts_loop-IsAscending tokens lead last prefix rounds (suc start) _ (omega arith))
      | inr other ↦
          rw other
            (starts_loop-IsAscending tokens lead last prefix rounds (suc start) n (omega arith))
    ]

-- `_starts` yields, in increasing order and each once, exactly the positions at which the query's
-- words occur consecutively, the last one as a prefix where `prefix` is set.
pub starts_exact :
    (tokens query : List Text) (prefix : Bool)
    → IsAscending 0 (starts tokens query prefix)
      × ((s : ℕ) → has (starts tokens query prefix) s ≡ occurs_here prefix query (drop s tokens))
starts_exact tokens [] prefix = (unfold starts in tt, has-starts tokens [] prefix)
starts_exact tokens (w ∷ ws) prefix = (
  unfold starts in starts_loop-IsAscending tokens _ _ prefix _ 0 0 (omega arith),
  has-starts tokens (w ∷ ws) prefix,
)
