-- ===== src/Search/Graph/Grown.antt =====
-- The growth of a build: at most `max_nodes` records, the seed among them, or the failure of a source.
use sci_etl_core.Prelude.{
  ℕ, zero, suc, ◌≡◌, ◌⊎◌, ◌≤◌, refl, Text, Bool, true, false, ◌||◌, List, [], ◌∷◌, ◌++◌, leb, mem,
  mem_self, length, length-append, if◌then◌else◌, inl, inr, arith,
}
use sci_etl_core.Search.Graph.Edges.{Weights, Lists}
use sci_etl_core.Search.Graph.Fetch.{
  Result, failed, done, bind, Source, fetch_one, expansion, fetch,
}
use sci_etl_core.Search.Graph.Build.{
  GraphParams, Growth, discover, expand, grow, fetch_mutual, explore,
}

mem-append : (x : Text) (xs ys : List Text) → mem x (xs ++ ys) ≡ (mem x xs || mem x ys)
unfolding mem
mem-append x [] ys = refl
mem-append x (y ∷ xs) ys = ground (arith, mem-append x xs ys)

-- The growing list of nodes.
unfoldable pub IsGrown : ℕ → Text → List Text → Type 0
IsGrown max_nodes seed nodes = (length nodes ≤ max_nodes) × (mem seed nodes ≡ true)

discover-IsGrown :
    (max_nodes : ℕ) (seed : Text) (ns : List Text) (g : Growth)
    → IsGrown max_nodes seed g.nodes
    → IsGrown max_nodes seed (discover max_nodes ns g).nodes
unfolding discover IsGrown
discover-IsGrown max_nodes seed [] g h = h
discover-IsGrown max_nodes seed (n ∷ ns) g h =
    discover-IsGrown max_nodes seed ns _
      (ground (arith, h, length-append g.nodes (n ∷ []), mem-append seed g.nodes (n ∷ [])))

module _ {W : Type 0} (weights : Weights W) (p : GraphParams W) (seed : Text) where
  expand-IsGrown :
      (memo : List (Lists W)) (ids : List Text) (g : Growth)
      → IsGrown p.max_nodes seed g.nodes
      → IsGrown p.max_nodes seed (expand weights p memo ids g).nodes
  unfolding expand
  expand-IsGrown memo [] g h = h
  expand-IsGrown memo (id ∷ ids) g h =
      let ns = expansion weights memo id p.min_weight in
      expand-IsGrown memo ids (discover p.max_nodes ns g) (discover-IsGrown p.max_nodes seed ns g h)

-- A source's failure, or a result with a property.
module _ {E W : Type 0} (fanout : ℕ) where
  -- A call of one of the sources fails with `e`.
  unfoldable pub Fails : List (Source E W) → E → Type 0
  Fails [] e = ⊥
  Fails (s ∷ sources) e =
      ((ids : List Text) × (s.neighbours ids fanout ≡ failed e)) ⊎ Fails sources e

  module _ (sources : List (Source E W)) where
    unfoldable pub Yields : {A : Type 0} → (A → Type 0) → Result E A → Type 0
    Yields P (failed e) = Fails sources e
    Yields P (done a) = P a

    pub Yields-done : {A : Type 0} (P : A → Type 0) (a : A) → P a → Yields P (done a)
    unfolding Yields
    Yields-done P a h = h

    pub Yields-bind :
        {A B : Type 0} (P : A → Type 0) (Q : B → Type 0) (r : Result E A) (f : A → Result E B)
        → Yields P r
        → ((a : A) → P a → Yields Q (f a))
        → Yields Q (bind r f)
    unfolding bind Yields
    Yields-bind P Q (failed e) f h next = h
    Yields-bind P Q (done a) f h next = next a h

    pub Yields-if :
        {A : Type 0} (P : A → Type 0) (b : Bool) (r s : Result E A)
        → Yields P r
        → Yields P s
        → Yields P (if b then r else s)
    Yields-if P true r s hr hs = hr
    Yields-if P false r s hr hs = hs

  Yields-cons :
      {A : Type 0} (P : A → Type 0) (s : Source E W) (sources : List (Source E W)) (r : Result E A)
      → Yields sources P r
      → Yields (s ∷ sources) P r
  unfolding Yields Fails
  Yields-cons P s sources (failed e) h = inr h
  Yields-cons P s sources (done a) h = h

  Yields-call :
      (s : Source E W) (sources : List (Source E W)) (ids : List Text) (r : Result E (Lists W))
      → s.neighbours ids fanout ≡ r
      → Yields (s ∷ sources) (λ _. Unit) r
  unfolding Yields Fails
  Yields-call s sources ids (failed e) called = inl (ids, called)
  Yields-call s sources ids (done lists) called = tt

  Yields-fetch_one :
      (weights : Weights W) (s : Source E W) (sources : List (Source E W)) (ids : List Text)
      (lists : Lists W)
      → Yields (s ∷ sources) (λ _. Unit) (fetch_one weights s fanout ids lists)
  unfolding fetch_one
  Yields-fetch_one weights s sources [] lists = unfold Yields in tt
  Yields-fetch_one weights s sources (id ∷ ids) lists =
      Yields-bind (s ∷ sources) (λ _. Unit) (λ _. Unit) _ _
        (Yields-call s sources (id ∷ ids) _ refl)
        (λ _ _. Yields-done (s ∷ sources) (λ _. Unit) _ tt)

  pub Yields-fetch :
      (weights : Weights W) (sources : List (Source E W)) (memo : List (Lists W)) (ids : List Text)
      → Yields sources (λ _. Unit) (fetch weights sources memo ids fanout)
  unfolding fetch
  Yields-fetch weights [] memo ids = unfold Yields in tt
  Yields-fetch weights (s ∷ sources) [] ids = unfold Yields in tt
  Yields-fetch weights (s ∷ sources) (lists ∷ memo) ids =
      Yields-bind (s ∷ sources) (λ _. Unit) (λ _. Unit) _ _
        (Yields-fetch_one weights s sources _ lists)
        (λ _ _.
          Yields-bind (s ∷ sources) (λ _. Unit) (λ _. Unit) _ _
            (Yields-cons (λ _. Unit) s sources _ (Yields-fetch weights sources memo ids))
            (λ _ _. Yields-done (s ∷ sources) (λ _. Unit) _ tt))

module _ {E W : Type 0} (weights : Weights W) (p : GraphParams W) (seed : Text)
    (sources : List (Source E W)) where
  pub Yields-grow :
      (levels : ℕ) (memo : List (Lists W)) (nodes frontier : List Text)
      → IsGrown p.max_nodes seed nodes
      → Yields p.fanout sources
          (λ found. IsGrown p.max_nodes seed found.1.nodes)
          (grow weights p sources levels memo (record { nodes = nodes; frontier = frontier }))
  unfolding grow
  Yields-grow zero memo nodes frontier h = unfold Yields in h
  Yields-grow (suc levels) memo nodes [] h = unfold Yields in h
  Yields-grow (suc levels) memo nodes (id ∷ ids) h =
      Yields-if p.fanout sources _ (leb p.max_nodes (length nodes)) _ _ (unfold Yields in h) (
        Yields-bind p.fanout sources (λ _. Unit) _ (fetch weights sources memo (id ∷ ids) p.fanout)
          _ (Yields-fetch p.fanout weights sources memo (id ∷ ids))
          (λ found _.
            Yields-grow levels found _ _ (expand-IsGrown weights p seed found (id ∷ ids) _ h)))

  Yields-fetch_mutual :
      (memo : List (Lists W)) (nodes : List Text)
      → Yields p.fanout sources (λ _. Unit) (fetch_mutual weights p sources memo nodes)
  unfolding fetch_mutual
  Yields-fetch_mutual memo nodes =
      Yields-if p.fanout sources _ p.mutual_only _ _
        (Yields-fetch p.fanout weights sources memo nodes) (unfold Yields in tt)

  pub Yields-explore :
      1 ≤ p.max_nodes
      → Yields p.fanout sources
          (λ found. IsGrown p.max_nodes seed found.1)
          (explore weights p seed sources)
  unfolding explore
  Yields-explore h =
      Yields-bind p.fanout sources _ _ _ _
        (Yields-grow p.depth _ (seed ∷ []) (seed ∷ []) (unfold IsGrown in (h, mem_self seed [])))
        (λ grown fine.
          Yields-bind p.fanout sources (λ _. Unit) _ _ _ (Yields-fetch_mutual grown.0 grown.1.nodes)
            (λ memo _. Yields-done p.fanout sources _ _ fine))
