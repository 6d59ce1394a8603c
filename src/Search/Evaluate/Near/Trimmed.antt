-- ===== src/Search/Evaluate/Near/Trimmed.antt =====
-- `trim_near` gives an occurrence exactly when the positions of the operands allow a choice.
use sci_etl_core.Prelude.{
  ℕ, ◌+◌, ◌/◌, ◌%◌, ◌^◌, ◌≡◌, ◌↔◌, refl, sym, ◌∙◌, Bool, true, false, ◌||◌, List, [], ◌∷◌, map,
  some, ◌==◌, arith,
}
use sci_etl_core.Search.Evaluate.{Hits}
use sci_etl_core.Search.Evaluate.Starts.{has}
use sci_etl_core.Search.Evaluate.Near.{
  insert_position, sort_positions, packed, unpacked, add_hit, field_at, unpacked_all, trimmed,
  trim_near, any_hits,
}
use sci_etl_core.Search.Evaluate.Near.Holds.{is_sorted}
use sci_etl_core.Search.Evaluate.Near.Exact.{begun}
use sci_etl_core.Search.Evaluate.Near.Positions.{
  picks, sorted_positions, same_length, IsExact, kept_starts-IsExact,
}

has-insert_position : (p t : ℕ) (qs : List ℕ) → has (insert_position p qs) t ≡ (p == t || has qs t)
unfolding has insert_position
has-insert_position p t [] = refl
has-insert_position p t (q ∷ qs) = ground (arith, has-insert_position p t qs)

has-sort_positions : (t : ℕ) (ps : List ℕ) → has (sort_positions ps) t ≡ has ps t
unfolding has sort_positions
has-sort_positions t [] = refl
has-sort_positions t (p ∷ ps) =
    ground (arith, has-insert_position p t (sort_positions ps), has-sort_positions t ps)

is_sorted-insert_position :
    (p : ℕ) (qs : List ℕ) → is_sorted qs ≡ true → is_sorted (insert_position p qs) ≡ true
unfolding is_sorted insert_position
is_sorted-insert_position p [] s = refl
is_sorted-insert_position p (q ∷ []) s = ground arith
is_sorted-insert_position p (q ∷ r ∷ qs) s = ground (arith, s, is_sorted-insert_position p (r ∷ qs))

is_sorted-sort_positions : (ps : List ℕ) → is_sorted (sort_positions ps) ≡ true
unfolding sort_positions
is_sorted-sort_positions [] = unfold is_sorted in refl
is_sorted-sort_positions (p ∷ ps) =
    is_sorted-insert_position p (sort_positions ps) (is_sorted-sort_positions ps)

-- The positions of the occurrences, and these sorted.
abbrev pub positions_of : List Hits → List (List ℕ)
positions_of [] = []
positions_of (hits ∷ found) = packed hits ∷ positions_of found

sorted_positions-map :
    (found : List Hits) → sorted_positions (map (λ hits. sort_positions (packed hits)) found) ≡ true
unfolding sorted_positions
sorted_positions-map [] = refl
sorted_positions-map (hits ∷ found) =
    ground (arith, sorted_positions-map found, is_sorted-sort_positions (packed hits))

same_length-map :
    (found : List Hits) (lengths : List ℕ)
    → same_length (map (λ hits. sort_positions (packed hits)) found) lengths
      ≡ same_length (positions_of found) lengths
unfolding same_length
same_length-map [] [] = refl
same_length-map [] (n ∷ lengths) = refl
same_length-map (hits ∷ found) [] = refl
same_length-map (hits ∷ found) (n ∷ lengths) = same_length-map found lengths

picks-map :
    (distance top : ℕ) (found : List Hits) (lengths ts : List ℕ)
    → picks distance top (map (λ hits. sort_positions (packed hits)) found) lengths ts
      ≡ picks distance top (positions_of found) lengths ts
unfolding picks
picks-map distance top [] [] [] = refl
picks-map distance top [] [] (t ∷ ts) = refl
picks-map distance top [] (n ∷ lengths) [] = refl
picks-map distance top [] (n ∷ lengths) (t ∷ ts) = refl
picks-map distance top (hits ∷ found) [] [] = refl
picks-map distance top (hits ∷ found) [] (t ∷ ts) = refl
picks-map distance top (hits ∷ found) (n ∷ lengths) [] = refl
picks-map distance top (hits ∷ found) (n ∷ lengths) (t ∷ ts) =
    ground (arith, has-sort_positions t (packed hits), picks-map distance top found lengths ts)

is_some_hit : Hits → Bool
is_some_hit [] = false
is_some_hit (h ∷ hits) = true

unpacked_some :
    (ps : List ℕ) (span : ℕ) (hits : Hits)
    → is_some_hit hits ≡ true
    → is_some_hit (unpacked ps span hits) ≡ true
unfolding is_some_hit unpacked add_hit
unpacked_some [] span hits h = h
unpacked_some (p ∷ ps) span [] h = absurd (cc h)
unpacked_some (p ∷ ps) span (x ∷ hits) h = unpacked_some ps span _ (ground arith)

any_hits-cons :
    (hits : Hits) (found : List Hits) → is_some_hit hits ≡ true → any_hits (hits ∷ found) ≡ true
unfolding any_hits is_some_hit
any_hits-cons [] found h = absurd (cc h)
any_hits-cons (h ∷ hits) found e = refl

any_hits-unpacked :
    (k : ℕ) (ks : List ℕ) (kept : List (List ℕ)) (n : ℕ) (lengths : List ℕ)
    → any_hits (unpacked_all ((k ∷ ks) ∷ kept) (n ∷ lengths)) ≡ true
unfolding unpacked_all unpacked is_some_hit add_hit
any_hits-unpacked k ks kept n lengths =
    let start = k % 2 ^ 32 in
    let first = add_hit (field_at (k / 2 ^ 32)) (start, start + n) [] in
    any_hits-cons (unpacked ks n first) (unpacked_all kept lengths) (unpacked_some ks n first refl)

any_hits-empty : (found : List Hits) → any_hits (map (λ (h : Hits). []) found) ≡ false
unfolding any_hits
any_hits-empty [] = refl
any_hits-empty (h ∷ found) = any_hits-empty found

any_hits-trimmed :
    (found : List Hits) (kept : List (List ℕ)) (n : ℕ) (lengths : List ℕ)
    → any_hits (trimmed found kept (n ∷ lengths)) ≡ begun kept
unfolding trimmed begun
any_hits-trimmed found [] n lengths = unfold any_hits in refl
any_hits-trimmed found ([] ∷ kept) n lengths = any_hits-empty found
any_hits-trimmed found ((k ∷ ks) ∷ kept) n lengths = any_hits-unpacked k ks kept n lengths

-- `trim_near` of as many lengths as mappings always returns, within its fuel. Its mappings hold an
-- occurrence exactly when one position of each operand can be chosen such that all are at most some
-- number, and every operand ends at most `distance` tokens before that number.
pub trim_near-picks :
    (distance : ℕ) (hits : Hits) (found : List Hits) (n : ℕ) (lengths : List ℕ)
    → same_length (positions_of found) lengths ≡ true
    → (result : List Hits) × (trim_near (hits ∷ found) (n ∷ lengths) distance ≡ some result)
      × ((any_hits result ≡ true) ↔ (
          (top : ℕ) × (ts : List ℕ) × (picks distance top
              (positions_of (hits ∷ found))
              (n ∷ lengths)
              ts
            ≡ true)))
unfolding trim_near IsExact
trim_near-picks distance hits found n lengths same =
    let sorted = λ (hits : Hits). sort_positions (packed hits) in
    let (kept, e, exact) =
      kept_starts-IsExact distance (sorted hits) (map sorted found) n lengths
        (same_length-map found lengths ∙ same) (sorted_positions-map (hits ∷ found)) in
    let any = any_hits-trimmed (hits ∷ found) kept n lengths in
    let same_picks =
      λ (top : ℕ) (ts : List ℕ). picks-map distance top (hits ∷ found) (n ∷ lengths) ts in
    (
      trimmed (hits ∷ found) kept (n ∷ lengths),
      rw (trim_near, e) refl,
      (
        λ a. let (top, ts, c) = exact.0 (sym any ∙ a) in (top, ts, sym (same_picks top ts) ∙ c),
        λ c. any ∙ exact.1 (c.0, c.1, same_picks c.0 c.1 ∙ c.2),
      ),
    )
