-- ===== src/Search/Graph/Found.antt =====
-- `_connected` ends, and holds exactly the ids that some walk along the edges reaches.
use sci_etl_core.Prelude.{
  ℕ, zero, suc, ◌+◌, ◌*◌, ◌≤◌, ◌≡◌, ◌↔◌, ◌⊎◌, refl, sym, ap, subst, Text, true, List, [], ◌∷◌,
  Option, some, mem, mem_self, text_eq, text_eq_iff, text_eq_refl, length, inl, arith,
}
use mathlib.Core.Logic.{⊎_elim}
use sci_etl_core.Search.Graph.Edges.{Edge}
use sci_etl_core.Search.Graph.Connected.{adjacent, Walk, offer, walk, connected}
use sci_etl_core.Search.Graph.Reaches.{
  Reach, here, step, reached-offer, pending-offer, mem-adjacent, endpoints_of, measure,
  measure-offer, measure-start, measure-pop,
}

module _ {W : Type 0} (es : List (Edge W)) (seed : Text) where
  record Inv (w : Walk) : Type 0 where
    source : mem seed w.reached ≡ true
    queued : (v : Text) → mem v w.pending ≡ true → mem v w.reached ≡ true
    sound : (v : Text) → mem v w.reached ≡ true → Reach es seed v
    closed :
        (u v : Text)
        → mem u w.reached ≡ true
        → mem v (adjacent es u) ≡ true
        → (mem u w.pending ≡ true) ⊎ (mem v w.reached ≡ true)

  Inv-start : Inv (record { reached = seed ∷ []; pending = seed ∷ [] })
  unfolding mem
  Inv-start = record {
    source = mem_self seed [];
    queued = λ v m. m;
    sound = λ v m. subst (Reach es seed) (sym ((text_eq_iff v seed).0 (ground (arith, m)))) here;
    closed = λ u v m a. inl m;
  }

  adjacent-same :
      (u id v : Text) → text_eq u id ≡ true → mem v (adjacent es u) ≡ mem v (adjacent es id)
  adjacent-same u id v e = ap (λ (t : Text). mem v (adjacent es t)) ((text_eq_iff u id).0 e)

  Inv-round :
      (id : Text) (rest reached : List Text)
      → Inv (record { reached = reached; pending = id ∷ rest })
      → Inv (offer (adjacent es id) (record { reached = reached; pending = rest }))
  unfolding mem
  Inv-round id rest reached h =
      let w : Walk = record { reached = reached; pending = rest } in
      let r = λ (v : Text). reached-offer v (adjacent es id) w in
      let p = λ (v : Text). pending-offer v (adjacent es id) w in
      let reached_or : (v : Text)
          → mem v (offer (adjacent es id) w).reached ≡ true
          → (mem v reached ≡ true) ⊎ (mem v (adjacent es id) ≡ true) =
        λ v m. ground (arith, r v, m) in
      let to_id = sound id (queued id (ground (arith, text_eq_refl id))) in
      record {
        source = ground (arith, r seed, source);
        queued = λ v m. ground (arith, r v, p v, queued v, m);
        sound =
            λ v m. ⊎_elim (sound v) (λ a. step to_id ((mem-adjacent es id v).0 a)) (reached_or v m);
        closed = λ u v m a. ground (arith, r u, r v, p u, closed u v, adjacent-same u id v, m, a);
      }
    where
      open h use {source, queued, sound, closed}

  -- The ids that the loop returns.
  IsFound : Option (List Text) → Type 0
  IsFound o = (r : List Text) × (o ≡ some r) × ((v : Text) → (mem v r ≡ true) ↔ Reach es seed v)

  complete :
      (reached : List Text)
      → Inv (record { reached = reached; pending = [] })
      → (v : Text) → Reach es seed v
      → mem v reached ≡ true
  unfolding mem
  complete reached h v here = h.source
  complete reached h v (step {u} p j) =
      ground (arith, h.closed u v (complete reached h u p) ((mem-adjacent es u v).1 j))

  walk_rule :
      (f : ℕ) (reached pending : List Text)
      → Inv (record { reached = reached; pending = pending })
      → measure es (record { reached = reached; pending = pending }) ≤ f
      → IsFound (walk f es (record { reached = reached; pending = pending }))
  unfolding walk IsFound
  walk_rule zero reached [] h le = (reached, refl, λ v. (h.sound v, complete reached h v))
  walk_rule (suc f) reached [] h le = (reached, refl, λ v. (h.sound v, complete reached h v))
  walk_rule zero reached (id ∷ rest) h le = ground (arith, measure-pop es id reached rest, le)
  walk_rule (suc f) reached (id ∷ rest) h le =
      let w : Walk = record { reached = reached; pending = rest } in
      let next = offer (adjacent es id) w in
      let below = λ (v : Text) (a : mem v (adjacent es id) ≡ true).
        endpoints_of es id v ((mem-adjacent es id v).0 a) in
      walk_rule f next.reached next.pending (Inv-round id rest reached h) (
        omega
          (arith, le, measure-pop es id reached rest, measure-offer es (adjacent es id) w below))

-- `connected` returns a list of ids, and an id is in it exactly when some walk along the edges, taken
-- in either direction, leads from the seed to that id.
pub connected-Reach :
    {W : Type 0} (seed : Text) (es : List (Edge W))
    → (r : List Text) × (connected seed es ≡ some r)
      × ((v : Text) → (mem v r ≡ true) ↔ Reach es seed v)
unfolding connected IsFound
connected-Reach seed es =
    walk_rule es seed (2 * length es + 1) (seed ∷ []) (seed ∷ []) (Inv-start es seed)
      (measure-start es seed)
