-- ===== src/Search/Graph/Reaches.antt =====
-- `_connected` ends, and holds exactly the ids that some walk along the edges reaches.
use sci_etl_core.Prelude.{
  ℕ, suc, ◌+◌, ◌*◌, ◌≤◌, ◌<◌, ◌≡◌, ◌↔◌, ◌⊎◌, refl, ap, Text, true, false, not, ◌&&◌, ◌||◌, List, [],
  ◌∷◌, mem, mem_self, mem-cons, text_eq, text_eq_iff, length, if◌then◌else◌, arith,
}
use sci_etl_core.Search.Graph.Edges.{Edge}
use sci_etl_core.Search.Graph.Connected.{adjacent, Walk, add, offer}

pub mem-same : (v id : Text) (ids : List Text) → text_eq v id ≡ true → mem v ids ≡ mem id ids
mem-same v id ids e = ap (λ (t : Text). mem t ids) ((text_eq_iff v id).0 e)

reached-add :
    (v id : Text) (w : Walk) → mem v (add id w).reached ≡ (mem v w.reached || text_eq v id)
unfolding add mem
reached-add v id w = ground (arith, mem-same v id w.reached)

pending-add :
    (v id : Text) (w : Walk)
    → mem v (add id w).pending ≡ (mem v w.pending || text_eq v id && not (mem v w.reached))
unfolding add mem
pending-add v id w = ground (arith, mem-same v id w.reached)

pub reached-offer :
    (v : Text) (ids : List Text) (w : Walk)
    → mem v (offer ids w).reached ≡ (mem v w.reached || mem v ids)
unfolding offer mem
reached-offer v [] w = ground arith
reached-offer v (id ∷ ids) w = ground (arith, reached-offer v ids (add id w), reached-add v id w)

pub pending-offer :
    (v : Text) (ids : List Text) (w : Walk)
    → mem v (offer ids w).pending ≡ (mem v w.pending || mem v ids && not (mem v w.reached))
unfolding offer mem
pending-offer v [] w = ground arith
pending-offer v (id ∷ ids) w =
    ground (arith, pending-offer v ids (add id w), pending-add v id w, reached-add v id w)

-- Two ids that an edge of `es` joins, in either direction.
unfoldable pub Joined : {W : Type 0} → List (Edge W) → Text → Text → Type 0
Joined [] u v = ⊥
Joined (e ∷ es) u v =
    (e.source ≡ u) × (v ≡ e.target) ⊎ (e.target ≡ u) × (v ≡ e.source) ⊎ Joined es u v

pub mem-adjacent :
    {W : Type 0} (es : List (Edge W)) (u v : Text) → (mem v (adjacent es u) ≡ true) ↔ Joined es u v
unfolding adjacent mem Joined
mem-adjacent [] u v = ground arith
mem-adjacent (e ∷ es) u v = ground (
  arith,
  mem-adjacent es u v,
  text_eq_iff e.source u,
  text_eq_iff e.target u,
  text_eq_iff v e.source,
  text_eq_iff v e.target,
)

pub data Reach {W : Type 0} (es : List (Edge W)) (seed : Text) : Text → Type 0 where
  here : Reach es seed seed
  step : {u v : Text} → Reach es seed u → Joined es u v → Reach es seed v

-- The ids of the edges, which bound the stack.
pub endpoints : {W : Type 0} → List (Edge W) → List Text
endpoints [] = []
endpoints (e ∷ es) = e.source ∷ e.target ∷ endpoints es

length-endpoints : {W : Type 0} (es : List (Edge W)) → length (endpoints es) ≡ 2 * length es
unfolding endpoints
length-endpoints [] = refl
length-endpoints (e ∷ es) = omega (arith, length-endpoints es)

pub endpoints_of :
    {W : Type 0} (es : List (Edge W)) (u v : Text) → Joined es u v → mem v (endpoints es) ≡ true
unfolding endpoints Joined mem
endpoints_of [] u v j = elim j [ ]
endpoints_of (e ∷ es) u v j =
    ground (arith, endpoints_of es u v, text_eq_iff v e.source, text_eq_iff v e.target, j)

pub unseen : List Text → List Text → ℕ
unfolding mem
unseen [] reached = 0
unseen (id ∷ ids) reached = if mem id reached then unseen ids reached else suc (unseen ids reached)

unseen-le_length : (ids reached : List Text) → unseen ids reached ≤ length ids
unfolding unseen
unseen-le_length [] reached = omega arith
unseen-le_length (id ∷ ids) reached = ground (arith, unseen-le_length ids reached)

unseen-cons : (id : Text) (ids reached : List Text) → unseen ids (id ∷ reached) ≤ unseen ids reached
unfolding unseen mem
unseen-cons id [] reached = omega arith
unseen-cons id (x ∷ ids) reached = ground (arith, unseen-cons id ids reached)

unseen-cons_lt :
    (id : Text) (ids reached : List Text)
    → mem id ids ≡ true
    → mem id reached ≡ false
    → unseen ids (id ∷ reached) < unseen ids reached
unfolding unseen mem
unseen-cons_lt id [] reached m fresh = ground arith
unseen-cons_lt id (x ∷ ids) reached m fresh = ground (
  arith,
  unseen-cons id ids reached,
  unseen-cons_lt id ids reached,
  text_eq_iff id x,
  mem-same x id reached,
  text_eq_iff x id,
)

-- What the loop still has to do.
unfoldable pub measure : {W : Type 0} → List (Edge W) → Walk → ℕ
measure es w = unseen (endpoints es) w.reached + length w.pending

pub measure-add :
    {W : Type 0} (es : List (Edge W)) (id : Text) (w : Walk)
    → mem id (endpoints es) ≡ true
    → measure es (add id w) ≤ measure es w
unfolding measure add
measure-add es id w m = ground (arith, unseen-cons_lt id (endpoints es) w.reached)

pub measure-offer :
    {W : Type 0} (es : List (Edge W)) (ids : List Text) (w : Walk)
    → ((v : Text) → mem v ids ≡ true → mem v (endpoints es) ≡ true)
    → measure es (offer ids w) ≤ measure es w
unfolding offer mem
measure-offer es [] w all = omega arith
measure-offer es (id ∷ ids) w all = omega (
  arith,
  measure-add es id w (all id (mem_self id ids)),
  measure-offer es ids (add id w) (λ v m. all v (mem-cons v id ids m)),
)

pub measure-start :
    {W : Type 0} (es : List (Edge W)) (seed : Text)
    → measure es (record { reached = seed ∷ []; pending = seed ∷ [] }) ≤ 2 * length es + 1
unfolding measure
measure-start es seed =
    omega (arith, unseen-le_length (endpoints es) (seed ∷ []), length-endpoints es)

pub measure-pop :
    {W : Type 0} (es : List (Edge W)) (id : Text) (reached rest : List Text)
    → measure es (record { reached = reached; pending = id ∷ rest })
      ≡ suc (measure es (record { reached = reached; pending = rest }))
unfolding measure
measure-pop es id reached rest = omega arith
