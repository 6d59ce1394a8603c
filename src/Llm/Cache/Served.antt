-- ===== src/Llm/Cache/Served.antt =====
-- A caching client over any cache that serves nothing it was not given.
use sci_etl_core.Prelude.{
  ℕ, ◌+◌, Text, true, List, [], ◌∷◌, Option, none, some, length, text_eq, if◌then◌else◌, ◌≡◌, ◌⊎◌,
}
use sci_etl_core.Llm.Cache.{
  ResponseCache, Client, Reply, raised, answered, cached, complete, invalidate, new_client,
}

-- What a client relies on: `Held s key r` says that `s` may answer `r` for `key`.
pub record IsCache {S R : Type 0} (ops : ResponseCache S R) : Type 1 where
  pub Held : S → Text → R → Type 0
  pub read-Held : (key : Text) (r : R) (s : S) → (ops.read key s).0 ≡ some (some r) → Held s key r
  pub Held-read : (k key : Text) (r : R) (s : S) → Held (ops.read key s).1 k r → Held s k r
  pub Held-write :
      (k key : Text) (x r : R) (s : S)
      → Held (ops.write key r s).1 k x
      → Held s k x ⊎ (k ≡ key) × (x ≡ r)
  pub Held-remove : (k key : Text) (r : R) (s : S) → Held (ops.remove key s).1 k r → Held s k r
  pub removed :
      (key : Text) (r : R) (s : S) → (ops.remove key s).0 ≡ true → ¬ Held (ops.remove key s).1 key r

pub data Event (E R : Type 0) : Type 0 where
  completion : Text → Reply E R → Event E R
  invalidation : Text → Event E R

-- A client with the number of its completions and the answers that its wrapped client gave and that
-- no invalidation has taken back since.
pub record History (S R : Type 0) : Type 0 where
  pub client : Client S
  pub completions : ℕ
  pub given : List (Text × R)

module _ {R : Type 0} where
  unfoldable pub without : Text → List (Text × R) → List (Text × R)
  without key [] = []
  without key ((k, r) ∷ g) =
      let rest = without key g in if text_eq k key then rest else (k, r) ∷ rest

  -- The wrapped client is asked where the cache had nothing.
  unfoldable pub supply :
      {E : Type 0} → Option R → Text → Reply E R → List (Text × R) → List (Text × R)
  supply (some found) key reply g = g
  supply none key (raised e) g = g
  supply none key (answered r) g = (key, r) ∷ g

  unfoldable pub Given : Text → R → List (Text × R) → Type 0
  Given key r [] = ⊥
  Given key r ((k, x) ∷ g) = (key ≡ k) × (r ≡ x) ⊎ Given key r g

module _ {S E R : Type 0} (ops : ResponseCache S R) where
  unfoldable pub happen : Event E R → History S R → History S R
  unfolding complete cached invalidate supply without
  happen (completion key reply) h = record {
    client = (complete ops key reply h.client).1;
    completions = h.completions + 1;
    given = supply (cached ops key h.client).0 key reply h.given;
  }
  happen (invalidation key) h = record h {
    client = invalidate ops key h.client;
    given = if (ops.remove key h.client.cache).0 then without key h.given else h.given;
  }

  unfoldable pub happen_all : List (Event E R) → History S R → History S R
  unfolding happen
  happen_all [] h = h
  happen_all (e ∷ es) h = happen_all es (happen e h)

  unfoldable pub history : S → List (Event E R) → History S R
  unfolding new_client happen_all
  history s es = happen_all es (record { client = new_client s; completions = 0; given = [] })

-- Every completion counted as a hit or as a miss, a request for each miss, and no answer but one
-- that the wrapped client gives now or gave for the same key.
unfoldable pub IsServed : {S R : Type 0} → ResponseCache S R → (E : Type 0) → History S R → Type 0
IsServed {R = R} ops E h =
    let c = h.client in
    (c.stats.hits + c.stats.misses ≡ h.completions)
    × (length c.requests ≡ c.stats.misses)
    × ((key : Text) (reply : Reply E R) (r : R)
        → (complete ops key reply c).0 ≡ answered r
        → Given key r (supply (cached ops key c).0 key reply h.given))

module _ {S R : Type 0} (ops : ResponseCache S R) (cache : IsCache ops) where
  record IsTrue (n : ℕ) (c : Client S) (given : List (Text × R)) : Type 0 where
    counted : c.stats.hits + c.stats.misses ≡ n
    asked : length c.requests ≡ c.stats.misses
    honest : (k : Text) (r : R) → cache.Held c.cache k r → Given k r given
