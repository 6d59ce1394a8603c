-- ===== src/Llm/Cache.antt =====
-- `InMemoryLLMResponseCache` and `CachingLLMClient` of llm/cache_async.py. `json.dumps` and `json.loads`
-- are parameters, as are the answers of the wrapped client and the cache behind a caching client.
pub mod Order
pub mod Calls
pub mod Recent
pub mod Ages
pub mod Served
pub mod Memory
pub mod Tests
use sci_etl_core.Prelude.{
  ℕ, zero, suc, ◌+◌, Text, Bool, true, false, List, [], ◌∷◌, ◌++◌, Option, none, some, ltb, leb,
  length, text_eq, if◌then◌else◌,
}

-- An `OrderedDict`, its end first: the response used last stands at the head.
abbrev pub Entries : Type 0
Entries = List (Text × Text)

unfoldable pub stored : Text → Entries → Option Text
stored key [] = none
stored key ((k, v) ∷ es) = if text_eq key k then some v else stored key es

-- `entries.pop(key, None)`.
unfoldable pub pop : Text → Entries → Entries
pop key [] = []
pop key ((k, v) ∷ es) = let rest = pop key es in if text_eq key k then rest else (k, v) ∷ rest

unfoldable pub has_key : Text → Entries → Bool
has_key key [] = false
has_key key ((k, v) ∷ es) = if text_eq key k then true else has_key key es

unfoldable pub put_in_place : Text → Text → Entries → Entries
put_in_place key v [] = []
put_in_place key v ((k, v') ∷ es) =
    if text_eq key k then (k, v) ∷ es else (k, v') ∷ put_in_place key v es

-- `entries[key] = v`: a new key stands at the end.
unfoldable pub set_item : Text → Text → Entries → Entries
unfolding has_key put_in_place
set_item key v es = if has_key key es then put_in_place key v es else (key, v) ∷ es

-- `entries.move_to_end(key)`, of a key that has a value.
unfoldable pub move_to_end : Text → Entries → Entries
unfolding stored pop
move_to_end key es = elim (stored key es) [ none ↦ es | some v ↦ (key, v) ∷ pop key es ]

-- `entries.popitem(last=False)`.
unfoldable pub pop_oldest : Entries → Entries
pop_oldest [] = []
pop_oldest (e ∷ []) = []
pop_oldest (e ∷ e' ∷ es) = e ∷ pop_oldest (e' ∷ es)

unfoldable pub evict : Option ℕ → Entries → Entries
unfolding pop_oldest
evict none es = es
evict (some max_entries) es = if ltb max_entries (length es) then pop_oldest es else es

pub record MemoryCache : Type 0 where
  pub max_entries : Option ℕ
  pub entries : Entries

-- `none` is a ValueError.
unfoldable pub new_cache : Option ℕ → Option MemoryCache
new_cache none = some (record { max_entries = none; entries = [] })
new_cache (some n) = if ltb n 1 then none else some (record { max_entries = some n; entries = [] })

pub record Codec (R : Type 0) : Type 0 where
  pub dumps : R → Text
  pub loads : Text → R

module _ {R : Type 0} (codec : Codec R) where
  unfoldable pub get : Text → MemoryCache → Option R × MemoryCache
  unfolding stored move_to_end
  get key c = elim (stored key c.entries) [
    | none ↦ (none, c)
    | some v ↦ (some (codec.loads v), record c { entries = move_to_end key c.entries })
  ]

  unfoldable pub set_response : Text → R → MemoryCache → MemoryCache
  unfolding set_item move_to_end evict
  set_response key response c = record c {
    entries = evict c.max_entries (move_to_end key (set_item key (codec.dumps response) c.entries));
  }

unfoldable pub delete : Text → MemoryCache → MemoryCache
unfolding pop
delete key c = record c { entries = pop key c.entries }

unfoldable pub clear : MemoryCache → MemoryCache
clear c = record c { entries = [] }

unfoldable pub cache_len : MemoryCache → ℕ
cache_len c = length c.entries

-- `AsyncLLMResponseCache` as its client meets it: `none` and `false` are an exception other than a
-- cancellation.
pub record ResponseCache (S R : Type 0) : Type 0 where
  pub read : Text → S → Option (Option R) × S
  pub write : Text → R → S → Bool × S
  pub remove : Text → S → Bool × S

pub record CacheStats : Type 0 where
  pub hits : ℕ
  pub misses : ℕ
  pub faults : ℕ

-- `requests` are the keys for which the wrapped client was asked, `invalidated` those of which it was
-- told, the last one first in both.
pub record Client (S : Type 0) : Type 0 where
  pub cache : S
  pub stats : CacheStats
  pub requests : List Text
  pub invalidated : List Text

pub data Reply (E R : Type 0) : Type 0 where
  raised : E → Reply E R
  answered : R → Reply E R

unfoldable pub count_fault : Bool → CacheStats → CacheStats
count_fault true stats = stats
count_fault false stats = record stats { faults = stats.faults + 1 }

module _ {S R : Type 0} (ops : ResponseCache S R) where
  -- What a read found, and the client after it: a cache that fails has nothing.
  unfoldable pub after_read : Client S → Option (Option R) × S → Option R × Client S
  unfolding count_fault
  after_read c (none, s) = (none, record c { cache = s; stats = count_fault false c.stats })
  after_read c (some found, s) = (found, record c { cache = s })

  -- `_cached`.
  unfoldable pub cached : Text → Client S → Option R × Client S
  unfolding after_read
  cached key c = after_read c (ops.read key c.cache)

  unfoldable pub after_write : Client S → Bool × S → Client S
  unfolding count_fault
  after_write c (ok, s) = record c { cache = s; stats = count_fault ok c.stats }

  module _ {E : Type 0} where
    -- A call that failed is not cached.
    unfoldable pub keep : Text → Reply E R → Client S → Client S
    unfolding after_write
    keep key (raised e) c = c
    keep key (answered r) c = after_write c (ops.write key r c.cache)

    -- The rest of `_complete`, after the look in the cache.
    unfoldable pub settle : Text → Reply E R → Option R × Client S → Reply E R × Client S
    unfolding keep
    settle key reply (some r, c) =
        (answered r, record c { stats = record c.stats { hits = c.stats.hits + 1 } })
    settle key reply (none, c) = (
      reply,
      keep key reply (record c {
        stats = record c.stats { misses = c.stats.misses + 1 };
        requests = key ∷ c.requests;
      }),
    )

    -- `_complete`, where the wrapped client would reply `reply`.
    unfoldable pub complete : Text → Reply E R → Client S → Reply E R × Client S
    unfolding cached settle
    complete key reply c = settle key reply (cached key c)

  unfoldable pub invalidate : Text → Client S → Client S
  unfolding after_write
  invalidate key c =
      let c' = after_write c (ops.remove key c.cache) in
      record c' { invalidated = key ∷ c'.invalidated }

unfoldable pub new_client : {S : Type 0} → S → Client S
new_client s = record {
  cache = s;
  stats = record { hits = 0; misses = 0; faults = 0 };
  requests = [];
  invalidated = [];
}
