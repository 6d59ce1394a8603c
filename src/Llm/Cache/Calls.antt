-- ===== src/Llm/Cache/Calls.antt =====
-- The calls of an in-memory cache, and the map that they would leave.
use sci_etl_core.Prelude.{
  Text, List, [], ◌∷◌, Option, none, some, text_eq, if◌then◌else◌, ◌≡◌, refl, ap,
}
use sci_etl_core.Llm.Cache.{
  Entries, stored, pop, evict, MemoryCache, Codec, get, set_response, delete, clear,
}
use sci_etl_core.Llm.Cache.Order.{move_to_end-set_item, move_to_end-stored}

-- The calls of a cache.
pub data Call (R : Type 0) : Type 0 where
  read_of : Text → Call R
  write_of : Text → R → Call R
  delete_of : Text → Call R
  clear_of : Call R

module _ {R : Type 0} (codec : Codec R) where
  unfoldable pub call : Call R → MemoryCache → MemoryCache
  unfolding get set_response delete clear
  call (read_of key) c = (get codec key c).1
  call (write_of key r) c = set_response codec key r c
  call (delete_of key) c = delete key c
  call clear_of c = clear c

  unfoldable pub calls : List (Call R) → MemoryCache → MemoryCache
  unfolding call
  calls [] c = c
  calls (op ∷ ops) c = calls ops (call op c)

-- What a map holds after the same calls: the last response written and not removed since.
module _ {R : Type 0} where
  unfoldable pub told : Call R → (Text → Option R) → Text → Option R
  told (read_of k) m key = m key
  told (write_of k r) m key = if text_eq key k then some r else m key
  told (delete_of k) m key = if text_eq key k then none else m key
  told clear_of m key = none

  unfoldable pub all_told : List (Call R) → (Text → Option R) → Text → Option R
  unfolding told
  all_told [] m = m
  all_told (op ∷ ops) m = all_told ops (told op m)

module _ {R : Type 0} (codec : Codec R) where
  pub get-missing :
      (key : Text) (c : MemoryCache) → stored key c.entries ≡ none → get codec key c ≡ (none, c)
  unfolding get
  get-missing key c h = rw (get, h) refl

  pub get-stored :
      (key v : Text) (c : MemoryCache)
      → stored key c.entries ≡ some v
      → get codec key c
        ≡ (some (codec.loads v), record c { entries = (key, v) ∷ pop key c.entries })
  unfolding get
  get-stored key v c h =
      rw (get, h)
        (ap (λ (es : Entries). (some (codec.loads v), record c { entries = es }))
          (move_to_end-stored key v c.entries h))

  pub set_response-entries :
      (key : Text) (r : R) (c : MemoryCache)
      → set_response codec key r c
        ≡ record c { entries = evict c.max_entries ((key, codec.dumps r) ∷ pop key c.entries) }
  unfolding set_response
  set_response-entries key r c =
      ap (λ (es : Entries). record c { entries = evict c.max_entries es })
        (move_to_end-set_item key (codec.dumps r) c.entries)
