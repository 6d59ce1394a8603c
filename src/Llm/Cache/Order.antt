-- ===== src/Llm/Cache/Order.antt =====
-- The entries of an in-memory cache as its calls change them.
use sci_etl_core.Prelude.{
  ℕ, ◌+◌, ◌-◌, ◌≤◌, Text, Bool, true, false, [], ◌∷◌, Option, none, some, leb, length, text_eq,
  text_eq_iff, text_eq_refl, ◌≡◌, refl, ap, ◌∙◌, arith, Bool-cases, inl, inr, not, ◌&&◌,
}
use sci_etl_core.Llm.Cache.{
  Entries, stored, pop, has_key, put_in_place, set_item, move_to_end, pop_oldest, evict,
}

-- No key stands twice.
unfoldable pub distinct : Entries → Bool
unfolding has_key
distinct [] = true
distinct ((k, v) ∷ es) = not (has_key k es) && distinct es

pub stored-pop_self : (key : Text) (es : Entries) → stored key (pop key es) ≡ none
unfolding stored pop
stored-pop_self key [] = refl
stored-pop_self key ((k, v) ∷ es) = ground (arith, stored-pop_self key es)

pub stored-pop_other :
    (key k : Text) (es : Entries) → text_eq key k ≡ false → stored key (pop k es) ≡ stored key es
unfolding stored pop
stored-pop_other key k [] h = refl
stored-pop_other key k ((k', v) ∷ es) h =
    ground
      (arith, stored-pop_other key k es h, text_eq_iff key k, text_eq_iff k k', text_eq_iff key k')

pub has_key-pop :
    (key k : Text) (es : Entries) → has_key key (pop k es) ≡ true → has_key key es ≡ true
unfolding has_key pop
has_key-pop key k [] h = h
has_key-pop key k ((k', v) ∷ es) h = ground (arith, has_key-pop key k es)

pub has_key-pop_self : (key : Text) (es : Entries) → has_key key (pop key es) ≡ false
unfolding has_key pop
has_key-pop_self key [] = refl
has_key-pop_self key ((k, v) ∷ es) = ground (arith, has_key-pop_self key es)

pub distinct-pop : (key : Text) (es : Entries) → distinct es ≡ true → distinct (pop key es) ≡ true
unfolding distinct pop
distinct-pop key [] h = h
distinct-pop key ((k, v) ∷ es) h = ground (arith, distinct-pop key es, has_key-pop k key es)

pub length-pop : (key : Text) (es : Entries) → length (pop key es) ≤ length es
unfolding pop
length-pop key [] = omega arith
length-pop key ((k, v) ∷ es) = ground (arith, length-pop key es)

-- A key that stands somewhere makes room for itself when it is taken out.
pub length-pop_has :
    (key : Text) (es : Entries) → has_key key es ≡ true → length (pop key es) + 1 ≤ length es
unfolding pop has_key
length-pop_has key [] h = ground arith
length-pop_has key ((k, v) ∷ es) h = ground (arith, length-pop_has key es, length-pop key es)

pub stored-put_in_place :
    (key v : Text) (es : Entries)
    → has_key key es ≡ true
    → stored key (put_in_place key v es) ≡ some v
unfolding stored has_key put_in_place
stored-put_in_place key v [] h = ground arith
stored-put_in_place key v ((k, w) ∷ es) h = ground (arith, stored-put_in_place key v es, h)

pub pop-put_in_place : (key v : Text) (es : Entries) → pop key (put_in_place key v es) ≡ pop key es
unfolding pop put_in_place
pop-put_in_place key v [] = refl
pop-put_in_place key v ((k, w) ∷ es) = ground (arith, pop-put_in_place key v es)

pub pop-missing : (key : Text) (es : Entries) → has_key key es ≡ false → pop key es ≡ es
unfolding pop has_key
pop-missing key [] h = refl
pop-missing key ((k, v) ∷ es) h = ground (arith, pop-missing key es, h)

pub pop-head : (key v : Text) (es : Entries) → pop key ((key, v) ∷ es) ≡ pop key es
unfolding pop
pop-head key v es = rw (text_eq_refl key) refl

pub stored-head : (key v : Text) (es : Entries) → stored key ((key, v) ∷ es) ≡ some v
unfolding stored
stored-head key v es = rw (text_eq_refl key) refl

pub move_to_end-stored :
    (key v : Text) (es : Entries)
    → stored key es ≡ some v
    → move_to_end key es ≡ (key, v) ∷ pop key es
unfolding move_to_end
move_to_end-stored key v es h = rw (move_to_end, h) refl

-- `entries[key] = v` and `move_to_end`: the response stands at the end, once.
pub move_to_end-set_item :
    (key v : Text) (es : Entries) → move_to_end key (set_item key v es) ≡ (key, v) ∷ pop key es
unfolding set_item
move_to_end-set_item key v es = elim (Bool-cases (has_key key es)) [
  | inl h ↦ rw h (
      move_to_end-stored key v (put_in_place key v es) (stored-put_in_place key v es h)
      ∙ ap (◌∷◌ (key, v)) (pop-put_in_place key v es))
  | inr h ↦ rw h (
      move_to_end-stored key v ((key, v) ∷ es) (stored-head key v es)
      ∙ ap (◌∷◌ (key, v)) (pop-head key v es))
]

pub stored-pop_oldest :
    (key v : Text) (es : Entries) → stored key (pop_oldest es) ≡ some v → stored key es ≡ some v
unfolding stored pop_oldest
stored-pop_oldest key v [] h = h
stored-pop_oldest key v (e ∷ []) h = ground arith
stored-pop_oldest key v ((k, w) ∷ e' ∷ es) h = ground (arith, stored-pop_oldest key v (e' ∷ es), h)

pub has_key-pop_oldest :
    (key : Text) (es : Entries) → has_key key (pop_oldest es) ≡ true → has_key key es ≡ true
unfolding has_key pop_oldest
has_key-pop_oldest key [] h = h
has_key-pop_oldest key (e ∷ []) h = ground arith
has_key-pop_oldest key ((k, w) ∷ e' ∷ es) h = ground (arith, has_key-pop_oldest key (e' ∷ es), h)

pub distinct-pop_oldest : (es : Entries) → distinct es ≡ true → distinct (pop_oldest es) ≡ true
unfolding distinct pop_oldest
distinct-pop_oldest [] h = h
distinct-pop_oldest (e ∷ []) h = refl
distinct-pop_oldest ((k, w) ∷ e' ∷ es) h =
    ground (arith, distinct-pop_oldest (e' ∷ es), has_key-pop_oldest k (e' ∷ es), h)

pub length-pop_oldest : (es : Entries) → length (pop_oldest es) ≡ length es - 1
unfolding pop_oldest
length-pop_oldest [] = omega arith
length-pop_oldest (e ∷ []) = omega arith
length-pop_oldest (e ∷ e' ∷ es) = omega (arith, length-pop_oldest (e' ∷ es))

-- No more entries than the bound.
unfoldable pub fits : Option ℕ → Entries → Bool
fits none es = true
fits (some n) es = leb (length es) n

pub fits-shorter :
    (n : Option ℕ) (es es' : Entries)
    → length es' ≤ length es
    → fits n es ≡ true
    → fits n es' ≡ true
unfolding fits
fits-shorter none es es' h f = refl
fits-shorter (some n) es es' h f = ground (arith, h, f)

-- The dict after its key was put at the end.
pub stored-front_self :
    (k key v : Text) (es : Entries)
    → text_eq k key ≡ true
    → stored k ((key, v) ∷ pop key es) ≡ some v
unfolding stored
stored-front_self k key v es h = rw h refl

pub stored-front_other :
    (k key v : Text) (es : Entries)
    → text_eq k key ≡ false
    → stored k ((key, v) ∷ pop key es) ≡ stored k es
unfolding stored
stored-front_other k key v es h = rw h (stored-pop_other k key es h)

pub distinct-front :
    (key v : Text) (es : Entries) → distinct es ≡ true → distinct ((key, v) ∷ pop key es) ≡ true
unfolding distinct
distinct-front key v es h = rw (has_key-pop_self key es) (distinct-pop key es h)

pub stored-has_key : (key v : Text) (es : Entries) → stored key es ≡ some v → has_key key es ≡ true
unfolding stored has_key
stored-has_key key v [] h = ground arith
stored-has_key key v ((k, w) ∷ es) h = ground (arith, stored-has_key key v es, h)

pub length-front :
    (key v w : Text) (es : Entries)
    → stored key es ≡ some w
    → length ((key, v) ∷ pop key es) ≤ length es
length-front key v w es h = omega (arith, length-pop_has key es (stored-has_key key w es h))

pub fits-evict :
    (n : Option ℕ) (e : Text × Text) (es es' : Entries)
    → fits n es ≡ true
    → length es' ≤ length es
    → fits n (evict n (e ∷ es')) ≡ true
unfolding fits evict
fits-evict none e es es' f h = refl
fits-evict (some n) e es es' f h = ground (arith, f, h, length-pop_oldest (e ∷ es'))

pub stored-evict :
    (n : Option ℕ) (key v : Text) (es : Entries)
    → stored key (evict n es) ≡ some v
    → stored key es ≡ some v
unfolding evict
stored-evict none key v es h = h
stored-evict (some n) key v es h = ground (arith, h, stored-pop_oldest key v es)

pub distinct-evict :
    (n : Option ℕ) (es : Entries) → distinct es ≡ true → distinct (evict n es) ≡ true
unfolding evict
distinct-evict none es h = h
distinct-evict (some n) es h = ground (arith, h, distinct-pop_oldest es)
