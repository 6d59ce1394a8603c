-- ===== src/State/Files/Tracked.antt =====
-- What a state manager tracks, without the files: the processed ids, the failed attempts with the
-- last error, and the metadata. The laws tie the attempts to the dictionary that holds them.
use sci_etl_core.Prelude.{
  ℕ, ◌+◌, ◌≡◌, ◌<◌, refl, ap, ◌∙◌, Text, text_eq, text_eq_iff, mem, false, not, List, [], ◌∷◌, ◌++◌,
  map, Option, some, ◌==◌, if◌then◌else◌, Bool-cases, inl, inr, arith,
}
use sci_etl_core.Models.{PipelineMetadata}
use sci_etl_core.State.Json.{Dict, empty, item, get, put, pop, keys}
use sci_etl_core.State.Lines.{strip, is_empty, is_one_line}
use sci_etl_core.State.Lines.RoundTrip.{without}
use sci_etl_core.State.Files.{
  entry, attempts_in, attempts_of, count, pop_all, live, counts, bounded_error_text, nonempty,
  offset, meets,
}

abbrev pub Attempts : Type 0
Attempts = List (Text × ℕ × Text)

pub record Tracked : Type 0 where
  pub ids : List Text
  pub attempts : Attempts
  pub stamp : Option Text
  pub metadata : PipelineMetadata

pub data Operation : Type 0 where
  mark : Text → Operation
  fail : Text → Text → Operation
  forget_ids : List Text → Operation
  save : Text → PipelineMetadata → Operation
  restart : Operation

unfoldable pub bump : Text → Text → Attempts → Attempts
bump id error [] = (id, 1, bounded_error_text error) ∷ []
bump id error ((k, n, e) ∷ as') =
    if text_eq k id
    then (k, n + 1, bounded_error_text error) ∷ as'
    else (k, n, e) ∷ bump id error as'

unfoldable pub clear : Text → Attempts → Attempts
clear id [] = []
clear id (a ∷ as') = let rest = clear id as' in if text_eq a.0 id then rest else a ∷ rest

unfoldable pub clear_all : List Text → Attempts → Attempts
clear_all [] as' = as'
clear_all (id ∷ ids) as' = clear_all ids (clear id as')

unfoldable pub tried : Text → Attempts → ℕ
tried id [] = 0
tried id ((k, n, e) ∷ as') = if text_eq k id then n else tried id as'

unfoldable pub track : Operation → Tracked → Tracked
unfolding strip is_empty is_one_line bump clear clear_all without nonempty
track (mark id) t =
    if is_empty (strip id)
    then t
    else if not (text_eq (strip id) id)
    then t
    else if not (is_one_line id)
    then t
    else record t { ids = t.ids ++ id ∷ []; attempts = clear id t.attempts }
track (fail id error) t =
    if is_empty id then t else record t { attempts = bump id error t.attempts }
track (forget_ids ids) t = record t {
  ids = without (nonempty ids) t.ids;
  attempts = clear_all (nonempty ids) t.attempts;
}
track (save stamp m) t = record t { stamp = some stamp; metadata = m }
track restart t = t

abbrev pub encode : Attempts → Dict
encode [] = empty
encode ((k, n, e) ∷ as') = item k (entry n e) (encode as')

abbrev pub AllPositive : Attempts → Type 0
AllPositive [] = Unit
AllPositive ((k, n, e) ∷ as') = (0 < n) × AllPositive as'

abbrev pub tried_ids : Attempts → List Text
tried_ids [] = []
tried_ids (a ∷ as') = a.0 ∷ tried_ids as'

pub keys-encode : (as' : Attempts) → keys (encode as') ≡ tried_ids as'
keys-encode [] = refl
keys-encode (a ∷ as') = ap (λ r. a.0 ∷ r) (keys-encode as')

pub counts-encode : (as' : Attempts) → counts (encode as') ≡ map (λ a. (a.0, a.1)) as'
unfolding counts attempts_in entry get text_eq offset
counts-encode [] = refl
counts-encode (a ∷ as') = ap (λ r. (a.0, a.1) ∷ r) (counts-encode as')

pub live-encode : (as' : Attempts) → AllPositive as' → live (encode as') ≡ encode as'
unfolding live attempts_in entry get text_eq offset
live-encode [] h = refl
live-encode ((k, n, e) ∷ as') h =
    let z : (n == 0) ≡ false = ground (arith, h.0) in rw (z, live-encode as' h.1) refl

tried-cons :
    (id k e : Text) (n : ℕ) (as' : Attempts)
    → tried id ((k, n, e) ∷ as') ≡ (if text_eq k id then n else tried id as')
unfolding tried
tried-cons id k e n as' = refl

attempts_of-item :
    (id k e : Text) (n : ℕ) (d : Dict)
    → attempts_of id (item k (entry n e) d) ≡ (if text_eq k id then n else attempts_of id d)
unfolding attempts_of get attempts_in entry offset text_eq
attempts_of-item id k e n d = ground arith

pub attempts_of-encode : (id : Text) (as' : Attempts) → attempts_of id (encode as') ≡ tried id as'
unfolding tried
attempts_of-encode id [] = unfold attempts_of get in refl
attempts_of-encode id ((k, n, e) ∷ as') =
    attempts_of-item id k e n (encode as')
    ∙ ap (λ r. if text_eq k id then n else r) (attempts_of-encode id as')

pub pop-encode : (id : Text) (as' : Attempts) → pop id (encode as') ≡ encode (clear id as')
unfolding pop clear
pop-encode id [] = refl
pop-encode id (a ∷ as') = elim (Bool-cases (text_eq a.0 id)) [
  | inl h ↦ rw h (pop-encode id as')
  | inr h ↦ rw (h, pop-encode id as') refl
]

pub pop_all-encode :
    (ids : List Text) (as' : Attempts) → pop_all ids (encode as') ≡ encode (clear_all ids as')
unfolding pop_all clear_all
pop_all-encode [] as' = refl
pop_all-encode (id ∷ ids) as' =
    ap (pop_all ids) (pop-encode id as') ∙ pop_all-encode ids (clear id as')

put-encode :
    (id error : Text) (as' : Attempts) (n' : ℕ)
    → n' ≡ tried id as' + 1
    → put id (entry n' (bounded_error_text error)) (encode as') ≡ encode (bump id error as')
unfolding put bump
put-encode id error [] n' h = let one : n' ≡ 1 = unfold tried in h in rw one refl
put-encode id error ((k, n, e) ∷ as') n' h = elim (Bool-cases (text_eq k id)) [
  | inl z ↦
      let next : n' ≡ n + 1 = h ∙ ap (λ r. r + 1) (tried-cons id k e n as' ∙ rw z refl) in
      rw (z, next) refl
  | inr z ↦
      let same : n' ≡ tried id as' + 1 =
        h ∙ ap (λ r. r + 1) (tried-cons id k e n as' ∙ rw z refl) in
      rw z (ap (item k (entry n e)) (put-encode id error as' n' same))
]

pub count-encode :
    (id error : Text) (as' : Attempts) → count id error (encode as') ≡ encode (bump id error as')
unfolding count
count-encode id error as' = put-encode id error as' _ (ap (λ r. r + 1) (attempts_of-encode id as'))

pub bump-AllPositive :
    (id error : Text) (as' : Attempts) → AllPositive as' → AllPositive (bump id error as')
unfolding bump
bump-AllPositive id error [] h = (omega arith, tt)
bump-AllPositive id error ((k, n, e) ∷ as') h = elim (Bool-cases (text_eq k id)) [
  | inl z ↦ rw z (omega arith, h.1)
  | inr z ↦ rw z (h.0, bump-AllPositive id error as' h.1)
]

pub clear-AllPositive : (id : Text) (as' : Attempts) → AllPositive as' → AllPositive (clear id as')
unfolding clear
clear-AllPositive id [] h = tt
clear-AllPositive id (a ∷ as') h = elim (Bool-cases (text_eq a.0 id)) [
  | inl z ↦ rw z (clear-AllPositive id as' h.1)
  | inr z ↦ rw z (h.0, clear-AllPositive id as' h.1)
]

pub clear_all-AllPositive :
    (ids : List Text) (as' : Attempts) → AllPositive as' → AllPositive (clear_all ids as')
unfolding clear_all
clear_all-AllPositive [] as' h = h
clear_all-AllPositive (id ∷ ids) as' h =
    clear_all-AllPositive ids (clear id as') (clear-AllPositive id as' h)

-- Nothing to clear where no attempt of the id failed.
pub clear_untried :
    (id : Text) (as' : Attempts) → mem id (tried_ids as') ≡ false → clear id as' ≡ as'
unfolding clear mem
clear_untried id [] h = refl
clear_untried id (a ∷ as') h =
    let other : text_eq a.0 id ≡ false = ground (arith, text_eq_iff a.0 id, text_eq_iff id a.0) in
    rw (other, clear_untried id as' (ground arith)) refl

pub clear_all_untried :
    (ids : List Text) (as' : Attempts) → meets ids (tried_ids as') ≡ false → clear_all ids as' ≡ as'
unfolding clear_all meets
clear_all_untried [] as' h = refl
clear_all_untried (id ∷ ids) as' h =
    let same = clear_untried id as' (ground (arith, h)) in
    ap (clear_all ids) same ∙ clear_all_untried ids as' (ground (arith, h))
