-- ===== src/Llm/Cache/Tests.antt =====
-- A bounded cache over a short run of calls, and a client over it.
use sci_etl_core.Prelude.{Text, codes, text_eq, List, [], ◌∷◌, none, some, ◌≡◌, refl}
use sci_etl_core.Llm.Cache.{MemoryCache, new_cache, Codec, get, set_response, raised, answered}
use sci_etl_core.Llm.Cache.Calls.{Call, read_of, write_of, calls, all_told}
use sci_etl_core.Llm.Cache.Recent.{IsFaithful, calls-IsFaithful}
use sci_etl_core.Llm.Cache.Ages.{get-calls, lasts, all_spare}
use sci_etl_core.Llm.Cache.Served.{Event, completion, invalidation, history}
use sci_etl_core.Llm.Cache.Memory.{memory_ops}

-- Responses whose JSON is the text itself.
abbrev codec : Codec Text
codec = record { dumps = λ t. t; loads = λ t. t }

abbrev a : Text
a = codes "a"

abbrev b : Text
b = codes "b"

abbrev c : Text
c = codes "c"

abbrev two : MemoryCache
two = record { max_entries = some 2; entries = [] }

-- The read of `a` makes `b` the entry that a third key evicts.
abbrev run : List (Call Text)
run = write_of a c ∷ write_of b c ∷ read_of a ∷ write_of c c ∷ []

evicted : (get codec b (calls codec run two)).0 ≡ none
unfolding get calls text_eq
evicted = refl

kept : (get codec a (calls codec run two)).0 ≡ some c
unfolding get calls text_eq
kept = refl

calls-IsFaithful_example : IsFaithful codec (calls codec run two) (all_told run (λ _. none))
calls-IsFaithful_example =
    calls-IsFaithful codec (λ r. refl) (some 2) two (unfold new_cache in refl) run

get-calls_example :
    (get codec a (calls codec (write_of b c ∷ []) (set_response codec a c two))).0 ≡ some c
get-calls_example =
    get-calls codec (λ r. refl) a c (write_of b c ∷ []) two (unfold lasts in refl)
      (unfold all_spare text_eq in refl)

-- A hit, a call that fails, and an answer taken back.
abbrev events : List (Event Text Text)
events =
    completion a (answered c)
    ∷ completion a (answered b)
    ∷ completion b (raised c)
    ∷ invalidation a
    ∷ completion a (answered b)
    ∷ []

events_requests : (history (memory_ops codec) two events).client.requests ≡ a ∷ b ∷ a ∷ []
unfolding history memory_ops text_eq
events_requests = refl
