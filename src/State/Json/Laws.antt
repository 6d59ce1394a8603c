-- ===== src/State/Json/Laws.antt =====
-- What is read from a dictionary after it was changed.
use sci_etl_core.Prelude.{Text, none, some, ◌≡◌, refl, text_eq, text_eq_iff, if◌then◌else◌, arith}
use sci_etl_core.State.Json.{Value, Dict, empty, item, get, put, pop}

pub get-put :
    (j k : Text) (v : Value) (d : Dict)
    → get j (put k v d) ≡ (if text_eq k j then some v else get j d)
unfolding get put
get-put j k v empty = refl
get-put j k v (item i w d) =
    ground (arith, text_eq_iff i k, text_eq_iff i j, text_eq_iff k j, get-put j k v d)

pub get-pop : (j k : Text) (d : Dict) → get j (pop k d) ≡ (if text_eq k j then none else get j d)
unfolding get pop
get-pop j k empty = ground arith
get-pop j k (item i w d) =
    ground (arith, text_eq_iff i k, text_eq_iff i j, text_eq_iff k j, get-pop j k d)
