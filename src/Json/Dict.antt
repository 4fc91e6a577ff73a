-- ===== src/Json/Dict.antt =====
-- What reads of a dict see after a write.
use murano_temp.Base.{String, ◌==◌, eq_iff, eq_refl, ◌≡◌, refl, none, some, arith, if◌then◌else◌}
use murano_temp.Json.Data.{Value, Fields, end, field, lookup, set_key, del_key}

pub lookup-set_key :
    (k j : String) (x : Value) (fs : Fields)
    → lookup j (set_key k x fs) ≡ (if k == j then some x else lookup j fs)
unfolding lookup set_key
lookup-set_key k j x end = refl
lookup-set_key k j x (field i v fs) =
    ground (arith, eq_iff k j, eq_iff i k, eq_iff i j, lookup-set_key k j x fs)

pub lookup-del_key :
    (k j : String) (fs : Fields) → lookup j (del_key k fs) ≡ (if k == j then none else lookup j fs)
unfolding lookup del_key
lookup-del_key k j end = ground arith
lookup-del_key k j (field i v fs) =
    ground (arith, eq_iff k j, eq_iff i k, eq_iff i j, lookup-del_key k j fs)

pub lookup-set_key_self :
    (k : String) (x : Value) (fs : Fields) → lookup k (set_key k x fs) ≡ some x
lookup-set_key_self k x fs = simp (lookup-set_key, eq_refl)
