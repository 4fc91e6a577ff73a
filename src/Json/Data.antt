-- ===== src/Json/Data.antt =====
-- The values, and a dict's entries as an association list in insertion order.
use murano_temp.Base.{String, ◌==◌, Bool, Option, none, some, if◌then◌else◌}
use murano_temp.Base.Num.{ℤ}

mutual
  pub data Value : Type 0 where
    null : Value
    boolean : Bool → Value
    int : ℤ → Value
    str : String → Value
    list : Items → Value
    dict : Fields → Value

  pub data Items : Type 0 where
    nil : Items
    cons : Value → Items → Items

  pub data Fields : Type 0 where
    end : Fields
    field : String → Value → Fields → Fields

unfoldable pub lookup : String → Fields → Option Value
lookup k end = none
lookup k (field j v fs) = if j == k then some v else lookup k fs

-- A key that is there keeps its place, a new one comes last.
unfoldable pub set_key : String → Value → Fields → Fields
set_key k x end = field k x end
set_key k x (field j v fs) = if j == k then field j x fs else field j v (set_key k x fs)

unfoldable pub del_key : String → Fields → Fields
del_key k end = end
del_key k (field j v fs) = let rest = del_key k fs in if j == k then rest else field j v rest
