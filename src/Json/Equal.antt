-- ===== src/Json/Equal.antt =====
-- Python's `==` on JSON values: Booleans are numbers, and a dict's order does not count.
use murano_temp.Base.{Bool, List, [], false, none, some, suc, true, ℕ, ◌&&◌, ◌==◌, ◌||◌, ◌∷◌}
use murano_temp.Base.Num.{negsuc, pos, ℤ}
use murano_temp.Json.{boolean, cons, dict, end, field, int, is_text, list, nil, null, str}
use murano_temp.Json.Data.{Fields, Items, Value, lookup}

unfoldable pub same_ℤ : ℤ → ℤ → Bool
same_ℤ (ℤ.pos n) (ℤ.pos m) = murano_temp.Base.Num.◌==◌ n m
same_ℤ (ℤ.negsuc n) (ℤ.negsuc m) = murano_temp.Base.Num.◌==◌ n m
same_ℤ _ _ = false

bool_ℤ : Bool → ℤ
bool_ℤ true = ℤ.pos 1
bool_ℤ false = ℤ.pos 0

is_number : ℤ → Value → Bool
is_number n (int m) = same_ℤ n m
is_number n (boolean b) = same_ℤ n (bool_ℤ b)
is_number n _ = false

is_null : Value → Bool
is_null null = true
is_null _ = false

size_of : Fields → ℕ
size_of end = 0
size_of (field k v fs) = suc (size_of fs)

unfoldable mutual
  unfolding is_number is_null size_of same_ℤ bool_ℤ

  pub equal : Value → Value → Bool
  equal null w = is_null w
  equal (boolean b) w = is_number (bool_ℤ b) w
  equal (int n) w = is_number n w
  equal (str s) w = is_text w s
  equal (list xs) w = elim w [ list ys ↦ equal_items xs ys | _ ↦ false ]
  equal (dict fs) w = elim w [
    | dict gs ↦ murano_temp.Base.Num.◌==◌ (size_of fs) (size_of gs) && equal_fields fs gs
    | _ ↦ false
  ]

  pub equal_items : Items → Items → Bool
  equal_items nil nil = true
  equal_items nil (cons y ys) = false
  equal_items (cons x xs) nil = false
  equal_items (cons x xs) (cons y ys) = equal x y && equal_items xs ys

  -- Every entry is in the other dict too.
  pub equal_fields : Fields → Fields → Bool
  equal_fields end gs = true
  equal_fields (field k v fs) gs = elim (lookup k gs) [
    | none ↦ false
    | some w ↦ equal v w && equal_fields fs gs
  ]

-- `value in values`
unfoldable pub among : Value → List Value → Bool
among v [] = false
among v (w ∷ ws) = equal w v || among v ws
