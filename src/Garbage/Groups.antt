-- ===== src/Garbage/Groups.antt =====
-- The grouping by index in `ObjectStore._destroy_garbage` (murano/dsl/object_store.py): `order` is a
-- dict of lists, and its keys are sorted.
use murano_temp.Base.{List, [], if◌then◌else◌, ℕ, ◌++◌, ◌∷◌}
use murano_temp.Base.Num.{ltb, ◌==◌}

unfoldable pub insert_key : ℕ → List ℕ → List ℕ
insert_key k [] = k ∷ []
insert_key k (j ∷ js) =
    let rest = insert_key k js in
    if k == j then j ∷ js else if ltb k j then k ∷ j ∷ js else j ∷ rest

module _ {N : Type 0} where
  -- `order[k]`
  unfoldable pub group : ℕ → List (N × ℕ) → List N
  group k [] = []
  group k ((x, j) ∷ l) = if j == k then x ∷ group k l else group k l

  -- `sorted(order)`
  unfoldable pub sorted_keys : List (N × ℕ) → List ℕ
  unfolding insert_key
  sorted_keys [] = []
  sorted_keys ((x, k) ∷ l) = insert_key k (sorted_keys l)

  -- The groups, in the order of the keys.
  unfoldable pub gather : List ℕ → List (N × ℕ) → List N
  unfolding group
  gather [] l = []
  gather (k ∷ ks) l = group k l ++ gather ks l
