-- ===== src/Traverse/Lens.antt =====
-- `insert` of TraverseHelper (murano/common/utils.py), then `get` at the same path.
use murano_temp.Base.{
  All, Bool, List, Option, String, [], ap, ap₂, arith, false, if◌then◌else◌, is_some, none, refl,
  some, suc, sym, true, zero, ℕ, ◌+◌, ◌==◌, ◌∙◌, ◌∷◌, ◌≡◌,
}
use murano_temp.Base.Result.{
  >>=-eq-ok, Error, Result, err, from_option, index_error, key_error, ok, ok-injective, ◌>>=◌, ◌>>◌,
}
use murano_temp.Json.{
  Fields, Items, Value, append_item, boolean, cons, dict, get_default, int, list, lookup, nil, null,
  set_key, str,
}
use murano_temp.Json.Dict.{lookup-set_key, lookup-set_key_self}
use murano_temp.Text.{isdigit, to_number}
use murano_temp.Traverse.{find_item, get, item_at, item_id, position, segments, select, walk}
use murano_temp.Traverse.Edit.{append, insert, modify, replace_at}

item_at-replace_at :
    (xs : Items) (n : ℕ) (x y : Value)
    → item_at xs n ≡ some x
    → item_at (replace_at n y xs) n ≡ some y
unfolding item_at replace_at
item_at-replace_at nil n x y e = cc
item_at-replace_at (cons z zs) zero x y e = refl
item_at-replace_at (cons z zs) (suc n) x y e = item_at-replace_at zs n x y e

-- The ids of the items are as before, so a search finds the same position.
find_item-replace_at :
    (id : String) (k : ℕ) (xs : Items) (n : ℕ) (x y : Value)
    → item_at xs n ≡ some x
    → item_id y ≡ item_id x
    → find_item id k (replace_at n y xs) ≡ find_item id k xs
unfolding item_at replace_at find_item
find_item-replace_at id k nil n x y e same = refl
find_item-replace_at id k (cons z zs) zero x y e same =
    let here : z ≡ x = ground arith in rw (same, here) refl
find_item-replace_at id k (cons z zs) (suc n) x y e same =
    rw (find_item-replace_at id (k + 1) zs n x y e same) refl

abbrev in_range : Items → ℕ → Bool
in_range xs m = is_some (item_at xs m)

in_range-replace_at :
    (xs : Items) (n m : ℕ) (y : Value) → in_range (replace_at n y xs) m ≡ in_range xs m
unfolding item_at replace_at
in_range-replace_at nil n m y = refl
in_range-replace_at (cons z zs) zero zero y = refl
in_range-replace_at (cons z zs) zero (suc m) y = refl
in_range-replace_at (cons z zs) (suc n) zero y = refl
in_range-replace_at (cons z zs) (suc n) (suc m) y = in_range-replace_at zs n m y

-- The position by a number, from whether it is in range.
abbrev by_number : Bool → ℕ → Result (Option ℕ)
by_number true m = ok (some m)
by_number false m = err index_error

from_option-by_number :
    (o : Option Value) (m : ℕ)
    → (from_option o index_error >>= λ x. ok (some m)) ≡ by_number (is_some o) m
from_option-by_number none m = refl
from_option-by_number (some x) m = refl

position_lem :
    (segment : String) (xs : Items)
    → position segment xs ≡ (
        find_item segment 0 xs >>= λ found. elim found [
          | some n ↦ ok (some n)
          | none ↦
              if isdigit segment
              then by_number (in_range xs (to_number segment)) (to_number segment)
              else ok none
        ])
unfolding position
position_lem segment xs =
    ap
      (λ (r : Result (Option ℕ)). find_item segment 0 xs >>= λ found. elim found [
        | some n ↦ ok (some n)
        | none ↦ if isdigit segment then r else ok none
      ])
      (from_option-by_number (item_at xs (to_number segment)) (to_number segment))

position-replace_at :
    (segment : String) (xs : Items) (n : ℕ) (x y : Value)
    → item_at xs n ≡ some x
    → item_id y ≡ item_id x
    → position segment (replace_at n y xs) ≡ position segment xs
position-replace_at segment xs n x y e same =
    position_lem segment (replace_at n y xs)
    ∙ ap₂
        (λ (r : Result (Option ℕ)) (b : Bool). r >>= λ found. elim found [
          | some n ↦ ok (some n)
          | none ↦ if isdigit segment then by_number b (to_number segment) else ok none
        ])
        (find_item-replace_at segment 0 xs n x y e same)
        (in_range-replace_at xs n (to_number segment) y)
    ∙ sym (position_lem segment xs)

walk_list :
    (segment : String) (queue : List String) (xs : Items) (n : ℕ) (x : Value)
    → position segment xs ≡ ok (some n)
    → item_at xs n ≡ some x
    → walk (segment ∷ queue) (list xs) ≡ walk queue x
unfolding walk select
walk_list segment queue xs n x e f = rw (e, f) refl

walk_dict :
    (segment : String) (queue : List String) (fs : Fields) (v : Value)
    → lookup segment fs ≡ some v
    → walk (segment ∷ queue) (dict fs) ≡ walk queue v
unfolding walk select
walk_dict segment queue fs v e = rw e refl

-- The path selects a list, which has one item more at its end after the change; the item's own
-- id is as before.
IsAppended : List String → Value → Value → Value → Type 0
IsAppended queue value v w =
    (item_id w ≡ item_id v)
    × ((xs : Items) × (walk queue v ≡ ok (list xs))
        × (walk queue w ≡ ok (list (append_item xs value))))

append_null :
    (queue : List String) (value : Value) (w : Value) {C : Type 0}
    → modify queue (append value) null ≡ ok w
    → C
unfolding modify append
append_null [] value w e = cc
append_null (segment ∷ queue) value w e = cc

some_of : (o : Option Value) (e : Error) (x : Value) → from_option o e ≡ ok x → o ≡ some x
some_of none e x h = cc
some_of (some y) e x h = ap some (ok-injective h)

append_here : (value v w : Value) → append value v ≡ ok w → IsAppended [] value v w
unfolding append item_id walk IsAppended get_default
append_here value (list xs) w e = rw (← ok-injective e) (refl, (xs, refl, refl))
append_here value null w e = cc
append_here value (boolean b) w e = cc
append_here value (int n) w e = cc
append_here value (str s) w e = cc
append_here value (dict fs) w e = cc

append_list :
    (segment : String) (queue : List String) (value : Value) (xs : Items) (n : ℕ) (x y : Value)
    → position segment xs ≡ ok (some n)
    → item_at xs n ≡ some x
    → IsAppended queue value x y
    → IsAppended (segment ∷ queue) value (list xs) (list (replace_at n y xs))
unfolding IsAppended item_id get_default
append_list segment queue value xs n x y e f (same, (zs, was, now)) =
    let moved : position segment (replace_at n y xs) ≡ ok (some n) =
      position-replace_at segment xs n x y f same ∙ e in
    (
      refl,
      (
        zs,
        walk_list segment queue xs n x e f ∙ was,
        walk_list segment queue (replace_at n y xs) n y moved (item_at-replace_at xs n x y f) ∙ now,
      ),
    )

append_dict :
    (segment : String) (queue : List String) (value : Value) (fs : Fields) (x y : Value)
    → (segment == "?") ≡ false
    → lookup segment fs ≡ some x
    → IsAppended queue value x y
    → IsAppended (segment ∷ queue) value (dict fs) (dict (set_key segment y fs))
unfolding IsAppended item_id get_default
append_dict segment queue value fs x y other f (same, (zs, was, now)) = (
  rw (lookup-set_key segment "?" y fs, other) refl,
  (
    zs,
    walk_dict segment queue fs x f ∙ was,
    walk_dict segment queue (set_key segment y fs) y (lookup-set_key_self segment y fs) ∙ now,
  ),
)

-- The item at a position that was found, or none.
append_at :
    (segment : String) (queue : List String) (value : Value) (xs : Items) (w : Value)
    → ((x y : Value) → modify queue (append value) x ≡ ok y → IsAppended queue value x y)
    → (at : Option ℕ) → position segment xs ≡ ok at
    → elim at [
      | none ↦ modify queue (append value) null >> ok (list xs)
      | some n ↦
          (from_option (item_at xs n) index_error >>= λ x.
          modify queue (append value) x >>= λ y. ok (list (replace_at n y xs)))
    ]
      ≡ ok w
    → IsAppended (segment ∷ queue) value (list xs) w
append_at segment queue value xs w step none e₁ e₂ =
    >>=-eq-ok (modify queue (append value) null) _ e₂ λ y f _. append_null queue value y f
append_at segment queue value xs w step (some n) e₁ e₂ =
    >>=-eq-ok (from_option (item_at xs n) index_error) _ e₂ λ x f e₃.
      >>=-eq-ok (modify queue (append value) x) _ e₃ λ y g e₄.
        rw (← ok-injective e₄)
          (append_list segment queue value xs n x y e₁ (some_of _ _ x f) (step x y g))

modify-IsAppended :
    (queue : List String) (value v w : Value)
    → All (λ segment. (segment == "?") ≡ false) queue
    → modify queue (append value) v ≡ ok w
    → IsAppended queue value v w
unfolding modify append
modify-IsAppended [] value v w h e = append_here value v w e
modify-IsAppended (segment ∷ queue) value (list xs) w h e =
    >>=-eq-ok (position segment xs) _ e λ at e₁ e₂.
      append_at segment queue value xs w (λ x y g. modify-IsAppended queue value x y h.1 g) at e₁ e₂
modify-IsAppended (segment ∷ queue) value (dict fs) w h e =
    >>=-eq-ok (from_option (lookup segment fs) key_error) _ e λ x f e₁.
      >>=-eq-ok (modify queue (append value) x) _ e₁ λ y g e₂. rw (← ok-injective e₂) (
        append_dict segment queue value fs x y h.0 (some_of _ _ x f)
          (modify-IsAppended queue value x y h.1 g))
modify-IsAppended (segment ∷ queue) value null w h e = cc
modify-IsAppended (segment ∷ queue) value (boolean b) w h e = cc
modify-IsAppended (segment ∷ queue) value (int n) w h e = cc
modify-IsAppended (segment ∷ queue) value (str s) w h e = cc

-- No segment of the path is `?`, and the insertion of a value at the path succeeds. Then the path
-- selected a list before, and selects that list with the value at its end after.
pub insert-get :
    (path : String) (value source source' : Value)
    → All (λ segment. (segment == "?") ≡ false) (segments path)
    → insert path value source ≡ ok source'
    → (xs : Items) × (get path source ≡ ok (list xs))
      × (get path source' ≡ ok (list (append_item xs value)))
unfolding insert get IsAppended
insert-get path value source source' h e =
    (modify-IsAppended (segments path) value source source' h e).1
