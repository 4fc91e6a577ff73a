-- ===== src/Json/Merge/Union.antt =====
-- What `merge_lists` of murano/dsl/helpers.py gives: the items of two lists, once each.
use murano_temp.Base.{Bool-cases, ap, false, inl, inr, refl, true, ◌∙◌, ◌≡◌, ◌⊎◌}
use murano_temp.Json.{append_item, append_items, cons, nil}
use murano_temp.Json.Data.{Items, Value}
use murano_temp.Json.Equal.{equal}
use murano_temp.Json.Merge.{add_items, in_items, merge_lists}

pub data In (v : Value) : Items → Type 0 where
  first : {x : Value} {xs : Items} → v ≡ x → In v (cons x xs)
  later : {x : Value} {xs : Items} → In v xs → In v (cons x xs)

-- No item equals one before it.
pub data IsDistinct : Items → Type 0 where
  empty : IsDistinct nil
  added :
      (xs : Items) (v : Value)
      → IsDistinct xs
      → in_items v xs ≡ false
      → IsDistinct (append_item xs v)

pub record IsUnion (xs ys zs : Items) : Type 0 where
  pub distinct : IsDistinct zs
  -- Each item is there, or an equal one is.
  pub first_covered : (v : Value) → In v xs → In v zs ⊎ (in_items v zs ≡ true)
  pub second_covered : (v : Value) → In v ys → In v zs ⊎ (in_items v zs ≡ true)
  pub source : (v : Value) → In v zs → In v xs ⊎ In v ys

-- What the loop over the items `xs` adds to a result.
record IsAdded (result xs zs : Items) : Type 0 where
  distinct : IsDistinct result → IsDistinct zs
  stays : (v : Value) → In v result → In v zs
  equals : (v : Value) → in_items v result ≡ true → in_items v zs ≡ true
  covered : (v : Value) → In v xs → In v zs ⊎ (in_items v zs ≡ true)
  source : (v : Value) → In v zs → In v result ⊎ In v xs

in_last : (xs : Items) (v : Value) → In v (append_item xs v)
unfolding append_item
in_last nil v = first refl
in_last (cons x xs) v = later (in_last xs v)

in_start : (xs : Items) (u v : Value) → In v xs → In v (append_item xs u)
unfolding append_item
in_start nil u v at = elim at [ ]
in_start (cons x xs) u v (first e) = first e
in_start (cons x xs) u v (later at) = later (in_start xs u v at)

in_append : (xs : Items) (u v : Value) → In v (append_item xs u) → In v xs ⊎ (v ≡ u)
unfolding append_item
in_append nil u v (first e) = inr e
in_append nil u v (later at) = elim at [ ]
in_append (cons x xs) u v (first e) = inl (first e)
in_append (cons x xs) u v (later at) = elim (in_append xs u v at) [
  | inl l ↦ inl (later l)
  | inr e ↦ inr e
]

in_items-append_item :
    (xs : Items) (u v : Value) → in_items v xs ≡ true → in_items v (append_item xs u) ≡ true
unfolding append_item in_items
in_items-append_item (cons x xs) u v h = elim (Bool-cases (equal x v)) [
  | inl e ↦ rw e refl
  | inr n ↦ let h' = rw n at h in rw n (in_items-append_item xs u v h')
]
in_items-append_item nil u v h = cc

add_items-IsAdded : (result xs : Items) → IsAdded result xs (add_items result xs)
unfolding add_items
add_items-IsAdded result nil = record {
  distinct = λ d. d;
  stays = λ v at. at;
  equals = λ v h. h;
  covered = λ v at. elim at [ ];
  source = λ v at. inl at;
}
add_items-IsAdded result (cons x xs) = elim (Bool-cases (in_items x result)) [
  | inl y ↦
      let rest = add_items-IsAdded result xs in
      rw y (record {
        distinct = rest.distinct;
        stays = rest.stays;
        equals = rest.equals;
        covered = λ v at. elim at [
          | first e ↦ inr (rest.equals v (ap (λ u. in_items u result) e ∙ y))
          | later t ↦ rest.covered v t
        ];
        source = λ v at. elim (rest.source v at) [ inl l ↦ inl l | inr r ↦ inr (later r) ];
      })
  | inr n ↦
      let rest = add_items-IsAdded (append_item result x) xs in
      rw n (record {
        distinct = λ d. rest.distinct (added result x d n);
        stays = λ v at. rest.stays v (in_start result x v at);
        equals = λ v h. rest.equals v (in_items-append_item result x v h);
        covered = λ v at. elim at [
          | first e ↦ inl (rest.stays v (rw e (in_last result x)))
          | later t ↦ rest.covered v t
        ];
        source = λ v at. elim (rest.source v at) [
          | inl l ↦ elim (in_append result x v l) [ inl k ↦ inl k | inr e ↦ inr (first e) ]
          | inr r ↦ inr (later r)
        ];
      })
]

in_first : (xs ys : Items) (v : Value) → In v xs → In v (append_items xs ys)
unfolding append_items
in_first nil ys v at = elim at [ ]
in_first (cons x xs) ys v (first e) = first e
in_first (cons x xs) ys v (later at) = later (in_first xs ys v at)

in_second : (xs ys : Items) (v : Value) → In v ys → In v (append_items xs ys)
unfolding append_items
in_second nil ys v at = at
in_second (cons x xs) ys v at = later (in_second xs ys v at)

in_either : (xs ys : Items) (v : Value) → In v (append_items xs ys) → In v xs ⊎ In v ys
unfolding append_items
in_either nil ys v at = inr at
in_either (cons x xs) ys v (first e) = inl (first e)
in_either (cons x xs) ys v (later at) = elim (in_either xs ys v at) [
  | inl l ↦ inl (later l)
  | inr r ↦ inr r
]

pub merge_lists-IsUnion : (xs ys : Items) → IsUnion xs ys (merge_lists xs ys)
unfolding merge_lists
merge_lists-IsUnion xs ys =
    let all = add_items-IsAdded nil (append_items xs ys) in
    record {
      distinct = all.distinct empty;
      first_covered = λ v at. all.covered v (in_first xs ys v at);
      second_covered = λ v at. all.covered v (in_second xs ys v at);
      source = λ v at. elim (all.source v at) [ inl l ↦ elim l [ ] | inr r ↦ in_either xs ys v r ];
    }
