-- ===== src/Json/Merge/Lookup.antt =====
-- What `merge_dicts` has at a key.
use murano_temp.Base.{
  Bool, Bool-cases, Option, Option-cases, String, ap, arith, false, if◌then◌else◌, inl, inr, none,
  refl, some, suc, sym, text_cases, true, zero, ℕ, ◌&&◌, ◌-◌, ◌==◌, ◌∙◌, ◌≡◌, ◌≢◌, ◌⊎◌,
}
use murano_temp.Base.Result.{>>=-eq-ok, Result, ok, ok-injective}
use murano_temp.Json.{boolean, dict, end, field, int, list, null, str}
use murano_temp.Json.Data.{Fields, Value, lookup, set_key}
use murano_temp.Json.Merge.{
  add_missing, is_text_or_null, merge_dicts, merge_fields, merge_value, mismatch, next_level,
  same_type,
}
use murano_temp.Json.Merge.Meaning.{
  IsMerged, IsMergedAt, in_both, is_container, united, kept, merged, neither, only_first,
  only_second, replaced,
}
use murano_temp.Json.Merge.Union.{merge_lists-IsUnion}
use mathlib.Core.Path.{subst}

or_else : Option Value → Option Value → Option Value
or_else none o = o
or_else (some v) o = some v

lookup-set_key :
    (k j : String) (v : Value) (fs : Fields)
    → lookup j fs ≡ none
    → lookup k (set_key j v fs) ≡ or_else (lookup k fs) (if j == k then some v else none)
unfolding lookup set_key or_else
lookup-set_key k j v end h = refl
lookup-set_key k j v (field i w fs) h = elim (Bool-cases (i == j)) [
  | inl y ↦
      let e : some w ≡ none = subst (λ b. (if b then some w else lookup j fs) ≡ none) y h in cc
  | inr n ↦
      let h' : lookup j fs ≡ none = subst (λ b. (if b then some w else lookup j fs) ≡ none) n h in
      elim (Bool-cases (i == k)) [
        | inl z ↦ rw (n, z) refl
        | inr m ↦ rw (n, m) (lookup-set_key k j v fs h')
      ]
]

or_else-if :
    (o p : Option Value) (b : Bool) (v : Value)
    → or_else (or_else o (if b then some v else none)) p ≡ or_else o (if b then some v else p)
unfolding or_else
or_else-if none p true v = refl
or_else-if none p false v = refl
or_else-if (some w) p b v = refl

lookup-add_missing :
    (k : String) (result fs : Fields)
    → lookup k (add_missing result fs) ≡ or_else (lookup k result) (lookup k fs)
unfolding add_missing lookup or_else
lookup-add_missing k result end = elim (Option-cases (lookup k result)) [
  | inl e ↦ rw e refl
  | inr (v, e) ↦ rw e refl
]
lookup-add_missing k result (field j v fs) = elim (Option-cases (lookup j result)) [
  | inl e ↦
      rw (e, add_missing)
        (lookup-add_missing k (set_key j v result) fs
          ∙ ap (λ o. or_else o (lookup k fs)) (lookup-set_key k j v result e)
          ∙ or_else-if (lookup k result) (lookup k fs) (j == k) v)
  | inr (w, e) ↦
      rw (e, add_missing)
        (lookup-add_missing k result fs ∙ elim (text_cases j k) [
          | inl (y, same) ↦
              let e' : lookup k result ≡ some w = subst (λ i. lookup i result ≡ some w) same e in
              rw e' refl
          | inr (n, _) ↦ rw n refl
        ])
]

-- After the first loop, whose result has the keys of the first dict.
IsFirst : ℕ → Option Value → Option Value → Option Value → Type 0
IsFirst levels none w o = o ≡ none
IsFirst levels (some v) w o = IsMergedAt levels (some v) w o

value-IsMergedAt :
    (levels : ℕ) (v x : Value) (o : Option Value)
    → ((w : Value) → merge_value levels v w ≡ ok x → IsMerged levels v w x)
    → (elim o as (λ p. Result Value) [ none ↦ ok v | some w ↦ merge_value levels v w ]) ≡ ok x
    → IsMergedAt levels (some v) o (some x)
value-IsMergedAt levels v x none sound h =
    subst (λ y. IsMergedAt levels (some v) none (some y)) (ok-injective h) only_first
value-IsMergedAt levels v x (some w) sound h = in_both (sound w h)

field-IsFirst :
    (levels : ℕ) (k j : String) (v x : Value) (fs gs rest : Fields)
    → ((w : Value) → merge_value levels v w ≡ ok x → IsMerged levels v w x)
    → (elim (lookup j gs) as (λ p. Result Value) [ none ↦ ok v | some w ↦ merge_value levels v w ])
      ≡ ok x
    → IsFirst levels (lookup k fs) (lookup k gs) (lookup k rest)
    → IsFirst levels (lookup k (field j v fs)) (lookup k gs) (lookup k (field j x rest))
unfolding lookup
field-IsFirst levels k j v x fs gs rest sound e h = elim (text_cases j k) [
  | inl (y, same) ↦
      let here : IsMergedAt levels (some v) (lookup k gs) (some x) =
        subst (λ i. IsMergedAt levels (some v) (lookup i gs) (some x)) same
          (value-IsMergedAt levels v x (lookup j gs) sound e) in
      rw y (unfold IsFirst in here)
  | inr (n, _) ↦ rw n h
]

end-IsFirst :
    (levels : ℕ) (k : String) (w : Option Value) → IsFirst levels (lookup k end) w (lookup k end)
unfolding IsFirst lookup
end-IsFirst levels k w = refl

IsMergedAt-or_else :
    (levels : ℕ) (v w o : Option Value) → IsFirst levels v w o → IsMergedAt levels v w (or_else o w)
unfolding IsFirst or_else
IsMergedAt-or_else levels none none o h = rw h neither
IsMergedAt-or_else levels none (some w) o h = rw h only_second
IsMergedAt-or_else levels (some v) w (some x) h = h
IsMergedAt-or_else levels (some v) w none h = elim h [ ]

add_missing-IsMergedAt :
    (levels : ℕ) (fs gs rest : Fields) (k : String)
    → IsFirst levels (lookup k fs) (lookup k gs) (lookup k rest)
    → IsMergedAt levels (lookup k fs) (lookup k gs) (lookup k (add_missing rest gs))
add_missing-IsMergedAt levels fs gs rest k h =
    subst (λ o. IsMergedAt levels (lookup k fs) (lookup k gs) o)
      (sym (lookup-add_missing k rest gs))
      (IsMergedAt-or_else levels (lookup k fs) (lookup k gs) (lookup k rest) h)

next_level_lem : (n : ℕ) → next_level n ≡ n - 1
unfolding next_level
next_level_lem zero = refl
next_level_lem (suc n) = omega arith

replaced_or_kept :
    (levels : ℕ) (v w x : Value)
    → is_container v ≡ false
    → (if same_type v w then ok w else mismatch v w) ≡ ok x
    → IsMerged levels v w x
unfolding mismatch
replaced_or_kept levels v w x plain h = elim (Bool-cases (same_type v w)) [
  | inl y ↦ let h' = rw y at h in replaced y (inr plain) (sym (ok-injective h'))
  | inr n ↦
      let h' = rw n at h in
      elim (Bool-cases (is_text_or_null v && is_text_or_null w)) [
        | inl t ↦ let h'' = rw t at h' in kept n t (sym (ok-injective h''))
        | inr t ↦ let h'' = rw t at h' in cc
      ]
]

mutual
  unfolding merge_value same_type is_container

  value-IsMerged :
      (levels : ℕ) (v w x : Value) → merge_value levels v w ≡ ok x → IsMerged levels v w x
  value-IsMerged levels null w x h = replaced_or_kept levels null w x refl h
  value-IsMerged levels (boolean b) w x h = replaced_or_kept levels (boolean b) w x refl h
  value-IsMerged levels (int n) w x h = replaced_or_kept levels (int n) w x refl h
  value-IsMerged levels (str s) w x h = replaced_or_kept levels (str s) w x refl h
  value-IsMerged levels (list xs) (list ys) x h =
      elim (Bool-cases (murano_temp.Base.Num.◌==◌ levels 1)) [
        | inl y ↦ let h' = rw y at h in replaced refl (inl (ground arith)) (sym (ok-injective h'))
        | inr n ↦
            let h' = rw n at h in
            united (λ e. ground arith) (sym (ok-injective h')) (merge_lists-IsUnion xs ys)
      ]
  value-IsMerged levels (list xs) null x h = cc
  value-IsMerged levels (list xs) (boolean b) x h = cc
  value-IsMerged levels (list xs) (int n) x h = cc
  value-IsMerged levels (list xs) (str s) x h = cc
  value-IsMerged levels (list xs) (dict gs) x h = cc
  value-IsMerged levels (dict fs) (dict gs) x h =
      elim (Bool-cases (murano_temp.Base.Num.◌==◌ levels 1)) [
        | inl y ↦ let h' = rw y at h in replaced refl (inl (ground arith)) (sym (ok-injective h'))
        | inr n ↦
            let h' = rw n at h in
            >>=-eq-ok (merge_fields (next_level levels) fs gs) _ h' λ rest e e'.
              merged (λ e. ground arith) (sym (ok-injective e'))
                (λ k.
                  subst
                    (λ m. IsMergedAt m (lookup k fs) (lookup k gs) (lookup k (add_missing rest gs)))
                    (next_level_lem levels)
                    (add_missing-IsMergedAt (next_level levels) fs gs rest k
                      (merge_fields-IsFirst (next_level levels) fs gs rest k e)))
      ]
  value-IsMerged levels (dict fs) null x h = cc
  value-IsMerged levels (dict fs) (boolean b) x h = cc
  value-IsMerged levels (dict fs) (int n) x h = cc
  value-IsMerged levels (dict fs) (str s) x h = cc
  value-IsMerged levels (dict fs) (list ys) x h = cc

  merge_fields-IsFirst :
      (levels : ℕ) (fs gs r : Fields) (k : String)
      → merge_fields levels fs gs ≡ ok r
      → IsFirst levels (lookup k fs) (lookup k gs) (lookup k r)
  merge_fields-IsFirst levels end gs r k h =
      subst (λ l. IsFirst levels (lookup k end) (lookup k gs) (lookup k l)) (ok-injective h)
        (end-IsFirst levels k (lookup k gs))
  merge_fields-IsFirst levels (field j v fs) gs r k h =
      >>=-eq-ok
        (elim (lookup j gs) as (λ p. Result Value) [
          | none ↦ ok v
          | some w ↦ merge_value levels v w
        ])
        _ h
        (λ x e g. >>=-eq-ok (merge_fields levels fs gs) _ g (λ rest e' g'.
          subst (λ l. IsFirst levels (lookup k (field j v fs)) (lookup k gs) (lookup k l))
            (ok-injective g')
            (field-IsFirst levels k j v x fs gs rest (λ w. value-IsMerged levels v w x) e
              (merge_fields-IsFirst levels fs gs rest k e'))))

-- Where the merge of two dicts with a bound on the levels succeeds, the result has nothing at a key
-- that neither dict has, and the value of the one dict that has it. If both have it: of values of
-- different types, both texts or None, the first; of two dicts or two lists at the last level, and of
-- other values of one type, the second; of two lists above it, each item of both up to equal ones,
-- once; and of two dicts above it, the merge with one level less, in the same sense.
pub merge_dicts-IsMerged :
    (levels : ℕ) (fs gs r : Fields)
    → merge_dicts levels fs gs ≡ ok r
    → (k : String) → IsMergedAt levels (lookup k fs) (lookup k gs) (lookup k r)
unfolding merge_dicts
merge_dicts-IsMerged levels fs gs r h k = >>=-eq-ok (merge_fields levels fs gs) _ h (λ first e g.
    subst (λ l. IsMergedAt levels (lookup k fs) (lookup k gs) (lookup k l)) (ok-injective g)
      (add_missing-IsMergedAt levels fs gs first k (merge_fields-IsFirst levels fs gs first k e)))
