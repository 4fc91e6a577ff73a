-- ===== src/Patch/Allowed.antt =====
-- Which changes are accepted.
use murano_temp.Base.{
  All, Bool, List, String, [], ap, arith, inl, inr, length, refl, some, sym, text_cases, true, ◌↔◌,
  ◌∷◌, ◌≡◌,
}
use murano_temp.Base.Num.{leb, leb→le}
use murano_temp.Base.Result.{
  from_option-ok, guard-ok, >>=-eq-ok, from_option, guard, http_bad_request, http_forbidden, ok,
  ok-injective,
}
use murano_temp.Json.{
  Items, Value, boolean, cons, dict, end, field, int, list, lookup, nil, null, str,
}
use murano_temp.Patch.{
  Change, allowed_operations, from_json_patch, is_method, parse_change, parse_changes,
  parse_pointer, required, validate_change,
}
use murano_temp.Patch.Escape.{decode_json_pointer-escape, escape}
use murano_temp.Patch.Pointer.{strip}
use murano_temp.Types.{methods}
use mathlib.Core.Path.{subst}

module _ (valid : String → Value → Bool) where
  -- The change is of one attribute, the operation is one that the attribute allows, and the value is
  -- valid for it.
  unfoldable pub IsAllowed : Change → Type 0
  IsAllowed c =
      (name : String) × (methods : List String) × (c.path ≡ name ∷ [])
      × (allowed_operations name ≡ some methods)
      × (is_method c.op methods ≡ true)
      × (valid name c.change_value ≡ true)

  IsAllowed-checked :
      (op v : Value) (path : List String) (u : Unit {0})
      → leb (length path) 1 ≡ true
      → validate_change valid op path v ≡ ok u
      → IsAllowed (record { op = op; path = path; change_value = v })
  unfolding validate_change IsAllowed
  IsAllowed-checked op v [] u short h = cc
  IsAllowed-checked op v (name ∷ m ∷ names) u short h =
      let k = leb→le (length (name ∷ m ∷ names)) 1 short in absurd (omega arith)
  IsAllowed-checked op v (name ∷ []) u short h =
      >>=-eq-ok (from_option (allowed_operations name) http_forbidden) _ h (λ methods e g.
        >>=-eq-ok (guard (is_method op methods) http_forbidden) _ g (λ _ e' g'. (
          name,
          methods,
          refl,
          from_option-ok (allowed_operations name) http_forbidden _ e,
          guard-ok (is_method op methods) http_forbidden _ e',
          guard-ok (valid name v) http_bad_request _ g',
        )))

  parse_change-IsAllowed : (x : Value) (c : Change) → parse_change valid x ≡ ok c → IsAllowed c
  unfolding parse_change
  parse_change-IsAllowed null c h = cc
  parse_change-IsAllowed (boolean b) c h = cc
  parse_change-IsAllowed (int n) c h = cc
  parse_change-IsAllowed (str s) c h = cc
  parse_change-IsAllowed (list xs) c h = cc
  parse_change-IsAllowed (dict fs) c h = >>=-eq-ok (required "op" fs) _ h (λ op e1 h1.
      >>=-eq-ok (required "path" fs) _ h1 (λ pointer e2 h2.
        >>=-eq-ok (parse_pointer pointer) _ h2 (λ path e3 h3.
          >>=-eq-ok (guard (leb (length path) 1) http_bad_request) _ h3 (λ u e4 h4.
            >>=-eq-ok (required "value" fs) _ h4 (λ v e5 h5.
              >>=-eq-ok (validate_change valid op path v) _ h5 (λ w e6 h6.
                subst (λ d. IsAllowed d) (ok-injective h6)
                  (IsAllowed-checked op v path w
                    (guard-ok (leb (length path) 1) http_bad_request _ e4) e6)))))))

  parse_changes-IsAllowed :
      (xs : Items) (cs : List Change) → parse_changes valid xs ≡ ok cs → All IsAllowed cs
  unfolding parse_changes
  parse_changes-IsAllowed nil cs h = subst (λ l. All IsAllowed l) (ok-injective h) tt
  parse_changes-IsAllowed (cons x xs) cs h = >>=-eq-ok (parse_change valid x) _ h (λ c e g.
      >>=-eq-ok (parse_changes valid xs) _ g (λ rest e' g'.
        subst (λ l. All IsAllowed l) (ok-injective g')
          (parse_change-IsAllowed x c e, parse_changes-IsAllowed xs rest e')))

  -- A change as a request has it.
  unfoldable pub print_change : Change → Value
  unfolding escape
  print_change c = dict (
      field "op" c.op (
        field "path" (str (elim c.path [ [] ↦ "/" | name ∷ names ↦ String.◌∷◌ "/" (escape name) ]))
          (field "value" c.change_value end)))

  strip-allowed :
      (name : String) (methods : List String)
      → allowed_operations name ≡ some methods
      → strip name ≡ name
  unfolding allowed_operations strip
  strip-allowed name methods h = elim (text_cases name "categories") [
    | inl (e, same) ↦ rw same refl
    | inr (n1, _) ↦ elim (text_cases name "tags") [
      | inl (e, same) ↦ rw same refl
      | inr (n2, _) ↦ elim (text_cases name "is_public") [
        | inl (e, same) ↦ rw same refl
        | inr (n3, _) ↦ elim (text_cases name "enabled") [
          | inl (e, same) ↦ rw same refl
          | inr (n4, _) ↦ elim (text_cases name "description") [
            | inl (e, same) ↦ rw same refl
            | inr (n5, _) ↦ elim (text_cases name "name") [
              | inl (e, same) ↦ rw same refl
              | inr (n6, _) ↦ ground (arith, h, n1, n2, n3, n4, n5, n6)
            ]
          ]
        ]
      ]
    ]
  ]

  unfoldable pub print_changes : List Change → Items
  unfolding print_change
  print_changes [] = nil
  print_changes (c ∷ cs) = cons (print_change c) (print_changes cs)

  parse_change-print_named :
      (op v : Value) (name : String) (methods : List String)
      → allowed_operations name ≡ some methods
      → is_method op methods ≡ true
      → valid name v ≡ true
      → parse_change valid (print_change (record { op = op; path = name ∷ []; change_value = v }))
        ≡ ok (record { op = op; path = name ∷ []; change_value = v })
  unfolding parse_change print_change required parse_pointer validate_change lookup
  parse_change-print_named op v name methods h k l =
      rw (decode_json_pointer-escape name (strip-allowed name methods h), h, k, l) refl

  parse_change-print_change :
      (c : Change) → IsAllowed c → parse_change valid (print_change c) ≡ ok c
  unfolding IsAllowed
  parse_change-print_change c (name, methods, e, h, k, l) =
      let same : record { op = c.op; path = name ∷ []; change_value = c.change_value } ≡ c =
        ap (λ p. record { op = c.op; path = p; change_value = c.change_value }) (sym e) in
      subst (λ d. parse_change valid (print_change d) ≡ ok d) same
        (parse_change-print_named c.op c.change_value name methods h k l)

  parse_changes-print_changes :
      (cs : List Change) → All IsAllowed cs → parse_changes valid (print_changes cs) ≡ ok cs
  unfolding parse_changes print_changes
  parse_changes-print_changes [] h = refl
  parse_changes-print_changes (c ∷ cs) (h, hs) =
      rw (parse_change-print_change c h, parse_changes-print_changes cs hs) refl

-- A list of changes is what some list of operations is accepted as just when each change is of one
-- attribute, by an operation that the attribute allows, with a value that is valid for it.
pub from_json_patch-IsAllowed :
    (valid : String → Value → Bool) (cs : List Change)
    → ((xs : Items) × (from_json_patch valid (list xs) ≡ ok cs)) ↔ All (IsAllowed valid) cs
unfolding from_json_patch
from_json_patch-IsAllowed valid cs = (
  λ s. parse_changes-IsAllowed valid s.0 cs s.1,
  λ h. (print_changes valid cs, parse_changes-print_changes valid cs h),
)
