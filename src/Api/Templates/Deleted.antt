-- ===== src/Api/Templates/Deleted.antt =====
-- Whom the handlers of one template accept, and when the handler of DELETE deletes it.
use murano_temp.Access.{Request}
use murano_temp.Api.Templates.{delete_template, validate_exists, validate_request}
use murano_temp.Base.{
  Bool, Bool-cases, List, String, filter, inl, inr, Option-cases, not, refl, some, true, ◌==◌, ◌||◌,
  ◌∙◌, ◌≡◌, ◌↔◌, ℕ, sym,
}
use murano_temp.Base.Members.{filter-update_where}
use murano_temp.Base.Result.{
  >>=-eq-ok, err, http_not_found, ◌>>=◌, guard, guard-ok, http_forbidden, ok, ok-injective,
}
use murano_temp.Json.{Fields, Value, boolean, dict, int, list, str, null, set_key, store_item}
use murano_temp.Server.Counts.{find-update_where}
use murano_temp.Templates.{
  Template, delete, env_template_exist, get_description, get_env_template, remove, save_description,
}

-- A template that a request may use.
abbrev pub IsUsable : Bool → Request → Template → Type 0
IsUsable is_admin request t = (t.is_public || (is_admin || (t.tenant_id == request.tenant))) ≡ true

-- `t` is left by the deletion of the template with the id `id` from `s`.
pub record Deletion (allowed is_admin : Bool) (request : Request) (id : String)
    (s t : List Template) : Type 0 where
  pub permitted : allowed ≡ true
  pub row : Template
  pub there : get_env_template id s ≡ some row
  pub usable : IsUsable is_admin request row
  pub fields : Fields
  pub described : row.description ≡ dict fields
  pub left : t ≡ filter (λ u. not (u.id == id)) s

-- Only a dict takes a new value at a key.
item_stored :
    (v : Value) (k : String) (x y : Value)
    → store_item v k x ≡ ok y
    → (fields : Fields) × (v ≡ dict fields)
unfolding store_item
item_stored (dict fields) k x y h = (fields, refl)
item_stored null k x y h = cc
item_stored (boolean b) k x y h = cc
item_stored (int n) k x y h = cc
item_stored (str n) k x y h = cc
item_stored (list n) k x y h = cc

module _ (is_admin : Bool) (request : Request) (id : String) (s : List Template) where
  validate_request-there :
      (u : Unit {0})
      → validate_request is_admin request id s ≡ ok u
      → (row : Template) × (get_env_template id s ≡ some row)
  unfolding validate_request validate_exists env_template_exist
  validate_request-there u h = elim (Option-cases (get_env_template id s)) [
    | inl e ↦ let e' : err http_not_found ≡ ok u = rw (← h, e) refl in absurd cc
    | inr there ↦ there
  ]

  pub validate_request-IsUsable :
      (row : Template)
      → get_env_template id s ≡ some row
      → (validate_request is_admin request id s ≡ ok tt) ↔ IsUsable is_admin request row
  unfolding validate_request validate_exists env_template_exist
  validate_request-IsUsable row e = rw e (elim (Bool-cases row.is_public) [
    | inl p ↦ rw p (λ _. refl, λ _. refl)
    | inr p ↦ elim (Bool-cases is_admin) [
      | inl a ↦ rw (p, a) (λ _. refl, λ _. refl)
      | inr a ↦
          rw (p, a)
            (λ h. guard-ok (row.tenant_id == request.tenant) http_forbidden tt h, λ h. rw h refl)
    ]
  ])

  delete-filter :
      (now : ℕ) (row : Template) (fields : Fields)
      → get_env_template id s ≡ some row
      → row.description ≡ dict fields
      → (delete now id s >>= λ emptied. ok (remove id emptied))
        ≡ ok (filter (λ u. not (u.id == id)) s)
  unfolding delete remove get_description save_description get_env_template store_item
  delete-filter now row fields e d =
      let x = dict (set_key "description" null fields) in
      rw
        (
          e,
          d,
          find-update_where (λ t. t.id == id) (λ t. record t { description = x; updated = now }) s
              row (λ t. refl) e,
          filter-update_where (λ t. t.id == id) (λ t. record t { description = x; updated = now }) s
              (λ t. refl),
        )
        refl

  deleted_fields :
      (now : ℕ) (row : Template) (emptied : List Template)
      → get_env_template id s ≡ some row
      → delete now id s ≡ ok emptied
      → (fields : Fields) × (row.description ≡ dict fields)
  unfolding delete get_description
  deleted_fields now row emptied e h = >>=-eq-ok (get_description id s) _ h λ description g h₁.
      >>=-eq-ok (store_item description "description" null) _ h₁ λ x stored _.
        let same : row.description ≡ description = ok-injective (rw (← g, e) refl) in
        let (fields, d) = item_stored description "description" null x stored in (fields, same ∙ d)

-- The handler deletes a template, and leaves `t`, just when the policy allows it, the template is
-- there with a dict as its description, and is public or of the caller's tenant, or the caller is
-- an administrator; then `t` has all the other templates, in their order.
pub delete_template-Deletion :
    (now : ℕ) (allowed is_admin : Bool) (request : Request) (id : String) (s t : List Template)
    → (delete_template now allowed is_admin request id s ≡ ok t)
      ↔ Deletion allowed is_admin request id s t
unfolding delete_template
delete_template-Deletion now allowed is_admin request id s t = (
  λ h. >>=-eq-ok (guard allowed http_forbidden) _ h λ _ g h₁.
      >>=-eq-ok (validate_request is_admin request id s) _ h₁ λ u checked h₂.
        >>=-eq-ok (delete now id s) _ h₂ λ emptied gone h₃.
          let (row, there) = validate_request-there is_admin request id s u checked in
          let (fields, described) =
            deleted_fields is_admin request id s now row emptied there gone in
          let whole : (delete now id s >>= λ emptied. ok (remove id emptied)) ≡ ok t = h₂ in
          record {
            permitted = guard-ok _ _ _ g;
            row = row;
            there = there;
            usable = (validate_request-IsUsable is_admin request id s row there).0 checked;
            fields = fields;
            described = described;
            left =
                ok-injective
                  (sym whole ∙ delete-filter is_admin request id s now row fields there described);
          },
  λ d.
      let checked = (validate_request-IsUsable is_admin request id s d.row d.there).1 d.usable in
      rw (d.permitted, checked, d.left)
        (delete-filter is_admin request id s now d.row d.fields d.there d.described),
)
