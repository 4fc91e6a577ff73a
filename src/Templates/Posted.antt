-- ===== src/Templates/Posted.antt =====
-- What `post_application_data` leaves in the table of templates.
use murano_temp.Base.{
  List, Option-cases, String, false, find, inl, inr, not, refl, some, sym, update_where, ◌==◌, ◌∙◌,
  ◌≡◌, ℕ,
}
use murano_temp.Base.Result.{
  >>=-eq-ok, attribute_error, from_option, guard, http_not_found, ok, ok-injective, ◌>>=◌,
}
use murano_temp.Json.{Items, Value, append_item, is_list, is_none, list}
use murano_temp.Server.Counts.{find-update_where}
use murano_temp.Services.{with_services}
use murano_temp.Services.Inserted.{put_services-insert}
use murano_temp.Templates.{
  Template, get_description, get_env_template, post_application_data, save_description, with_posted,
}
use murano_temp.Traverse.{get}
use murano_temp.Traverse.Lens.{insert-get}

saved-get :
    (now : ℕ) (id : String) (x : Value) (s s' : List Template) (row : Template)
    → from_option (get_env_template id s) attribute_error ≡ ok row
    → update_where (λ t. t.id == id) (λ t. record t { description = x; updated = now }) s ≡ s'
    → get_description id s' ≡ ok x
unfolding get_description get_env_template
saved-get now id x s s' row e f = elim (Option-cases (find (λ t. t.id == id) s)) [
  | inl n ↦ absurd cc
  | inr (t, there) ↦ rw (← f) (
      rw
        (find-update_where (λ u. u.id == id) (λ u. record u { description = x; updated = now }) s t
          (λ u. refl) there)
        refl)
]

-- The value is no list, and posting it at /services to a template raises nothing. Then the template's
-- description has the value after the services that were in it, and all else of the template is as it
-- was, but the time of the update, as is every other template.
pub post_application_data-get :
    (now : ℕ) (id : String) (item : Value) (s : List Template) (r : Value × List Template)
    → is_list item ≡ false
    → post_application_data now id item "/services" s ≡ ok r
    → (was after : Value) × (xs : Items) × ((get_description id s >>= with_services) ≡ ok was)
      × (get "/services" was ≡ ok (list xs))
      × (get_description id r.1 ≡ ok after)
      × (get "/services" after ≡ ok (list (append_item xs item)))
      × (r.1
          ≡ update_where (λ t. t.id == id) (λ t. record t { description = after; updated = now }) s)
unfolding post_application_data with_posted save_description murano_temp.Traverse.segments
post_application_data-get now id item s r single h =
    >>=-eq-ok (with_posted id item "/services" s) _ h λ changed made h₁.
      >>=-eq-ok (get_description id s) _ made λ description e₀ h₂.
        >>=-eq-ok (guard (not (is_none description)) http_not_found) _ h₂ λ _ _ h₃.
          >>=-eq-ok (with_services description) _ h₃ λ listed e₁ e₂.
            >>=-eq-ok (save_description now changed (some id) s) _ h₁ λ s' e₃ h₄.
              >>=-eq-ok (from_option (get_env_template id s) attribute_error) _ e₃ λ row e₄ e₅.
                let inserted =
                  insert-get "/services" item listed changed (refl, tt)
                    (sym (put_services-insert "/services" item listed single refl) ∙ e₂) in
                rw (← ok-injective h₄) (
                  listed,
                  changed,
                  inserted.0,
                  rw e₀ e₁,
                  inserted.1,
                  saved-get now id changed s s' row e₄ (ok-injective e₅),
                  inserted.2,
                  sym (ok-injective e₅),
                )
