-- ===== src/Api/Applications/Isolation.antt =====
-- What requests for the applications of templates can change.
use murano_temp.Access.{Request}
use murano_temp.Api.Applications.{
  delete_application, post_application, put_application, verify_env_template,
}
use murano_temp.Api.Services.{normalize_path, not_found-ok}
use murano_temp.Base.{
  Bool, List, String, ap, eq_iff, find, inl, inr, none, not, refl, some, sym, text_cases,
  update_where, ℕ, ◌==◌, ◌∙◌, ◌≡◌, ◌⊎◌,
}
use murano_temp.Base.Result.{
  >>=-eq-ok, attribute_error, from_option, from_option-ok, guard, guard-ok, http_forbidden,
  http_not_found, ok, ok-injective,
}
use murano_temp.Json.{Value, is_none, store_item, str, subscript}
use murano_temp.Server.Counts.{find-update_other, find-update_where}
use murano_temp.Templates.{
  Template, check_each, delete_env_template_data, get_description, get_env_template,
  post_application_data, put_application_data, save_description, with_posted,
}
use murano_temp.Traverse.Edit.{key_of, remove, update}
use mathlib.Core.Path.{subst}

-- Every template stays, with all but its description and the time of its update; and these too, if
-- it is another tenant's.
pub record IsIsolated (tenant : String) (s s' : List Template) : Type 0 where
  pub missing : (id : String) → get_env_template id s ≡ none → get_env_template id s' ≡ none
  pub kept :
      (id : String) (t : Template)
      → get_env_template id s ≡ some t
      → (u : Template) × (get_env_template id s' ≡ some u)
        × (u ≡ record t { description = u.description; updated = u.updated })
        × ((u ≡ t) ⊎ (t.tenant_id ≡ tenant))

IsIsolated-refl : (tenant : String) (s : List Template) → IsIsolated tenant s s
IsIsolated-refl tenant s = record { missing = λ id e. e; kept = λ id t e. (t, e, refl, inl refl) }

described : ℕ → Value → Template → Template
described now x t = record t { description = x; updated = now }

IsIsolated-trans :
    (tenant : String) (s s' s'' : List Template)
    → IsIsolated tenant s s'
    → IsIsolated tenant s' s''
    → IsIsolated tenant s s''
unfolding described
IsIsolated-trans tenant s s' s'' a b = record {
  missing = λ id e. b.missing id (a.missing id e);
  kept = λ id t e.
      let (u, f, same, own) = a.kept id t e in
      let (v, g, same', own') = b.kept id u f in
      (
        v,
        g,
        same' ∙ ap (described v.updated v.description) same,
        elim own' [
          | inl e' ↦ elim own [ inl e'' ↦ inl (e' ∙ e'') | inr mine ↦ inr mine ]
          | inr mine ↦ inr (ap (λ x. x.tenant_id) (sym same) ∙ mine)
        ],
      );
}

update-IsIsolated :
    (now : ℕ) (tenant id : String) (x : Value) (s : List Template) (row : Template)
    → get_env_template id s ≡ some row
    → row.tenant_id ≡ tenant
    → IsIsolated tenant s (update_where (λ t. t.id == id) (described now x) s)
unfolding get_env_template described
update-IsIsolated now tenant id x s row there mine = record {
  missing = λ j e. elim (text_cases j id) [
    | inl (y, same) ↦
        let e' : get_env_template id s ≡ none = subst (λ k. get_env_template k s ≡ none) same e in
        cc
    | inr (n, other) ↦ find-update_other (λ t. t.id) j id (described now x) s (λ t. refl) n ∙ e
  ];
  kept = λ j t e. elim (text_cases j id) [
    | inl (y, same) ↦
        let e' : get_env_template id s ≡ some t =
          subst (λ k. get_env_template k s ≡ some t) same e in
        let one : t ≡ row = cc in
        (
          described now x t,
          subst
              (λ k.
                find (λ u. u.id == k) (update_where (λ u. u.id == id) (described now x) s)
                ≡ some (described now x t))
              (sym same) (find-update_where (λ u. u.id == id) (described now x) s t (λ u. refl) e'),
          refl,
          inr (ap (λ u. u.tenant_id) one ∙ mine),
        )
    | inr (n, other) ↦ (
      t,
      find-update_other (λ u. u.id) j id (described now x) s (λ u. refl) n ∙ e,
      refl,
      inl refl,
    )
  ];
}

saved-IsIsolated :
    (now : ℕ) (request : Request) (id : String) (x : Value) (s s' : List Template) (row : Template)
    → verify_env_template request id s ≡ ok row
    → save_description now x (some id) s ≡ ok s'
    → IsIsolated request.tenant s s'
unfolding save_description verify_env_template get_env_template described
saved-IsIsolated now request id x s s' row checked stored =
    >>=-eq-ok (from_option (get_env_template id s) http_not_found) _ checked λ t found c.
      >>=-eq-ok (guard (t.tenant_id == request.tenant) http_forbidden) _ c λ _ g _.
        >>=-eq-ok (from_option (get_env_template id s) attribute_error) _ stored λ _ _ e.
          let there : get_env_template id s ≡ some t = from_option-ok _ _ _ found in
          let mine : t.tenant_id ≡ request.tenant =
            (eq_iff t.tenant_id request.tenant).0 (guard-ok _ _ _ g) in
          rw (← ok-injective e) (update-IsIsolated now request.tenant id x s t there mine)

-- A request for the applications of a template that is answered without an error.
pub data Call (request : Request) (s : List Template) : List Template → Type 0 where
  posts :
      (now : ℕ) (id path : String) (body : Value) (r : Value × List Template)
      → post_application now request id path body s ≡ ok r
      → Call request s r.1
  puts :
      (now : ℕ) (time : String) (allowed : Bool) (id path : String) (body : Value)
      (r : Value × List Template)
      → put_application now time allowed request id path body s ≡ ok r
      → Call request s r.1
  deletes :
      (now : ℕ) (id path : String) (r : Value × List Template)
      → delete_application now request id path s ≡ ok r
      → Call request s r.1

pub data Requests (request : Request) (s : List Template) : List Template → Type 0 where
  none_yet : Requests request s s
  one_more : {t u : List Template} → Requests request s t → Call request t u → Requests request s u

Call-IsIsolated :
    {request : Request} {s t : List Template} → Call request s t → IsIsolated request.tenant s t
unfolding post_application put_application delete_application post_application_data
    put_application_data delete_env_template_data
Call-IsIsolated {request} {s} (posts now id path body r e) =
    >>=-eq-ok (verify_env_template request id s) _ e λ row checked e₁.
      >>=-eq-ok (with_posted id body (normalize_path path) s) _ (not_found-ok _ _ e₁) λ x _ e₂.
        >>=-eq-ok (save_description now x (some id) s) _ e₂ λ s' stored e₃.
          subst (IsIsolated request.tenant s) (ap (λ p. p.1) (ok-injective e₃))
            (saved-IsIsolated now request id x s s' row checked stored)
Call-IsIsolated {request} {s} (puts now time allowed id path body r e) =
    >>=-eq-ok (verify_env_template request id s) _ e λ row checked e₁.
      >>=-eq-ok (guard allowed http_forbidden) _ e₁ λ _ _ e₂.
        >>=-eq-ok (get_description id s) _ (not_found-ok _ _ e₂) λ description _ e₃.
          >>=-eq-ok (guard (not (is_none description)) http_not_found) _ e₃ λ _ _ e₄.
            >>=-eq-ok (subscript description "services") _ e₄ λ services _ e₅.
              >>=-eq-ok (check_each (key_of (normalize_path path)) services) _ e₅ λ _ _ e₆.
                >>=-eq-ok (update "services/0" body description) _ e₆ λ changed _ e₇.
                  >>=-eq-ok (store_item changed "updated" (str time)) _ e₇ λ x _ e₈.
                    >>=-eq-ok (save_description now x (some id) s) _ e₈ λ s' stored e₉.
                      subst (IsIsolated request.tenant s) (ap (λ p. p.1) (ok-injective e₉))
                        (saved-IsIsolated now request id x s s' row checked stored)
Call-IsIsolated {request} {s} (deletes now id path r e) =
    >>=-eq-ok (verify_env_template request id s) _ e λ row checked e₁.
      >>=-eq-ok (get_description id s) _ (not_found-ok _ _ e₁) λ description _ e₂.
        >>=-eq-ok (guard (not (is_none description)) http_not_found) _ e₂ λ _ _ e₃.
          >>=-eq-ok (remove (normalize_path path) description) _ e₃ λ x _ e₄.
            >>=-eq-ok (save_description now x (some id) s) _ e₄ λ s' stored e₅.
              subst (IsIsolated request.tenant s) (ap (λ p. p.1) (ok-injective e₅))
                (saved-IsIsolated now request id x s s' row checked stored)

-- Any requests of one tenant for the applications of templates, each answered without an error:
-- every template stays, with its name, its tenant and all else but the description and the time of
-- its update; and a template of another tenant keeps these too.
pub Requests-IsIsolated :
    {request : Request} {s t : List Template} → Requests request s t → IsIsolated request.tenant s t
Requests-IsIsolated {request} {s} none_yet = IsIsolated-refl request.tenant s
Requests-IsIsolated {request} {s} {t} (one_more {t = u} calls call) =
    IsIsolated-trans request.tenant s u t (Requests-IsIsolated calls) (Call-IsIsolated call)
