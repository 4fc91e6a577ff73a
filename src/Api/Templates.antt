-- ===== src/Api/Templates.antt =====
-- The handlers index, show and delete of murano/api/v1/templates.py. They return rows, which
-- `to_dict` prints later. What the policy engine answers, and whether the caller is an
-- administrator, is given.
pub mod Listed
pub mod Deleted
use murano_temp.Access.{Request}
use murano_temp.Base.{
  Bool, List, Option, String, false, filter, if◌then◌else◌, none, not, some, true, ℕ, ◌&&◌, ◌==◌,
  ◌||◌,
}
use murano_temp.Base.Result.{
  Result, attribute_error, from_option, guard, http_forbidden, http_not_found, ok, ◌>>=◌, ◌>>◌,
}
use murano_temp.Json.{Value}
use murano_temp.Sanitize.{same_letter}
use murano_temp.Templates.{
  Template, delete, env_template_exist, get_env_template, get_template_data, remove,
}

-- `value.lower() == word`, for a word in lower case
unfoldable pub same_word : String → String → Bool
unfolding same_letter
same_word String.[] String.[] = true
same_word String.[] (String.◌∷◌ l word) = false
same_word (String.◌∷◌ c s) String.[] = false
same_word (String.◌∷◌ c s) (String.◌∷◌ l word) = same_letter l c && same_word s word

-- `filter_by(is_public=True)`, or `filter_by(is_public=False, tenant_id=tenant)`
unfoldable pub get_env_templates_by : Bool → String → List Template → List Template
get_env_templates_by true tenant s = filter (λ t. t.is_public) s
get_env_templates_by false tenant s = filter (λ t. not t.is_public && (t.tenant_id == tenant)) s

unfoldable pub get_env_templates_or_by : String → List Template → List Template
get_env_templates_or_by tenant s = filter (λ t. t.is_public || (t.tenant_id == tenant)) s

-- With the parameter `is_public` of the query. A text that is empty is as none.
unfoldable pub listed_templates : Option String → String → List Template → List Template
unfolding get_env_templates_by get_env_templates_or_by same_word
listed_templates none tenant s = get_env_templates_or_by tenant s
listed_templates (some asked) tenant s =
    if asked == ""
    then get_env_templates_or_by tenant s
    else get_env_templates_by (same_word asked "true") tenant s

unfoldable pub index : Bool → Option String → Request → List Template → Result (List Template)
unfolding listed_templates
index allowed is_public request s = do
  guard allowed http_forbidden
  ok (listed_templates is_public request.tenant s)

unfoldable pub validate_exists : String → List Template → Result Template
validate_exists id s = do
  guard (env_template_exist id s) http_not_found
  from_option (get_env_template id s) attribute_error

unfoldable pub validate_request : Bool → Request → String → List Template → Result (Unit {0})
unfolding validate_exists
validate_request is_admin request id s = do
  validate_exists id s
  template ← from_option (get_env_template id s) attribute_error
  if template.is_public || is_admin
      then ok tt
      else guard (template.tenant_id == request.tenant) http_forbidden

-- The row, and the services that it is returned with.
unfoldable pub show_template :
    Bool → Bool → Request → String → List Template → Result (Template × Value)
unfolding validate_request
show_template allowed is_admin request id s = do
  guard allowed http_forbidden
  validate_request is_admin request id s
  template ← from_option (get_env_template id s) attribute_error
  services ← get_template_data id "/services" s
  ok (template, services)

unfoldable pub delete_template :
    ℕ → Bool → Bool → Request → String → List Template → Result (List Template)
unfolding validate_request
delete_template now allowed is_admin request id s = do
  guard allowed http_forbidden
  validate_request is_admin request id s
  emptied ← delete now id s
  ok (remove id emptied)
