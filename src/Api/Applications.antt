-- ===== src/Api/Applications.antt =====
-- The handlers of murano/api/v1/template_applications.py, with `verify_env_template` of
-- murano/utils.py and `normalize_path`, which is that of the services. What the policy engine
-- answers is given.
pub mod Isolation
use murano_temp.Access.{Request}
use murano_temp.Api.Services.{normalize_path, not_found, not_found_at_all}
use murano_temp.Base.{Bool, List, String, ℕ, ◌==◌}
use murano_temp.Base.Result.{
  Result, from_option, guard, http_forbidden, http_not_found, ok, ◌>>=◌, ◌>>◌,
}
use murano_temp.Json.{Value}
use murano_temp.Templates.{
  Template, delete_env_template_data, get_env_template, get_template_data, post_application_data,
  put_application_data,
}

unfoldable pub verify_env_template : Request → String → List Template → Result Template
verify_env_template request env_template_id s = do
  template ← from_option (get_env_template env_template_id s) http_not_found
  guard (template.tenant_id == request.tenant) http_forbidden
  ok template

-- `index` and `show` do the same.
unfoldable pub get_applications : Request → String → String → List Template → Result Value
unfolding verify_env_template
get_applications request env_template_id path s = do
  verify_env_template request env_template_id s
  not_found_at_all (get_template_data env_template_id (normalize_path path) s)

unfoldable pub post_application :
    ℕ → Request → String → String → Value → List Template → Result (Value × List Template)
unfolding verify_env_template
post_application now request env_template_id path body s = do
  verify_env_template request env_template_id s
  not_found (post_application_data now env_template_id body (normalize_path path) s)

unfoldable pub put_application :
    ℕ
    → String
    → Bool
    → Request
    → String
    → String
    → Value
    → List Template
    → Result (Value × List Template)
unfolding verify_env_template
put_application now time allowed request env_template_id path body s = do
  verify_env_template request env_template_id s
  guard allowed http_forbidden
  not_found (put_application_data now time env_template_id body (normalize_path path) s)

unfoldable pub delete_application :
    ℕ → Request → String → String → List Template → Result (Value × List Template)
unfolding verify_env_template
delete_application now request env_template_id path s = do
  verify_env_template request env_template_id s
  not_found (delete_env_template_data now env_template_id (normalize_path path) s)
