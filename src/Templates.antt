-- ===== src/Templates.antt =====
-- murano/db/services/environment_templates.py without `create` and `clone`, and the half of
-- murano/db/services/core_services.py that works on templates. The state is the table.
pub mod Posted
use murano_temp.Base.{
  Bool, List, Option, String, [], filter, find, if◌then◌else◌, is_some, none, not, some,
  update_where, ℕ, ◌&&◌, ◌==◌,
}
use murano_temp.Base.Result.{
  Result, attribute_error, err, from_option, guard, http_not_found, ok, type_error, value_error,
  ◌>>=◌, ◌>>◌,
}
use murano_temp.Json.{
  Items, Value, cons, contains, dict, end, is_none, is_text, list, nil, null, store_item, str,
  subscript, truthy,
}
use murano_temp.Services.{put_services, with_services}
use murano_temp.Traverse.{get}
use murano_temp.Traverse.Edit.{key_of, update}

pub record Template : Type 0 where
  pub id : String
  pub name : String
  pub tenant_id : String
  pub version : ℕ
  pub description : Value
  pub is_public : Bool
  pub description_text : String
  -- Of TimestampMixin.
  pub created : ℕ
  pub updated : ℕ

unfoldable pub get_env_template : String → List Template → Option Template
get_env_template id s = find (λ t. t.id == id) s

unfoldable pub env_template_exist : String → List Template → Bool
env_template_exist id s = is_some (get_env_template id s)

unfoldable pub get_description : String → List Template → Result Value
get_description id s = do
  template ← from_option (get_env_template id s) value_error
  ok template.description

unfoldable pub get_application_description : String → List Template → Result Value
unfolding get_description
get_application_description id s = do
  description ← get_description id s
  listed ← contains description "services"
  if listed then subscript description "services" else ok (list nil)

-- `template.update` sets the time of the update too. With no id, `none`, there is no row, and `update` is called on `None`.
unfoldable pub save_description : ℕ → Value → Option String → List Template → Result (List Template)
save_description now description none s = err attribute_error
save_description now description (some id) s = do
  from_option (get_env_template id s) attribute_error
  ok (update_where (λ t. t.id == id) (λ t. record t { description = description; updated = now }) s)

unfoldable pub delete : ℕ → String → List Template → Result (List Template)
unfolding get_description save_description
delete now id s = do
  description ← get_description id s
  emptied ← store_item description "description" null
  save_description now emptied (some id) s

unfoldable pub remove : String → List Template → List Template
unfolding filter
remove id s = if is_some (get_env_template id s) then filter (λ t. not (t.id == id)) s else s

unfoldable pub get_template_data : String → String → List Template → Result Value
unfolding get_description
get_template_data id path s = do
  description ← get_description id s
  if is_none description then ok null else do
    listed ← contains description "services"
    if not listed then ok (list nil) else do
      result ← get path description
      guard (not (is_none result)) http_not_found
      ok result

-- The description with the new services, which both `post` functions save.
unfoldable pub with_posted : String → Value → String → List Template → Result Value
unfolding get_description
with_posted id item path s = do
  description ← get_description id s
  guard (not (is_none description)) http_not_found
  listed ← with_services description
  put_services path item listed

-- The call of `save_description` leaves the template's id out.
unfoldable pub post_env_template_data :
    ℕ → String → Value → String → List Template → Result (Value × List Template)
unfolding with_posted save_description
post_env_template_data now id item path s = do
  changed ← with_posted id item path s
  s' ← save_description now changed none s
  ok (item, s')

unfoldable pub post_application_data :
    ℕ → String → Value → String → List Template → Result (Value × List Template)
unfolding with_posted save_description
post_application_data now id item path s = do
  changed ← with_posted id item path s
  s' ← save_description now changed (some id) s
  ok (item, s')

unfoldable pub delete_env_template_data :
    ℕ → String → String → List Template → Result (Value × List Template)
unfolding get_description save_description
delete_env_template_data now id path s = do
  description ← get_description id s
  guard (not (is_none description)) http_not_found
  changed ← murano_temp.Traverse.Edit.remove path description
  s' ← save_description now changed (some id) s
  ok (changed, s')

-- The loop over the services up to the one with the id: it reads every id, and its `count+1`
-- changes nothing.
check_services : String → Items → Result (Unit {0})
check_services id nil = ok tt
check_services id (cons service rest) = do
  meta ← subscript service "?"
  service_id ← subscript meta "id"
  if truthy service_id && is_text service_id id then ok tt else check_services id rest

-- `for service in services`
unfoldable pub check_each : String → Value → Result (Unit {0})
unfolding check_services
check_each id (list xs) = check_services id xs
check_each id (dict end) = ok tt
check_each id (str String.[]) = ok tt
check_each id _ = err type_error

-- `time` is the text of the time now, which has fractions.
unfoldable pub put_application_data :
    ℕ → String → String → Value → String → List Template → Result (Value × List Template)
unfolding get_description save_description check_each
put_application_data now time id item path s = do
  description ← get_description id s
  guard (not (is_none description)) http_not_found
  services ← subscript description "services"
  check_each (key_of path) services
  changed ← update "services/0" item description
  stamped ← store_item changed "updated" (str time)
  s' ← save_description now stamped (some id) s
  ok (item, s')
