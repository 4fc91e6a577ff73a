-- ===== src/Services.antt =====
-- The data of an environment as the services API sees it: `get_data`, `post_data`, `put_data` and
-- `delete_data` of murano/db/services/core_services.py. The env-template half is not modelled.
pub mod Isolation
pub mod Inserted
use murano_temp.Base.{Bool, Option, String, [], if◌then◌else◌, not, some, true, ℕ, ◌==◌}
use murano_temp.Base.Result.{Result, err, guard, http_not_found, ok, type_error, ◌>>=◌, ◌>>◌}
use murano_temp.Environments.{get_environment_description, get_status, save_environment_description}
use murano_temp.Json.{
  Items, Value, cons, contains, dict, end, is_none, list, nil, null, store_item, str, subscript,
}
use murano_temp.Server.{EnvironmentStatus, Server}
use murano_temp.Server.Sql.{Sql}
use murano_temp.Traverse.{get}
use murano_temp.Traverse.Edit.{extend, insert, remove, update}

services_path : String → Bool
services_path path = path == "/services"

-- `srv['?']['status'] = status` for each item
with_status : Value → Items → Result Items
with_status status nil = ok nil
with_status status (cons srv rest) = do
  meta ← subscript srv "?"
  id ← subscript meta "id"
  known ← store_item meta "status" status
  shown ← store_item srv "?" known
  others ← with_status status rest
  ok (cons shown others)

status_text : EnvironmentStatus → String
status_text EnvironmentStatus.ready = "ready"
status_text EnvironmentStatus.pending = "pending"
status_text EnvironmentStatus.deploying = "deploying"
status_text EnvironmentStatus.deploy_failure = "deploy failure"
status_text EnvironmentStatus.deleting = "deleting"
status_text EnvironmentStatus.delete_failure = "delete failure"

-- `for srv in result: …` at what was found; a text or a dict has no `['?']` in its items.
show_services : Value → Value → Result Value
unfolding with_status
show_services status (list xs) = do shown ← with_status status xs; ok (list shown)
show_services status (str String.[]) = ok (str "")
show_services status (dict end) = ok (dict end)
show_services status _ = err type_error

unfoldable pub get_data : Sql → String → String → Option String → Server → Result Value
unfolding services_path status_text show_services get_environment_description get_status
get_data sql environment_id path session_id s = do
  description ← get_environment_description environment_id session_id true s
  if is_none description then ok null else do
    listed ← contains description "services"
    if not listed then ok (list nil) else do
      result ← get path description
      if services_path path
          then show_services (str (status_text (get_status sql environment_id s))) result
          else ok result

-- `env_description['services'] = []` where there is none
unfoldable pub with_services : Value → Result Value
with_services description = do
  listed ← contains description "services"
  if listed then ok description else store_item description "services" (list nil)

-- The new item or items at `/services`; any other path changes nothing.
unfoldable pub put_services : String → Value → Value → Result Value
unfolding services_path extend insert
put_services path (list values) description =
    if services_path path then extend path values description else ok description
put_services path value description =
    if services_path path then insert path value description else ok description

unfoldable pub post_data : ℕ → String → String → Value → String → Server → Result (Value × Server)
unfolding get_environment_description save_environment_description with_services put_services
post_data now environment_id session_id value path s = do
  description ← get_environment_description environment_id (some session_id) true s
  guard (not (is_none description)) http_not_found
  listed ← with_services description
  changed ← put_services path value listed
  s' ← save_environment_description now session_id changed true s
  ok (value, s')

-- `time` is the text of the time now.
unfoldable pub put_data :
    ℕ → String → String → String → Value → String → Server → Result (Value × Server)
unfolding get_environment_description save_environment_description update
put_data now time environment_id session_id value path s = do
  description ← get_environment_description environment_id (some session_id) true s
  changed ← update path value description
  meta ← subscript changed "?"
  stamped ← store_item meta "updated" (str time)
  result ← store_item changed "?" stamped
  s' ← save_environment_description now session_id result true s
  ok (value, s')

unfoldable pub delete_data : ℕ → String → String → String → Server → Result Server
unfolding get_environment_description save_environment_description remove
delete_data now environment_id session_id path s = do
  description ← get_environment_description environment_id (some session_id) true s
  changed ← remove path description
  save_environment_description now session_id changed true s
