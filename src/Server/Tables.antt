-- ===== src/Server/Tables.antt =====
-- The queries: `query(Model).get(id)`, `filter_by`, `count`, adding, saving and deleting rows.
use murano_temp.Base.{
  String, ◌==◌, Bool, not, ◌&&◌, Option, [], ◌∷◌, ◌++◌, filter, find, update_where, any_of,
}
use murano_temp.Server.Rows.{Environment, Session, Task, Status, Server}

unfoldable pub get_environment : String → Server → Option Environment
get_environment id s = find (λ e. e.id == id) s.environments

unfoldable pub get_session : String → Server → Option Session
get_session id s = find (λ r. r.id == id) s.sessions

abbrev pub of_environment : String → Session → Bool
of_environment id r = r.environment_id == id

unfoldable pub add_session : Session → Server → Server
add_session r s = record s { sessions = s.sessions ++ r ∷ [] }

unfoldable pub delete_session : String → Server → Server
delete_session id s = record s { sessions = filter (λ r. not (r.id == id)) s.sessions }

unfoldable pub update_session : String → (Session → Session) → Server → Server
update_session id f s = record s { sessions = update_where (λ r. r.id == id) f s.sessions }

unfoldable pub update_environment : String → (Environment → Environment) → Server → Server
update_environment id f s = record s {
  environments = update_where (λ e. e.id == id) f s.environments;
}

-- `unit.delete(environment)`: the relations of models.Environment and models.Task cascade.
unfoldable pub delete_environment : String → Server → Server
unfolding any_of
delete_environment id s = record s {
  environments = filter (λ e. not (e.id == id)) s.environments;
  sessions = filter (λ r. not (of_environment id r)) s.sessions;
  tasks = filter (λ t. not (t.environment_id == id)) s.tasks;
  statuses =
      filter
        (λ status. not (any_of (λ t. t.environment_id == id && t.id == status.task_id) s.tasks))
        s.statuses;
}

unfoldable pub add_task : Task → Server → Server
add_task t s = record s { tasks = s.tasks ++ t ∷ [] }

unfoldable pub update_task_row : String → (Task → Task) → Server → Server
update_task_row id f s = record s { tasks = update_where (λ t. t.id == id) f s.tasks }

unfoldable pub add_status : Status → Server → Server
add_status st s = record s { statuses = s.statuses ++ st ∷ [] }
