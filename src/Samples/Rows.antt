-- ===== src/Samples/Rows.antt =====
-- An environment with one service and its sessions, in the states that the examples need.
use murano_temp.Access.{Request}
use murano_temp.Base.{[], none, some, ◌∷◌}
use murano_temp.Json.{Value, cons, dict, end, field, list, nil, null, str}
use murano_temp.Server.{Environment, Server, Session, SessionState, Task}

abbrev pub service : Value
service = dict (field "?" (dict (field "id" (str "a") end)) (field "name" (str "db") end))

abbrev pub objects : Value
objects =
    dict (
      field "?" (dict (field "id" (str "e1") end)) (field "services" (list (cons service nil)) end))

abbrev pub whole : Value
whole = dict (field "Objects" objects end)

abbrev pub environment : Environment
environment = record { id = "e1"; name = "env"; tenant_id = "t1"; version = 0; description = whole }

abbrev pub session_in : SessionState → Session
session_in state = record {
  id = "s1";
  environment_id = "e1";
  user_id = "u1";
  state = state;
  version = 0;
  updated = 1;
  description = whole;
}

abbrev pub task : Task
task = record {
  id = "k1";
  environment_id = "e1";
  started = 2;
  finished = none;
  description = objects;
  action = null;
  result = null;
}

abbrev pub server_in : SessionState → Server
server_in state = record {
  environments = environment ∷ [];
  sessions = session_in state ∷ [];
  tasks = task ∷ [];
  statuses = [];
  sent = [];
}

-- Before a deployment of the session, and while it runs.
abbrev pub before : Server
before = server_in SessionState.opened

abbrev pub during : Server
during = server_in SessionState.deploying

abbrev pub request : Request
request = record { tenant = "t1"; user = "u1"; auth_token = "x"; session = some "s1" }

-- What the engine answers: the model with its applications, and no exception.
abbrev pub answer_value : Value
answer_value = dict (
    field "model"
      (dict (
        field "Objects"
          (dict (
            field "?" (dict (field "id" (str "e1") end))
              (field "applications" (list (cons service nil)) end)))
          (field "ObjectsCopy" objects end)))
      (field "action" (dict end) end))
