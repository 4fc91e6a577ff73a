-- ===== src/Server/Rows.antt =====
-- murano/services/states.py and the columns of murano/db/models.py that the services use.
use murano_temp.Base.{Bool, List, Option, String, false, true, ℕ}
use murano_temp.Json.{Value}

pub data SessionState : Type 0 where
  opened deploying deployed deploy_failure deleting delete_failure : SessionState

-- The statuses share four names with the session states.
pub data EnvironmentStatus : Type 0 where
  ready pending deploying deploy_failure deleting delete_failure : EnvironmentStatus

abbrev pub is_opened : SessionState → Bool
is_opened SessionState.opened = true
is_opened _ = false

abbrev pub is_deploying : SessionState → Bool
is_deploying SessionState.deploying = true
is_deploying _ = false

abbrev pub is_deleting : SessionState → Bool
is_deleting SessionState.deleting = true
is_deleting _ = false

abbrev pub is_deployed : SessionState → Bool
is_deployed SessionState.deployed = true
is_deployed _ = false

abbrev pub same_state : SessionState → SessionState → Bool
same_state SessionState.opened s = is_opened s
same_state SessionState.deploying s = is_deploying s
same_state SessionState.deployed s = is_deployed s
same_state SessionState.deploy_failure s = elim s [ SessionState.deploy_failure ↦ true | _ ↦ false ]
same_state SessionState.deleting s = is_deleting s
same_state SessionState.delete_failure s = elim s [ SessionState.delete_failure ↦ true | _ ↦ false ]

pub record Environment : Type 0 where
  pub id : String
  pub name : String
  pub tenant_id : String
  pub version : ℕ
  pub description : Value

pub record Session : Type 0 where
  pub id : String
  pub environment_id : String
  pub user_id : String
  pub state : SessionState
  pub version : ℕ
  pub updated : ℕ
  pub description : Value

pub record Task : Type 0 where
  pub id : String
  pub environment_id : String
  pub started : ℕ
  pub finished : Option ℕ
  pub description : Value
  pub action : Value
  pub result : Value

pub data Level : Type 0 where
  info warning error : Level

-- What an engine task did, by the texts 'Deployment finished' and 'Deletion finished'.
pub data Work : Type 0 where
  deployment deletion : Work

-- A status text, as its format and what is put into it.
pub data Text : Type 0 where
  scheduled : Value → Text
  finished finished_with_warnings finished_with_errors : Work → Text
  report : String → Text

pub record Status : Type 0 where
  pub task_id : String
  pub text : Text
  pub level : Level

-- `sent` is what `rpc.engine().handle_task` was called with, the first call first.
pub record Server : Type 0 where
  pub environments : List Environment
  pub sessions : List Session
  pub tasks : List Task
  pub statuses : List Status
  pub sent : List Value
