-- ===== src/Environments/Summary.antt =====
-- `remove` against the invariant, and the loop of `get_status` against its first settled session
-- (murano/db/services/environments.py).
use murano_temp.Base.{
  Bool, Bool-cases, List, String, [], arith, false, find, if◌then◌else◌, inl, inr, is_some, none,
  not, some, true, ◌||◌, ◌∷◌, ◌≡◌,
}
use murano_temp.Environments.{remove, status_of}
use murano_temp.Server.{EnvironmentStatus, Server, Session, SessionState, is_opened}
use murano_temp.Server.Sound.{IsSound, IsSound-delete_environment}
use murano_temp.Server.Tables.{get_environment}

pub remove-IsSound : (id : String) (s : Server) → IsSound s → IsSound (remove id s)
unfolding remove
remove-IsSound id s h = elim (Bool-cases (is_some (get_environment id s))) [
  | inl e ↦ rw e (IsSound-delete_environment id h)
  | inr e ↦ rw e h
]

-- A session that is not opened says what became of the environment.
abbrev pub is_settled : Session → Bool
is_settled r = not (is_opened r.state)

abbrev pub undeployed : Bool → EnvironmentStatus
undeployed true = EnvironmentStatus.pending
undeployed false = EnvironmentStatus.ready

-- The status that a settled session gives, with opened ones before it or not.
abbrev pub status_by : SessionState → Bool → EnvironmentStatus
status_by SessionState.deploying has_opened = EnvironmentStatus.deploying
status_by SessionState.deleting has_opened = EnvironmentStatus.deleting
status_by SessionState.deploy_failure has_opened = EnvironmentStatus.deploy_failure
status_by SessionState.delete_failure has_opened = EnvironmentStatus.delete_failure
status_by SessionState.deployed has_opened = undeployed has_opened
status_by SessionState.opened has_opened = undeployed has_opened

abbrev pub starts_opened : List Session → Bool
starts_opened [] = false
starts_opened (r ∷ l) = is_opened r.state

status_of-step :
    (b : Bool) (r : Session) (l : List Session)
    → status_of b (r ∷ l) ≡ (if is_opened r.state then status_of true l else status_by r.state b)
unfolding status_of
status_of-step b r l = ground arith

pub status_of-none :
    (l : List Session) (b : Bool)
    → find is_settled l ≡ none
    → status_of b l ≡ undeployed (b || starts_opened l)
unfolding find status_of
status_of-none [] b e = ground arith
status_of-none (r ∷ l) b e = ground (arith, status_of-step b r l, status_of-none l true)

pub status_of-some :
    (l : List Session) (b : Bool) (r : Session)
    → find is_settled l ≡ some r
    → status_of b l ≡ status_by r.state (b || starts_opened l)
unfolding find
status_of-some [] b r e = cc
status_of-some (t ∷ l) b r e = ground (arith, status_of-step b t l, status_of-some l true r)
