-- ===== src/Sessions/Valid.antt =====
-- `validate` of murano/db/services/sessions.py, and the rows that queries find.
use murano_temp.Base.{
  Bool, List, String, [], arith, eq_iff, false, find, some, sym, true, ◌==◌, ◌∷◌, ◌≡◌,
}
use murano_temp.Base.Result.{ok}
use murano_temp.Server.{Server, Session, is_opened}
use murano_temp.Server.Tables.{get_session}
use murano_temp.Sessions.{any_deploying, validate}
use mathlib.Core.Path.{subst}

-- An opened session is valid only while no session of its environment is deploying.
pub validate-idle :
    (session : Session) (s : Server)
    → validate session s ≡ ok true
    → is_opened session.state ≡ true
    → any_deploying session.environment_id s ≡ false
unfolding validate
validate-idle session s v o = ground arith

pub find-holds {ℓ} :
    {A : Type ℓ} (q : A → Bool) (l : List A) (a : A) → find q l ≡ some a → q a ≡ true
unfolding find
find-holds q [] a e = cc
find-holds q (x ∷ l) a e = ground (arith, find-holds q l a)

-- A row that was found is found by its own id.
pub get_session_self :
    (id : String) (s : Server) (r : Session)
    → get_session id s ≡ some r
    → get_session r.id s ≡ some r
unfolding get_session
get_session_self id s r e =
    let same : r.id ≡ id = (eq_iff r.id id).0 (find-holds (λ t. t.id == id) s.sessions r e) in
    subst (λ i. find (λ t. t.id == i) s.sessions ≡ some r) (sym same) e
