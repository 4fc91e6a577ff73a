-- ===== src/Api/Services.antt =====
-- The handlers of murano/api/v1/services.py, with their decorators in order. They return the new
-- tables, and change none where they raise.
use murano_temp.Access.{Request, check_env, verify_session}
use murano_temp.Base.{
  Bool, Option, String, ap, arith, false, if◌then◌else◌, none, not, refl, some, true, ℕ, ◌==◌, ◌∙◌,
  ◌≡◌,
}
use murano_temp.Base.Result.{
  >>=-eq-ok, Error, Result, attribute_error, err, from_option, guard, http_bad_request,
  http_conflict, http_forbidden, http_not_found, http_unauthorized, index_error, key_error,
  lookup_error, ok, other_error, ok-injective, type_error, value_error, ◌>>=◌, ◌>>◌,
}
use murano_temp.Json.{Value, truthy}
use murano_temp.Server.{Environment, Server, Session, is_deploying}
use murano_temp.Server.Sql.{Sql}
use murano_temp.Server.Tables.{get_environment, get_session}
use murano_temp.Services.{delete_data, get_data, post_data, put_data}
use murano_temp.Services.Isolation.{Call, deletes, posts, puts}
use murano_temp.Sessions.{validate}
use mathlib.Core.Path.{subst}

unfoldable pub normalize_path : String → String
normalize_path path = if path == "" then "/services" else Prim.Native.String.◌++◌ "/services/" path

-- `except (KeyError, ValueError): raise exc.HTTPNotFound`
abbrev pub not_found : {A : Type 0} → Result A → Result A
not_found (ok a) = ok a
not_found (err key_error) = err http_not_found
not_found (err value_error) = err http_not_found
not_found (err e) = err e

-- The same with AttributeError.
abbrev pub not_found_at_all : {A : Type 0} → Result A → Result A
not_found_at_all (err attribute_error) = err http_not_found
not_found_at_all r = not_found r

-- `if request.context.session`
abbrev given : Option String → Option String
given none = none
given (some id) = if id == "" then none else some id

unfoldable pub get_services : Sql → Request → String → String → Server → Result Value
unfolding normalize_path
get_services sql request environment_id path s = do
  check_env request environment_id s
  not_found_at_all (get_data sql environment_id (normalize_path path) (given request.session) s)

-- `verify_session`, then `verify_env`: the id of the session.
verify : Request → String → Server → Result String
verify request environment_id s = do
  verify_session request s
  check_env request environment_id s
  from_option request.session http_bad_request

unfoldable pub post : ℕ → Request → String → String → Value → Server → Result (Value × Server)
unfolding normalize_path verify
post now request environment_id path body s = do
  session_id ← verify request environment_id s
  guard (truthy body) http_bad_request
  not_found (post_data now environment_id session_id body (normalize_path path) s)

unfoldable pub put :
    ℕ → String → Request → String → String → Value → Server → Result (Value × Server)
unfolding normalize_path verify
put now time request environment_id path body s = do
  session_id ← verify request environment_id s
  guard (truthy body) http_bad_request
  not_found (put_data now time environment_id session_id body (normalize_path path) s)

unfoldable pub delete : ℕ → Request → String → String → Server → Result Server
unfolding normalize_path verify
delete now request environment_id path s = do
  session_id ← verify request environment_id s
  not_found (delete_data now environment_id session_id (normalize_path path) s)

-- A request to change the services that is answered without an error.
pub data Change (request : Request) (environment_id : String) (s : Server) : Server → Type 0 where
  posted :
      (now : ℕ) (path : String) (body : Value) (r : Value × Server)
      → post now request environment_id path body s ≡ ok r
      → Change request environment_id s r.1
  put_back :
      (now : ℕ) (time path : String) (body : Value) (r : Value × Server)
      → put now time request environment_id path body s ≡ ok r
      → Change request environment_id s r.1
  dropped :
      (now : ℕ) (path : String) (s' : Server)
      → delete now request environment_id path s ≡ ok s'
      → Change request environment_id s s'

-- What the request's session and environment were.
abbrev pub IsVerified : Request → String → String → Server → Type 0
IsVerified request environment_id id s =
    (request.session ≡ some id)
    × ((session : Session) × (get_session id s ≡ some session)
        × (validate session s ≡ ok true)
        × (is_deploying session.state ≡ false))
    × ((e : Environment) × (get_environment environment_id s ≡ some e)
        × ((e.tenant_id == request.tenant) ≡ true))

pub not_found-ok : {A : Type 0} (r : Result A) (a : A) → not_found r ≡ ok a → r ≡ ok a
not_found-ok (ok b) a e = e
not_found-ok (err key_error) a e = cc
not_found-ok (err value_error) a e = cc
not_found-ok (err type_error) a e = cc
not_found-ok (err index_error) a e = cc
not_found-ok (err attribute_error) a e = cc
not_found-ok (err lookup_error) a e = cc
not_found-ok (err http_bad_request) a e = cc
not_found-ok (err http_unauthorized) a e = cc
not_found-ok (err http_forbidden) a e = cc
not_found-ok (err http_not_found) a e = cc
not_found-ok (err http_conflict) a e = cc
not_found-ok (err other_error) a e = cc

some_of : {A : Type 0} (o : Option A) (e : Error) (a : A) → from_option o e ≡ ok a → o ≡ some a
some_of none e a h = cc
some_of (some b) e a h = ap some (ok-injective h)

holds : (b : Bool) (e : Error) → guard b e ≡ ok tt → b ≡ true
holds true e h = refl
holds false e h = cc

verified_session :
    (request : Request) (s : Server) (session : Session) (id : String)
    → request.session ≡ some id
    → verify_session request s ≡ ok session
    → (get_session id s ≡ some session)
      × (validate session s ≡ ok true)
      × (is_deploying session.state ≡ false)
unfolding verify_session
verified_session request s session id named h =
    >>=-eq-ok (from_option request.session http_bad_request) _ h λ id' e₀ h₀.
      >>=-eq-ok (guard (not (id' == "")) http_bad_request) _ h₀ λ _ _ h₁.
        >>=-eq-ok (from_option (get_session id' s) http_not_found) _ h₁ λ row e₁ h₂.
          >>=-eq-ok (validate row s) _ h₂ λ valid e₂ h₃.
            >>=-eq-ok (guard valid http_forbidden) _ h₃ λ _ e₃ h₄.
              >>=-eq-ok (guard (not (is_deploying row.state)) http_forbidden) _ h₄ λ _ e₄ h₅.
                let same_id : id' ≡ id = ground (arith, some_of _ _ _ e₀) in
                let same : row ≡ session = ok-injective h₅ in
                let found : get_session id s ≡ some row =
                  subst (λ j. get_session j s ≡ some row) same_id (some_of _ _ _ e₁) in
                let live : is_deploying row.state ≡ false = ground (arith, holds _ _ e₄) in
                subst
                  (λ (t : Session).
                    (get_session id s ≡ some t)
                    × (validate t s ≡ ok true)
                    × (is_deploying t.state ≡ false))
                  same (found, e₂ ∙ ap ok (holds _ _ e₃), live)

verify-IsVerified :
    (request : Request) (environment_id : String) (s : Server) (id : String)
    → verify request environment_id s ≡ ok id
    → IsVerified request environment_id id s
unfolding verify check_env
verify-IsVerified request environment_id s id h =
    >>=-eq-ok (verify_session request s) _ h λ session e₀ h₀.
      >>=-eq-ok (check_env request environment_id s) _ h₀ λ _ c h₁.
        >>=-eq-ok (from_option (get_environment environment_id s) http_not_found) _ c λ row f c₁.
          >>=-eq-ok (guard (row.tenant_id == request.tenant) http_forbidden) _ c₁ λ _ g _.
            let named = some_of request.session _ id h₁ in
            let v = verified_session request s session id named e₀ in
            (named, (session, v.0, v.1, v.2), (row, some_of _ _ _ f, holds _ _ g))

-- A request that changes the services and is answered without an error named a session that was
-- there, valid and not deploying, and an environment of the caller's tenant; and its effect is that of
-- one call through that session.
pub Change-IsVerified :
    {request : Request} {environment_id : String} {s t : Server}
    → Change request environment_id s t
    → (id : String) × IsVerified request environment_id id s × Call id s t
unfolding post put delete
Change-IsVerified {request} {environment_id} {s} (posted now path body r h) =
    >>=-eq-ok (verify request environment_id s) _ h λ id e₀ h₀.
      >>=-eq-ok (guard (truthy body) http_bad_request) _ h₀ λ _ _ h₁. (
        id,
        verify-IsVerified request environment_id s id e₀,
        posts now environment_id body (normalize_path path) r (not_found-ok _ r h₁),
      )
Change-IsVerified {request} {environment_id} {s} (put_back now time path body r h) =
    >>=-eq-ok (verify request environment_id s) _ h λ id e₀ h₀.
      >>=-eq-ok (guard (truthy body) http_bad_request) _ h₀ λ _ _ h₁. (
        id,
        verify-IsVerified request environment_id s id e₀,
        puts now time environment_id body (normalize_path path) r (not_found-ok _ r h₁),
      )
Change-IsVerified {request} {environment_id} {s} (dropped now path s' h) =
    >>=-eq-ok (verify request environment_id s) _ h λ id e₀ h₀. (
      id,
      verify-IsVerified request environment_id s id e₀,
      deletes now environment_id (normalize_path path) s' (not_found-ok _ s' h₀),
    )
