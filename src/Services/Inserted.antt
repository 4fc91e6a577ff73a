-- ===== src/Services/Inserted.antt =====
-- `post_data` of murano/db/services/core_services.py and what is read through the session then.
use murano_temp.Base.{
  Bool, List, String, [], any_of, ap, arith, false, if◌then◌else◌, none, not, refl, some, sym, true,
  update_where, ℕ, ◌&&◌, ◌==◌, ◌∙◌, ◌∷◌, ◌≡◌,
}
use murano_temp.Base.Num.{ltb}
use murano_temp.Base.Result.{
  >>=-eq-ok, attribute_error, err, from_option, guard, http_not_found, ok, ok-injective, ◌>>=◌,
}
use murano_temp.Environments.{
  copy_of, get_environment_description, save_environment_description, whole_description,
}
use murano_temp.Json.{
  Items, Value, append_item, boolean, dict, int, is_list, is_none, list, null, store_item, str,
  subscript,
}
use murano_temp.Json.Dict.{lookup-set_key_self}
use murano_temp.Server.{Server, Session, is_deployed, is_deploying, is_opened}
use murano_temp.Server.Counts.{find-update_where}
use murano_temp.Server.Tables.{get_environment, get_session, of_environment, update_session}
use murano_temp.Services.{post_data, put_services, with_services}
use murano_temp.Sessions.{any_deploying, validate}
use murano_temp.Traverse.{get}
use murano_temp.Traverse.Edit.{insert}
use murano_temp.Traverse.Lens.{insert-get}

pub put_services-insert :
    (path : String) (value description : Value)
    → is_list value ≡ false
    → (path == "/services") ≡ true
    → put_services path value description ≡ insert path value description
unfolding put_services
put_services-insert path (list xs) description n e = cc
put_services-insert path null description n e = rw e refl
put_services-insert path (boolean b) description n e = rw e refl
put_services-insert path (int i) description n e = rw e refl
put_services-insert path (str s) description n e = rw e refl
put_services-insert path (dict fs) description n e = rw e refl

any_of-update_where :
    (p q : Session → Bool) (f : Session → Session) (l : List Session)
    → ((x : Session) → p (f x) ≡ p x)
    → any_of p (update_where q f l) ≡ any_of p l
unfolding any_of update_where
any_of-update_where p q f [] h = refl
any_of-update_where p q f (x ∷ l) h = ground (arith, h x, any_of-update_where p q f l h)

abbrev edited : Value → ℕ → Session → Session
edited description now r = record r { description = description; updated = now }

-- An edit keeps a session valid.
validate-edited :
    (description : Value) (now : ℕ) (id : String) (session : Session) (s : Server)
    → validate (edited description now session) (update_session id (edited description now) s)
      ≡ validate session s
unfolding validate update_session any_deploying get_environment
validate-edited description now id session s =
    ap
      (λ (b : Bool). elim (get_environment session.environment_id s) [
        | none ↦ err attribute_error
        | some environment ↦
            if ltb session.version environment.version
            then ok false
            else if is_opened session.state && b
            then ok false
            else ok true
      ])
      (any_of-update_where (λ r. of_environment session.environment_id r && is_deploying r.state)
        (λ r. r.id == id) (edited description now) s.sessions (λ x. refl))

stored :
    (d : Value) (x w : Value)
    → (copy_of d >>= λ copied. store_item copied "Objects" x) ≡ ok w
    → subscript w "Objects" ≡ ok x
unfolding store_item subscript
stored (dict fs) x w e = rw (← ok-injective e) (rw (lookup-set_key_self "Objects" x fs) refl)
stored null x w e = cc
stored (boolean b) x w e = cc
stored (int n) x w e = cc
stored (str t) x w e = cc
stored (list xs) x w e = cc

-- What is saved through a session that is valid and not deployed is what is read through it.
save-get :
    (now : ℕ) (environment_id id : String) (x : Value) (s s' : Server) (session : Session)
    → get_session id s ≡ some session
    → validate session s ≡ ok true
    → is_deployed session.state ≡ false
    → save_environment_description now id x true s ≡ ok s'
    → get_environment_description environment_id (some id) true s' ≡ ok x
unfolding save_environment_description get_environment_description whole_description
save-get now environment_id id x s s' session found valid live e =
    >>=-eq-ok (from_option (get_session id s) attribute_error) _ e λ row f e₁.
      >>=-eq-ok (copy_of row.description >>= λ copied. store_item copied "Objects" x) _ e₁
        λ description w e₂.
          let there : get_session id (update_session id (edited description now) s)
              ≡ some (edited description now session) =
            unfold get_session update_session in
            find-update_where (λ r. r.id == id) (edited description now) s.sessions session
              (λ r. refl) found in
          let still : validate (edited description now session)
                (update_session id (edited description now) s)
              ≡ ok true =
            validate-edited description now id session s ∙ valid in
          rw (← ok-injective e₂) (rw (there, still, live) (stored row.description x description w))

-- The session is valid and not deployed, the value is no list, and posting it at /services raises
-- nothing. Then the model read through the session has the value after the services that were in it.
pub post_data-get :
    (now : ℕ) (environment_id id : String) (value : Value) (s : Server) (r : Value × Server)
    (session : Session)
    → get_session id s ≡ some session
    → validate session s ≡ ok true
    → is_deployed session.state ≡ false
    → is_list value ≡ false
    → post_data now environment_id id value "/services" s ≡ ok r
    → (before after : Value) × (xs : Items) × ((get_environment_description environment_id
            (some id)
            true
            s
          >>= with_services)
        ≡ ok before)
      × (get "/services" before ≡ ok (list xs))
      × (get_environment_description environment_id (some id) true r.1 ≡ ok after)
      × (get "/services" after ≡ ok (list (append_item xs value)))
unfolding post_data
post_data-get now environment_id id value s r session found valid live single h =
    >>=-eq-ok (get_environment_description environment_id (some id) true s) _ h λ description e₀ h₁.
      >>=-eq-ok (guard (not (is_none description)) http_not_found) _ h₁ λ _ _ h₂.
        >>=-eq-ok (with_services description) _ h₂ λ listed e₁ h₃.
          >>=-eq-ok (put_services "/services" value listed) _ h₃ λ changed e₂ h₄.
            >>=-eq-ok (save_environment_description now id changed true s) _ h₄ λ s' e₃ h₅.
              let inserted =
                insert-get "/services" value listed changed (refl, tt)
                  (sym (put_services-insert "/services" value listed single refl) ∙ e₂) in
              rw (← ok-injective h₅) (
                listed,
                changed,
                inserted.0,
                rw e₀ e₁,
                inserted.1,
                save-get now environment_id id changed s s' session found valid live e₃,
                inserted.2,
              )
