-- ===== src/Services/Isolation.antt =====
-- What the calls of murano/db/services/core_services.py do to the rest of the tables.
use murano_temp.Base.{
  Bool, Bool-cases, List, String, [], false, if◌then◌else◌, inl, inr, map, not, refl, some, sym,
  true, update_where, ℕ, ◌==◌, ◌∙◌, ◌∷◌, ◌≡◌,
}
use murano_temp.Base.Result.{
  >>=-eq-ok, attribute_error, from_option, guard, http_not_found, ok, ok-injective, ◌>>=◌,
}
use murano_temp.Environments.{copy_of, get_environment_description, save_environment_description}
use murano_temp.Json.{Value, is_none, store_item, str, subscript}
use murano_temp.Server.{Server, Session, SessionState}
use murano_temp.Server.Counts.{find-update_other}
use murano_temp.Server.Tables.{get_session, update_session}
use murano_temp.Services.{delete_data, post_data, put_data, put_services, with_services}
use murano_temp.Traverse.Edit.{remove, update}

-- The tables after `id`'s description has been changed at the time `now`.
abbrev pub IsEdit : ℕ → String → Server → Server → Type 0
IsEdit now id s s' =
    (description : Value) × (s'
      ≡ update_session id (λ r. record r { description = description; updated = now }) s)

save-IsEdit :
    (now : ℕ) (id : String) (environment : Value) (inner : Bool) (s s' : Server)
    → save_environment_description now id environment inner s ≡ ok s'
    → IsEdit now id s s'
unfolding save_environment_description
save-IsEdit now id environment inner s s' e =
    >>=-eq-ok (from_option (get_session id s) attribute_error) _ e λ session _ e₁.
      >>=-eq-ok
        (if inner
          then (copy_of session.description >>= λ copied. store_item copied "Objects" environment)
          else ok environment)
        _ e₁ λ description _ e₂. (description, sym (ok-injective e₂))

pub post_data-IsEdit :
    (now : ℕ) (environment_id id : String) (value : Value) (path : String) (s : Server)
    (r : Value × Server)
    → post_data now environment_id id value path s ≡ ok r
    → (r.0 ≡ value) × IsEdit now id s r.1
unfolding post_data
post_data-IsEdit now environment_id id value path s r h =
    >>=-eq-ok (get_environment_description environment_id (some id) true s) _ h λ description _ h₁.
      >>=-eq-ok (guard (not (is_none description)) http_not_found) _ h₁ λ _ _ h₂.
        >>=-eq-ok (with_services description) _ h₂ λ listed _ h₃.
          >>=-eq-ok (put_services path value listed) _ h₃ λ changed _ h₄.
            >>=-eq-ok (save_environment_description now id changed true s) _ h₄
              λ s' e h₅. rw (← ok-injective h₅) (refl, save-IsEdit now id changed true s s' e)

pub put_data-IsEdit :
    (now : ℕ) (time environment_id id : String) (value : Value) (path : String) (s : Server)
    (r : Value × Server)
    → put_data now time environment_id id value path s ≡ ok r
    → (r.0 ≡ value) × IsEdit now id s r.1
unfolding put_data
put_data-IsEdit now time environment_id id value path s r h =
    >>=-eq-ok (get_environment_description environment_id (some id) true s) _ h λ description _ h₁.
      >>=-eq-ok (update path value description) _ h₁ λ changed _ h₂.
        >>=-eq-ok (subscript changed "?") _ h₂ λ meta _ h₃.
          >>=-eq-ok (store_item meta "updated" (str time)) _ h₃ λ stamped _ h₄.
            >>=-eq-ok (store_item changed "?" stamped) _ h₄ λ result _ h₅.
              >>=-eq-ok (save_environment_description now id result true s) _ h₅
                λ s' e h₆. rw (← ok-injective h₆) (refl, save-IsEdit now id result true s s' e)

pub delete_data-IsEdit :
    (now : ℕ) (environment_id id path : String) (s s' : Server)
    → delete_data now environment_id id path s ≡ ok s'
    → IsEdit now id s s'
unfolding delete_data
delete_data-IsEdit now environment_id id path s s' h =
    >>=-eq-ok (get_environment_description environment_id (some id) true s) _ h λ description _ h₁.
      >>=-eq-ok (remove path description) _ h₁
        λ changed _ h₂. save-IsEdit now id changed true s s' h₂

-- A call of the services' API through the session `id` that raises nothing.
pub data Call (id : String) (s : Server) : Server → Type 0 where
  posts :
      (now : ℕ) (environment_id : String) (value : Value) (path : String) (r : Value × Server)
      → post_data now environment_id id value path s ≡ ok r
      → Call id s r.1
  puts :
      (now : ℕ) (time environment_id : String) (value : Value) (path : String) (r : Value × Server)
      → put_data now time environment_id id value path s ≡ ok r
      → Call id s r.1
  deletes :
      (now : ℕ) (environment_id path : String) (s' : Server)
      → delete_data now environment_id id path s ≡ ok s'
      → Call id s s'

pub data Calls (id : String) (s : Server) : Server → Type 0 where
  start : Calls id s s
  then_call : {t u : Server} → Calls id s t → Call id t u → Calls id s u

pub Call-IsEdit : {id : String} {s t : Server} → Call id s t → (now : ℕ) × IsEdit now id s t
Call-IsEdit {id} {s} (posts now environment_id value path r e) =
    (now, (post_data-IsEdit now environment_id id value path s r e).1)
Call-IsEdit {id} {s} (puts now time environment_id value path r e) =
    (now, (put_data-IsEdit now time environment_id id value path s r e).1)
Call-IsEdit {id} {s} (deletes now environment_id path s' e) =
    (now, delete_data-IsEdit now environment_id id path s s' e)

-- What stays of a session that is edited: its id, owner, state and version.
abbrev pub Skeleton : Type 0
Skeleton = String × String × String × SessionState × ℕ

abbrev pub skeleton : Session → Skeleton
skeleton r = (r.id, r.environment_id, r.user_id, r.state, r.version)

pub record IsIsolated (id : String) (s t : Server) : Type 0 where
  pub environments : t.environments ≡ s.environments
  pub tasks : t.tasks ≡ s.tasks
  pub statuses : t.statuses ≡ s.statuses
  pub sent : t.sent ≡ s.sent
  pub skeletons : map skeleton t.sessions ≡ map skeleton s.sessions
  pub others : (j : String) → (j == id) ≡ false → get_session j t ≡ get_session j s

map-update_where :
    {A B : Type 0} (g : A → B) (q : A → Bool) (f : A → A) (l : List A)
    → ((x : A) → g (f x) ≡ g x)
    → map g (update_where q f l) ≡ map g l
unfolding update_where
map-update_where g q f [] h = refl
map-update_where g q f (x ∷ l) h = elim (Bool-cases (q x)) [
  | inl e ↦ rw (e, h x, map-update_where g q f l h) refl
  | inr e ↦ rw (e, map-update_where g q f l h) refl
]

IsEdit-IsIsolated : (now : ℕ) (id : String) (s t : Server) → IsEdit now id s t → IsIsolated id s t
unfolding update_session get_session
IsEdit-IsIsolated now id s t (description, e) = rw e (record {
  environments = refl;
  tasks = refl;
  statuses = refl;
  sent = refl;
  skeletons = map-update_where skeleton (λ r. r.id == id) _ s.sessions (λ x. refl);
  others = λ j n. find-update_other (λ r. r.id) j id _ s.sessions (λ x. refl) n;
})

-- A sequence of the services' calls through one session, none of which raises, leaves the
-- environments, the tasks, the statuses and what was sent to the engine as they are, with the id,
-- the owner, the state and the version of every session, and all of every other session.
pub Calls-IsIsolated : {id : String} {s t : Server} → Calls id s t → IsIsolated id s t
Calls-IsIsolated start = record {
  environments = refl;
  tasks = refl;
  statuses = refl;
  sent = refl;
  skeletons = refl;
  others = λ j n. refl;
}
Calls-IsIsolated {id} {s} {t} (then_call {t = u} calls call) =
    let before = Calls-IsIsolated calls in
    let after = IsEdit-IsIsolated _ id u t (Call-IsEdit call).1 in
    record {
      environments = after.environments ∙ before.environments;
      tasks = after.tasks ∙ before.tasks;
      statuses = after.statuses ∙ before.statuses;
      sent = after.sent ∙ before.sent;
      skeletons = after.skeletons ∙ before.skeletons;
      others = λ j n. after.others j n ∙ before.others j n;
    }
