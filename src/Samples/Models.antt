-- ===== src/Samples/Models.antt =====
-- The theorems about object models and the services' calls at concrete values.
use murano_temp.Access.{Request}
use murano_temp.Api.Services.{Change, Change-IsVerified, IsVerified, post}
use murano_temp.Base.{String, [], refl, some, true, ◌∷◌, ◌≡◌}
use murano_temp.Base.Result.{ok, ◌>>=◌}
use murano_temp.Environments.{get_environment_description, save_environment_description}
use murano_temp.Json.{Items, Value, append_item, cons, dict, end, field, list, nil, str}
use murano_temp.Samples.Rows.{before, objects, request, service, session_in, whole}
use murano_temp.Sanitize.{sanitize}
use murano_temp.Sanitize.Secrets.{IsClean, sanitize-IsClean}
use murano_temp.Server.{Server, SessionState}
use murano_temp.Services.{post_data, with_services}
use murano_temp.Services.Inserted.{post_data-get}
use murano_temp.Services.Isolation.{Call, Calls-IsIsolated, IsIsolated, posts, start, then_call}
use murano_temp.Text.Quotes.{quoted, validate_quotes, validate_quotes-quoted}
use murano_temp.Traverse.{get}
use murano_temp.Traverse.Edit.{insert}
use murano_temp.Traverse.Lens.{insert-get}

sanitize-IsClean_example :
    IsClean (sanitize (dict (field "Password" (str "x") end)))
    × (IsClean (dict (field "Password" (str "x") end))
        → sanitize (dict (field "Password" (str "x") end)) ≡ dict (field "Password" (str "x") end))
    × (sanitize (sanitize (dict (field "Password" (str "x") end)))
        ≡ sanitize (dict (field "Password" (str "x") end)))
sanitize-IsClean_example = sanitize-IsClean (dict (field "Password" (str "x") end))

-- The session's description with the service twice.
abbrev twice : Value
twice = dict (
    field "Objects"
      (dict (
        field "?" (dict (field "id" (str "e1") end))
          (field "services" (list (cons service (cons service nil))) end)))
      end)

abbrev posted : Server
posted = record {
  environments = before.environments;
  sessions =
      record {
        id = "s1";
        environment_id = "e1";
        user_id = "u1";
        state = SessionState.opened;
        version = 0;
        updated = 5;
        description = twice;
      }
      ∷ [];
  tasks = before.tasks;
  statuses = [];
  sent = [];
}

-- The service is posted once more.
posted-Call : Call "s1" before posted
unfolding post_data get_environment_description save_environment_description
    murano_temp.Server.Tables.get_session murano_temp.Base.find murano_temp.Sessions.validate
    murano_temp.Server.Tables.get_environment murano_temp.Sessions.any_deploying
    murano_temp.Json.subscript murano_temp.Json.lookup murano_temp.Json.contains
    murano_temp.Json.store_item murano_temp.Server.Tables.update_session
    murano_temp.Base.update_where murano_temp.Json.set_key murano_temp.Json.append_item
posted-Call = posts 5 "e1" service "/services" (service, posted) refl

Calls-IsIsolated_example : IsIsolated "s1" before posted
Calls-IsIsolated_example = Calls-IsIsolated (then_call start posted-Call)

insert-get_example :
    (xs : Items) × (get "/services" objects ≡ ok (list xs))
    × (get "/services" (
          dict (
            field "?"
              (dict (field "id" (str "e1") end))
              (field "services" (list (cons service (cons service nil))) end)))
        ≡ ok (list (append_item xs service)))
unfolding insert murano_temp.Server.Tables.get_session murano_temp.Base.find
    murano_temp.Sessions.validate murano_temp.Server.Tables.get_environment
    murano_temp.Sessions.any_deploying murano_temp.Json.subscript murano_temp.Json.lookup
    murano_temp.Json.contains murano_temp.Json.store_item murano_temp.Server.Tables.update_session
    murano_temp.Base.update_where murano_temp.Json.set_key murano_temp.Json.append_item
insert-get_example = insert-get "/services" service objects _ (refl, tt) refl

post_data-get_example :
    (was now : Value) × (xs : Items) × ((get_environment_description "e1" (some "s1") true before
        >>= with_services)
      ≡ ok was)
    × (get "/services" was ≡ ok (list xs))
    × (get_environment_description "e1" (some "s1") true posted ≡ ok now)
    × (get "/services" now ≡ ok (list (append_item xs service)))
unfolding post_data get_environment_description save_environment_description
    murano_temp.Server.Tables.get_session murano_temp.Base.find murano_temp.Sessions.validate
    murano_temp.Server.Tables.get_environment murano_temp.Sessions.any_deploying
    murano_temp.Json.subscript murano_temp.Json.lookup murano_temp.Json.contains
    murano_temp.Json.store_item murano_temp.Server.Tables.update_session
    murano_temp.Base.update_where murano_temp.Json.set_key murano_temp.Json.append_item
post_data-get_example =
    post_data-get 5 "e1" "s1" service before (service, posted) (session_in SessionState.opened) refl
      refl refl refl refl

validate_quotes-quoted_example : validate_quotes (quoted ("a,b" ∷ "c" ∷ [])) ≡ ok tt
unfolding murano_temp.Text.is_char
validate_quotes-quoted_example = validate_quotes-quoted ("a,b" ∷ "c" ∷ []) (refl, (refl, tt))

posted_answer : post 5 request "e1" "" service before ≡ ok (service, posted)
unfolding post get_environment_description save_environment_description
    murano_temp.Server.Tables.get_session murano_temp.Base.find murano_temp.Sessions.validate
    murano_temp.Server.Tables.get_environment murano_temp.Sessions.any_deploying
    murano_temp.Json.subscript murano_temp.Json.lookup murano_temp.Json.contains
    murano_temp.Json.store_item murano_temp.Server.Tables.update_session
    murano_temp.Base.update_where murano_temp.Json.set_key murano_temp.Json.append_item
    murano_temp.Json.truthy murano_temp.Access.check_env murano_temp.Access.verify_session post_data
posted_answer = refl

-- Another tenant's environment and its session, as in `before`, and an environment of the caller.
abbrev shared : Server
shared = record before {
  environments =
      record { id = "e2"; name = "other"; tenant_id = "t2"; version = 0; description = whole }
      ∷ before.environments;
}

abbrev stranger : Request
stranger = record { tenant = "t2"; user = "u2"; auth_token = "y"; session = some "s1" }

-- The caller names its own environment and the other tenant's session, and changes that session.
cross_tenant_example :
    post 5 stranger "e2" "" service shared
    ≡ ok (service, record shared { sessions = posted.sessions })
unfolding post get_environment_description save_environment_description
    murano_temp.Server.Tables.get_session murano_temp.Base.find murano_temp.Sessions.validate
    murano_temp.Server.Tables.get_environment murano_temp.Sessions.any_deploying
    murano_temp.Json.subscript murano_temp.Json.lookup murano_temp.Json.contains
    murano_temp.Json.store_item murano_temp.Server.Tables.update_session
    murano_temp.Base.update_where murano_temp.Json.set_key murano_temp.Json.append_item
    murano_temp.Json.truthy murano_temp.Access.check_env murano_temp.Access.verify_session post_data
cross_tenant_example = refl

Change-IsVerified_example :
    (id : String) × IsVerified request "e1" id before × Call id before posted
Change-IsVerified_example =
    Change-IsVerified (Change.posted 5 "" service (service, posted) posted_answer)
