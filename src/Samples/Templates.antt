-- ===== src/Samples/Templates.antt =====
-- The theorems about templates at small tables.
use murano_temp.Access.{Request}
use murano_temp.Api.Applications.{post_application}
use murano_temp.Api.Applications.Isolation.{
  IsIsolated, Requests, Requests-IsIsolated, none_yet, one_more, posts,
}
use murano_temp.Api.Templates.{delete_template, validate_exists, validate_request}
use murano_temp.Api.Templates.Deleted.{Deletion, delete_template-Deletion}
use murano_temp.Base.{true, List, String, [], false, none, refl, update_where, ◌==◌, ◌∷◌, ◌≡◌}
use murano_temp.Base.Result.{attribute_error, err, ok, ◌>>=◌}
use murano_temp.Json.{Items, Value, append_item, cons, dict, end, field, list, nil, str}
use murano_temp.Services.{with_services}
use murano_temp.Templates.{
  Template, get_description, get_env_template, post_application_data, post_env_template_data,
}
use murano_temp.Templates.Posted.{post_application_data-get}
use murano_temp.Traverse.{get}

abbrev template : String → Value → Template
template id description = record {
  id = id;
  name = "name";
  tenant_id = "t1";
  version = 0;
  description = description;
  is_public = false;
  description_text = "";
  created = 1;
  updated = 2;
}

abbrev table : List Template
table = template "m1" (dict (field "name" (str "one") end)) ∷ template "m2" (dict end) ∷ []

abbrev filled : Value
filled = dict (field "name" (str "one") (field "services" (list (cons (str "db") nil)) end))

post_application_data-get_example :
    (was now : Value) × (xs : Items) × ((get_description "m1" table >>= with_services) ≡ ok was)
    × (get "/services" was ≡ ok (list xs))
    × (get_description "m1" (template "m1" filled ∷ template "m2" (dict end) ∷ []) ≡ ok now)
    × (get "/services" now ≡ ok (list (append_item xs (str "db"))))
    × ((template "m1" filled ∷ template "m2" (dict end) ∷ [])
        ≡ update_where (λ t. t.id == "m1") (λ t. record t { description = now; updated = 2 }) table)
unfolding post_application_data murano_temp.Services.put_services get_description get_env_template
    with_services murano_temp.Base.find murano_temp.Json.contains murano_temp.Json.store_item
    murano_temp.Json.lookup murano_temp.Json.set_key murano_temp.Json.append_item
    murano_temp.Base.update_where
post_application_data-get_example =
    post_application_data-get 2 "m1" (str "db") table
      (str "db", template "m1" filled ∷ template "m2" (dict end) ∷ []) refl refl

-- The other function that posts saves to no template.
post_env_template_data_example :
    post_env_template_data 2 "m1" (str "db") "/services" table ≡ err attribute_error
unfolding post_env_template_data murano_temp.Services.put_services get_description get_env_template
    with_services murano_temp.Base.find murano_temp.Json.contains murano_temp.Json.store_item
    murano_temp.Json.lookup murano_temp.Json.set_key murano_temp.Json.append_item
    murano_temp.Base.update_where
post_env_template_data_example = refl

abbrev visitor : Request
visitor = record { tenant = "t1"; user = "u1"; auth_token = "x"; session = none }

abbrev after : List Template
after = template "m1" filled ∷ template "m2" (dict end) ∷ []

abbrev requests : Requests visitor table after
unfolding post_application post_application_data murano_temp.Services.put_services get_description
    get_env_template with_services murano_temp.Base.find murano_temp.Json.contains
    murano_temp.Json.store_item murano_temp.Json.lookup murano_temp.Json.set_key
    murano_temp.Json.append_item murano_temp.Base.update_where
    murano_temp.Api.Services.normalize_path
requests = one_more none_yet (posts 2 "m1" "" (str "db") (str "db", after) refl)

Requests-IsIsolated_example : IsIsolated "t1" table after
Requests-IsIsolated_example = Requests-IsIsolated requests

-- A caller of another tenant.
abbrev stranger : Request
stranger = record { tenant = "t2"; user = "u2"; auth_token = "y"; session = none }

abbrev theirs : Template
theirs = record (template "m3" (dict end)) { is_public = true }

abbrev mixed : List Template
mixed = theirs ∷ table

-- Anyone deletes a public template.
delete_template-Deletion_example : Deletion true false stranger "m3" mixed table
unfolding delete_template validate_request validate_exists get_env_template
    murano_temp.Templates.env_template_exist murano_temp.Templates.delete
    murano_temp.Templates.remove get_description murano_temp.Templates.save_description
    murano_temp.Base.find murano_temp.Json.store_item murano_temp.Json.set_key
    murano_temp.Base.update_where murano_temp.Base.filter
delete_template-Deletion_example =
    (delete_template-Deletion 3 true false stranger "m3" mixed table).0 refl
