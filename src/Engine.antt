-- ===== src/Engine.antt =====
-- `TaskExecutor` of murano/common/engine.py: the engine runs a task and gives the result that
-- `process_result` takes. The interpreter, the loader, keystone and the policies are arguments: what
-- the interpreter does changes its state, and may raise an exception, of which the text and the
-- traceback are kept. The engine writes a dict at `SystemData`. The hooks of the session mute their
-- exceptions, and are left out with the log.
pub mod Trial
pub mod Answered
pub mod Closes
use murano_temp.Base.{
  Bool, List, Option, String, [], false, if◌then◌else◌, none, not, some, true, ◌&&◌, ◌∷◌,
}
use murano_temp.Base.Result.{Result, err, from_option, ok, type_error, ◌>>=◌}
use murano_temp.Json.{Fields, Value, boolean, dict, end, field, lookup, null, set_key, str, truthy}

-- What code that is not modelled here comes to.
pub data Raises (A : Type 0) : Type 0 where
  returned : A → Raises A
  raised : (text details : String) → Raises A

pub record Interpreter : Type 1 where
  pub State : Type 0
  pub Object : Type 0
  pub Answer : Type 0
  pub nothing : Answer
  pub load : Fields → Raises (Option Object × State)
  pub validate : Object → State → Raises State
  pub cleanup : State → Raises State
  pub invoke : Value → State → Raises Answer × State
  -- `None` where it fails, or where there is no object.
  pub finalize : Option Object → State → Option Fields × State
  pub serialize : Answer → State → Raises Value

pub record Keystone : Type 0 where
  pub use_trusts : Bool
  pub create_trust : (token project_id : String) → Raises Value
  pub delete_trust : Value → Raises (Unit {0})

-- The package loader of a run: opening it, with the fixation table that it imports and the plugins
-- that register, may raise; what it exports at the end is given.
pub record Loader : Type 0 where
  pub prepare : Value → Result (Unit {0})
  pub fixation_table : Value

pub record Task : Type 0 where
  pub action : Value
  pub model : Fields
  pub token : String
  pub tenant_id : String

pub record Session : Type 0 where
  pub trust_id : Value
  pub system_attributes : Fields

-- The texts of the errors that were reported, beside the result's `action`.
pub record Run : Type 0 where
  pub action : Value
  pub model : Option Fields
  pub reports : List String

unfoldable pub attributes_of : Fields → Fields
attributes_of model = elim (lookup "SystemData" model) [ some (dict fs) ↦ fs | _ ↦ end ]

unfoldable pub action_of : Bool → Value → Value
action_of is_exception result =
    dict (field "isException" (boolean is_exception) (field "result" result end))

unfoldable pub exception_result : String → String → Option Fields → Run
unfolding action_of
exception_result text details model = record {
  action = action_of true (dict (field "message" (str text) (field "details" (str details) end)));
  model = model;
  reports = text ∷ [];
}

-- `model['ObjectsCopy'] = copy.deepcopy(model.get('Objects'))`
unfoldable pub copied : Fields → Fields
copied model =
    set_key "ObjectsCopy" (elim (lookup "Objects" model) [ none ↦ null | some v ↦ v ]) model

module _ (i : Interpreter) where
  open i use {State, Object, Answer, nothing, load, validate, cleanup, invoke, finalize, serialize}

  unfoldable pub serialized : Option Fields → Raises Value → Run
  unfolding exception_result
  serialized model (raised text details) = exception_result text details model
  serialized model (returned v) = record { action = action_of false v; model = model; reports = [] }

  -- After the call: the model is the one that `finalize` gives, whether the call raised or not.
  unfoldable pub after_invoke : Option Object → Raises Answer × State → Run
  unfolding serialized
  after_invoke obj (raised text details, s) = exception_result text details (finalize obj s).0
  after_invoke obj (returned answer, s) =
      let final = finalize obj s in serialized final.0 (serialize answer final.1)

  unfoldable pub after_cleanup : Value → Fields → Option Object → Raises State → Run
  unfolding after_invoke copied
  after_cleanup action model obj (raised text details) = exception_result text details (some model)
  after_cleanup action model obj (returned s) =
      if truthy action
      then after_invoke obj (invoke action s)
      else serialized (some (copied model)) (serialize nothing s)

  unfoldable pub after_validate : Value → Fields → Option Object → Raises State → Run
  unfolding after_cleanup
  after_validate action model obj (raised text details) = exception_result text details (some model)
  after_validate action model obj (returned s) = after_cleanup action model obj (cleanup s)

  unfoldable pub after_load : Value → Fields → Raises (Option Object × State) → Run
  unfolding after_validate
  after_load action model (raised text details) = exception_result text details (some model)
  after_load action model (returned (none, s)) = after_validate action model none (returned s)
  after_load action model (returned (some obj, s)) =
      after_validate action model (some obj) (validate obj s)

  -- `_execute`
  unfoldable pub execute_model : Value → Fields → Run
  unfolding after_load
  execute_model action model = after_load action model (load model)

-- `self._session.system_attributes['TrustId'] = trust_id`, which the model shows where its
-- `SystemData` is that dict.
unfoldable pub with_attributes : Fields → Fields → Fields
with_attributes attributes model = elim (lookup "SystemData" model) [
  | none ↦ model
  | some v ↦ set_key "SystemData" (dict attributes) model
]

unfoldable pub get_trust : Fields → Value
get_trust attributes = elim (lookup "TrustId" attributes) [ none ↦ null | some v ↦ v ]

unfoldable pub new_trust : Fields → Raises Value → Raises Session
new_trust attributes (raised text details) = raised text details
new_trust attributes (returned trust_id) =
    returned
      (record { trust_id = trust_id; system_attributes = set_key "TrustId" trust_id attributes })

-- `_create_trust`
unfoldable pub create_trust : Keystone → Task → Raises Session
unfolding new_trust attributes_of get_trust
create_trust k task =
    let attributes = attributes_of task.model in
    if k.use_trusts
    then (if truthy (get_trust attributes)
        then returned (record { trust_id = get_trust attributes; system_attributes = attributes })
        else new_trust attributes (k.create_trust task.token task.tenant_id))
    else returned (record { trust_id = null; system_attributes = attributes })

unfoldable pub deleted_trust : Fields → Raises (Unit {0}) → Fields
deleted_trust attributes (raised text details) = attributes
deleted_trust attributes (returned _) = set_key "TrustId" null attributes

-- `_delete_trust`, whose exception is muted: the attributes after it.
unfoldable pub delete_trust : Keystone → Session → Fields → Fields
unfolding deleted_trust
delete_trust k session attributes =
    if truthy session.trust_id
    then deleted_trust attributes (k.delete_trust session.trust_id)
    else attributes

abbrev pub is_gone : Option Value → Bool
is_gone none = true
is_gone (some v) = not (truthy v)

-- The end of `execute`. `packages` is the fixation table. The dict of attributes is the model's
-- own, so that it shows a trust that is deleted.
unfoldable pub finish_run : Keystone → Session → Value → Run → Result Value
unfolding delete_trust
finish_run k session packages outcome = do
  model ← from_option outcome.model type_error
  let attributes = set_key "Packages" packages session.system_attributes
  let kept_attributes =
      if is_gone (lookup "Objects" model) && is_gone (lookup "ObjectsCopy" model)
      then delete_trust k session attributes
      else attributes
  ok (
      dict (
        field "action" outcome.action
          (field "model" (dict (set_key "SystemData" (dict kept_attributes) model)) end)))

-- `system_attributes.get('Packages', {})`
unfoldable pub packages_of : Fields → Value
packages_of attributes = elim (lookup "Packages" attributes) [ none ↦ dict end | some v ↦ v ]

unfoldable pub after_trust :
    Interpreter → Keystone → Task → Loader → Raises Session → Result Value × List String
unfolding execute_model finish_run with_attributes exception_result packages_of
after_trust i k task loader (raised text details) =
    let outcome = exception_result text details none in
    (ok (dict (field "action" outcome.action end)), outcome.reports)
after_trust i k task loader (returned session) =
    let outcome =
      execute_model i task.action (with_attributes session.system_attributes task.model) in
    elim (loader.prepare (packages_of session.system_attributes)) [
      | err e ↦ (err e, [])
      | ok _ ↦ (finish_run k session loader.fixation_table outcome, outcome.reports)
    ]

-- `execute`: the result, and the texts that were reported. An exception of the loader goes on.
unfoldable pub execute : Interpreter → Keystone → Task → Loader → Result Value × List String
unfolding after_trust create_trust
execute i k task loader = after_trust i k task loader (create_trust k task)
