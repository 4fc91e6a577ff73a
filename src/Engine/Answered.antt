-- ===== src/Engine/Answered.antt =====
-- What the engine's result is, and what `process_result` of murano/common/server.py reads of it.
use murano_temp.Base.{
  Bool, Bool-cases, Option, Option-cases, [], String, ap, arith, false, if◌then◌else◌, inl, inr,
  none, refl, some, suc, sym, true, zero, ℕ, ◌&&◌, ◌||◌, ◌∙◌, ◌≡◌, ◌⊎◌,
}
use murano_temp.Base.Num.{ltb}
use murano_temp.Base.Result.{Error, Result, Result-cases, err, key_error, ok, type_error, ◌>>=◌}
use murano_temp.Engine.{
  Interpreter, Keystone, Loader, packages_of, Raises, Run, Session, Task, action_of, after_trust,
  create_trust, delete_trust, deleted_trust, exception_result, execute, execute_model, finish_run,
  is_gone, raised, returned, with_attributes,
}
use murano_temp.Engine.Trial.{
  Agrees, as_action, as_reports, execute_model-Agrees, final_model, trial, ◌then◌,
}
use murano_temp.Json.{
  Fields, Value, dict, end, field, get_default, lookup, null, set_key, subscript, truthy,
}
use murano_temp.Json.Dict.{lookup-set_key, lookup-set_key_self}
use murano_temp.Results.{process_result}
use murano_temp.Results.Model.{has_failed}
use murano_temp.Server.{Server}
use murano_temp.Server.Sql.{Sql}
use murano_temp.Server.Exec

abbrev pub is_raised : Raises Value → Bool
is_raised (returned v) = false
is_raised (raised s d) = true

-- A result that `process_result` can read: with the model `model`, which gets the attributes with the
-- fixation table, and an action by which it sees a failure, from the count of errors or from the exception.
pub record IsAnswer (t : Raises Value) (packages : Value) (model : Fields) (r : Value)
    : Type 0 where
  pub attributes : Fields
  pub has_model : subscript r "model" ≡ ok (dict (set_key "SystemData" (dict attributes) model))
  pub has_packages : lookup "Packages" attributes ≡ some packages
  pub has_action : subscript r "action" ≡ ok (as_action t)
  pub fails : (n : ℕ) → has_failed n r ≡ ok (ltb 0 n || is_raised t)

action_fails :
    (t : Raises Value)
    → (get_default (as_action t) "isException" null >>= λ flag. ok (truthy flag)) ≡ ok (is_raised t)
unfolding action_of get_default truthy lookup
action_fails (returned v) = refl
action_fails (raised s d) = refl

has_failed-as_action :
    (t : Raises Value) (r : Value)
    → subscript r "action" ≡ ok (as_action t)
    → (n : ℕ) → has_failed n r ≡ ok (ltb 0 n || is_raised t)
unfolding has_failed
has_failed-as_action t r e zero = rw e (action_fails t)
has_failed-as_action t r e (suc n) = ground arith

deleted_trust-Packages :
    (attributes : Fields) (r : Raises (Unit {0}))
    → lookup "Packages" (deleted_trust attributes r) ≡ lookup "Packages" attributes
unfolding deleted_trust
deleted_trust-Packages attributes (returned _) = lookup-set_key "TrustId" "Packages" null attributes
deleted_trust-Packages attributes (raised s d) = refl

delete_trust-Packages :
    (k : Keystone) (session : Session) (attributes : Fields)
    → lookup "Packages" (delete_trust k session attributes) ≡ lookup "Packages" attributes
unfolding delete_trust
delete_trust-Packages k session attributes = elim (Bool-cases (truthy session.trust_id)) [
  | inl e ↦ rw e (deleted_trust-Packages attributes (k.delete_trust session.trust_id))
  | inr n ↦ rw n refl
]

answered_action :
    (a b : Value) (fs : Fields) → a ≡ b → subscript (dict (field "action" a fs)) "action" ≡ ok b
unfolding subscript lookup
answered_action a b fs e = ap ok e

answered_model :
    (a b : Value) → subscript (dict (field "action" a (field "model" b end))) "model" ≡ ok b
unfolding subscript lookup
answered_model a b = refl

module _ (k : Keystone) (session : Session) (packages : Value) where
  abbrev own : Fields
  own = set_key "Packages" packages session.system_attributes

  final : Bool → Fields
  final gone = if gone then delete_trust k session own else own

  final-Packages : (gone : Bool) → lookup "Packages" (final gone) ≡ some packages
  unfolding final
  final-Packages true =
      delete_trust-Packages k session own
      ∙ lookup-set_key_self "Packages" packages session.system_attributes
  final-Packages false = lookup-set_key_self "Packages" packages session.system_attributes

  finish_run-IsAnswer :
      (i : Interpreter) (t : Raises Value) (left : Option Fields) (outcome : Run)
      → Agrees i t left outcome
      → (finish_run k session packages outcome ≡ err type_error) × (left ≡ none)
        ⊎ ((r : Value) × (model : Fields) × (finish_run k session packages outcome ≡ ok r)
            × (left ≡ some model)
            × IsAnswer t packages model r)
  unfolding finish_run final
  finish_run-IsAnswer i t left outcome a = elim (Option-cases outcome.model) [
    | inl e ↦ inl (rw (e, finish_run) refl, sym a.model ∙ e)
    | inr (model, e) ↦
        let gone = is_gone (lookup "Objects" model) && is_gone (lookup "ObjectsCopy" model) in
        let r : Value = dict (
          field "action" outcome.action
            (field "model" (dict (set_key "SystemData" (dict (final gone)) model)) end)) in
        let read_action : subscript r "action" ≡ ok (as_action t) =
          answered_action outcome.action (as_action t) _ a.action in
        inr (
          r,
          model,
          rw (e, finish_run) refl,
          sym a.model ∙ e,
          record {
            attributes = final gone;
            has_model = answered_model outcome.action _;
            has_packages = final-Packages gone;
            has_action = read_action;
            fails = has_failed-as_action t r read_action;
          },
        )
  ]

-- What the loader comes to at the start of a run with a trust.
abbrev pub loading : Loader → Session → Result (Unit {0})
loading loader session = loader.prepare (packages_of session.system_attributes)

-- Where a trust is there, or none is used. If the loader raises as it is opened, the engine raises the
-- same and reports nothing. Else it reports the error that the steps of the task come to, if they
-- raise one. It raises TypeError just where no model is left, which after the call is the one that
-- `finalize` gives for the loaded object in the state then; else the result has that model with the fixation table,
-- and an action that says what the steps came to; and `process_result` takes it for a failure if
-- errors were counted or a step raised, and only then.
pub execute-IsAnswer :
    (i : Interpreter) (k : Keystone) (task : Task) (loader : Loader) (session : Session)
    → create_trust k task ≡ returned session
    → let model = with_attributes session.system_attributes task.model in
      let t = trial i task.action model in
      let left = final_model i task.action model in
      ((e : Error) × (loading loader session ≡ err e) × (execute i k task loader ≡ (err e, [])))
      ⊎ ((loading loader session ≡ ok tt)
          × ((execute i k task loader).1 ≡ as_reports t)
          × (((execute i k task loader).0 ≡ err type_error) × (left ≡ none)
              ⊎ ((r : Value) × (last : Fields) × ((execute i k task loader).0 ≡ ok r)
                  × (left ≡ some last)
                  × IsAnswer t loader.fixation_table last r)))
unfolding execute after_trust
execute-IsAnswer i k task loader session e =
    let model = with_attributes session.system_attributes task.model in
    let a = execute_model-Agrees i task.action model in
    elim (Result-cases (loading loader session)) [
      | inr (x, h) ↦ inl (x, h, rw (e, after_trust, h) refl)
      | inl (u, h) ↦ inr (
        h,
        rw (e, after_trust, h) a.reports,
        rw (e, after_trust, h)
            (finish_run-IsAnswer k session loader.fixation_table i (trial i task.action model)
              (final_model i task.action model) (execute_model i task.action model) a),
      )
    ]

-- Where no trust can be created, the engine's result has no model, and `process_result` raises
-- KeyError and leaves the tables as they are: the session goes on being deployed.
pub execute-process_result :
    (i : Interpreter) (k : Keystone) (task : Task) (loader : Loader) (text details : String)
    (sql : Sql) (now : ℕ) (environment_id : String) (s : Server)
    → create_trust k task ≡ raised text details
    → (r : Value) × ((execute i k task loader).0 ≡ ok r)
      × (process_result sql now r environment_id s ≡ (err key_error, s))
unfolding execute after_trust exception_result process_result murano_temp.Server.Exec.◌>>=◌
    subscript lookup
execute-process_result i k task loader text details sql now environment_id s e = (
  dict (field "action" (exception_result text details none).action end),
  rw (e, after_trust) refl,
  refl,
)
