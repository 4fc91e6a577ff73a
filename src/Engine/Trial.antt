-- ===== src/Engine/Trial.antt =====
-- The steps of a task one after the other, each where those before it did not raise; and what the
-- engine makes of them.
use murano_temp.Base.{
  Bool-cases, List, Option, String, [], false, if◌then◌else◌, inl, inr, none, refl, some, true, ◌∷◌,
  ◌≡◌,
}
use murano_temp.Engine.{
  Interpreter, Raises, Run, action_of, after_cleanup, after_invoke, after_load, after_validate,
  copied, execute_model, raised, returned, serialized,
}
use murano_temp.Json.{Fields, Value, dict, end, field, str, truthy}

module _ {A B : Type 0} where
  infixl 5 ◌then◌
  abbrev pub ◌then◌ : Raises A → (A → Raises B) → Raises B
  returned a then f = f a
  raised text details then f = raised text details

abbrev pub as_action : Raises Value → Value
as_action (returned v) = action_of false v
as_action (raised text details) =
    action_of true (dict (field "message" (str text) (field "details" (str details) end)))

abbrev pub as_reports : Raises Value → List String
as_reports (returned v) = []
as_reports (raised text details) = text ∷ []

module _ (i : Interpreter) where
  open i use {State, Object, Answer, nothing, load, validate, cleanup, invoke, finalize, serialize}

  abbrev checked : Option Object × State → Raises (Option Object × State)
  checked (none, s) = returned (none, s)
  checked (some obj, s) = validate obj s then λ s'. returned (some obj, s')

  -- `finalize` follows the call, whatever it comes to.
  abbrev called : Value → Option Object × State → Raises Value
  called action (obj, s) =
      if truthy action
      then (invoke action s).0
      then (λ answer. serialize answer (finalize obj (invoke action s).1).1)
      else serialize nothing s

  abbrev cleaned : Option Object × State → Raises (Option Object × State)
  cleaned (obj, s) = cleanup s then λ s'. returned (obj, s')

  -- What the task comes to.
  abbrev pub trial : Value → Fields → Raises Value
  trial action model = load model then checked then cleaned then called action

  -- The model that the run ends with: the one that it had, if it raised before the call; or else the
  -- one that `finalize` gives after the call, if there is one; or else a copy.
  abbrev model_left : Value → Fields → Raises (Option Object × State) → Option Fields
  model_left action model (raised text details) = some model
  model_left action model (returned (obj, s)) =
      if truthy action then (finalize obj (invoke action s).1).0 else some (copied model)

  abbrev pub final_model : Value → Fields → Option Fields
  final_model action model = model_left action model (load model then checked then cleaned)

  -- The run agrees with the trial, and has the model that is left.
  pub record Agrees (t : Raises Value) (left : Option Fields) (outcome : Run) : Type 0 where
    pub action : outcome.action ≡ as_action t
    pub reports : outcome.reports ≡ as_reports t
    pub model : outcome.model ≡ left

  serialized-Agrees :
      (model : Option Fields) (r : Raises Value) → Agrees r model (serialized i model r)
  unfolding serialized
  serialized-Agrees model (returned v) = record { action = refl; reports = refl; model = refl }
  serialized-Agrees model (raised text details) = record {
    action = refl;
    reports = refl;
    model = refl;
  }

  after_invoke-Agrees :
      (obj : Option Object) (r : Raises Answer × State)
      → Agrees
          (r.0 then (λ answer. serialize answer (finalize obj r.1).1))
          (finalize obj r.1).0
          (after_invoke i obj r)
  unfolding after_invoke
  after_invoke-Agrees obj (returned answer, s) =
      serialized-Agrees (finalize obj s).0 (serialize answer (finalize obj s).1)
  after_invoke-Agrees obj (raised text details, s) = record {
    action = refl;
    reports = refl;
    model = refl;
  }

  after_cleanup-Agrees :
      (action : Value) (model : Fields) (obj : Option Object) (r : Raises State)
      → Agrees
          (r then (λ s. returned (obj, s)) then called action)
          (model_left action model (r then (λ s. returned (obj, s))))
          (after_cleanup i action model obj r)
  unfolding after_cleanup
  after_cleanup-Agrees action model obj (raised text details) = record {
    action = refl;
    reports = refl;
    model = refl;
  }
  after_cleanup-Agrees action model obj (returned s) = elim (Bool-cases (truthy action)) [
    | inl given ↦ rw given (after_invoke-Agrees obj (invoke action s))
    | inr n ↦ rw n (serialized-Agrees (some (copied model)) (serialize nothing s))
  ]

  after_validate-Agrees :
      (action : Value) (model : Fields) (obj : Option Object) (r : Raises State)
      → Agrees
          (r then (λ s. returned (obj, s)) then cleaned then called action)
          (model_left action model (r then (λ s. returned (obj, s)) then cleaned))
          (after_validate i action model obj r)
  unfolding after_validate
  after_validate-Agrees action model obj (raised text details) = record {
    action = refl;
    reports = refl;
    model = refl;
  }
  after_validate-Agrees action model obj (returned s) =
      after_cleanup-Agrees action model obj (cleanup s)

  after_load-Agrees :
      (action : Value) (model : Fields) (r : Raises (Option Object × State))
      → Agrees
          (r then checked then cleaned then called action)
          (model_left action model (r then checked then cleaned))
          (after_load i action model r)
  unfolding after_load
  after_load-Agrees action model (raised text details) = record {
    action = refl;
    reports = refl;
    model = refl;
  }
  after_load-Agrees action model (returned (none, s)) =
      after_validate-Agrees action model none (returned s)
  after_load-Agrees action model (returned (some obj, s)) =
      after_validate-Agrees action model (some obj) (validate obj s)

  pub execute_model-Agrees :
      (action : Value) (model : Fields)
      → Agrees (trial action model) (final_model action model) (execute_model i action model)
  unfolding execute_model
  execute_model-Agrees action model = after_load-Agrees action model (load model)
