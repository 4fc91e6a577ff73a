-- ===== src/Results/Model.antt =====
-- What `process_result` of murano/common/server.py reads of the engine's result.
use murano_temp.Base.{Bool, false, if◌then◌else◌, not, suc, true, zero, ℕ}
use murano_temp.Base.Result.{Result, ok, ◌>>=◌}
use murano_temp.Json.{
  Value, dict, end, get_default, is_none, list, nil, null, pop_default, store_item, subscript,
  truthy,
}

-- `model['Objects'] is None and model.get('ObjectsCopy', {}) is None`
unfoldable pub all_deleted : Value → Result Bool
all_deleted model = do
  objects ← subscript model "Objects"
  if not (is_none objects)
      then ok false
      else do copied ← get_default model "ObjectsCopy" (dict end); ok (is_none copied)

-- The description to save: `Objects` with its applications under `services`.
unfoldable pub result_model : Value → Result Value
result_model model = do
  objects ← subscript model "Objects"
  if is_none objects then ok model else do
    popped ← pop_default objects "applications" (list nil)
    renamed ← store_item popped.1 "services" popped.0
    store_item model "Objects" renamed

-- `num_errors > 0 or result['action'].get('isException')`
unfoldable pub has_failed : ℕ → Value → Result Bool
has_failed zero result = do
  action ← subscript result "action"
  raised ← get_default action "isException" null
  ok (truthy raised)
has_failed (suc n) result = ok true
