-- ===== src/Macros/Syntax.antt =====
-- The control flow of MuranoPL as data (the macro classes of murano/dsl/macros.py), the exceptions
-- that carry it (murano/dsl/exceptions.py), and what it asks of the evaluation of expressions.
use murano_temp.Base.{Bool, Option, String, ℕ}

-- `E` is the type of the expressions, `V` that of the values.
mutual
  pub data Code (E V : Type 0) : Type 0 where
    -- Any expression that is not a macro.
    evaluate_only : E → Code E V
    return_value : E → Code E V
    break_loop : Code E V
    continue_loop : Code E V
    -- A missing `Else` or `Default` is an empty block.
    if_then : E → Block E V → Block E V → Code E V
    while_do : E → Block E V → Code E V
    for_in : String → E → Block E V → Code E V
    repeat_do : E → Block E V → Code E V
    match_value : Matches E V → E → Block E V → Code E V
    switch : Switches E V → Block E V → Code E V
    do_block : Block E V → Code E V

  -- Each expression has its `virtual_instruction`, if any.
  pub data Block (E V : Type 0) : Type 0 where
    done : Block E V
    step : Option String → Code E V → Block E V → Block E V

  pub data Matches (E V : Type 0) : Type 0 where
    no_match : Matches E V
    match_case : V → Block E V → Matches E V → Matches E V

  pub data Switches (E V : Type 0) : Type 0 where
    no_case : Switches E V
    switch_case : E → Block E V → Switches E V → Switches E V

-- What Python raises: `murano r` is the MuranoPlException made of `r`.
pub data Raised (X : Type 0) : Type 0 where
  python : X → Raised X
  break_misused continue_misused : Raised X
  murano : Raised X → Raised X

-- How an expression's `execute` ends.
pub data Signal (V X : Type 0) : Type 0 where
  ended : Signal V X
  returned : V → Signal V X
  broke continued : Signal V X
  raised : Raised X → Signal V X

-- What evaluating an expression gives.
pub data Outcome (V X : Type 0) : Type 0 where
  value : V → Outcome V X
  failed : Raised X → Outcome V X

-- What code that is not modelled comes to, with the state then. `none` says that it does not end, as
-- where an expression calls a method without end.
abbrev pub Evaluation : Type 0 → Type 0 → Type 0 → Type 0
Evaluation A X S = Option (Outcome A X × S)

-- The contexts, with all objects that are reached from them, are a state `S`.
pub record Host (E V X S : Type 0) : Type 1 where
  -- `helpers.evaluate(e, context)`
  pub evaluate : E → S → Evaluation V X S
  -- `bool(v)`
  pub holds : V → Bool
  -- `key == v`
  pub equals : V → V → Bool
  -- `iter(v)` and `next(iterator)`, which is `none` at the end; it may raise at any turn.
  pub Iterator : Type 0
  pub iterate : V → Outcome Iterator X
  pub advance : Iterator → S → Evaluation (Option (V × Iterator)) X S
  -- The count of `range(0, v)`.
  pub times : V → Outcome ℕ X
  -- `context[var] = v`, and the current instruction.
  pub assign : String → V → S → S
  pub note : String → S → S
  -- A child context with the variable scope of a method, and the way back.
  pub enter : S → S
  pub leave : S → S
  -- `None`
  pub nothing : V
