-- ===== src/Macros.antt =====
-- murano/dsl/macros.py: how MuranoPL's blocks, loops and branches run. `Parallel` is not modelled.
-- `none` says that the fuel of a `While` or a `For` loop ran out, or that an evaluation does not end.
-- Nothing else uses fuel.
pub mod Syntax
pub mod Signals
use murano_temp.Base.{Bool, Option, String, false, none, some, suc, true, zero, ℕ}
use murano_temp.Macros.Syntax.{
  Block, Code, Evaluation, Host, Matches, Outcome, Raised, Signal, Switches, break_loop,
  break_misused, broke, continue_loop, continue_misused, continued, do_block, done, ended,
  evaluate_only, failed, for_in, if_then, match_case, match_value, murano, no_case, no_match,
  python, raised, repeat_do, return_value, returned, step, switch, switch_case, value, while_do,
}

-- The `except` clauses of a code block: an exception that carries no control flow is wrapped.
abbrev pub wrap : {X : Type 0} → Raised X → Raised X
wrap (murano r) = murano r
wrap (python x) = murano (python x)
wrap break_misused = murano break_misused
wrap continue_misused = murano continue_misused

abbrev pub wrap_signal : {V X : Type 0} → Signal V X → Signal V X
wrap_signal (raised r) = raised (wrap r)
wrap_signal ended = ended
wrap_signal (returned v) = returned v
wrap_signal broke = broke
wrap_signal continued = continued

-- A signal with the state then, or no end.
abbrev pub Run : Type 0 → Type 0 → Type 0 → Type 0
Run V X S = Option (Signal V X × S)

module _ {V X S : Type 0} where
  -- The next expression of a block.
  unfoldable pub then_next : Run V X S → (S → Run V X S) → Run V X S
  then_next none k = none
  then_next (some (ended, t)) k = k t
  then_next (some (signal, t)) k = some (wrap_signal signal, t)

  -- The next turn of a loop.
  unfoldable pub next_turn : Run V X S → (S → Run V X S) → Run V X S
  next_turn none k = none
  next_turn (some (ended, t)) k = k t
  next_turn (some (continued, t)) k = k t
  next_turn (some (broke, t)) k = some (ended, t)
  next_turn (some (returned v, t)) k = some (returned v, t)
  next_turn (some (raised r, t)) k = some (raised r, t)

  -- What follows a block inside an expression.
  unfoldable pub go_on : Run V X S → (S → Run V X S) → Run V X S
  go_on none k = none
  go_on (some (ended, t)) k = k t
  go_on (some (signal, t)) k = some (signal, t)

  -- What follows an evaluation.
  unfoldable pub with_value : {A : Type 0} → Outcome A X → (A → S → Run V X S) → S → Run V X S
  with_value (value v) k t = k v t
  with_value (failed r) k t = some (raised r, t)

  unfoldable pub evaluated : {A : Type 0} → Evaluation A X S → (A → S → Run V X S) → Run V X S
  unfolding with_value
  evaluated none k = none
  evaluated (some (o, t)) k = with_value o k t

  unfoldable pub branch : Bool → (S → Run V X S) → (S → Run V X S) → S → Run V X S
  branch true k l t = k t
  branch false k l t = l t

  unfoldable pub repeat_loop : (S → Run V X S) → ℕ → S → Run V X S
  unfolding next_turn
  repeat_loop body zero s = some (ended, s)
  repeat_loop body (suc n) s = next_turn (body s) (repeat_loop body n)

module _ {E V X S : Type 0} (host : Host E V X S) where
  -- `loop` runs the turns of the rest of the iterator.
  unfoldable pub for_turn :
      (S → Run V X S)
      → String
      → (host.Iterator → S → Run V X S)
      → Option (V × host.Iterator)
      → S
      → Run V X S
  unfolding next_turn
  for_turn body var loop none t = some (ended, t)
  for_turn body var loop (some (v, rest)) t = next_turn (body (host.assign var v t)) (loop rest)

  unfoldable pub for_loop : (S → Run V X S) → String → ℕ → host.Iterator → S → Run V X S
  unfolding for_turn evaluated
  for_loop body var zero iterator s = none
  for_loop body var (suc n) iterator s =
      evaluated (host.advance iterator s) (for_turn body var (for_loop body var n))

  unfoldable pub while_loop : (S → Run V X S) → E → ℕ → S → Run V X S
  unfolding next_turn evaluated branch
  while_loop body test zero s = none
  while_loop body test (suc n) s = evaluated (host.evaluate test s) (λ v.
      branch (host.holds v) (λ t. next_turn (body t) (while_loop body test n))
        (λ t. some (ended, t)))

  abbrev pub noted : Option String → S → S
  noted none s = s
  noted (some instruction) s = host.note instruction s

  unfoldable mutual
    unfolding with_value evaluated branch then_next for_loop while_loop repeat_loop go_on

    pub execute : ℕ → Code E V → S → Run V X S
    execute n (evaluate_only e) s = evaluated (host.evaluate e s) (λ v t. some (ended, t))
    execute n (return_value e) s = evaluated (host.evaluate e s) (λ v t. some (returned v, t))
    execute n break_loop s = some (broke, s)
    execute n continue_loop s = some (continued, s)
    execute n (if_then e code1 code2) s =
        evaluated (host.evaluate e s)
          (λ v. branch (host.holds v) (λ t. execute_block n code1 t) (λ t. execute_block n code2 t))
    execute n (while_do e body) s = while_loop (λ t. execute_block n body t) e n s
    execute n (for_in var e body) s =
        evaluated (host.evaluate e s)
          (λ v. with_value (host.iterate v) (for_loop (λ t. execute_block n body t) var n))
    execute n (repeat_do e body) s =
        evaluated (host.evaluate e s)
          (λ v. with_value (host.times v) (λ k. repeat_loop (λ t. execute_block n body t) k))
    execute n (match_value cases e default) s =
        evaluated (host.evaluate e s)
          (λ v t. execute_matches n v cases (λ u. execute_block n default u) t)
    execute n (switch cases default) s =
        execute_switches n false cases (λ u. execute_block n default u) s
    execute n (do_block body) s = execute_block n body s

    pub execute_block : ℕ → Block E V → S → Run V X S
    execute_block n done s = some (ended, s)
    execute_block n (step instruction code rest) s =
        then_next (execute n code (noted instruction s)) (λ t. execute_block n rest t)

    -- `default` runs the default block. The block of the first key that equals the value.
    pub execute_matches : ℕ → V → Matches E V → (S → Run V X S) → S → Run V X S
    execute_matches n v no_match default s = default s
    execute_matches n v (match_case key body rest) default s =
        branch (host.equals key v) (λ t. execute_block n body t)
          (λ t. execute_matches n v rest default t) s

    -- The blocks of all keys that hold, in order; `matched` says that one has been run.
    pub execute_switches : ℕ → Bool → Switches E V → (S → Run V X S) → S → Run V X S
    execute_switches n matched no_case default s = branch matched (λ t. some (ended, t)) default s
    execute_switches n matched (switch_case key body rest) default s =
        evaluated (host.evaluate key s) (λ v.
          branch (host.holds v)
            (λ t. go_on (execute_block n body t) (λ u. execute_switches n true rest default u))
            (λ t. execute_switches n matched rest default t))

  -- How a method's block ends.
  abbrev pub method_outcome : Signal V X → Outcome V X
  method_outcome ended = value host.nothing
  method_outcome (returned v) = value v
  method_outcome broke = failed break_misused
  method_outcome continued = failed continue_misused
  method_outcome (raised r) = failed r

  abbrev pub close_method : Run V X S → Option (Outcome V X × S)
  close_method none = none
  close_method (some (signal, t)) = some (method_outcome signal, host.leave t)

  -- `MethodBlock.execute`
  unfoldable pub execute_method : ℕ → Block E V → S → Option (Outcome V X × S)
  unfolding execute
  execute_method n body s = close_method (execute_block n body (host.enter s))
