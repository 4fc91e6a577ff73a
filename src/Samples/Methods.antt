-- ===== src/Samples/Methods.antt =====
-- The theorems about MuranoPL's methods at a small host: an expression is a number or raises, and
-- the state counts the assignments.
use murano_temp.Base.{List, Option, [], none, refl, some, ℕ, ◌+◌, ◌==◌, ◌∷◌, ◌≡◌}
use murano_temp.Base.Num.{ltb}
use murano_temp.Macros.{execute_method}
use murano_temp.Macros.Signals.{IsMurano, IsNested, execute_method-IsMurano}
use murano_temp.Macros.Syntax.{
  Block, Host, break_loop, done, evaluate_only, failed, for_in, if_then, murano, python, step,
  value,
}

abbrev counting : Host (Option ℕ) ℕ (Unit {0}) ℕ
counting = record {
  evaluate = λ e s. elim e [ none ↦ some (failed (python tt), s) | some n ↦ some (value n, s) ];
  holds = λ v. ltb 0 v;
  equals = λ k v. murano_temp.Base.Num.◌==◌ k v;
  Iterator = List ℕ;
  iterate = λ v. value (v ∷ v ∷ []);
  advance = λ vs s. some (value (elim vs [ [] ↦ none | v ∷ rest ↦ some (v, rest) ]), s);
  times = λ v. value v;
  assign = λ var v s. s + 1;
  note = λ instruction s. s;
  enter = λ s. s;
  leave = λ s. s;
  nothing = 0;
}

-- A loop of two turns, then an expression that raises.
abbrev body : Block (Option ℕ) ℕ
body =
    step none
      (for_in "x" (some 5) (step none (if_then (some 0) (step none break_loop done) done) done))
      (step (some "line 2") (evaluate_only none) done)

execute_method-IsMurano_example : IsMurano (murano (python tt))
unfolding execute_method IsNested
execute_method-IsMurano_example =
    execute_method-IsMurano counting 3 body 0 (murano (python tt)) 2
      ((((refl, tt), tt), tt), (tt, tt)) refl
