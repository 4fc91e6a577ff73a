-- ===== src/Macros/Signals.antt =====
-- How the blocks and the methods of murano/dsl/macros.py end: the signals that leave them.
use murano_temp.Base.{Bool, Option, String, false, none, refl, some, suc, true, zero, ℕ, ◌≡◌}
use murano_temp.Macros.{
  Run, branch, close_method, evaluated, execute, execute_block, execute_matches, execute_method,
  execute_switches, for_loop, for_turn, go_on, next_turn, noted, repeat_loop, then_next, while_loop,
  with_value, wrap,
}
use murano_temp.Macros.Syntax.{
  Block, Code, Evaluation, Host, Matches, Outcome, Raised, Switches, break_loop, break_misused,
  broke, continue_loop, continue_misused, continued, do_block, done, ended, evaluate_only, failed,
  for_in, if_then, match_case, match_value, murano, no_case, no_match, python, raised, repeat_do,
  return_value, returned, step, switch, switch_case, value, while_do,
}
use mathlib.Core.Path.{subst}

-- `break` and `continue` stand inside a loop only, where `loop` says that the code is in one.
unfoldable mutual
  pub IsNestedCode : {E V : Type 0} → Bool → Code E V → Type 0
  IsNestedCode loop (evaluate_only e) = Unit
  IsNestedCode loop (return_value e) = Unit
  IsNestedCode loop break_loop = loop ≡ true
  IsNestedCode loop continue_loop = loop ≡ true
  IsNestedCode loop (if_then e code1 code2) = IsNested loop code1 × IsNested loop code2
  IsNestedCode loop (while_do e body) = IsNested true body
  IsNestedCode loop (for_in var e body) = IsNested true body
  IsNestedCode loop (repeat_do e body) = IsNested true body
  IsNestedCode loop (match_value cases e default) =
      IsNestedMatches loop cases × IsNested loop default
  IsNestedCode loop (switch cases default) = IsNestedSwitches loop cases × IsNested loop default
  IsNestedCode loop (do_block body) = IsNested loop body

  pub IsNested : {E V : Type 0} → Bool → Block E V → Type 0
  IsNested loop done = Unit
  IsNested loop (step instruction code rest) = IsNestedCode loop code × IsNested loop rest

  pub IsNestedMatches : {E V : Type 0} → Bool → Matches E V → Type 0
  IsNestedMatches loop no_match = Unit
  IsNestedMatches loop (match_case key body rest) = IsNested loop body × IsNestedMatches loop rest

  pub IsNestedSwitches : {E V : Type 0} → Bool → Switches E V → Type 0
  IsNestedSwitches loop no_case = Unit
  IsNestedSwitches loop (switch_case key body rest) =
      IsNested loop body × IsNestedSwitches loop rest

abbrev pub IsMurano : {X : Type 0} → Raised X → Type 0
IsMurano (murano r) = Unit
IsMurano _ = ⊥

wrap-IsMurano : {X : Type 0} (r : Raised X) → IsMurano (wrap r)
wrap-IsMurano (python x) = tt
wrap-IsMurano break_misused = tt
wrap-IsMurano continue_misused = tt
wrap-IsMurano (murano r) = tt

module _ {V X S : Type 0} where
  -- A break or a continue leaves it only in a loop; an exception is wrapped where `wrapped` says so.
  Ends : Bool → Bool → Run V X S → Type 0
  Ends loop wrapped none = Unit
  Ends loop wrapped (some (ended, t)) = Unit
  Ends loop wrapped (some (returned v, t)) = Unit
  Ends loop wrapped (some (broke, t)) = loop ≡ true
  Ends loop wrapped (some (continued, t)) = loop ≡ true
  Ends loop wrapped (some (raised r, t)) = wrapped ≡ true → IsMurano r

  -- The ends that are allowed, at a run `r` that the goal shows.
  Ends-none : (loop wrapped : Bool) (r : Run V X S) → r ≡ none → Ends loop wrapped r
  unfolding Ends
  Ends-none loop wrapped r e = rw e tt

  Ends-ended :
      (loop wrapped : Bool) (r : Run V X S) (t : S) → r ≡ some (ended, t) → Ends loop wrapped r
  unfolding Ends
  Ends-ended loop wrapped r t e = rw e tt

  Ends-returned :
      (loop wrapped : Bool) (r : Run V X S) (v : V) (t : S)
      → r ≡ some (returned v, t)
      → Ends loop wrapped r
  unfolding Ends
  Ends-returned loop wrapped r v t e = rw e tt

  Ends-broke :
      (loop wrapped : Bool) (r : Run V X S) (t : S)
      → r ≡ some (broke, t)
      → loop ≡ true
      → Ends loop wrapped r
  unfolding Ends
  Ends-broke loop wrapped r t e h = rw e h

  Ends-continued :
      (loop wrapped : Bool) (r : Run V X S) (t : S)
      → r ≡ some (continued, t)
      → loop ≡ true
      → Ends loop wrapped r
  unfolding Ends
  Ends-continued loop wrapped r t e h = rw e h

  Ends-unwrapped : (loop : Bool) (r : Run V X S) → Ends loop true r → Ends loop false r
  unfolding Ends
  Ends-unwrapped loop none h = tt
  Ends-unwrapped loop (some (ended, t)) h = tt
  Ends-unwrapped loop (some (returned v, t)) h = tt
  Ends-unwrapped loop (some (broke, t)) h = h
  Ends-unwrapped loop (some (continued, t)) h = h
  Ends-unwrapped loop (some (raised r, t)) h = λ e. cc

  Ends-then_next :
      (loop : Bool) (r : Run V X S) (k : S → Run V X S)
      → Ends loop false r
      → ((t : S) → Ends loop true (k t))
      → Ends loop true (then_next r k)
  unfolding then_next Ends
  Ends-then_next loop none k h next = tt
  Ends-then_next loop (some (ended, t)) k h next = next t
  Ends-then_next loop (some (returned v, t)) k h next = tt
  Ends-then_next loop (some (broke, t)) k h next = h
  Ends-then_next loop (some (continued, t)) k h next = h
  Ends-then_next loop (some (raised r, t)) k h next = λ e. wrap-IsMurano r

  Ends-go_on :
      (loop : Bool) (r : Run V X S) (k : S → Run V X S)
      → Ends loop true r
      → ((t : S) → Ends loop false (k t))
      → Ends loop false (go_on r k)
  unfolding go_on Ends
  Ends-go_on loop none k h next = tt
  Ends-go_on loop (some (ended, t)) k h next = next t
  Ends-go_on loop (some (returned v, t)) k h next = tt
  Ends-go_on loop (some (broke, t)) k h next = h
  Ends-go_on loop (some (continued, t)) k h next = h
  Ends-go_on loop (some (raised r, t)) k h next = λ e. cc

  Ends-next_turn :
      (loop : Bool) (r : Run V X S) (k : S → Run V X S)
      → ((t : S) → Ends loop false (k t))
      → Ends loop false (next_turn r k)
  unfolding next_turn Ends
  Ends-next_turn loop none k next = tt
  Ends-next_turn loop (some (ended, t)) k next = next t
  Ends-next_turn loop (some (returned v, t)) k next = tt
  Ends-next_turn loop (some (broke, t)) k next = tt
  Ends-next_turn loop (some (continued, t)) k next = next t
  Ends-next_turn loop (some (raised r, t)) k next = λ e. cc

  Ends-with_value :
      {A : Type 0} (loop : Bool) (o : Outcome A X) (k : A → S → Run V X S) (s : S)
      → ((a : A) (t : S) → Ends loop false (k a t))
      → Ends loop false (with_value o k s)
  unfolding with_value Ends
  Ends-with_value loop (value a) k s next = next a s
  Ends-with_value loop (failed r) k s next = λ e. cc

  Ends-evaluated :
      {A : Type 0} (loop : Bool) (o : Evaluation A X S) (k : A → S → Run V X S)
      → ((a : A) (t : S) → Ends loop false (k a t))
      → Ends loop false (evaluated o k)
  unfolding evaluated
  Ends-evaluated loop none k next = Ends-none loop false _ refl
  Ends-evaluated loop (some (o, t)) k next = Ends-with_value loop o k t next

  Ends-branch :
      (loop wrapped : Bool) (b : Bool) (k l : S → Run V X S) (s : S)
      → ((t : S) → Ends loop wrapped (k t))
      → ((t : S) → Ends loop wrapped (l t))
      → Ends loop wrapped (branch b k l s)
  unfolding branch
  Ends-branch loop wrapped true k l s h g = h s
  Ends-branch loop wrapped false k l s h g = g s

  Ends-repeat_loop :
      (loop : Bool) (body : S → Run V X S) (k : ℕ) (s : S) → Ends loop false (repeat_loop body k s)
  unfolding repeat_loop
  Ends-repeat_loop loop body zero s = Ends-ended loop false _ s refl
  Ends-repeat_loop loop body (suc k) s =
      Ends-next_turn loop (body s) _ (λ t. Ends-repeat_loop loop body k t)

module _ {E V X S : Type 0} (host : Host E V X S) where
  Ends-for_turn :
      (loop : Bool) (body : S → Run V X S) (var : String) (run : host.Iterator → S → Run V X S)
      → ((rest : host.Iterator) (t : S) → Ends loop false (run rest t))
      → (item : Option (V × host.Iterator)) (t : S)
      → Ends loop false (for_turn host body var run item t)
  unfolding for_turn
  Ends-for_turn loop body var run h none t = Ends-ended loop false _ t refl
  Ends-for_turn loop body var run h (some (v, rest)) t =
      Ends-next_turn loop (body (host.assign var v t)) _ (h rest)

  Ends-for_loop :
      (loop : Bool) (body : S → Run V X S) (var : String) (n : ℕ) (iterator : host.Iterator) (s : S)
      → Ends loop false (for_loop host body var n iterator s)
  unfolding for_loop
  Ends-for_loop loop body var zero iterator s = Ends-none loop false _ refl
  Ends-for_loop loop body var (suc n) iterator s = Ends-evaluated loop _ _ (
      Ends-for_turn loop body var (for_loop host body var n)
        (λ rest u. Ends-for_loop loop body var n rest u))

  Ends-while_loop :
      (loop : Bool) (body : S → Run V X S) (e : E) (n : ℕ) (s : S)
      → Ends loop false (while_loop host body e n s)
  unfolding while_loop
  Ends-while_loop loop body e zero s = Ends-none loop false _ refl
  Ends-while_loop loop body e (suc n) s = Ends-evaluated loop _ _ (λ v t.
      Ends-branch loop false (host.holds v) _ _ t
        (λ u. Ends-next_turn loop (body u) _ (λ w. Ends-while_loop loop body e n w))
        (λ u. Ends-ended loop false _ u refl))

  mutual
    unfolding execute IsNested

    execute-Ends :
        (n : ℕ) (loop : Bool) (code : Code E V) (s : S)
        → IsNestedCode loop code
        → Ends loop false (execute host n code s)
    execute-Ends n loop (evaluate_only e) s h =
        Ends-evaluated loop _ _ (λ v t. Ends-ended loop false _ t refl)
    execute-Ends n loop (return_value e) s h =
        Ends-evaluated loop _ _ (λ v t. Ends-returned loop false _ v t refl)
    execute-Ends n loop break_loop s h = Ends-broke loop false _ s refl h
    execute-Ends n loop continue_loop s h = Ends-continued loop false _ s refl h
    execute-Ends n loop (if_then e code1 code2) s h = Ends-evaluated loop _ _ (λ v t.
        Ends-branch loop false (host.holds v) _ _ t
          (λ u. Ends-unwrapped loop _ (execute_block-Ends n loop code1 u h.0))
          (λ u. Ends-unwrapped loop _ (execute_block-Ends n loop code2 u h.1)))
    execute-Ends n loop (while_do e body) s h = Ends-while_loop loop _ e n s
    execute-Ends n loop (for_in var e body) s h =
        let runs : host.Iterator → S → Run V X S =
          for_loop host (λ w. execute_block host n body w) var n in
        Ends-evaluated loop (host.evaluate e s) (λ v. with_value (host.iterate v) runs)
          (λ v t.
            Ends-with_value loop (host.iterate v) runs t (λ iterator u.
              Ends-for_loop loop (λ w. execute_block host n body w) var n iterator u))
    execute-Ends n loop (repeat_do e body) s h =
        let runs : ℕ → S → Run V X S = repeat_loop (λ w. execute_block host n body w) in
        Ends-evaluated loop (host.evaluate e s) (λ v. with_value (host.times v) runs)
          (λ v t.
            Ends-with_value loop (host.times v) runs t
              (λ k u. Ends-repeat_loop loop (λ w. execute_block host n body w) k u))
    execute-Ends n loop (match_value cases e default) s h = Ends-evaluated loop _ _ (λ v t.
        execute_matches-Ends n loop v cases _ t h.0
          (λ u. Ends-unwrapped loop _ (execute_block-Ends n loop default u h.1)))
    execute-Ends n loop (switch cases default) s h =
        execute_switches-Ends n loop false cases _ s h.0
          (λ u. Ends-unwrapped loop _ (execute_block-Ends n loop default u h.1))
    execute-Ends n loop (do_block body) s h =
        Ends-unwrapped loop _ (execute_block-Ends n loop body s h)

    execute_block-Ends :
        (n : ℕ) (loop : Bool) (body : Block E V) (s : S)
        → IsNested loop body
        → Ends loop true (execute_block host n body s)
    execute_block-Ends n loop done s h = Ends-ended loop true _ s refl
    execute_block-Ends n loop (step instruction code rest) s h =
        Ends-then_next loop _ _ (execute-Ends n loop code (noted host instruction s) h.0)
          (λ t. execute_block-Ends n loop rest t h.1)

    execute_matches-Ends :
        (n : ℕ) (loop : Bool) (v : V) (cases : Matches E V) (default : S → Run V X S) (s : S)
        → IsNestedMatches loop cases
        → ((t : S) → Ends loop false (default t))
        → Ends loop false (execute_matches host n v cases default s)
    execute_matches-Ends n loop v no_match default s h d = d s
    execute_matches-Ends n loop v (match_case key body rest) default s h d =
        Ends-branch loop false (host.equals key v) _ _ s
          (λ t. Ends-unwrapped loop _ (execute_block-Ends n loop body t h.0))
          (λ t. execute_matches-Ends n loop v rest default t h.1 d)

    execute_switches-Ends :
        (n : ℕ) (loop matched : Bool) (cases : Switches E V) (default : S → Run V X S) (s : S)
        → IsNestedSwitches loop cases
        → ((t : S) → Ends loop false (default t))
        → Ends loop false (execute_switches host n matched cases default s)
    execute_switches-Ends n loop matched no_case default s h d =
        Ends-branch loop false matched _ _ s (λ t. Ends-ended loop false _ t refl) d
    execute_switches-Ends n loop matched (switch_case key body rest) default s h d =
        Ends-evaluated loop _ _ (λ v t.
          Ends-branch loop false (host.holds v) _ _ t
            (λ u.
              Ends-go_on loop _ _ (execute_block-Ends n loop body u h.0)
                (λ w. execute_switches-Ends n loop true rest default w h.1 d))
            (λ u. execute_switches-Ends n loop matched rest default u h.1 d))

  outcome-IsMurano :
      (r : Run V X S) (x : Raised X) (t : S)
      → Ends false true r
      → close_method host r ≡ some (failed x, t)
      → IsMurano x
  unfolding Ends
  outcome-IsMurano none x t h e = absurd cc
  outcome-IsMurano (some (ended, s)) x t h e = absurd cc
  outcome-IsMurano (some (returned v, s)) x t h e = absurd cc
  outcome-IsMurano (some (broke, s)) x t h e = absurd cc
  outcome-IsMurano (some (continued, s)) x t h e = absurd cc
  outcome-IsMurano (some (raised r, s)) x t h e =
      let same : r ≡ x = cc in subst IsMurano same (h refl)

-- In the body of a method, `Break` and `Continue` stand inside loops only. Then what the method
-- raises, whatever it is, is a MuranoPlException.
pub execute_method-IsMurano :
    {E V X S : Type 0} (host : Host E V X S) (n : ℕ) (body : Block E V) (s : S) (x : Raised X)
    (t : S)
    → IsNested false body
    → execute_method host n body s ≡ some (failed x, t)
    → IsMurano x
unfolding execute_method
execute_method-IsMurano host n body s x t h e =
    outcome-IsMurano host (execute_block host n body (host.enter s)) x t
      (execute_block-Ends host n false body (host.enter s) h) e
