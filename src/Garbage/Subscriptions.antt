-- ===== src/Garbage/Subscriptions.antt =====
-- The class io.murano.system.GC, murano/dsl/principal_objects/garbage_collector.py: subscriptions to
-- the destruction of one object, the publisher.
use murano_temp.Base.{
  count-append, Bool, Bool-cases, List, Option, String, [], any_of, ap₂, arith, count, eq_iff,
  false, if◌then◌else◌, inl, inr, none, not, refl, some, sym, true, ℕ, ◌&&◌, ◌++◌, ◌-◌, ◌==◌, ◌||◌,
  ◌∷◌, ◌≡◌,
}
use murano_temp.Base.Num.{ltb}
use murano_temp.Base.Result.{>>=-eq-ok, Result, ok, ok-injective, ◌>>=◌, ◌>>◌}
use murano_temp.Garbage.{Dependency, same_key, same_key_iff}

-- `dd['handler'] == handler and d_subscriber == subscriber`
unfoldable pub is_of : String → Option String → Dependency → Bool
unfolding same_key
is_of subscriber handler d = same_key d.handler handler && same_key d.subscriber (some subscriber)

-- `subscriber.type.find_single_method(handler)`, which may raise, is an argument.
unfoldable pub check_handler :
    (String → String → Result (Unit {0})) → String → Option String → Result (Unit {0})
check_handler has_method subscriber none = ok tt
check_handler has_method subscriber (some h) = if h == "" then ok tt else has_method subscriber h

unfoldable pub subscribe_destruction :
    (String → String → Result (Unit {0}))
    → String
    → Option String
    → List Dependency
    → Result (List Dependency)
unfolding check_handler is_of any_of
subscribe_destruction has_method subscriber handler dds = do
  check_handler has_method subscriber handler
  ok (
      if any_of (is_of subscriber handler) dds
      then dds
      else dds ++ record { subscriber = some subscriber; handler = handler } ∷ [])

-- `dds.remove(dependency)`, of the first that fits, if there is one.
unfoldable pub remove_found : (Dependency → Bool) → List Dependency → List Dependency
remove_found p [] = []
remove_found p (d ∷ ds) = let rest = remove_found p ds in if p d then ds else d ∷ rest

unfoldable pub unsubscribe_destruction :
    (String → String → Result (Unit {0}))
    → String
    → Option String
    → List Dependency
    → Result (List Dependency)
unfolding check_handler is_of remove_found
unsubscribe_destruction has_method subscriber handler dds = do
  check_handler has_method subscriber handler
  ok (remove_found (is_of subscriber handler) dds)

pub data Call : Type 0 where
  subscribe unsubscribe : (subscriber : String) (handler : Option String) → Call

abbrev pub call :
    (String → String → Result (Unit {0})) → Call → List Dependency → Result (List Dependency)
call has_method (subscribe s h) dds = subscribe_destruction has_method s h dds
call has_method (unsubscribe s h) dds = unsubscribe_destruction has_method s h dds

-- Calls for one publisher, the last one first, from no subscription.
abbrev pub run : (String → String → Result (Unit {0})) → List Call → Result (List Dependency)
run has_method [] = ok []
run has_method (c ∷ earlier) = do dds ← run has_method earlier; call has_method c dds

abbrev pub same_pair : String → Option String → String → Option String → Bool
same_pair s h t k = same_key k h && t == s

-- What the last call for the pair said, if any did.
abbrev pub is_subscribed : String → Option String → List Call → Bool
is_subscribed s h [] = false
is_subscribed s h (subscribe t k ∷ earlier) = same_pair s h t k || is_subscribed s h earlier
is_subscribed s h (unsubscribe t k ∷ earlier) = not (same_pair s h t k) && is_subscribed s h earlier

abbrev times : String → Option String → List Dependency → ℕ
times s h dds = count (is_of s h) dds

-- Two pairs of which one subscription can be.
one_pair :
    (s t : String) (h k : Option String) (d : Dependency)
    → is_of s h d ≡ true
    → is_of t k d ≡ true
    → same_pair s h t k ≡ true
unfolding is_of
one_pair s t h k d e f =
    let i : d.handler ≡ h = (same_key_iff d.handler h).0 (ground arith) in
    let j : d.handler ≡ k = (same_key_iff d.handler k).0 (ground arith) in
    let i' : d.subscriber ≡ some s = (same_key_iff d.subscriber (some s)).0 (ground arith) in
    let j' : d.subscriber ≡ some t = (same_key_iff d.subscriber (some t)).0 (ground arith) in
    let same_handler : same_key k h ≡ true = (same_key_iff k h).1 (cc) in
    let same_subscriber : t == s ≡ true = (eq_iff t s).1 (cc) in ground arith

pair_of : (s t : String) (h k : Option String) → same_pair s h t k ≡ true → (t ≡ s) × (k ≡ h)
pair_of s t h k e = ((eq_iff t s).0 (ground arith), (same_key_iff k h).0 (ground arith))

any_of-count : (p : Dependency → Bool) (dds : List Dependency) → any_of p dds ≡ ltb 0 (count p dds)
unfolding any_of count
any_of-count p [] = refl
any_of-count p (d ∷ dds) = ground (arith, any_of-count p dds)

new_times :
    (s t : String) (h k : Option String)
    → is_of s h (record { subscriber = some t; handler = k }) ≡ same_pair s h t k
unfolding is_of same_key
new_times s t h k = refl

pair_agrees :
    (s t : String) (h k : Option String) (d : Dependency)
    → same_pair s h t k ≡ true
    → is_of s h d ≡ is_of t k d
pair_agrees s t h k d e = let (i, j) = pair_of s t h k e in ap₂ (λ a b. is_of a b d) (sym i) (sym j)

removed_times :
    (s t : String) (h k : Option String) (dds : List Dependency)
    → times s h (remove_found (is_of t k) dds)
      ≡ (if same_pair s h t k then times s h dds - 1 else times s h dds)
unfolding remove_found count
removed_times s t h k [] = ground arith
removed_times s t h k (d ∷ dds) =
    let ih = removed_times s t h k dds in
    elim (Bool-cases (same_pair s h t k)) [
      | inl same ↦ let agree = pair_agrees s t h k d same in ground arith
      | inr other ↦ elim (Bool-cases (is_of s h d)) [
        | inl mine ↦ elim (Bool-cases (is_of t k d)) [
          | inl its ↦ let same = one_pair s t h k d mine its in cc
          | inr n ↦ ground arith
        ]
        | inr n ↦ ground arith
      ]
    ]

subscribed_times :
    (s t : String) (h k : Option String) (w : Bool) (dds : List Dependency)
    → times s h dds ≡ (if w then 1 else 0)
    → times s h (
        if any_of (is_of t k) dds
        then dds
        else dds ++ record { subscriber = some t; handler = k } ∷ [])
      ≡ (if same_pair s h t k || w then 1 else 0)
unfolding count
subscribed_times s t h k w dds e =
    let new : Dependency = record { subscriber = some t; handler = k } in
    let found = any_of-count (is_of t k) dds in
    let longer = count-append (is_of s h) dds (new ∷ []) in
    let fits = new_times s t h k in
    elim (Bool-cases (same_pair s h t k)) [
      | inl same ↦
          let (i, j) = pair_of s t h k same in
          let both : times t k dds ≡ times s h dds = ap₂ (λ a b. times a b dds) i j in ground arith
      | inr other ↦ ground arith
    ]

-- After calls for one publisher, none of which raised, the last one first in the list: a subscriber
-- is subscribed with a handler once, if the last call with these two was to subscribe it, and else
-- not at all.
pub run-IsSubscribed :
    (has_method : String → String → Result (Unit {0})) (calls : List Call) (dds : List Dependency)
    (s : String) (h : Option String)
    → run has_method calls ≡ ok dds
    → count (is_of s h) dds ≡ (if is_subscribed s h calls then 1 else 0)
unfolding count subscribe_destruction unsubscribe_destruction
run-IsSubscribed has_method [] dds s h e =
    let none_yet : [] ≡ dds = ok-injective e in rw (← none_yet) refl
run-IsSubscribed has_method (subscribe t k ∷ earlier) dds s h e =
    >>=-eq-ok (run has_method earlier) _ e λ old r e₁.
      >>=-eq-ok (check_handler has_method t k) _ e₁ λ _ _ e₂. rw (← ok-injective e₂) (
        subscribed_times s t h k (is_subscribed s h earlier) old
          (run-IsSubscribed has_method earlier old s h r))
run-IsSubscribed has_method (unsubscribe t k ∷ earlier) dds s h e =
    >>=-eq-ok (run has_method earlier) _ e λ old r e₁.
      >>=-eq-ok (check_handler has_method t k) _ e₁ λ _ _ e₂.
        let before = run-IsSubscribed has_method earlier old s h r in
        let after = removed_times s t h k old in rw (← ok-injective e₂) (ground arith)
