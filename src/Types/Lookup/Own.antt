-- ===== src/Types/Lookup/Own.antt =====
-- A class's own method against those that it inherits.
use murano_temp.Base.{List, Option, String, [], ap, refl, some, sym, ◌++◌, ◌∙◌, ◌∷◌, ◌≡◌}
use murano_temp.Types.{
  Class, Method, and_class, get_named, methods, murano_class, no_class, parents,
}
use murano_temp.Types.Lookup.{
  Choice, ambiguous, chosen, find_single_method, method_identity, method_named, not_found,
}
use murano_temp.Types.Lookup.Single.{Explains, single_symbol-Explains}
use murano_temp.Types.Symbols.{segment}
use murano_temp.Types.Symbols.Chains.{Line, at_top, upward}
use murano_temp.Types.Symbols.Chosen.{Leads, Line-Leads}
use mathlib.Core.List.{Memᴰ}

module _ {S : Type 0} (func : Class → Option S) where
  a-Line : (c : Class) → (t : List S) × Line func c t
  unfolding parents
  a-Line (murano_class id ms ps no_class) =
      (segment func (murano_class id ms ps no_class), at_top refl)
  a-Line (murano_class id ms ps (and_class p cs)) =
      let (t, line) = a-Line p in
      (segment func (murano_class id ms ps (and_class p cs)) ++ t, upward (Memᴰ.head refl) line)

  Line-own :
      (cls : Class) (m : S) (t : List S)
      → func cls ≡ some m
      → Line func cls t
      → (u : List S) × (t ≡ m ∷ u)
  unfolding segment
  Line-own cls m t h (at_top e) = ([], rw h refl)
  Line-own cls m t h (upward {t = u} at line) = (u, rw h refl)

  Leads-own : (cls : Class) (m s : S) → func cls ≡ some m → Leads func cls s → s ≡ m
  Leads-own cls m s h (t, line, only) = let (u, e) = Line-own cls m (s ∷ t) h line in cc

  outcome-own :
      (cls : Class) (m : S) (o : Choice S)
      → func cls ≡ some m
      → (s : S) × Leads func cls s
      → Explains func cls o
      → o ≡ chosen m
  unfolding Explains
  outcome-own cls m (chosen s) h (u, leads) x =
      ap chosen (sym ((x u).0 leads) ∙ Leads-own cls m u h leads)
  outcome-own cls m not_found h (u, (t, line, only)) x = let e = x (u ∷ t) line in cc
  outcome-own cls m ambiguous h leads (s, u, first, second, differ) =
      absurd (differ (Leads-own cls m s h first ∙ sym (Leads-own cls m u h second)))

-- A method of a class that declares one of that name itself: the search ends, and finds it alone,
-- whatever the ancestors declare.
pub find_single_method-own :
    (name : String) (cls : Class) (m : Method)
    → get_named name (methods cls) ≡ some m
    → find_single_method name cls ≡ some (chosen m)
unfolding find_single_method method_named
find_single_method-own name cls m h =
    let func : Class → Option Method = method_named name in
    let (o, ran, x) = single_symbol-Explains method_identity func cls in
    let (t, line) = a-Line func cls in
    let (u, e) = Line-own func cls m t h line in
    let leads = Line-Leads method_identity func cls t line (λ n. cc) in
    ran ∙ ap some (outcome-own func cls m o h leads x)
