-- ===== src/Types/Lookup/Single.antt =====
-- A single symbol of a name: what decides between the three outcomes.
use murano_temp.Base.{List, List-cases, Option, [], inl, inr, refl, some, ◌↔◌, ◌∷◌, ◌≡◌, ◌≢◌}
use murano_temp.Base.Equality.{Equality}
use murano_temp.Types.{Class}
use murano_temp.Types.Lookup.{Choice, ambiguous, chosen, not_found, only_one, single_symbol}
use murano_temp.Types.Symbols.Chains.{Line}
use murano_temp.Types.Symbols.Chosen.{Distinct, Leads, Line-Leads, choose_symbol-Leads}
use mathlib.Core.List.{Memᴰ}
use mathlib.Core.List.Memᴰ

-- What each outcome says of the hierarchy.
unfoldable pub Explains : {S : Type 0} → (Class → Option S) → Class → Choice S → Type 0
Explains func cls (chosen s) = (u : _) → Leads func cls u ↔ (u ≡ s)
Explains func cls not_found = (c : List _) → Line func cls c → c ≡ []
Explains {S} func cls ambiguous = (s : S) × (u : S) × Leads func cls s × Leads func cls u × (s ≢ u)

outcome-Explains :
    {S : Type 0} (identity : Equality S) (func : Class → Option S) (cls : Class) (r : List S)
    → Distinct r
    → ((s : S) → Memᴰ s r ↔ Leads func cls s)
    → Explains func cls (only_one r)
unfolding Explains
outcome-Explains identity func cls [] distinct same = λ c line. elim (List-cases c) [
  | inl e ↦ e
  | inr (s, t, e) ↦
      let (u, leads) = Line-Leads identity func cls c line (λ n. cc) in
      absurd (Memᴰ.not-nil ((same u).1 leads))
]
outcome-Explains identity func cls (s ∷ []) distinct same =
    λ u. (λ leads. Memᴰ.eq_of_singleton ((same u).1 leads), λ e. (same u).0 (Memᴰ.head e))
outcome-Explains identity func cls (s ∷ u ∷ r) distinct same = (
  s,
  u,
  (same s).0 (Memᴰ.head refl),
  (same u).0 (Memᴰ.tail (Memᴰ.head refl)),
  λ e. distinct.0 (Memᴰ.head e),
)

-- The lookup of a single symbol ends. A symbol that it chooses is the only one that leads a line of
-- the class; not found means that every line of the class is empty; and ambiguous that two different
-- symbols lead lines.
pub single_symbol-Explains :
    {S : Type 0} (identity : Equality S) (func : Class → Option S) (cls : Class)
    → (o : Choice S) × (single_symbol identity func cls ≡ some o) × Explains func cls o
unfolding single_symbol
single_symbol-Explains identity func cls =
    let (r, ran, distinct, same) = choose_symbol-Leads identity func cls in
    (only_one r, rw ran refl, outcome-Explains identity func cls r distinct same)
