-- ===== src/Types/Symbols.antt =====
-- `_find_symbol_chains` and `_choose_symbol` of murano/dsl/murano_type.py: which of the symbols of a
-- name, in the hierarchy of a class, the class has.
pub mod Chains
pub mod Suffix
pub mod Sorted
pub mod Kept
pub mod Chosen
use murano_temp.Base.{
  Bool, List, Option, [], false, if◌then◌else◌, length, none, refl, some, suc, zero, ℕ, ◌++◌, ◌==◌,
  ◌||◌, ◌∷◌, ◌≡◌,
}
use murano_temp.Base.Equality.{Equality}
use murano_temp.Base.Num.{leb}
use murano_temp.Types.{Class, parents, weight}
use mathlib.Core.List.{reverse}

segment_of {ℓ} : {S : Type ℓ} → Option S → List S
segment_of none = []
segment_of (some s) = s ∷ []

abbrev pub map_option {ℓ κ} : {A : Type ℓ} {B : Type κ} → (A → B) → Option A → Option B
map_option f none = none
map_option f (some a) = some (f a)

pub map_option-some {ℓ κ} :
    {A : Type ℓ} {B : Type κ} (f : A → B) (o : Option A) {b : B}
    → map_option f o ≡ some b
    → (a : A) × (o ≡ some a) × (b ≡ f a)
map_option-some f none h = cc
map_option-some f (some a) h = (a, refl, cc)

-- `queue.append((p, path))` for each parent
abbrev pub with_path {ℓ} : {S : Type ℓ} → List S → List Class → List (Class × List S)
with_path path [] = []
with_path path (p ∷ ps) = (p, path) ∷ with_path path ps

-- A chain that is not empty is yielded.
abbrev pub yield {ℓ} : {S : Type ℓ} → List S → List (List S) → List (List S)
yield [] chains = chains
yield (s ∷ path) chains = (s ∷ path) ∷ chains

module _ {S : Type 0} (func : Class → Option S) where
  unfoldable pub segment : Class → List S
  unfolding segment_of
  segment cls = segment_of (func cls)

  -- The loop over the queue; `none` says that the fuel ran out.
  unfoldable pub chains_loop : ℕ → List (Class × List S) → Option (List (List S))
  unfolding segment
  chains_loop zero queue = none
  chains_loop (suc fuel) [] = some []
  chains_loop (suc fuel) (q ∷ queue) =
      let path = q.1 ++ segment q.0 in
      elim (parents q.0) [
        | [] ↦ map_option (yield path) (chains_loop fuel queue)
        | p ∷ ps ↦ chains_loop fuel (queue ++ with_path path (p ∷ ps))
      ]

  unfoldable pub find_symbol_chains : Class → Option (List (List S))
  unfolding chains_loop
  find_symbol_chains cls = chains_loop (suc (weight cls)) ((cls, []) ∷ [])

module _ {S : Type 0} (identity : Equality S) where
  -- The count of the items that two chains have in common, from their ends on.
  unfoldable pub common : List S → List S → ℕ
  common [] ys = 0
  common (x ∷ xs) [] = 0
  common (x ∷ xs) (y ∷ ys) = let rest = common xs ys in if identity.eq x y then suc rest else 0

  -- One of the later chains ends with this one.
  unfoldable pub is_covered : List S → List (List S) → Bool
  unfolding common
  is_covered chain [] = false
  is_covered chain (d ∷ later) =
      murano_temp.Base.Num.◌==◌ (common (reverse chain) (reverse d)) (length chain)
      || is_covered chain later

  unfoldable pub member : S → List S → Bool
  member s [] = false
  member s (t ∷ ts) = identity.eq t s || member s ts

  -- The loop over the sorted chains, none of which is empty.
  unfoldable pub choose_loop : List (List S) → List S → List S
  unfolding is_covered member
  choose_loop [] result = result
  choose_loop ([] ∷ later) result = choose_loop later result
  choose_loop ((s ∷ chain) ∷ later) result =
      choose_loop later
        (if member s result || is_covered (s ∷ chain) later then result else result ++ (s ∷ []))

-- `sorted(chains, key=len)`
unfoldable pub insert_by_len {ℓ} : {S : Type ℓ} → List S → List (List S) → List (List S)
insert_by_len c [] = c ∷ []
insert_by_len c (d ∷ chains) =
    let rest = insert_by_len c chains in
    if leb (length c) (length d) then c ∷ d ∷ chains else d ∷ rest

unfoldable pub sort_by_len {ℓ} : {S : Type ℓ} → List (List S) → List (List S)
unfolding insert_by_len
sort_by_len [] = []
sort_by_len (c ∷ chains) = insert_by_len c (sort_by_len chains)

unfoldable pub choose_symbol :
    {S : Type 0} → Equality S → (Class → Option S) → Class → Option (List S)
unfolding find_symbol_chains choose_loop sort_by_len
choose_symbol identity func cls =
    map_option (λ chains. choose_loop identity (sort_by_len chains) [])
      (find_symbol_chains func cls)
