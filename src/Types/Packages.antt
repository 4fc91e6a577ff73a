-- ===== src/Types/Packages.antt =====
-- `_remap_package` of murano/dsl/murano_type.py: which versions of a package stand for which. A
-- package is given by the place of its version in the order of the versions, and a requirement by the
-- versions that it accepts.
pub mod Steps
pub mod Ends
use murano_temp.Base.{
  Bool, List, Option, [], if◌then◌else◌, length, none, not, some, suc, true, zero, ℕ, ◌&&◌, ◌++◌,
  ◌+◌, ◌==◌, ◌∷◌,
}
use murano_temp.Base.Num.{leb, ltb}

abbrev pub Entry : Type 0
Entry = ℕ × (ℕ → Bool)

-- `sorted(versions, key=lambda x: x[0].version)`
unfoldable pub insert_entry : Entry → List Entry → List Entry
insert_entry e [] = e ∷ []
insert_entry e (x ∷ l) = let rest = insert_entry e l in if leb e.0 x.0 then e ∷ x ∷ l else x ∷ rest

unfoldable pub sort_entries : List Entry → List Entry
unfolding insert_entry
sort_entries [] = []
sort_entries (e ∷ l) = insert_entry e (sort_entries l)

abbrev is_newer : Option ℕ → ℕ → Bool
is_newer none p = true
is_newer (some d) p = ltb d p

-- The inner loop: the newest package of another place that the requirement accepts.
unfoldable pub find_destination : ℕ → (ℕ → Bool) → ℕ → List Entry → Option ℕ → Option ℕ
find_destination i requirement j [] best = best
find_destination i requirement j (e ∷ l) best = find_destination i requirement (j + 1) l (
    if not (murano_temp.Base.Num.◌==◌ i j) && (requirement e.0 && is_newer best e.0)
    then some e.0
    else best)

unfoldable pub entry_at : ℕ → List Entry → Option Entry
entry_at i [] = none
entry_at zero (e ∷ l) = some e
entry_at (suc i) (e ∷ l) = entry_at i l

-- `del versions_list[i]`
unfoldable pub delete_at : ℕ → List Entry → List Entry
delete_at i [] = []
delete_at zero (e ∷ l) = l
delete_at (suc i) (e ∷ l) = e ∷ delete_at i l

-- `result[p] = dst`
unfoldable pub bind_package : ℕ → ℕ → List (ℕ × ℕ) → List (ℕ × ℕ)
bind_package p dst [] = (p, dst) ∷ []
bind_package p dst (x ∷ l) =
    let rest = bind_package p dst l in
    if murano_temp.Base.Num.◌==◌ x.0 p then (p, dst) ∷ l else x ∷ rest

-- `reverse_mappings.setdefault(dst, []).append(p)`
unfoldable pub add_reverse : ℕ → ℕ → List (ℕ × List ℕ) → List (ℕ × List ℕ)
add_reverse dst p [] = (dst, p ∷ []) ∷ []
add_reverse dst p (x ∷ l) =
    let rest = add_reverse dst p l in
    if murano_temp.Base.Num.◌==◌ x.0 dst then (dst, x.1 ++ (p ∷ [])) ∷ l else x ∷ rest

-- `reverse_mappings.get(p, [])`
unfoldable pub get_reverse : ℕ → List (ℕ × List ℕ) → List ℕ
get_reverse p [] = []
get_reverse p (x ∷ l) =
    let rest = get_reverse p l in if murano_temp.Base.Num.◌==◌ x.0 p then x.1 else rest

unfoldable pub bind_all : List ℕ → ℕ → List (ℕ × ℕ) → List (ℕ × ℕ)
unfolding bind_package
bind_all [] dst result = result
bind_all (p ∷ ps) dst result = bind_all ps dst (bind_package p dst result)

-- The outer loop; `none` says that the fuel ran out.
unfoldable pub remap_loop :
    ℕ → ℕ → List Entry → List (ℕ × ℕ) → List (ℕ × List ℕ) → Option (List (ℕ × ℕ))
unfolding find_destination entry_at delete_at bind_package add_reverse get_reverse bind_all
remap_loop zero i versions result reversed = none
remap_loop (suc fuel) i versions result reversed = elim (entry_at i versions) [
  | none ↦ some result
  | some e ↦ elim (find_destination i e.1 0 versions none) [
    | none ↦ remap_loop fuel (i + 1) versions result reversed
    | some dst ↦
        remap_loop fuel i (delete_at i versions)
          (bind_all (get_reverse e.0 (add_reverse dst e.0 reversed)) dst
            (bind_package e.0 dst result))
          (add_reverse dst e.0 reversed)
  ]
]

unfoldable pub remap_package : List Entry → Option (List (ℕ × ℕ))
unfolding remap_loop sort_entries
remap_package versions =
    remap_loop (suc (length versions + length versions)) 0 (sort_entries versions) [] []
