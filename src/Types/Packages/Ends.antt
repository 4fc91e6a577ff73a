-- ===== src/Types/Packages/Ends.antt =====
-- The loop of `_remap_package` ends, and binds packages of the list to packages of the list.
use murano_temp.Base.{
  All, List, Option-cases, [], arith, inl, inr, length, none, refl, some, suc, zero, ℕ, ◌+◌, ◌-◌,
  ◌<◌, ◌∙◌, ◌≡◌,
}
use murano_temp.Types.Packages.{
  Entry, add_reverse, bind_all, bind_package, delete_at, entry_at, find_destination, get_reverse,
  remap_loop, remap_package, sort_entries,
}
use murano_temp.Types.Packages.Steps.{
  All-add_reverse, All-bind_all, All-bind_package, All-delete_at, All-entry_at, All-get_reverse,
  All-sort_entries, IsOfEntry, IsOfOption, IsOfPair, IsOfReverse, destination_of, entry_at-lt,
  length-delete_at, length-sort_entries,
}
use mathlib.Core.Path.{subst}

module _ (P : ℕ → Type 0) where
  -- A turn that binds no package, and one that binds the package at hand.
  remap_loop-keep :
      (fuel i : ℕ) (l : List Entry) (e : Entry) (result : List (ℕ × ℕ)) (back : List (ℕ × List ℕ))
      → entry_at i l ≡ some e
      → find_destination i e.1 0 l none ≡ none
      → remap_loop (suc fuel) i l result back ≡ remap_loop fuel (i + 1) l result back
  unfolding remap_loop
  remap_loop-keep fuel i l e result back h k = rw (h, k, remap_loop) refl

  remap_loop-bind :
      (fuel i : ℕ) (l : List Entry) (e : Entry) (result : List (ℕ × ℕ)) (back : List (ℕ × List ℕ))
      (dst : ℕ)
      → entry_at i l ≡ some e
      → find_destination i e.1 0 l none ≡ some dst
      → remap_loop (suc fuel) i l result back
        ≡ remap_loop fuel i
            (delete_at i l)
            (bind_all
              (get_reverse e.0 (add_reverse dst e.0 back))
              dst
              (bind_package e.0 dst result))
            (add_reverse dst e.0 back)
  unfolding remap_loop
  remap_loop-bind fuel i l e result back dst h k = rw (h, k, remap_loop) refl

  remap_loop-last :
      (fuel i : ℕ) (l : List Entry) (result : List (ℕ × ℕ)) (back : List (ℕ × List ℕ))
      → entry_at i l ≡ none
      → remap_loop (suc fuel) i l result back ≡ some result
  unfolding remap_loop
  remap_loop-last fuel i l result back h = rw (h, remap_loop) refl

  pub remap_loop-ends :
      (fuel i : ℕ) (l : List Entry) (result : List (ℕ × ℕ)) (back : List (ℕ × List ℕ))
      → length l + (length l - i) < fuel
      → All (IsOfEntry P) l
      → All (IsOfPair P) result
      → All (IsOfReverse P) back
      → (r : List (ℕ × ℕ)) × (remap_loop fuel i l result back ≡ some r) × All (IsOfPair P) r
  remap_loop-ends zero i l result back enough a b c = absurd (omega arith)
  remap_loop-ends (suc fuel) i l result back enough a b c = elim (Option-cases (entry_at i l)) [
    | inl h ↦ (result, remap_loop-last fuel i l result back h, b)
    | inr (e, h) ↦
        let within : i < length l = entry_at-lt i l e h in
        let here : P e.0 = All-entry_at P i l e a h in
        elim (Option-cases (find_destination i e.1 0 l none)) [
          | inl k ↦
              let (r, ran, all) = remap_loop-ends fuel (i + 1) l result back (omega arith) a b c in
              (r, remap_loop-keep fuel i l e result back h k ∙ ran, all)
          | inr (dst, k) ↦
              let there : P dst =
                subst (λ o. IsOfOption P o) k (destination_of P i e.1 0 l none a tt) in
              let shorter = length-delete_at i l within in
              let back' : List (ℕ × List ℕ) = add_reverse dst e.0 back in
              let c' : All (IsOfReverse P) back' = All-add_reverse P dst e.0 back here c in
              let (r, ran, all) =
                remap_loop-ends fuel i (delete_at i l)
                  (bind_all (get_reverse e.0 back') dst (bind_package e.0 dst result)) back'
                  (omega arith) (All-delete_at P i l a)
                  (All-bind_all P (get_reverse e.0 back') dst (bind_package e.0 dst result)
                    (All-get_reverse P e.0 back' c') there
                    (All-bind_package P e.0 dst result here there b))
                  c' in
              (r, remap_loop-bind fuel i l e result back dst h k ∙ ran, all)
        ]
  ]

-- The remapping ends, in the fuel that it has, and only binds packages that have a property to
-- packages that have it, if all the packages that it is given have it.
pub remap_package-ends :
    (P : ℕ → Type 0) (versions : List Entry)
    → All (λ e. P e.0) versions
    → (r : List (ℕ × ℕ)) × (remap_package versions ≡ some r) × All (λ b. P b.0 × P b.1) r
unfolding remap_package
remap_package-ends P versions a =
    remap_loop-ends P (suc (length versions + length versions)) 0 (sort_entries versions) [] []
      (let n = length-sort_entries versions in omega arith) (All-sort_entries P versions a) tt tt
