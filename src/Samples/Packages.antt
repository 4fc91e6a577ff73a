-- ===== src/Samples/Packages.antt =====
-- Four versions of a package, each of which the requirement of the one before accepts as well.
use murano_temp.Base.{All, Bool, List, [], arith, refl, some, ℕ, ◌+◌, ◌==◌, ◌||◌, ◌∷◌, ◌≡◌, ◌≤◌}
use murano_temp.Types.Packages.{Entry, remap_package}
use murano_temp.Types.Packages.Ends.{remap_package-ends}

abbrev requires : ℕ → ℕ → Bool
requires a b = murano_temp.Base.Num.◌==◌ a b || murano_temp.Base.Num.◌==◌ (a + 1) b

abbrev entry : ℕ → Entry
entry v = (v, requires v)

abbrev versions : List Entry
versions = entry 1 ∷ entry 2 ∷ entry 3 ∷ entry 4 ∷ []

-- Version 1 is bound to version 3, which is bound to version 4 itself.
chain_example : remap_package versions ≡ some ((1, 3) ∷ (2, 4) ∷ (3, 4) ∷ [])
unfolding remap_package
chain_example = refl

remap_package-ends_example :
    (r : List (ℕ × ℕ)) × (remap_package versions ≡ some r) × All (λ b. (b.0 ≤ 4) × (b.1 ≤ 4)) r
remap_package-ends_example =
    remap_package-ends (λ p. p ≤ 4) versions
      (omega arith, (omega arith, (omega arith, (omega arith, tt))))
