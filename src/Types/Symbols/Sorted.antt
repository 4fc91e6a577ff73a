-- ===== src/Types/Symbols/Sorted.antt =====
-- The chains in the order of their lengths.
use murano_temp.Base.{Bool-cases, List, [], arith, inl, inr, length, ◌<◌, ◌↔◌, ◌∷◌, ◌≡◌, ◌≤◌, ◌⊎◌}
use murano_temp.Base.Num.{leb, leb→le}
use murano_temp.Types.Symbols.{insert_by_len, sort_by_len}
use mathlib.Core.List.{Memᴰ}
use mathlib.Core.List.Memᴰ

-- No chain is longer than one after it.
abbrev pub Ascending {ℓ} : {S : Type ℓ} → List (List S) → Type ℓ
Ascending [] = Unit
Ascending {S} (c ∷ l) = ((d : List S) → Memᴰ d l → length c ≤ length d) × Ascending l

module _ {S : Type 0} where
  insert_by_len-in :
      (x c : List S) (l : List (List S)) → Memᴰ x (insert_by_len c l) ↔ ((x ≡ c) ⊎ Memᴰ x l)
  unfolding insert_by_len
  insert_by_len-in x c [] = (
    λ m. Memᴰ.cases_cons m,
    λ s. elim s [ inl e ↦ Memᴰ.head e | inr m ↦ absurd (Memᴰ.not-nil m) ],
  )
  insert_by_len-in x c (d ∷ l) = elim (Bool-cases (leb (length c) (length d))) [
    | inl e ↦
        rw e (λ m. Memᴰ.cases_cons m, λ s. elim s [ inl i ↦ Memᴰ.head i | inr m ↦ Memᴰ.tail m ])
    | inr n ↦
        let (fore, back) = insert_by_len-in x c l in
        rw n (
          λ m. elim (Memᴰ.cases_cons m) [
            | inl i ↦ inr (Memᴰ.head i)
            | inr k ↦ elim (fore k) [ inl i ↦ inl i | inr k' ↦ inr (Memᴰ.tail k') ]
          ],
          λ s. elim s [
            | inl i ↦ Memᴰ.tail (back (inl i))
            | inr m ↦ elim (Memᴰ.cases_cons m) [
              | inl i ↦ Memᴰ.head i
              | inr k ↦ Memᴰ.tail (back (inr k))
            ]
          ],
        )
  ]

  insert_by_len-Ascending :
      (c : List S) (l : List (List S)) → Ascending l → Ascending (insert_by_len c l)
  unfolding insert_by_len
  insert_by_len-Ascending c [] a = (λ d m. absurd (Memᴰ.not-nil m), tt)
  insert_by_len-Ascending c (d ∷ l) (above, a) = elim (Bool-cases (leb (length c) (length d))) [
    | inl e ↦
        let le : length c ≤ length d = leb→le (length c) (length d) e in
        rw e (
          λ x m. elim (Memᴰ.cases_cons m) [
            | inl i ↦ rw i le
            | inr k ↦ let le' = above x k in omega arith
          ],
          (above, a),
        )
    | inr n ↦
        let lt : length d < length c = ground (arith, n) in
        rw n (
          λ x m. elim ((insert_by_len-in x c l).0 m) [
            | inl i ↦ rw i (omega arith)
            | inr k ↦ above x k
          ],
          insert_by_len-Ascending c l a,
        )
  ]

  pub sort_by_len-in : (x : List S) (l : List (List S)) → Memᴰ x (sort_by_len l) ↔ Memᴰ x l
  unfolding sort_by_len
  sort_by_len-in x [] = (λ m. m, λ m. m)
  sort_by_len-in x (c ∷ l) =
      let (fore, back) = sort_by_len-in x l in
      let (out, into) = insert_by_len-in x c (sort_by_len l) in
      (
        λ m. elim (out m) [ inl i ↦ Memᴰ.head i | inr k ↦ Memᴰ.tail (fore k) ],
        λ m. elim (Memᴰ.cases_cons m) [ inl i ↦ into (inl i) | inr k ↦ into (inr (back k)) ],
      )

  pub sort_by_len-Ascending : (l : List (List S)) → Ascending (sort_by_len l)
  unfolding sort_by_len
  sort_by_len-Ascending [] = tt
  sort_by_len-Ascending (c ∷ l) =
      insert_by_len-Ascending c (sort_by_len l) (sort_by_len-Ascending l)
