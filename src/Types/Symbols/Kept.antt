-- ===== src/Types/Symbols/Kept.antt =====
-- The chains that the loop of `_choose_symbol` keeps, and what it returns.
use murano_temp.Base.{
  Bool, Bool-cases, List, [], ap, arith, false, if◌then◌else◌, inl, inr, length, length-append,
  refl, suc, sym, true, ◌++◌, ◌||◌, ◌∷◌, ◌≡◌, ◌≤◌, ◌⊎◌,
}
use murano_temp.Base.Equality.{Equality}
use murano_temp.Types.Symbols.{choose_loop, is_covered, member}
use murano_temp.Types.Symbols.Sorted.{Ascending}
use murano_temp.Types.Symbols.Suffix.{Extends, is_covered-back, is_covered-fore}
use mathlib.Core.List.{Memᴰ}
use mathlib.Core.List.Memᴰ
use mathlib.Core.Path.{subst}

module _ {S : Type 0} (identity : Equality S) where
  -- The loop reaches the chain, and no later chain ends with it.
  pub data Kept : List (List S) → List S → Type 0 where
    kept_here :
        {c : List S} {later : List (List S)}
        → is_covered identity c later ≡ false
        → Kept (c ∷ later) c
    kept_later : {c d : List S} {later : List (List S)} → Kept later c → Kept (d ∷ later) c

  -- Of the chains of the list, only the chain itself ends with it.
  unfoldable pub Maximal : List (List S) → List S → Type 0
  Maximal l c = (d : List S) → Memᴰ d l → Extends d c → d ≡ c

  no_front : (c d front : List S) → d ≡ front ++ c → length d ≤ length c → d ≡ c
  no_front c d [] e h = e
  no_front c d (x ∷ front) e h =
      let n : length d ≡ suc (length (front ++ c)) = ap (λ l. length l) e in
      absurd (omega (arith, length-append front c))

  pub Kept-in : {l : List (List S)} {c : List S} → Kept l c → Memᴰ c l
  Kept-in (kept_here h) = Memᴰ.head refl
  Kept-in (kept_later k) = Memᴰ.tail (Kept-in k)

  pub Kept-Maximal : {l : List (List S)} {c : List S} → Ascending l → Kept l c → Maximal l c
  unfolding Maximal
  Kept-Maximal {l = []} a k d m x = absurd (Memᴰ.not-nil m)
  Kept-Maximal {l = c ∷ later} a (kept_here h) d m x = elim (Memᴰ.cases_cons m) [
    | inl i ↦ i
    | inr k ↦ let y = is_covered-back identity c d later k x in cc
  ]
  Kept-Maximal {l = e ∷ later} {c = c} a (kept_later k) d m x = elim (Memᴰ.cases_cons m) [
    | inl i ↦ no_front c d x.0 x.1 (rw i (a.0 c (Kept-in k)))
    | inr m' ↦ Kept-Maximal a.1 k d m' x
  ]

  pub Maximal-Kept : (l : List (List S)) (c : List S) → Memᴰ c l → Maximal l c → Kept l c
  unfolding Maximal
  Maximal-Kept [] c m x = absurd (Memᴰ.not-nil m)
  Maximal-Kept (d ∷ later) c m x = elim (Memᴰ.cases_cons m) [
    | inl i ↦ elim (Bool-cases (is_covered identity c later)) [
      | inl y ↦
          let (e, at, ext) = is_covered-fore identity c later y in
          let same : e ≡ c = x e (Memᴰ.tail at) ext in
          kept_later (Maximal-Kept later c (Memᴰ.cast (sym same) at) (λ f k. x f (Memᴰ.tail k)))
      | inr n ↦ subst (λ f. Kept (f ∷ later) c) i (kept_here n)
    ]
    | inr k ↦ kept_later (Maximal-Kept later c k (λ f k'. x f (Memᴰ.tail k')))
  ]

  pub member_iff : (s : S) (ts : List S) → (member identity s ts ≡ true) → Memᴰ s ts
  unfolding member
  member_iff s [] h = cc
  member_iff s (t ∷ ts) h = elim (Bool-cases (identity.eq t s)) [
    | inl e ↦ Memᴰ.head (sym ((identity.eq_iff t s).0 e))
    | inr n ↦ Memᴰ.tail (member_iff s ts (ground arith))
  ]

  -- What the loop returns: the result so far, and the first symbols of the chains that it keeps.
  pub choose_loop-fore :
      (l : List (List S)) (result : List S) (s : S)
      → Memᴰ s (choose_loop identity l result)
      → Memᴰ s result ⊎ ((t : List S) × Kept l (s ∷ t))
  unfolding choose_loop
  choose_loop-fore [] result s m = inl m
  choose_loop-fore ([] ∷ later) result s m = elim (choose_loop-fore later result s m) [
    | inl k ↦ inl k
    | inr (t, k) ↦ inr (t, kept_later k)
  ]
  choose_loop-fore ((u ∷ c) ∷ later) result s m = elim (choose_loop-fore later _ s m) [
    | inl k ↦ elim (Bool-cases (member identity u result || is_covered identity (u ∷ c) later)) [
      | inl y ↦ inl (subst (λ b. Memᴰ s (if b then result else result ++ (u ∷ []))) y k)
      | inr n ↦
          elim (Memᴰ.append_cases result
            (subst (λ b. Memᴰ s (if b then result else result ++ (u ∷ []))) n k)) [
              | inl k' ↦ inl k'
              | inr k' ↦
                  let e : s ≡ u = Memᴰ.eq_of_singleton k' in
                  inr (
                    c,
                    subst (λ v. Kept ((u ∷ c) ∷ later) (v ∷ c)) (sym e)
                        (kept_here (ground (arith, n))),
                  )
            ]
    ]
    | inr (t, k) ↦ inr (t, kept_later k)
  ]

  in_result :
      (b : Bool) (s u : S) (result : List S)
      → Memᴰ s result
      → Memᴰ s (if b then result else result ++ (u ∷ []))
  in_result true s u result m = m
  in_result false s u result m = Memᴰ.append_left (u ∷ []) m

  choose_loop-result :
      (l : List (List S)) (result : List S) (s : S)
      → Memᴰ s result
      → Memᴰ s (choose_loop identity l result)
  unfolding choose_loop
  choose_loop-result [] result s m = m
  choose_loop-result ([] ∷ later) result s m = choose_loop-result later result s m
  choose_loop-result ((u ∷ c) ∷ later) result s m =
      choose_loop-result later _ s (in_result _ s u result m)

  pub choose_loop-back :
      (l : List (List S)) (result : List S) (s : S) (t : List S)
      → Kept l (s ∷ t)
      → Memᴰ s (choose_loop identity l result)
  unfolding choose_loop
  choose_loop-back [] result s t k = elim k [ ]
  choose_loop-back ([] ∷ later) result s t (kept_later k) = choose_loop-back later result s t k
  choose_loop-back ((u ∷ c) ∷ later) result s t (kept_later k) = choose_loop-back later _ s t k
  choose_loop-back ((u ∷ c) ∷ later) result s t (kept_here h) =
      choose_loop-result later _ s (elim (Bool-cases (member identity s result)) [
        | inl y ↦ in_result _ s s result (member_iff s result y)
        | inr n ↦
            let skip : (member identity s result || is_covered identity (s ∷ t) later) ≡ false =
              ground (arith, h, n) in
            subst (λ b. Memᴰ s (if b then result else result ++ (s ∷ []))) (sym skip)
              (Memᴰ.append_right result (Memᴰ.head refl))
      ])

  -- The last chain is kept.
  pub Kept-last : (c : List S) (l : List (List S)) → (d : List S) × Kept (c ∷ l) d
  unfolding is_covered
  Kept-last c [] = (c, kept_here refl)
  Kept-last c (d ∷ l) = let (e, k) = Kept-last d l in (e, kept_later k)
