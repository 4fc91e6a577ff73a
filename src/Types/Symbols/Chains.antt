-- ===== src/Types/Symbols/Chains.antt =====
-- The chains of a hierarchy: the symbols on the paths from a class to a class without parents.
use murano_temp.Base.{
  List, List-cases, Option, [], ap, ap₂, arith, inl, inr, refl, some, suc, sym, zero, ℕ, ◌++◌, ◌+◌,
  ◌<◌, ◌↔◌, ◌∙◌, ◌∷◌, ◌≡◌, ◌≢◌, ◌⊎◌,
}
use murano_temp.Types.{
  Class, Classes, and_class, murano_class, no_class, parents, to_classes, weight, weights,
}
use murano_temp.Types.Symbols.{chains_loop, find_symbol_chains, segment, with_path, yield}
use mathlib.Core.List.{Memᴰ, append_assoc}
use mathlib.Core.List.Memᴰ
use mathlib.Core.Path.{subst}

module _ {S : Type 0} (func : Class → Option S) where
  -- The symbols on a path from a class up to a class without parents, the class's own first.
  pub data Line : Class → List S → Type 0 where
    at_top : {c : Class} → parents c ≡ [] → Line c (segment func c)
    upward :
        {c p : Class} {t : List S} → Memᴰ p (parents c) → Line p t → Line c (segment func c ++ t)

  -- A chain that starts in the queue.
  abbrev pub Queued : List (Class × List S) → List S → Type 0
  Queued queue c =
      (q : Class × List S) × Memᴰ q queue × (t : List S) × Line q.0 t × (c ≡ q.1 ++ t) × (c ≢ [])

  total : List (Class × List S) → ℕ
  total [] = 0
  total (q ∷ queue) = weight q.0 + total queue

  total-append : (l m : List (Class × List S)) → total (l ++ m) ≡ total l + total m
  unfolding total
  total-append [] m = omega arith
  total-append (q ∷ l) m = omega (arith, total-append l m)

  total-with_path :
      (path : List S) (cs : Classes) → total (with_path path (to_classes cs)) ≡ weights cs
  unfolding total weights
  total-with_path path no_class = refl
  total-with_path path (and_class c cs) = omega (arith, total-with_path path cs)

  total-parents : (path : List S) (c : Class) → suc (total (with_path path (parents c))) ≡ weight c
  unfolding parents weight
  total-parents path (murano_class id ms ps cs) = omega (arith, total-with_path path cs)

  in_with_path :
      (path : List S) (q : Class × List S) (ps : List Class)
      → Memᴰ q (with_path path ps)
      → Memᴰ q.0 ps × (q.1 ≡ path)
  in_with_path path q [] m = absurd (Memᴰ.not-nil m)
  in_with_path path q (p ∷ ps) m = elim (Memᴰ.cases_cons m) [
    | inl e ↦ (Memᴰ.head (ap (λ x. x.0) e), ap (λ x. x.1) e)
    | inr k ↦ let (a, b) = in_with_path path q ps k in (Memᴰ.tail a, b)
  ]

  with_path_in :
      (path : List S) (p : Class) (ps : List Class) → Memᴰ p ps → Memᴰ (p, path) (with_path path ps)
  with_path_in path p (c ∷ ps) m = elim (Memᴰ.cases_cons m) [
    | inl e ↦ Memᴰ.head (ap (λ x. (x, path)) e)
    | inr k ↦ Memᴰ.tail (with_path_in path p ps k)
  ]
  with_path_in path p [] m = absurd (Memᴰ.not-nil m)

  in-yield :
      (path : List S) (chains : List (List S)) (c : List S)
      → Memᴰ c (yield path chains) ↔ (((c ≡ path) × (c ≢ [])) ⊎ Memᴰ c chains)
  in-yield [] chains c = (λ m. inr m, λ s. elim s [ inl (e, n) ↦ absurd (n e) | inr m ↦ m ])
  in-yield (s ∷ path) chains c = (
    λ m. elim (Memᴰ.cases_cons m) [ inl e ↦ inl (e, λ n. cc) | inr k ↦ inr k ],
    λ s. elim s [ inl (e, n) ↦ Memᴰ.head e | inr m ↦ Memᴰ.tail m ],
  )

  Line-top : {c : Class} {t : List S} → Line c t → parents c ≡ [] → t ≡ segment func c
  Line-top (at_top e) h = refl
  Line-top (upward {p = p} m line) h = absurd (Memᴰ.not-nil (subst (λ l. Memᴰ p l) h m))

  Line-up :
      {c : Class} {t : List S}
      → Line c t
      → parents c ≢ []
      → (p : Class) × Memᴰ p (parents c) × (u : List S) × Line p u × (t ≡ segment func c ++ u)
  Line-up (at_top e) h = absurd (h e)
  Line-up {c} (upward {p = p} {t = u} m line) h = (p, m, u, line, refl)

  -- The head of the queue has no parents.
  Queued-top :
      (q : Class × List S) (queue : List (Class × List S)) (c : List S)
      → parents q.0 ≡ []
      → Queued (q ∷ queue) c ↔ (((c ≡ q.1 ++ segment func q.0) × (c ≢ [])) ⊎ Queued queue c)
  Queued-top q queue c h = (fore, back)
    where
      fore : Queued (q ∷ queue) c → ((c ≡ q.1 ++ segment func q.0) × (c ≢ [])) ⊎ Queued queue c
      fore (k, m, t, line, e, n) = elim (Memᴰ.cases_cons m) [
        | inl i ↦ inl (e ∙ rw (i, Line-top (subst (λ x. Line x.0 t) i line) h) refl, n)
        | inr m' ↦ inr (k, m', t, line, e, n)
      ]

      back : ((c ≡ q.1 ++ segment func q.0) × (c ≢ [])) ⊎ Queued queue c → Queued (q ∷ queue) c
      back (inl (e, n)) = (q, Memᴰ.head refl, segment func q.0, at_top h, e, n)
      back (inr (k, m, t, line, e, n)) = (k, Memᴰ.tail m, t, line, e, n)

  -- The head of the queue has parents.
  Queued-up :
      (q : Class × List S) (queue : List (Class × List S)) (c : List S)
      → parents q.0 ≢ []
      → Queued (q ∷ queue) c ↔ Queued (queue ++ with_path (q.1 ++ segment func q.0) (parents q.0)) c
  Queued-up q queue c h = (fore, back)
    where
      path : List S
      path = q.1 ++ segment func q.0

      fore : Queued (q ∷ queue) c → Queued (queue ++ with_path path (parents q.0)) c
      fore (k, m, t, line, e, n) = elim (Memᴰ.cases_cons m) [
        | inl i ↦
            let (p, at, u, rest, e') = Line-up (subst (λ x. Line x.0 t) i line) h in
            (
              (p, path),
              Memᴰ.append_right queue (with_path_in path p (parents q.0) at),
              u,
              rest,
              e ∙ ap₂ (λ x l. x.1 ++ l) i e' ∙ sym (append_assoc q.1 (segment func q.0) u),
              n,
            )
        | inr m' ↦ (k, Memᴰ.append_left _ m', t, line, e, n)
      ]

      back : Queued (queue ++ with_path path (parents q.0)) c → Queued (q ∷ queue) c
      back (k, m, t, line, e, n) = elim (Memᴰ.append_cases queue m) [
        | inl m' ↦ (k, Memᴰ.tail m', t, line, e, n)
        | inr m' ↦
            let (at, same) = in_with_path path k (parents q.0) m' in
            (
              q,
              Memᴰ.head refl,
              segment func q.0 ++ t,
              upward at line,
              e ∙ rw (same) (append_assoc q.1 (segment func q.0) t),
              n,
            )
      ]

  ends_here :
      (q : Class × List S) (queue : List (Class × List S)) (r : List (List S))
      → parents q.0 ≡ []
      → ((c : List S) → Memᴰ c r ↔ Queued queue c)
      → (c : List S) → Memᴰ c (yield (q.1 ++ segment func q.0) r) ↔ Queued (q ∷ queue) c
  ends_here q queue r h same c =
      let parts = in-yield (q.1 ++ segment func q.0) r c in
      let top = Queued-top q queue c h in
      (
        λ m. top.1 (elim (parts.0 m) [ inl e ↦ inl e | inr k ↦ inr ((same c).0 k) ]),
        λ s. parts.1 (elim (top.0 s) [ inl e ↦ inl e | inr k ↦ inr ((same c).1 k) ]),
      )

  chains_loop-top :
      (fuel : ℕ) (q : Class × List S) (queue : List (Class × List S)) (r : List (List S))
      → parents q.0 ≡ []
      → chains_loop func fuel queue ≡ some r
      → chains_loop func (suc fuel) (q ∷ queue) ≡ some (yield (q.1 ++ segment func q.0) r)
  unfolding chains_loop
  chains_loop-top fuel q queue r e ran = rw (e, chains_loop, ran) refl

  chains_loop-up :
      (fuel : ℕ) (q : Class × List S) (queue : List (Class × List S))
      → parents q.0 ≢ []
      → chains_loop func (suc fuel) (q ∷ queue)
        ≡ chains_loop func fuel (queue ++ with_path (q.1 ++ segment func q.0) (parents q.0))
  unfolding chains_loop
  chains_loop-up fuel q queue n = elim (List-cases (parents q.0)) [
    | inl e ↦ absurd (n e)
    | inr (p, ps, e) ↦ rw (e, chains_loop) refl
  ]

  chains_loop-Queued :
      (fuel : ℕ) (queue : List (Class × List S))
      → total queue < fuel
      → (r : List (List S)) × (chains_loop func fuel queue ≡ some r)
        × ((c : List S) → Memᴰ c r ↔ Queued queue c)
  unfolding total chains_loop
  chains_loop-Queued zero queue h = absurd (omega arith)
  chains_loop-Queued (suc fuel) [] h =
      ([], refl, λ c. (λ m. absurd (Memᴰ.not-nil m), λ s. absurd (Memᴰ.not-nil s.1)))
  chains_loop-Queued (suc fuel) (q ∷ queue) h = elim (List-cases (parents q.0)) [
    | inl e ↦
        let (r, ran, same) = chains_loop-Queued fuel queue (omega (arith, total-parents [] q.0)) in
        (
          yield (q.1 ++ segment func q.0) r,
          chains_loop-top fuel q queue r e ran,
          ends_here q queue r e same,
        )
    | inr (p, ps, e) ↦
        let path : List S = q.1 ++ segment func q.0 in
        let (r, ran, same) = chains_loop-Queued fuel (queue ++ with_path path (parents q.0)) (
          omega
            (arith, total-append queue (with_path path (parents q.0)), total-parents path q.0)) in
        let up = Queued-up q queue in
        (
          r,
          chains_loop-up fuel q queue (λ n. cc) ∙ ran,
          λ c. (λ m. (up c (λ n. cc)).1 ((same c).0 m), λ s. (same c).1 ((up c (λ n. cc)).0 s)),
        )
  ]

  -- The chains that are found are those of the lines, without the empty one.
  pub find_symbol_chains-Line :
      (cls : Class)
      → (r : List (List S)) × (find_symbol_chains func cls ≡ some r)
        × ((c : List S) → Memᴰ c r ↔ (Line cls c × (c ≢ [])))
  unfolding find_symbol_chains total
  find_symbol_chains-Line cls =
      let (r, ran, same) = chains_loop-Queued (suc (weight cls)) ((cls, []) ∷ []) (omega arith) in
      (
        r,
        ran,
        λ c. (
          λ m.
              let (q, at, t, line, e, n) = (same c).0 m in
              let i : q ≡ (cls, []) = Memᴰ.eq_of_singleton at in
              (subst (λ x. Line x.0 c) i (subst (λ u. Line q.0 u) (sym (e ∙ rw i refl)) line), n),
          λ s. (same c).1 ((cls, []), Memᴰ.head refl, c, s.0, refl, s.1),
        ),
      )
