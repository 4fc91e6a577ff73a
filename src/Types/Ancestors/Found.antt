-- ===== src/Types/Ancestors/Found.antt =====
-- `find_methods` of murano/dsl/murano_type.py: the methods of a class and of its ancestors that pass a
-- test.
use murano_temp.Base.{
  Bool, Bool-cases, List, Option, String, [], ap, false, filter, if◌then◌else◌, inl, inr, not, refl,
  some, sym, true, ◌&&◌, ◌++◌, ◌↔◌, ◌∙◌, ◌∷◌, ◌≡◌, ◌⊎◌,
}
use murano_temp.Base.Members.{in_filter}
use murano_temp.Types.{Class, Method, methods}
use murano_temp.Types.Ancestors.{ancestors, same_class}
use murano_temp.Types.Ancestors.Compatible.{Above, IsConsistent, ancestors-Above, same_class_self}
use murano_temp.Types.Ancestors.Visits.{origin}
use murano_temp.Types.Lookup.{method_identity}
use murano_temp.Types.Symbols.{map_option, member}
use murano_temp.Types.Symbols.Kept.{member_iff}
use mathlib.Core.List.{Memᴰ}
use mathlib.Core.List.Memᴰ
use mathlib.Core.Path.{subst}

-- `self.methods.values()`
unfoldable pub values : List (String × Method) → List Method
values [] = []
values (x ∷ xs) = x.1 ∷ values xs

module _ (predicate : Method → Bool) where
  unfoldable pub add_found : List Method → List Method → List Method
  unfolding member method_identity
  add_found result [] = result
  add_found result (m ∷ ms) =
      add_found
        (if predicate m && not (member method_identity m result)
          then result ++ (m ∷ [])
          else result)
        ms

  unfoldable pub add_classes : List Method → List Class → List Method
  unfolding add_found values
  add_classes result [] = result
  add_classes result (c ∷ cs) = add_classes (add_found result (values (methods c))) cs

  unfoldable pub find_methods : Class → Option (List Method)
  unfolding add_classes filter
  find_methods cls =
      map_option (add_classes (filter predicate (values (methods cls)))) (ancestors cls)

  in_next :
      (m x : Method) (result : List Method)
      → Memᴰ m (
          if predicate x && not (member method_identity x result)
          then result ++ (x ∷ [])
          else result)
        ↔ (Memᴰ m result ⊎ ((m ≡ x) × (predicate x ≡ true)))
  in_next m x result = elim (Bool-cases (predicate x)) [
    | inr n ↦
        rw n (
          λ k. inl k,
          λ s. elim s [ inl k ↦ k | inr (e, p) ↦ let c : false ≡ true = p in absurd cc ],
        )
    | inl y ↦ elim (Bool-cases (member method_identity x result)) [
      | inl z ↦
          rw (y, z)
            (
              λ k. inl k,
              λ s. elim s [
                | inl k ↦ k
                | inr (e, p) ↦ Memᴰ.cast e (member_iff method_identity x result z)
              ],
            )
      | inr n ↦
          rw (y, n)
            (
              λ k. elim (Memᴰ.append_cases result k) [
                | inl k' ↦ inl k'
                | inr k' ↦ inr (Memᴰ.eq_of_singleton k', refl)
              ],
              λ s. elim s [
                | inl k ↦ Memᴰ.append_left (x ∷ []) k
                | inr (e, p) ↦ Memᴰ.append_right result (Memᴰ.head e)
              ],
            )
    ]
  ]

  in_add_found :
      (m : Method) (ms result : List Method)
      → Memᴰ m (add_found result ms) ↔ (Memᴰ m result ⊎ (Memᴰ m ms × (predicate m ≡ true)))
  unfolding add_found
  in_add_found m [] result =
      (λ k. inl k, λ s. elim s [ inl k ↦ k | inr k ↦ absurd (Memᴰ.not-nil k.0) ])
  in_add_found m (x ∷ ms) result =
      let next = in_next m x result in
      let rest = in_add_found m ms _ in
      (
        λ k. elim (rest.0 k) [
          | inl k' ↦ elim (next.0 k') [
            | inl k'' ↦ inl k''
            | inr (e, p) ↦ inr (Memᴰ.head e, ap predicate e ∙ p)
          ]
          | inr (k', p) ↦ inr (Memᴰ.tail k', p)
        ],
        λ s. rest.1 (elim s [
          | inl k ↦ inl (next.1 (inl k))
          | inr (k, p) ↦ elim (Memᴰ.cases_cons k) [
            | inl e ↦ inl (next.1 (inr (e, ap predicate (sym e) ∙ p)))
            | inr k' ↦ inr (k', p)
          ]
        ]),
      )

  -- A class of the list declares the method.
  abbrev IsDeclared : Method → List Class → Type 0
  IsDeclared m cs = (c : Class) × Memᴰ c cs × Memᴰ m (values (methods c))

  in_add_classes :
      (m : Method) (cs : List Class) (result : List Method)
      → Memᴰ m (add_classes result cs) ↔ (Memᴰ m result ⊎ (IsDeclared m cs × (predicate m ≡ true)))
  unfolding add_classes
  in_add_classes m [] result =
      (λ k. inl k, λ s. elim s [ inl k ↦ k | inr (d, p) ↦ absurd (Memᴰ.not-nil d.1) ])
  in_add_classes m (c ∷ cs) result =
      let here = in_add_found m (values (methods c)) result in
      let rest = in_add_classes m cs (add_found result (values (methods c))) in
      (
        λ k. elim (rest.0 k) [
          | inl k' ↦ elim (here.0 k') [
            | inl k'' ↦ inl k''
            | inr (at, p) ↦ inr ((c, Memᴰ.head refl, at), p)
          ]
          | inr ((d, at, k'), p) ↦ inr ((d, Memᴰ.tail at, k'), p)
        ],
        λ s. rest.1 (elim s [
          | inl k ↦ inl (here.1 (inl k))
          | inr ((d, at, k), p) ↦ elim (Memᴰ.cases_cons at) [
            | inl e ↦ inl (here.1 (inr (subst (λ x. Memᴰ m (values (methods x))) e k, p)))
            | inr at' ↦ inr ((d, at', k), p)
          ]
        ]),
      )

  -- Where a class has no two ancestors of one name and version, the methods that are found are those
  -- that pass the test, of the class and of the classes above it.
  pub find_methods-Above :
      (cls : Class)
      → IsConsistent cls
      → (r : List Method) × (find_methods cls ≡ some r)
        × ((m : Method)
            → Memᴰ m r
              ↔ (((c : Class) × Above cls c × Memᴰ m (values (methods c))) × (predicate m ≡ true)))
  unfolding find_methods IsConsistent
  find_methods-Above cls unique =
      let (l, ran, same) = ancestors-Above cls unique in
      let own : List Method = filter predicate (values (methods cls)) in
      (
        add_classes own l,
        rw ran refl,
        λ m.
            let found = in_add_classes m l own in
            let first = in_filter predicate m (values (methods cls)) in
            (
              λ k. elim (found.0 k) [
                | inl k' ↦ let s = first.0 k' in ((cls, origin, s.0), s.1)
                | inr ((c, at, k'), p) ↦ ((c, ((same c).0 at).0, k'), p)
              ],
              λ s.
                  let ((c, way, at), p) = s in
                  elim (Bool-cases (same_class c cls)) [
                    | inl y ↦
                        let e : c ≡ cls = unique c cls way origin y in
                        found.1 (inl (first.1 (subst (λ x. Memᴰ m (values (methods x))) e at, p)))
                    | inr n ↦ found.1 (
                        inr (
                          (
                            c,
                            (same c).1 (
                              way,
                              λ e.
                                  let k : false ≡ true =
                                    sym n ∙ ap (λ x. same_class x cls) e ∙ same_class_self cls in
                                  cc,
                            ),
                            at,
                          ),
                          p,
                        ))
                  ],
            ),
      )
