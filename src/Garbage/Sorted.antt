-- ===== src/Garbage/Sorted.antt =====
-- What the topological sort yields, where no object is among its own subscribers, at any distance.
use murano_temp.Base.{
  List, Option, [], arith, count, false, inl, inr, none, refl, some, sym, ℕ, ◌<◌, ◌∙◌, ◌∷◌, ◌≡◌,
  ◌≢◌,
}
use murano_temp.Base.Equality.{Equality}
use murano_temp.Garbage.Acyclic.{Completes, Completes-trans, bind-some, search_step}
use murano_temp.Garbage.Emit.{times, times-some}
use murano_temp.Garbage.Marks.{IsDone, IsOrdered, Later-refl, Settled, Settled-Later}
use murano_temp.Garbage.Search.{dfs_lem}
use murano_temp.Garbage.Topological.{Marks, dfs, topological, visit_keys}
use mathlib.Core.List.{Memᴰ}
use mathlib.Core.List.Memᴰ
use mathlib.Core.Path.{subst}

pub record IsTopological {N : Type 0} (e : Equality N) (graph : N → Option (List N))
    (objects : List N) (l : List (N × ℕ)) : Type 0 where
  pub each : (x : N) → Memᴰ x objects → graph x ≢ none → times e graph x l ≡ 1
  pub listed : (x : N) (k : ℕ) → Memᴰ (x, k) l → graph x ≢ none
  pub above :
      (x y : N) (j k : ℕ) (xs : List N)
      → Memᴰ (x, k) l
      → Memᴰ (y, j) l
      → graph x ≡ some xs
      → Memᴰ y xs
      → j < k

module _ {N : Type 0} (e : Equality N) (graph : N → Option (List N)) (rank : N → ℕ)
    (falls : (x : N) (xs : List N) (y : N) → graph x ≡ some xs → Memᴰ y xs → rank y < rank x) where
  visit_keys_lem :
      (fuel : ℕ) (xs : List N) (s : Marks N)
      → ((y : N) → rank y < fuel)
      → IsOrdered e graph s
      → IsDone e graph rank fuel s
      → (s' : Marks N) × (visit_keys e graph fuel xs s ≡ some s')
        × Completes e graph rank fuel s s'
        × ((y : N) → Memᴰ y xs → Settled e graph y s')
  unfolding visit_keys
  visit_keys_lem fuel [] s low o d = (
    s,
    refl,
    record { ordered = o; done = d; later = Later-refl e graph rank fuel s },
    λ y at. absurd (Memᴰ.not-nil at),
  )
  visit_keys_lem fuel (x ∷ xs) s low o d =
      let (s₁, i, l, t) =
        search_step e graph rank fuel (dfs e graph fuel) (dfs_lem e graph rank falls fuel) false x s
          (low x) o d in
      let (s₂, j, l', c) = visit_keys_lem fuel xs s₁ low l.ordered l.done in
      (
        s₂,
        bind-some _ _ s₁ i ∙ j,
        Completes-trans e graph rank fuel s s₁ s₂ l l',
        λ y at. elim (Memᴰ.cases_cons at) [
          | inl same ↦
              subst (λ z. Settled e graph z s₂) (sym same)
                (Settled-Later e graph rank fuel s₁ s₂ x l'.later t)
          | inr k ↦ c y k
        ],
      )

  pub topological-IsTopological :
      (fuel : ℕ) (objects : List N)
      → ((y : N) → rank y < fuel)
      → (l : List (N × ℕ)) × (topological e graph fuel objects ≡ some l)
        × IsTopological e graph objects l
  unfolding topological count
  topological-IsTopological fuel objects low =
      let none_yet : Marks N = record { visited = λ x. 0; indexes = λ x. 0; yielded = [] } in
      let (s, i, l, c) =
        visit_keys_lem fuel objects none_yet low
          (record {
            placed = λ x k at. absurd (Memᴰ.not-nil at);
            listed = λ x k at. absurd (Memᴰ.not-nil at);
            above = λ x k xs y at. absurd (Memᴰ.not-nil at);
            once = λ x. omega arith;
          })
          (λ x b v. absurd (omega arith)) in
      (
        s.yielded,
        bind-some _ _ s i,
        record {
          each = λ x at known. elim (c x at) [
            | inl out ↦ absurd (known out)
            | inr (k, here) ↦ omega (arith, times-some e graph x k s.yielded here, l.ordered.once x)
          ];
          listed = l.ordered.listed;
          above = λ x y j k xs at_x at_y g at.
              omega (arith, (l.ordered.above x k xs y at_x g at).0, (l.ordered.placed y j at_y).0);
        },
      )
