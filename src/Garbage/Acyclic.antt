-- ===== src/Garbage/Acyclic.antt =====
-- The topological sort of a graph in which no object is among its own subscribers, at any distance.
use murano_temp.Base.{
  Bool, Bool-cases, List, Option, [], arith, false, if◌then◌else◌, inl, inr, refl, some, suc, sym,
  ℕ, ◌<◌, ◌||◌, ◌∙◌, ◌∷◌, ◌≡◌, ◌≤◌,
}
use murano_temp.Base.Equality.{Equality}
use murano_temp.Base.Num.{◌==◌}
use murano_temp.Garbage.Marks.{
  IsDone, IsDone-Later, IsOrdered, Later, Later-refl, Later-trans, Settled, Settled-Later,
}
use murano_temp.Garbage.Topological.{Marks, visit_all}
use mathlib.Core.List.{Memᴰ}
use mathlib.Core.List.Memᴰ
use mathlib.Core.Option
use mathlib.Core.Path.{subst}
use Prim.Native.Nat.{max}

pub bind-some :
    {A B : Type 0} (o : Option A) (f : A → Option B) (a : A) → o ≡ some a → Option.bind o f ≡ f a
unfolding Option.bind
bind-some o f a h = rw h refl

module _ {N : Type 0} (e : Equality N) (graph : N → Option (List N)) (rank : N → ℕ) where
  -- What a search from objects below rank `r` leads to.
  pub record Completes (r : ℕ) (s s' : Marks N) : Type 0 where
    pub ordered : IsOrdered e graph s'
    pub done : IsDone e graph rank r s'
    pub later : Later e graph rank r s s'

  abbrev pub Visit : ℕ → (N → Marks N → Option (Marks N)) → Type 0
  Visit r visit =
      (x : N) (s : Marks N)
      → rank x < r
      → IsOrdered e graph s
      → IsDone e graph rank (suc (rank x)) s
      → (s' : Marks N) × (visit x s ≡ some s')
        × Completes (suc (rank x)) s s'
        × Settled e graph x s'

  -- A search from one more object.
  widen :
      (q r : ℕ) (s s' : Marks N)
      → q ≤ r
      → IsDone e graph rank r s
      → Completes q s s'
      → Completes r s s'
  widen q r s s' h d l = record {
    ordered = l.ordered;
    done = IsDone-Later e graph rank q r s s' d l.later l.done;
    later = record {
      frame = λ x b. l.later.frame x (omega arith);
      kept = l.later.kept;
      fixed = l.later.fixed;
    };
  }

  pub search_step :
      (r : ℕ) (visit : N → Marks N → Option (Marks N))
      → Visit r visit
      → (again : Bool) (x : N) (s : Marks N) → rank x < r
      → IsOrdered e graph s
      → IsDone e graph rank r s
      → (s' : Marks N) × ((if again || s.visited x == 0 then visit x s else some s) ≡ some s')
        × Completes r s s'
        × Settled e graph x s'
  search_step r visit good again x s h o d = elim (Bool-cases (again || s.visited x == 0)) [
    | inl go ↦
        let (s', i, l, t) = good x s h o (λ y b. d y (omega arith)) in
        (s', rw go i, widen (suc (rank x)) r s s' h d l, t)
    | inr skip ↦ (
      s,
      rw skip refl,
      record { ordered = o; done = d; later = Later-refl e graph rank r s },
      d x h (ground arith),
    )
  ]

  pub Completes-trans :
      (r : ℕ) (s s' s'' : Marks N) → Completes r s s' → Completes r s' s'' → Completes r s s''
  Completes-trans r s s' s'' l l' = record {
    ordered = l'.ordered;
    done = l'.done;
    later = Later-trans e graph rank r r r s s' s'' (omega arith) (omega arith) l.later l'.later;
  }

  -- The subscribers have an index up to the greatest, and are settled.
  abbrev pub Covers : List N → ℕ → Marks N → Type 0
  Covers xs m s = (y : N) → Memᴰ y xs → (s.indexes y ≤ m) × Settled e graph y s

  pub visit_all_lem :
      (r : ℕ) (visit : N → Marks N → Option (Marks N))
      → Visit r visit
      → (is_first : Bool) (xs : List N) (m : ℕ) (s : Marks N) → ((y : N) → Memᴰ y xs → rank y < r)
      → IsOrdered e graph s
      → IsDone e graph rank r s
      → (m' : ℕ) × (s' : Marks N) × (visit_all e visit is_first xs m s ≡ some (m', s'))
        × (m ≤ m')
        × Completes r s s'
        × Covers xs m' s'
  unfolding visit_all
  visit_all_lem r visit good is_first [] m s low o d = (
    m,
    s,
    refl,
    omega arith,
    record { ordered = o; done = d; later = Later-refl e graph rank r s },
    λ y at. absurd (Memᴰ.not-nil at),
  )
  visit_all_lem r visit good is_first (x ∷ xs) m s low o d =
      let (s₁, i, l, t) = search_step r visit good is_first x s (low x (Memᴰ.head refl)) o d in
      let (m', s₂, j, b, l', c) =
        visit_all_lem r visit good false xs (max m (s₁.indexes x)) s₁ (λ y at. low y (Memᴰ.tail at))
          l.ordered l.done in
      (
        m',
        s₂,
        bind-some _ _ s₁ i ∙ j,
        omega arith,
        Completes-trans r s s₁ s₂ l l',
        λ y at. elim (Memᴰ.cases_cons at) [
          | inl same ↦
              subst (λ z. (s₂.indexes z ≤ m') × Settled e graph z s₂) (sym same)
                (omega (arith, l'.later.fixed x t), Settled-Later e graph rank r s₁ s₂ x l'.later t)
          | inr k ↦ c y k
        ],
      )
