-- ===== src/Garbage/Marks.antt =====
-- What the steps of the topological sort do to the marks, where no object is among its own
-- subscribers, at any distance: `rank` falls from an object to a subscriber.
use murano_temp.Base.{
  Bool-cases, List, Option, ap, arith, count, if◌then◌else◌, inl, inr, none, refl, some, suc, ℕ,
  ◌+◌, ◌<◌, ◌∙◌, ◌≡◌, ◌≢◌, ◌≤◌, ◌⊎◌,
}
use murano_temp.Base.Equality.{Equality}
use murano_temp.Garbage.Topological.{Marks, mark}
use mathlib.Core.List.{Memᴰ}
use mathlib.Core.Path.{subst}
use native.Mathlib.Decide.{dec_lt}

module _ {N : Type 0} (e : Equality N) (graph : N → Option (List N)) where
  abbrev pub Yielded : N → Marks N → Type 0
  Yielded x s = (k : ℕ) × Memᴰ (x, k) s.yielded

  -- An object that will not be yielded any more.
  abbrev pub Settled : N → Marks N → Type 0
  Settled x s = (graph x ≡ none) ⊎ Yielded x s

  pub record IsOrdered (s : Marks N) : Type 0 where
    pub placed : (x : N) (k : ℕ) → Memᴰ (x, k) s.yielded → (s.indexes x ≡ k) × (2 ≤ s.visited x)
    pub listed : (x : N) (k : ℕ) → Memᴰ (x, k) s.yielded → graph x ≢ none
    pub above :
        (x : N) (k : ℕ) (xs : List N) (y : N)
        → Memᴰ (x, k) s.yielded
        → graph x ≡ some xs
        → Memᴰ y xs
        → (s.indexes y < k) × Settled y s
    pub once : (x : N) → count (λ p. e.eq x p.0) s.yielded ≤ 1

  -- What a search that starts below rank `r` leaves as it was.
  pub record Later (rank : N → ℕ) (r : ℕ) (s s' : Marks N) : Type 0 where
    pub frame : (x : N) → r ≤ rank x → s'.visited x ≡ s.visited x
    pub kept : (p : N × ℕ) → Memᴰ p s.yielded → Memᴰ p s'.yielded
    pub fixed : (x : N) → Settled x s → s'.indexes x ≡ s.indexes x

  -- An object below rank `r` that was visited is settled.
  abbrev pub IsDone : (N → ℕ) → ℕ → Marks N → Type 0
  IsDone rank r s = (x : N) → rank x < r → 0 < s.visited x → Settled x s

  pub Settled-Later :
      (rank : N → ℕ) (r : ℕ) (s s' : Marks N) (x : N)
      → Later rank r s s'
      → Settled x s
      → Settled x s'
  Settled-Later rank r s s' x l (inl out) = inl out
  Settled-Later rank r s s' x l (inr (k, m)) = inr (k, l.kept (x, k) m)

  pub Later-refl : (rank : N → ℕ) (r : ℕ) (s : Marks N) → Later rank r s s
  Later-refl rank r s = record { frame = λ x h. refl; kept = λ p m. m; fixed = λ x h. refl }

  pub Later-trans :
      (rank : N → ℕ) (q r t : ℕ) (s s' s'' : Marks N)
      → q ≤ t
      → r ≤ t
      → Later rank q s s'
      → Later rank r s' s''
      → Later rank t s s''
  Later-trans rank q r t s s' s'' h k l l' = record {
    frame = λ x b. l'.frame x (omega arith) ∙ l.frame x (omega arith);
    kept = λ p m. l'.kept p (l.kept p m);
    fixed = λ x d. l'.fixed x (Settled-Later rank q s s' x l d) ∙ l.fixed x d;
  }

  pub IsDone-Later :
      (rank : N → ℕ) (q r : ℕ) (s s' : Marks N)
      → IsDone rank r s
      → Later rank q s s'
      → IsDone rank q s'
      → IsDone rank r s'
  IsDone-Later rank q r s s' d l d' x h v = elim (dec_lt (rank x) q) [
    | yes b ↦ d' x b v
    | no b ↦
        let same = l.frame x (omega arith) in Settled-Later rank q s s' x l (d x h (omega arith))
  ]

  -- `visited[obj] += 1`
  pub mark_visited :
      (x y : N) (s : Marks N)
      → (mark e x s).visited y ≡ (if e.eq x y then s.visited x + 1 else s.visited y)
  unfolding mark
  mark_visited x y s = refl

  grown : (x y : N) (s : Marks N) → s.visited y ≤ (mark e x s).visited y
  grown x y s = rw (mark_visited x y s) (elim (Bool-cases (e.eq x y)) [
    | inl i ↦ rw i (omega (arith, ap s.visited ((e.eq_iff x y).0 i)))
    | inr n ↦ rw n (omega arith)
  ])

  pub mark-IsOrdered : (x : N) (s : Marks N) → IsOrdered s → IsOrdered (mark e x s)
  unfolding mark
  mark-IsOrdered x s o = record {
    placed = λ y k m. let (i, v) = o.placed y k m in (i, omega (arith, grown x y s));
    listed = o.listed;
    above = o.above;
    once = o.once;
  }

  pub mark-Later : (rank : N → ℕ) (x : N) (s : Marks N) → Later rank (suc (rank x)) s (mark e x s)
  unfolding mark
  mark-Later rank x s = record {
    frame = λ y h. elim (Bool-cases (e.eq x y)) [
      | inl i ↦ absurd (omega (arith, ap rank ((e.eq_iff x y).0 i)))
      | inr n ↦ rw (mark_visited x y s, n) refl
    ];
    kept = λ p m. m;
    fixed = λ y d. refl;
  }

  pub mark-IsDone :
      (rank : N → ℕ) (x : N) (s : Marks N)
      → IsDone rank (suc (rank x)) s
      → IsDone rank (rank x) (mark e x s)
  unfolding mark
  mark-IsDone rank x s d y h v = elim (Bool-cases (e.eq x y)) [
    | inl i ↦ absurd (omega (arith, ap rank ((e.eq_iff x y).0 i)))
    | inr n ↦ d y (omega arith) (subst (λ w. 0 < w) (rw (mark_visited x y s, n) refl) v)
  ]
