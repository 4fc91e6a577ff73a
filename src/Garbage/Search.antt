-- ===== src/Garbage/Search.antt =====
-- A search of the topological sort settles the object that it starts from.
use murano_temp.Base.{
  Bool-cases, List, Option, Option-cases, ap, arith, false, inl, inr, none, refl, some, suc, true,
  zero, ℕ, ◌+◌, ◌<◌, ◌∙◌, ◌≡◌, ◌≤◌,
}
use murano_temp.Base.Equality.{Equality}
use murano_temp.Base.Num.{leb}
use murano_temp.Garbage.Acyclic.{Completes, Covers, Visit, bind-some, visit_all_lem}
use murano_temp.Garbage.Emit.{emit-IsOrdered, emit-Later, emit-Settled, emit_visited}
use murano_temp.Garbage.Marks.{
  IsDone, IsOrdered, Later, Later-trans, Settled, Settled-Later, mark-IsDone, mark-IsOrdered,
  mark-Later, mark_visited,
}
use murano_temp.Garbage.Topological.{Marks, close, dfs, emit, mark}
use mathlib.Core.List.{Memᴰ}
use mathlib.Core.Path.{subst}
use native.Mathlib.Decide.{dec_lt}

module _ {N : Type 0} (e : Equality N) (graph : N → Option (List N)) (rank : N → ℕ)
    (falls : (x : N) (xs : List N) (y : N) → graph x ≡ some xs → Memᴰ y xs → rank y < rank x) where
  -- Where no subscribers are known, the object is only marked.
  marked_only :
      (x : N) (s : Marks N)
      → graph x ≡ none
      → IsOrdered e graph s
      → IsDone e graph rank (suc (rank x)) s
      → Completes e graph rank (suc (rank x)) s (mark e x s)
  marked_only x s out o d = record {
    ordered = mark-IsOrdered e graph x s o;
    done = λ y b v. elim (Bool-cases (e.eq x y)) [
      | inl i ↦ inl (subst (λ z. graph z ≡ none) ((e.eq_iff x y).0 i) out)
      | inr n ↦
          Settled-Later e graph rank (suc (rank x)) s (mark e x s) y (mark-Later e graph rank x s)
            (d y b (subst (λ w. 0 < w) (rw (mark_visited e graph x y s, n) refl) v))
    ];
    later = mark-Later e graph rank x s;
  }

  module _ (x : N) (xs : List N) (s s' : Marks N) (g : graph x ≡ some xs)
      (d : IsDone e graph rank (suc (rank x)) s)
      (l : Completes e graph rank (rank x) (mark e x s) s') where
    later : Later e graph rank (suc (rank x)) s s'
    later =
        Later-trans e graph rank (suc (rank x)) (rank x) (suc (rank x)) s (mark e x s) s'
          (omega arith) (omega arith) (mark-Later e graph rank x s) l.later

    -- After the subscribers, all but the object itself is settled.
    others :
        (y : N) → rank y < suc (rank x) → e.eq x y ≡ false → 0 < s'.visited y → Settled e graph y s'
    others y b n v = elim (dec_lt (rank y) (rank x)) [
      | yes low ↦ l.done y low v
      | no high ↦
          let same = l.later.frame y (omega arith) in
          let unmarked : (mark e x s).visited y ≡ s.visited y =
            rw (mark_visited e graph x y s, n) refl in
          Settled-Later e graph rank (suc (rank x)) s s' y later (d y b (omega arith))
    ]

    visits_of : s'.visited x ≡ s.visited x + 1
    visits_of =
        l.later.frame x (omega arith)
        ∙ (rw (mark_visited e graph x x s, (e.eq_iff x x).1 refl) refl)

    -- The object was settled before.
    pub seen_before :
        (m : ℕ)
        → 0 < s.visited x
        → IsOrdered e graph s
        → (close e x m s' ≡ s') × Completes e graph rank (suc (rank x)) s s' × Settled e graph x s'
    unfolding close
    seen_before m v o =
        let t = d x (omega arith) v in
        let t' = Settled-Later e graph rank (suc (rank x)) s s' x later t in
        let many : 2 ≤ s.visited x = elim t [
          | inl out ↦ absurd (cc)
          | inr (k, at) ↦ (o.placed x k at).1
        ] in
        let over : leb (s'.visited x) 2 ≡ false = ground (arith, visits_of) in
        (
          rw over refl,
          record {
            ordered = l.ordered;
            done = λ y b w. elim (Bool-cases (e.eq x y)) [
              | inl i ↦ subst (λ z. Settled e graph z s') ((e.eq_iff x y).0 i) t'
              | inr n ↦ others y b n w
            ];
            later = later;
          },
          t',
        )

    -- The object is new, and is yielded.
    pub seen_first :
        (m : ℕ)
        → s.visited x ≡ 0
        → Covers e graph rank xs m s'
        → (close e x m s' ≡ emit e x m s')
          × Completes e graph rank (suc (rank x)) s (emit e x m s')
          × Settled e graph x (emit e x m s')
    unfolding close
    seen_first m v c =
        let new : ¬ Settled e graph x s' = λ t. elim t [
          | inl out ↦ cc
          | inr (k, at) ↦ omega (arith, (l.ordered.placed x k at).1, visits_of)
        ] in
        let first : leb (s'.visited x) 2 ≡ true = ground (arith, visits_of) in
        let emitted = emit-Later e graph x m s' new rank in
        (
          rw first refl,
          record {
            ordered = emit-IsOrdered e graph x m s' new xs g (omega (arith, visits_of)) c l.ordered;
            done = λ y b w. elim (Bool-cases (e.eq x y)) [
              | inl i ↦
                  subst (λ z. Settled e graph z (emit e x m s')) ((e.eq_iff x y).0 i)
                    (emit-Settled e graph x m s' new)
              | inr n ↦
                  Settled-Later e graph rank (suc (rank x)) s' (emit e x m s') y emitted
                    (others y b n (subst (λ k. 0 < k) (emit_visited e graph x m s' new y n) w))
            ];
            later =
                Later-trans e graph rank (suc (rank x)) (suc (rank x)) (suc (rank x)) s s'
                  (emit e x m s') (omega arith) (omega arith) later emitted;
          },
          emit-Settled e graph x m s' new,
        )

  pub dfs_lem : (fuel : ℕ) → Visit e graph rank fuel (dfs e graph fuel)
  unfolding dfs
  dfs_lem zero x s b o d = absurd (omega arith)
  dfs_lem (suc fuel) x s b o d = elim (Option-cases (graph x)) [
    | inl out ↦ (mark e x s, rw (out, dfs) refl, marked_only x s out o d, inl out)
    | inr (xs, g) ↦
        let (m, s', i, _, l, c) =
          visit_all_lem e graph rank (rank x) (dfs e graph fuel)
            (λ y t h. dfs_lem fuel y t (omega arith)) true xs 0 (mark e x s) (λ y. falls x xs y g)
            (mark-IsOrdered e graph x s o) (mark-IsDone e graph rank x s d) in
        elim (dec_lt 0 (s.visited x)) [
          | yes old ↦
              let (j, l', t) = seen_before x xs s s' g d l m old o in
              (s', rw (g, dfs) (bind-some _ _ (m, s') i ∙ ap some j), l', t)
          | no none_yet ↦
              let (j, l', t) = seen_first x xs s s' g d l m (omega arith) c in
              (emit e x m s', rw (g, dfs) (bind-some _ _ (m, s') i ∙ ap some j), l', t)
        ]
  ]
