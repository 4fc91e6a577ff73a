-- ===== src/Server/Counts.antt =====
-- How many rows pass a test, after rows are added, changed and deleted.
use murano_temp.Base.{
  All, Bool, Bool-cases, List, String, [], any_of, arith, count, eq_iff, false, filter, find,
  if◌then◌else◌, inl, inr, none, not, refl, some, text_cases, true, update_where, ◌++◌, ◌+◌, ◌==◌,
  ◌∷◌, ◌≡◌, ◌≤◌,
}

module _ {ℓ} {A : Type ℓ} where
  pub count-append : (p : A → Bool) (l m : List A) → count p (l ++ m) ≡ count p l + count p m
  unfolding count
  count-append p [] m = omega arith
  count-append p (x ∷ l) m = omega (arith, count-append p l m)

  pub count-snoc :
      (p : A → Bool) (l : List A) (a : A)
      → count p (l ++ a ∷ []) ≡ count p l + (if p a then 1 else 0)
  unfolding count
  count-snoc p l a = omega (arith, count-append p l (a ∷ []))

  pub count-filter_le : (p q : A → Bool) (l : List A) → count p (filter q l) ≤ count p l
  unfolding count filter
  count-filter_le p q [] = omega arith
  count-filter_le p q (x ∷ l) = ground (arith, count-filter_le p q l)

  -- Rows that newly pass `p` are among the changed ones.
  pub count-update_where_add :
      (p q : A → Bool) (f : A → A) (l : List A)
      → count p (update_where q f l) ≤ count p l + count q l
  unfolding count update_where
  count-update_where_add p q f [] = omega arith
  count-update_where_add p q f (x ∷ l) = ground (arith, count-update_where_add p q f l)

  -- No row newly passes `p`.
  pub count-update_where_le :
      (p q : A → Bool) (f : A → A) (l : List A)
      → All (λ x. q x ≡ true → p (f x) ≡ true → p x ≡ true) l
      → count p (update_where q f l) ≤ count p l
  unfolding count update_where
  count-update_where_le p q f [] h = omega arith
  count-update_where_le p q f (x ∷ l) h = ground (arith, h.0, count-update_where_le p q f l h.1)

  pub All-of {κ} : {P : A → Type κ} → ((x : A) → P x) → (l : List A) → All P l
  All-of h [] = tt
  All-of h (x ∷ l) = (h x, All-of h l)

  pub All-map {κ μ} :
      {P : A → Type κ} {Q : A → Type μ} → ((x : A) → P x → Q x) → (l : List A) → All P l → All Q l
  All-map f [] h = tt
  All-map f (x ∷ l) h = (f x h.0, All-map f l h.1)

  pub count_none : (p : A → Bool) (l : List A) → any_of p l ≡ false → count p l ≡ 0
  unfolding count any_of
  count_none p [] h = refl
  count_none p (x ∷ l) h = ground (arith, count_none p l)

  All-of_count_none {κ} :
      (P : A → Type κ) (q : A → Bool) (l : List A) → count q l ≡ 0 → All (λ x. q x ≡ true → P x) l
  unfolding count
  All-of_count_none P q [] h = tt
  All-of_count_none P q (x ∷ l) h =
      (λ e. absurd (ground arith), All-of_count_none P q l (ground arith))

  -- Where at most one row passes `q`, it is the one that `find` returns.
  pub find_unique :
      (q : A → Bool) (l : List A) (a : A)
      → find q l ≡ some a
      → count q l ≤ 1
      → All (λ x. q x ≡ true → x ≡ a) l
  unfolding count find
  find_unique q [] a e h = tt
  find_unique q (x ∷ l) a e h = elim (Bool-cases (q x)) [
    | inl y ↦ (λ _. ground arith, All-of_count_none (λ y. y ≡ a) q l (ground arith))
    | inr n ↦ (λ y. cc, find_unique q l a (ground arith) (ground arith))
  ]

  pub find-append :
      (q : A → Bool) (l : List A) (a : A)
      → count q l ≡ 0
      → q a ≡ true
      → find q (l ++ a ∷ []) ≡ some a
  unfolding count find
  find-append q [] a e h = rw h
  find-append q (x ∷ l) a e h = ground (arith, find-append q l a)

  pub find-update_where :
      (q : A → Bool) (f : A → A) (l : List A) (a : A)
      → ((x : A) → q (f x) ≡ q x)
      → find q l ≡ some a
      → find q (update_where q f l) ≡ some (f a)
  unfolding find update_where
  find-update_where q f [] a h e = cc
  find-update_where q f (x ∷ l) a h e = elim (Bool-cases (q x)) [
    | inl y ↦ ground (arith, h x)
    | inr n ↦ ground (arith, find-update_where q f l a h)
  ]

  pub find-filter-not : (q : A → Bool) (l : List A) → find q (filter (λ x. not (q x)) l) ≡ none
  unfolding find filter
  find-filter-not q [] = refl
  find-filter-not q (x ∷ l) = elim (Bool-cases (q x)) [
    | inl y ↦ rw (y, find-filter-not q l) refl
    | inr n ↦ rw (n, n, find-filter-not q l) refl
  ]

-- A row under another key.
pub find-update_other :
    {A : Type 0} (key : A → String) (j id : String) (f : A → A) (l : List A)
    → ((x : A) → key (f x) ≡ key x)
    → (j == id) ≡ false
    → find (λ r. key r == j) (update_where (λ r. key r == id) f l) ≡ find (λ r. key r == j) l
unfolding find update_where
find-update_other key j id f [] h e = refl
find-update_other key j id f (x ∷ l) h e = elim (text_cases (key x) id) [
  | inl (y, same) ↦
      ground (arith, h x, eq_iff (key x) j, eq_iff j id, find-update_other key j id f l h e)
  | inr (n, other) ↦ ground (arith, find-update_other key j id f l h e)
]
