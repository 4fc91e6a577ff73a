-- ===== src/Types/Packages/Steps.antt =====
-- What the steps of `_remap_package` keep of the packages that they move.
use murano_temp.Base.{
  All, Bool, Bool-cases, List, Option, [], ap, arith, false, if◌then◌else◌, inl, inr, length, none,
  refl, some, suc, true, zero, ℕ, ◌++◌, ◌+◌, ◌<◌, ◌==◌, ◌∙◌, ◌∷◌, ◌≡◌,
}
use murano_temp.Base.Num.{leb}
use murano_temp.Types.Packages.{
  Entry, add_reverse, bind_all, bind_package, delete_at, entry_at, find_destination, get_reverse,
  insert_entry, sort_entries,
}
use mathlib.Core.Path.{subst}

pub entry_at-lt : (i : ℕ) (l : List Entry) (e : Entry) → entry_at i l ≡ some e → i < length l
unfolding entry_at
entry_at-lt i [] e h = absurd cc
entry_at-lt zero (x ∷ l) e h = omega arith
entry_at-lt (suc i) (x ∷ l) e h = let k = entry_at-lt i l e h in omega arith

pub length-delete_at :
    (i : ℕ) (l : List Entry) → i < length l → suc (length (delete_at i l)) ≡ length l
unfolding delete_at
length-delete_at i [] h = absurd (omega arith)
length-delete_at zero (x ∷ l) h = refl
length-delete_at (suc i) (x ∷ l) h = ap suc (length-delete_at i l (omega arith))

length-insert_entry : (e : Entry) (l : List Entry) → length (insert_entry e l) ≡ suc (length l)
unfolding insert_entry
length-insert_entry e [] = refl
length-insert_entry e (x ∷ l) = elim (Bool-cases (leb e.0 x.0)) [
  | inl y ↦ rw y refl
  | inr n ↦ rw n (ap suc (length-insert_entry e l))
]

pub length-sort_entries : (l : List Entry) → length (sort_entries l) ≡ length l
unfolding sort_entries
length-sort_entries [] = refl
length-sort_entries (e ∷ l) =
    length-insert_entry e (sort_entries l) ∙ ap suc (length-sort_entries l)

module _ (P : ℕ → Type 0) where
  abbrev pub IsOfEntry : Entry → Type 0
  IsOfEntry e = P e.0

  abbrev pub IsOfPair : ℕ × ℕ → Type 0
  IsOfPair b = P b.0 × P b.1

  abbrev pub IsOfReverse : ℕ × List ℕ → Type 0
  IsOfReverse x = All P x.1

  abbrev pub IsOfOption : Option ℕ → Type 0
  IsOfOption none = Unit
  IsOfOption (some p) = P p

  pub All-entry_at :
      (i : ℕ) (l : List Entry) (e : Entry) → All IsOfEntry l → entry_at i l ≡ some e → P e.0
  unfolding entry_at
  All-entry_at i [] e a h = absurd cc
  All-entry_at zero (x ∷ l) e (a, others) h = let same : x ≡ e = cc in subst (λ y. P y.0) same a
  All-entry_at (suc i) (x ∷ l) e (a, others) h = All-entry_at i l e others h

  pub All-delete_at : (i : ℕ) (l : List Entry) → All IsOfEntry l → All IsOfEntry (delete_at i l)
  unfolding delete_at
  All-delete_at i [] a = tt
  All-delete_at zero (x ∷ l) (a, others) = others
  All-delete_at (suc i) (x ∷ l) (a, others) = (a, All-delete_at i l others)

  All-insert_entry :
      (e : Entry) (l : List Entry) → P e.0 → All IsOfEntry l → All IsOfEntry (insert_entry e l)
  unfolding insert_entry
  All-insert_entry e [] p a = (p, tt)
  All-insert_entry e (x ∷ l) p (a, others) = elim (Bool-cases (leb e.0 x.0)) [
    | inl y ↦ rw y (p, (a, others))
    | inr n ↦ rw n (a, All-insert_entry e l p others)
  ]

  pub All-sort_entries : (l : List Entry) → All IsOfEntry l → All IsOfEntry (sort_entries l)
  unfolding sort_entries
  All-sort_entries [] a = tt
  All-sort_entries (e ∷ l) (a, others) =
      All-insert_entry e (sort_entries l) a (All-sort_entries l others)

  pub destination_of :
      (i : ℕ) (requirement : ℕ → Bool) (j : ℕ) (l : List Entry) (best : Option ℕ)
      → All IsOfEntry l
      → IsOfOption best
      → IsOfOption (find_destination i requirement j l best)
  unfolding find_destination
  destination_of i requirement j [] best a b = b
  destination_of i requirement j (e ∷ l) best (a, others) b =
      destination_of i requirement (j + 1) l _ others (chosen_of _ a b)
    where
      chosen_of : (c : Bool) → P e.0 → IsOfOption best → IsOfOption (if c then some e.0 else best)
      chosen_of true a b = a
      chosen_of false a b = b

  pub All-bind_package :
      (p dst : ℕ) (l : List (ℕ × ℕ))
      → P p
      → P dst
      → All IsOfPair l
      → All IsOfPair (bind_package p dst l)
  unfolding bind_package
  All-bind_package p dst [] h k a = ((h, k), tt)
  All-bind_package p dst (x ∷ l) h k (a, others) =
      elim (Bool-cases (murano_temp.Base.Num.◌==◌ x.0 p)) [
        | inl y ↦ rw y ((h, k), others)
        | inr n ↦ rw n (a, All-bind_package p dst l h k others)
      ]

  All-snoc : (ps : List ℕ) (p : ℕ) → All P ps → P p → All P (ps ++ (p ∷ []))
  All-snoc [] p a h = (h, tt)
  All-snoc (q ∷ ps) p (a, others) h = (a, All-snoc ps p others h)

  pub All-add_reverse :
      (dst p : ℕ) (l : List (ℕ × List ℕ))
      → P p
      → All IsOfReverse l
      → All IsOfReverse (add_reverse dst p l)
  unfolding add_reverse
  All-add_reverse dst p [] h a = ((h, tt), tt)
  All-add_reverse dst p (x ∷ l) h (a, others) =
      elim (Bool-cases (murano_temp.Base.Num.◌==◌ x.0 dst)) [
        | inl y ↦ rw y (All-snoc x.1 p a h, others)
        | inr n ↦ rw n (a, All-add_reverse dst p l h others)
      ]

  pub All-get_reverse :
      (p : ℕ) (l : List (ℕ × List ℕ)) → All IsOfReverse l → All P (get_reverse p l)
  unfolding get_reverse
  All-get_reverse p [] a = tt
  All-get_reverse p (x ∷ l) (a, others) = elim (Bool-cases (murano_temp.Base.Num.◌==◌ x.0 p)) [
    | inl y ↦ rw y a
    | inr n ↦ rw n (All-get_reverse p l others)
  ]

  pub All-bind_all :
      (ps : List ℕ) (dst : ℕ) (l : List (ℕ × ℕ))
      → All P ps
      → P dst
      → All IsOfPair l
      → All IsOfPair (bind_all ps dst l)
  unfolding bind_all
  All-bind_all [] dst l a h b = b
  All-bind_all (p ∷ ps) dst l (a, others) h b =
      All-bind_all ps dst (bind_package p dst l) others h (All-bind_package p dst l a h b)
