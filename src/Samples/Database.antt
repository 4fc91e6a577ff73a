-- ===== src/Samples/Database.antt =====
-- A database that meets the laws of `Sql`: insertion sort, the latest task by a scan, and the first
-- row in table order.
use murano_temp.Base.{
  All, Bool, Bool-cases, List, Option, [], arith, count, false, if◌then◌else◌, inl, inr, none, refl,
  some, true, ℕ, ◌&&◌, ◌==◌, ◌||◌, ◌∷◌, ◌≡◌, ◌≤◌,
}
use murano_temp.Base.Num.{leb, ltb}
use murano_temp.Server.{Session, Task}
use murano_temp.Server.Sql.{IsNewestFirst, Precedes, Sql}
use mathlib.Core.Path.{subst}

unfoldable pub precedes : Session → Session → Bool
precedes r t =
    ltb t.version r.version
    || (murano_temp.Base.Num.◌==◌ t.version r.version && leb t.updated r.updated)

precedes-true : (r t : Session) → precedes r t ≡ true → Precedes r t
unfolding precedes
precedes-true r t h = ground arith

precedes-false : (r t : Session) → precedes r t ≡ false → Precedes t r
unfolding precedes
precedes-false r t h = ground arith

Precedes-trans : (r t u : Session) → Precedes r t → Precedes t u → Precedes r u
Precedes-trans r t u h k = ground arith

unfoldable pub insert : Session → List Session → List Session
insert r [] = r ∷ []
insert r (t ∷ l) = let rest = insert r l in if precedes r t then r ∷ t ∷ l else t ∷ rest

count-insert :
    (p : Session → Bool) (r : Session) (l : List Session) → count p (insert r l) ≡ count p (r ∷ l)
unfolding insert count
count-insert p r [] = refl
count-insert p r (t ∷ l) = ground (arith, count-insert p r l)

All-insert :
    (P : Session → Type 0) (r : Session) (l : List Session) → P r → All P l → All P (insert r l)
unfolding insert
All-insert P r [] h k = (h, tt)
All-insert P r (t ∷ l) h k = elim (Bool-cases (precedes r t)) [
  | inl e ↦ rw e (h, k)
  | inr e ↦ rw e (k.0, All-insert P r l h k.1)
]

All-trans :
    (r t : Session) (l : List Session) → Precedes r t → All (Precedes t) l → All (Precedes r) l
All-trans r t [] h k = tt
All-trans r t (u ∷ l) h k = (Precedes-trans r t u h k.0, All-trans r t l h k.1)

insert-IsNewestFirst :
    (r : Session) (l : List Session) → IsNewestFirst l → IsNewestFirst (insert r l)
unfolding insert
insert-IsNewestFirst r [] h = (tt, tt)
insert-IsNewestFirst r (t ∷ l) h = elim (Bool-cases (precedes r t)) [
  | inl e ↦ let before = precedes-true r t e in rw e ((before, All-trans r t l before h.0), h)
  | inr e ↦
      rw e (All-insert (Precedes t) r l (precedes-false r t e) h.0, insert-IsNewestFirst r l h.1)
]

unfoldable pub sort : List Session → List Session
sort [] = []
sort (r ∷ l) = insert r (sort l)

pub count-sort : (p : Session → Bool) (l : List Session) → count p (sort l) ≡ count p l
unfolding sort count
count-sort p [] = refl
count-sort p (r ∷ l) = rw (count-insert, count-sort p l) refl

pub sort-IsNewestFirst : (l : List Session) → IsNewestFirst (sort l)
unfolding sort
sort-IsNewestFirst [] = tt
sort-IsNewestFirst (r ∷ l) = insert-IsNewestFirst r (sort l) (sort-IsNewestFirst l)

some-injective : {A : Type 0} {a b : A} → some a ≡ some b → a ≡ b
some-injective h = cc

unfoldable pub later : Task → Option Task → Task
later t none = t
later t (some u) = if leb u.started t.started then t else u

unfoldable pub latest_task : List Task → Option Task
latest_task [] = none
latest_task (t ∷ l) = some (later t (latest_task l))

later-ge : (t : Task) (o : Option Task) → t.started ≤ (later t o).started
unfolding later
later-ge t none = ground arith
later-ge t (some u) = ground arith

later-ge_rest : (t : Task) (u : Task) → u.started ≤ (later t (some u)).started
unfolding later
later-ge_rest t u = ground arith

All-le : (n m : ℕ) (l : List Task) → n ≤ m → All (λ u. u.started ≤ n) l → All (λ u. u.started ≤ m) l
All-le n m [] h k = tt
All-le n m (u ∷ l) h k = (omega arith, All-le n m l h k.1)

latest_task-bounds :
    (l : List Task) (t : Task) → All (λ u. u.started ≤ (later t (latest_task l)).started) l
unfolding latest_task
latest_task-bounds [] t = tt
latest_task-bounds (u ∷ l) t =
    let m = later u (latest_task l) in
    let up = later-ge_rest t m in
    (
      omega (arith, later-ge u (latest_task l), up),
      All-le m.started (later t (some m)).started l up (latest_task-bounds l u),
    )

pub latest_task-ge :
    (l : List Task) (t : Task) → latest_task l ≡ some t → All (λ u. u.started ≤ t.started) l
unfolding latest_task
latest_task-ge [] t e = tt
latest_task-ge (u ∷ l) t e =
    subst (λ v. All (λ w. w.started ≤ v.started) (u ∷ l)) (some-injective e)
      (later-ge u (latest_task l), latest_task-bounds l u)

later-holds :
    (p : Task → Bool) (t : Task) (o : Option Task)
    → p t ≡ true
    → ((u : Task) → o ≡ some u → p u ≡ true)
    → p (later t o) ≡ true
unfolding later
later-holds p t none h k = h
later-holds p t (some u) h k = ground (arith, k u refl)

pub latest_task-holds :
    (p : Task → Bool) (l : List Task) (t : Task)
    → latest_task l ≡ some t
    → All (λ u. p u ≡ true) l
    → p t ≡ true
unfolding latest_task
latest_task-holds p [] t e h = cc
latest_task-holds p (u ∷ l) t e h =
    rw (← some-injective e)
      (later-holds p u (latest_task l) h.0 (λ v f. latest_task-holds p l v f h.1))

unfoldable pub head : List Session → Option Session
head [] = none
head (r ∷ l) = some r

pub head-holds :
    (p : Session → Bool) (l : List Session) (r : Session)
    → head l ≡ some r
    → All (λ t. p t ≡ true) l
    → p r ≡ true
unfolding head
head-holds p [] r e h = cc
head-holds p (t ∷ l) r e h = rw (← some-injective e) h.0

unfoldable pub database : Sql
unfolding sort latest_task head
database = record {
  order = sort;
  count-order = count-sort;
  order-IsNewestFirst = sort-IsNewestFirst;
  latest = latest_task;
  latest-nil = refl;
  latest-ge = latest_task-ge;
  latest-holds = latest_task-holds;
  first = head;
  first-cons = λ r l. (r, refl);
  first-holds = head-holds;
}
