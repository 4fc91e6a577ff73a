-- ===== src/Server/Sql.antt =====
-- What the services leave to the database: the order of `order_by` (rows that agree on its columns
-- come in any order) and which row `first()` takes where no order is asked for.
use murano_temp.Base.{◌≤◌, ◌<◌, ◌≡◌, ◌⊎◌, Bool, true, Option, none, some, List, [], ◌∷◌, All, count}
use murano_temp.Server.Rows.{Session, Task}

-- `r` comes no later than `t` by `version` descending, then `updated` descending.
abbrev pub Precedes : Session → Session → Type 0
Precedes r t = (t.version < r.version) ⊎ ((t.version ≡ r.version) × (t.updated ≤ r.updated))

abbrev pub IsNewestFirst : List Session → Type 0
IsNewestFirst [] = Unit
IsNewestFirst (r ∷ rest) = All (Precedes r) rest × IsNewestFirst rest

pub record Sql : Type 0 where
  -- `.order_by(Session.version.desc(), Session.updated.desc()).all()`
  pub order : List Session → List Session
  pub count-order : (p : Session → Bool) (l : List Session) → count p (order l) ≡ count p l
  pub order-IsNewestFirst : (l : List Session) → IsNewestFirst (order l)
  -- `.order_by(desc(Task.started)).first()`
  pub latest : List Task → Option Task
  pub latest-nil : latest [] ≡ none
  pub latest-ge :
      (l : List Task) (t : Task) → latest l ≡ some t → All (λ u. u.started ≤ t.started) l
  pub latest-holds :
      (p : Task → Bool) (l : List Task) (t : Task)
      → latest l ≡ some t
      → All (λ u. p u ≡ true) l
      → p t ≡ true
  -- `.first()`
  pub first : List Session → Option Session
  pub first-cons : (r : Session) (l : List Session) → (t : Session) × (first (r ∷ l) ≡ some t)
  pub first-holds :
      (p : Session → Bool) (l : List Session) (r : Session)
      → first l ≡ some r
      → All (λ t. p t ≡ true) l
      → p r ≡ true
