-- ===== src/Server/Exec.antt =====
-- Code that reads and writes the tables and may raise. What was written before a raise stays
-- written, so the state comes back beside the error too.
use murano_temp.Base.{Bool, Option, none, not, some}
use murano_temp.Base.Result.{Error, Result, err, guard, ok}
use murano_temp.Server.Rows.{Server}

abbrev pub Exec {ℓ} : Type ℓ → Type ℓ
Exec A = Server → Result A × Server

module _ {ℓ} {A : Type ℓ} where
  unfoldable pub pure : A → Exec A
  pure a s = (ok a, s)

  unfoldable pub lift : Result A → Exec A
  lift r s = (r, s)

  unfoldable pub gets : (Server → A) → Exec A
  gets f s = (ok (f s), s)

  -- Code that only reads.
  unfoldable pub reads : (Server → Result A) → Exec A
  reads f s = (f s, s)

  abbrev pub ended : Result (Result A × Server) → Exec A
  ended (ok o) s = o
  ended (err e) s = (err e, s)

  -- Code that raises with nothing written, or ends with what it has written.
  unfoldable pub ends : (Server → Result (Result A × Server)) → Exec A
  ends f s = ended (f s) s

  abbrev pub required : Option A → Error → Result A
  required none e = err e
  required (some a) e = ok a

  -- `if row is None: raise`, also where the program uses an attribute of `None`.
  unfoldable pub require : Option A → Error → Exec A
  require o e s = (required o e, s)

abbrev pub saved : Result Server → Exec (Unit {0})
saved (ok s') s = (ok tt, s')
saved (err e) s = (err e, s)

unfoldable pub writes : (Server → Result Server) → Exec (Unit {0})
writes f s = saved (f s) s

unfoldable pub modify : (Server → Server) → Exec (Unit {0})
modify f s = (ok tt, f s)

-- `if test: raise`
unfoldable pub raise_if : Bool → Error → Exec (Unit {0})
raise_if test e s = (guard (not test) e, s)

module _ {ℓ κ} {A : Type ℓ} {B : Type κ} where
  abbrev pub continue : Result A → (A → Exec B) → Exec B
  continue (ok a) f s = f a s
  continue (err e) f s = (err e, s)

  infixl 5 ◌>>=◌ ◌>>◌
  -- Opening this opens the other actions too.
  unfoldable pub ◌>>=◌ : Exec A → (A → Exec B) → Exec B
  unfolding pure lift gets reads ends require writes modify raise_if
  ◌>>=◌ m f s = continue (m s).0 f (m s).1

  abbrev pub ◌>>◌ : Exec A → Exec B → Exec B
  m >> n = m >>= λ _. n
