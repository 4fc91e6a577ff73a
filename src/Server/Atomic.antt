-- ===== src/Server/Atomic.antt =====
-- Proof rules for code whose last statement writes: an exception before it leaves the tables as they
-- were.
use murano_temp.Base.{Bool, false, inl, inr, refl, true, ◌≡◌, ◌⊎◌}
use murano_temp.Base.Result.{Error, Result, err, ok}
use murano_temp.Server.Exec.{Exec, continue, ended, ends, gets, raise_if, reads, ◌>>=◌}
use murano_temp.Server.Rows.{Server}

-- Either an exception with nothing written, or an end of which `Q` holds.
abbrev pub IsAtomic {ℓ} :
    {A : Type ℓ} → (Result A × Server → Type 0) → Server → Result A × Server → Type ℓ
IsAtomic Q s o = ((e : Error) × (o ≡ (err e, s))) ⊎ Q o

module _ {ℓ κ} {A : Type ℓ} {B : Type κ} (Q : Result B × Server → Type 0) (k : A → Exec B)
    (s : Server) where
  continue-IsAtomic :
      (r : Result A) → ((a : A) → r ≡ ok a → IsAtomic Q s (k a s)) → IsAtomic Q s (continue r k s)
  continue-IsAtomic (ok a) next = next a refl
  continue-IsAtomic (err e) next = inl (e, refl)

  pub reads-IsAtomic :
      (f : Server → Result A)
      → ((a : A) → f s ≡ ok a → IsAtomic Q s (k a s))
      → IsAtomic Q s ((reads f >>= k) s)
  unfolding ◌>>=◌
  reads-IsAtomic f = continue-IsAtomic (f s)

  pub gets-IsAtomic : (f : Server → A) → IsAtomic Q s (k (f s) s) → IsAtomic Q s ((gets f >>= k) s)
  unfolding ◌>>=◌
  gets-IsAtomic f h = h

module _ {κ} {B : Type κ} (Q : Result B × Server → Type 0) (k : Unit {0} → Exec B)
    (s : Server) where
  pub raise_if-IsAtomic :
      (b : Bool) (e : Error)
      → (b ≡ false → IsAtomic Q s (k tt s))
      → IsAtomic Q s ((raise_if b e >>= k) s)
  unfolding ◌>>=◌
  raise_if-IsAtomic true e next = inl (e, refl)
  raise_if-IsAtomic false e next = next refl

module _ {A : Type 0} (Q : Result A × Server → Type 0) (s : Server) where
  ended-IsAtomic :
      (r : Result (Result A × Server))
      → ((o : Result A × Server) → r ≡ ok o → Q o)
      → IsAtomic Q s (ended r s)
  ended-IsAtomic (ok o) next = inr (next o refl)
  ended-IsAtomic (err e) next = inl (e, refl)

  pub ends-IsAtomic :
      (f : Server → Result (Result A × Server))
      → ((o : Result A × Server) → f s ≡ ok o → Q o)
      → IsAtomic Q s (ends f s)
  unfolding ends
  ends-IsAtomic f = ended-IsAtomic (f s)
