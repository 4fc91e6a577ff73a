-- ===== src/Server/Rules.antt =====
-- Proof rules for code over the tables: what holds of the state after each statement.
use murano_temp.Base.{Bool, Option, false, if◌then◌else◌, none, refl, some, true, ◌≡◌}
use murano_temp.Base.Result.{Error, Result, err, ok}
use murano_temp.Server.Exec.{
  Exec, continue, ended, ends, gets, lift, modify, pure, raise_if, reads, require, saved, writes,
  ◌>>=◌,
}
use murano_temp.Server.Rows.{Server}

module _ {ℓ κ} {A : Type ℓ} {B : Type κ} (P : Server → Type 0) (k : A → Exec B) (s : Server) where
  continue_rule : (r : Result A) → P s → ((a : A) → r ≡ ok a → P (k a s).1) → P (continue r k s).1
  continue_rule (ok a) h next = next a refl
  continue_rule (err e) h next = h

  -- A statement that keeps `P`, whatever it returns.
  pub bind_rule :
      (m : Exec A) → P (m s).1 → ((a : A) (s' : Server) → P s' → P (k a s').1) → P ((m >>= k) s).1
  unfolding ◌>>=◌
  bind_rule m h next = go (m s).0
    where
      go : (r : Result A) → P (continue r k (m s).1).1
      go (ok a) = next a (m s).1 h
      go (err e) = h

  pub lift_rule : (r : Result A) → P s → ((a : A) → r ≡ ok a → P (k a s).1) → P ((lift r >>= k) s).1
  unfolding ◌>>=◌
  lift_rule = continue_rule

  pub gets_rule : (f : Server → A) → P (k (f s) s).1 → P ((gets f >>= k) s).1
  unfolding ◌>>=◌
  gets_rule f h = h

  pub reads_rule :
      (f : Server → Result A) → P s → ((a : A) → f s ≡ ok a → P (k a s).1) → P ((reads f >>= k) s).1
  unfolding ◌>>=◌
  reads_rule f = continue_rule (f s)

  pub require_rule :
      (o : Option A) (e : Error)
      → P s
      → ((a : A) → o ≡ some a → P (k a s).1)
      → P ((require o e >>= k) s).1
  unfolding ◌>>=◌
  require_rule none e h next = h
  require_rule (some a) e h next = next a refl

module _ {κ} {B : Type κ} (P : Server → Type 0) (k : Unit {0} → Exec B) (s : Server) where
  pub raise_if_rule :
      (b : Bool) (e : Error) → P s → (b ≡ false → P (k tt s).1) → P ((raise_if b e >>= k) s).1
  unfolding ◌>>=◌
  raise_if_rule true e h next = h
  raise_if_rule false e h next = next refl

  pub modify_rule : (f : Server → Server) → P (k tt (f s)).1 → P ((modify f >>= k) s).1
  unfolding ◌>>=◌
  modify_rule f h = h

  saved_rule :
      (r : Result Server)
      → P s
      → ((s' : Server) → r ≡ ok s' → P (k tt s').1)
      → P (continue (saved r s).0 k (saved r s).1).1
  saved_rule (ok s') h next = next s' refl
  saved_rule (err e) h next = h

  pub writes_rule :
      (f : Server → Result Server)
      → P s
      → ((s' : Server) → f s ≡ ok s' → P (k tt s').1)
      → P ((writes f >>= k) s).1
  unfolding ◌>>=◌
  writes_rule f = saved_rule (f s)

module _ (P : Server → Type 0) (s : Server) where
  saved_last : (r : Result Server) → P s → ((s' : Server) → r ≡ ok s' → P s') → P (saved r s).1
  saved_last (ok s') h next = next s' refl
  saved_last (err e) h next = h

  -- The last statement of a block.
  pub writes_last :
      (f : Server → Result Server) → P s → ((s' : Server) → f s ≡ ok s' → P s') → P (writes f s).1
  unfolding writes
  writes_last f = saved_last (f s)

  pub modify_last : (f : Server → Server) → P (f s) → P (modify f s).1
  unfolding modify
  modify_last f h = h

module _ {ℓ} {A : Type ℓ} (P : Server → Type 0) (s : Server) where
  pub pure_last : (a : A) → P s → P (pure a s).1
  unfolding pure
  pure_last a h = h

  ended_last :
      (r : Result (Result A × Server))
      → P s
      → ((o : Result A × Server) → r ≡ ok o → P o.1)
      → P (ended r s).1
  ended_last (ok o) h next = next o refl
  ended_last (err e) h next = h

  pub ends_last :
      (f : Server → Result (Result A × Server))
      → P s
      → ((o : Result A × Server) → f s ≡ ok o → P o.1)
      → P (ends f s).1
  unfolding ends
  ends_last f = ended_last (f s)

  pub if_rule :
      (b : Bool) (m n : Exec A)
      → (b ≡ true → P (m s).1)
      → (b ≡ false → P (n s).1)
      → P ((if b then m else n) s).1
  if_rule true m n h k = h refl
  if_rule false m n h k = k refl

-- Blocks that end without an exception: what holds of the state then.
module _ {ℓ κ} {A : Type ℓ} {B : Type κ} (P : Server → Type 0) (k : A → Exec B) (s : Server)
    (b : B) where
  continue_done :
      (r : Result A)
      → ((a : A) → r ≡ ok a → (k a s).0 ≡ ok b → P (k a s).1)
      → (continue r k s).0 ≡ ok b
      → P (continue r k s).1
  continue_done (ok a) next h = next a refl h
  continue_done (err e) next h = cc

  pub lift_done :
      (r : Result A)
      → ((a : A) → r ≡ ok a → (k a s).0 ≡ ok b → P (k a s).1)
      → ((lift r >>= k) s).0 ≡ ok b
      → P ((lift r >>= k) s).1
  unfolding ◌>>=◌
  lift_done = continue_done

  pub gets_done :
      (f : Server → A)
      → ((k (f s) s).0 ≡ ok b → P (k (f s) s).1)
      → ((gets f >>= k) s).0 ≡ ok b
      → P ((gets f >>= k) s).1
  unfolding ◌>>=◌
  gets_done f next = next

module _ {ℓ} {A : Type ℓ} (P : Server → Type 0) (s : Server) (a : A) where
  pub if_done :
      (b : Bool) (m n : Exec A)
      → (b ≡ true → (m s).0 ≡ ok a → P (m s).1)
      → (b ≡ false → (n s).0 ≡ ok a → P (n s).1)
      → ((if b then m else n) s).0 ≡ ok a
      → P ((if b then m else n) s).1
  if_done true m n h k = h refl
  if_done false m n h k = k refl
