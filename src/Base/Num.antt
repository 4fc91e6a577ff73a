-- ===== src/Base/Num.antt =====
-- Boolean tests on the native numbers, and the integers of the program.
use Prim.Native.Nat.{ℕ, zero, suc, ◌+◌, ◌≤◌, ◌<◌, compare, Ordering}
use mathlib.Core.Path.{◌≡◌}
use mathlib.Core.Logic.{◌↔◌}
use mathlib.Core.Bool.{Bool, true, false}
use native.Mathlib.Omega.{arith}

abbrev pub ltb : ℕ → ℕ → Bool
ltb a b = elim (compare a b) [ Ordering.lt ↦ true | _ ↦ false ]

abbrev pub leb : ℕ → ℕ → Bool
leb a b = elim (compare a b) [ Ordering.gt ↦ false | _ ↦ true ]

infix 50 ◌==◌
abbrev pub ◌==◌ : ℕ → ℕ → Bool
a == b = elim (compare a b) [ Ordering.eq ↦ true | _ ↦ false ]

pub ltb→lt : (a b : ℕ) → ltb a b ≡ true → a < b
ltb→lt a b h = ground arith

pub leb→le : (a b : ℕ) → leb a b ≡ true → a ≤ b
leb→le a b h = ground arith

pub ==_iff : (a b : ℕ) → ((a == b) ≡ true) ↔ (a ≡ b)
==_iff a b = ground arith

-- `negsuc n` is -(n + 1).
pub data ℤ : Type 0 where
  pos : ℕ → ℤ
  negsuc : ℕ → ℤ

infixl 20 ◌⊖◌ ◌+ℤ◌
-- `m - n` of two natural numbers.
unfoldable pub ◌⊖◌ : ℕ → ℕ → ℤ
m ⊖ zero = ℤ.pos m
zero ⊖ suc n = ℤ.negsuc n
suc m ⊖ suc n = m ⊖ n

abbrev pub ◌+ℤ◌ : ℤ → ℤ → ℤ
ℤ.pos m +ℤ ℤ.pos n = ℤ.pos (m + n)
ℤ.pos m +ℤ ℤ.negsuc n = m ⊖ suc n
ℤ.negsuc m +ℤ ℤ.pos n = n ⊖ suc m
ℤ.negsuc m +ℤ ℤ.negsuc n = ℤ.negsuc (suc (m + n))
