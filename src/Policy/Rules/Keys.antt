-- ===== src/Policy/Rules/Keys.antt =====
-- The JSON values that Python can hash: the elements of a set. True and False are the numbers 1 and 0.
use murano_temp.Base.{Bool, String, arith, eq_iff, false, refl, true, ◌==◌, ◌↔◌, ◌≡◌}
use murano_temp.Base.Equality.{Equality}
use murano_temp.Base.Num.{==_iff, negsuc, pos, ℤ}
use murano_temp.Base.Result.{Result, err, ok, type_error}
use murano_temp.Json.{Value, boolean, int, null, str}
use murano_temp.Json.Equal.{same_ℤ}

pub data Key : Type 0 where
  nothing : Key
  number : ℤ → Key
  text : String → Key

unfoldable pub to_key : Value → Result Key
to_key null = ok nothing
to_key (boolean true) = ok (number (ℤ.pos 1))
to_key (boolean false) = ok (number (ℤ.pos 0))
to_key (int n) = ok (number n)
to_key (str s) = ok (text s)
to_key _ = err type_error

unfoldable pub same_key : Key → Key → Bool
unfolding same_ℤ
same_key nothing nothing = true
same_key (number n) (number m) = same_ℤ n m
same_key (text s) (text t) = s == t
same_key _ _ = false

same_ℤ_iff : (n m : ℤ) → (same_ℤ n m ≡ true) ↔ (n ≡ m)
unfolding same_ℤ
same_ℤ_iff (ℤ.pos n) (ℤ.pos m) = ground (arith, murano_temp.Base.Num.==_iff n m)
same_ℤ_iff (ℤ.negsuc n) (ℤ.negsuc m) = ground (arith, murano_temp.Base.Num.==_iff n m)
same_ℤ_iff (ℤ.pos n) (ℤ.negsuc m) = (λ h. cc, λ h. cc)
same_ℤ_iff (ℤ.negsuc n) (ℤ.pos m) = (λ h. cc, λ h. cc)

pub same_key_iff : (a b : Key) → (same_key a b ≡ true) ↔ (a ≡ b)
unfolding same_key
same_key_iff nothing nothing = (λ h. refl, λ h. refl)
same_key_iff (number n) (number m) = ground (arith, same_ℤ_iff n m)
same_key_iff (text s) (text t) = ground (arith, eq_iff s t)
same_key_iff nothing (number m) = (λ h. cc, λ h. cc)
same_key_iff nothing (text t) = (λ h. cc, λ h. cc)
same_key_iff (number n) nothing = (λ h. cc, λ h. cc)
same_key_iff (number n) (text t) = (λ h. cc, λ h. cc)
same_key_iff (text s) nothing = (λ h. cc, λ h. cc)
same_key_iff (text s) (number m) = (λ h. cc, λ h. cc)

unfoldable pub keys : Equality Key
keys = record { eq = same_key; eq_iff = same_key_iff }
