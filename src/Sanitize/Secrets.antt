-- ===== src/Sanitize/Secrets.antt =====
-- The values that murano/common/helpers/token_sanitizer.py makes: what is hidden in them.
use murano_temp.Base.{String, ◌≡◌, refl, sym, ap, ap₂, Bool, true, false, ◌&&◌, if◌then◌else◌}
use murano_temp.Json.{
  Value, Items, Fields, null, boolean, int, str, list, dict, nil, cons, end, field,
}
use murano_temp.Sanitize.{
  message, contains_token, is_str, sanitize, sanitize_items, sanitize_fields,
}

-- A text under a key that holds a token is the message.
abbrev pub IsHidden : String → Value → Type 0
IsHidden k (str s) = contains_token k ≡ true → s ≡ message
IsHidden k _ = Unit

unfoldable mutual
  pub IsClean : Value → Type 0
  IsClean (dict fs) = AreCleanFields fs
  IsClean (list xs) = AreCleanItems xs
  IsClean null = Unit
  IsClean (boolean b) = Unit
  IsClean (int n) = Unit
  IsClean (str s) = Unit

  pub AreCleanItems : Items → Type 0
  AreCleanItems nil = Unit
  AreCleanItems (cons x xs) = IsClean x × AreCleanItems xs

  pub AreCleanFields : Fields → Type 0
  AreCleanFields end = Unit
  AreCleanFields (field k v fs) = IsHidden k v × IsClean v × AreCleanFields fs

-- An entry's new value, for each answer `b` of the test on its key.
IsHidden-value :
    (k : String) (b : Bool) (v : Value)
    → contains_token k ≡ b
    → IsHidden k (if b && is_str v then str message else sanitize v)
unfolding sanitize
IsHidden-value k true (str s) e = λ _. refl
IsHidden-value k false (str s) e = λ h. cc
IsHidden-value k true null e = tt
IsHidden-value k false null e = tt
IsHidden-value k true _ e = tt
IsHidden-value k false _ e = tt

IsClean-value :
    (b : Bool) (v : Value)
    → IsClean (sanitize v)
    → IsClean (if b && is_str v then str message else sanitize v)
unfolding IsClean
IsClean-value true (str s) h = tt
IsClean-value true null h = h
IsClean-value true _ h = h
IsClean-value false v h = h

mutual
  unfolding sanitize IsClean

  clean : (v : Value) → IsClean (sanitize v)
  clean (dict fs) = clean_fields fs
  clean (list xs) = clean_items xs
  clean null = tt
  clean (boolean b) = tt
  clean (int n) = tt
  clean (str s) = tt

  clean_items : (xs : Items) → AreCleanItems (sanitize_items xs)
  clean_items nil = tt
  clean_items (cons x xs) = (clean x, clean_items xs)

  clean_fields : (fs : Fields) → AreCleanFields (sanitize_fields fs)
  clean_fields end = tt
  clean_fields (field k v fs) = (
    IsHidden-value k (contains_token k) v refl,
    IsClean-value (contains_token k) v (clean v),
    clean_fields fs,
  )

-- A value that has no secret in it passes unchanged.
clean_entry :
    (k : String) (b : Bool) (v : Value)
    → contains_token k ≡ b
    → IsHidden k v
    → sanitize v ≡ v
    → (if b && is_str v then str message else sanitize v) ≡ v
clean_entry k true (str s) e hidden h = ap str (sym (hidden e))
clean_entry k true null e hidden h = h
clean_entry k true _ e hidden h = h
clean_entry k false v e hidden h = h

mutual
  unfolding sanitize IsClean

  keep : (v : Value) → IsClean v → sanitize v ≡ v
  keep (dict fs) h = ap dict (keep_fields fs h)
  keep (list xs) h = ap list (keep_items xs h)
  keep null h = refl
  keep (boolean b) h = refl
  keep (int n) h = refl
  keep (str s) h = refl

  keep_items : (xs : Items) → AreCleanItems xs → sanitize_items xs ≡ xs
  keep_items nil h = refl
  keep_items (cons x xs) h = ap₂ cons (keep x h.0) (keep_items xs h.1)

  keep_fields : (fs : Fields) → AreCleanFields fs → sanitize_fields fs ≡ fs
  keep_fields end h = refl
  keep_fields (field k v fs) h =
      ap₂ (field k) (clean_entry k (contains_token k) v refl h.0 (keep v h.1)) (keep_fields fs h.2)

-- In a sanitized value every text under a key that holds a token is the message, at any depth;
-- a value in which that is so already passes unchanged, so a second pass changes nothing.
pub sanitize-IsClean :
    (v : Value)
    → IsClean (sanitize v) × (IsClean v → sanitize v ≡ v) × (sanitize (sanitize v) ≡ sanitize v)
sanitize-IsClean v = (clean v, keep v, keep (sanitize v) (clean v))
