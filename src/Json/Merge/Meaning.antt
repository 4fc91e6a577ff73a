-- ===== src/Json/Merge/Meaning.antt =====
-- What the merge of two values means.
use murano_temp.Base.{Bool, Option, String, false, none, some, true, ℕ, ◌&&◌, ◌-◌, ◌≡◌, ◌≢◌, ◌⊎◌}
use murano_temp.Json.{dict, list}
use murano_temp.Json.Data.{Fields, Items, Value, lookup}
use murano_temp.Json.Merge.{is_text_or_null, same_type}
use murano_temp.Json.Merge.Union.{IsUnion}

unfoldable pub is_container : Value → Bool
is_container (list xs) = true
is_container (dict fs) = true
is_container _ = false

-- With a bound on the levels, where 0 is no bound: a merge at level 1 replaces whole values.
mutual
  pub data IsMerged : ℕ → Value → Value → Value → Type 0 where
    replaced :
        {n : ℕ} {v w x : Value}
        → same_type v w ≡ true
        → (n ≡ 1) ⊎ (is_container v ≡ false)
        → x ≡ w
        → IsMerged n v w x
    kept :
        {n : ℕ} {v w x : Value}
        → same_type v w ≡ false
        → is_text_or_null v && is_text_or_null w ≡ true
        → x ≡ v
        → IsMerged n v w x
    united :
        {n : ℕ} {xs ys zs : Items} {x : Value}
        → n ≢ 1
        → x ≡ list zs
        → IsUnion xs ys zs
        → IsMerged n (list xs) (list ys) x
    merged :
        {n : ℕ} {fs gs r : Fields} {x : Value}
        → n ≢ 1
        → x ≡ dict r
        → ((k : String) → IsMergedAt (n - 1) (lookup k fs) (lookup k gs) (lookup k r))
        → IsMerged n (dict fs) (dict gs) x

  -- What two dicts have at a key, and what their merge has.
  pub data IsMergedAt : ℕ → Option Value → Option Value → Option Value → Type 0 where
    neither : {n : ℕ} → IsMergedAt n none none none
    only_first : {n : ℕ} {v : Value} → IsMergedAt n (some v) none (some v)
    only_second : {n : ℕ} {w : Value} → IsMergedAt n none (some w) (some w)
    in_both : {n : ℕ} {v w x : Value} → IsMerged n v w x → IsMergedAt n (some v) (some w) (some x)
