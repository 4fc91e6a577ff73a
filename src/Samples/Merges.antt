-- ===== src/Samples/Merges.antt =====
-- The theorem on merged dicts, at two with a dict and a list under keys that they share.
use murano_temp.Base.{refl, ◌≡◌}
use murano_temp.Base.Num.{ℤ}
use murano_temp.Base.Result.{err, ok, type_error}
use murano_temp.Json.{Fields, cons, dict, end, field, int, list, lookup, nil, null, set_key, str}
use murano_temp.Json.Equal.{equal}
use murano_temp.Json.Merge.{merge_dicts}
use murano_temp.Json.Merge.Lookup.{merge_dicts-IsMerged}
use murano_temp.Json.Merge.Meaning.{IsMergedAt}

abbrev base : Fields
base =
    field "a" (dict (field "x" (int (ℤ.pos 1)) end))
      (field "l" (list (cons (str "p") nil)) (field "s" (str "one") end))

abbrev changes : Fields
changes =
    field "a" (dict (field "y" (int (ℤ.pos 2)) end))
      (field "l" (list (cons (str "q") (cons (str "p") nil))) (field "s" (str "two") end))

abbrev merged : Fields
merged =
    field "a" (dict (field "x" (int (ℤ.pos 1)) (field "y" (int (ℤ.pos 2)) end)))
      (field "l" (list (cons (str "p") (cons (str "q") nil))) (field "s" (str "two") end))

merged_run : merge_dicts 0 base changes ≡ ok merged
unfolding merge_dicts lookup set_key equal
merged_run = refl

-- A value that is None stays so, whatever text the second dict has; other types must be the same.
merge_dicts_examples :
    (merge_dicts 0 (field "a" null end) (field "a" (str "t") end) ≡ ok (field "a" null end))
    × (merge_dicts 0 (field "a" null end) (field "a" (list nil) end) ≡ err type_error)
    × (merge_dicts 1 base changes ≡ ok changes)
unfolding merge_dicts lookup
merge_dicts_examples = (refl, refl, refl)

-- At a key that has a dict in both.
merge_dicts-IsMerged_example :
    IsMergedAt 0 (lookup "a" base) (lookup "a" changes) (lookup "a" merged)
merge_dicts-IsMerged_example = merge_dicts-IsMerged 0 base changes merged merged_run "a"
