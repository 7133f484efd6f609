-- ===== src/Baseline/Diff/Differences.antt =====
-- The details of a difference between two lists, as sets.
use liderahenk_test_platform.Base.{String, ◌≡◌, not, ◌&&◌, List, select, contains, contains-select}
use liderahenk_test_platform.Base.Sorted.{
  from_keys, sorted_keys, IsStrict, contains-sorted_keys, contains-from_keys, sorted_keys-IsStrict,
}
use liderahenk_test_platform.Baseline.Diff.{list_diff_details}

-- What one list has and the other lacks.
abbrev only : List String → List String → List String
only xs ys = select (λ b. not (contains (from_keys ys) b)) (from_keys xs)

only_in :
    (xs ys : List String) (a : String)
    → contains (sorted_keys (only xs ys)) a ≡ (contains xs a && not (contains ys a))
only_in xs ys a = rw (
  contains-sorted_keys (only xs ys) a,
  contains-select (λ b. not (contains (from_keys ys) b)) (from_keys xs) a,
  contains-from_keys xs a,
  contains-from_keys ys a,
)

-- The details of a difference list, each strictly in order, exactly the values of the baseline that
-- the current list lacks, and exactly those that only the current list has.
pub list_diff_details_lem :
    (baseline current : List String) (a : String)
    → IsStrict (list_diff_details baseline current).missing_from_current
      × IsStrict (list_diff_details baseline current).extra_in_current
      × (contains (list_diff_details baseline current).missing_from_current a
          ≡ (contains baseline a && not (contains current a)))
      × (contains (list_diff_details baseline current).extra_in_current a
          ≡ (contains current a && not (contains baseline a)))
unfolding list_diff_details
list_diff_details_lem baseline current a = (
  sorted_keys-IsStrict (only baseline current),
  sorted_keys-IsStrict (only current baseline),
  only_in baseline current a,
  only_in current baseline a,
)
