-- ===== src/Baseline/Diff/Tallies.antt =====
-- The summary of the differences against a count of them.
use liderahenk_test_platform.Base.{
  ℕ, ◌+◌, ◌≤◌, String, ◌≡◌, refl, Option, none, some, List, [], ◌∷◌, ◌==◌, arith, eq_iff, length,
  ltb, if◌then◌else◌,
}
use liderahenk_test_platform.Base.Sorted.{from_keys}
use liderahenk_test_platform.Baseline.Diff.{
  Diff, Tally, count_in, bump, zeros_of, zeros, tally, highest, summarize_diffs,
}

-- How many differences have a severity.
abbrev pub occurrences : String → List Diff → ℕ
occurrences s [] = 0
occurrences s (d ∷ r) = (if d.severity == s then 1 else 0) + occurrences s r

abbrev pub sum : Tally → ℕ
sum [] = 0
sum ((j, n) ∷ r) = n + sum r

count_in-bump :
    (s k : String) (t : Tally) → count_in s (bump k t) ≡ (if k == s then 1 else 0) + count_in s t
unfolding bump
count_in-bump s k [] = ground arith
count_in-bump s k ((j, n) ∷ r) =
    ground (arith, eq_iff j k, eq_iff j s, eq_iff k s, count_in-bump s k r)

pub count_in-tally :
    (s : String) (ds : List Diff) (t : Tally)
    → count_in s (tally ds t) ≡ occurrences s ds + count_in s t
unfolding tally
count_in-tally s [] t = omega arith
count_in-tally s (d ∷ r) t =
    omega (arith, count_in-tally s r (bump d.severity t), count_in-bump s d.severity t)

count_in-zeros_of : (s : String) (order : List String) → count_in s (zeros_of order) ≡ 0
count_in-zeros_of s [] = refl
count_in-zeros_of s (k ∷ r) = ground (arith, count_in-zeros_of s r)

sum-bump : (k : String) (t : Tally) → sum (bump k t) ≡ sum t + 1
unfolding bump
sum-bump k [] = refl
sum-bump k ((j, n) ∷ r) = ground (arith, sum-bump k r)

sum-tally : (ds : List Diff) (t : Tally) → sum (tally ds t) ≡ length ds + sum t
unfolding tally
sum-tally [] t = omega arith
sum-tally (d ∷ r) t = omega (arith, sum-tally r (bump d.severity t), sum-bump d.severity t)

sum-zeros_of : (order : List String) → sum (zeros_of order) ≡ 0
sum-zeros_of [] = refl
sum-zeros_of (k ∷ r) = omega (arith, sum-zeros_of r)

pub count_in-summary :
    (s : String) (ds : List Diff) (order : List String)
    → count_in s (tally ds (zeros order)) ≡ occurrences s ds
unfolding zeros
count_in-summary s ds order =
    omega (
      arith,
      count_in-tally s ds (zeros_of (from_keys order)),
      count_in-zeros_of s (from_keys order),
    )

count_in-le : (s : String) (t : Tally) → count_in s t ≤ sum t
count_in-le s [] = omega arith
count_in-le s ((j, n) ∷ r) = ground (arith, count_in-le s r)

sum-summary : (ds : List Diff) (order : List String) → sum (tally ds (zeros order)) ≡ length ds
unfolding zeros
sum-summary ds order =
    omega (arith, sum-tally ds (zeros_of (from_keys order)), sum-zeros_of (from_keys order))

-- The first severity of an order that a difference has.
abbrev pub first_present : List String → List Diff → Option String
first_present [] ds = none
first_present (s ∷ r) ds = if ltb 0 (occurrences s ds) then some s else first_present r ds

highest-present :
    (order : List String) (ds : List Diff) (t : Tally)
    → ((s : String) → count_in s t ≡ occurrences s ds)
    → highest order t ≡ first_present order ds
unfolding highest
highest-present [] ds t h = refl
highest-present (s ∷ r) ds t h = rw (h s) (ground (arith, highest-present r ds t h))

-- The counts of a summary add up to the number of differences, so none exceeds it, and each is the
-- number of differences with that severity; the highest severity is the first one of the order that
-- a difference has.
pub summarize_diffs_bounds :
    (ds : List Diff) (order : List String) (blocking s : String)
    → (sum (summarize_diffs ds order blocking).counts ≡ length ds)
      × (count_in s (summarize_diffs ds order blocking).counts ≡ occurrences s ds)
      × (count_in s (summarize_diffs ds order blocking).counts ≤ length ds)
      × ((summarize_diffs ds order blocking).blocking_count ≡ occurrences blocking ds)
      × ((summarize_diffs ds order blocking).highest_severity ≡ first_present order ds)
unfolding summarize_diffs
summarize_diffs_bounds ds order blocking s = (
  sum-summary ds order,
  count_in-summary s ds order,
  omega (arith, sum-summary ds order, count_in-le s (tally ds (zeros order))),
  count_in-summary blocking ds order,
  highest-present order ds (tally ds (zeros order)) (λ k. count_in-summary k ds order),
)
