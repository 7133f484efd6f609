-- ===== src/Checks/Counts.antt =====
-- The summary of a list of checks.
use liderahenk_test_platform.Base.{
  ◌+◌, ◌≤◌, ◌≡◌, ◌↔◌, refl, Bool, true, false, ◌==◌, if◌then◌else◌, List, [], ◌∷◌, length, all,
  arith,
}
use liderahenk_test_platform.Checks.{Check, passes, passed_count, summarize_checks}

-- A check of `build_check` passes by its argument.
pub status_passes : (b : Bool) → (if b then "pass" else "fail") == "pass" ≡ b
status_passes true = refl
status_passes false = refl

passed_count-le : (checks : List Check) → passed_count checks ≤ length checks
unfolding passed_count
passed_count-le [] = omega arith
passed_count-le (c ∷ r) = ground (arith, passed_count-le r)

passed_count-all :
    (checks : List Check) → (passed_count checks ≡ length checks) ↔ (all passes checks ≡ true)
unfolding passed_count
passed_count-all [] = ground arith
passed_count-all (c ∷ r) = ground (arith, passed_count-all r, passed_count-le r)

-- The checks that pass and those that fail are all of them, and none fails exactly when every one
-- has the status `pass`.
pub summarize_checks_lem :
    (checks : List Check)
    → ((summarize_checks checks).passed + (summarize_checks checks).failed
        ≡ (summarize_checks checks).total)
      × (((summarize_checks checks).failed ≡ 0) ↔ (all passes checks ≡ true))
unfolding summarize_checks
summarize_checks_lem checks = (
  omega (arith, passed_count-le checks),
  ground (arith, passed_count-all checks, passed_count-le checks),
)
