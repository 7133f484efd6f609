-- ===== src/Checks.antt =====
-- The checks of the readiness reports: platform_runtime/readiness/checks.py.
pub mod Counts
use liderahenk_test_platform.Base.{
  ℕ, ◌+◌, ◌-◌, String, ◌≡◌, refl, sym, ap, ◌∙◌, ◌↔◌, Bool, true, false, List, [], ◌∷◌, ◌++◌, ◌==◌,
  length, all, arith, eq_iff, if◌then◌else◌, Bool-cases, inl, inr,
}
use liderahenk_test_platform.Json.{Value}

-- A check. `null` stands for a key that is not there.
pub record Check : Type 0 where
  pub id : String
  pub category : String
  pub description : String
  pub status : String
  pub actual : Value
  pub expected : Value
  pub details : Value

unfoldable pub build_check : String → String → String → Bool → Value → Value → Value → Check
build_check id category description passed actual expected details = record {
  id = id;
  category = category;
  description = description;
  status = if passed then "pass" else "fail";
  actual = actual;
  expected = expected;
  details = details;
}

abbrev pub passes : Check → Bool
passes c = c.status == "pass"

pub record Summary : Type 0 where
  pub total : ℕ
  pub passed : ℕ
  pub failed : ℕ

-- `sum(1 for item in checks if item["status"] == "pass")`
unfoldable pub passed_count : List Check → ℕ
passed_count [] = 0
passed_count (c ∷ r) = let rest = passed_count r in if passes c then rest + 1 else rest

unfoldable pub summarize_checks : List Check → Summary
unfolding passed_count
summarize_checks checks = record {
  total = length checks;
  passed = passed_count checks;
  failed = length checks - passed_count checks;
}
