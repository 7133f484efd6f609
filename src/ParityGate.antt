-- ===== src/ParityGate.antt =====
-- The registration gate: `_registration_parity_check` of platform_runtime/readiness/__init__.py.
-- The collection of a snapshot and the sleep are calls in a world.
pub mod Attempts
use liderahenk_test_platform.Base.{
  ℕ, zero, suc, ◌+◌, String, Bool, false, ◌&&◌, Option, none, some, ◌==◌, ltb, if◌then◌else◌,
}
use liderahenk_test_platform.Json.{ℤ, Value, num, str, arr, obj, Fields, fields, texts, nat, int_eq}
use liderahenk_test_platform.Snapshot.{Snapshot}
use liderahenk_test_platform.Verdict.{Evaluation, evaluate_snapshot}
use liderahenk_test_platform.Artifacts.{counts_json, taxonomy_json}
use liderahenk_test_platform.Checks.{Check, build_check}
use mathlib.Core.List.{[], ◌∷◌}

-- What `collect_snapshot` does: an exception has the name of its type and a text.
pub data Answer : Type 0 where
  answered : Snapshot → Answer
  raised : (name text : String) → Answer

abbrev pub evaluation : Snapshot → Evaluation
evaluation s = evaluate_snapshot s false []

-- `parity_ok`
abbrev pub parity_ok : ℤ → Snapshot → Bool
parity_ok expected s = (evaluation s).status == "pass" && int_eq s.expected_agents expected

abbrev expected_value : ℤ → Value
expected_value expected = obj (fields (("expectedAgents", num expected) ∷ []))

unfoldable pub answered_check : ℤ → Snapshot → ℕ → Check
unfolding evaluate_snapshot build_check
answered_check expected s attempt =
    let verdict = evaluation s in
    build_check "registration_parity" "registration"
      "Runtime registration parity matches expected agent count" (parity_ok expected s)
      (obj (counts_json verdict.surfaces)) (expected_value expected)
      (obj (
        fields (
          ("failedChecks", texts verdict.failed_checks)
          ∷ ("surfaces", obj (counts_json verdict.surfaces))
          ∷ ("taxonomy", arr (taxonomy_json verdict.taxonomy))
          ∷ ("attemptCount", nat attempt)
          ∷ [])))

-- The check after the loop, with the last exception.
unfoldable pub raised_check : ℤ → Option (String × String) → Check
unfolding build_check
raised_check expected last =
    build_check "registration_parity" "registration"
      "Runtime registration parity matches expected agent count" false
      (elim last [ none ↦ str "unknown" | some e ↦ str (e.0) ]) (expected_value expected)
      (obj (
        fields (
          ("error", elim last [ none ↦ str "unknown error" | some e ↦ str (e.1) ])
          ∷ ("attemptCount", nat 3)
          ∷ [])))

module _ {W : Type 0} (collect : W → Answer × W) (sleep : W → W) (expected : ℤ) where
  -- `if attempt < 3: time.sleep(2)`
  abbrev pub pause : ℕ → W → W
  pause attempt w = if ltb attempt 3 then sleep w else w

  -- The attempts left, the number of the next one, and the last exception.
  unfoldable pub attempts : ℕ → ℕ → Option (String × String) → W → Check × W
  unfolding answered_check raised_check
  attempts zero attempt last w = (raised_check expected last, w)
  attempts (suc left) attempt last w =
      let (answer, v) = collect w in
      elim answer [
        | answered s ↦ (answered_check expected s attempt, v)
        | raised name text ↦ attempts left (attempt + 1) (some (name, text)) (pause attempt v)
      ]

  unfoldable pub registration_parity_check : W → Check × W
  unfolding attempts
  registration_parity_check w = attempts 3 1 none w
