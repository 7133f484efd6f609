-- ===== src/Tests/Diffs.antt =====
-- A comparison of a baseline with a live platform.
use liderahenk_test_platform.Base.{◌≤◌, String, ◌≡◌, refl, ◌↔◌, List, [], ◌∷◌, ◌++◌, length}
use liderahenk_test_platform.Json.{str, arr, obj, nil, cons, Fields, end, fields, nat, texts}
use liderahenk_test_platform.Baseline.Diff.{
  Diff, Surfaces, BaselineDiff, artifact_missing, summarize_diffs, count_in, source_diffs,
  surfaces_of, diff_payload, build_baseline_diff_payload, surface_diffs,
}
use liderahenk_test_platform.Baseline.Diff.Tallies.{
  sum, occurrences, first_present, summarize_diffs_bounds,
}
use liderahenk_test_platform.Baseline.Diff.Agreement.{Agrees, build_baseline_diff_payload-Agrees}
use liderahenk_test_platform.Tests.Baselines.{contract}

abbrev capture_of : List String → Fields
capture_of ids = fields (
    (
      "ldap-tree.json",
      obj (fields (("entries", arr (cons (obj (fields (("dn", str "dc=org") ∷ []))) nil)) ∷ [])),
    )
    ∷ ("config.json", obj (fields (("fields", obj end) ∷ [])))
    ∷ (
      "api-captures/dashboard.json",
      obj (fields (("payload", obj (fields (("totalComputerNumber", nat 1) ∷ []))) ∷ [])),
    )
    ∷ ("api-captures/agent-list.json", obj (fields (("agentIds", texts ids) ∷ [])))
    ∷ ("api-captures/computer-tree.json", obj (fields (("agentIds", texts ids) ∷ [])))
    ∷ [])

abbrev seen_with : List String → Surfaces
seen_with ids = record {
  dns = "dc=org" ∷ [];
  config = end;
  dashboard = fields (("totalComputerNumber", nat 1) ∷ []);
  agents = ids;
  tree = ids;
}

abbrev passing : Fields
passing = fields (("status", str "pass") ∷ [])

abbrev compared : BaselineDiff
compared =
    diff_payload contract end
      (source_diffs artifact_missing
        ++ surface_diffs (seen_with ("ahenk-001" ∷ [])) (seen_with ("ahenk-001" ∷ [])) (str "pass"))
      passing artifact_missing

build_baseline_diff_payload-Agrees_example :
    (compared.status ≡ "pass")
    ↔ Agrees (seen_with ("ahenk-001" ∷ [])) (seen_with ("ahenk-001" ∷ [])) (str "pass")
unfolding build_baseline_diff_payload surfaces_of
build_baseline_diff_payload-Agrees_example =
    build_baseline_diff_payload-Agrees contract (capture_of ("ahenk-001" ∷ []))
      (capture_of ("ahenk-001" ∷ [])) passing artifact_missing (seen_with ("ahenk-001" ∷ []))
      (seen_with ("ahenk-001" ∷ [])) compared refl refl refl refl

abbrev order : List String
order = "error" ∷ "warn" ∷ []

abbrev missing : List Diff
missing = source_diffs artifact_missing

summarize_diffs_bounds_example :
    (sum (summarize_diffs missing order "error").counts ≡ length missing)
    × (count_in "warn" (summarize_diffs missing order "error").counts ≡ occurrences "warn" missing)
    × (count_in "warn" (summarize_diffs missing order "error").counts ≤ length missing)
    × ((summarize_diffs missing order "error").blocking_count ≡ occurrences "error" missing)
    × ((summarize_diffs missing order "error").highest_severity ≡ first_present order missing)
summarize_diffs_bounds_example = summarize_diffs_bounds missing order "error" "warn"
