-- ===== src/Tests/Probes.antt =====
-- The effect probe, with an agent whose command history is empty and a profile that stays.
use liderahenk_test_platform.Base.{ℕ, ◌+◌, ◌≡◌, refl, ◌↔◌, true, [], ◌∷◌}
use liderahenk_test_platform.Base.Text.{decimal}
use liderahenk_test_platform.Json.{pos, Value, str, num, arr, nil, fields}
use liderahenk_test_platform.PolicyRoundtrip.{
  Entries, none_left, then_more, entry, Answer, answer, Api,
}
use liderahenk_test_platform.PolicyRoundtrip.Run.{executed, stages}
use liderahenk_test_platform.EffectProbe.{Probe, observed, counted, run_policy_effect_probe_check}
use liderahenk_test_platform.EffectProbe.Passes.{run_policy_effect_probe_check_passes}
use liderahenk_test_platform.Tests.Data.{plain}
use liderahenk_test_platform.Tests.Roundtrip.{group_fields, stubborn_answer, as_number}

abbrev agents : Entries
agents =
    then_more
      (entry (fields (("type", str "AHENK") ∷ ("distinguishedName", str "cn=ahenk-001") ∷ []))
        none_left none_left)
      none_left

abbrev api : Api
api = record {
  World = ℕ;
  get_computer_tree = λ w. (answer agents, w + 1);
  create_script_profile = λ w. (answer (fields (("id", num (pos 8)) ∷ [])), w + 1);
  create_policy = λ profile w. (answer (fields (("id", num (pos 7)) ∷ [])), w + 1);
  execute_policy = λ id dn w. (answer 200, w + 1);
  create_computer_group = λ name w. (answer group_fields, w + 1);
  get_computer_group_tree = λ w. (answer agents, w + 1);
  delete = λ op w. (stubborn_answer op, w + 1);
}

abbrev no_history : Value → ℕ → Answer Value × ℕ
no_history dn w = (answer (arr nil), w + 1)

abbrev no_sleep : ℕ → ℕ
no_sleep w = w

abbrev probe : Probe
probe = record {
  passed = true;
  effect = observed 200 (counted 0) (record {
    status = "partial_failure";
    attempted =
        ("policy", str "7")
        ∷ ("profile", str "8")
        ∷ ("group", str "cn=rt-group-1,ou=AgentGroups")
        ∷ [];
    failed = ("profile", str "8") ∷ [];
  });
}

run_policy_effect_probe_check_passes_example :
    (probe.passed ≡ true)
    ↔ ((true ≡ true) × ((stages plain as_number api "effect-probe-1" 0).0 ≡ executed 200))
unfolding run_policy_effect_probe_check decimal
run_policy_effect_probe_check_passes_example =
    run_policy_effect_probe_check_passes plain as_number api "effect-probe-1" no_history no_sleep
      true 0 probe refl
