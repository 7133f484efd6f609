-- ===== src/Tests/Registration.antt =====
-- The registration run at the data of Tests/Data.antt.
use liderahenk_test_platform.Base.{
  ℕ, zero, suc, ◌+◌, ◌*◌, ◌≤◌, String, ◌≡◌, ◌≢◌, refl, ◌⊎◌, ◌↔◌, Bool, true, false, List, [], ◌∷◌,
  arith, contains, length, All,
}
use liderahenk_test_platform.Base.Gives.{Gives}
use liderahenk_test_platform.Json.{
  pos, str, arr, nil, obj, nat, end, fields, value_eq, texts, from_items,
}
use liderahenk_test_platform.Result.{ok}
use liderahenk_test_platform.Base.Sorted.Subset.{IsSubset}
use liderahenk_test_platform.Snapshot.{Snapshot, collect_snapshot}
use liderahenk_test_platform.Snapshot.Sorting.{IsSortedSnapshot}
use liderahenk_test_platform.Snapshot.Collected.{
  Payloads, answers, IsCollected, collect_snapshot-IsCollected,
}
use liderahenk_test_platform.Verdict.{
  all_set, names_of, checks_of, taxonomy_of, agent_state, evaluate_snapshot,
}
use liderahenk_test_platform.Verdict.Failures.{evaluate_snapshot_consistent}
use liderahenk_test_platform.Verdict.Parity.{IsParity, evaluate_snapshot_pass}
use liderahenk_test_platform.Verdict.Agents.{
  ids_of, pass_agents_ready, pass_agents_counted, pass_with_stranger,
}
use liderahenk_test_platform.Evidence.{all_truthy, run_id_of, validate_registration_evidence}
use liderahenk_test_platform.Evidence.Sound.{IsGoodEvent, IsOneRun, accepted_pass, accepted_one_run}
use liderahenk_test_platform.Evidence.Accepts.Verdicts.{written}
use liderahenk_test_platform.Evidence.Accepts.Bundles.{
  bundle_of, IsVerdictOf, validate-write_artifacts,
}
use liderahenk_test_platform.Evidence.Contract.{
  missing, parsed, lines, load_json, load_lines, load_events,
}
use liderahenk_test_platform.Artifacts.{
  RunManifest, Verdict, manifest_file, flags_json, taxonomy_json, agents_json, verdict_json,
  build_failure_summary, event_json,
}
use liderahenk_test_platform.Orchestrator.{
  IsClock, init, empty_snapshot, verdict_of, write_artifacts, collect_verdict, settle_registration,
  run_for,
}
use liderahenk_test_platform.Orchestrator.Rounds.{
  NoStrangers, collect_verdict-IsVerdictOf, init-IsKept, IsAccepted,
}
use liderahenk_test_platform.Orchestrator.Settle.{settle_registration_ends, run_for-IsAccepted}
use liderahenk_test_platform.Tests.Data.{plain, tree, late_api, manifest, snapshot_with}

late_api-IsClock : IsClock late_api
late_api-IsClock = record {
  second_pos = omega arith;
  sleep_lasts = λ d w. omega arith;
  observe_lasts = lasts;
}
  where
    lasts : (w : ℕ) → w ≤ (late_api.observe w).2
    lasts zero = omega arith
    lasts (suc n) = omega arith

no_strangers :
    (m : RunManifest) (timed_out : Bool) (w : ℕ)
    → NoStrangers (collect_verdict plain plain late_api m timed_out w).0
unfolding collect_verdict verdict_of collect_snapshot empty_snapshot
no_strangers m timed_out zero = λ passes a h. h
no_strangers m timed_out (suc n) = λ passes a h. h

settle_registration_ends_example :
    Gives
      (λ (v, s, w').
        IsAccepted plain missing missing manifest v s
        × ((v.evaluation.status ≡ "pass") ⊎ (0 + 3 * 10 ≤ w')))
      (settle_registration plain plain late_api 4 (init manifest) 0)
unfolding load_json
settle_registration_ends_example =
    settle_registration_ends plain plain missing missing refl refl late_api late_api-IsClock
      manifest (omega arith) no_strangers (omega arith) 0

run_for-IsAccepted_example :
    Gives
      (λ r. (v : Verdict) × IsAccepted plain missing missing manifest v r.0)
      (run_for plain plain late_api 15 4 2 (init manifest) 0)
unfolding load_json
run_for-IsAccepted_example =
    run_for-IsAccepted plain plain missing missing refl refl late_api late_api-IsClock manifest
      (omega arith) no_strangers (omega arith) 15 2 0

abbrev pub verdict : Verdict
verdict = (collect_verdict plain plain late_api manifest false 1).0

pub verdict-IsVerdictOf : IsVerdictOf manifest verdict
verdict-IsVerdictOf =
    collect_verdict-IsVerdictOf plain plain late_api manifest false 1
      (no_strangers manifest false 1)

pub validated :
    validate_registration_evidence plain
      (bundle_of (write_artifacts verdict 1 "settle" (init manifest)).files missing missing)
    ≡ ok (record {
      valid = true;
      run_id = str "run-1";
      required = 4;
      event_count = 1;
      status = str verdict.evaluation.status;
      errors = [];
    })
unfolding load_json init
validated =
    validate-write_artifacts plain (init manifest) verdict 1 "settle" verdict-IsVerdictOf
      (init-IsKept manifest).log (omega arith) refl missing missing (omega arith) refl refl

validate-write_artifacts_example :
    validate_registration_evidence plain
      (bundle_of (write_artifacts verdict 1 "settle" (init manifest)).files missing missing)
    ≡ ok (record {
      valid = true;
      run_id = str "run-1";
      required = 4;
      event_count = 1;
      status = str verdict.evaluation.status;
      errors = [];
    })
unfolding load_json init
validate-write_artifacts_example =
    validate-write_artifacts plain (init manifest) verdict 1 "settle" verdict-IsVerdictOf
      (init-IsKept manifest).log (omega arith) refl missing missing (omega arith) refl refl

evaluate_snapshot_pass_example :
    ((evaluate_snapshot (snapshot_with ("ahenk-001" ∷ [])) true []).status ≡ "pass")
    ↔ (◌≡◌ {A = List String} [] [] × IsParity (snapshot_with ("ahenk-001" ∷ [])))
evaluate_snapshot_pass_example = evaluate_snapshot_pass (snapshot_with ("ahenk-001" ∷ [])) true []

evaluate_snapshot_consistent_example :
    (((evaluate_snapshot (snapshot_with []) true []).status ≡ "pass")
      × (all_set (evaluate_snapshot (snapshot_with []) true []).checks ≡ true)
      × ((evaluate_snapshot (snapshot_with []) true []).failed_checks ≡ [])
      × ((evaluate_snapshot (snapshot_with []) true []).taxonomy ≡ []))
    ⊎ (((evaluate_snapshot (snapshot_with []) true []).status ≡ "fail")
        × ((evaluate_snapshot (snapshot_with []) true []).taxonomy ≢ []))
evaluate_snapshot_consistent_example = evaluate_snapshot_consistent (snapshot_with []) true []

sorted_with : (user : String) → IsSortedSnapshot (snapshot_with (user ∷ []))
sorted_with user = record {
  ldap = (tt, tt);
  registered = (tt, tt);
  connected = (tt, tt);
  c_agents = (tt, tt);
  domain = (tt, tt);
  tree = (tt, tt);
}

passes_with :
    (user : String) → (evaluate_snapshot (snapshot_with (user ∷ [])) false []).status ≡ "pass"
passes_with user = (evaluate_snapshot_pass (snapshot_with (user ∷ [])) false []).1 (
  refl,
  record {
    expected = refl;
    registered = refl;
    c_agents = refl;
    domain = refl;
    tree = refl;
    connected = refl;
    total = unfold value_eq in refl;
    online = unfold value_eq in refl;
  },
)

pass_agents_ready_example :
    (ids_of (evaluate_snapshot (snapshot_with ("ahenk-001" ∷ [])) false []).per_agent
      ≡ "ahenk-001" ∷ [])
    × All
        (λ st. st.highest_state ≡ "domain_ready")
        (evaluate_snapshot (snapshot_with ("ahenk-001" ∷ [])) false []).per_agent
    × (pos (length (evaluate_snapshot (snapshot_with ("ahenk-001" ∷ [])) false []).per_agent)
        ≡ pos 1)
pass_agents_ready_example =
    pass_agents_ready (snapshot_with ("ahenk-001" ∷ [])) false [] (sorted_with "ahenk-001")
      (passes_with "ahenk-001") (λ a h. h)

pass_agents_counted_example :
    (pos (length (evaluate_snapshot (snapshot_with ("ahenk-001" ∷ [])) false []).per_agent) ≡ pos 1)
    ↔ IsSubset ("ahenk-001" ∷ []) ("ahenk-001" ∷ [])
pass_agents_counted_example =
    pass_agents_counted (snapshot_with ("ahenk-001" ∷ [])) false [] (sorted_with "ahenk-001")
      (passes_with "ahenk-001")

-- An administrator's client is connected in place of the agent.
pass_with_stranger_example :
    (contains (ids_of (evaluate_snapshot (snapshot_with ("admin" ∷ [])) false []).per_agent) "admin"
      ≡ true)
    × ((agent_state (snapshot_with ("admin" ∷ [])) "admin").highest_state ≡ "register_sent")
    × (pos (length (evaluate_snapshot (snapshot_with ("admin" ∷ [])) false []).per_agent) ≢ pos 1)
pass_with_stranger_example =
    pass_with_stranger (snapshot_with ("admin" ∷ [])) false [] (sorted_with "admin")
      (passes_with "admin") "admin" refl refl

-- What all surfaces answer, with the server's own account among the registered users.
abbrev payloads : Payloads
payloads = record {
  dashboard = obj (fields (("totalComputerNumber", nat 1) ∷ []));
  agents = obj (fields (("jid", str "ahenk-001@liderahenk.org") ∷ [])) ∷ [];
  tree = tree;
  entries =
      obj (fields (("attrs", obj (fields (("cn", texts ("ahenk-001" ∷ [])) ∷ []))) ∷ [])) ∷ [];
  registered = str "ahenk-001" ∷ str "lider_sunucu" ∷ [];
  connected = str "ahenk-001@liderahenk.org/ahenk" ∷ [];
  rows = obj (fields (("hostname", str "ahenk-001-host") ∷ [])) ∷ [];
  config = obj end;
}

collect_snapshot-IsCollected_example :
    (t : Snapshot) × (collect_snapshot plain plain "dev-fast"
        (pos 1)
        "2026-01-01T00:00:09Z"
        (answers payloads)
      ≡ ok t)
    × IsCollected plain plain payloads t
collect_snapshot-IsCollected_example =
    collect_snapshot-IsCollected plain plain "dev-fast" (pos 1) "2026-01-01T00:00:09Z" payloads

accepted_one_run_example :
    IsOneRun plain
      (manifest_file (written manifest verdict 1))
      (verdict_json verdict)
      (build_failure_summary (written manifest verdict 1) verdict)
      (lines (parsed (obj (event_json (written manifest verdict 1) verdict 1 "settle")) ∷ []))
      missing
      missing
    × All
        (IsGoodEvent plain (str "run-1"))
        (event_json (written manifest verdict 1) verdict 1 "settle" ∷ [])
unfolding load_json load_events load_lines write_artifacts init run_id_of
accepted_one_run_example =
    accepted_one_run plain (manifest_file (written manifest verdict 1)) (verdict_json verdict)
      (build_failure_summary (written manifest verdict 1) verdict)
      (lines (parsed (obj (event_json (written manifest verdict 1) verdict 1 "settle")) ∷ []))
      missing missing _ validated refl

accepted_pass_example :
    (all_truthy (flags_json verdict.evaluation.checks) ≡ true)
    × (texts verdict.evaluation.failed_checks ≡ arr nil)
    × (arr (taxonomy_json verdict.evaluation.taxonomy) ≡ arr nil)
    × (length (from_items (agents_json verdict.evaluation.per_agent)) ≡ 1)
unfolding load_json load_events write_artifacts init collect_verdict collect_snapshot value_eq
    verdict_of evaluate_snapshot taxonomy_of names_of checks_of
accepted_pass_example =
    accepted_pass plain (manifest_file (written manifest verdict 1)) (verdict_json verdict)
      (build_failure_summary (written manifest verdict 1) verdict)
      (lines (parsed (obj (event_json (written manifest verdict 1) verdict 1 "settle")) ∷ []))
      missing missing _ (flags_json verdict.evaluation.checks)
      (agents_json verdict.evaluation.per_agent) 0 validated refl refl refl refl refl
