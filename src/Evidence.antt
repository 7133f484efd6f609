-- ===== src/Evidence.antt =====
-- The validator of registration evidence, platform_runtime/registration_evidence.py, with the
-- contract platform/contracts/registration-evidence.yaml. The messages are the source's texts;
-- `repr` is what an f-string prints of a list or a `dict`. A test `v in {…}` raises a `TypeError`
-- where `v` is a list or a `dict`, so the whole check may raise.
pub mod Contract
pub mod States
pub mod Accepts
pub mod Clean
pub mod Sound
use liderahenk_test_platform.Base.{
  ℕ, zero, suc, ◌+◌, String, ◌<>◌, Bool, true, false, not, ◌&&◌, ◌||◌, Option, none, some, List, [],
  ◌∷◌, ◌++◌, ◌==◌, length, is_nil, contains, if◌then◌else◌,
}
use liderahenk_test_platform.Base.Text.{decimal}
use liderahenk_test_platform.Base.Sorted.{sorted_keys}
use liderahenk_test_platform.Json.{
  ℤ, pos, Value, null, bool, num, str, arr, obj, Fields, end, field, from_items, has, get, lookup,
  truthy, or_else, is_null, is_dict, is_list, is_bool, as_int, int_ltb, int_eq, value_eq, texts,
  nat,
}
use liderahenk_test_platform.Result.{Result, ok, err, ◌>>=◌}
use Contract.{
  Errors, ◌<+>◌, when, in_set, require_fields, File, missing, broken, parsed, load_json, Log,
  no_log, lines, load_events, required_artifacts, run_manifest_required_fields,
  registration_verdict_required_fields, failure_summary_required_fields,
  registration_event_required_fields, event_phases, registration_states,
}
use States.{validate_per_agent_states}

-- The files of the bundle. The two runtime reports are optional context.
pub record Bundle : Type 0 where
  pub run_manifest : File
  pub registration_verdict : File
  pub registration_events : Log
  pub failure_summary : File
  pub core_report : File
  pub operational_report : File

exists_file : File → Bool
exists_file missing = false
exists_file _ = true

exists_log : Log → Bool
exists_log no_log = false
exists_log (lines _) = true

unfoldable pub artifact_errors : Bundle → List String
unfolding exists_file exists_log
artifact_errors b =
    when (not (exists_file b.run_manifest)) "missing evidence artifact: run-manifest.json"
    ++ (when (not (exists_file b.registration_verdict))
          "missing evidence artifact: registration-verdict.json"
        ++ (when (not (exists_log b.registration_events))
              "missing evidence artifact: registration-events.jsonl"
            ++ when (not (exists_file b.failure_summary))
                "missing evidence artifact: failure-summary.json"))

bad_seconds : Value → Bool
bad_seconds v = elim (as_int v) [ none ↦ true | some n ↦ int_ltb n (pos 0) ]

backwards : Value → Value → Bool
backwards a b = elim (as_int a) [
  | none ↦ false
  | some m ↦ elim (as_int b) [ none ↦ false | some n ↦ int_ltb n m ]
]

-- `if run_manifest is not None:` the backoff
unfoldable pub backoff_errors : Option Fields → List String
unfolding bad_seconds backwards
backoff_errors none = []
backoff_errors (some m) =
    let backoff = get "backoff" m in
    let low = lookup "minSeconds" backoff in
    let high = lookup "maxSeconds" backoff in
    if is_dict backoff
    then when (bad_seconds low)
        "run-manifest.json: backoff.minSeconds must be a non-negative integer"
      ++ (when (bad_seconds high)
            "run-manifest.json: backoff.maxSeconds must be a non-negative integer"
          ++ when (backwards low high)
              "run-manifest.json: backoff.minSeconds cannot exceed backoff.maxSeconds")
    else "run-manifest.json: backoff must be an object" ∷ []

abbrev is_status : Value → String → Bool
is_status v s = value_eq v (str s)

-- `for check_name, value in verdict["checks"].items()`
unfoldable pub check_value_errors : Fields → List String
check_value_errors end = []
check_value_errors (field name v r) =
    when (not (is_bool v)) ("registration-verdict.json: check " <> (name <> " must be boolean"))
    ++ check_value_errors r

unfoldable pub shape_errors : Fields → List String
shape_errors v =
    elim (get "checks" v) [
      | obj checks ↦ check_value_errors checks
      | _ ↦ "registration-verdict.json: checks must be an object" ∷ []
    ]
    ++ (when (not (is_list (get "failedChecks" v)))
          "registration-verdict.json: failedChecks must be an array"
        ++ (when (not (is_list (get "taxonomy" v)))
              "registration-verdict.json: taxonomy must be an array"
            ++ when (not (is_dict (get "surfaces" v)))
                "registration-verdict.json: surfaces must be an object"))

-- `isinstance(expected, int) and expected > 0 and len(perAgent) != expected`
unfoldable pub miscounted : Value → ℕ → Bool
miscounted expected count = elim (as_int expected) [
  | none ↦ false
  | some n ↦ int_ltb (pos 0) n && not (int_eq (pos count) n)
]

-- `all(checks.values())`
abbrev pub all_truthy : Fields → Bool
all_truthy end = true
all_truthy (field _ v r) = truthy v && all_truthy r

abbrev pub checks_fail : Value → Bool
checks_fail (obj checks) = not (all_truthy checks)
checks_fail _ = false

-- What a verdict that passes must not contain.
unfoldable pub pass_errors : Fields → List String
pass_errors v =
    when (checks_fail (get "checks" v))
      "registration-verdict.json: pass verdict contains failed checks"
    ++ (when (is_list (get "failedChecks" v) && truthy (get "failedChecks" v))
          "registration-verdict.json: pass verdict must not contain failedChecks"
        ++ when (is_list (get "taxonomy" v) && truthy (get "taxonomy" v))
            "registration-verdict.json: pass verdict must not contain taxonomy entries")

module _ (repr : Value → String) where
  abbrev pub agent_list_errors : Value → Fields → Errors
  agent_list_errors (arr agents) v =
      validate_per_agent_states repr (from_items agents)
      <+> ok (
          when
            (is_status (get "status" v) "pass"
              && miscounted (get "expectedAgents" v) (length (from_items agents)))
            "registration-verdict.json: perAgent count does not match expectedAgents for pass verdict")
  agent_list_errors _ v = ok ("registration-verdict.json: perAgent must be an array" ∷ [])

  unfoldable pub agent_errors : Fields → Errors
  agent_errors v = agent_list_errors (get "perAgent" v) v

  -- `if verdict is not None:` the verdict by itself
  unfoldable pub verdict_errors : Option Fields → Errors
  verdict_errors none = ok []
  verdict_errors (some v) =
      (do
        known ← in_set (get "status" v) ("pass" ∷ "fail" ∷ [])
        ok (when (not known) "registration-verdict.json: status must be pass or fail"))
      <+> (ok (shape_errors v)
          <+> (agent_errors v
              <+> ok (if is_status (get "status" v) "pass" then pass_errors v else [])))

abbrev pub differ : Value → Value → Bool
differ a b = not (value_eq a b)

-- `m.get(k) is not None and m.get(k) != w`
abbrev pub stale : Value → Value → Bool
stale v w = not (is_null v) && differ v w

-- The run's identity: that of the manifest, or else that of the verdict.
unfoldable pub run_id_of : Option Fields → Option Fields → Value
run_id_of m none = elim m [ none ↦ null | some r ↦ get "runId" r ]
run_id_of none (some v) = get "runId" v
run_id_of (some m) (some v) = if is_null (get "runId" m) then get "runId" v else get "runId" m

-- The verdict against the manifest.
unfoldable pub manifest_verdict_errors : Option Fields → Option Fields → List String
manifest_verdict_errors (some m) (some v) =
    when (stale (get "runId" m) (get "runId" v))
      "registration-verdict.json: runId does not match run-manifest.json"
    ++ (when (differ (get "expectedAgents" v) (get "expectedAgents" m))
          "registration-verdict.json: expectedAgents does not match run-manifest.json"
        ++ (when (differ (get "runtimeProfile" v) (get "runtimeProfile" m))
              "registration-verdict.json: runtimeProfile does not match run-manifest.json"
            ++ (when (stale (get "lastStatus" m) (get "status" v))
                  "run-manifest.json: lastStatus does not match registration-verdict.json"
                ++ when (stale (get "lastVerdictAt" m) (get "capturedAt" v))
                    "run-manifest.json: lastVerdictAt does not match registration-verdict.json")))
manifest_verdict_errors _ _ = []

-- The failure summary against the verdict.
unfoldable pub summary_errors : Option Fields → Option Fields → List String
summary_errors (some f) (some v) =
    when (differ (get "runId" f) (get "runId" v))
      "failure-summary.json: runId does not match registration-verdict.json"
    ++ (when (differ (get "status" f) (get "status" v))
          "failure-summary.json: status does not match registration-verdict.json"
        ++ (when (differ (get "failedChecks" f) (get "failedChecks" v))
              "failure-summary.json: failedChecks does not match registration-verdict.json"
            ++ when (differ (get "taxonomy" f) (get "taxonomy" v))
                "failure-summary.json: taxonomy does not match registration-verdict.json"))
summary_errors _ _ = []

-- `not isinstance(attempt, int) or attempt <= 0`
bad_attempt : Value → Bool
bad_attempt v = elim (as_int v) [ none ↦ true | some n ↦ not (int_ltb (pos 0) n) ]

module _ (repr : Value → String) where
  -- One event, under its label.
  unfoldable pub event_errors : Value → String → Fields → Errors
  unfolding bad_attempt
  event_errors run_id label ev =
      ok (require_fields (some ev) registration_event_required_fields label)
      <+> (ok (
            when (not (is_null run_id) && differ (get "runId" ev) run_id)
              (label <> ": runId does not match bundle runId"))
          <+> ((do
            known ← in_set (get "phase" ev) event_phases
            ok (
                when (not known) (
                  label <> (": phase must be one of " <> repr (texts (sorted_keys event_phases))))))
              <+> ((do
                known ← in_set (get "status" ev) ("pass" ∷ "fail" ∷ [])
                ok (when (not known) (label <> ": status must be pass or fail")))
                  <+> ok (
                      when (bad_attempt (get "attempt" ev))
                        (label <> ": attempt must be a positive integer")
                      ++ (when (not (is_list (get "failedChecks" ev)))
                            (label <> ": failedChecks must be an array")
                          ++ when (not (is_list (get "taxonomy" ev)))
                              (label <> ": taxonomy must be an array"))))))

  -- `for index, event in enumerate(events, start=1)`
  unfoldable pub events_errors : Value → ℕ → List Fields → Errors
  events_errors run_id index [] = ok []
  events_errors run_id index (ev ∷ r) =
      event_errors run_id ("registration-events.jsonl:" <> decimal index) ev
      <+> events_errors run_id (index + 1) r

-- `last_attempt` and `last_event_status` after the loop: null where there was no event.
unfoldable pub last_of : String → List Fields → Value
last_of k [] = null
last_of k (ev ∷ []) = get k ev
last_of k (ev ∷ ev' ∷ r) = last_of k (ev' ∷ r)

unfoldable pub last_event_errors : Option Fields → Option Fields → List Fields → List String
last_event_errors m v events =
    elim m [
      | none ↦ []
      | some r ↦
          when
            (not (is_null (last_of "attempt" events))
              && stale (get "attemptCount" r) (last_of "attempt" events))
            "run-manifest.json: attemptCount does not match last event attempt"
    ]
    ++ elim v [
      | none ↦ []
      | some r ↦
          when (stale (last_of "status" events) (get "status" r))
            "registration-verdict.json: status does not match last event status"
    ]

pub record Report : Type 0 where
  pub valid : Bool
  pub run_id : Value
  pub required : ℕ
  pub event_count : ℕ
  pub status : Value
  pub errors : List String

module _ (repr : Value → String) where
  -- Every message, in the source's order.
  unfoldable pub evidence_errors : Bundle → Errors
  evidence_errors b =
      let (m, m_errors) = load_json "run-manifest.json" b.run_manifest in
      let (v, v_errors) = load_json "registration-verdict.json" b.registration_verdict in
      let (f, f_errors) = load_json "failure-summary.json" b.failure_summary in
      let (events, log_errors) = load_events b.registration_events in
      ok (artifact_errors b ++ (m_errors ++ (v_errors ++ (f_errors ++ log_errors))))
      <+> (ok (
            require_fields m run_manifest_required_fields "run-manifest.json"
            ++ (require_fields v registration_verdict_required_fields "registration-verdict.json"
                ++ require_fields f failure_summary_required_fields "failure-summary.json"))
          <+> (ok (backoff_errors m)
              <+> (verdict_errors repr v
                  <+> (ok (manifest_verdict_errors m v ++ summary_errors f v)
                      <+> (events_errors repr (run_id_of m v) 1 events
                          <+> ok (
                              last_event_errors m v events
                              ++ ((load_json "runtime-core-report.json" b.core_report).1
                                  ++ (load_json "runtime-operational-report.json"
                                      b.operational_report).1)))))))

  -- `validate_registration_evidence`
  unfoldable pub validate_registration_evidence : Bundle → Result Report
  validate_registration_evidence b = do
    errors ← evidence_errors b
    let m = (load_json "run-manifest.json" b.run_manifest).0
    let v = (load_json "registration-verdict.json" b.registration_verdict).0
    ok (record {
      valid = is_nil errors;
      run_id = run_id_of m v;
      required = length required_artifacts;
      event_count = length (load_events b.registration_events).0;
      status = elim v [ none ↦ null | some r ↦ get "status" r ];
      errors = errors;
    })
