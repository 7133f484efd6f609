-- ===== src/Baseline/Diff.antt =====
-- The comparison of a baseline with the live platform: `_list_diff_details`, `_append_diff`,
-- `_summarize_diffs`, `_build_baseline_diff_payload` and `compare_with_golden_baseline`. The lists
-- of names and of identities hold texts; a list with anything else is taken to raise. Where both
-- payloads lack something, the one that is missed first may be another than in the source.
pub mod Tallies
pub mod Differences
pub mod Agreement
use liderahenk_test_platform.Base.{
  ℕ, ◌+◌, String, ◌<>◌, Bool, true, false, not, ◌&&◌, Option, none, some, List, [], ◌∷◌, ◌++◌, ◌==◌,
  length, select, contains, ltb, if◌then◌else◌,
}
use liderahenk_test_platform.Base.Sorted.{sorted_keys, from_keys, sorted}
use liderahenk_test_platform.Json.{
  Value, null, bool, num, str, arr, obj, Items, nil, cons, Fields, end, field, has, get, texts,
  value_eq,
}
use liderahenk_test_platform.Result.{Result, ok, err, ◌>>=◌, on_result}
use liderahenk_test_platform.Access.{as_mapping, get_or, at_key}
use liderahenk_test_platform.Baseline.{Contract}

pub record Details : Type 0 where
  pub baseline_count : ℕ
  pub current_count : ℕ
  pub missing_from_current : List String
  pub extra_in_current : List String

-- `_list_diff_details`
unfoldable pub list_diff_details : List String → List String → Details
unfolding from_keys sorted_keys
list_diff_details baseline current = record {
  baseline_count = length (from_keys baseline);
  current_count = length (from_keys current);
  missing_from_current =
      sorted_keys (select (λ a. not (contains (from_keys current) a)) (from_keys baseline));
  extra_in_current =
      sorted_keys (select (λ a. not (contains (from_keys baseline) a)) (from_keys current));
}

pub record Diff : Type 0 where
  pub code : String
  pub severity : String
  pub surface : String
  pub message : String
  pub baseline : Value
  pub current : Value
  pub details : Option Details

-- `_append_diff`: what it appends
unfoldable pub diff_of : String → String → String → Value → Value → Option Details → List Diff
unfolding value_eq
diff_of code surface message baseline current details =
    if value_eq baseline current
    then []
    else record {
      code = code;
      severity = "error";
      surface = surface;
      message = message;
      baseline = baseline;
      current = current;
      details = details;
    }
      ∷ []

-- The counts by severity, a `dict` of numbers.
abbrev pub Tally : Type 0
Tally = List (String × ℕ)

abbrev pub count_in : String → Tally → ℕ
count_in s [] = 0
count_in s ((j, n) ∷ r) = if j == s then n else count_in s r

-- `counts[s] = 0`, where the severity is new, and `counts[s] += 1`
unfoldable pub bump : String → Tally → Tally
bump s [] = (s, 1) ∷ []
bump s ((j, n) ∷ r) = let rest = bump s r in if j == s then (j, n + 1) ∷ r else (j, n) ∷ rest

-- `{severity: 0 for severity in severity_order}`: a name that is there twice is one key
abbrev zeros_of : List String → Tally
zeros_of [] = []
zeros_of (s ∷ r) = (s, 0) ∷ zeros_of r

unfoldable pub zeros : List String → Tally
unfolding from_keys
zeros order = zeros_of (from_keys order)

unfoldable pub tally : List Diff → Tally → Tally
unfolding bump
tally [] counts = counts
tally (d ∷ r) counts = tally r (bump d.severity counts)

unfoldable pub highest : List String → Tally → Option String
highest [] counts = none
highest (s ∷ r) counts =
    let rest = highest r counts in if ltb 0 (count_in s counts) then some s else rest

pub record Summary : Type 0 where
  pub total : ℕ
  pub counts : Tally
  pub blocking_severity : String
  pub blocking_count : ℕ
  pub highest_severity : Option String
  pub has_warnings : Bool
  pub has_info : Bool

-- `_summarize_diffs`
unfoldable pub summarize_diffs : List Diff → List String → String → Summary
unfolding zeros tally highest
summarize_diffs diffs order blocking =
    (let counts = tally diffs (zeros order) in
      record {
        total = length diffs;
        counts = counts;
        blocking_severity = blocking;
        blocking_count = count_in blocking counts;
        highest_severity = highest order counts;
        has_warnings = ltb 0 (count_in "warn" counts);
        has_info = ltb 0 (count_in "info" counts);
      })

-- Where the verdict of a comparison comes from.
pub data VerdictSource : Type 0 where
  artifact : VerdictSource
  artifact_invalid : VerdictSource
  artifact_missing : VerdictSource
  live_evaluated : VerdictSource

abbrev pub source_name : VerdictSource → String
source_name artifact = "artifact"
source_name artifact_invalid = "artifact-invalid"
source_name artifact_missing = "artifact-missing"
source_name live_evaluated = "live-evaluated"

abbrev fallback : String → String
fallback what =
    "Registration verdict artifact was "
    <> (what <> "; baseline diff used a live evaluation fallback.")

abbrev source_message : VerdictSource → String
source_message artifact_invalid = fallback "invalid"
source_message artifact_missing = fallback "missing"
source_message _ = fallback "unavailable"

unfoldable pub source_diffs : VerdictSource → List Diff
source_diffs artifact = []
source_diffs s =
    record {
      code = "registration_verdict_artifact_missing";
      severity = "warn";
      surface = "registration";
      message = source_message s;
      baseline = str "artifact";
      current = str (source_name s);
      details = none;
    }
    ∷ []

unfoldable pub text_list : Items → Result (List String)
text_list nil = ok []
text_list (cons (str s) r) = text_list r >>= λ xs. ok (s ∷ xs)
text_list (cons v r) = err "unhashable type"

unfoldable pub dns_in : Items → Result (List String)
unfolding at_key
dns_in nil = ok []
dns_in (cons entry r) = do
  dn ← at_key "dn" entry
  name ← elim dn [ str s ↦ ok s | _ ↦ err "unhashable type" ]
  rest ← dns_in r
  ok (name ∷ rest)

abbrev as_items : Value → Result Items
as_items (arr xs) = ok xs
as_items _ = err "object is not iterable"

-- `payload[path].get("entries", [])`, of which the names are read
unfoldable pub ldap_dns : Fields → Result (List String)
unfolding at_key as_mapping dns_in
ldap_dns payload = do
  tree ← at_key "ldap-tree.json" (obj payload)
  r ← as_mapping tree
  xs ← as_items (get_or "entries" (arr nil) r)
  dns_in xs

-- `payload[path].get("agentIds", [])`
unfoldable pub agent_ids : String → Fields → Result (List String)
unfolding at_key as_mapping text_list
agent_ids path payload = do
  capture ← at_key path (obj payload)
  r ← as_mapping capture
  xs ← as_items (get_or "agentIds" (arr nil) r)
  text_list xs

-- `payload["api-captures/dashboard.json"]["payload"]`
unfoldable pub dashboard_of : Fields → Result Fields
unfolding at_key as_mapping
dashboard_of payload = do
  capture ← at_key "api-captures/dashboard.json" (obj payload)
  dashboard ← at_key "payload" capture
  as_mapping dashboard

-- The surfaces that are compared.
pub record Surfaces : Type 0 where
  pub dns : List String
  pub config : Fields
  pub dashboard : Fields
  pub agents : List String
  pub tree : List String

unfoldable pub config_of : Fields → Result Fields
unfolding at_key as_mapping
config_of payload = do
  file ← at_key "config.json" (obj payload)
  r ← as_mapping file
  as_mapping (get_or "fields" (obj end) r)

unfoldable pub surfaces_of : Fields → Result Surfaces
unfolding ldap_dns config_of dashboard_of agent_ids
surfaces_of payload = do
  dns ← ldap_dns payload
  config ← config_of payload
  dashboard ← dashboard_of payload
  agents ← agent_ids "api-captures/agent-list.json" payload
  tree ← agent_ids "api-captures/computer-tree.json" payload
  ok (record { dns = dns; config = config; dashboard = dashboard; agents = agents; tree = tree })

-- One difference for each field of the baseline that the live configuration does not have so.
unfoldable pub config_diffs : Fields → Fields → List Diff
unfolding diff_of
config_diffs end live = []
config_diffs (field name v r) live =
    diff_of ("config_field:" <> name) "config"
      ("Runtime config field " <> (name <> " differs from the golden baseline.")) v (get name live)
      none
    ++ config_diffs r live

list_diff : String → String → String → List String → List String → List Diff
list_diff code surface message baseline live =
    diff_of code surface message (texts baseline) (texts live)
      (some (list_diff_details baseline live))

-- The differences, in the order in which they are appended.
unfoldable pub surface_diffs : Surfaces → Surfaces → Value → List Diff
unfolding list_diff config_diffs diff_of list_diff_details
surface_diffs b l verdict_status =
    list_diff "ldap_entry_dns" "ldap" "LDAP distinguished names differ from the golden baseline."
      b.dns l.dns
    ++ (config_diffs b.config l.config
        ++ (diff_of "dashboard_total" "dashboard"
              "Dashboard total computer count differs from the golden baseline."
              (get "totalComputerNumber" b.dashboard) (get "totalComputerNumber" l.dashboard) none
            ++ (diff_of "dashboard_online" "dashboard"
                  "Dashboard online computer count differs from the golden baseline."
                  (get "totalOnlineComputerNumber" b.dashboard)
                  (get "totalOnlineComputerNumber" l.dashboard) none
                ++ (list_diff "agent_list_identities" "agent-list"
                      "Agent inventory identities differ from the golden baseline." b.agents
                      l.agents
                    ++ (list_diff "computer_tree_identities" "computer-tree"
                          "Computer tree identities differ from the golden baseline." b.tree l.tree
                        ++ diff_of "registration_verdict_status" "registration"
                            "Registration verdict is not pass for the current run." (str "pass")
                            verdict_status none)))))

pub record BaselineDiff : Type 0 where
  pub status : String
  pub blocking_severity : String
  pub severity_order : List String
  pub baseline_name : Value
  pub baseline_captured_at : Value
  pub baseline_source : Value
  pub verdict_source : VerdictSource
  pub runtime_profile : Value
  pub expected_agents : Value
  pub summary : Summary
  pub diffs : List Diff
  pub verdict : Fields

abbrev pub blocking_of : Contract → String
blocking_of c = elim c.blocking_severity [ none ↦ "error" | some s ↦ s ]

abbrev pub order_of : Contract → List String
order_of c = elim c.severity_order [ none ↦ "error" ∷ "warn" ∷ "info" ∷ [] | some o ↦ o ]

unfoldable pub diff_payload : Contract → Fields → List Diff → Fields → VerdictSource → BaselineDiff
unfolding summarize_diffs
diff_payload c manifest diffs verdict source =
    (let summary = summarize_diffs diffs (order_of c) (blocking_of c) in
      record {
        status = if ltb 0 summary.blocking_count then "fail" else "pass";
        blocking_severity = blocking_of c;
        severity_order = order_of c;
        baseline_name = get "baselineName" manifest;
        baseline_captured_at = get "capturedAt" manifest;
        baseline_source = get "source" manifest;
        verdict_source = source;
        runtime_profile = get "runtimeProfile" verdict;
        expected_agents = get "expectedAgents" verdict;
        summary = summary;
        diffs = diffs;
        verdict = verdict;
      })

-- `_build_baseline_diff_payload`
unfoldable pub build_baseline_diff_payload :
    Contract → Fields → Fields → Value → VerdictSource → Result BaselineDiff
unfolding surfaces_of source_diffs surface_diffs diff_payload as_mapping
build_baseline_diff_payload c baseline live live_verdict source = do
  b ← surfaces_of baseline
  l ← surfaces_of live
  verdict ← as_mapping live_verdict
  manifest ← as_mapping (get_or "manifest.json" (obj end) baseline)
  ok (
      diff_payload c manifest (source_diffs source ++ surface_diffs b l (get "status" verdict))
        verdict source)

-- What `verdict_path` is: not given, missing, or a file with what reading it gives.
pub data VerdictFile : Type 0 where
  not_given : VerdictFile
  absent : VerdictFile
  present : Result Value → VerdictFile

abbrev pub chosen_verdict : VerdictFile → Value → Value × VerdictSource
chosen_verdict not_given live = (live, live_evaluated)
chosen_verdict absent live = (live, artifact_missing)
chosen_verdict (present (ok v)) live = (v, artifact)
chosen_verdict (present (err e)) live = (live, artifact_invalid)

-- `compare_with_golden_baseline`, from the baseline that is loaded, the live payload and the live
-- evaluation; each of them may raise, and they run in this order.
unfoldable pub compare_with_golden_baseline :
    Contract → Result Fields → Result Fields → Result Value → VerdictFile → Result BaselineDiff
unfolding build_baseline_diff_payload
compare_with_golden_baseline c load collect evaluate file = do
  baseline ← load
  live ← collect
  evaluated ← evaluate
  build_baseline_diff_payload c baseline live (chosen_verdict file evaluated).0
      (chosen_verdict file evaluated).1
