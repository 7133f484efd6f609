-- ===== src/Tests/Baselines.antt =====
-- The golden baseline at concrete inputs.
use liderahenk_test_platform.Base.{
  String, ◌≡◌, refl, Bool, true, false, ◌&&◌, none, some, [], ◌∷◌, ◌==◌, arith, if◌then◌else◌, inr,
}
use liderahenk_test_platform.Json.{
  ℤ, pos, Value, null, str, arr, obj, nil, Fields, end, fields, get,
}
use liderahenk_test_platform.Result.{Result, ok}
use liderahenk_test_platform.ComputerTree.{Nodes}
use liderahenk_test_platform.Baseline.{Contract, Store, Dir, required_relative_paths}
use liderahenk_test_platform.Baseline.Validate.{Validation, validate_golden_baseline}
use liderahenk_test_platform.Baseline.Validate.Messages.{baseline_ok, is_ok, files_ok, config_at}
use liderahenk_test_platform.Baseline.Valid.{
  validate_golden_baseline-valid, validate_golden_baseline_no_object,
}
use liderahenk_test_platform.Baseline.Capture.{
  Capture, Environ, is_complete, capture_golden_baseline, apply_capture_environment,
}
use liderahenk_test_platform.Baseline.Secrets.{exposes, captured, config_fields_hide}
use liderahenk_test_platform.Baseline.Frame.{capture_golden_baseline_frame}
use liderahenk_test_platform.Baseline.Complete.{IsStore, registry, Platform, answered}
use liderahenk_test_platform.Baseline.RoundTrip.{IsAnswered, capture_golden_baseline_valid}
use liderahenk_test_platform.Baseline.Protect.{capture_golden_baseline_protects}
use liderahenk_test_platform.Tests.Data.{plain}

-- A disk on which a file is its data.
abbrev disk : Store
disk = record {
  Blob = Value;
  size = λ v. 1;
  sha256 = λ v. "00";
  loads = λ v. ok v;
  dumps = λ v. v;
  encode = λ s. str s;
  canonical = λ v. "{}";
}

disk-IsStore : IsStore disk
disk-IsStore = record { loads_dumps = λ v c. refl; dumps_parses = λ v. refl }

abbrev pub contract : Contract
contract = record {
  source_kind = "stock-liderahenk-install";
  baseline_name_env = "GOLDEN_BASELINE_NAME";
  manifest = "manifest.json";
  ldap_tree = "ldap-tree.json";
  config = "config.json";
  api_captures = [];
  ui_evidence = [];
  manifest_required_fields = "status" ∷ "files" ∷ [];
  critical_runtime_fields = "ldapRootDn" ∷ "ldapPassword" ∷ [];
  secret_runtime_fields = "ldapPassword" ∷ "mailPassword" ∷ [];
  severity_order = none;
  blocking_severity = none;
}

abbrev secrets : Fields
secrets = fields (("ldapRootDn", str "dc=liderahenk,dc=org") ∷ ("ldapPassword", str "1") ∷ [])

abbrev stock : Platform Value
stock = record {
  dashboard = null;
  agents = [];
  tree = (arr nil, Nodes.nil);
  entries = [];
  payload = secrets;
  dashboard_png = null;
  computer_management_png = null;
}

abbrev no_environ : Environ
no_environ name = none

abbrev port_of : String → Result ℤ
port_of s = ok (pos 1389)

abbrev request : Bool → Capture Value
request confirmed = record {
  source_label = none;
  env_file = none;
  force = false;
  confirm_stock_source = confirmed;
  host = "lab";
  now = "2025-01-01T00:00:00+00:00";
  environ = no_environ;
  answers = λ e. answered stock;
}

abbrev empty_dir : Dir disk
empty_dir path = none

stock-IsAnswered :
    IsAnswered disk plain port_of contract (request true) stock no_environ (pos 1389) (pos 1389)
unfolding apply_capture_environment
stock-IsAnswered = record {
  applied = refl;
  answers = refl;
  ldap_port = refl;
  mysql_port = refl;
  dashboard_png = omega arith;
  computer_management_png = omega arith;
  payload = (refl, tt, (refl, tt, tt));
}

capture_golden_baseline_valid_example :
    (v : Validation) × ((capture_golden_baseline disk plain port_of
        (registry contract)
        (request true)
        empty_dir).0
      ≡ ok v)
    × (v.valid ≡ true)
    × (v.status ≡ "pass")
unfolding is_complete
capture_golden_baseline_valid_example =
    capture_golden_baseline_valid disk plain port_of contract (request true) stock no_environ
      (pos 1389) (pos 1389) empty_dir disk-IsStore stock-IsAnswered refl refl (inr refl)

-- A capture of other answers over the one above.
abbrev changed : Capture Value
changed = record {
  source_label = some "other";
  env_file = none;
  force = false;
  confirm_stock_source = true;
  host = "elsewhere";
  now = "2026-01-01T00:00:00+00:00";
  environ = no_environ;
  answers = λ e. answered stock;
}

capture_golden_baseline_protects_example :
    (is_ok
        (capture_golden_baseline disk plain port_of (registry contract) changed (
          (capture_golden_baseline disk plain port_of
            (registry contract)
            (request true)
            empty_dir).1)).0
      ≡ false)
    × ((capture_golden_baseline disk plain port_of (registry contract) changed (
          (capture_golden_baseline disk plain port_of
            (registry contract)
            (request true)
            empty_dir).1)).1
        ≡ (capture_golden_baseline disk plain port_of
            (registry contract)
            (request true)
            empty_dir).1)
unfolding is_complete
capture_golden_baseline_protects_example =
    capture_golden_baseline_protects disk plain port_of contract (request true) stock no_environ
      (pos 1389) (pos 1389) empty_dir changed disk-IsStore stock-IsAnswered refl (inr refl) refl

capture_golden_baseline_frame_example :
    (capture_golden_baseline disk plain port_of contract (request true) empty_dir).1 "notes.txt"
    ≡ none
capture_golden_baseline_frame_example =
    capture_golden_baseline_frame disk "notes.txt" plain port_of contract (request true) empty_dir
      refl

config_fields_hide_example : exposes (get "ldapPassword" (captured disk contract secrets)) ≡ false
config_fields_hide_example = config_fields_hide disk contract secrets "ldapPassword" refl

abbrev entries_file : Value
entries_file = obj (fields (("fields", obj end) ∷ []))

-- A directory in which every file but the configuration is an empty list.
abbrev lists : Dir disk
lists path = if path == "config.json" then some entries_file else some (arr nil)

abbrev bare : Contract
bare = record contract { critical_runtime_fields = []; secret_runtime_fields = [] }

abbrev list_report : Validation
list_report = record { status = "pass"; manifest_status = null; valid = true; errors = [] }

validate_golden_baseline-valid_example : true ≡ baseline_ok disk bare lists
unfolding validate_golden_baseline
validate_golden_baseline-valid_example =
    validate_golden_baseline-valid disk bare lists list_report refl

validate_golden_baseline_no_object_example :
    (true ≡ (
      files_ok disk lists (required_relative_paths bare)
      && config_at disk bare (lists "config.json")))
    × (◌≡◌ {A = Value} null null)
unfolding validate_golden_baseline
validate_golden_baseline_no_object_example =
    validate_golden_baseline_no_object disk bare lists (arr nil) (arr nil) list_report refl refl
      refl refl
