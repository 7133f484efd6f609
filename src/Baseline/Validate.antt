-- ===== src/Baseline/Validate.antt =====
-- `validate_golden_baseline` and `load_golden_baseline`. The messages are the source's; an exception
-- that the source does not catch is an error of the whole.
pub mod Messages
use liderahenk_test_platform.Base.{
  String, ◌<>◌, Bool, true, false, not, ◌&&◌, ◌||◌, Option, none, some, List, [], ◌∷◌, ◌++◌, ◌==◌,
  ◌≡◌, map, is_nil, eqb, if◌then◌else◌,
}
use liderahenk_test_platform.Base.Text.{has_text}
use liderahenk_test_platform.Json.{
  Value, null, bool, num, str, arr, obj, Items, nil, cons, Fields, end, field, has, get, put, nat,
  is_dict, value_eq,
}
use liderahenk_test_platform.Result.{Result, ok, err, ◌>>=◌, on_result}
use liderahenk_test_platform.Evidence.Contract.{when}
use liderahenk_test_platform.Access.{as_mapping, get_or}
use liderahenk_test_platform.Baseline.{
  Contract, Store, Dir, required_relative_paths, tracked_manifest_paths, has_suffix,
}

pub record Validation : Type 0 where
  pub status : String
  pub manifest_status : Value
  pub valid : Bool
  pub errors : List String

-- `"value" in payload`, on anything
item_in : Value → Items → Bool
item_in v nil = false
item_in v (cons x r) = value_eq v x || item_in v r

unfoldable pub is_in : String → Value → Result Bool
unfolding has_text item_in value_eq
is_in k (obj r) = ok (has k r)
is_in k (str s) = ok (has_text k s)
is_in k (arr xs) = ok (item_in (str k) xs)
is_in k null = err "argument of type 'NoneType' is not iterable"
is_in k (bool _) = err "argument of type 'bool' is not iterable"
is_in k (num _) = err "argument of type 'int' is not iterable"

abbrev pub config_keys : List String
config_keys = "present" ∷ "source" ∷ "sha256" ∷ []

unfoldable pub missing_keys : String → List String → Fields → List String
missing_keys name [] payload = []
missing_keys name (key ∷ r) payload =
    when (not (has key payload)) ("config field " <> (name <> (" missing key: " <> key)))
    ++ missing_keys name r payload

abbrev pub field_errors : String → Value → List String
field_errors name (obj payload) = missing_keys name config_keys payload
field_errors name _ = ("config field missing: " <> name) ∷ []

unfoldable pub config_errors : List String → Fields → List String
unfolding missing_keys
config_errors [] fields = []
config_errors (name ∷ r) fields = field_errors name (get name fields) ++ config_errors r fields

unfoldable pub secret_errors : List String → Fields → Result (List String)
unfolding is_in
secret_errors [] fields = ok []
secret_errors (name ∷ r) fields = do
  exposed ← is_in "value" (get_or name (obj end) fields)
  more ← secret_errors r fields
  ok (when exposed ("secret field exposed in plaintext: " <> name) ++ more)

-- `if manifest_status == "capture-pending"`, and its `elif`
unfoldable pub status_errors : Value → List String
unfolding value_eq
status_errors v =
    if value_eq v (str "capture-pending")
    then "canonical golden baseline not captured yet (manifest status: capture-pending)" ∷ []
    else when (not (value_eq v (str "capture-complete"))) "manifest status must be capture-complete"

unfoldable pub missing_manifest_fields : List String → Fields → List String
missing_manifest_fields [] manifest = []
missing_manifest_fields (name ∷ r) manifest =
    when (not (has name manifest)) ("manifest missing field: " <> name)
    ++ missing_manifest_fields r manifest

-- `files_metadata`, which is empty where it is no object
abbrev pub files_of : Value → Fields
files_of (obj r) = r
files_of _ = end

unfoldable pub report_of : List String → Value → Validation
unfolding value_eq
report_of errors manifest_status = record {
  status =
      if is_nil errors
      then "pass"
      else if value_eq manifest_status (str "capture-pending")
      then "pending-capture"
      else "fail";
  manifest_status = manifest_status;
  valid = is_nil errors;
  errors = errors;
}

module _ (S : Store) where
  -- What one required file adds to `missing_files` and to `errors`.
  abbrev pub file_errors : String → S.Blob → List String
  file_errors path blob =
      if has_suffix ".json" path
      then on_result (S.loads blob) (λ v. [])
          (λ e. (path <> (": invalid json (" <> (e <> ")"))) ∷ [])
      else when (has_suffix ".png" path && eqb (S.size blob) 0) (path <> ": empty png evidence")

  unfoldable pub content_errors : Dir S → List String → List String
  unfolding has_suffix
  content_errors d [] = []
  content_errors d (path ∷ r) =
      elim (d path) [ none ↦ [] | some blob ↦ file_errors path blob ] ++ content_errors d r

  unfoldable pub missing_files : Dir S → List String → List String
  missing_files d [] = []
  missing_files d (path ∷ r) =
      let rest = missing_files d r in elim (d path) [ none ↦ path ∷ rest | some blob ↦ rest ]

  abbrev pub stored_errors : String → Fields → Option S.Blob → List String
  stored_errors path metadata none = []
  stored_errors path metadata (some blob) =
      when (not (value_eq (get "sha256" metadata) (str (S.sha256 blob))))
        ("manifest hash mismatch: " <> path)
      ++ when (not (value_eq (get "size" metadata) (nat (S.size blob))))
          ("manifest size mismatch: " <> path)

  abbrev pub metadata_errors : String → Value → Option S.Blob → List String
  metadata_errors path (obj metadata) stored =
      when (not (value_eq (get "path" metadata) (str path))) ("manifest path mismatch: " <> path)
      ++ stored_errors path metadata stored
  metadata_errors path _ stored = ("manifest file metadata missing: " <> path) ∷ []

  unfoldable pub tracked_errors : Dir S → List String → Fields → List String
  unfolding value_eq
  tracked_errors d [] files = []
  tracked_errors d (path ∷ r) files =
      metadata_errors path (get path files) (d path) ++ tracked_errors d r files

  -- The messages about a manifest that is an object.
  unfoldable pub manifest_errors : Contract → Dir S → Fields → List String
  unfolding missing_manifest_fields status_errors tracked_errors tracked_manifest_paths
  manifest_errors c d m =
      missing_manifest_fields c.manifest_required_fields m
      ++ (status_errors (get "status" m)
          ++ (when (not (is_dict (get "captureContext" m)))
                "manifest captureContext must be an object"
              ++ (when (not (is_dict (get_or "files" (obj end) m)))
                    "manifest files must be an object"
                  ++ tracked_errors d (tracked_manifest_paths c)
                      (files_of (get_or "files" (obj end) m)))))

  abbrev pub found_manifest : Contract → Dir S → Result Value → List String × Value
  found_manifest c d (ok (obj m)) = (manifest_errors c d m, get "status" m)
  found_manifest c d (ok v) = ([], null)
  found_manifest c d (err e) = ((c.manifest <> (": invalid json (" <> (e <> ")"))) ∷ [], null)

  -- The messages about the manifest, and its status.
  unfoldable pub read_manifest : Contract → Dir S → Option S.Blob → List String × Value
  unfolding manifest_errors
  read_manifest c d none = ([], null)
  read_manifest c d (some blob) = found_manifest c d (S.loads blob)

  -- The messages about the configuration, which is read without a handler.
  unfoldable pub read_config : Contract → Option S.Blob → Result (List String)
  unfolding as_mapping config_errors secret_errors
  read_config c none = ok []
  read_config c (some blob) = do
    value ← S.loads blob
    config ← as_mapping value
    fields ← as_mapping (get_or "fields" (obj end) config)
    exposed ← secret_errors c.secret_runtime_fields fields
    ok (config_errors c.critical_runtime_fields fields ++ exposed)

  abbrev missing_message : String → String
  missing_message path = "missing required file: " <> path

  unfoldable pub validate_golden_baseline : Contract → Dir S → Result Validation
  unfolding content_errors missing_files read_manifest read_config report_of required_relative_paths
  validate_golden_baseline c d =
      let found =
        content_errors d (required_relative_paths c)
        ++ map missing_message (missing_files d (required_relative_paths c)) in
      let manifest = read_manifest c d (d c.manifest) in
      read_config c (d c.config) >>= λ config.
      ok (report_of (found ++ (manifest.0 ++ config)) manifest.1)

  -- `load_golden_baseline`: the data of each JSON file that is there, and the path of any other
  unfoldable pub load_golden_baseline : (String → String) → Dir S → List String → Result Fields
  unfolding has_suffix put
  load_golden_baseline shown d [] = ok end
  load_golden_baseline shown d (path ∷ r) = do
    v ← elim (d path) [
      | none ↦ ok (str (shown path))
      | some blob ↦ if has_suffix ".json" path then S.loads blob else ok (str (shown path))
    ]
    rest ← load_golden_baseline shown d r
    ok (field path v rest)
