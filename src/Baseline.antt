-- ===== src/Baseline.antt =====
-- The golden baseline, platform_runtime/golden_baseline.py: its contract, the directory that holds
-- it and the texts and hashes of its files. A directory is a function from relative paths, and what
-- a file is made of is a parameter.
pub mod Capture
pub mod Validate
pub mod Diff
pub mod Valid
pub mod Secrets
pub mod Frame
pub mod Protect
pub mod Complete
pub mod RoundTrip
use liderahenk_test_platform.Base.{
  String, ◌<>◌, Bool, true, false, not, ◌&&◌, Option, none, some, List, [], ◌∷◌, ◌++◌, ◌==◌, ℕ, ltb,
  if◌then◌else◌,
}
use liderahenk_test_platform.Base.Text.{ends_with}
use liderahenk_test_platform.Json.{
  Value, null, bool, num, str, arr, obj, Fields, end, field, fields, has, get, put, nat,
}
use liderahenk_test_platform.Result.{Result, ok, err, ◌>>=◌}

-- The contract of the registry file, with the two keys of `diff_policy` that may be missing.
pub record Contract : Type 0 where
  pub source_kind : String
  pub baseline_name_env : String
  pub manifest : String
  pub ldap_tree : String
  pub config : String
  pub api_captures : List String
  pub ui_evidence : List String
  pub manifest_required_fields : List String
  pub critical_runtime_fields : List String
  pub secret_runtime_fields : List String
  pub severity_order : Option (List String)
  pub blocking_severity : Option String

-- `_tracked_manifest_paths`: the manifest stands first among the required files, and is left out.
unfoldable pub tracked_manifest_paths : Contract → List String
tracked_manifest_paths c = c.ldap_tree ∷ c.config ∷ (c.api_captures ++ c.ui_evidence)

unfoldable pub required_relative_paths : Contract → List String
unfolding tracked_manifest_paths
required_relative_paths c = c.manifest ∷ tracked_manifest_paths c

-- What a file holds, with its size and hash, how JSON is written to it and read from it, the bytes
-- of a text, and `json.dumps` of data with sorted keys.
pub record Store : Type 1 where
  pub Blob : Type 0
  pub size : Blob → ℕ
  pub sha256 : Blob → String
  pub loads : Blob → Result Value
  pub dumps : Value → Blob
  pub encode : String → Blob
  pub canonical : Value → String

-- `path.suffix == suffix`: a name that is nothing but the suffix has none.
unfoldable pub has_suffix : String → String → Bool
unfolding ends_with
has_suffix suffix path =
    ends_with path suffix && (not (path == suffix) && not (ends_with path ("/" <> suffix)))

module _ (S : Store) where
  abbrev pub Dir : Type 0
  Dir = String → Option S.Blob

  -- `path.write_text`
  unfoldable pub write : String → S.Blob → Dir → Dir
  write path blob d other = if path == other then some blob else d other

  -- `_write_json`
  unfoldable pub write_json : String → Value → Dir → Dir
  unfolding write
  write_json path payload d = write path (S.dumps payload) d

  abbrev hashed_text : Value → String
  hashed_text null = ""
  hashed_text (str s) = s
  hashed_text v = S.canonical v

  -- `_hash_text`
  unfoldable pub hash_text : Value → String
  hash_text v = S.sha256 (S.encode (hashed_text v))

  abbrev metadata_of : String → S.Blob → Value
  metadata_of path blob = obj (
      fields
        (("path", str path) ∷ ("size", nat (S.size blob)) ∷ ("sha256", str (S.sha256 blob)) ∷ []))

  -- `_collect_file_metadata`, onto what was collected so far; a missing file raises
  collect_onto : Dir → List String → Fields → Result Fields
  collect_onto d [] metadata = ok metadata
  collect_onto d (path ∷ r) metadata = elim (d path) [
    | none ↦ err ("No such file or directory: " <> path)
    | some blob ↦ collect_onto d r (put path (metadata_of path blob) metadata)
  ]

  unfoldable pub collect_file_metadata : Dir → List String → Result Fields
  unfolding collect_onto put
  collect_file_metadata d paths = collect_onto d paths end
