-- ===== src/Support/Evidence.antt =====
-- The evidence of the mutations, platform_runtime/readiness/mutation_evidence.py: it is written to
-- each directory that can be written, and read from the first that holds JSON.
use liderahenk_test_platform.Base.{
  String, ◌<>◌, Bool, Option, none, some, List, [], ◌∷◌, ◌==◌, map, contains, if◌then◌else◌,
}
use liderahenk_test_platform.Json.{Value, null, str, obj, Fields, has, put}
use liderahenk_test_platform.Result.{Result, ok, err}

-- A file: missing, unreadable or no JSON, or data.
pub data Stored : Type 0 where
  absent : Stored
  unreadable : Stored
  stored : Value → Stored

abbrev pub Disk : Type 0
Disk = String → Stored

-- `_artifact_directories`: a directory is known by its resolved path, if it exists
unfoldable pub unique : (String → String) → List String → List String → List String
unique key seen [] = []
unique key seen (d ∷ r) =
    let rest = unique key (key d ∷ seen) r in
    let same = unique key seen r in if contains seen (key d) then same else d ∷ rest

abbrev or_default : String → Option String → String
or_default default none = default
or_default default (some d) = d

unfoldable pub artifact_directories : (String → String) → (String → Option String) → List String
unfolding unique
artifact_directories key environ = unique key [] (
    or_default "artifacts/platform" (environ "PLATFORM_ARTIFACTS_DIR")
    ∷ or_default "artifacts/platform-local" (environ "PLATFORM_RUNTIME_FALLBACK_ARTIFACTS_DIR")
    ∷ [])

abbrev evidence_file : String → String
evidence_file d = d <> "/ui-user-policy-roundtrip-evidence.json"

-- `mutation_evidence_paths`
unfoldable pub mutation_evidence_paths : (String → String) → (String → Option String) → List String
unfolding artifact_directories
mutation_evidence_paths key environ = map evidence_file (artifact_directories key environ)

unfoldable pub set_file : String → Stored → Disk → Disk
set_file path s d other = if path == other then s else d other

-- `clear_ui_mutation_evidence`; `may` says which paths the process may change
unfoldable pub clear_ui_mutation_evidence :
    (String → Bool) → List String → Disk → Result (Unit {0}) × Disk
unfolding set_file
clear_ui_mutation_evidence may [] d = (ok tt, d)
clear_ui_mutation_evidence may (path ∷ r) d = elim (d path) [
  | absent ↦ clear_ui_mutation_evidence may r d
  | _ ↦
      if may path
      then clear_ui_mutation_evidence may r (set_file path absent d)
      else (err "Permission denied", d)
]

-- The writes, with the first path that was written.
unfoldable pub write_all :
    (String → Bool) → Value → List String → Option String → Disk → Option String × Disk
unfolding set_file
write_all may body [] first d = (first, d)
write_all may body (path ∷ r) first d =
    write_all may body r
      (if may path then (elim first [ none ↦ some path | some p ↦ some p ]) else first)
      (if may path then set_file path (stored body) d else d)

-- `body.setdefault("generatedAt", …)`
abbrev pub stamped : String → Fields → Fields
stamped now payload =
    if has "generatedAt" payload then payload else put "generatedAt" (str now) payload

-- `write_ui_mutation_evidence`; `now` is stored where the payload has no time
unfoldable pub write_ui_mutation_evidence :
    (String → Bool) → String → Fields → List String → Disk → Result String × Disk
unfolding write_all
write_ui_mutation_evidence may now payload paths d =
    (let (first, d') = write_all may (obj (stamped now payload)) paths none d in
      (
        elim first [
          | none ↦ err "Unable to write UI mutation evidence artifact"
          | some path ↦ ok path
        ],
        d',
      ))

-- `load_ui_mutation_evidence`
unfoldable pub load_ui_mutation_evidence : List String → Disk → Value
load_ui_mutation_evidence [] d = null
load_ui_mutation_evidence (path ∷ r) d =
    let rest = load_ui_mutation_evidence r d in
    elim (d path) [ absent ↦ rest | unreadable ↦ rest | stored v ↦ v ]
