-- ===== src/Baseline/Validate/Messages.antt =====
-- When a validated baseline is valid, as tests on its files.
use liderahenk_test_platform.Base.{
  String, ◌<>◌, ◌≡◌, refl, Bool, true, false, not, ◌&&◌, ◌==◌, Option, none, some, List, [], ◌∷◌,
  ◌++◌, arith, eq_iff, all, is_nil, is_nil-append, eqb, if◌then◌else◌, Bool-cases, inl, inr,
}
use liderahenk_test_platform.Json.{
  Value, null, bool, num, str, arr, obj, Fields, end, has, get, nat, is_dict, value_eq,
}
use liderahenk_test_platform.Result.{Result, ok, err, ◌>>=◌, on_result}
use liderahenk_test_platform.Evidence.Contract.{when}
use liderahenk_test_platform.Evidence.Clean.{is_nil-when, is_nil-when_append}
use liderahenk_test_platform.Access.{as_mapping, get_or}
use liderahenk_test_platform.Baseline.{
  Contract, Store, Dir, required_relative_paths, tracked_manifest_paths, has_suffix,
}
use liderahenk_test_platform.Baseline.Validate.{
  is_in, config_keys, missing_keys, field_errors, config_errors, secret_errors, status_errors,
  missing_manifest_fields, files_of, file_errors, content_errors, missing_files, metadata_errors,
  tracked_errors, manifest_errors, found_manifest,
}

abbrev pub is_ok {ℓ} : {A : Type ℓ} → Result A → Bool
is_ok (ok a) = true
is_ok (err e) = false

-- The answer is "no".
abbrev pub says_no : Result Bool → Bool
says_no (ok b) = not b
says_no (err e) = false

-- A field of the configuration has the keys of an entry.
abbrev pub entry_ok : Value → Bool
entry_ok (obj payload) = all (λ key. has key payload) config_keys
entry_ok _ = false

abbrev pub status_ok : Value → Bool
status_ok v = value_eq v (str "capture-complete")

module _ (S : Store) where
  -- A required file is there, and is JSON or no empty image.
  abbrev pub file_ok : String → Option S.Blob → Bool
  file_ok path none = false
  file_ok path (some blob) =
      if has_suffix ".json" path
      then is_ok (S.loads blob)
      else not (has_suffix ".png" path && eqb (S.size blob) 0)

  abbrev pub files_ok : Dir S → List String → Bool
  files_ok d paths = all (λ path. file_ok path (d path)) paths

  abbrev pub stored_ok : Fields → Option S.Blob → Bool
  stored_ok metadata none = true
  stored_ok metadata (some blob) =
      value_eq (get "sha256" metadata) (str (S.sha256 blob))
      && value_eq (get "size" metadata) (nat (S.size blob))

  -- The metadata of a file name it, with its hash and its size.
  abbrev pub metadata_ok : String → Value → Option S.Blob → Bool
  metadata_ok path (obj metadata) stored =
      value_eq (get "path" metadata) (str path) && stored_ok metadata stored
  metadata_ok path _ stored = false

  abbrev pub tracked_ok : Dir S → List String → Fields → Bool
  tracked_ok d paths files = all (λ path. metadata_ok path (get path files) (d path)) paths

  -- A manifest has its fields, is complete, and its metadata fit. One that is no object is not
  -- looked at.
  abbrev pub manifest_ok : Contract → Dir S → Result Value → Bool
  manifest_ok c d (ok (obj m)) =
      all (λ name. has name m) c.manifest_required_fields
      && (status_ok (get "status" m)
          && (is_dict (get "captureContext" m)
              && (is_dict (get_or "files" (obj end) m)
                  && tracked_ok d (tracked_manifest_paths c)
                      (files_of (get_or "files" (obj end) m)))))
  manifest_ok c d (ok v) = true
  manifest_ok c d (err e) = false

  -- The configuration has an entry for each critical field, and none of a secret has a value.
  abbrev pub fields_ok : Contract → Fields → Bool
  fields_ok c fields =
      all (λ name. entry_ok (get name fields)) c.critical_runtime_fields
      && all (λ name. says_no (is_in "value" (get_or name (obj end) fields)))
          c.secret_runtime_fields

  abbrev pub config_ok : Contract → Result Fields → Bool
  config_ok c (ok fields) = fields_ok c fields
  config_ok c (err e) = false

  -- The fields of the configuration as the file holds them.
  abbrev pub config_fields_of : S.Blob → Result Fields
  config_fields_of blob = do
    value ← S.loads blob
    config ← as_mapping value
    as_mapping (get_or "fields" (obj end) config)

  is_nil-file_errors :
      (path : String) (blob : S.Blob) → is_nil (file_errors S path blob) ≡ file_ok path (some blob)
  is_nil-file_errors path blob = by_suffix (has_suffix ".json" path) (S.loads blob)
    where
      by_suffix :
          (json : Bool) (r : Result Value)
          → is_nil (
              if json
              then on_result r (λ v. []) (λ e. (path <> (": invalid json (" <> (e <> ")"))) ∷ [])
              else when
                  (has_suffix ".png" path && eqb (S.size blob) 0)
                  (path <> ": empty png evidence"))
            ≡ (if json then is_ok r else not (has_suffix ".png" path && eqb (S.size blob) 0))
      by_suffix true (ok v) = refl
      by_suffix true (err e) = refl
      by_suffix false r = is_nil-when _ _

  pub is_nil-found :
      (d : Dir S) (paths : List String)
      → (is_nil (content_errors S d paths) && is_nil (missing_files S d paths)) ≡ files_ok d paths
  unfolding content_errors missing_files
  is_nil-found d [] = refl
  is_nil-found d (path ∷ r) = by_file (d path) (is_nil-found d r)
    where
      by_file :
          (o : Option S.Blob)
          → (is_nil (content_errors S d r) && is_nil (missing_files S d r)) ≡ files_ok d r
          → (is_nil
                (elim o [ none ↦ [] | some blob ↦ file_errors S path blob ] ++ content_errors S d r)
              && is_nil
                  (elim o [ none ↦ path ∷ missing_files S d r | some blob ↦ missing_files S d r ]))
            ≡ (file_ok path o && files_ok d r)
      by_file none ih = ground arith
      by_file (some blob) ih =
          rw
            (
              is_nil-append (file_errors S path blob) (content_errors S d r),
              is_nil-file_errors path blob,
              ← ih,
            )
            (ground arith)

  is_nil-missing_keys :
      (name : String) (keys : List String) (payload : Fields)
      → is_nil (missing_keys name keys payload) ≡ all (λ key. has key payload) keys
  unfolding missing_keys
  is_nil-missing_keys name [] payload = refl
  is_nil-missing_keys name (key ∷ r) payload =
      grind (arith, is_nil-when_append, is_nil-missing_keys name r payload)

  is_nil-field_errors : (name : String) (v : Value) → is_nil (field_errors name v) ≡ entry_ok v
  is_nil-field_errors name null = refl
  is_nil-field_errors name (bool b) = refl
  is_nil-field_errors name (num n) = refl
  is_nil-field_errors name (str s) = refl
  is_nil-field_errors name (arr xs) = refl
  is_nil-field_errors name (obj payload) = is_nil-missing_keys name config_keys payload

  is_nil-config_errors :
      (names : List String) (fields : Fields)
      → is_nil (config_errors names fields) ≡ all (λ name. entry_ok (get name fields)) names
  unfolding config_errors
  is_nil-config_errors [] fields = refl
  is_nil-config_errors (name ∷ r) fields = rw (
    is_nil-append (field_errors name (get name fields)) (config_errors r fields),
    is_nil-field_errors name (get name fields),
    is_nil-config_errors r fields,
  )

  is_nil-metadata_errors :
      (path : String) (v : Value) (o : Option S.Blob)
      → is_nil (metadata_errors S path v o) ≡ metadata_ok path v o
  is_nil-metadata_errors path null o = refl
  is_nil-metadata_errors path (bool b) o = refl
  is_nil-metadata_errors path (num n) o = refl
  is_nil-metadata_errors path (str s) o = refl
  is_nil-metadata_errors path (arr xs) o = refl
  is_nil-metadata_errors path (obj m) none = grind (arith, is_nil-when_append)
  is_nil-metadata_errors path (obj m) (some blob) = grind (arith, is_nil-when_append, is_nil-when)

  is_nil-tracked_errors :
      (d : Dir S) (paths : List String) (files : Fields)
      → is_nil (tracked_errors S d paths files) ≡ tracked_ok d paths files
  unfolding tracked_errors
  is_nil-tracked_errors d [] files = refl
  is_nil-tracked_errors d (path ∷ r) files = rw (
    is_nil-append (metadata_errors S path (get path files) (d path)) (tracked_errors S d r files),
    is_nil-metadata_errors path (get path files) (d path),
    is_nil-tracked_errors d r files,
  )

  is_nil-missing_manifest_fields :
      (names : List String) (m : Fields)
      → is_nil (missing_manifest_fields names m) ≡ all (λ name. has name m) names
  unfolding missing_manifest_fields
  is_nil-missing_manifest_fields [] m = refl
  is_nil-missing_manifest_fields (name ∷ r) m =
      grind (arith, is_nil-when_append, is_nil-missing_manifest_fields r m)

  is_nil-status_errors : (v : Value) → is_nil (status_errors v) ≡ status_ok v
  unfolding status_errors value_eq
  is_nil-status_errors null = refl
  is_nil-status_errors (bool true) = refl
  is_nil-status_errors (bool false) = refl
  is_nil-status_errors (num n) = refl
  is_nil-status_errors (str s) = elim (Bool-cases (s == "capture-pending")) [
    | inl e ↦ rw ((eq_iff s "capture-pending").0 e)
    | inr e ↦ rw e (by_rest (s == "capture-complete"))
  ]
    where
      by_rest : (b : Bool) → is_nil (when (not b) "manifest status must be capture-complete") ≡ b
      by_rest true = refl
      by_rest false = refl
  is_nil-status_errors (arr xs) = refl
  is_nil-status_errors (obj r) = refl

  is_nil-manifest_errors :
      (c : Contract) (d : Dir S) (m : Fields)
      → is_nil (manifest_errors S c d m) ≡ manifest_ok c d (ok (obj m))
  unfolding manifest_errors
  is_nil-manifest_errors c d m = grind (
    arith, is_nil-append, is_nil-when_append, is_nil-missing_manifest_fields, is_nil-status_errors,
    is_nil-tracked_errors,
  )

  pub is_nil-found_manifest :
      (c : Contract) (d : Dir S) (r : Result Value)
      → is_nil (found_manifest S c d r).0 ≡ manifest_ok c d r
  is_nil-found_manifest c d (ok (obj m)) = is_nil-manifest_errors c d m
  is_nil-found_manifest c d (ok null) = refl
  is_nil-found_manifest c d (ok (bool b)) = refl
  is_nil-found_manifest c d (ok (num n)) = refl
  is_nil-found_manifest c d (ok (str s)) = refl
  is_nil-found_manifest c d (ok (arr xs)) = refl
  is_nil-found_manifest c d (err e) = refl

  abbrev hidden : List String → Fields → Bool
  hidden names fields = all (λ name. says_no (is_in "value" (get_or name (obj end) fields))) names

  -- Where the secrets can be read, there is no message exactly when none has a value.
  is_nil-secret_errors :
      (names : List String) (fields : Fields) (xs : List String)
      → secret_errors names fields ≡ ok xs
      → is_nil xs ≡ hidden names fields
  unfolding secret_errors
  is_nil-secret_errors [] fields xs h = ground (arith, h)
  is_nil-secret_errors (name ∷ r) fields xs h =
      by_answer (is_in "value" (get_or name (obj end) fields)) (secret_errors r fields)
        (is_nil-secret_errors r fields) h
    where
      by_answer :
          (a : Result Bool) (more : Result (List String))
          → ((ys : List String) → more ≡ ok ys → is_nil ys ≡ hidden r fields)
          → (a >>= λ exposed. more >>= λ ys.
              ok (when exposed ("secret field exposed in plaintext: " <> name) ++ ys))
            ≡ ok xs
          → is_nil xs ≡ (says_no a && hidden r fields)
      by_answer (ok exposed) (ok ys) ih h' = grind (arith, is_nil-when_append, ih ys refl, h')
      by_answer (ok exposed) (err e') ih h' = cc
      by_answer (err e') more ih h' = cc

  pub config_messages :
      (c : Contract) (r : Result Fields) (xs : List String)
      → (r >>= λ fields. secret_errors c.secret_runtime_fields fields >>= λ exposed.
          ok (config_errors c.critical_runtime_fields fields ++ exposed))
        ≡ ok xs
      → is_nil xs ≡ config_ok c r
  config_messages c (err e) xs h = cc
  config_messages c (ok fields) xs h =
      by_secrets (secret_errors c.secret_runtime_fields fields)
        (is_nil-secret_errors c.secret_runtime_fields fields) h
    where
      by_secrets :
          (r : Result (List String))
          → ((ys : List String) → r ≡ ok ys → is_nil ys ≡ hidden c.secret_runtime_fields fields)
          → (r >>= λ exposed. ok (config_errors c.critical_runtime_fields fields ++ exposed))
            ≡ ok xs
          → is_nil xs ≡ fields_ok c fields
      by_secrets (ok ys) ih h' = grind (arith, is_nil-append, is_nil-config_errors, ih ys refl, h')
      by_secrets (err e) ih h' = cc

  -- The files of a valid baseline, in one test.
  abbrev pub manifest_at : Contract → Dir S → Option S.Blob → Bool
  manifest_at c d none = false
  manifest_at c d (some blob) = manifest_ok c d (S.loads blob)

  abbrev pub config_at : Contract → Option S.Blob → Bool
  config_at c none = false
  config_at c (some blob) = config_ok c (config_fields_of blob)

  abbrev pub baseline_ok : Contract → Dir S → Bool
  baseline_ok c d =
      files_ok d (required_relative_paths c)
      && (manifest_at c d (d c.manifest) && config_at c (d c.config))
