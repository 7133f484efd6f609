-- ===== src/Baseline/Valid.antt =====
-- What `validate_golden_baseline` accepts.
use liderahenk_test_platform.Base.{
  String, ◌<>◌, ◌≡◌, refl, sym, ap, ◌∙◌, Bool, true, false, ◌&&◌, Option, none, some, List, [], ◌∷◌,
  ◌++◌, arith, map, ◌⊎◌, inl, inr, if◌then◌else◌, is_nil, is_nil-append,
}
use liderahenk_test_platform.Json.{Value, null, bool, num, str, arr, obj, Fields, end, is_dict}
use liderahenk_test_platform.Result.{Result, ok, err, ◌>>=◌}
use liderahenk_test_platform.Access.{as_mapping, get_or}
use liderahenk_test_platform.Baseline.{
  Contract, Store, Dir, required_relative_paths, tracked_manifest_paths,
}
use liderahenk_test_platform.Baseline.Validate.{
  Validation, content_errors, missing_files, found_manifest, read_manifest, read_config,
  config_errors, secret_errors, report_of, validate_golden_baseline,
}
use liderahenk_test_platform.Baseline.Validate.Messages.{
  files_ok, manifest_ok, manifest_at, config_at, config_fields_of, baseline_ok, is_nil-found,
  is_nil-found_manifest, config_messages,
}

is_nil-map {ℓ κ} :
    {A : Type ℓ} {B : Type κ} (f : A → B) (xs : List A) → is_nil (map f xs) ≡ is_nil xs
is_nil-map f [] = refl
is_nil-map f (x ∷ xs) = refl

module _ (S : Store) where
  abbrev messages_of : Contract → Result Fields → Result (List String)
  messages_of c r = r >>= λ fields. secret_errors c.secret_runtime_fields fields >>= λ exposed.
      ok (config_errors c.critical_runtime_fields fields ++ exposed)

  -- One chain of reads, or the chain of its first part.
  regroup :
      (c : Contract) (r : Result Value)
      → (r >>= λ value. as_mapping value >>= λ config.
          messages_of c (as_mapping (get_or "fields" (obj end) config)))
        ≡ messages_of c (
            r >>= λ value.
            as_mapping value >>= λ config. as_mapping (get_or "fields" (obj end) config))
  regroup c (err e) = refl
  regroup c (ok value) = by_config (as_mapping value)
    where
      by_config :
          (m : Result Fields)
          → (m >>= λ config. messages_of c (as_mapping (get_or "fields" (obj end) config)))
            ≡ messages_of c (m >>= λ config. as_mapping (get_or "fields" (obj end) config))
      by_config (ok m) = refl
      by_config (err e) = refl

  config_read :
      (c : Contract) (o : Option S.Blob) (xs : List String)
      → read_config S c o ≡ ok xs
      → (o ≡ none) ⊎ (is_nil xs ≡ config_at S c o)
  unfolding read_config
  config_read c none xs h = inl refl
  config_read c (some blob) xs h =
      inr (config_messages S c (config_fields_of S blob) xs (sym (regroup c (S.loads blob)) ∙ h))

  manifest_read :
      (c : Contract) (d : Dir S) (o : Option S.Blob)
      → (o ≡ none) ⊎ (is_nil (read_manifest S c d o).0 ≡ manifest_at S c d o)
  unfolding read_manifest
  manifest_read c d none = inl refl
  manifest_read c d (some blob) = inr (is_nil-found_manifest S c d (S.loads blob))

  without_manifest :
      (c : Contract) (d : Dir S)
      → d c.manifest ≡ none
      → files_ok S d (required_relative_paths c) ≡ false
  unfolding required_relative_paths
  without_manifest c d h = rw h

  without_config :
      (c : Contract) (d : Dir S)
      → d c.config ≡ none
      → files_ok S d (required_relative_paths c) ≡ false
  unfolding required_relative_paths tracked_manifest_paths
  without_config c d h = rw h (ground arith)

  all_found :
      (c : Contract) (d : Dir S)
      → is_nil (
          content_errors S d (required_relative_paths c)
          ++ map
              (λ path. "missing required file: " <> path)
              (missing_files S d (required_relative_paths c)))
        ≡ files_ok S d (required_relative_paths c)
  all_found c d =
      is_nil-append (content_errors S d (required_relative_paths c)) (
        map (λ path. "missing required file: " <> path)
          (missing_files S d (required_relative_paths c)))
      ∙ ap (λ b. is_nil (content_errors S d (required_relative_paths c)) && b)
          (is_nil-map (λ path. "missing required file: " <> path)
            (missing_files S d (required_relative_paths c)))
      ∙ is_nil-found S d (required_relative_paths c)

  -- The three parts of the report.
  joined :
      (f m x ok_files ok_manifest ok_config : Bool) {A B : Type 0}
      → f ≡ ok_files
      → A ⊎ (m ≡ ok_manifest)
      → B ⊎ (x ≡ ok_config)
      → (A → ok_files ≡ false)
      → (B → ok_files ≡ false)
      → (f && (m && x)) ≡ (ok_files && (ok_manifest && ok_config))
  joined f m x p q r e (inr e1) (inr e2) na nb = rw (e, e1, e2)
  joined f m x p q r e (inl a) s na nb = rw (e, na a)
  joined f m x p q r e (inr e1) (inl b) na nb = rw (e, nb b)

  messages_ok :
      (c : Contract) (d : Dir S) (xs : List String)
      → read_config S c (d c.config) ≡ ok xs
      → is_nil (
          (content_errors S d (required_relative_paths c)
            ++ map
                (λ path. "missing required file: " <> path)
                (missing_files S d (required_relative_paths c)))
          ++ ((read_manifest S c d (d c.manifest)).0 ++ xs))
        ≡ baseline_ok S c d
  messages_ok c d xs h =
      let found =
        content_errors S d (required_relative_paths c)
        ++ map (λ path. "missing required file: " <> path)
            (missing_files S d (required_relative_paths c)) in
      let said = (read_manifest S c d (d c.manifest)).0 in
      is_nil-append found (said ++ xs)
      ∙ ap (λ b. is_nil found && b) (is_nil-append said xs)
      ∙ joined (is_nil found) (is_nil said) (is_nil xs) (files_ok S d (required_relative_paths c))
          (manifest_at S c d (d c.manifest)) (config_at S c (d c.config)) (all_found c d)
          (manifest_read c d (d c.manifest)) (config_read c (d c.config) xs h)
          (without_manifest c d) (without_config c d)

  validated :
      (c : Contract) (d : Dir S) (r : Result (List String)) (v : Validation)
      → read_config S c (d c.config) ≡ r
      → (r >>= λ xs. ok (
          report_of
            ((content_errors S d (required_relative_paths c)
                ++ map
                    (λ path. "missing required file: " <> path)
                    (missing_files S d (required_relative_paths c)))
              ++ ((read_manifest S c d (d c.manifest)).0 ++ xs))
            (read_manifest S c d (d c.manifest)).1))
        ≡ ok v
      → (v.valid ≡ baseline_ok S c d) × (v.manifest_status ≡ (read_manifest S c d (d c.manifest)).1)
  unfolding report_of
  validated c d (err e) v p h = cc
  validated c d (ok xs) v p h =
      let nil = messages_ok c d xs p in (ground (arith, nil, h), ground (arith, h))

  -- A report says that a baseline is valid exactly when every required file is there, each JSON file
  -- can be parsed and no image is empty; a manifest that is an object has the fields of the contract,
  -- the status "capture-complete", an object as its context, and for each other required file its
  -- path, hash and size; and the configuration has an entry with its three keys for each critical
  -- field and no value for any secret field. A manifest that is no object is not tested.
  pub validate_golden_baseline-valid :
      (c : Contract) (d : Dir S) (v : Validation)
      → validate_golden_baseline S c d ≡ ok v
      → v.valid ≡ baseline_ok S c d
  unfolding validate_golden_baseline
  validate_golden_baseline-valid c d v h = (validated c d (read_config S c (d c.config)) v refl h).0

  on_other :
      (c : Contract) (d : Dir S) (v : Value)
      → is_dict v ≡ false
      → (manifest_ok S c d (ok v) ≡ true) × ((found_manifest S c d (ok v)).1 ≡ null)
  on_other c d null h = (refl, refl)
  on_other c d (bool b) h = (refl, refl)
  on_other c d (num n) h = (refl, refl)
  on_other c d (str s) h = (refl, refl)
  on_other c d (arr xs) h = (refl, refl)
  on_other c d (obj r) h = cc

  -- A manifest that is JSON but no object is accepted with the status null: the report is valid
  -- exactly when the files are there and readable and the configuration is in order, whatever was
  -- or was not captured.
  pub validate_golden_baseline_no_object :
      (c : Contract) (d : Dir S) (blob : S.Blob) (m : Value) (v : Validation)
      → d c.manifest ≡ some blob
      → S.loads blob ≡ ok m
      → is_dict m ≡ false
      → validate_golden_baseline S c d ≡ ok v
      → (v.valid ≡ (files_ok S d (required_relative_paths c) && config_at S c (d c.config)))
        × (v.manifest_status ≡ null)
  unfolding validate_golden_baseline read_manifest
  validate_golden_baseline_no_object c d blob m v p q n h =
      let both = validated c d (read_config S c (d c.config)) v refl h in
      let other = on_other c d m n in
      (
        both.0
            ∙ ap
                (λ b. files_ok S d (required_relative_paths c) && (b && config_at S c (d c.config)))
                (ap (manifest_at S c d) p ∙ ap (manifest_ok S c d) q ∙ other.0),
        both.1
            ∙ ap (λ o. (read_manifest S c d o).1) p
            ∙ ap (λ r. (found_manifest S c d r).1) q
            ∙ other.1,
      )

  -- A report is given whenever the configuration can be read, and a valid one passes.
  pub validate_returns :
      (c : Contract) (d : Dir S) (xs : List String)
      → read_config S c (d c.config) ≡ ok xs
      → (v : Validation) × (validate_golden_baseline S c d ≡ ok v)
        × (v.status ≡ (if v.valid then "pass" else v.status))
  unfolding validate_golden_baseline report_of
  validate_returns c d xs h =
      let errors =
        (content_errors S d (required_relative_paths c)
          ++ map (λ path. "missing required file: " <> path)
              (missing_files S d (required_relative_paths c)))
        ++ ((read_manifest S c d (d c.manifest)).0 ++ xs) in
      let status = (read_manifest S c d (d c.manifest)).1 in
      (report_of errors status, rw h refl, by_errors (is_nil errors) _)
    where
      by_errors :
          (t : Bool) (x : String)
          → (if t then "pass" else x) ≡ (if t then "pass" else (if t then "pass" else x))
      by_errors true x = refl
      by_errors false x = refl
