-- ===== src/Baseline/RoundTrip.antt =====
-- A capture whose calls all answer is accepted by the validation that ends it.
use liderahenk_test_platform.Base.{
  ◌<◌, String, ◌≡◌, refl, ◌∙◌, ap, Bool, true, false, Option, none, some, all, ◌⊎◌, inl, inr,
  Bool-cases, if◌then◌else◌,
}
use liderahenk_test_platform.Json.{ℤ, Value, Fields, has}
use liderahenk_test_platform.Json.Laws.{IsClean, IsCleanFields}
use liderahenk_test_platform.Result.{Result, ok, err, on_result}
use liderahenk_test_platform.Access.{as_mapping}
use liderahenk_test_platform.Baseline.{Contract, Store, Dir}
use liderahenk_test_platform.Baseline.Validate.{Validation, validate_golden_baseline}
use liderahenk_test_platform.Baseline.Valid.{validate_golden_baseline-valid, validate_returns}
use liderahenk_test_platform.Baseline.Capture.{
  Environ, EnvFile, Capture, env_path, env_or, context_of, build_capture_context, build_manifest,
  source_of, collect_live_baseline_payload, write_files, is_complete, capture_ui_evidence,
  capture_manifest, finish_capture, photograph, take_capture, guarded_capture,
  capture_golden_baseline, apply_capture_environment,
}
use liderahenk_test_platform.Baseline.Complete.{
  IsStore, registry, manifest_shape, Platform, answered, payloads, shot, files, table_of,
  files_found, final, final_config, final_ok,
}

module _ (S : Store) (repr : Value → String) (int_of : String → Result ℤ) (c : Contract) where
  -- What the environment and the platform must give.
  pub record IsAnswered (k : Capture S.Blob) (p : Platform S.Blob) (e : Environ) (ldap mysql : ℤ)
      : Type 0 where
    pub applied : apply_capture_environment k.env_file k.environ ≡ ok e
    pub answers : k.answers e ≡ answered p
    pub ldap_port : int_of (env_or "LDAP_PORT" "1389" e) ≡ ok ldap
    pub mysql_port : int_of (env_or "MYSQL_PORT" "3306" e) ≡ ok mysql
    pub dashboard_png : 0 < S.size p.dashboard_png
    pub computer_management_png : 0 < S.size p.computer_management_png
    pub payload : IsCleanFields p.payload

  module _ (k : Capture S.Blob) (p : Platform S.Blob) (e : Environ) (ldap mysql : ℤ)
      (d : Dir S) where
    abbrev pub context : Fields
    context =
        context_of int_of k.host k.env_file (source_of S repr int_of (registry c) k.source_label e)
          true e ldap mysql

    abbrev pub written : Dir S
    written =
        final S repr c k.now p (env_or c.baseline_name_env "stock-liderahenk" e)
          (source_of S repr int_of (registry c) k.source_label e) context d

    path-IsClean : (file : Option EnvFile) → IsClean (env_path int_of file)
    path-IsClean none = tt
    path-IsClean (some file) = tt

    pub context-IsClean : IsCleanFields context
    context-IsClean = (
      refl,
      tt,
      (
        refl,
        path-IsClean k.env_file,
        (
          refl,
          tt,
          (
            refl,
            tt,
            (
              refl,
              tt,
              (
                refl,
                tt,
                (
                  refl,
                  (refl, tt, (refl, tt, (refl, tt, tt))),
                  (
                    refl,
                    (refl, tt, (refl, tt, (refl, tt, (refl, tt, tt)))),
                    (refl, (refl, tt, tt), tt),
                  ),
                ),
              ),
            ),
          ),
        ),
      ),
    )

    module _ (a : IsAnswered k p e ldap mysql) where
      abbrev seen : Dir S
      seen = shot S repr c k.now p d

      collected :
          collect_live_baseline_payload S repr (registry c) k.now (k.answers e)
          ≡ ok (payloads S repr c k.now p)
      unfolding collect_live_baseline_payload as_mapping
      collected = rw a.answers refl

      photographed :
          photograph S repr int_of (registry c) k e (write_files S (payloads S repr c k.now p) d)
          ≡ finish_capture S repr int_of (registry c) k e seen
      unfolding photograph capture_ui_evidence
      photographed = rw a.answers refl

      described :
          capture_manifest S repr int_of (registry c) k e seen
          ≡ ok (
              build_manifest
                (registry c)
                (env_or c.baseline_name_env "stock-liderahenk" e)
                (source_of S repr int_of (registry c) k.source_label e)
                k.now
                context
                (table_of S repr c k.now p (files S repr c k.now p d)))
      unfolding capture_manifest build_capture_context
      described = rw (a.ldap_port, a.mysql_port, files_found S repr c k.now p d) refl

      finished :
          finish_capture S repr int_of (registry c) k e seen
          ≡ (validate_golden_baseline S (registry c) written, written)
      unfolding finish_capture
      finished = rw described refl

      taken :
          take_capture S repr int_of (registry c) k e d
          ≡ (validate_golden_baseline S (registry c) written, written)
      unfolding take_capture
      taken = rw collected (photographed ∙ finished)

      accepted :
          IsStore S
          → IsCleanFields context
          → all (λ key. has key manifest_shape) c.manifest_required_fields ≡ true
          → (v : Validation) × (validate_golden_baseline S (registry c) written ≡ ok v)
            × (v.valid ≡ true)
            × (v.status ≡ "pass")
      accepted s clean keys =
          let name = env_or c.baseline_name_env "stock-liderahenk" e in
          let label = source_of S repr int_of (registry c) k.source_label e in
          let (xs, read) = (final_config S repr c k.now p name label context d s a.payload).1 in
          let (v, given, passes) = validate_returns S (registry c) written xs read in
          let fine =
            final_ok S repr c k.now p name label context d s a.dashboard_png
              a.computer_management_png a.payload clean keys in
          let valid = validate_golden_baseline-valid S (registry c) written v given ∙ fine in
          (v, given, valid, passes ∙ ap (λ t. if t then "pass" else v.status) valid)

  confirmed :
      {A : Type 0} (t : Bool) (m : Result Environ) (f : Environ → A) (g : String → A) (x : A)
      (e : Environ)
      → t ≡ true
      → m ≡ ok e
      → (if t then on_result m f g else x) ≡ f e
  confirmed true (ok e') f g x e p q = ap f (cc)
  confirmed true (err y) f g x e p q = cc
  confirmed false m f g x e p q = cc

  -- What a permitted capture does, as a whole.
  pub performed :
      (k : Capture S.Blob) (p : Platform S.Blob) (e : Environ) (ldap mysql : ℤ) (d : Dir S)
      → IsAnswered k p e ldap mysql
      → k.confirm_stock_source ≡ true
      → (k.force ≡ true) ⊎ (is_complete S (d "manifest.json") ≡ ok false)
      → capture_golden_baseline S repr int_of (registry c) k d ≡ (
        validate_golden_baseline S (registry c) (written k p e ldap mysql d),
        written k p e ldap mysql d,
      )
  unfolding capture_golden_baseline guarded_capture
  performed k p e ldap mysql d a yes_stock over =
      confirmed k.confirm_stock_source (apply_capture_environment k.env_file k.environ)
        (λ e'. guarded_capture S repr int_of (registry c) k e' d) (λ x. (err x, d))
        (err "Refusing to capture canonical golden baseline", d) e yes_stock a.applied
      ∙ by_guard over
    where
      by_guard :
          (k.force ≡ true) ⊎ (is_complete S (d "manifest.json") ≡ ok false)
          → guarded_capture S repr int_of (registry c) k e d ≡ (
            validate_golden_baseline S (registry c) (written k p e ldap mysql d),
            written k p e ldap mysql d,
          )
      by_guard (inl f) = rw f (taken k p e ldap mysql d a)
      by_guard (inr q) = elim (Bool-cases k.force) [
        | inl f ↦ rw f (taken k p e ldap mysql d a)
        | inr f ↦ rw (f, q) (taken k p e ldap mysql d a)
      ]

  -- A capture from a confirmed source, forced or over a manifest that is not complete, for which the
  -- platform answers every call with images that are not empty and a configuration without repeated
  -- keys, the ports are numbers and the contract has the file names of the registry and asks for no
  -- other field of the manifest, returns the report of a valid baseline with the status "pass". JSON
  -- that is written is taken to be read back.
  pub capture_golden_baseline_valid :
      (k : Capture S.Blob) (p : Platform S.Blob) (e : Environ) (ldap mysql : ℤ) (d : Dir S)
      → IsStore S
      → IsAnswered k p e ldap mysql
      → all (λ key. has key manifest_shape) c.manifest_required_fields ≡ true
      → k.confirm_stock_source ≡ true
      → (k.force ≡ true) ⊎ (is_complete S (d "manifest.json") ≡ ok false)
      → (v : Validation) × ((capture_golden_baseline S repr int_of (registry c) k d).0 ≡ ok v)
        × (v.valid ≡ true)
        × (v.status ≡ "pass")
  capture_golden_baseline_valid k p e ldap mysql d s a keys yes_stock over =
      let (v, given, valid, passes) =
        accepted k p e ldap mysql d a s (context-IsClean k p e ldap mysql d) keys in
      (v, ap (λ r. r.0) (performed k p e ldap mysql d a yes_stock over) ∙ given, valid, passes)
