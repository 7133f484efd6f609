-- ===== src/Baseline/Complete.antt =====
-- A capture whose calls all answer writes a baseline that its own validation accepts.
use mathlib.Core.Path.{subst}
use liderahenk_test_platform.Base.{
  ℕ, ◌<◌, String, ◌<>◌, ◌≡◌, refl, true, Option, none, some, List, [], ◌∷◌, ◌++◌, arith, eq_refl,
  all, eqb,
}
use liderahenk_test_platform.Json.{
  Value, null, str, obj, Fields, end, fields, has, put, nat, or_else, value_eq,
}
use liderahenk_test_platform.Json.Laws.{IsClean, IsCleanFields, put-IsClean}
use liderahenk_test_platform.Result.{Result, ok, err}
use liderahenk_test_platform.ComputerTree.{Nodes}
use liderahenk_test_platform.Base.Text.{ends_with}
use liderahenk_test_platform.Access.{as_mapping}
use liderahenk_test_platform.Baseline.{
  Contract, Store, Dir, write, write_json, tracked_manifest_paths, required_relative_paths,
  collect_file_metadata, collect_onto, metadata_of, has_suffix,
}
use liderahenk_test_platform.Baseline.Validate.{config_errors, read_config}
use liderahenk_test_platform.Baseline.Validate.Messages.{
  is_ok, files_ok, manifest_ok, config_fields_of, baseline_ok, tracked_ok,
}
use liderahenk_test_platform.Baseline.Capture.{
  Answers, LdapEntry, live_files, write_files, build_manifest, capture_runtime_config, is_complete,
}
use liderahenk_test_platform.Baseline.Secrets.{captured, captured-IsClean, captured-IsAccepted}

-- JSON that is written is read back; an object here may repeat a key, and is then read as another.
pub record IsStore (S : Store) : Type 0 where
  pub loads_dumps : (v : Value) → IsClean v → S.loads (S.dumps v) ≡ ok v
  pub dumps_parses : (v : Value) → is_ok (S.loads (S.dumps v)) ≡ true

-- The contract with the file names of the registry.
abbrev pub registry : Contract → Contract
registry c = record c {
  manifest = "manifest.json";
  ldap_tree = "ldap-tree.json";
  config = "config.json";
  api_captures =
      "api-captures/dashboard.json" ∷ "api-captures/agent-list.json"
      ∷ "api-captures/computer-tree.json" ∷ [];
  ui_evidence = "ui-evidence/dashboard.png" ∷ "ui-evidence/computer-management.png" ∷ [];
}

-- The keys of a manifest that is captured.
abbrev pub manifest_shape : Fields
manifest_shape = fields (
    ("schemaVersion", null)
    ∷ ("baselineName", null)
    ∷ ("status", null)
    ∷ ("source", null)
    ∷ ("capturedAt", null)
    ∷ ("captureContext", null)
    ∷ ("files", null)
    ∷ [])

-- What the platform answers when every call does.
pub record Platform (Blob : Type 0) : Type 0 where
  pub dashboard : Value
  pub agents : List Fields
  pub tree : Value × Nodes
  pub entries : List LdapEntry
  pub payload : Fields
  pub dashboard_png : Blob
  pub computer_management_png : Blob

abbrev pub answered : {Blob : Type 0} → Platform Blob → Answers Blob
answered p = record {
  dashboard_info = ok p.dashboard;
  agent_list = ok p.agents;
  computer_tree = ok p.tree;
  ldap_entries = ok p.entries;
  config_json = ok (obj p.payload);
  dashboard_png = ok p.dashboard_png;
  computer_management_png = ok p.computer_management_png;
}

eqb_self : (n : ℕ) → eqb n n ≡ true
eqb_self n = ground arith

collected-IsClean :
    (S : Store) (d : Dir S) (paths : List String) (metadata r : Fields)
    → IsCleanFields metadata
    → collect_onto S d paths metadata ≡ ok r
    → IsCleanFields r
unfolding collect_onto
collected-IsClean S d [] metadata r h e = subst IsCleanFields (cc) h
collected-IsClean S d (path ∷ paths) metadata r h e =
    at_file (d path) (λ m c. collected-IsClean S d paths m r c) e
  where
    at_file :
        (o : Option S.Blob)
        → ((m : Fields) → IsCleanFields m → collect_onto S d paths m ≡ ok r → IsCleanFields r)
        → elim o as (λ _. Result Fields) [
          | none ↦ err ("No such file or directory: " <> path)
          | some blob ↦ collect_onto S d paths (put path (metadata_of S path blob) metadata)
        ]
          ≡ ok r
        → IsCleanFields r
    at_file none next q = cc
    at_file (some blob) next q =
        next (put path (metadata_of S path blob) metadata)
          (put-IsClean path (metadata_of S path blob) metadata
            (refl, tt, (refl, tt, (refl, tt, tt))) h)
          q

module _ (S : Store) (repr : Value → String) (c : Contract) (now : String)
    (p : Platform S.Blob) where
  abbrev pub payloads : List (String × Value)
  payloads =
      live_files S repr (registry c) now (or_else p.dashboard (obj end)) p.agents p.tree p.entries
        p.payload

  -- The directory before the manifest is written.
  abbrev pub shot : Dir S → Dir S
  shot d =
      write S "ui-evidence/computer-management.png" p.computer_management_png
        (write S "ui-evidence/dashboard.png" p.dashboard_png (write_files S payloads d))

  -- The metadata of the seven files, which the manifest holds.
  abbrev pub files : Dir S → Result Fields
  files d = collect_file_metadata S (shot d) (tracked_manifest_paths (registry c))

  abbrev pub table_of : Result Fields → Fields
  table_of (ok r) = r
  table_of (err e) = end

  pub files_found : (d : Dir S) → files d ≡ ok (table_of (files d))
  unfolding live_files write write_files write_json collect_file_metadata tracked_manifest_paths
  files_found d = refl

  module _ (name label : String) (context : Fields) (d : Dir S) where
    abbrev pub manifest : Value
    manifest = build_manifest (registry c) name label now context (table_of (files d))

    abbrev pub final : Dir S
    final = write_json S "manifest.json" manifest (shot d)

    final_files :
        IsStore S
        → 0 < S.size p.dashboard_png
        → 0 < S.size p.computer_management_png
        → files_ok S final (required_relative_paths (registry c)) ≡ true
    unfolding live_files write write_files write_json tracked_manifest_paths required_relative_paths
        has_suffix ends_with collect_file_metadata
    final_files s h1 h2 = grind (arith, s.dumps_parses)

    abbrev config : Value
    config = capture_runtime_config S (registry c) now p.payload

    at_manifest : final "manifest.json" ≡ some (S.dumps manifest)
    unfolding write write_json
    at_manifest = refl

    pub at_config : final "config.json" ≡ some (S.dumps config)
    unfolding live_files write write_files write_json
    at_config = refl

    final_tracked :
        tracked_ok S final (tracked_manifest_paths (registry c)) (table_of (files d)) ≡ true
    unfolding live_files write write_files write_json tracked_manifest_paths collect_file_metadata
        value_eq
    final_tracked = simp (eq_refl, eqb_self)

    final_manifest :
        all (λ key. has key manifest_shape) c.manifest_required_fields ≡ true
        → manifest_ok S (registry c) final (ok manifest) ≡ true
    unfolding value_eq
    final_manifest h = rw h final_tracked

    fields_at :
        config
        ≡ obj (
            fields (
              ("schemaVersion", nat 1)
              ∷ ("capturedAt", str now)
              ∷ ("source", str c.source_kind)
              ∷ ("fields", obj (captured S (registry c) p.payload))
              ∷ []))
    unfolding capture_runtime_config
    fields_at = refl

    config-IsClean : IsCleanFields p.payload → IsClean config
    unfolding capture_runtime_config
    config-IsClean h =
        (refl, tt, (refl, tt, (refl, tt, (refl, captured-IsClean S (registry c) p.payload h, tt))))

    -- The configuration is read without an exception, and is in order.
    pub final_config :
        IsStore S
        → IsCleanFields p.payload
        → (config_fields_of S (S.dumps config) ≡ ok (captured S (registry c) p.payload))
          × ((xs : List String) × (read_config S (registry c) (final "config.json") ≡ ok xs))
    unfolding read_config as_mapping capture_runtime_config
    final_config s h =
        let loaded = s.loads_dumps config (config-IsClean h) in
        let secrets = captured-IsAccepted S (registry c) p.payload in
        (
          rw loaded refl,
          (
            config_errors c.critical_runtime_fields (captured S (registry c) p.payload) ++ [],
            rw (at_config, loaded, secrets.0) refl,
          ),
        )

    files-IsClean : IsCleanFields (table_of (files d))
    unfolding collect_file_metadata
    files-IsClean =
        collected-IsClean S (shot d) (tracked_manifest_paths (registry c)) end (table_of (files d))
          tt (files_found d)

    manifest-IsClean : IsCleanFields context → IsClean manifest
    manifest-IsClean h = (
      refl,
      tt,
      (
        refl,
        tt,
        (
          refl,
          tt,
          (refl, (refl, tt, (refl, tt, tt)), (refl, tt, (refl, h, (refl, files-IsClean, tt)))),
        ),
      ),
    )

    -- A later capture finds the manifest complete.
    pub final-is_complete :
        IsStore S → IsCleanFields context → is_complete S (final "manifest.json") ≡ ok true
    unfolding is_complete as_mapping value_eq
    final-is_complete s clean =
        rw (is_complete, at_manifest, s.loads_dumps manifest (manifest-IsClean clean)) refl

    -- The whole directory is in order.
    pub final_ok :
        IsStore S
        → 0 < S.size p.dashboard_png
        → 0 < S.size p.computer_management_png
        → IsCleanFields p.payload
        → IsCleanFields context
        → all (λ key. has key manifest_shape) c.manifest_required_fields ≡ true
        → baseline_ok S (registry c) final ≡ true
    final_ok s h1 h2 clean clean' keys =
        rw
          (
            final_files s h1 h2,
            at_manifest,
            at_config,
            s.loads_dumps manifest (manifest-IsClean clean'),
            final_manifest keys,
            (final_config s clean).0,
            (captured-IsAccepted S (registry c) p.payload).1,
          )
          refl
