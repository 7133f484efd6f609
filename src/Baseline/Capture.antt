-- ===== src/Baseline/Capture.antt =====
-- `capture_golden_baseline` and what it calls. The platform that is captured is a record of
-- answers: a call may raise, and the calls are made in the order of the fields.
use liderahenk_test_platform.Base.{
  String, ◌<>◌, Bool, true, false, not, ◌&&◌, Option, none, some, List, [], ◌∷◌, ◌==◌, map,
  if◌then◌else◌, contains,
}
use liderahenk_test_platform.Base.Text.{is_empty, text_ltb}
use liderahenk_test_platform.Base.Sorted.{sorted_keys}
use liderahenk_test_platform.Json.{
  ℤ, Value, null, bool, num, str, arr, obj, Fields, end, field, fields, items, from_items, get, put,
  nat, texts, is_null, or_else, value_eq,
}
use liderahenk_test_platform.Result.{Result, ok, err, ◌>>=◌, on_result}
use liderahenk_test_platform.Identity.{text_of, normalize_agent_id}
use liderahenk_test_platform.ComputerTree.{Nodes, flatten_tree_agent_ids}
use liderahenk_test_platform.Snapshot.{identities}
use liderahenk_test_platform.Access.{as_mapping}
use liderahenk_test_platform.Baseline.{
  Contract, Store, Dir, tracked_manifest_paths, write, write_json, hash_text, collect_file_metadata,
}
use liderahenk_test_platform.Baseline.Validate.{Validation, validate_golden_baseline}

-- The environment, and an env file with its values, which is none where the file is missing.
abbrev pub Environ : Type 0
Environ = String → Option String

pub record EnvFile : Type 0 where
  pub path : String
  pub values : Option (List (String × Option String))

abbrev pub env_or : String → String → Environ → String
env_or name default e = elim (e name) [ none ↦ default | some v ↦ v ]

set_env : String → String → Environ → Environ
set_env name v e other = if name == other then some v else e other

load_values : List (String × Option String) → Environ → Environ
load_values [] e = e
load_values ((name, none) ∷ r) e = load_values r e
load_values ((name, some v) ∷ r) e = load_values r (set_env name v e)

unfoldable pub apply_capture_environment : Option EnvFile → Environ → Result Environ
unfolding load_values set_env
apply_capture_environment none e = ok e
apply_capture_environment (some file) e = elim file.values [
  | none ↦ err ("capture env file not found: " <> file.path)
  | some values ↦ ok (load_values values e)
]

-- An entry of the directory.
pub record LdapEntry : Type 0 where
  pub dn : String
  pub attrs : Fields

-- What the platform answers. The computer tree is given as data and as the nodes that the walk
-- reads, and a row of the inventory is a mapping.
pub record Answers (Blob : Type 0) : Type 0 where
  pub dashboard_info : Result Value
  pub agent_list : Result (List Fields)
  pub computer_tree : Result (Value × Nodes)
  pub ldap_entries : Result (List LdapEntry)
  pub config_json : Result Value
  pub dashboard_png : Result Blob
  pub computer_management_png : Result Blob

module _ (repr : Value → String) where
  attr_texts : Value → Value
  attr_texts (arr xs) = texts (map (text_of repr) (from_items xs))
  attr_texts v = str (text_of repr v)

  normalize_attrs : Fields → Fields
  normalize_attrs end = end
  normalize_attrs (field k v r) = field k (attr_texts v) (normalize_attrs r)

  insert_entry : LdapEntry → List LdapEntry → List LdapEntry
  insert_entry x [] = x ∷ []
  insert_entry x (y ∷ ys) =
      let rest = insert_entry x ys in if text_ltb y.dn x.dn then y ∷ rest else x ∷ y ∷ ys

  -- `_normalize_ldap_entries`: a stable sort by name
  unfoldable pub normalize_ldap_entries : List LdapEntry → List LdapEntry
  unfolding normalize_attrs attr_texts insert_entry text_ltb
  normalize_ldap_entries [] = []
  normalize_ldap_entries (x ∷ r) =
      insert_entry (record x { attrs = normalize_attrs x.attrs }) (normalize_ldap_entries r)

  agent_spellings : List Fields → List (Option String)
  agent_spellings [] = []
  agent_spellings (a ∷ r) =
      normalize_agent_id repr (get "jid" a)
      ∷ normalize_agent_id repr (get "uid" a)
      ∷ normalize_agent_id repr (get "hostname" a)
      ∷ normalize_agent_id repr (get "distinguishedName" a)
      ∷ agent_spellings r

  -- The `agentIds` of the inventory.
  unfoldable pub inventory_ids : List Fields → List String
  unfolding agent_spellings identities sorted_keys normalize_agent_id
  inventory_ids agents = sorted_keys (identities (agent_spellings agents))

abbrev entry_json : LdapEntry → Value
entry_json x = obj (fields (("dn", str x.dn) ∷ ("attrs", obj x.attrs) ∷ []))

abbrev row_json : Fields → Value
row_json r = obj r

module _ (S : Store) where
  -- The entry of one field: a secret has no value in it.
  unfoldable pub config_entry : Bool → Value → Fields
  unfolding hash_text
  config_entry secret v =
      let shown = fields (
        ("present", bool (not (is_null v)))
        ∷ ("source", str "c_config.liderConfigParams")
        ∷ ("sha256", str (hash_text S v))
        ∷ []) in
      if not secret && not (is_null v) then put "value" v shown else shown

  unfoldable pub config_fields : Contract → Fields → List String → Fields → Fields
  unfolding config_entry put
  config_fields c payload [] done = done
  config_fields c payload (name ∷ r) done = config_fields c payload r (
      put name (obj (config_entry (contains c.secret_runtime_fields name) (get name payload))) done)

  -- `_capture_runtime_config`, after the answer of the database
  unfoldable pub capture_runtime_config : Contract → String → Fields → Value
  unfolding config_fields
  capture_runtime_config c now payload = obj (
      fields (
        ("schemaVersion", nat 1)
        ∷ ("capturedAt", str now)
        ∷ ("source", str c.source_kind)
        ∷ ("fields", obj (config_fields c payload c.critical_runtime_fields end))
        ∷ []))

  abbrev stamped : String → List (String × Value) → Value
  stamped now r = obj (fields (("schemaVersion", nat 1) ∷ ("capturedAt", str now) ∷ r))

  -- `_collect_live_baseline_payload`, as the files to write
  unfoldable pub live_files :
      (Value → String)
      → Contract
      → String
      → Value
      → List Fields
      → Value × Nodes
      → List LdapEntry
      → Fields
      → List (String × Value)
  unfolding normalize_ldap_entries capture_runtime_config inventory_ids flatten_tree_agent_ids
  live_files repr c now dashboard agents tree entries payload =
      (
        "ldap-tree.json",
        stamped now
            (("entries", arr (items (map entry_json (normalize_ldap_entries repr entries)))) ∷ []),
      )
      ∷ ("config.json", capture_runtime_config c now payload)
      ∷ ("api-captures/dashboard.json", stamped now (("payload", dashboard) ∷ []))
      ∷ (
        "api-captures/agent-list.json",
        stamped now (
            ("payload", arr (items (map row_json agents)))
            ∷ ("agentIds", texts (inventory_ids repr agents))
            ∷ []),
      )
      ∷ (
        "api-captures/computer-tree.json",
        stamped now
            (("payload", tree.0) ∷ ("agentIds", texts (flatten_tree_agent_ids repr tree.1)) ∷ []),
      )
      ∷ []

  unfoldable pub collect_live_baseline_payload :
      (Value → String) → Contract → String → Answers S.Blob → Result (List (String × Value))
  unfolding live_files as_mapping
  collect_live_baseline_payload repr c now a = do
    dashboard ← a.dashboard_info
    agents ← a.agent_list
    tree ← a.computer_tree
    entries ← a.ldap_entries
    config ← a.config_json
    payload ← as_mapping config
    ok (live_files repr c now (or_else dashboard (obj end)) agents tree entries payload)

-- `_build_capture_context`; `int_of` is `int` at a text
module _ (int_of : String → Result ℤ) where
  abbrev pub env_path : Option EnvFile → Value
  env_path none = null
  env_path (some file) = str file.path

  abbrev pub context_of : String → Option EnvFile → String → Bool → Environ → ℤ → ℤ → Fields
  context_of host file label ui e ldap_port mysql_port = fields (
      ("capturedByHost", str host)
      ∷ ("envFile", env_path file)
      ∷ ("sourceLabel", str label)
      ∷ ("captureUiEvidence", bool ui)
      ∷ (
        "apiUrl",
        str (env_or "LIDER_API_URL_EXTERNAL" (env_or "LIDER_API_URL" "http://localhost:8082" e) e),
      )
      ∷ ("uiUrl", str (env_or "LIDER_UI_URL" "http://localhost:3001" e))
      ∷ (
        "ldap",
        obj (
            fields (
              ("host", str (env_or "LDAP_HOST" "localhost" e))
              ∷ ("port", num ldap_port)
              ∷ ("baseDn", str (env_or "LDAP_BASE_DN" "dc=liderahenk,dc=org" e))
              ∷ [])),
      )
      ∷ (
        "mysql",
        obj (
            fields (
              ("host", str (env_or "MYSQL_HOST" "127.0.0.1" e))
              ∷ ("port", num mysql_port)
              ∷ ("database", str (env_or "MYSQL_DATABASE" "liderahenk" e))
              ∷ ("user", str (env_or "MYSQL_USER" "lider" e))
              ∷ [])),
      )
      ∷ ("xmpp", obj (fields (("domain", str (env_or "XMPP_DOMAIN" "liderahenk.org" e)) ∷ [])))
      ∷ [])

  unfoldable pub build_capture_context :
      String → Option EnvFile → String → Bool → Environ → Result Fields
  build_capture_context host file label ui e = do
    ldap_port ← int_of (env_or "LDAP_PORT" "1389" e)
    mysql_port ← int_of (env_or "MYSQL_PORT" "3306" e)
    ok (context_of host file label ui e ldap_port mysql_port)

-- `_build_manifest`
abbrev pub build_manifest : Contract → String → String → String → Fields → Fields → Value
build_manifest c name label now context files = obj (
    fields (
      ("schemaVersion", nat 1)
      ∷ ("baselineName", str name)
      ∷ ("status", str "capture-complete")
      ∷ ("source", obj (fields (("kind", str c.source_kind) ∷ ("label", str label) ∷ [])))
      ∷ ("capturedAt", str now)
      ∷ ("captureContext", obj context)
      ∷ ("files", obj files)
      ∷ []))

-- What a capture is given, besides the directory.
pub record Capture (Blob : Type 0) : Type 0 where
  pub source_label : Option String
  pub env_file : Option EnvFile
  pub force : Bool
  pub confirm_stock_source : Bool
  pub host : String
  pub now : String
  pub environ : Environ
  pub answers : Environ → Answers Blob

module _ (S : Store) where
  unfoldable pub write_files : List (String × Value) → Dir S → Dir S
  unfolding write_json
  write_files [] d = d
  write_files ((path, payload) ∷ r) d = write_files r (write_json S path payload d)

  -- The manifest that is there says that the capture was complete. One that is no JSON counts as
  -- empty, and one that is no object raises.
  unfoldable pub is_complete : Option S.Blob → Result Bool
  unfolding as_mapping value_eq
  is_complete none = ok false
  is_complete (some blob) = as_mapping (on_result (S.loads blob) (λ v. v) (λ e. obj end)) >>= λ m.
      ok (value_eq (get "status" m) (str "capture-complete"))

  -- `_capture_ui_evidence`: two pages are photographed, each into its file
  unfoldable pub capture_ui_evidence : Answers S.Blob → Dir S → Result (Unit {0}) × Dir S
  unfolding write
  capture_ui_evidence a d =
      on_result a.dashboard_png
        (λ first.
          let d' = write S "ui-evidence/dashboard.png" first d in
          on_result a.computer_management_png
            (λ second. (ok tt, write S "ui-evidence/computer-management.png" second d'))
            (λ e. (err e, d')))
        (λ e. (err e, d))

  module _ (repr : Value → String) (int_of : String → Result ℤ) (c : Contract) where
    -- `source_label or os.environ.get(…)`: an empty label counts as none
    unfoldable pub source_of : Option String → Environ → String
    source_of none e = env_or "BASELINE_SOURCE_LABEL" "stock-liderahenk-install" e
    source_of (some label) e =
        if is_empty label
        then env_or "BASELINE_SOURCE_LABEL" "stock-liderahenk-install" e
        else label

    -- The manifest that a capture writes last.
    unfoldable pub capture_manifest : Capture S.Blob → Environ → Dir S → Result Value
    unfolding build_capture_context collect_file_metadata tracked_manifest_paths source_of
    capture_manifest k e d = do
      context ← build_capture_context int_of k.host k.env_file (source_of k.source_label e) true e
      files ← collect_file_metadata S d (tracked_manifest_paths c)
      ok (
          build_manifest c (env_or c.baseline_name_env "stock-liderahenk" e)
            (source_of k.source_label e) k.now context files)

    unfoldable pub finish_capture : Capture S.Blob → Environ → Dir S → Result Validation × Dir S
    unfolding capture_manifest write_json validate_golden_baseline
    finish_capture k e d =
        on_result (capture_manifest k e d)
          (λ manifest.
            let d' = write_json S c.manifest manifest d in (validate_golden_baseline S c d', d'))
          (λ e'. (err e', d))

    unfoldable pub photograph : Capture S.Blob → Environ → Dir S → Result Validation × Dir S
    unfolding capture_ui_evidence finish_capture
    photograph k e d =
        let (shot, d') = capture_ui_evidence (k.answers e) d in
        on_result shot (λ done. finish_capture k e d') (λ e'. (err e', d'))

    unfoldable pub take_capture : Capture S.Blob → Environ → Dir S → Result Validation × Dir S
    unfolding collect_live_baseline_payload write_files photograph
    take_capture k e d =
        on_result (collect_live_baseline_payload S repr c k.now (k.answers e))
          (λ payloads. photograph k e (write_files payloads d)) (λ e'. (err e', d))

    abbrev refused_overwrite : String
    refused_overwrite = "Refusing to overwrite capture-complete baseline"

    unfoldable pub guarded_capture : Capture S.Blob → Environ → Dir S → Result Validation × Dir S
    unfolding is_complete take_capture
    guarded_capture k e d =
        if k.force
        then take_capture k e d
        else on_result (is_complete (d c.manifest))
            (λ complete. if complete then (err refused_overwrite, d) else take_capture k e d)
            (λ e'. (err e', d))

    unfoldable pub capture_golden_baseline : Capture S.Blob → Dir S → Result Validation × Dir S
    unfolding apply_capture_environment guarded_capture
    capture_golden_baseline k d =
        if k.confirm_stock_source
        then on_result (apply_capture_environment k.env_file k.environ) (λ e. guarded_capture k e d)
            (λ e'. (err e', d))
        else (err "Refusing to capture canonical golden baseline", d)
