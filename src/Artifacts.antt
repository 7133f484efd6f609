-- ===== src/Artifacts.antt =====
-- The JSON that the registration orchestrator writes: the `dict` literals of
-- platform/services/registration-orchestrator/orchestrator.py and of the last functions of
-- platform_runtime/registration.py, over the records of the other modules.
use liderahenk_test_platform.Base.{ℕ, String, Option, none, some, List, [], ◌∷◌}
use liderahenk_test_platform.Json.{
  ℤ, Value, bool, num, str, arr, obj, Items, nil, cons, Fields, end, field, fields, texts, nat,
}
use liderahenk_test_platform.Snapshot.{Snapshot}
use liderahenk_test_platform.Verdict.{Flags, TaxonomyEntry, AgentState, Counts, Evaluation}

-- `build_run_manifest`, and the three keys that `write_artifacts` sets. Durations are in seconds.
pub record RunManifest : Type 0 where
  pub run_id : String
  pub runtime_profile : String
  pub expected_agents : ℤ
  pub started_at : String
  pub timeout_seconds : ℕ
  pub min_backoff_seconds : ℕ
  pub max_backoff_seconds : ℕ
  pub last_verdict_at : Option String
  pub last_status : Option String
  pub attempt_count : Option ℕ

pub record Verdict : Type 0 where
  pub run_id : String
  pub runtime_profile : String
  pub expected_agents : ℤ
  pub evaluation : Evaluation
  pub snapshot : Snapshot

unfoldable pub build_run_manifest : ℤ → String → ℕ → ℕ → ℕ → String → String → RunManifest
build_run_manifest expected profile timeout min_backoff max_backoff run_id now = record {
  run_id = run_id;
  runtime_profile = profile;
  expected_agents = expected;
  started_at = now;
  timeout_seconds = timeout;
  min_backoff_seconds = min_backoff;
  max_backoff_seconds = max_backoff;
  last_verdict_at = none;
  last_status = none;
  attempt_count = none;
}

-- A key that is there only once it was set.
abbrev optional {ℓ} : {A : Type ℓ} → String → (A → Value) → Option A → Fields → Fields
optional k f none r = r
optional k f (some a) r = field k (f a) r

abbrev pub manifest_json : RunManifest → Fields
manifest_json m = fields (
    ("schemaVersion", nat 1)
    ∷ ("runId", str m.run_id)
    ∷ ("runtimeProfile", str m.runtime_profile)
    ∷ ("expectedAgents", num m.expected_agents)
    ∷ ("startedAt", str m.started_at)
    ∷ ("timeoutSeconds", nat m.timeout_seconds)
    ∷ (
      "backoff",
      obj (
          fields (
            ("minSeconds", nat m.min_backoff_seconds)
            ∷ ("maxSeconds", nat m.max_backoff_seconds)
            ∷ [])),
    )
    ∷ [])

-- The manifest as `write_artifacts` writes it.
abbrev pub manifest_file : RunManifest → Fields
manifest_file m = optional "lastVerdictAt" str m.last_verdict_at (
    optional "lastStatus" str m.last_status
      (optional "attemptCount" nat m.attempt_count (manifest_json m)))

abbrev pub flags_json : Flags → Fields
flags_json [] = end
flags_json ((name, b) ∷ r) = field name (bool b) (flags_json r)

abbrev pub taxonomy_entry_json : TaxonomyEntry → Value
taxonomy_entry_json t = obj (
    fields
      (("code", str t.code) ∷ ("severity", str t.severity) ∷ ("details", texts t.details) ∷ []))

abbrev pub taxonomy_json : List TaxonomyEntry → Items
taxonomy_json [] = nil
taxonomy_json (t ∷ r) = cons (taxonomy_entry_json t) (taxonomy_json r)

abbrev pub counts_json : Counts → Fields
counts_json c = fields (
    ("ldapAgentCount", nat c.ldap)
    ∷ ("xmppRegisteredCount", nat c.registered)
    ∷ ("xmppConnectedCount", nat c.connected)
    ∷ ("cAgentCount", nat c.c_agents)
    ∷ ("domainAgentCount", nat c.domain)
    ∷ ("computerTreeAgentCount", nat c.tree)
    ∷ ("dashboardTotalComputerNumber", c.dashboard_total)
    ∷ ("dashboardTotalOnlineComputerNumber", c.dashboard_online)
    ∷ [])

abbrev pub agent_json : AgentState → Value
agent_json a = obj (
    fields (
      ("agentId", str a.agent_id)
      ∷ ("states", obj (flags_json a.states))
      ∷ ("highestState", str a.highest_state)
      ∷ (
        "observability",
        obj (
            fields (
              ("register_sent", str "inferred_from_xmpp_connected")
              ∷ ("register_accepted", str "inferred_from_domain_inventory")
              ∷ [])),
      )
      ∷ []))

abbrev pub agents_json : List AgentState → Items
agents_json [] = nil
agents_json (a ∷ r) = cons (agent_json a) (agents_json r)

abbrev pub snapshot_json : Snapshot → Value
snapshot_json s = obj (
    fields (
      ("runtimeProfile", str s.runtime_profile)
      ∷ ("expectedAgents", num s.expected_agents)
      ∷ ("capturedAt", str s.captured_at)
      ∷ ("ldapAgentIds", texts s.ldap_ids)
      ∷ ("xmppRegisteredAgentIds", texts s.xmpp_registered)
      ∷ ("xmppConnectedAgentIds", texts s.xmpp_connected)
      ∷ ("cAgentIds", texts s.c_agent_ids)
      ∷ ("domainAgentIds", texts s.domain_agent_ids)
      ∷ ("computerTreeAgentIds", texts s.tree_agent_ids)
      ∷ (
        "dashboard",
        obj (
            fields (
              ("totalComputerNumber", s.dashboard.total)
              ∷ ("totalOnlineComputerNumber", s.dashboard.online)
              ∷ [])),
      )
      ∷ ("runtimeConfigFingerprint", s.config_fingerprint)
      ∷ []))

-- The verdict of `collect_verdict`.
abbrev pub verdict_json : Verdict → Fields
verdict_json v = fields (
    ("schemaVersion", nat 1)
    ∷ ("runId", str v.run_id)
    ∷ ("status", str v.evaluation.status)
    ∷ ("runtimeProfile", str v.runtime_profile)
    ∷ ("expectedAgents", num v.expected_agents)
    ∷ ("checks", obj (flags_json v.evaluation.checks))
    ∷ ("failedChecks", texts v.evaluation.failed_checks)
    ∷ ("taxonomy", arr (taxonomy_json v.evaluation.taxonomy))
    ∷ ("surfaces", obj (counts_json v.evaluation.surfaces))
    ∷ ("perAgent", arr (agents_json v.evaluation.per_agent))
    ∷ ("capturedAt", str v.evaluation.captured_at)
    ∷ ("snapshot", snapshot_json v.snapshot)
    ∷ [])

-- `build_failure_summary`
abbrev pub build_failure_summary : RunManifest → Verdict → Fields
build_failure_summary m v = fields (
    ("schemaVersion", nat 1)
    ∷ ("runId", str m.run_id)
    ∷ ("status", str v.evaluation.status)
    ∷ ("capturedAt", str v.evaluation.captured_at)
    ∷ ("failedChecks", texts v.evaluation.failed_checks)
    ∷ ("taxonomy", arr (taxonomy_json v.evaluation.taxonomy))
    ∷ [])

-- The line that `write_artifacts` appends to the events.
abbrev pub event_json : RunManifest → Verdict → ℕ → String → Fields
event_json m v attempt phase = fields (
    ("runId", str m.run_id)
    ∷ ("attempt", nat attempt)
    ∷ ("phase", str phase)
    ∷ ("status", str v.evaluation.status)
    ∷ ("failedChecks", texts v.evaluation.failed_checks)
    ∷ ("taxonomy", arr (taxonomy_json v.evaluation.taxonomy))
    ∷ ("capturedAt", str v.evaluation.captured_at)
    ∷ [])

-- The directory of artifacts. A file that was not written yet is `none`, and the events are lines.
pub record ArtifactFiles : Type 0 where
  pub run_manifest : Value
  pub registration_verdict : Option Value
  pub failure_summary : Option Value
  pub registration_snapshot : Option Value
  pub events : List Value
