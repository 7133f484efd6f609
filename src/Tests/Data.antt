-- ===== src/Tests/Data.antt =====
-- A run with one agent: what its surfaces answer, and the verdicts that follow.
use liderahenk_test_platform.Base.{ℕ, zero, suc, ◌+◌, String, none, List, [], ◌∷◌}
use liderahenk_test_platform.Json.{pos, Value, null, str, obj, end, fields, texts, nat}
use liderahenk_test_platform.Result.{ok, err}
use liderahenk_test_platform.ComputerTree
use liderahenk_test_platform.ComputerTree.{NodeFields, Node, Nodes}
use liderahenk_test_platform.Snapshot.{Surfaces, Snapshot}
use liderahenk_test_platform.Artifacts.{RunManifest}
use liderahenk_test_platform.Orchestrator.{Environment}

abbrev pub plain : Value → String
plain v = "?"

abbrev pub agent_fields : NodeFields
agent_fields = record {
  kind = str "AHENK";
  node_type = null;
  uid = str "ahenk-001";
  cn = null;
  name = null;
  dn = null;
}

abbrev pub folder_fields : NodeFields
folder_fields = record {
  kind = str "ORGANIZATIONAL_UNIT";
  node_type = null;
  uid = null;
  cn = null;
  name = str "Agents";
  dn = null;
}

abbrev pub one_agent : Nodes
one_agent =
    ComputerTree.cons (ComputerTree.node agent_fields ComputerTree.nil ComputerTree.nil)
      ComputerTree.nil

abbrev pub tree : Nodes
tree =
    ComputerTree.cons (ComputerTree.node folder_fields one_agent ComputerTree.nil) ComputerTree.nil

-- The answers when the agent has arrived everywhere, with these users connected.
abbrev pub surfaces_with : List Value → Surfaces
surfaces_with connected = record {
  dashboard_info =
      ok
        (obj (fields (("totalComputerNumber", nat 1) ∷ ("totalOnlineComputerNumber", nat 1) ∷ [])));
  agent_list = ok (obj (fields (("jid", str "ahenk-001@liderahenk.org") ∷ [])) ∷ []);
  computer_tree = ok tree;
  ldap_entries =
      ok (obj (fields (("attrs", obj (fields (("cn", texts ("ahenk-001" ∷ [])) ∷ []))) ∷ [])) ∷ []);
  registered_users = ok (str "ahenk-001" ∷ str "lider_sunucu" ∷ []);
  connected_users = ok connected;
  c_agents = ok (obj (fields (("hostname", str "ahenk-001-host") ∷ [])) ∷ []);
  config_json = ok (obj end);
}

abbrev pub all_there : Surfaces
all_there = surfaces_with (str "ahenk-001@liderahenk.org/ahenk" ∷ [])

abbrev pub unreachable_api : Surfaces
unreachable_api = record all_there { agent_list = err "HTTP 503" }

-- Ten ticks a second. The first observation fails, and each takes a tick.
abbrev pub observe_at : ℕ → String × Surfaces × ℕ
observe_at zero = ("2026-01-01T00:00:00Z", unreachable_api, 1)
observe_at (suc n) = ("2026-01-01T00:00:09Z", all_there, suc (suc n))

abbrev pub late_api : Environment
late_api = record {
  World = ℕ;
  second = 10;
  monotonic = λ w. w;
  sleep = λ d w. w + d;
  observe = observe_at;
}

abbrev pub manifest : RunManifest
manifest = record {
  run_id = "run-1";
  runtime_profile = "dev-fast";
  expected_agents = pos 1;
  started_at = "2026-01-01T00:00:00Z";
  timeout_seconds = 3;
  min_backoff_seconds = 1;
  max_backoff_seconds = 2;
  last_verdict_at = none;
  last_status = none;
  attempt_count = none;
}

abbrev ids : List String
ids = "ahenk-001" ∷ []

-- The snapshot of `all_there`, with these users connected.
abbrev pub snapshot_with : List String → Snapshot
snapshot_with connected = record {
  runtime_profile = "dev-fast";
  expected_agents = pos 1;
  captured_at = "2026-01-01T00:00:09Z";
  ldap_ids = ids;
  xmpp_registered = ids;
  xmpp_connected = connected;
  c_agent_ids = ids;
  domain_agent_ids = ids;
  tree_agent_ids = ids;
  dashboard = record { total = nat 1; online = nat 1 };
  config_fingerprint = str "?";
}
