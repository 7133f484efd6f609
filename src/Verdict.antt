-- ===== src/Verdict.antt =====
-- `RegistrationCollector.evaluate_snapshot` and `_build_per_agent_state` of
-- platform_runtime/registration.py, with the severities of platform/contracts/failure-taxonomy.yaml.
-- A `dict` of checks or flags is the list of its entries, in the order of the literal.
pub mod Parity
pub mod Agents
pub mod Failures
use liderahenk_test_platform.Base.{
  ℕ, String, Bool, true, false, not, ◌&&◌, List, [], ◌∷◌, ◌++◌, map, length, all, is_nil, last_or,
  contains, same_texts, if◌then◌else◌,
}
use liderahenk_test_platform.Base.Sorted.{sorted_keys}
use liderahenk_test_platform.Json.{ℤ, pos, Value, num, nat, int_eq, value_eq}
use liderahenk_test_platform.Snapshot.{Snapshot}

abbrev pub Flags : Type 0
Flags = List (String × Bool)

-- `[name for name, passed in flags.items() if passed]`, and those that did not pass
unfoldable pub names_of : Bool → Flags → List String
names_of b [] = []
names_of b ((name, passed) ∷ r) =
    let rest = names_of b r in
    if passed then (if b then name ∷ rest else rest) else if b then rest else name ∷ rest

-- `all(flags.values())`
abbrev pub all_set : Flags → Bool
all_set [] = true
all_set ((_, passed) ∷ r) = passed && all_set r

pub record TaxonomyEntry : Type 0 where
  pub code : String
  pub severity : String
  pub details : List String

pub record AgentState : Type 0 where
  pub agent_id : String
  pub states : Flags
  pub highest_state : String

-- The counts of `surfaces`, with the two of the dashboard as they were read.
pub record Counts : Type 0 where
  pub ldap : ℕ
  pub registered : ℕ
  pub connected : ℕ
  pub c_agents : ℕ
  pub domain : ℕ
  pub tree : ℕ
  pub dashboard_total : Value
  pub dashboard_online : Value

pub record Evaluation : Type 0 where
  pub status : String
  pub checks : Flags
  pub taxonomy : List TaxonomyEntry
  pub failed_checks : List String
  pub surfaces : Counts
  pub per_agent : List AgentState
  pub captured_at : String

-- `FAILURE_TAXONOMY[code]["severity"]` at the three codes in use
unfoldable pub failure : String → List String → TaxonomyEntry
failure code details = record { code = code; severity = "error"; details = details }

abbrev matches : List String → ℤ → Bool
matches ids expected = int_eq (pos (length ids)) expected

unfoldable pub checks_of : Snapshot → Flags
checks_of s =
    ("ldap_matches_expected", matches s.ldap_ids s.expected_agents)
    ∷ ("xmpp_registered_matches_expected", matches s.xmpp_registered s.expected_agents)
    ∷ ("xmpp_connected_matches_expected", matches s.xmpp_connected s.expected_agents)
    ∷ ("c_agent_matches_expected", matches s.c_agent_ids s.expected_agents)
    ∷ ("domain_agent_list_matches_expected", matches s.domain_agent_ids s.expected_agents)
    ∷ ("computer_tree_matches_expected", matches s.tree_agent_ids s.expected_agents)
    ∷ ("dashboard_total_matches_expected", value_eq s.dashboard.total (num s.expected_agents))
    ∷ (
      "dashboard_online_matches_xmpp_connected",
      value_eq s.dashboard.online (nat (length s.xmpp_connected)),
    )
    ∷ ("ldap_matches_xmpp_registered", same_texts s.ldap_ids s.xmpp_registered)
    ∷ ("ldap_matches_c_agent", same_texts s.ldap_ids s.c_agent_ids)
    ∷ ("c_agent_matches_domain_agent_list", same_texts s.c_agent_ids s.domain_agent_ids)
    ∷ ("c_agent_matches_computer_tree", same_texts s.c_agent_ids s.tree_agent_ids)
    ∷ []

adapter_failure : List String → List TaxonomyEntry
unfolding failure
adapter_failure errors = if is_nil errors then [] else failure "adapter_error" errors ∷ []

check_failure : Bool → List String → List TaxonomyEntry
unfolding failure
check_failure timed_out failed =
    if timed_out && not (is_nil failed)
    then failure "registration_timeout" failed ∷ []
    else if not (is_nil failed)
    then failure "registration_projection_mismatch" failed ∷ []
    else []

unfoldable pub taxonomy_of : Bool → List String → List String → List TaxonomyEntry
unfolding adapter_failure check_failure
taxonomy_of timed_out errors failed = adapter_failure errors ++ check_failure timed_out failed

abbrev pub all_ids : Snapshot → List String
all_ids s =
    s.ldap_ids
    ++ (s.xmpp_registered
        ++ (s.xmpp_connected ++ (s.c_agent_ids ++ (s.domain_agent_ids ++ s.tree_agent_ids))))

unfoldable pub state_flags : Snapshot → String → Flags
state_flags s id =
    ("ldap_entry_ready", contains s.ldap_ids id)
    ∷ ("xmpp_identity_ready", contains s.xmpp_registered id)
    ∷ ("register_sent", contains s.xmpp_connected id)
    ∷ ("register_accepted", contains s.domain_agent_ids id)
    ∷ ("c_agent_ready", contains s.c_agent_ids id)
    ∷ (
      "domain_ready",
      contains s.ldap_ids id
          && contains s.xmpp_registered id
          && contains s.xmpp_connected id
          && contains s.c_agent_ids id
          && contains s.domain_agent_ids id
          && contains s.tree_agent_ids id,
    )
    ∷ []

unfoldable pub agent_state : Snapshot → String → AgentState
agent_state s id = record {
  agent_id = id;
  states = state_flags s id;
  highest_state = last_or "missing" (names_of true (state_flags s id));
}

unfoldable pub per_agent_state : Snapshot → List AgentState
per_agent_state s = map (agent_state s) (sorted_keys (all_ids s))

abbrev pub counts_of : Snapshot → Counts
counts_of s = record {
  ldap = length s.ldap_ids;
  registered = length s.xmpp_registered;
  connected = length s.xmpp_connected;
  c_agents = length s.c_agent_ids;
  domain = length s.domain_agent_ids;
  tree = length s.tree_agent_ids;
  dashboard_total = s.dashboard.total;
  dashboard_online = s.dashboard.online;
}

unfoldable pub evaluate_snapshot : Snapshot → Bool → List String → Evaluation
evaluate_snapshot s timed_out errors =
    let failed = names_of false (checks_of s) in
    let taxonomy = taxonomy_of timed_out errors failed in
    record {
      status = if is_nil taxonomy && all_set (checks_of s) then "pass" else "fail";
      checks = checks_of s;
      taxonomy = taxonomy;
      failed_checks = failed;
      surfaces = counts_of s;
      per_agent = per_agent_state s;
      captured_at = s.captured_at;
    }
