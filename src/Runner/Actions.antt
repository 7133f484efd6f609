-- ===== src/Runner/Actions.antt =====
-- `_execute_step` of orchestrator/main.py, action by action, inside its `try`.
use liderahenk_test_platform.Base.{
  zero, suc, String, ◌<>◌, Bool, true, false, ◌&&◌, ◌||◌, Option, none, some, [], ◌∷◌, length,
  if◌then◌else◌,
}
use liderahenk_test_platform.Json.{
  ℤ, pos, negsuc, Value, bool, num, str, obj, Fields, end, fields, get, truthy, or_else, is_null,
  int_eq, value_eq,
}
use liderahenk_test_platform.Access.{as_mapping, get_or, at_key}
use liderahenk_test_platform.Result.{Result, ok, err, ◌>>=◌ as bind, on_result}
use liderahenk_test_platform.Identity.{text_of, int_text}
use liderahenk_test_platform.ComputerTree.{flatten_tree_agent_ids}
use liderahenk_test_platform.PolicyRoundtrip.{find_in, is_agent}
use liderahenk_test_platform.Runner.{
  Adapters, RunnerState, StepResult, Action, raised, outcome, usable, given, resolve_var,
}
use liderahenk_test_platform.Runner.{
  check_api_health, check_jwt_auth, check_ldap_agent_count, check_xmpp_agent_count,
  check_c_agent_count, check_domain_agent_count, check_dashboard_total, check_computer_tree_count,
  check_agent_exists, check_connection_rate, send_task, create_computer_group,
  create_script_profile, create_policy, execute_policy, wait_for_results, prometheus_snapshot,
  unknown,
}

-- A call in a world.
abbrev pub M : Type 0 → Type 0 → Type 0
M W B = W → Result B × W

infixl 10 ◌>>=◌
unfoldable pub ◌>>=◌ : {W B C : Type 0} → M W B → (B → M W C) → M W C
◌>>=◌ m f w = (let (r, w') = m w in on_result r (λ b. f b w') (λ e. (err e, w')))

abbrev pub lift : {W B : Type 0} → Result B → M W B
lift r w = (r, w)

abbrev pub pure : {W B : Type 0} → B → M W B
pure b w = (ok b, w)

abbrev pub Handler : Type 0 → Type 0
Handler W = M W (StepResult × RunnerState)

-- What a handler gives, and the failure that an exception becomes; the state stays then.
unfoldable pub caught : RunnerState → Result (StepResult × RunnerState) → StepResult × RunnerState
caught s r = on_result r (λ both. both) (λ e. (raised e, s))

module _ (repr : Value → String) (int_of : Value → Result ℤ) (ahenk_count : ℤ) (A : Adapters) where
  unfoldable pub expected_of : Value → Result ℤ
  expected_of params =
      bind (at_key "expected" params) λ v. int_of (str (resolve_var repr ahenk_count v))

  abbrev counted : String → ℤ → ℤ → StepResult
  counted what actual expected =
      outcome (int_eq actual expected)
        (str (int_text actual <> ("/" <> (int_text expected <> what))))
        (fields (("actual", num actual) ∷ ("expected", num expected) ∷ []))

  -- The checks that compare a count with the expected one.
  unfoldable pub check_count : String → M A.World ℤ → Value → RunnerState → Handler A.World
  unfolding expected_of
  check_count what count params s = do
    expected ← lift (expected_of params)
    actual ← count
    pure (counted what actual expected, s)

  -- The server's own account is left out.
  abbrev without_own : ℤ → ℤ
  without_own (pos zero) = pos 0
  without_own (pos (suc n)) = pos n
  without_own (negsuc n) = pos 0

  abbrev known_if : Bool → M A.World Bool → M A.World Bool
  known_if true m = m
  known_if false m = pure true

  abbrev python_bool : Bool → String
  python_bool true = "True"
  python_bool false = "False"

  -- `_find_agent_entry`, and the entry that a step selects; a missing `agent_id` takes the first.
  abbrev matches : Value → Fields → Bool
  matches agent_id f =
      is_agent f
      && (is_null agent_id || value_eq (get "uid" f) agent_id || value_eq (get "cn" f) agent_id)

  abbrev entry_or : Value → Option Fields → Result Fields
  entry_or agent_id (some f) = ok f
  entry_or agent_id none =
      err ("Ajan bulunamadı: " <> text_of repr (or_else agent_id (str "first-online")))

  unfoldable pub select_agent_entry : Value → M A.World Fields
  unfolding find_in
  select_agent_entry agent_id = do
    entries ← A.computer_entries
    lift (entry_or agent_id (usable (find_in (matches agent_id) entries)))

  -- The rate check: the rate is at least `min_pct`, or 0.90 where it is not given, as Python's
  -- floats compare, and its text.
  module _ (reaches : ℤ → ℤ → Option Value → Result Bool) (rate_text : ℤ → ℤ → String) where
    abbrev env_or : String → String → String
    env_or name default = elim (A.environ name) [ none ↦ default | some v ↦ v ]

    abbrev group_dn : String
    group_dn =
        env_or "LDAP_AGENT_GROUPS_OU"
          ("ou=AgentGroups," <> env_or "LDAP_BASE_DN" "dc=liderahenk,dc=org")

    -- Makes a policy from the profile that an earlier step made.
    unfoldable pub make_policy : Value → Option Fields → RunnerState → Handler A.World
    unfolding as_mapping at_key resolve_var
    make_policy params none s =
        pure (outcome false (str "Önce create_script_profile çalışmalı") end, s)
    make_policy params (some profile) s = do
      label ← lift (at_key "label" params)
      r ← lift (as_mapping params)
      policy ←
          A.create_policy (resolve_var repr ahenk_count label) (get_or "description" (str "") r)
            profile (truthy (get "active" r))
      pure (
        outcome true (get_or "label" (str "policy") policy) (fields (("policy", obj policy) ∷ [])),
        record s { last_policy = some policy },
      )

    -- Runs the policy and the group that earlier steps made.
    unfoldable pub run_policy : Option Fields → Option Fields → RunnerState → Handler A.World
    unfolding at_key
    run_policy (some policy) (some group) s = do
      id ← lift (at_key "id" (obj policy))
      dn ← lift (at_key "distinguishedName" (obj group))
      status ← A.execute_policy id dn
      pure (outcome (int_eq status (pos 200)) (str ("policy -> HTTP " <> int_text status)) end, s)
    run_policy _ _ s =
        pure (outcome false (str "Önce create_policy ve create_computer_group çalışmalı") end, s)

    -- `_execute_step`, inside its `try`
    unfoldable pub perform : Action → Value → RunnerState → Handler A.World
    unfolding check_count select_agent_entry make_policy run_policy resolve_var as_mapping at_key
        flatten_tree_agent_ids
    perform check_api_health params s = do
      up ← A.health_check
      pure (outcome up (str (if up then "API sağlıklı" else "API erişilemez")) end, s)
    perform check_jwt_auth params s = do
      up ← A.is_authenticated
      pure (outcome up (str (if up then "JWT auth aktif" else "Auth yok")) end, s)
    perform check_ldap_agent_count params s = check_count " ajan" A.ldap_agent_count params s
    perform check_xmpp_agent_count params s =
        check_count " ajan" (A.registered_count >>= λ n. pure (without_own n)) params s
    perform check_c_agent_count params s = check_count " c_agent" A.c_agent_count params s
    perform check_domain_agent_count params s =
        check_count " domain ajan" (A.agent_list >>= λ l. pure (pos (length l))) params s
    perform check_dashboard_total params s =
        check_count " dashboard total"
          (A.dashboard_info >>= λ d. lift (
            bind (as_mapping (or_else d (obj end)))
              λ r. int_of (or_else (get "totalComputerNumber" r) (num (pos 0)))))
          params s
    perform check_computer_tree_count params s =
        check_count " tree ajan"
          (A.computer_tree >>= λ t. pure (pos (length (flatten_tree_agent_ids repr t)))) params s
    perform check_agent_exists params s = do
      id ← lift (at_key "agent_id" params)
      r ← lift (as_mapping params)
      ldap ←
          known_if (truthy (get "check_ldap" r)) (A.agent_exists (resolve_var repr ahenk_count id))
      xmpp ←
          known_if (truthy (get "check_xmpp" r))
            (A.is_user_registered (resolve_var repr ahenk_count id))
      pure (
        outcome (ldap && xmpp)
            (str ("LDAP=" <> (python_bool ldap <> (" XMPP=" <> python_bool xmpp))))
            (fields (("ldap", bool ldap) ∷ ("xmpp", bool xmpp) ∷ [])),
        s,
      )
    perform check_connection_rate params s = do
      r ← lift (as_mapping params)
      connected ← A.connected_count
      enough ← lift (reaches connected ahenk_count (given "min_pct" r))
      pure (outcome enough (str (rate_text connected ahenk_count)) end, s)
    perform send_task params s = do
      command ← lift (at_key "command_id" params)
      r ← lift (as_mapping params)
      entry ← select_agent_entry (get "agent_id" r)
      status ← A.send_task entry command (get_or "parameter_map" (obj end) r)
      pure (
        outcome (int_eq status (pos 200))
            (str (text_of repr command <> (" -> HTTP " <> int_text status)))
            (fields (("status_code", num status) ∷ [])),
        s,
      )
    perform create_computer_group params s = do
      name ← lift (at_key "group_name" params)
      r ← lift (as_mapping params)
      entry ← select_agent_entry (get "agent_id" r)
      group ←
          A.create_computer_group (resolve_var repr ahenk_count name) entry
            (get_or "selected_ou_dn" (str group_dn) r)
      pure (
        outcome true (get_or "distinguishedName" (str (resolve_var repr ahenk_count name)) group)
            (fields (("group", obj group) ∷ [])),
        record s { last_group = some group },
      )
    perform create_script_profile params s = do
      label ← lift (at_key "label" params)
      r ← lift (as_mapping params)
      kind ← lift (int_of (get_or "script_type" (num (pos 0)) r))
      profile ←
          A.create_script_profile (resolve_var repr ahenk_count label)
            (get_or "description" (str "") r)
            (get_or "script_contents" (str "#!/bin/bash\nprintf 'ok\\n'") r) kind
            (get_or "script_params" (str "") r)
      pure (
        outcome true (get_or "label" (str "profile") profile)
            (fields (("profile", obj profile) ∷ [])),
        record s { last_profile = some profile },
      )
    perform create_policy params s = make_policy params (usable s.last_profile) s
    perform execute_policy params s = run_policy (usable s.last_policy) (usable s.last_group) s
    perform wait_for_results params s = do
      r ← lift (as_mapping params)
      slept ← A.sleep_at_most_five (get_or "timeout_seconds" (num (pos 10)) r)
      pure (
        outcome true
            (str (text_of repr (get_or "timeout_seconds" (num (pos 10)) r) <> "sn beklendi")) end,
        s,
      )
    perform prometheus_snapshot params s =
        pure (outcome true (str "metrik snapshot tamamlandı") end, s)
    perform (unknown v) params s =
        pure (outcome false (str ("Bilinmeyen action: " <> text_of repr v)) end, s)
