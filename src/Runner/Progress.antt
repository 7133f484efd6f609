-- ===== src/Runner/Progress.antt =====
-- The runner as a machine of three flags: which of a group, a profile and a policy it can use.
use liderahenk_test_platform.Base.{
  String, ◌≡◌, refl, Bool, true, false, ◌⊎◌, inl, inr, Option, none, some,
}
use liderahenk_test_platform.Json.{ℤ, Value, Fields}
use liderahenk_test_platform.Result.{Result, ok, err, on_result}
use liderahenk_test_platform.Runner.{Adapters, RunnerState, StepResult, Action, usable}
use liderahenk_test_platform.Runner.{
  check_api_health, check_jwt_auth, check_ldap_agent_count, check_xmpp_agent_count,
  check_c_agent_count, check_domain_agent_count, check_dashboard_total, check_computer_tree_count,
  check_agent_exists, check_connection_rate, send_task, create_computer_group,
  create_script_profile, create_policy, execute_policy, wait_for_results, prometheus_snapshot,
  unknown,
}
use liderahenk_test_platform.Runner.Actions.{
  M, ◌>>=◌, pure, Handler, perform, caught, check_count, make_policy, run_policy,
}

pub record Stage : Type 0 where
  pub group : Bool
  pub profile : Bool
  pub policy : Bool

abbrev pub is_usable : Option Fields → Bool
is_usable o = elim (usable o) [ none ↦ false | some r ↦ true ]

abbrev pub stage_of : RunnerState → Stage
stage_of s = record {
  group = is_usable s.last_group;
  profile = is_usable s.last_profile;
  policy = is_usable s.last_policy;
}

-- The actions that leave the flags as they are.
abbrev pub keeps : Action → Bool
keeps create_computer_group = false
keeps create_script_profile = false
keeps create_policy = false
keeps execute_policy = false
keeps _ = true

-- What a step of an action may do to the flags, when it fails and when it succeeds.
pub data Move (g : Stage) : Action → Bool → Stage → Type 0 where
  fails : (a : Action) → Move g a false g
  checks : (a : Action) → keeps a ≡ true → Move g a true g
  groups : (b : Bool) → Move g create_computer_group true (record g { group = b })
  profiles : (b : Bool) → Move g create_script_profile true (record g { profile = b })
  policies : (b : Bool) → g.profile ≡ true → Move g create_policy true (record g { policy = b })
  executes : g.policy ≡ true → g.group ≡ true → Move g execute_policy true g

either : {g : Stage} {a : Action} (b : Bool) → Move g a true g → Move g a b g
either true m = m
either {a = a} false m = fails a

-- Where a handler leaves the flags, also when it raises.
abbrev pub Moves : Action → RunnerState → Result (StepResult × RunnerState) → Type 0
Moves a s r = Move (stage_of s) a (caught s r).0.success (stage_of (caught s r).1)

bound-Moves :
    {W B : Type 0} (a : Action) (s : RunnerState) (both : Result B × W) (f : B → Handler W)
    → ((b : B) (w : W) → Moves a s (f b w).0)
    → Moves a s (on_result both.0 (λ b. f b both.1) (λ e. (err e, both.1))).0
unfolding caught
bound-Moves a s (ok b, w) f h = h b w
bound-Moves a s (err e, w) f h = fails a

bind-Moves :
    {W B : Type 0} (a : Action) (s : RunnerState) (m : M W B) (f : B → Handler W)
    → ((b : B) (w : W) → Moves a s (f b w).0)
    → (w : W) → Moves a s ((m >>= f) w).0
unfolding ◌>>=◌
bind-Moves a s m f h w = bound-Moves a s (m w) f h

pure-Moves :
    {W : Type 0} (a : Action) (s : RunnerState) (r : StepResult) (s' : RunnerState)
    → Move (stage_of s) a r.success (stage_of s')
    → (w : W) → Moves a s (pure {W = W} (r, s') w).0
unfolding caught
pure-Moves a s r s' m w = m

module _ (repr : Value → String) (int_of : Value → Result ℤ) (ahenk_count : ℤ) (A : Adapters)
    (reaches : ℤ → ℤ → Option Value → Result Bool) (rate_text : ℤ → ℤ → String) where
  count-Moves :
      (a : Action) (what : String) (count : M A.World ℤ) (params : Value) (s : RunnerState)
      → keeps a ≡ true
      → (w : A.World) → Moves a s (check_count repr int_of ahenk_count A what count params s w).0
  unfolding check_count
  count-Moves a what count params s k w =
      bind-Moves a s _ _
        (λ expected w'.
          bind-Moves a s count _ (λ actual w''. pure-Moves a s _ s (either _ (checks a k)) w'') w')
        w

  policy-Moves :
      (params : Value) (profile : Option Fields) (s : RunnerState)
      → (profile ≡ none) ⊎ (is_usable s.last_profile ≡ true)
      → (w : A.World)
      → Moves create_policy s
          (make_policy repr int_of ahenk_count A reaches rate_text params profile s w).0
  unfolding make_policy
  policy-Moves params none s h w = pure-Moves create_policy s _ s (fails create_policy) w
  policy-Moves params (some profile) s (inl e) w = cc
  policy-Moves params (some profile) s (inr e) w =
      bind-Moves create_policy s _ _
        (λ label w1.
          bind-Moves create_policy s _ _
            (λ r w2.
              bind-Moves create_policy s _ _
                (λ policy w3.
                  pure-Moves create_policy s _ _ (policies (is_usable (some policy)) e) w3)
                w2)
            w1)
        w

  execute-Moves :
      (policy group : Option Fields) (s : RunnerState)
      → (policy ≡ none) ⊎ (is_usable s.last_policy ≡ true)
      → (group ≡ none) ⊎ (is_usable s.last_group ≡ true)
      → (w : A.World)
      → Moves execute_policy s
          (run_policy repr int_of ahenk_count A reaches rate_text policy group s w).0
  unfolding run_policy
  execute-Moves none none s p g w = pure-Moves execute_policy s _ s (fails execute_policy) w
  execute-Moves none (some group) s p g w = pure-Moves execute_policy s _ s (fails execute_policy) w
  execute-Moves (some policy) none s p g w =
      pure-Moves execute_policy s _ s (fails execute_policy) w
  execute-Moves (some policy) (some group) s (inl p) g w = cc
  execute-Moves (some policy) (some group) s (inr p) (inl g) w = cc
  execute-Moves (some policy) (some group) s (inr p) (inr g) w =
      bind-Moves execute_policy s _ _
        (λ id w1.
          bind-Moves execute_policy s _ _
            (λ dn w2.
              bind-Moves execute_policy s _ _
                (λ status w3. pure-Moves execute_policy s _ s (either _ (executes p g)) w3) w2)
            w1)
        w

  -- What is used of the state is usable.
  usable-of : (o : Option Fields) → (usable o ≡ none) ⊎ (is_usable o ≡ true)
  usable-of o = by_usable (usable o)
    where
      by_usable :
          (u : Option Fields)
          → (u ≡ none) ⊎ (elim u as (λ _. Bool) [ none ↦ false | some r ↦ true ] ≡ true)
      by_usable none = inl refl
      by_usable (some r) = inr refl

  -- Every action moves the flags as it may.
  pub perform-Moves :
      (a : Action) (params : Value) (s : RunnerState) (w : A.World)
      → Moves a s (perform repr int_of ahenk_count A reaches rate_text a params s w).0
  unfolding perform
  perform-Moves check_api_health params s w =
      bind-Moves check_api_health s _ _
        (λ up w1. pure-Moves check_api_health s _ s (either _ (checks check_api_health refl)) w1) w
  perform-Moves check_jwt_auth params s w =
      bind-Moves check_jwt_auth s _ _
        (λ up w1. pure-Moves check_jwt_auth s _ s (either _ (checks check_jwt_auth refl)) w1) w
  perform-Moves check_ldap_agent_count params s w =
      count-Moves check_ldap_agent_count _ _ params s refl w
  perform-Moves check_xmpp_agent_count params s w =
      count-Moves check_xmpp_agent_count _ _ params s refl w
  perform-Moves check_c_agent_count params s w = count-Moves check_c_agent_count _ _ params s refl w
  perform-Moves check_domain_agent_count params s w =
      count-Moves check_domain_agent_count _ _ params s refl w
  perform-Moves check_dashboard_total params s w =
      count-Moves check_dashboard_total _ _ params s refl w
  perform-Moves check_computer_tree_count params s w =
      count-Moves check_computer_tree_count _ _ params s refl w
  perform-Moves check_agent_exists params s w =
      bind-Moves check_agent_exists s _ _
        (λ id w1.
          bind-Moves check_agent_exists s _ _
            (λ r w2.
              bind-Moves check_agent_exists s _ _
                (λ ldap w3.
                  bind-Moves check_agent_exists s _ _
                    (λ xmpp w4.
                      pure-Moves check_agent_exists s _ s
                        (either _ (checks check_agent_exists refl)) w4)
                    w3)
                w2)
            w1)
        w
  perform-Moves check_connection_rate params s w =
      bind-Moves check_connection_rate s _ _
        (λ r w1.
          bind-Moves check_connection_rate s _ _
            (λ connected w2.
              bind-Moves check_connection_rate s _ _
                (λ enough w3.
                  pure-Moves check_connection_rate s _ s
                    (either _ (checks check_connection_rate refl)) w3)
                w2)
            w1)
        w
  perform-Moves send_task params s w =
      bind-Moves send_task s _ _
        (λ command w1.
          bind-Moves send_task s _ _
            (λ r w2.
              bind-Moves send_task s _ _
                (λ entry w3.
                  bind-Moves send_task s _ _
                    (λ status w4. pure-Moves send_task s _ s (either _ (checks send_task refl)) w4)
                    w3)
                w2)
            w1)
        w
  perform-Moves create_computer_group params s w =
      bind-Moves create_computer_group s _ _
        (λ name w1.
          bind-Moves create_computer_group s _ _
            (λ r w2.
              bind-Moves create_computer_group s _ _
                (λ entry w3.
                  bind-Moves create_computer_group s _ _
                    (λ group w4.
                      pure-Moves create_computer_group s _ _ (groups (is_usable (some group))) w4)
                    w3)
                w2)
            w1)
        w
  perform-Moves create_script_profile params s w =
      bind-Moves create_script_profile s _ _
        (λ label w1.
          bind-Moves create_script_profile s _ _
            (λ r w2.
              bind-Moves create_script_profile s _ _
                (λ kind w3.
                  bind-Moves create_script_profile s _ _
                    (λ profile w4.
                      pure-Moves create_script_profile s _ _ (profiles (is_usable (some profile)))
                        w4)
                    w3)
                w2)
            w1)
        w
  perform-Moves create_policy params s w =
      policy-Moves params (usable s.last_profile) s (usable-of s.last_profile) w
  perform-Moves execute_policy params s w =
      execute-Moves (usable s.last_policy) (usable s.last_group) s (usable-of s.last_policy)
        (usable-of s.last_group) w
  perform-Moves wait_for_results params s w =
      bind-Moves wait_for_results s _ _
        (λ r w1.
          bind-Moves wait_for_results s _ _
            (λ slept w2. pure-Moves wait_for_results s _ s (checks wait_for_results refl) w2) w1)
        w
  perform-Moves prometheus_snapshot params s w =
      pure-Moves prometheus_snapshot s _ s (checks prometheus_snapshot refl) w
  perform-Moves (unknown v) params s w = pure-Moves (unknown v) s _ s (fails (unknown v)) w
