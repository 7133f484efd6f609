-- ===== src/PolicyRoundtrip/Run/Ends.antt =====
-- The ends of the policy round trip and what they leave.
use mathlib.Core.Bool.{false≢true}
use liderahenk_test_platform.Base.{
  ℕ, String, ◌≡◌, ◌≢◌, refl, sym, ap, ◌∙◌, Bool, true, false, Option, none, some, List, eqb_iff,
  eq_iff, arith,
}
use liderahenk_test_platform.Json.{ℤ, Value, Fields, get}
use liderahenk_test_platform.Result.{Result, ok, err, on_result}
use liderahenk_test_platform.PolicyRoundtrip.{
  Entries, find_first_agent, Answer, answer, raised, Operation, Api, Created,
  create_computer_group_with_reconciliation, Cleanup, cleaned, operations_of,
  cleanup_roundtrip_artifacts,
}
use liderahenk_test_platform.PolicyRoundtrip.Run.{
  Made, Ended, no_agent, failed_at, executed, Report, group_dn, missing_key, after_execution,
  execution, after_policy, after_profile, after_group, with_agent, after_tree, stages, report_of,
  finish, run_policy_roundtrip_check,
}

abbrev pub is_executed : Ended → Bool
is_executed (executed s) = true
is_executed _ = false

module _ (repr : Value → String) (int_of : Value → Result ℤ) (e : Api) (group_name : String) where
  -- All three resources are there.
  abbrev pub IsComplete : Made → Type 0
  IsComplete made =
      (g p q : Fields) × (made ≡ record { group = some g; profile = some p; policy = some q })

  -- The cleanup, by its operations.
  abbrev closed : Result (List Operation) → e.World → Result Cleanup × e.World
  closed o w =
      on_result o (λ ops. let (c, w') = cleaned repr int_of e ops w in (ok c, w'))
        (λ message. (err message, w))

  closed_lem :
      (o : Result (List Operation)) (f : Cleanup → Report) (w : e.World) (r : Report)
      → ◌≡◌ {A = Result Report}
          (on_result (closed o w).0 (λ c. ok (f c)) (λ message. err message))
          (ok r)
      → (ops : List Operation) × (o ≡ ok ops)
        × ((closed o w).1 ≡ (cleaned repr int_of e ops w).1)
        × (r ≡ f (cleaned repr int_of e ops w).0)
  closed_lem (err message) f w r h = cc
  closed_lem (ok ops) f w r h = (ops, refl, refl, cc)

  finish_lem :
      (ended : Ended) (made : Made) (w : e.World) (r : Report)
      → ended ≢ no_agent
      → (finish repr int_of e group_name ended made w).0 ≡ ok r
      → (ops : List Operation) × (operations_of repr int_of made.policy made.profile (group_dn made)
          ≡ ok ops)
        × ((finish repr int_of e group_name ended made w).1 ≡ (cleaned repr int_of e ops w).1)
        × (r ≡ report_of repr int_of e group_name ended (cleaned repr int_of e ops w).0)
  unfolding finish cleanup_roundtrip_artifacts
  finish_lem no_agent made w r some_end h = absurd (some_end refl)
  finish_lem (failed_at stage x) made w r some_end h =
      closed_lem (operations_of repr int_of made.policy made.profile (group_dn made))
        (report_of repr int_of e group_name (failed_at stage x)) w r h
  finish_lem (executed status) made w r some_end h =
      closed_lem (operations_of repr int_of made.policy made.profile (group_dn made))
        (report_of repr int_of e group_name (executed status)) w r h

  abbrev all_made : Fields → Fields → Fields → Made
  all_made g p q = record { group = some g; profile = some p; policy = some q }

  after_execution-IsComplete :
      (g p q : Fields) (a : Answer ℕ)
      → IsComplete (after_execution repr int_of e group_name (all_made g p q) a).1
  unfolding after_execution
  after_execution-IsComplete g p q (answer t) = (g, p, q, refl)
  after_execution-IsComplete g p q (raised x) = (g, p, q, refl)

  execution-IsComplete :
      (g p q : Fields) (w : e.World) (key : Option String)
      → IsComplete (execution repr int_of e group_name (all_made g p q) g q w key).1
  unfolding execution
  execution-IsComplete g p q w (some key) = (g, p, q, refl)
  execution-IsComplete g p q w none =
      after_execution-IsComplete g p q
        (e.execute_policy (get "id" q) (get "distinguishedName" g) w).0

  after_policy-IsComplete :
      (g p : Fields) (a : Answer Fields) (w : e.World)
      → is_executed (after_policy repr int_of e group_name g p a w).0 ≡ true
      → IsComplete (after_policy repr int_of e group_name g p a w).1
  unfolding after_policy
  after_policy-IsComplete g p (raised x) w h = absurd (false≢true h)
  after_policy-IsComplete g p (answer q) w h = execution-IsComplete g p q w (missing_key g q)

  after_profile-IsComplete :
      (g : Fields) (a : Answer Fields) (w : e.World)
      → is_executed (after_profile repr int_of e group_name g a w).0 ≡ true
      → IsComplete (after_profile repr int_of e group_name g a w).1
  unfolding after_profile
  after_profile-IsComplete g (raised x) w h = absurd (false≢true h)
  after_profile-IsComplete g (answer p) w h =
      after_policy-IsComplete g p (e.create_policy p w).0 (e.create_policy p w).1 h

  after_group-IsComplete :
      (a : Answer Created) (w : e.World)
      → is_executed (after_group repr int_of e group_name a w).0 ≡ true
      → IsComplete (after_group repr int_of e group_name a w).1
  unfolding after_group
  after_group-IsComplete (raised x) w h = absurd (false≢true h)
  after_group-IsComplete (answer (g, reconciliation)) w h =
      after_profile-IsComplete g (e.create_script_profile w).0 (e.create_script_profile w).1 h

  with_agent-IsComplete :
      (o : Option Fields) (next : Ended × Made × e.World) (w : e.World)
      → (is_executed next.0 ≡ true → IsComplete next.1)
      → is_executed (with_agent repr int_of e group_name o next w).0 ≡ true
      → IsComplete (with_agent repr int_of e group_name o next w).1
  with_agent-IsComplete none next w f h = absurd (false≢true h)
  with_agent-IsComplete (some agent) next w f h = f h

  after_tree-IsComplete :
      (a : Answer Entries) (w : e.World)
      → is_executed (after_tree repr int_of e group_name a w).0 ≡ true
      → IsComplete (after_tree repr int_of e group_name a w).1
  unfolding after_tree
  after_tree-IsComplete (raised x) w h = absurd (false≢true h)
  after_tree-IsComplete (answer tree) w h =
      let made = create_computer_group_with_reconciliation repr e group_name w in
      with_agent-IsComplete (find_first_agent tree)
        (after_group repr int_of e group_name made.0 made.1) w
        (after_group-IsComplete made.0 made.1) h

  stages-IsComplete :
      (w : e.World)
      → is_executed (stages repr int_of e group_name w).0 ≡ true
      → IsComplete (stages repr int_of e group_name w).1
  unfolding stages
  stages-IsComplete w h =
      after_tree-IsComplete (e.get_computer_tree w).0 (e.get_computer_tree w).1 h

  -- Unless there was no agent, a check that gives a report ends in the world after the cleanup of the
  -- locals of its stages.
  pub cleaned-stages :
      (w : e.World) (r : Report)
      → (stages repr int_of e group_name w).0 ≢ no_agent
      → (run_policy_roundtrip_check repr int_of e group_name w).0 ≡ ok r
      → (ops : List Operation) × (operations_of repr int_of
            (stages repr int_of e group_name w).1.policy
            (stages repr int_of e group_name w).1.profile
            (group_dn (stages repr int_of e group_name w).1)
          ≡ ok ops)
        × ((run_policy_roundtrip_check repr int_of e group_name w).1
            ≡ (cleaned repr int_of e ops (stages repr int_of e group_name w).2).1)
  unfolding run_policy_roundtrip_check
  cleaned-stages w r some_end h =
      let q =
        finish_lem _ (stages repr int_of e group_name w).1 (stages repr int_of e group_name w).2 r
          some_end h in
      (q.0, q.1, q.2)

  passed_lem :
      (ended : Ended) (c : Cleanup)
      → (report_of repr int_of e group_name ended c).passed ≡ true
      → (ended ≡ executed 200) × (c.status ≡ "completed")
  unfolding report_of
  passed_lem no_agent c h = absurd (false≢true h)
  passed_lem (failed_at stage x) c h = absurd (false≢true h)
  passed_lem (executed s) c h = (
    ap executed ((eqb_iff s 200).0 (ground (arith, h))),
    (eq_iff c.status "completed").0 (ground (arith, h)),
  )

  -- If the check passes, then the group, the profile and the policy were all made, the execution
  -- answered with the status 200, and the cleanup of what was made is completed.
  pub run_policy_roundtrip_check_passes :
      (w : e.World) (r : Report)
      → (stages repr int_of e group_name w).0 ≢ no_agent
      → (run_policy_roundtrip_check repr int_of e group_name w).0 ≡ ok r
      → r.passed ≡ true
      → IsComplete (stages repr int_of e group_name w).1
        × ((stages repr int_of e group_name w).0 ≡ executed 200)
        × ((ops : List Operation) × (operations_of repr int_of
                (stages repr int_of e group_name w).1.policy
                (stages repr int_of e group_name w).1.profile
                (group_dn (stages repr int_of e group_name w).1)
              ≡ ok ops)
            × ((cleaned repr int_of e ops (stages repr int_of e group_name w).2).0.status
                ≡ "completed"))
  unfolding run_policy_roundtrip_check
  run_policy_roundtrip_check_passes w r some_end h p =
      let q =
        finish_lem _ (stages repr int_of e group_name w).1 (stages repr int_of e group_name w).2 r
          some_end h in
      let l = passed_lem _ _ (sym (ap (λ t. t.passed) q.3) ∙ p) in
      (stages-IsComplete w (ap is_executed l.0), l.0, (q.0, q.1, l.1))
