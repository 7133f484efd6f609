-- ===== src/EffectProbe/Passes.antt =====
-- What a passing effect probe says.
use mathlib.Core.Bool.{false≢true}
use liderahenk_test_platform.Base.{
  ℕ, String, ◌≡◌, ◌↔◌, refl, sym, ap, ◌∙◌, Bool, true, false, eqb, eqb_iff,
}
use liderahenk_test_platform.Json.{ℤ, Value}
use liderahenk_test_platform.Result.{Result, ok, err, on_result}
use liderahenk_test_platform.PolicyRoundtrip.{Answer, Api, Cleanup}
use liderahenk_test_platform.PolicyRoundtrip.Run.{
  Made, Ended, no_agent, failed_at, executed, stages,
}
use liderahenk_test_platform.PolicyRoundtrip.Run.Ends.{is_executed}
use liderahenk_test_platform.EffectProbe.{
  Probe, agent_dn, observe, clean, raised_probe, observed_probe, probe_end,
  run_policy_effect_probe_check,
}

-- A check that is returned is made of what the cleanup answers.
after_cleanup :
    (o : Result Cleanup) (f : Cleanup → Probe) (r : Probe)
    → ◌≡◌ {A = Result Probe} (on_result o (λ c. ok (f c)) (λ message. err message)) (ok r)
    → (c : Cleanup) × (r ≡ f c)
after_cleanup (ok c) f r h = (c, cc)
after_cleanup (err message) f r h = cc

abbrev passed_of : Result Probe → Bool
passed_of (ok p) = p.passed
passed_of (err message) = false

abbrev status_or : ℕ → Ended → ℕ
status_or n (executed s) = s
status_or n _ = n

module _ (repr : Value → String) (int_of : Value → Result ℤ) (e : Api) (group_name : String)
    (get_command_history : Value → e.World → Answer Value × e.World)
    (sleep : e.World → e.World) where
  probe_end-passed :
      (ended : Ended) (dn : Value) (made : Made) (w : e.World) (r : Probe)
      → (probe_end repr int_of e group_name get_command_history sleep ended dn made w).0 ≡ ok r
      → (r.passed ≡ true) ↔ (ended ≡ executed 200)
  unfolding probe_end
  probe_end-passed no_agent dn made w r h =
      (λ p. absurd (false≢true (ap passed_of h ∙ p)), λ q. absurd (false≢true (ap is_executed q)))
  probe_end-passed (failed_at stage x) dn made w r h =
      let c =
        after_cleanup (clean repr int_of e group_name get_command_history sleep made w).0
          (raised_probe repr int_of e group_name get_command_history sleep x) r h in
      (
        λ p. absurd (false≢true (sym (ap (λ t. t.passed) c.1) ∙ p)),
        λ q. absurd (false≢true (ap is_executed q)),
      )
  probe_end-passed (executed s) dn made w r h =
      let seen = observe repr int_of e group_name get_command_history sleep s dn w in
      let c =
        after_cleanup (clean repr int_of e group_name get_command_history sleep made (seen.1)).0
          (observed_probe repr int_of e group_name get_command_history sleep s (seen.0)) r h in
      let same : r.passed ≡ eqb s 200 = ap (λ t. t.passed) c.1 in
      (
        λ p. ap executed ((eqb_iff s 200).0 (sym same ∙ p)),
        λ q. same ∙ (eqb_iff s 200).1 (ap (status_or s) q),
      )

  -- A check that is returned passes exactly when the login gave a token and the execution answered
  -- with the status 200. What the command history held and whether the cleanup was completed does
  -- not count.
  pub run_policy_effect_probe_check_passes :
      (authenticated : Bool) (w : e.World) (r : Probe)
      → (run_policy_effect_probe_check repr int_of e group_name get_command_history sleep
          authenticated w).0
        ≡ ok r
      → (r.passed ≡ true)
        ↔ ((authenticated ≡ true) × ((stages repr int_of e group_name w).0 ≡ executed 200))
  unfolding run_policy_effect_probe_check
  run_policy_effect_probe_check_passes false w r h =
      (λ p. absurd (false≢true (ap passed_of h ∙ p)), λ q. absurd (false≢true (q.0)))
  run_policy_effect_probe_check_passes true w r h =
      let ends =
        probe_end-passed (stages repr int_of e group_name w).0
          (agent_dn ((e.get_computer_tree w).0)) (stages repr int_of e group_name w).1
          (stages repr int_of e group_name w).2 r h in
      (λ p. (refl, ends.0 p), λ q. ends.1 (q.1))
