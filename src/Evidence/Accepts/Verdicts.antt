-- ===== src/Evidence/Accepts/Verdicts.antt =====
-- The verdict that the orchestrator writes, by itself and against the other files.
use liderahenk_test_platform.Base.{
  ℕ, ◌≤◌, String, ◌≡◌, refl, ap, ◌⊎◌, inl, inr, true, ◌&&◌, some, List, [], ◌∷◌, length, arith,
  eq_refl,
}
use liderahenk_test_platform.Json.{ℤ, pos, Value, str, arr, from_items, texts, value_eq}
use liderahenk_test_platform.Json.Laws.{IsCleanItems, IsClean-texts, value_eq_refl, int_eq_refl}
use liderahenk_test_platform.Result.{ok}
use liderahenk_test_platform.Verdict.{Flags, all_set, TaxonomyEntry, AgentState, Evaluation}
use liderahenk_test_platform.Artifacts.{
  RunManifest, Verdict, manifest_file, flags_json, taxonomy_json, agents_json, verdict_json,
  build_failure_summary,
}
use liderahenk_test_platform.Evidence.Contract.{in_set}
use liderahenk_test_platform.Evidence.States.{validate_per_agent_states}
use liderahenk_test_platform.Evidence.{
  check_value_errors, shape_errors, miscounted, all_truthy, pass_errors, agent_errors,
  verdict_errors, backoff_errors, manifest_verdict_errors, summary_errors,
}

-- A verdict that passes and holds nothing against it, or one that fails.
abbrev pub IsSound : ℤ → Evaluation → Type 0
IsSound expected e =
    ((e.status ≡ "pass")
      × (all_set e.checks ≡ true)
      × (e.failed_checks ≡ [])
      × (e.taxonomy ≡ [])
      × (pos (length e.per_agent) ≡ expected))
    ⊎ (e.status ≡ "fail")

flags_boolean : (flags : Flags) → check_value_errors (flags_json flags) ≡ []
unfolding check_value_errors
flags_boolean [] = refl
flags_boolean ((name, b) ∷ r) = flags_boolean r

all_truthy-flags_json : (flags : Flags) → all_truthy (flags_json flags) ≡ all_set flags
all_truthy-flags_json [] = refl
all_truthy-flags_json ((name, b) ∷ r) = ap (λ t. b && t) (all_truthy-flags_json r)

pub length-agents_json :
    (agents : List AgentState) → length (from_items (agents_json agents)) ≡ length agents
length-agents_json [] = refl
length-agents_json (a ∷ r) = omega (arith, length-agents_json r)

IsClean-taxonomy : (t : List TaxonomyEntry) → IsCleanItems (taxonomy_json t)
IsClean-taxonomy [] = tt
IsClean-taxonomy (t ∷ r) =
    ((refl, tt, (refl, tt, (refl, IsClean-texts t.details, tt))), IsClean-taxonomy r)

module _ (repr : Value → String) (v : Verdict) where
  abbrev e : Evaluation
  e = v.evaluation

  pub verdict_errors-IsSound :
      IsSound v.expected_agents e
      → validate_per_agent_states repr (from_items (agents_json e.per_agent)) ≡ ok []
      → verdict_errors repr (some (verdict_json v)) ≡ ok []
  unfolding verdict_errors in_set shape_errors agent_errors miscounted pass_errors value_eq
  verdict_errors-IsSound (inl (status, checks, failed, taxonomy, count)) agents =
      rw
        (
          status,
          agents,
          flags_boolean e.checks,
          all_truthy-flags_json e.checks,
          checks,
          failed,
          taxonomy,
          length-agents_json e.per_agent,
          count,
          int_eq_refl v.expected_agents,
        )
        (ground arith)
  verdict_errors-IsSound (inr status) agents = rw (status, agents, flags_boolean e.checks)

module _ (m : RunManifest) (v : Verdict) (attempt : ℕ) where
  -- The manifest as it is written with the verdict.
  abbrev pub written : RunManifest
  written = record m {
    last_verdict_at = some v.evaluation.captured_at;
    last_status = some v.evaluation.status;
    attempt_count = some attempt;
  }

  pub backoff_errors-written :
      m.min_backoff_seconds ≤ m.max_backoff_seconds
      → backoff_errors (some (manifest_file written)) ≡ []
  unfolding backoff_errors
  backoff_errors-written h = ground arith

  module _ (run : v.run_id ≡ m.run_id) where
    pub manifest_verdict_errors-written :
        v.expected_agents ≡ m.expected_agents
        → v.runtime_profile ≡ m.runtime_profile
        → manifest_verdict_errors (some (manifest_file written)) (some (verdict_json v)) ≡ []
    unfolding manifest_verdict_errors value_eq
    manifest_verdict_errors-written expected profile = rw (
      run,
      expected,
      profile,
      eq_refl m.run_id,
      int_eq_refl m.expected_agents,
      eq_refl m.runtime_profile,
      eq_refl v.evaluation.status,
      eq_refl v.evaluation.captured_at,
    )

    pub summary_errors-written :
        summary_errors (some (build_failure_summary written v)) (some (verdict_json v)) ≡ []
    unfolding summary_errors
    summary_errors-written = rw (
      run,
      value_eq_refl (str m.run_id) tt,
      value_eq_refl (str v.evaluation.status) tt,
      value_eq_refl (texts v.evaluation.failed_checks) (IsClean-texts v.evaluation.failed_checks),
      value_eq_refl (arr (taxonomy_json v.evaluation.taxonomy))
          (IsClean-taxonomy v.evaluation.taxonomy),
    )
