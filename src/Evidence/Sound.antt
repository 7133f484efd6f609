-- ===== src/Evidence/Sound.antt =====
-- What a report without errors tells of the files.
use mathlib.Core.Path.{subst}
use liderahenk_test_platform.Base.{
  ℕ, suc, ◌+◌, String, ◌<>◌, ◌≡◌, refl, sym, ap, ◌∙◌, true, false, not, ◌&&◌, some, List, [], ◌∷◌,
  All, is_nil, is_nil-append, arith, eqb_iff, length, if◌then◌else◌,
}
use liderahenk_test_platform.Base.Text.{decimal}
use liderahenk_test_platform.Json.{
  pos, Value, num, str, arr, obj, Items, nil, Fields, from_items, get, is_list, is_null, value_eq,
}
use liderahenk_test_platform.Result.{ok}
use liderahenk_test_platform.Evidence.Contract.{
  in_set, event_phases, File, parsed, Log, load_json, load_events,
}
use liderahenk_test_platform.Evidence.{
  Bundle, Report, shape_errors, all_truthy, checks_fail, pass_errors, agent_list_errors,
  agent_errors, miscounted, verdict_errors, differ, stale, run_id_of, manifest_verdict_errors,
  summary_errors, event_errors, events_errors, last_event_errors, evidence_errors,
  validate_registration_evidence,
}
use liderahenk_test_platform.Evidence.Clean.{
  is_clean, is_clean-plus, is_nil-when, empty_list, clean_left, clean_right, report_valid,
  report_clean, summary_match, event_parts, manifest_match,
}

module _ (repr : Value → String) where
  -- A valid report comes without messages.
  accepted_clean :
      (b : Bundle) (r : Report)
      → validate_registration_evidence repr b ≡ ok r
      → r.valid ≡ true
      → is_clean (evidence_errors repr b) ≡ true
  unfolding validate_registration_evidence
  accepted_clean b r e valid =
      sym (report_clean (evidence_errors repr b) _ (λ xs. refl)) ∙ ap report_valid e ∙ valid

  -- The event is of the run, if the bundle names one, and its status and phase are texts of the
  -- contract.
  abbrev pub IsGoodEvent : Value → Fields → Type 0
  IsGoodEvent run ev =
      ((not (is_null run) && differ (get "runId" ev) run) ≡ false)
      × (in_set (get "phase" ev) event_phases ≡ ok true)
      × (in_set (get "status" ev) ("pass" ∷ "fail" ∷ []) ≡ ok true)

  event_good :
      (run : Value) (label : String) (ev : Fields)
      → is_clean (event_errors repr run label ev) ≡ true
      → IsGoodEvent run ev
  unfolding event_errors
  event_good run label ev h = event_parts _ _ _ _ _ _ _ _ h

  events_good :
      (run : Value) (index : ℕ) (evs : List Fields)
      → is_clean (events_errors repr run index evs) ≡ true
      → All (IsGoodEvent run) evs
  unfolding events_errors
  events_good run index [] h = tt
  events_good run index (ev ∷ r) h = (
    event_good run ("registration-events.jsonl:" <> decimal index) ev
        (clean_left _ (events_errors repr run (index + 1) r) h),
    events_good run (index + 1) r (
        clean_right (event_errors repr run ("registration-events.jsonl:" <> decimal index) ev) _ h),
  )

  module _ (m v f : Fields) (log : Log) (core operational : File) where
    -- A bundle whose files hold objects.
    abbrev pub objects : Bundle
    objects = record {
      run_manifest = parsed (obj m);
      registration_verdict = parsed (obj v);
      registration_events = log;
      failure_summary = parsed (obj f);
      core_report = core;
      operational_report = operational;
    }

    abbrev pub run_id : Value
    run_id = run_id_of (some m) (some v)

    abbrev pub events : List Fields
    events = (load_events log).0

    -- The verdict is about the manifest's run, and the summary about the verdict's.
    abbrev pub IsOneRun : Type 0
    IsOneRun =
        (stale (get "runId" m) (get "runId" v) ≡ false)
        × (value_eq (get "expectedAgents" v) (get "expectedAgents" m) ≡ true)
        × (value_eq (get "runtimeProfile" v) (get "runtimeProfile" m) ≡ true)
        × (stale (get "lastStatus" m) (get "status" v) ≡ false)
        × (stale (get "lastVerdictAt" m) (get "capturedAt" v) ≡ false)
        × (value_eq (get "runId" f) (get "runId" v) ≡ true)
        × (value_eq (get "status" f) (get "status" v) ≡ true)
        × (value_eq (get "failedChecks" f) (get "failedChecks" v) ≡ true)
        × (value_eq (get "taxonomy" f) (get "taxonomy" v) ≡ true)

    module _ (clean : is_clean (evidence_errors repr objects) ≡ true) where
      parts_clean :
          (is_clean (verdict_errors repr (some v))
            && (is_nil (manifest_verdict_errors (some m) (some v))
                && (is_nil (summary_errors (some f) (some v))
                    && (is_clean (events_errors repr run_id 1 events)
                        && is_nil (last_event_errors (some m) (some v) events)))))
          ≡ true
      unfolding evidence_errors load_json
      parts_clean = grind (arith, clean, is_clean-plus, is_nil-append)

      verdict_parts :
          (is_nil (shape_errors v)
            && (is_clean (agent_errors repr v)
                && is_nil (if value_eq (get "status" v) (str "pass") then pass_errors v else [])))
          ≡ true
      unfolding verdict_errors
      verdict_parts =
          let h : is_clean (verdict_errors repr (some v)) ≡ true = ground (arith, parts_clean) in
          grind (arith, h, is_clean-plus, is_nil-append)

      pass_clean :
          is_nil (if value_eq (get "status" v) (str "pass") then pass_errors v else []) ≡ true
      pass_clean = ground (arith, verdict_parts)

      failed_is_list : is_list (get "failedChecks" v) ≡ true
      unfolding shape_errors
      failed_is_list =
          let h : is_nil (shape_errors v) ≡ true = ground (arith, verdict_parts) in
          grind (arith, h, is_nil-append, is_nil-when)

      taxonomy_is_list : is_list (get "taxonomy" v) ≡ true
      unfolding shape_errors
      taxonomy_is_list =
          let h : is_nil (shape_errors v) ≡ true = ground (arith, verdict_parts) in
          grind (arith, h, is_nil-append, is_nil-when)

      module _ (passes : value_eq (get "status" v) (str "pass") ≡ true) where
        pass_nil : is_nil (pass_errors v) ≡ true
        pass_nil = subst (λ t. is_nil (if t then pass_errors v else []) ≡ true) passes pass_clean

        checks_lem : (checks : Fields) → get "checks" v ≡ obj checks → all_truthy checks ≡ true
        unfolding pass_errors
        checks_lem checks e =
            let h : checks_fail (obj checks) ≡ false =
              subst (λ c. checks_fail c ≡ false) e
                (grind (arith, pass_nil, is_nil-append, is_nil-when)) in
            ground arith

        failed_lem : get "failedChecks" v ≡ arr nil
        unfolding pass_errors
        failed_lem =
            empty_list (get "failedChecks" v) failed_is_list
              (grind (arith, failed_is_list, pass_nil, is_nil-append, is_nil-when))

        taxonomy_lem : get "taxonomy" v ≡ arr nil
        unfolding pass_errors
        taxonomy_lem =
            empty_list (get "taxonomy" v) taxonomy_is_list
              (grind (arith, taxonomy_is_list, pass_nil, is_nil-append, is_nil-when))

        miscounted_lem :
            (agents : Items)
            → get "perAgent" v ≡ arr agents
            → miscounted (get "expectedAgents" v) (length (from_items agents)) ≡ false
        unfolding agent_errors
        miscounted_lem agents e =
            let h : is_clean (agent_list_errors repr (arr agents) v) ≡ true =
              subst (λ x. is_clean (agent_list_errors repr x v) ≡ true) e
                (ground (arith, verdict_parts)) in
            grind (arith, h, passes, is_clean-plus, is_nil-when)

        agents_lem :
            (agents : Items) (n : ℕ)
            → get "perAgent" v ≡ arr agents
            → get "expectedAgents" v ≡ num (pos (suc n))
            → length (from_items agents) ≡ suc n
        unfolding miscounted
        agents_lem agents n e x =
            let h : miscounted (num (pos (suc n))) (length (from_items agents)) ≡ false =
              subst (λ y. miscounted y (length (from_items agents)) ≡ false) x
                (miscounted_lem agents e) in
            ground (arith, eqb_iff (length (from_items agents)) (suc n))

      one_run : IsOneRun
      unfolding manifest_verdict_errors summary_errors
      one_run =
          let g = manifest_match m v (ground (arith, parts_clean)) in
          let k = summary_match f v (ground (arith, parts_clean)) in
          (g.0, g.1, g.2, g.3, g.4, k.0, k.1, k.2, k.3)

    -- If the validator accepts files that hold objects, the verdict's status is `pass`, its checks are
    -- an object, its agents a list, and it expects `n + 1` agents, then every check is true, the
    -- failed checks and the taxonomy are empty lists, and it lists exactly `n + 1` agents.
    pub accepted_pass :
        (r : Report) (checks : Fields) (agents : Items) (n : ℕ)
        → validate_registration_evidence repr objects ≡ ok r
        → r.valid ≡ true
        → value_eq (get "status" v) (str "pass") ≡ true
        → get "checks" v ≡ obj checks
        → get "perAgent" v ≡ arr agents
        → get "expectedAgents" v ≡ num (pos (suc n))
        → (all_truthy checks ≡ true)
          × (get "failedChecks" v ≡ arr nil)
          × (get "taxonomy" v ≡ arr nil)
          × (length (from_items agents) ≡ suc n)
    accepted_pass r checks agents n e valid passes c a x =
        let clean = accepted_clean objects r e valid in
        (
          checks_lem clean passes checks c,
          failed_lem clean passes,
          taxonomy_lem clean passes,
          agents_lem clean passes agents n a x,
        )

    -- If the validator accepts files that hold objects, then the manifest, the verdict and the
    -- summary agree on the run, the status and the failures, and every event of the log is one of
    -- that run with a known phase and status.
    pub accepted_one_run :
        (r : Report)
        → validate_registration_evidence repr objects ≡ ok r
        → r.valid ≡ true
        → IsOneRun × All (IsGoodEvent run_id) events
    accepted_one_run r e valid =
        let clean = accepted_clean objects r e valid in
        (one_run clean, events_good run_id 1 events (ground (arith, parts_clean clean)))
