-- ===== src/Evidence/Accepts/Bundles.antt =====
-- The whole bundle that `write_artifacts` leaves, as the validator sees it.
use liderahenk_test_platform.Base.{
  ℕ, ◌+◌, ◌≤◌, ◌<◌, String, ◌≡◌, refl, sym, ap, ◌∙◌, inl, inr, true, Option, none, some, List, [],
  ◌∷◌, ◌++◌, map, length, length-append, arith, contains, All,
}
use liderahenk_test_platform.Json.{ℤ, Value, str, obj, Fields, from_items, nat}
use liderahenk_test_platform.Json.Laws.{value_eq_refl}
use liderahenk_test_platform.Result.{ok}
use liderahenk_test_platform.Verdict.{per_agent_state}
use liderahenk_test_platform.Artifacts.{
  RunManifest, Verdict, ArtifactFiles, manifest_file, verdict_json, event_json, agents_json,
}
use liderahenk_test_platform.Orchestrator.{State, write_artifacts}
use liderahenk_test_platform.Evidence.Contract.{
  File, missing, parsed, lines, load_json, load_events, require_fields, event_phases,
}
use liderahenk_test_platform.Evidence.States.{validate_per_agent_states}
use liderahenk_test_platform.Evidence.{
  Bundle, artifact_errors, evidence_errors, run_id_of, last_event_errors,
  validate_registration_evidence,
}
use liderahenk_test_platform.Evidence.Accepts.Events.{
  IsEvent, event, statuses, load_events-parsed, events_errors-IsEvent, last_of-append,
}
use liderahenk_test_platform.Evidence.Accepts.Agents.{validate-per_agent_state}
use liderahenk_test_platform.Evidence.Accepts.Verdicts.{
  IsSound, written, verdict_errors-IsSound, backoff_errors-written, manifest_verdict_errors-written,
  summary_errors-written,
}

abbrev file_of : Option Value → File
file_of none = missing
file_of (some v) = parsed v

-- The files as the validator finds them. Writing JSON and reading it gives the data back.
abbrev pub bundle_of : ArtifactFiles → File → File → Bundle
bundle_of files core operational = record {
  run_manifest = parsed files.run_manifest;
  registration_verdict = file_of files.registration_verdict;
  registration_events = lines (map parsed files.events);
  failure_summary = file_of files.failure_summary;
  core_report = core;
  operational_report = operational;
}

-- The log holds events of the run.
pub record IsLog (run_id : String) (log : List Value) : Type 0 where
  pub events : List Fields
  pub as_data : log ≡ map obj events
  pub each : All (IsEvent run_id) events

-- A verdict of the run of `m`, with nothing against it if it passes.
pub record IsVerdictOf (m : RunManifest) (v : Verdict) : Type 0 where
  pub run : v.run_id ≡ m.run_id
  pub profile : v.runtime_profile ≡ m.runtime_profile
  pub expected : v.expected_agents ≡ m.expected_agents
  pub agents : v.evaluation.per_agent ≡ per_agent_state v.snapshot
  pub sound : IsSound v.expected_agents v.evaluation

map-append_one {ℓ κ} :
    {A : Type ℓ} {B : Type κ} (f : A → B) (xs : List A) (x : A)
    → map f (xs ++ (x ∷ [])) ≡ map f xs ++ (f x ∷ [])
map-append_one f [] x = refl
map-append_one f (y ∷ ys) x = ap (λ l. f y ∷ l) (map-append_one f ys x)

All-append_one {ℓ κ} :
    {A : Type ℓ} (P : A → Type κ) (xs : List A) (x : A) → All P xs → P x → All P (xs ++ (x ∷ []))
All-append_one P [] x h p = (p, tt)
All-append_one P (y ∷ ys) x h p = (h.0, All-append_one P ys x h.1 p)

length-map_obj : (fs : List Fields) → length (map obj fs) ≡ length fs
length-map_obj [] = refl
length-map_obj (f ∷ fs) = omega (arith, length-map_obj fs)

load_events-snoc :
    (fs : List Fields) (f : Fields)
    → load_events (lines (map parsed (map obj (fs ++ (f ∷ []))))) ≡ (fs ++ (f ∷ []), [])
load_events-snoc [] f = load_events-parsed f []
load_events-snoc (g ∷ gs) f = load_events-parsed g (gs ++ (f ∷ []))

known_status :
    (expected : ℤ) (v : Verdict)
    → IsSound expected v.evaluation
    → contains statuses v.evaluation.status ≡ true
known_status expected v (inl h) = rw (h.0)
known_status expected v (inr s) = rw s

module _ (repr : Value → String) (s : State) (v : Verdict) (attempt : ℕ) (phase : String) where
  abbrev m' : RunManifest
  m' = written s.manifest v attempt

  abbrev ev : Fields
  ev = event_json m' v attempt phase

  module _ (of_run : IsVerdictOf s.manifest v) (log : IsLog s.manifest.run_id s.files.events)
      (some_attempt : 0 < attempt) (known_phase : contains event_phases phase ≡ true) where
    all_events : List Fields
    all_events = log.events ++ (ev ∷ [])

    events_good : All (IsEvent s.manifest.run_id) all_events
    unfolding all_events
    events_good = All-append_one (IsEvent s.manifest.run_id) log.events ev log.each (
        event m' v attempt phase refl some_attempt known_phase
          (known_status v.expected_agents v of_run.sound))

    log_json : s.files.events ++ (obj ev ∷ []) ≡ map obj all_events
    unfolding all_events
    log_json = ap (λ l. l ++ (obj ev ∷ [])) log.as_data ∙ sym (map-append_one obj log.events ev)

    -- The log goes on.
    pub IsLog-write_artifacts :
        IsLog s.manifest.run_id (write_artifacts v attempt phase s).files.events
    unfolding write_artifacts
    IsLog-write_artifacts = record { events = all_events; as_data = log_json; each = events_good }

    loaded : load_events (lines (map parsed (s.files.events ++ (obj ev ∷ [])))) ≡ (all_events, [])
    unfolding all_events
    loaded = rw log_json (load_events-snoc log.events ev)

    last_good : last_event_errors (some (manifest_file m')) (some (verdict_json v)) all_events ≡ []
    unfolding last_event_errors all_events
    last_good = rw (
      last_of-append "attempt" log.events ev,
      last_of-append "status" log.events ev,
      value_eq_refl (nat attempt) tt,
      value_eq_refl (str v.evaluation.status) tt,
    )

    module _ (core operational : File)
        (backoff : s.manifest.min_backoff_seconds ≤ s.manifest.max_backoff_seconds)
        (core_loads : (load_json "runtime-core-report.json" core).1 ≡ [])
        (operational_loads : (load_json "runtime-operational-report.json" operational).1 ≡ []) where
      abbrev bundle : Bundle
      bundle = bundle_of (write_artifacts v attempt phase s).files core operational

      nothing_found : evidence_errors repr bundle ≡ ok []
      unfolding evidence_errors write_artifacts artifact_errors load_json require_fields run_id_of
      nothing_found = rw (
        loaded,
        core_loads,
        operational_loads,
        backoff_errors-written s.manifest v attempt backoff,
        verdict_errors-IsSound repr v of_run.sound (
            ap (λ l. validate_per_agent_states repr (from_items (agents_json l))) of_run.agents
            ∙ validate-per_agent_state repr v.snapshot),
        manifest_verdict_errors-written s.manifest v attempt of_run.run of_run.expected
            of_run.profile,
        summary_errors-written s.manifest v attempt of_run.run,
        events_errors-IsEvent repr s.manifest.run_id 1 all_events events_good,
        last_good,
      )

      event_total : length all_events ≡ length s.files.events + 1
      unfolding all_events
      event_total = omega (
        arith,
        length-append {0} log.events (ev ∷ []),
        ap (λ l. length l) log.as_data,
        length-map_obj log.events,
      )

      -- Let the verdict be of the run of the manifest, with every check true, nothing failed and as many
      -- agents as expected if it passes. Let the log be one of the run, the attempt positive, the
      -- phase one of the contract and the backoffs in order, and let the runtime reports load. Then
      -- the validator accepts the bundle that `write_artifacts` leaves, with the run's identity, one
      -- event more, and the verdict's status.
      pub validate-write_artifacts :
          validate_registration_evidence repr bundle
          ≡ ok (record {
            valid = true;
            run_id = str s.manifest.run_id;
            required = 4;
            event_count = length s.files.events + 1;
            status = str v.evaluation.status;
            errors = [];
          })
      unfolding validate_registration_evidence write_artifacts load_json run_id_of
      validate-write_artifacts = rw (nothing_found, loaded, event_total)
