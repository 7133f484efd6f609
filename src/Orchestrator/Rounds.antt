-- ===== src/Orchestrator/Rounds.antt =====
-- The rounds of the orchestrator: what a round's verdict holds, and that the log stays a log of the
-- run.
use liderahenk_test_platform.Base.{
  ℕ, ◌+◌, ◌≤◌, ◌<◌, String, ◌≡◌, refl, sym, ◌∙◌, inl, inr, Bool, true, List, [], ◌∷◌, length,
  contains, length-append,
}
use mathlib.Core.Path.{subst}
use liderahenk_test_platform.Base.Sorted.Subset.{IsSubset}
use liderahenk_test_platform.Json.{Value, str}
use liderahenk_test_platform.Result.{Result, ok, err, Returns}
use liderahenk_test_platform.Snapshot.{Snapshot}
use liderahenk_test_platform.Snapshot.Sorting.{
  IsSortedSnapshot, collect_snapshot-IsSortedSnapshot, collect_snapshot-expected_agents,
}
use liderahenk_test_platform.Verdict.{evaluate_snapshot}
use liderahenk_test_platform.Verdict.Failures.{evaluate_snapshot_consistent}
use liderahenk_test_platform.Verdict.Agents.{pass_agents_ready}
use liderahenk_test_platform.Artifacts.{RunManifest, Verdict}
use liderahenk_test_platform.Evidence.Contract.{event_phases, File, load_json}
use liderahenk_test_platform.Evidence.Accepts.Bundles.{
  bundle_of, IsLog, IsVerdictOf, IsLog-write_artifacts, validate-write_artifacts,
}
use liderahenk_test_platform.Evidence.{validate_registration_evidence}
use liderahenk_test_platform.Orchestrator.{
  Environment, State, init, empty_snapshot, verdict_from, verdict_of, write_artifacts,
  collect_verdict,
}

-- If the verdict passes, then only expected agents were connected.
abbrev pub NoStrangers : Verdict → Type 0
NoStrangers v =
    v.evaluation.status ≡ "pass" → IsSubset v.snapshot.xmpp_connected v.snapshot.ldap_ids

empty-IsSortedSnapshot : (m : RunManifest) → IsSortedSnapshot (empty_snapshot m)
unfolding empty_snapshot
empty-IsSortedSnapshot m = record {
  ldap = tt;
  registered = tt;
  connected = tt;
  c_agents = tt;
  domain = tt;
  tree = tt;
}

module _ (m : RunManifest) (timed_out : Bool) where
  verdict_from-IsVerdictOf :
      (s : Snapshot) (errors : List String)
      → IsSortedSnapshot s
      → s.expected_agents ≡ m.expected_agents
      → NoStrangers (verdict_from m timed_out s errors)
      → IsVerdictOf m (verdict_from m timed_out s errors)
  unfolding verdict_from
  verdict_from-IsVerdictOf s errors sorted expected ns = record {
    run = refl;
    profile = refl;
    expected = refl;
    agents = unfold evaluate_snapshot in refl;
    sound = elim (evaluate_snapshot_consistent s timed_out errors) [
      | inl (status, checks, failed, taxonomy) ↦
          let ready = pass_agents_ready s timed_out errors sorted status (ns status) in
          inl (status, checks, failed, taxonomy, ready.2 ∙ expected)
      | inr (status, _) ↦ inr status
    ];
  }

  verdict_of-IsVerdictOf :
      (r : Result Snapshot)
      → Returns (λ s. IsSortedSnapshot s × (s.expected_agents ≡ m.expected_agents)) r
      → NoStrangers (verdict_of m timed_out r)
      → IsVerdictOf m (verdict_of m timed_out r)
  unfolding verdict_of
  verdict_of-IsVerdictOf (ok s) h ns = verdict_from-IsVerdictOf s [] h.0 h.1 ns
  verdict_of-IsVerdictOf (err e) h ns =
      verdict_from-IsVerdictOf (empty_snapshot m) (e ∷ []) (empty-IsSortedSnapshot m)
        (unfold empty_snapshot in refl) ns

Returns-both :
    {A : Type 0} (P Q : A → Type 0) (r : Result A)
    → Returns P r
    → Returns Q r
    → Returns (λ a. P a × Q a) r
Returns-both P Q (ok a) p q = (p, q)
Returns-both P Q (err e) p q = tt

module _ (repr hash_payload : Value → String) where
  module _ (e : Environment) where
    pub collect_verdict-IsVerdictOf :
        (m : RunManifest) (timed_out : Bool) (w : e.World)
        → NoStrangers (collect_verdict repr hash_payload e m timed_out w).0
        → IsVerdictOf m (collect_verdict repr hash_payload e m timed_out w).0
    unfolding collect_verdict
    collect_verdict-IsVerdictOf m timed_out w ns =
        let (now, surfaces, w') = e.observe w in
        verdict_of-IsVerdictOf m timed_out _
          (Returns-both _ _ _
            (collect_snapshot-IsSortedSnapshot repr hash_payload m.runtime_profile m.expected_agents
              now surfaces)
            (collect_snapshot-expected_agents repr hash_payload m.runtime_profile m.expected_agents
              now surfaces))
          ns

-- What every round keeps: the log is one of the run `m`, and the manifest is still that of `m`.
pub record IsKept (m : RunManifest) (s : State) : Type 0 where
  pub log : IsLog m.run_id s.files.events
  pub run : s.manifest.run_id ≡ m.run_id
  pub low : s.manifest.min_backoff_seconds ≡ m.min_backoff_seconds
  pub high : s.manifest.max_backoff_seconds ≡ m.max_backoff_seconds

pub init-IsKept : (m : RunManifest) → IsKept m (init m)
unfolding init
init-IsKept m = record {
  log = record { events = []; as_data = refl; each = tt };
  run = refl;
  low = refl;
  high = refl;
}

-- The validator's report on the files and on the reports of the runtime beside them.
abbrev pub IsAccepted : (Value → String) → File → File → RunManifest → Verdict → State → Type 0
IsAccepted repr core operational m v s =
    validate_registration_evidence repr (bundle_of s.files core operational)
    ≡ ok (record {
      valid = true;
      run_id = str m.run_id;
      required = 4;
      event_count = length s.files.events;
      status = str v.evaluation.status;
      errors = [];
    })

-- A round writes one event.
events_grow :
    (s : State) (v : Verdict) (attempt : ℕ) (phase : String)
    → length (write_artifacts v attempt phase s).files.events ≡ length s.files.events + 1
unfolding write_artifacts
events_grow s v attempt phase = length-append s.files.events _

module _ (m : RunManifest) (s : State) (v : Verdict) (kept : IsKept m s)
    (of_run : IsVerdictOf s.manifest v) where
  own-IsLog : IsLog s.manifest.run_id s.files.events
  own-IsLog = subst (λ r. IsLog r s.files.events) (sym kept.run) kept.log

  module _ (repr : Value → String) (attempt : ℕ) (phase : String) (some_attempt : 0 < attempt)
      (known_phase : contains event_phases phase ≡ true) where
    pub write_artifacts-IsKept : IsKept m (write_artifacts v attempt phase s)
    write_artifacts-IsKept = record {
      log =
          subst (λ r. IsLog r (write_artifacts v attempt phase s).files.events) kept.run
            (IsLog-write_artifacts repr s v attempt phase of_run own-IsLog some_attempt
              known_phase);
      run = unfold write_artifacts in kept.run;
      low = unfold write_artifacts in kept.low;
      high = unfold write_artifacts in kept.high;
    }

    -- The bundle after the round is accepted.
    pub write_artifacts-IsAccepted :
        (core operational : File)
        → (load_json "runtime-core-report.json" core).1 ≡ []
        → (load_json "runtime-operational-report.json" operational).1 ≡ []
        → m.min_backoff_seconds ≤ m.max_backoff_seconds
        → IsAccepted repr core operational m v (write_artifacts v attempt phase s)
    write_artifacts-IsAccepted core operational core_loads operational_loads backoff =
        validate-write_artifacts repr s v attempt phase of_run own-IsLog some_attempt known_phase
          core operational (rw (kept.low, kept.high) backoff) core_loads operational_loads
        ∙ rw (events_grow s v attempt phase, kept.run) refl
