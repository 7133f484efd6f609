-- ===== src/Orchestrator.antt =====
-- The registration orchestrator, platform/services/registration-orchestrator/orchestrator.py.
-- Time, the sleeps and what the adapters answer are an environment; `repr` and `hash_payload` are
-- those of the snapshot's collection.
pub mod Rounds
pub mod Settle
use liderahenk_test_platform.Base.{
  ℕ, zero, suc, ◌+◌, ◌-◌, ◌*◌, ◌≤◌, ◌<◌, min, String, Bool, true, false, Option, none, some, List,
  [], ◌∷◌, ◌++◌, ◌==◌, leb, if◌then◌else◌,
}
use mathlib.Core.Option
use liderahenk_test_platform.Json.{ℤ, Value, null, obj, fields}
use liderahenk_test_platform.Result.{Result, ok, err}
use liderahenk_test_platform.Snapshot.{Surfaces, Snapshot, collect_snapshot}
use liderahenk_test_platform.Verdict.{evaluate_snapshot}
use liderahenk_test_platform.Artifacts.{
  RunManifest, Verdict, ArtifactFiles, manifest_json, manifest_file, verdict_json, snapshot_json,
  build_failure_summary, event_json,
}

-- The clock counts ticks, `second` of them in a second. `observe` gives the time stamp of a
-- collection and the answers of the adapters.
pub record Environment : Type 1 where
  pub World : Type 0
  pub second : ℕ
  pub monotonic : World → ℕ
  pub sleep : ℕ → World → World
  pub observe : World → String × Surfaces × World

-- The clock does not run backwards, and a sleep lasts as long as it was asked to.
pub record IsClock (e : Environment) : Type 0 where
  pub second_pos : 0 < e.second
  pub sleep_lasts : (d : ℕ) (w : e.World) → e.monotonic w + d ≤ e.monotonic (e.sleep d w)
  pub observe_lasts : (w : e.World) → e.monotonic w ≤ e.monotonic (e.observe w).2

-- What the object holds and the files that it has written.
pub record State : Type 0 where
  pub manifest : RunManifest
  pub files : ArtifactFiles

-- `__init__`: the manifest is written and the events start empty.
unfoldable pub init : RunManifest → State
init m = record {
  manifest = m;
  files = record {
    run_manifest = obj (manifest_json m);
    registration_verdict = none;
    failure_summary = none;
    registration_snapshot = none;
    events = [];
  };
}

unfoldable pub empty_snapshot : RunManifest → Snapshot
empty_snapshot m = record {
  runtime_profile = m.runtime_profile;
  expected_agents = m.expected_agents;
  captured_at = m.started_at;
  ldap_ids = [];
  xmpp_registered = [];
  xmpp_connected = [];
  c_agent_ids = [];
  domain_agent_ids = [];
  tree_agent_ids = [];
  dashboard = record { total = null; online = null };
  config_fingerprint = null;
}

verdict_from : RunManifest → Bool → Snapshot → List String → Verdict
verdict_from m timed_out s errors = record {
  run_id = m.run_id;
  runtime_profile = m.runtime_profile;
  expected_agents = m.expected_agents;
  evaluation = evaluate_snapshot s timed_out errors;
  snapshot = s;
}

-- An adapter's exception gives the verdict of an empty snapshot.
unfoldable pub verdict_of : RunManifest → Bool → Result Snapshot → Verdict
unfolding verdict_from
verdict_of m timed_out (ok s) = verdict_from m timed_out s []
verdict_of m timed_out (err e) = verdict_from m timed_out (empty_snapshot m) (e ∷ [])

unfoldable pub write_artifacts : Verdict → ℕ → String → State → State
write_artifacts v attempt phase s =
    let m : RunManifest = record (s.manifest) {
      last_verdict_at = some v.evaluation.captured_at;
      last_status = some v.evaluation.status;
      attempt_count = some attempt;
    } in
    record {
      manifest = m;
      files = record {
        run_manifest = obj (manifest_file m);
        registration_verdict = some (obj (verdict_json v));
        failure_summary = some (obj (build_failure_summary m v));
        registration_snapshot = some (
            obj (
              fields
                (("snapshot", snapshot_json v.snapshot) ∷ ("verdict", obj (verdict_json v)) ∷ [])));
        events = s.files.events ++ (obj (event_json m v attempt phase) ∷ []);
      };
    }

-- `get("attemptCount", 0)`
abbrev pub from_count : Option ℕ → ℕ
from_count none = 0
from_count (some n) = n

module _ (repr hash_payload : Value → String) (e : Environment) where
  unfoldable pub collect_verdict : RunManifest → Bool → e.World → Verdict × e.World
  unfolding verdict_of
  collect_verdict m timed_out w =
      let (now, surfaces, w') = e.observe w in
      (
        verdict_of m timed_out
            (collect_snapshot repr hash_payload m.runtime_profile m.expected_agents now surfaces),
        w',
      )

  -- One collection and its artifacts.
  unfoldable pub record_verdict : Bool → ℕ → String → State → e.World → Verdict × State × e.World
  unfolding collect_verdict
  record_verdict timed_out attempt phase s w =
      let (v, w') = collect_verdict s.manifest timed_out w in
      (v, write_artifacts v attempt phase s, w')

  -- The loop of `settle_registration`, with fuel; `none` means that the fuel ran out. `deadline` is
  -- in ticks, and `attempt` counts the rounds before this one.
  unfoldable pub settle_loop : ℕ → ℕ → ℕ → ℕ → State → e.World → Option (Verdict × State × e.World)
  settle_loop zero deadline backoff attempt s w = none
  settle_loop (suc fuel) deadline backoff attempt s w =
      let (v, s', w') = record_verdict false (attempt + 1) "settle" s w in
      let next =
        settle_loop fuel deadline (min (backoff * 2) s.manifest.max_backoff_seconds) (attempt + 1)
          s' (e.sleep (min (backoff * e.second) (deadline - e.monotonic w')) w') in
      if v.evaluation.status == "pass"
      then some (v, s', w')
      else if leb deadline (e.monotonic w')
      then some (record_verdict true (attempt + 1) "timeout" s' w')
      else next

  unfoldable pub settle_registration : ℕ → State → e.World → Option (Verdict × State × e.World)
  unfolding settle_loop
  settle_registration fuel s w =
      settle_loop fuel (e.monotonic w + s.manifest.timeout_seconds * e.second)
        s.manifest.min_backoff_seconds 0 s w

  -- Rounds of the endless loop of `run_forever`, after `attempt` earlier ones.
  unfoldable pub steady_rounds : ℕ → ℕ → ℕ → State → e.World → State × e.World
  steady_rounds interval zero attempt s w = (s, w)
  steady_rounds interval (suc n) attempt s w =
      let (v, s', w') = record_verdict false (attempt + 1) "steady-state" s w in
      steady_rounds interval n (attempt + 1) s' (e.sleep (interval * e.second) w')

  -- `run_forever`, stopped after `n` rounds of its endless loop.
  unfoldable pub run_for : ℕ → ℕ → ℕ → State → e.World → Option (State × e.World)
  unfolding settle_registration
  run_for interval fuel n s w =
      Option.map
        (λ (v, s', w'). steady_rounds interval n (from_count s'.manifest.attempt_count) s' w')
        (settle_registration fuel s w)
